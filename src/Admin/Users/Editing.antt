-- ===== src/Admin/Users/Editing.antt =====
-- Editing an account (apps/api/src/admin/users/admin-users.service.ts).
use ikg_studio_model_trainin.Common.{
  ℕ, ◌+◌, Bool, false, not, ◌&&◌, Option, none, some, String, ◌==◌, str_eq, if◌then◌else◌,
}
use ikg_studio_model_trainin.Json.{text, object, Fields, field, end}
use ikg_studio_model_trainin.Http.{Result, ok, err}
use ikg_studio_model_trainin.Auth.Store.{
  UserRole, role_name, User, Store, user_row, update_user, audit,
}
use ikg_studio_model_trainin.Admin.Users.Rows.{
  Act, refusal, not_found, last_admin_protected, nullable_text, entry, enqueue_revoke,
  is_last_active_admin,
}
use ikg_studio_model_trainin.Admin.Users.Creating.{given_text, is_email_taken, trim_option}

-- A field that is left out is not changed; the email may be given as null.
pub record UpdateParams : Type 0 where
  pub display_name : Option String
  pub email : Option (Option String)
  pub role : Option UserRole
  pub row_version : ℕ

abbrev pub or_old : {A : Type 0} → Option A → A → A
or_old none old = old
or_old (some new) old = new

abbrev new_display_name : UpdateParams → User → String
new_display_name p u = or_old (trim_option p.display_name) u.display_name

abbrev new_email : UpdateParams → User → Option String
new_email p u = elim p.email [ none ↦ u.email | some e ↦ trim_option e ]

abbrev pub same_role : UserRole → UserRole → Bool
same_role a b = str_eq (role_name a) (role_name b)

-- Whether the role is given and is another.
unfoldable pub is_role_changed : UpdateParams → User → Bool
is_role_changed p u = elim p.role [ none ↦ false | some r ↦ not (same_role r u.role) ]

unfoldable pub edited : ℕ → Act → UpdateParams → User → User
edited now act p u = record u {
  display_name = new_display_name p u;
  email = new_email p u;
  role = or_old p.role u.role;
  row_version = u.row_version + 1;
  updated_at = now;
  updated_by_user_id = some act.actor_id;
}

profile : String → Option String → UserRole → Fields
profile display_name email role =
    field "display_name" (text display_name)
      (field "email" (nullable_text email) (field "role" (text (role_name role)) end))

-- `String(value)`.
shown : Option String → String
shown none = "null"
shown (some t) = t

change_of : String → Option String → Option String → Fields → Fields
unfolding shown
change_of key before after rest =
    if str_eq (shown before) (shown after)
    then rest
    else field key
        (object (field "before" (nullable_text before) (field "after" (nullable_text after) end)))
        rest

profile_diff : UpdateParams → User → Fields
unfolding change_of
profile_diff p u = change_of "display_name" (some u.display_name) (some (new_display_name p u)) (
    change_of "email" u.email (new_email p u)
      (change_of "role" (some (role_name u.role)) (some (role_name (or_old p.role u.role))) end))

role_of : UserRole → Fields
role_of r = field "role" (text (role_name r)) end

-- The second entry and the event of a change of role.
unfoldable pub record_role : ℕ → Act → ℕ → UpdateParams → User → Store → Store
unfolding is_role_changed enqueue_revoke audit entry role_of
record_role now act k p u s =
    if is_role_changed p u
    then enqueue_revoke now act k "USER_ROLE_CHANGED" (
        audit
          (entry act "USER_ROLE_CHANGED" k (some (role_of u.role))
            (some (role_of (or_old p.role u.role)))
            (some (
              field "role"
                (object (
                  field "before" (text (role_name u.role))
                    (field "after" (text (role_name (or_old p.role u.role))) end)))
                end))
            end)
          s)
    else s

unfoldable pub write_edit : ℕ → Act → ℕ → UpdateParams → User → Store → Store
unfolding update_user edited audit entry profile profile_diff record_role
write_edit now act k p u s = record_role now act k p u (
    audit
      (entry act "USER_UPDATED" k (some (profile u.display_name u.email u.role))
        (some (profile (new_display_name p u) (new_email p u) (or_old p.role u.role)))
        (some (profile_diff p u)) end)
      (update_user k (edited now act p) s))

unfoldable pub given_email : UpdateParams → Option String
given_email p = elim p.email [ none ↦ none | some e ↦ given_text e ]

unfoldable pub update_found : ℕ → Act → ℕ → UpdateParams → Store → Option User → Store × Result User
unfolding is_role_changed is_last_active_admin is_email_taken given_email write_edit edited
update_found now act k p s none = (s, err not_found)
update_found now act k p s (some u) =
    if not (u.row_version == p.row_version)
    then (s, err (refusal "USER_CONCURRENT_UPDATE" 409))
    else if is_role_changed p u && k == act.actor_id
    then (s, err (refusal "VALIDATION_FAILED" 400))
    else if is_role_changed p u && is_last_active_admin k s
    then (s, err last_admin_protected)
    else if is_email_taken (given_email p) (λ x. not (x.id == k)) s
    then (s, err (refusal "USER_EMAIL_ALREADY_EXISTS" 409))
    else (write_edit now act k p u s, ok (edited now act p u))

-- `update`.
unfoldable pub update : ℕ → Act → ℕ → UpdateParams → Store → Store × Result User
unfolding update_found
update now act k p s = update_found now act k p s (user_row k s)
