-- ===== src/Admin/Users/Status.antt =====
-- Disabling, enabling and unlocking an account, and setting its password
-- (apps/api/src/admin/users/admin-users.service.ts).
use ikg_studio_model_trainin.Common.{ℕ, false, not, Option, none, some, String, ◌==◌, if◌then◌else◌}
use ikg_studio_model_trainin.Json.{text, number, object, Fields, field, end}
use ikg_studio_model_trainin.Http.{Result, ok, err}
use ikg_studio_model_trainin.Auth.Store.{
  UserStatus, is_active_status, is_disabled, is_locked, status_name, User, Store, user_row,
  update_user, audit,
}
use ikg_studio_model_trainin.Admin.Users.Rows.{
  Act, refusal, not_found, last_admin_protected, nullable_number, nullable_text, entry,
  enqueue_revoke, is_last_active_admin,
}

unfoldable pub found : Option User → Result User
found none = err not_found
found (some u) = ok u

-- `findById`.
unfoldable pub find_by_id : ℕ → Store → Result User
unfolding found
find_by_id k s = found (user_row k s)

status_diff : String → String → Fields
status_diff before after =
    field "status" (object (field "before" (text before) (field "after" (text after) end))) end

status_is : String → Fields
status_is name = field "status" (text name) end

-- The entry of a change of status.
unfoldable pub status_entry :
    Act → String → User → UserStatus → Fields → Option String → Store → Store
unfolding audit entry status_diff status_is
status_entry act action u next before reason s =
    audit
      (entry act action u.id (some before) (some (status_is (status_name next)))
        (some (status_diff (status_name u.status) (status_name next)))
        (field "reason" (nullable_text reason) end))
      s

disabled_before : User → Fields
disabled_before u = field "status" (text (status_name u.status)) (
    field "disabled_at" (nullable_number u.disabled_at)
      (field "disabled_by_user_id" (nullable_number u.disabled_by_user_id) end))

locked_before : User → Fields
locked_before u = field "status" (text (status_name u.status)) (
    field "locked_until" (nullable_number u.locked_until)
      (field "failed_login_count" (number u.failed_login_count) end))

unfoldable pub disabled : ℕ → Act → User → User
disabled now act u = record u {
  status = UserStatus.disabled;
  disabled_at = some now;
  disabled_by_user_id = some act.actor_id;
  updated_at = now;
  updated_by_user_id = some act.actor_id;
}

unfoldable pub enabled : ℕ → Act → User → User
enabled now act u = record u {
  status = UserStatus.active;
  failed_login_count = 0;
  locked_until = none;
  disabled_at = none;
  disabled_by_user_id = none;
  updated_at = now;
  updated_by_user_id = some act.actor_id;
}

unfoldable pub unlocked : ℕ → Act → User → User
unlocked now act u = record u {
  status = UserStatus.active;
  failed_login_count = 0;
  locked_until = none;
  updated_at = now;
  updated_by_user_id = some act.actor_id;
}

unfoldable pub disable_found :
    ℕ → Act → ℕ → Option String → Store → Option User → Store × Result User
unfolding is_last_active_admin update_user disabled status_entry disabled_before enqueue_revoke
    find_by_id
disable_found now act k reason s none = (s, err not_found)
disable_found now act k reason s (some u) =
    if is_disabled u.status
    then (s, err (refusal "USER_ALREADY_DISABLED" 409))
    else if is_last_active_admin k s
    then (s, err last_admin_protected)
    else (
      enqueue_revoke now act k "USER_DISABLED" (
          status_entry act "USER_DISABLED" u UserStatus.disabled (disabled_before u) reason
            (update_user k (disabled now act) s)),
      find_by_id k s,
    )

-- `disable`. The row that it returns is read outside the transaction that changes it.
unfoldable pub disable : ℕ → Act → ℕ → Option String → Store → Store × Result User
unfolding disable_found
disable now act k reason s =
    if k == act.actor_id
    then (s, err (refusal "USER_CANNOT_DISABLE_SELF" 409))
    else disable_found now act k reason s (user_row k s)

unfoldable pub enable_found :
    ℕ → Act → ℕ → Option String → Store → Option User → Store × Result User
unfolding update_user enabled status_entry disabled_before find_by_id
enable_found now act k reason s none = (s, err not_found)
enable_found now act k reason s (some u) =
    if is_active_status u.status
    then (s, err (refusal "USER_ALREADY_ACTIVE" 409))
    else if not (is_disabled u.status)
    then (s, err (refusal "USER_INVALID_STATUS_TRANSITION" 409))
    else (
      status_entry act "USER_ENABLED" u UserStatus.active (disabled_before u) reason
          (update_user k (enabled now act) s),
      find_by_id k s,
    )

-- `enable`.
unfoldable pub enable : ℕ → Act → ℕ → Option String → Store → Store × Result User
unfolding enable_found
enable now act k reason s = enable_found now act k reason s (user_row k s)

unfoldable pub unlock_found :
    ℕ → Act → ℕ → Option String → Store → Option User → Store × Result User
unfolding update_user unlocked status_entry locked_before find_by_id
unlock_found now act k reason s none = (s, err not_found)
unlock_found now act k reason s (some u) =
    if not (is_locked u.status) then (s, err (refusal "USER_NOT_LOCKED" 409)) else (
      status_entry act "USER_UNLOCKED" u UserStatus.active (locked_before u) reason
          (update_user k (unlocked now act) s),
      find_by_id k s,
    )

-- `unlock`.
unfoldable pub unlock : ℕ → Act → ℕ → Option String → Store → Store × Result User
unfolding unlock_found
unlock now act k reason s = unlock_found now act k reason s (user_row k s)

unfoldable pub with_password : ℕ → Act → String → User → User
with_password now act hash u = record u {
  password_hash = hash;
  password_updated_at = now;
  must_change_password = false;
  updated_at = now;
  updated_by_user_id = some act.actor_id;
}

unfoldable pub set_password_found :
    (String → String) → ℕ → Act → ℕ → String → Store → Option User → Store × Result {0} Unit
unfolding update_user with_password audit entry enqueue_revoke
set_password_found hash now act k password s none = (s, err not_found)
set_password_found hash now act k password s (some u) = (
  enqueue_revoke now act k "USER_PASSWORD_RESET" (
      audit
        (entry act "USER_PASSWORD_RESET" k none none none (field "username" (text u.username) end))
        (update_user k (with_password now act (hash password)) s)),
  ok tt,
)

-- `setPassword`; `hash` is argon2's.
unfoldable pub set_password :
    (String → String) → ℕ → Act → ℕ → String → Store → Store × Result {0} Unit
unfolding set_password_found
set_password hash now act k password s = set_password_found hash now act k password s (user_row k s)
