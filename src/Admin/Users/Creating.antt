-- ===== src/Admin/Users/Creating.antt =====
-- Creating an account (apps/api/src/admin/users/admin-users.service.ts).
use Prim.Native.Char.{code}
use ikg_studio_model_trainin.Common.{
  ℕ, Bool, true, false, not, ◌&&◌, ◌||◌, Option, none, some, String, [], ◌∷◌, ◌++◌, any, leb, ltb,
  ◌==◌, same_text, trim, is_empty_text, text_length, if◌then◌else◌,
}
use ikg_studio_model_trainin.Json.{number, text, boolean, Fields, field, end}
use ikg_studio_model_trainin.Http.{Result, ok, err}
use ikg_studio_model_trainin.Auth.Store.{UserRole, role_name, UserStatus, User, Store, audit}
use ikg_studio_model_trainin.Auth.Password.{validate_policy}
use ikg_studio_model_trainin.Admin.Users.Rows.{Act, refusal, nullable_text, entry}

pub data PasswordMode : Type 0 where
  manual generated : PasswordMode

pub record CreateParams : Type 0 where
  pub username : String
  pub display_name : String
  pub email : Option String
  pub role : UserRole
  pub password_mode : PasswordMode
  pub password : Option String

is_name_char : ℕ → Bool
is_name_char c =
    (leb b'a' c && leb c b'z')
    || (leb b'A' c && leb c b'Z')
    || (leb b'0' c && leb c b'9')
    || c == b'.'
    || c == b'_'
    || c == b'-'

are_name_chars : String → Bool
unfolding is_name_char
are_name_chars String.[] = true
are_name_chars (String.◌∷◌ c s) = is_name_char (code c) && are_name_chars s

-- `/^[a-zA-Z0-9._-]{3,64}$/`.
unfoldable pub is_username : String → Bool
unfolding are_name_chars
is_username name = are_name_chars name && leb 3 (text_length name) && leb (text_length name) 64

-- The truthy values of an optional text.
abbrev pub given_text : Option String → Option String
given_text none = none
given_text (some t) = if is_empty_text t then none else some t

abbrev has_email : String → User → Bool
has_email e u = elim u.email [ none ↦ false | some o ↦ same_text o e ]

unfoldable pub is_email_taken : Option String → (User → Bool) → Store → Bool
is_email_taken none among s = false
is_email_taken (some e) among s = any (λ u. has_email (trim e) u && among u) s.users

abbrev pub trim_option : Option String → Option String
trim_option none = none
trim_option (some t) = some (trim t)

-- The password that a new account gets: the one given, or the one drawn.
manual_password : Option String → Result String
unfolding validate_policy
manual_password none = err (refusal "VALIDATION_FAILED" 400)
manual_password (some p) = elim (validate_policy p) [
  | none ↦ ok p
  | some message ↦ err (refusal "AUTH_PASSWORD_POLICY_FAILED" 400)
]

unfoldable pub chosen_password : PasswordMode → Option String → String → Result String
unfolding manual_password
chosen_password PasswordMode.generated password drawn = ok drawn
chosen_password PasswordMode.manual password drawn = manual_password (given_text password)

unfoldable pub new_user : ℕ → Act → ℕ → CreateParams → String → User
new_user now act id params hashed = record {
  id = id;
  username = trim params.username;
  display_name = trim params.display_name;
  email = trim_option params.email;
  password_hash = hashed;
  role = params.role;
  status = UserStatus.active;
  failed_login_count = 0;
  locked_until = none;
  last_login_at = none;
  password_updated_at = now;
  must_change_password = false;
  updated_at = now;
  updated_by_user_id = some act.actor_id;
  disabled_at = none;
  disabled_by_user_id = none;
  row_version = 1;
}

created_snapshot : ℕ → CreateParams → Fields
created_snapshot id params = field "id" (number id) (
    field "username" (text (trim params.username)) (
      field "display_name" (text (trim params.display_name)) (
        field "email" (nullable_text params.email) (
          field "role" (text (role_name params.role))
            (field "status" (text "ACTIVE") (field "must_change_password" (boolean false) end))))))

-- The transaction of `create`.
unfoldable pub insert_user :
    (String → String) → ℕ → Act → ℕ → CreateParams → Store → Result String → Store × Result User
unfolding is_email_taken new_user audit entry created_snapshot
insert_user hash now act id params s (err e) = (s, err e)
insert_user hash now act id params s (ok password) =
    let row = new_user now act id params (hash password) in
    if any (λ u. same_text u.username (trim params.username)) s.users
    then (s, err (refusal "USER_USERNAME_ALREADY_EXISTS" 409))
    else if is_email_taken (given_text params.email) (λ u. true) s
    then (s, err (refusal "USER_EMAIL_ALREADY_EXISTS" 409))
    else (
      audit (entry act "USER_CREATED" id none (some (created_snapshot id params)) none end)
          (record s { users = s.users ++ row ∷ [] }),
      ok row,
    )

-- `create`, with the id and the temporary password that are drawn; `hash` is argon2's.
unfoldable pub create :
    (String → String) → ℕ → Act → ℕ → String → CreateParams → Store → Store × Result User
unfolding is_username insert_user chosen_password
create hash now act id drawn params s =
    if not (is_username (trim params.username))
    then (s, err (refusal "VALIDATION_FAILED" 400))
    else if is_empty_text (trim params.display_name)
        || ltb 100 (text_length (trim params.display_name))
    then (s, err (refusal "VALIDATION_FAILED" 400))
    else insert_user hash now act id params s
        (chosen_password params.password_mode params.password drawn)
