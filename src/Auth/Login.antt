-- ===== src/Auth/Login.antt =====
-- Logging in and out (apps/api/src/auth/auth.controller.ts).
pub mod Laws
pub mod Lockout
pub mod Admitted
use ikg_studio_model_trainin.Common.{
  ℕ, ◌+◌, ◌*◌, Bool, true, false, not, ◌&&◌, ◌||◌, Option, none, some, String, take_first, update,
  leb, ◌==◌, str_eq, trim, lower_text, is_empty_text, if◌then◌else◌,
}
use ikg_studio_model_trainin.Json.{Fields, text, number, field, end}
use ikg_studio_model_trainin.Http.{ApiError, Result, ok, err}
use ikg_studio_model_trainin.Database.{AuditActorType, AuditResult, AuditLog}
use ikg_studio_model_trainin.Auth.Store.{
  UserStatus, is_active_status, is_locked, User, Store, Settings, user_row, update_user, audit,
}
use ikg_studio_model_trainin.Auth.Session.{NewSession, create, revoke, revoke_all_for_user}

pub record Credentials : Type 0 where
  pub username : String
  pub password : String

-- What is drawn for a login: the correlation of its entries, the session's id and its token's hash.
pub record LoginIds : Type 0 where
  pub correlation_id : ℕ
  pub session_id : ℕ
  pub token_hash : ℕ

abbrev pub invalid_credentials : ApiError
invalid_credentials = record { code = "AUTH_INVALID_CREDENTIALS"; status = 401 }

-- The entry of a login or a lock, by a user or by the system under the given name.
unfoldable pub login_entry :
    AuditActorType
    → Option ℕ
    → Option String
    → String
    → ℕ
    → AuditResult
    → ℕ
    → Option String
    → Fields
    → AuditLog
login_entry actor user ref action id result correlation error metadata = record {
  actor_type = actor;
  actor_user_id = user;
  actor_ref = ref;
  action_code = action;
  resource_type_code = "USER";
  resource_id = id;
  result = result;
  correlation_id = correlation;
  error_code = error;
  error_message = none;
  before_snapshot = none;
  after_snapshot = none;
  diff = none;
  metadata = metadata;
}

-- The entry of a failed login; an unknown user has the null id, 0 here.
unfoldable pub failed_entry : ℕ → ℕ → Fields → AuditLog
unfolding login_entry
failed_entry id correlation metadata =
    login_entry AuditActorType.system none (some "login") "AUTH_LOGIN_FAILED" id AuditResult.failure
      correlation (some "AUTH_INVALID_CREDENTIALS") metadata

unfoldable pub counted_failure : ℕ → User → User
counted_failure now u = record u { failed_login_count = u.failed_login_count + 1; updated_at = now }

unfoldable pub locked : ℕ → Settings → User → User
locked now settings u = record u {
  status = UserStatus.locked;
  locked_until = some (now + settings.lockout_minutes * 60);
}

unfoldable pub is_lockable : Settings → ℕ → User → Bool
is_lockable settings k u =
    u.id == k
    && not (is_locked u.status)
    && leb settings.failed_login_threshold u.failed_login_count

unfoldable pub lock_if : ℕ → Settings → ℕ → Store → Option User → Store
unfolding is_lockable locked
lock_if now settings k s none = s
lock_if now settings k s (some u) =
    if leb settings.failed_login_threshold u.failed_login_count
    then record s { users = update (is_lockable settings k) (locked now settings) s.users }
    else s

-- `incrementFailedLogin`.
unfoldable pub increment_failed_login : ℕ → Settings → ℕ → Store → Store
unfolding update_user counted_failure lock_if
increment_failed_login now settings k s =
    let counted = update_user k (counted_failure now) s in
    lock_if now settings k counted (user_row k counted)

abbrev pub is_past : ℕ → Option ℕ → Bool
is_past now none = false
is_past now (some t) = leb t now

-- The lock's time is over.
unfoldable pub is_unlockable : ℕ → User → Bool
is_unlockable now u = is_locked u.status && is_past now u.locked_until

unfoldable pub unlocked : ℕ → User → User
unlocked now u = record u {
  status = UserStatus.active;
  failed_login_count = 0;
  locked_until = none;
  updated_at = now;
}

unfoldable pub auto_unlock : ℕ → ℕ → User → Store → Store
unfolding is_unlockable unlocked audit login_entry
auto_unlock now correlation u s =
    if is_unlockable now u
    then audit
        (login_entry AuditActorType.system none (some "auto-unlock") "AUTH_ACCOUNT_AUTO_UNLOCKED"
          u.id AuditResult.success correlation none (field "username" (text u.username) end))
        (record s {
          users = update (λ x. x.id == u.id && is_locked x.status) (unlocked now) s.users;
        })
    else s

abbrev pub lock_reason : UserStatus → String
lock_reason UserStatus.locked = "ACCOUNT_LOCKED"
lock_reason _ = "ACCOUNT_DISABLED"

unfoldable pub logged_in : ℕ → User → User
logged_in now u = record u {
  failed_login_count = 0;
  locked_until = none;
  last_login_at = some now;
  updated_at = now;
}

unfoldable pub normalized : Credentials → String
normalized c = lower_text (trim c.username)

-- The row that the name of a login stands for.
unfoldable pub named_user : String → Store → Option User
named_user name s = take_first (λ u. str_eq (lower_text u.username) name) s.users

-- `verify` and `needsRehash` of the password hash, and the new hash of a password, are argon2's.
module _ (verify : String → String → Bool) (needs_rehash : String → Bool)
    (rehash : String → String) where
  unfoldable pub rehashed : ℕ → Credentials → User → User
  rehashed now c u = record u { password_hash = rehash c.password; password_updated_at = now }

  unfoldable pub refresh_hash : ℕ → Credentials → User → Store → Store
  unfolding rehashed update_user
  refresh_hash now c u s =
      if needs_rehash u.password_hash then update_user u.id (rehashed now c) s else s

  -- The end of a login that is accepted.
  unfoldable pub accept : ℕ → Settings → LoginIds → Credentials → User → Store → Store
  unfolding refresh_hash update_user logged_in audit login_entry create
  accept now settings ids c u s =
      audit
        (login_entry AuditActorType.user (some u.id) none "AUTH_LOGIN_SUCCEEDED" u.id
          AuditResult.success ids.correlation_id none (field "username" (text u.username) end))
        (create now settings ids.token_hash
          (record {
            id = ids.session_id;
            user_id = u.id;
            role = u.role;
            status = u.status;
            must_change_password = u.must_change_password;
            password_updated_at = u.password_updated_at;
          })
          (update_user u.id (logged_in now) (refresh_hash now c u s)))

  unfoldable pub login_fresh :
      ℕ → Settings → LoginIds → Credentials → Store → Option User → Store × Result ℕ
  unfolding normalized increment_failed_login audit failed_entry accept
  login_fresh now settings ids c s none = (s, err invalid_credentials)
  login_fresh now settings ids c s (some u) =
      if not (is_active_status u.status)
      then (
        audit
            (failed_entry u.id ids.correlation_id (
              field "submitted_username" (text (normalized c))
                (field "failure_reason" (text (lock_reason u.status)) end)))
            (increment_failed_login now settings u.id s),
        err invalid_credentials,
      )
      else if not (verify u.password_hash c.password)
      then (
        audit
            (failed_entry u.id ids.correlation_id (
              field "submitted_username" (text (normalized c)) (
                field "failure_reason" (text "PASSWORD_MISMATCH")
                  (field "failed_login_count" (number (u.failed_login_count + 1)) end))))
            (increment_failed_login now settings u.id s),
        err invalid_credentials,
      )
      else (accept now settings ids c u s, ok u.id)

  unfoldable pub login_named :
      ℕ → Settings → LoginIds → Credentials → Store → Option User → Store × Result ℕ
  unfolding normalized audit failed_entry auto_unlock login_fresh
  login_named now settings ids c s none = (
    audit
        (failed_entry 0 ids.correlation_id (
          field "submitted_username" (text (normalized c))
            (field "failure_reason" (text "USER_NOT_FOUND") end)))
        s,
    err invalid_credentials,
  )
  login_named now settings ids c s (some u) =
      let usable = auto_unlock now ids.correlation_id u s in
      login_fresh now settings ids c usable (user_row u.id usable)

  -- `login`: the user's id, or the one error that it knows.
  unfoldable pub login : ℕ → Settings → LoginIds → Credentials → Store → Store × Result ℕ
  unfolding normalized named_user login_named
  login now settings ids c s =
      if is_empty_text c.username || is_empty_text c.password
      then (s, err invalid_credentials)
      else login_named now settings ids c s (named_user (normalized c) s)

-- `logout`: the token's hash and the user, where the request has them.
unfoldable pub logout : ℕ → ℕ → Option ℕ → Option ℕ → Store → Store
unfolding revoke audit login_entry
logout now correlation none user s = s
logout now correlation (some h) none s = revoke now h (some "USER_LOGOUT") s
logout now correlation (some h) (some k) s =
    audit
      (login_entry AuditActorType.user (some k) none "AUTH_LOGOUT" k AuditResult.success correlation
        none end)
      (revoke now h (some "USER_LOGOUT") s)

-- `logoutAll`.
unfoldable pub logout_all : ℕ → ℕ → ℕ → Store → Store
unfolding revoke_all_for_user audit login_entry
logout_all now correlation k s =
    audit
      (login_entry AuditActorType.user (some k) none "AUTH_LOGOUT_ALL" k AuditResult.success
        correlation none end)
      (revoke_all_for_user now k none s).0
