-- ===== src/Auth/Password.antt =====
-- A user's own password and sessions (apps/api/src/auth/auth.controller.ts: `changePassword`,
-- `deleteSession`; apps/api/src/auth/password.service.ts).
pub mod Laws
pub mod Sessions
use ikg_studio_model_trainin.Common.{
  ℕ, Bool, true, false, not, ◌&&◌, ◌||◌, Option, none, some, String, take_first, update, ◌==◌,
  str_eq, is_empty_text, if◌then◌else◌,
}
use ikg_studio_model_trainin.Json.{text, number, field, end}
use ikg_studio_model_trainin.Http.{ApiError, Result, ok, err}
use ikg_studio_model_trainin.Database.{AuditActorType, AuditResult}
use ikg_studio_model_trainin.Auth.Store.{User, UserSession, Store, user_row, update_user, audit}
use ikg_studio_model_trainin.Auth.Session.{
  revoked, update_session_password_version, revoke_session_by_id,
}
use ikg_studio_model_trainin.Auth.Login.{login_entry}

pub record PasswordChange : Type 0 where
  pub current_password : String
  pub new_password : String
  pub new_password_confirmation : String

-- `validatePolicy`: the name and the display name are not read.
unfoldable pub validate_policy : String → Option String
validate_policy password =
    if is_empty_text password then some "Password must not be empty" else none

abbrev pub is_incomplete : PasswordChange → Bool
is_incomplete c =
    is_empty_text c.current_password
    || is_empty_text c.new_password
    || is_empty_text c.new_password_confirmation

-- The sessions that a change of password ends: the user's, but the one of the given token.
unfoldable pub is_other_session : ℕ → Option ℕ → UserSession → Bool
is_other_session owner none r = r.user_id == owner
is_other_session owner (some h) r = r.user_id == owner && not (r.session_token_hash == h)

unfoldable pub end_others : ℕ → ℕ → Option ℕ → Store → Store
unfolding is_other_session revoked
end_others now owner token s = record s {
  user_sessions =
      update (is_other_session owner token) (revoked now (some "PASSWORD_CHANGED")) s.user_sessions;
}

abbrev with_version : ℕ → UserSession → UserSession
with_version version r = record r { created_password_version = version }

-- The current session takes the new version, in its row and in Redis.
unfoldable pub keep_current : ℕ → Option ℕ → Store → Store
unfolding update_session_password_version
keep_current now none s = s
keep_current now (some h) s = update_session_password_version h now (record s {
  user_sessions = update (λ r. r.session_token_hash == h) (with_version now) s.user_sessions;
})

unfoldable pub with_password : ℕ → String → User → User
with_password now hash u = record u {
  password_hash = hash;
  password_updated_at = now;
  must_change_password = false;
  updated_at = now;
}

-- `verify` and `hash` are argon2's.
module _ (verify : String → String → Bool) (hash : String → String) where
  -- The transaction, and the session kept.
  unfoldable pub apply_change : ℕ → ℕ → ℕ → Option ℕ → PasswordChange → User → Store → Store
  unfolding with_password end_others keep_current update_user audit login_entry
  apply_change now correlation k token c u s = keep_current now token (
      end_others now k token (
        audit
          (login_entry AuditActorType.user (some k) none "USER_PASSWORD_CHANGED" k
            AuditResult.success correlation none (field "username" (text u.username) end))
          (update_user k (with_password now (hash c.new_password)) s)))

  unfoldable pub change_policy :
      ℕ → ℕ → ℕ → Option ℕ → PasswordChange → User → Store → Option String → Store × Result {0} Unit
  unfolding apply_change
  change_policy now correlation k token c u s (some message) =
      (s, err (record { code = "AUTH_PASSWORD_POLICY_FAILED"; status = 400 }))
  change_policy now correlation k token c u s none =
      (apply_change now correlation k token c u s, ok tt)

  unfoldable pub change_found :
      ℕ → ℕ → ℕ → Option ℕ → PasswordChange → Store → Option User → Store × Result {0} Unit
  unfolding change_policy validate_policy
  change_found now correlation k token c s none =
      (s, err (record { code = "RESOURCE_NOT_FOUND"; status = 404 }))
  change_found now correlation k token c s (some u) =
      if not (verify u.password_hash c.current_password)
      then (s, err (record { code = "AUTH_CURRENT_PASSWORD_INVALID"; status = 400 }))
      else if verify u.password_hash c.new_password
      then (s, err (record { code = "AUTH_PASSWORD_POLICY_FAILED"; status = 400 }))
      else change_policy now correlation k token c u s (validate_policy c.new_password)

  -- `changePassword` of the request's user, with the hash of the request's token.
  unfoldable pub change_password :
      ℕ → ℕ → Option ℕ → Option ℕ → PasswordChange → Store → Store × Result {0} Unit
  unfolding change_found
  change_password now correlation none token c s =
      (s, err (record { code = "AUTH_SESSION_EXPIRED"; status = 401 }))
  change_password now correlation (some k) token c s =
      if is_incomplete c
      then (s, err (record { code = "VALIDATION_FAILED"; status = 400 }))
      else if not (str_eq c.new_password c.new_password_confirmation)
      then (s, err (record { code = "VALIDATION_FAILED"; status = 400 }))
      else change_found now correlation k token c s (user_row k s)

abbrev is_current : Option ℕ → UserSession → Bool
is_current none r = false
is_current (some h) r = r.session_token_hash == h

delete_found : ℕ → ℕ → ℕ → Option ℕ → ℕ → Store → Option UserSession → Store × Result {0} Unit
unfolding revoke_session_by_id audit login_entry
delete_found now correlation k token id s none =
    (s, err (record { code = "RESOURCE_NOT_FOUND"; status = 404 }))
delete_found now correlation k token id s (some r) =
    if is_current token r then (s, err (record { code = "RESOURCE_CONFLICT"; status = 409 })) else (
      audit
          (login_entry AuditActorType.user (some k) none "AUTH_SESSION_REVOKED" k
            AuditResult.success correlation none (field "session_id" (number id) end))
          (revoke_session_by_id now id k (some "USER_REVOKED") s).0,
      ok tt,
    )

-- `deleteSession`, of one of the request's user's own.
unfoldable pub delete_session : ℕ → ℕ → Option ℕ → Option ℕ → ℕ → Store → Store × Result {0} Unit
unfolding delete_found
delete_session now correlation none token id s =
    (s, err (record { code = "AUTH_SESSION_EXPIRED"; status = 401 }))
delete_session now correlation (some k) token id s =
    delete_found now correlation k token id s
      (take_first (λ r. r.id == id && r.user_id == k) s.user_sessions)
