-- ===== src/Auth/Guard.antt =====
-- The guard before every route (apps/api/src/auth/guards/auth.guard.ts).
pub mod Laws
use Prim.Native.String
use ikg_studio_model_trainin.Common.{
  ℕ, Bool, true, false, not, ◌&&◌, ◌||◌, List, [], ◌∷◌, Option, none, some, String, any, all,
  str_eq, is_empty_text, ◌==◌, if◌then◌else◌,
}
use ikg_studio_model_trainin.Auth.Store.{UserRole, SessionData, Store, Settings}
use ikg_studio_model_trainin.Auth.Session.{validate}
use ikg_studio_model_trainin.Http.{ApiError}
use ikg_studio_model_trainin.Auth.Permission.{PermissionCode, has_permission}

abbrev role_index : UserRole → ℕ
role_index UserRole.admin = 0
role_index UserRole.user = 1

abbrev role_eq : UserRole → UserRole → Bool
role_eq r q = role_index r == role_index q

-- What the decorators of a handler and its class say of a route; no decorator is an empty list.
pub record Route : Type 0 where
  pub is_public : Bool
  pub method : String
  pub path : String
  pub roles : List UserRole
  pub permissions : List PermissionCode

-- The session cookie and the CSRF header.
pub record Request : Type 0 where
  pub token : Option ℕ
  pub csrf : Option String

pub record CurrentUser : Type 0 where
  pub id : ℕ
  pub role : UserRole
  pub must_change_password : Bool

-- A public route sets no user.
pub data Verdict : Type 0 where
  passes : Verdict
  admits : CurrentUser → Verdict
  denies : ApiError → Verdict

abbrev pub session_expired : ApiError
session_expired = record { code = "AUTH_SESSION_EXPIRED"; status = 401 }

abbrev pub password_change_required : ApiError
password_change_required = record { code = "AUTH_PASSWORD_CHANGE_REQUIRED"; status = 403 }

abbrev pub csrf_token_invalid : ApiError
csrf_token_invalid = record { code = "AUTH_CSRF_TOKEN_INVALID"; status = 403 }

abbrev pub permission_denied : ApiError
permission_denied = record { code = "AUTH_PERMISSION_DENIED"; status = 403 }

abbrev includes : List String → String → Bool
includes words w = any (λ x. str_eq x w) words

-- `WRITE_METHODS` and `MUST_CHANGE_PASSWORD_ALLOWED`.
unfoldable pub is_write : Route → Bool
is_write r = includes ("POST" ∷ "PUT" ∷ "PATCH" ∷ "DELETE" ∷ []) r.method

unfoldable pub is_allowed_path : Route → Bool
is_allowed_path r =
    includes
      ("GET /api/v1/auth/me" ∷ "POST /api/v1/auth/change-password" ∷ "POST /api/v1/auth/logout"
        ∷ [])
      (String.◌++◌ r.method (String.◌++◌ " " r.path))

abbrev pub is_unrestricted : List UserRole → Bool
is_unrestricted [] = true
is_unrestricted (r ∷ roles) = false

unfoldable pub role_allowed : Route → UserRole → Bool
role_allowed r role = is_unrestricted r.roles || any (λ x. role_eq x role) r.roles

unfoldable pub permissions_allowed : Route → UserRole → Bool
permissions_allowed r role = all (λ p. has_permission role p) r.permissions

-- The hash of a token, and whether a CSRF header is signed for a session's token, by the keyed hash
-- of the platform.
module _ (hash : ℕ → ℕ) (signed : String → ℕ → Bool) where
  unfoldable pub csrf_valid : ℕ → Option String → Bool
  csrf_valid token none = false
  csrf_valid token (some header) = not (is_empty_text header) && signed header token

  unfoldable pub check_request : Route → Request → ℕ → SessionData → Verdict
  unfolding is_allowed_path is_write csrf_valid role_allowed permissions_allowed
  check_request r q token d =
      if d.must_change_password && not (is_allowed_path r)
      then Verdict.denies password_change_required
      else if is_write r && not (csrf_valid token q.csrf)
      then Verdict.denies csrf_token_invalid
      else if not (role_allowed r d.role)
      then Verdict.denies permission_denied
      else if not (permissions_allowed r d.role)
      then Verdict.denies permission_denied
      else Verdict.admits
          (record { id = d.user_id; role = d.role; must_change_password = d.must_change_password })

  unfoldable pub check_session : Route → Request → ℕ → Store × Option SessionData → Store × Verdict
  unfolding check_request
  check_session r q token (s, none) = (s, Verdict.denies session_expired)
  check_session r q token (s, some d) = (s, check_request r q token d)

  unfoldable pub check_token : ℕ → Settings → Route → Request → Option ℕ → Store → Store × Verdict
  unfolding check_session
  check_token now settings r q none s = (s, Verdict.denies session_expired)
  check_token now settings r q (some token) s =
      check_session r q token (validate now settings (hash token) s)

  -- `canActivate`.
  unfoldable pub can_activate : ℕ → Settings → Route → Request → Store → Store × Verdict
  unfolding check_token
  can_activate now settings r q s =
      if r.is_public then (s, Verdict.passes) else check_token now settings r q q.token s
