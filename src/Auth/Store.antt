-- ===== src/Auth/Store.antt =====
-- The users, their sessions, and what Redis holds of these (packages/db/src/index.ts and
-- apps/api/src/auth/session.service.ts).
use ikg_studio_model_trainin.Common.{
  ℕ, Bool, true, false, List, [], ◌∷◌, ◌++◌, Option, String, take_first, update, ◌==◌,
}
use ikg_studio_model_trainin.Database.{AuditLog, OutboxEvent}
use ikg_studio_model_trainin.Audit.{redacted}

pub data UserRole : Type 0 where
  admin user : UserRole

pub data UserStatus : Type 0 where
  active disabled locked : UserStatus

abbrev pub is_active_status : UserStatus → Bool
is_active_status UserStatus.active = true
is_active_status _ = false

-- `UsersTable` and `UserSessionsTable`, with the columns that are used. A password's version is the
-- time of its last update.
pub record User : Type 0 where
  pub id : ℕ
  pub username : String
  pub display_name : String
  pub email : Option String
  pub password_hash : String
  pub role : UserRole
  pub status : UserStatus
  pub failed_login_count : ℕ
  pub locked_until : Option ℕ
  pub last_login_at : Option ℕ
  pub password_updated_at : ℕ
  pub must_change_password : Bool
  pub updated_at : ℕ
  pub updated_by_user_id : Option ℕ
  pub disabled_at : Option ℕ
  pub disabled_by_user_id : Option ℕ
  pub row_version : ℕ

pub record UserSession : Type 0 where
  pub id : ℕ
  pub user_id : ℕ
  pub session_token_hash : ℕ
  pub last_seen_at : ℕ
  pub idle_expires_at : ℕ
  pub absolute_expires_at : ℕ
  pub revoked_at : Option ℕ
  pub revoked_reason : Option String
  pub created_password_version : ℕ

pub record SessionData : Type 0 where
  pub session_id : ℕ
  pub user_id : ℕ
  pub role : UserRole
  pub status : UserStatus
  pub must_change_password : Bool
  pub password_updated_at : ℕ
  pub idle_expires_at : ℕ
  pub absolute_expires_at : ℕ

-- The tables that the account services write, and what Redis answers for each token's hash.
pub record Store : Type 0 where
  pub users : List User
  pub user_sessions : List UserSession
  pub audit_logs : List AuditLog
  pub outbox_events : List OutboxEvent
  pub redis : ℕ → Option SessionData

-- `SystemSettingsService`.
pub record Settings : Type 0 where
  pub failed_login_threshold : ℕ
  pub lockout_minutes : ℕ
  pub session_idle_minutes : ℕ
  pub session_absolute_hours : ℕ

abbrev pub is_admin : UserRole → Bool
is_admin UserRole.admin = true
is_admin UserRole.user = false

abbrev pub is_locked : UserStatus → Bool
is_locked UserStatus.locked = true
is_locked _ = false

abbrev pub is_disabled : UserStatus → Bool
is_disabled UserStatus.disabled = true
is_disabled _ = false

abbrev pub role_name : UserRole → String
role_name UserRole.admin = "ADMIN"
role_name UserRole.user = "USER"

abbrev pub status_name : UserStatus → String
status_name UserStatus.active = "ACTIVE"
status_name UserStatus.disabled = "DISABLED"
status_name UserStatus.locked = "LOCKED"

-- `UPDATE users … WHERE id = k`.
unfoldable pub update_user : ℕ → (User → User) → Store → Store
update_user k f s = record s { users = update (λ u. u.id == k) f s.users }

-- `auditService.append`, on these tables.
unfoldable pub audit : AuditLog → Store → Store
unfolding redacted
audit params s = record s { audit_logs = s.audit_logs ++ redacted params ∷ [] }

abbrev pub user_row : ℕ → Store → Option User
user_row k s = take_first (λ u. u.id == k) s.users

abbrev pub session_row : ℕ → Store → Option UserSession
session_row h s = take_first (λ r. r.session_token_hash == h) s.user_sessions
