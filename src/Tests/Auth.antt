-- ===== src/Tests/Auth.antt =====
-- Sessions and the guard at a concrete user.
use ikg_studio_model_trainin.Common.{
  ℕ, ◌+◌, ◌*◌, arith, ◌≡◌, refl, Bool, true, false, [], ◌∷◌, none, some, String,
}
use ikg_studio_model_trainin.Auth.Store.{
  UserRole, UserStatus, User, UserSession, SessionData, Settings, Store,
}
use ikg_studio_model_trainin.Auth.Session.{
  NewSession, create, load, data_of, refreshed, validate, set_cached, revoke, revoke_all_for_user,
}
use ikg_studio_model_trainin.Auth.Session.Laws.{
  Granted, validate-Granted, revoke-validate, revoke_all-validate,
}
use ikg_studio_model_trainin.Auth.Session.Created.{create-validate}
use ikg_studio_model_trainin.Auth.Permission.{PermissionCode, has_permission}
use ikg_studio_model_trainin.Auth.Guard.{Route, Request, CurrentUser, can_activate}
use ikg_studio_model_trainin.Auth.Guard.Laws.{Admitted, can_activate-Admitted}

abbrev pub alice : User
alice = record {
  id = 1;
  username = "Alice";
  display_name = "Alice";
  email = none;
  password_hash = "hash-1";
  role = UserRole.user;
  status = UserStatus.active;
  failed_login_count = 0;
  locked_until = none;
  last_login_at = none;
  password_updated_at = 50;
  must_change_password = false;
  updated_at = 50;
  updated_by_user_id = none;
  disabled_at = none;
  disabled_by_user_id = none;
  row_version = 1;
}

abbrev pub alice_session : UserSession
alice_session = record {
  id = 8;
  user_id = 1;
  session_token_hash = 105;
  last_seen_at = 900;
  idle_expires_at = 2000;
  absolute_expires_at = 9000;
  revoked_at = none;
  revoked_reason = none;
  created_password_version = 50;
}

abbrev pub store : Store
store = record {
  users = alice ∷ [];
  user_sessions = alice_session ∷ [];
  audit_logs = [];
  outbox_events = [];
  redis = λ h. none;
}

abbrev pub settings : Settings
settings = record {
  failed_login_threshold = 5;
  lockout_minutes = 15;
  session_idle_minutes = 30;
  session_absolute_hours = 12;
}

abbrev pub granted : SessionData
granted = refreshed 1000 settings (data_of 105 alice_session alice) alice

validate-Granted_example : Granted 1000 settings 105 store granted
unfolding validate load data_of refreshed
validate-Granted_example = validate-Granted 1000 settings 105 store granted refl

revoke-validate_example :
    (validate 1200 settings 105 (set_cached 105 (some granted) (revoke 1100 105 none store))).1
    ≡ none
revoke-validate_example = revoke-validate 1100 1200 settings 105 none store (some granted)

revoke_all-validate_example :
    (validate 1200 settings 105 (revoke_all_for_user 1100 1 (some 106) store).0).1 ≡ none
revoke_all-validate_example =
    revoke_all-validate 1100 1200 settings 1 105 (some 106) store alice_session refl refl refl

abbrev route : Route
route = record {
  is_public = false;
  method = "POST";
  path = "/api/v1/training-jobs";
  roles = [];
  permissions = PermissionCode.training_create ∷ [];
}

abbrev request : Request
request = record { token = some 5; csrf = some "nonce.hmac" }

abbrev hash : ℕ → ℕ
hash t = t + 100

abbrev signed : String → ℕ → Bool
signed header token = true

abbrev current : CurrentUser
current = record { id = 1; role = UserRole.user; must_change_password = false }

can_activate-Admitted_example : Admitted hash signed 1000 settings route request store current
unfolding can_activate validate has_permission
can_activate-Admitted_example =
    can_activate-Admitted hash signed 1000 settings route request store current refl

abbrev pub new_session : NewSession
new_session = record {
  id = 9;
  user_id = 1;
  role = UserRole.user;
  status = UserStatus.active;
  must_change_password = false;
  password_updated_at = 50;
}

create-validate_example :
    (d : SessionData) × ((validate 1500 settings 107 (create 1000 settings 107 new_session store)).1
      ≡ some d)
    × (d.user_id ≡ new_session.user_id)
    × (d.role ≡ alice.role)
    × (d.idle_expires_at ≡ 1500 + settings.session_idle_minutes * 60)
create-validate_example =
    create-validate 1000 1500 settings 107 new_session store alice refl refl refl refl (omega arith)
      (omega arith)
