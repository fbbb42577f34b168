-- ===== src/Admin/Users/Rows.antt =====
-- What the operations on accounts share: the errors, the entries, the request to revoke a user's
-- sessions, and the guard of the last ADMIN (apps/api/src/admin/users/admin-users.service.ts).
use ikg_studio_model_trainin.Common.{
  ℕ, Bool, false, ◌&&◌, Option, none, some, String, [], ◌∷◌, ◌++◌, count, leb,
}
use ikg_studio_model_trainin.Json.{Json, null, number, text, Fields}
use ikg_studio_model_trainin.Http.{ApiError}
use ikg_studio_model_trainin.Database.{AuditActorType, AuditResult, AuditLog, Payload}
use ikg_studio_model_trainin.Auth.Store.{is_admin, is_active_status, User, Store, user_row}

-- Who acts, and what is drawn for the act.
pub record Act : Type 0 where
  pub actor_id : ℕ
  pub correlation_id : ℕ

abbrev pub refusal : String → ℕ → ApiError
refusal code status = record { code = code; status = status }

abbrev pub not_found : ApiError
not_found = record { code = "USER_NOT_FOUND"; status = 404 }

abbrev pub last_admin_protected : ApiError
last_admin_protected = record { code = "USER_LAST_ACTIVE_ADMIN_PROTECTED"; status = 409 }

abbrev pub nullable_number : Option ℕ → Json
nullable_number none = null
nullable_number (some n) = number n

abbrev pub nullable_text : Option String → Json
nullable_text none = null
nullable_text (some t) = text t

-- An entry of the actor on a user's account.
unfoldable pub entry :
    Act → String → ℕ → Option Fields → Option Fields → Option Fields → Fields → AuditLog
entry act action k before after diff metadata = record {
  actor_type = AuditActorType.user;
  actor_user_id = some act.actor_id;
  actor_ref = none;
  action_code = action;
  resource_type_code = "USER";
  resource_id = k;
  result = AuditResult.success;
  correlation_id = act.correlation_id;
  error_code = none;
  error_message = none;
  before_snapshot = before;
  after_snapshot = after;
  diff = diff;
  metadata = metadata;
}

-- The outbox event `user.sessions.revoke`.
unfoldable pub enqueue_revoke : ℕ → Act → ℕ → String → Store → Store
enqueue_revoke now act k reason s = record s {
  outbox_events =
      s.outbox_events
      ++ record {
        event_type = "user.sessions.revoke";
        aggregate_type_code = "USER";
        aggregate_id = k;
        payload = Payload.sessions_revoke k reason;
        correlation_id = act.correlation_id;
        available_at = now;
      }
        ∷ [];
}

abbrev pub is_active_admin : User → Bool
is_active_admin u = is_admin u.role && is_active_status u.status

unfoldable pub active_admins : Store → ℕ
active_admins s = count is_active_admin s.users

unfoldable pub is_guarded : ℕ → Option User → Bool
is_guarded admins none = false
is_guarded admins (some u) = is_admin u.role && leb admins 1

-- Whether `assertNotLastActiveAdmin` throws.
unfoldable pub is_last_active_admin : ℕ → Store → Bool
unfolding is_guarded active_admins
is_last_active_admin k s = is_guarded (active_admins s) (user_row k s)
