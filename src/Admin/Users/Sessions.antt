-- ===== src/Admin/Users/Sessions.antt =====
-- A user's sessions, as an ADMIN ends them (apps/api/src/admin/users/admin-users.service.ts).
use ikg_studio_model_trainin.Common.{ℕ, Option, none, some, if◌then◌else◌}
use ikg_studio_model_trainin.Json.{number, field, end}
use ikg_studio_model_trainin.Http.{Result, ok, err}
use ikg_studio_model_trainin.Auth.Store.{User, Store, user_row, audit}
use ikg_studio_model_trainin.Auth.Session.{revoke_session_by_id, revoke_all_for_user}
use ikg_studio_model_trainin.Admin.Users.Rows.{Act, refusal, not_found, entry}

unfoldable pub delete_found : ℕ → Act → ℕ → ℕ → Store → Option User → Store × Result {0} Unit
unfolding revoke_session_by_id audit entry
delete_found now act k id s none = (s, err not_found)
delete_found now act k id s (some u) =
    let done = revoke_session_by_id now id k (some "ADMIN_REVOKED") s in
    if done.1
    then (
      audit
          (entry act "AUTH_SESSION_REVOKED" k none none none
            (field "session_id" (number id) (field "target_user_id" (number k) end)))
          done.0,
      ok tt,
    )
    else (done.0, err (refusal "RESOURCE_NOT_FOUND" 404))

-- `deleteSession`.
unfoldable pub delete_session : ℕ → Act → ℕ → ℕ → Store → Store × Result {0} Unit
unfolding delete_found
delete_session now act k id s = delete_found now act k id s (user_row k s)

unfoldable pub revoke_all_found : ℕ → Act → ℕ → Store → Option User → Store × Result ℕ
unfolding revoke_all_for_user audit entry
revoke_all_found now act k s none = (s, err not_found)
revoke_all_found now act k s (some u) =
    let done = revoke_all_for_user now k none s in
    (
      audit
          (entry act "USER_SESSIONS_REVOKED" k none none none
            (field "target_user_id" (number k) (field "revoked_count" (number done.1) end)))
          done.0,
      ok done.1,
    )

-- `revokeAllSessions`.
unfoldable pub revoke_all_sessions : ℕ → Act → ℕ → Store → Store × Result ℕ
unfolding revoke_all_found
revoke_all_sessions now act k s = revoke_all_found now act k s (user_row k s)
