-- ===== src/Auth/Session.antt =====
-- Sessions in the database and in Redis (apps/api/src/auth/session.service.ts).
pub mod Laws
pub mod Created
pub mod Loaded
use ikg_studio_model_trainin.Common.{
  ℕ, ◌+◌, ◌*◌, Bool, true, false, not, ◌&&◌, ◌||◌, List, Option, none, some, String, take_first,
  update, count, any, [], ◌∷◌, ◌++◌, ltb, leb, ◌==◌, if◌then◌else◌,
}
use ikg_studio_model_trainin.Auth.Store.{
  UserRole, UserStatus, is_active_status, User, UserSession, SessionData, Store, Settings, user_row,
  session_row,
}

-- `setex` and `del`. When an entry expires is not said here.
unfoldable pub set_cached : ℕ → Option SessionData → Store → Store
set_cached h d s = record s { redis = λ k. if k == h then d else s.redis k }

-- What `create` is given; the token is drawn by the caller, and `h` is its hash.
pub record NewSession : Type 0 where
  pub id : ℕ
  pub user_id : ℕ
  pub role : UserRole
  pub status : UserStatus
  pub must_change_password : Bool
  pub password_updated_at : ℕ

unfoldable pub create : ℕ → Settings → ℕ → NewSession → Store → Store
unfolding set_cached
create now settings h n s =
    let idle = now + settings.session_idle_minutes * 60 in
    let absolute = now + settings.session_absolute_hours * 3600 in
    set_cached h
      (some (record {
        session_id = h;
        user_id = n.user_id;
        role = n.role;
        status = n.status;
        must_change_password = n.must_change_password;
        password_updated_at = n.password_updated_at;
        idle_expires_at = idle;
        absolute_expires_at = absolute;
      }))
      (record s {
        user_sessions =
            s.user_sessions
            ++ record {
              id = n.id;
              user_id = n.user_id;
              session_token_hash = h;
              last_seen_at = now;
              idle_expires_at = idle;
              absolute_expires_at = absolute;
              revoked_at = none;
              revoked_reason = none;
              created_password_version = n.password_updated_at;
            }
              ∷ [];
      })

-- The data that the two rows give, where Redis has none.
unfoldable pub data_of : ℕ → UserSession → User → SessionData
data_of h r u = record {
  session_id = h;
  user_id = u.id;
  role = u.role;
  status = u.status;
  must_change_password = u.must_change_password;
  password_updated_at = u.password_updated_at;
  idle_expires_at = r.idle_expires_at;
  absolute_expires_at = r.absolute_expires_at;
}

unfoldable data_of_user : ℕ → UserSession → Option User → Option SessionData
unfolding data_of
data_of_user h r none = none
data_of_user h r (some u) = some (data_of h r u)

unfoldable data_of_session : ℕ → Store → Option UserSession → Option SessionData
unfolding data_of_user
data_of_session h s none = none
data_of_session h s (some r) = data_of_user h r (user_row r.user_id s)

unfoldable pub cached_or_read : ℕ → Store → Option SessionData → Option SessionData
unfolding data_of_session
cached_or_read h s (some d) = some d
cached_or_read h s none = data_of_session h s (session_row h s)

unfoldable pub load : ℕ → Store → Option SessionData
unfolding cached_or_read
load h s = cached_or_read h s (s.redis h)

-- The new expiry, and the columns taken afresh from the user's row.
unfoldable pub refreshed : ℕ → Settings → SessionData → User → SessionData
refreshed now settings d u = record d {
  idle_expires_at = now + settings.session_idle_minutes * 60;
  role = u.role;
  status = u.status;
  must_change_password = u.must_change_password;
}

unfoldable pub seen : ℕ → Settings → UserSession → UserSession
seen now settings r = record r {
  last_seen_at = now;
  idle_expires_at = now + settings.session_idle_minutes * 60;
}

-- The UPDATE and the write to Redis.
unfoldable pub extend : ℕ → Settings → ℕ → SessionData → User → Store → Store
unfolding refreshed seen set_cached
extend now settings h d u s = set_cached h (some (refreshed now settings d u)) (record s {
  user_sessions = update (λ r. r.session_token_hash == h) (seen now settings) s.user_sessions;
})

abbrev pub is_revoked : UserSession → Bool
is_revoked r = elim r.revoked_at [ none ↦ false | some t ↦ true ]

unfoldable pub check_session :
    ℕ → Settings → ℕ → SessionData → User → Store → Option UserSession → Store × Option SessionData
unfolding extend refreshed
check_session now settings h d u s none = (s, none)
check_session now settings h d u s (some r) =
    if is_revoked r
    then (s, none)
    else (extend now settings h d u s, some (refreshed now settings d u))

unfoldable pub check_user :
    ℕ → Settings → ℕ → SessionData → Store → Option User → Store × Option SessionData
unfolding check_session
check_user now settings h d s none = (s, none)
check_user now settings h d s (some u) =
    if not (is_active_status u.status)
    then (s, none)
    else if not (u.password_updated_at == d.password_updated_at)
    then (s, none)
    else check_session now settings h d u s (session_row h s)

unfoldable pub check_data :
    ℕ → Settings → ℕ → Store → Option SessionData → Store × Option SessionData
unfolding check_user
check_data now settings h s none = (s, none)
check_data now settings h s (some d) =
    if leb d.absolute_expires_at now
    then (s, none)
    else if leb d.idle_expires_at now
    then (s, none)
    else check_user now settings h d s (user_row d.user_id s)

-- `validate`, of the token whose hash is `h`.
unfoldable pub validate : ℕ → Settings → ℕ → Store → Store × Option SessionData
unfolding load check_data
validate now settings h s = check_data now settings h s (load h s)

-- `isActive`: the join's condition on a session's row.
unfoldable pub is_live : ℕ → ℕ → Store → UserSession → Bool
is_live now h s r =
    r.session_token_hash == h
    && not (is_revoked r)
    && ltb now r.idle_expires_at
    && ltb now r.absolute_expires_at
    && any
        (λ u.
          u.id == r.user_id
          && is_active_status u.status
          && u.password_updated_at == r.created_password_version)
        s.users

unfoldable pub is_active : ℕ → ℕ → Store → Bool
unfolding is_live
is_active now h s = any (is_live now h s) s.user_sessions

unfoldable pub revoked : ℕ → Option String → UserSession → UserSession
revoked now reason r = record r { revoked_at = some now; revoked_reason = reason }

-- `revoke`, of the token whose hash is `h`.
unfoldable pub revoke : ℕ → ℕ → Option String → Store → Store
unfolding revoked set_cached
revoke now h reason s = set_cached h none (record s {
  user_sessions = update (λ r. r.session_token_hash == h) (revoked now reason) s.user_sessions;
})

abbrev pub is_except : Option ℕ → UserSession → Bool
is_except none r = false
is_except (some h) r = r.session_token_hash == h

unfoldable pub is_revocable : ℕ → Option ℕ → UserSession → Bool
is_revocable owner except r = r.user_id == owner && not (is_revoked r) && not (is_except except r)

-- `revokeAllForUser`, with the hash of the token that is spared; the entries in Redis stay.
unfoldable pub revoke_all_for_user : ℕ → ℕ → Option ℕ → Store → Store × ℕ
unfolding is_revocable revoked
revoke_all_for_user now owner except s = (
  record s {
    user_sessions =
        update (is_revocable owner except) (revoked now (some "USER_LOGOUT_ALL")) s.user_sessions;
  },
  count (is_revocable owner except) s.user_sessions,
)

unfoldable bumped : ℕ → Option SessionData → Option SessionData
bumped version none = none
bumped version (some d) = some (record d { password_updated_at = version })

-- `updateSessionPasswordVersion`.
unfoldable pub update_session_password_version : ℕ → ℕ → Store → Store
unfolding bumped set_cached
update_session_password_version h version s = set_cached h (bumped version (s.redis h)) s

unfoldable pub revoke_found : ℕ → ℕ → Option String → Store → Option UserSession → Store × Bool
unfolding revoked set_cached
revoke_found now id reason s none = (s, false)
revoke_found now id reason s (some r) = (
  set_cached r.session_token_hash none
      (record s { user_sessions = update (λ x. x.id == id) (revoked now reason) s.user_sessions }),
  true,
)

-- `revokeSessionById`.
unfoldable pub revoke_session_by_id : ℕ → ℕ → ℕ → Option String → Store → Store × Bool
unfolding revoke_found
revoke_session_by_id now id owner reason s =
    revoke_found now id reason s
      (take_first (λ r. r.id == id && r.user_id == owner) s.user_sessions)
