-- ===== src/Tests/Login.antt =====
-- Logins and changes of password of a concrete user.
use ikg_studio_model_trainin.Common.{
  ◌+◌, ◌*◌, ◌⊎◌, arith, ◌≡◌, refl, Bool, true, false, [], ◌∷◌, none, some, String, str_eq,
  lower_text, trim,
}
use ikg_studio_model_trainin.Http.{ok, err}
use ikg_studio_model_trainin.Auth.Store.{
  UserRole, UserStatus, User, UserSession, SessionData, Store, user_row, is_active_status,
}
use ikg_studio_model_trainin.Auth.Session.{load, validate, set_cached, data_of, refreshed}
use ikg_studio_model_trainin.Auth.Login.{
  Credentials, LoginIds, invalid_credentials, normalized, named_user, is_unlockable, login,
}
use ikg_studio_model_trainin.Auth.Login.Laws.{login-validate, login-rehash_refused}
use ikg_studio_model_trainin.Auth.Login.Lockout.{disabled-login}
use ikg_studio_model_trainin.Auth.Login.Admitted.{login-Admitted}
use ikg_studio_model_trainin.Auth.Password.{PasswordChange, change_password}
use ikg_studio_model_trainin.Auth.Password.Sessions.{change_password-current, change_password-other}
use ikg_studio_model_trainin.Tests.Auth.{alice, alice_session, store, settings, granted}

abbrev credentials : Credentials
credentials = record { username = " ALICE "; password = "hash-1" }

abbrev ids : LoginIds
ids = record { correlation_id = 7; session_id = 9; token_hash = 107 }

abbrev verify : String → String → Bool
verify hashed password = str_eq hashed password

abbrev never : String → Bool
never hashed = false

abbrev always : String → Bool
always hashed = true

abbrev hash : String → String
hash password = password

login-Admitted_example :
    (u : User) × (g : User) × (named_user (normalized credentials) store ≡ some u)
    × (user_row u.id store ≡ some g)
    × (1 ≡ g.id)
    × (verify g.password_hash credentials.password ≡ true)
    × ((is_active_status g.status ≡ true) ⊎ (is_unlockable 1000 u ≡ true))
unfolding login named_user normalized lower_text trim
login-Admitted_example = login-Admitted verify never hash 1000 settings ids credentials store 1 refl

login-validate_example :
    ((login verify never hash 1000 settings ids credentials store).1 ≡ ok 1)
    × ((d : SessionData) × ((validate 1500 settings 107
            (login verify never hash 1000 settings ids credentials store).0).1
          ≡ some d)
        × (d.user_id ≡ 1)
        × (d.role ≡ UserRole.user)
        × (d.idle_expires_at ≡ 1500 + settings.session_idle_minutes * 60))
unfolding named_user normalized lower_text trim
login-validate_example =
    login-validate verify never hash 1000 1500 settings ids credentials store alice refl refl refl
      refl refl refl refl (omega arith) (omega arith)

login-rehash_refused_example :
    ((login verify always hash 1000 settings ids credentials store).1 ≡ ok 1)
    × ((validate 1500 settings 107
          (login verify always hash 1000 settings ids credentials store).0).1
        ≡ none)
unfolding named_user normalized lower_text trim
login-rehash_refused_example =
    login-rehash_refused verify always hash 1000 1500 settings ids credentials store alice refl refl
      refl refl refl refl refl

-- Alice, disabled, after four failed logins.
abbrev disabled_alice : User
disabled_alice = record alice { status = UserStatus.disabled; failed_login_count = 4 }

abbrev disabled_store : Store
disabled_store = record store { users = disabled_alice ∷ [] }

disabled-login_example :
    ((login verify never hash 1000 settings ids credentials disabled_store).1
      ≡ err invalid_credentials)
    × ((v : User) × (user_row 1
            (login verify never hash 1000 settings ids credentials disabled_store).0
          ≡ some v)
        × (v.status ≡ UserStatus.locked)
        × (v.locked_until ≡ some (1000 + settings.lockout_minutes * 60)))
    × ((login verify never hash 2000 settings ids credentials
          (login verify never hash 1000 settings ids credentials disabled_store).0).1
        ≡ ok 1)
unfolding named_user normalized lower_text trim
disabled-login_example =
    disabled-login verify never hash 1000 2000 settings ids ids credentials credentials
      disabled_store disabled_alice refl refl refl refl refl refl (omega arith) (omega arith) refl

abbrev change : PasswordChange
change = record {
  current_password = "hash-1";
  new_password = "next";
  new_password_confirmation = "next";
}

change_password-current_example :
    (e : SessionData) × ((validate 1000 settings 105
        (change_password verify hash 1000 7 (some 1) (some 105) change store).0).1
      ≡ some e)
    × (e.user_id ≡ 1)
    × (e.role ≡ UserRole.user)
unfolding validate load data_of refreshed change_password
change_password-current_example =
    change_password-current verify hash 1000 7 1 105 settings change store granted refl refl refl

-- A second session of Alice's.
abbrev second_session : UserSession
second_session = record alice_session { id = 9; session_token_hash = 106 }

abbrev two_sessions : Store
two_sessions = record store { user_sessions = alice_session ∷ second_session ∷ [] }

change_password-other_example :
    (validate 1500 settings 106 (
      set_cached 106
        (some granted)
        (change_password verify hash 1000 7 (some 1) (some 105) change two_sessions).0)).1
    ≡ none
unfolding change_password
change_password-other_example =
    change_password-other verify hash 1000 1500 7 1 105 106 settings change two_sessions
      second_session (some granted) refl refl refl refl
