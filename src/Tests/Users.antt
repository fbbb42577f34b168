-- ===== src/Tests/Users.antt =====
-- An ADMIN's operations on concrete accounts.
use ikg_studio_model_trainin.Common.{
  ℕ, ◌+◌, ◌≤◌, arith, ◌≡◌, ◌≢◌, refl, false, [], ◌∷◌, none, some, String, count, ◌==◌, true,
}
use ikg_studio_model_trainin.Http.{err}
use ikg_studio_model_trainin.Auth.Store.{UserRole, User, SessionData, Store, user_row, is_disabled}
use ikg_studio_model_trainin.Auth.Session.{validate, load, refreshed}
use ikg_studio_model_trainin.Admin.Users.Rows.{Act, refusal, is_last_active_admin}
use ikg_studio_model_trainin.Admin.Users.Status.{disabled, disable, set_password}
use ikg_studio_model_trainin.Admin.Users.Editing.{UpdateParams, edited, update}
use ikg_studio_model_trainin.Admin.Users.Guarded.{HasAdmin}
use ikg_studio_model_trainin.Admin.Users.Runs.{done, then_disable, then_update, Run-HasAdmin}
use ikg_studio_model_trainin.Admin.Users.Laws.{
  update-stale, disable-old_row, disable-validate, set_password-not_cached,
}
use ikg_studio_model_trainin.Tests.Auth.{alice, alice_session, store, settings, granted}

abbrev root : User
root = record alice { id = 2; username = "root"; role = UserRole.admin }

abbrev office : Store
office = record store { users = alice ∷ root ∷ [] }

abbrev act : Act
act = record { actor_id = 2; correlation_id = 7 }

abbrev hash : String → String
hash password = password

one_row : (k : ℕ) → count (λ (u : User). u.id == k) office.users ≤ 1
one_row k = ground arith

abbrev edit : UpdateParams
edit = record {
  display_name = some "Alice A.";
  email = none;
  role = some UserRole.admin;
  row_version = 1;
}

Run-HasAdmin_example : HasAdmin (disable 1100 act 1 none (update 1000 act 1 edit office).0).0.users
Run-HasAdmin_example =
    Run-HasAdmin hash office (disable 1100 act 1 none (update 1000 act 1 edit office).0).0
      (record { unique = one_row; admins = omega arith })
      (then_update 1000 act 1 edit (then_disable 1100 act 1 none done))

update-stale_example :
    (user_row 1 (update 1000 act 1 edit office).0 ≡ some (edited 1000 act edit alice))
    × ((edited 1000 act edit alice).row_version ≡ 1 + 1)
    × (update 1100 act 1 edit (update 1000 act 1 edit office).0
        ≡ ((update 1000 act 1 edit office).0, err (refusal "USER_CONCURRENT_UPDATE" 409)))
unfolding update edited is_last_active_admin
update-stale_example =
    update-stale 1000 1100 act act 1 edit edit office (edited 1000 act edit alice) refl refl

disable-old_row_example :
    (user_row 1 office ≡ some alice)
    × (is_disabled alice.status ≡ false)
    × (user_row 1 (disable 1000 act 1 none office).0 ≡ some (disabled 1000 act alice))
    × (is_disabled (disabled 1000 act alice).status ≡ true)
unfolding disable is_last_active_admin
disable-old_row_example = disable-old_row 1000 act 1 none office alice refl

-- The session of the ADMIN who disables Alice.
abbrev root_data : SessionData
root_data = record granted { user_id = 2; role = UserRole.admin }

abbrev busy_office : Store
busy_office = record office {
  user_sessions = record alice_session { user_id = 2 } ∷ [];
  redis = λ h. some root_data;
}

disable-validate_example : (refreshed 1200 settings root_data root).user_id ≢ 1
unfolding disable is_last_active_admin validate load refreshed
disable-validate_example =
    disable-validate 1000 1200 act 1 105 none settings busy_office alice
      (refreshed 1200 settings root_data root) refl refl

set_password-not_cached_example :
    (d : SessionData) × ((validate 1200 settings 105
        (set_password hash 1000 act 1 "next" office).0).1
      ≡ some d)
    × (d.user_id ≡ 1)
set_password-not_cached_example =
    set_password-not_cached hash 1000 1200 act 1 105 "next" settings office alice_session alice refl
      refl refl refl (omega arith) (omega arith) refl refl
