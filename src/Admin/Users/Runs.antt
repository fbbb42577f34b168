-- ===== src/Admin/Users/Runs.antt =====
-- Any sequence of an ADMIN's operations on accounts leaves an ADMIN who is ACTIVE
-- (apps/api/src/admin/users/admin-users.service.ts).
use ikg_studio_model_trainin.Common.{ℕ, ◌≡◌, refl, sym, subst, Option, String, count, ◌==◌}
use ikg_studio_model_trainin.Auth.Store.{User, Store, user_row}
use ikg_studio_model_trainin.Admin.Users.Rows.{Act}
use ikg_studio_model_trainin.Admin.Users.Status.{disable, enable, unlock, set_password}
use ikg_studio_model_trainin.Admin.Users.Sessions.{delete_session, revoke_all_sessions}
use ikg_studio_model_trainin.Admin.Users.Creating.{CreateParams, create}
use ikg_studio_model_trainin.Admin.Users.Editing.{UpdateParams, update}
use ikg_studio_model_trainin.Admin.Users.Guarded.{HasAdmin}
use ikg_studio_model_trainin.Admin.Users.Admins.{
  disable-HasAdmin, enable-HasAdmin, unlock-HasAdmin, set_password-HasAdmin,
}
use ikg_studio_model_trainin.Admin.Users.Accounts.{
  deleted_users, revoked_all_users, update_found-HasAdmin, create-HasAdmin,
}

-- The operations on accounts, one after the other; a new account has an id that is not used.
pub data Run (hash : String → String) : Store → Store → Type 0 where
  done : {s : Store} → Run hash s s
  then_create :
      {s t : Store} (now : ℕ) (act : Act) (id : ℕ) (drawn : String) (params : CreateParams)
      → count (λ (u : User). u.id == id) s.users ≡ 0
      → Run hash (create hash now act id drawn params s).0 t
      → Run hash s t
  then_update :
      {s t : Store} (now : ℕ) (act : Act) (k : ℕ) (p : UpdateParams)
      → Run hash (update now act k p s).0 t
      → Run hash s t
  then_disable :
      {s t : Store} (now : ℕ) (act : Act) (k : ℕ) (reason : Option String)
      → Run hash (disable now act k reason s).0 t
      → Run hash s t
  then_enable :
      {s t : Store} (now : ℕ) (act : Act) (k : ℕ) (reason : Option String)
      → Run hash (enable now act k reason s).0 t
      → Run hash s t
  then_unlock :
      {s t : Store} (now : ℕ) (act : Act) (k : ℕ) (reason : Option String)
      → Run hash (unlock now act k reason s).0 t
      → Run hash s t
  then_set_password :
      {s t : Store} (now : ℕ) (act : Act) (k : ℕ) (password : String)
      → Run hash (set_password hash now act k password s).0 t
      → Run hash s t
  then_delete_session :
      {s t : Store} (now : ℕ) (act : Act) (k id : ℕ)
      → Run hash (delete_session now act k id s).0 t
      → Run hash s t
  then_revoke_all :
      {s t : Store} (now : ℕ) (act : Act) (k : ℕ)
      → Run hash (revoke_all_sessions now act k s).0 t
      → Run hash s t

-- From a table of users that has unique ids and an ADMIN who is ACTIVE, any sequence of the
-- operations on accounts, with an id that is not used for each new account, leaves such a table.
pub Run-HasAdmin :
    (hash : String → String) (s t : Store) → HasAdmin s.users → Run hash s t → HasAdmin t.users
unfolding update delete_session revoke_all_sessions
Run-HasAdmin hash s t h done = h
Run-HasAdmin hash s t h (then_create now act id drawn params fresh rest) =
    Run-HasAdmin hash (create hash now act id drawn params s).0 t
      (create-HasAdmin now act s h hash id drawn params fresh) rest
Run-HasAdmin hash s t h (then_update now act k p rest) =
    Run-HasAdmin hash (update now act k p s).0 t
      (update_found-HasAdmin now act s h k p (user_row k s) refl) rest
Run-HasAdmin hash s t h (then_disable now act k reason rest) =
    Run-HasAdmin hash (disable now act k reason s).0 t (disable-HasAdmin now act k s h reason) rest
Run-HasAdmin hash s t h (then_enable now act k reason rest) =
    Run-HasAdmin hash (enable now act k reason s).0 t (enable-HasAdmin now act k s h reason) rest
Run-HasAdmin hash s t h (then_unlock now act k reason rest) =
    Run-HasAdmin hash (unlock now act k reason s).0 t (unlock-HasAdmin now act k s h reason) rest
Run-HasAdmin hash s t h (then_set_password now act k password rest) =
    Run-HasAdmin hash (set_password hash now act k password s).0 t
      (set_password-HasAdmin now act k s h hash password) rest
Run-HasAdmin hash s t h (then_delete_session now act k id rest) =
    Run-HasAdmin hash (delete_session now act k id s).0 t
      (subst HasAdmin (sym (deleted_users now act s k id (user_row k s))) h) rest
Run-HasAdmin hash s t h (then_revoke_all now act k rest) =
    Run-HasAdmin hash (revoke_all_sessions now act k s).0 t
      (subst HasAdmin (sym (revoked_all_users now act s k (user_row k s))) h) rest
