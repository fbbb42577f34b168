-- ===== src/Admin/Users/Admins.antt =====
-- There is always an ADMIN who is ACTIVE (apps/api/src/admin/users/admin-users.service.ts).
use ikg_studio_model_trainin.Common.{
  ℕ, ◌≡◌, refl, inl, inr, Option, none, some, String, ◌==◌, arith, Bool-cases,
}
use ikg_studio_model_trainin.Auth.Store.{
  is_active_status, is_disabled, is_locked, User, Store, user_row, audit,
}
use ikg_studio_model_trainin.Admin.Users.Rows.{Act, enqueue_revoke, is_last_active_admin}
use ikg_studio_model_trainin.Admin.Users.Status.{
  status_entry, disabled, enabled, unlocked, with_password, disable_found, disable, enable_found,
  enable, unlock_found, unlock, set_password_found, set_password,
}
use ikg_studio_model_trainin.Admin.Users.Guarded.{HasAdmin, guard-HasAdmin, keep-HasAdmin}

module _ (now : ℕ) (act : Act) (k : ℕ) (s : Store) (h : HasAdmin s.users) where
  disable_found-HasAdmin :
      (reason : Option String) (o : Option User)
      → user_row k s ≡ o
      → HasAdmin (disable_found now act k reason s o).0.users
  unfolding disable_found enqueue_revoke status_entry audit disabled
  disable_found-HasAdmin reason none row = h
  disable_found-HasAdmin reason (some u) row = elim (Bool-cases (is_disabled u.status)) [
    | inl out ↦ rw out h
    | inr usable ↦ elim (Bool-cases (is_last_active_admin k s)) [
      | inl last ↦ rw usable (rw last h)
      | inr free ↦
          rw usable (rw free (guard-HasAdmin k (disabled now act) s (λ x. refl) h u row free))
    ]
  ]

  pub disable-HasAdmin : (reason : Option String) → HasAdmin (disable now act k reason s).0.users
  unfolding disable
  disable-HasAdmin reason = elim (Bool-cases (k == act.actor_id)) [
    | inl own ↦ rw own h
    | inr other ↦ rw other (disable_found-HasAdmin reason (user_row k s) refl)
  ]

  enable_found-HasAdmin :
      (reason : Option String) (o : Option User)
      → HasAdmin (enable_found now act k reason s o).0.users
  unfolding enable_found status_entry audit enabled
  enable_found-HasAdmin reason none = h
  enable_found-HasAdmin reason (some u) = elim (Bool-cases (is_active_status u.status)) [
    | inl usable ↦ rw usable h
    | inr out ↦ elim (Bool-cases (is_disabled u.status)) [
      | inr shut ↦ rw out (rw shut h)
      | inl closed ↦
          rw out
            (rw closed (keep-HasAdmin k (enabled now act) s (λ x. refl) h (λ x e. ground arith)))
    ]
  ]

  pub enable-HasAdmin : (reason : Option String) → HasAdmin (enable now act k reason s).0.users
  unfolding enable
  enable-HasAdmin reason = enable_found-HasAdmin reason (user_row k s)

  unlock_found-HasAdmin :
      (reason : Option String) (o : Option User)
      → HasAdmin (unlock_found now act k reason s o).0.users
  unfolding unlock_found status_entry audit unlocked
  unlock_found-HasAdmin reason none = h
  unlock_found-HasAdmin reason (some u) = elim (Bool-cases (is_locked u.status)) [
    | inr usable ↦ rw usable h
    | inl shut ↦ rw shut (keep-HasAdmin k (unlocked now act) s (λ x. refl) h (λ x e. ground arith))
  ]

  pub unlock-HasAdmin : (reason : Option String) → HasAdmin (unlock now act k reason s).0.users
  unfolding unlock
  unlock-HasAdmin reason = unlock_found-HasAdmin reason (user_row k s)

  set_password_found-HasAdmin :
      (hash : String → String) (password : String) (o : Option User)
      → HasAdmin (set_password_found hash now act k password s o).0.users
  unfolding set_password_found enqueue_revoke audit with_password
  set_password_found-HasAdmin hash password none = h
  set_password_found-HasAdmin hash password (some u) =
      keep-HasAdmin k (with_password now act (hash password)) s (λ x. refl) h (λ x e. e)

  pub set_password-HasAdmin :
      (hash : String → String) (password : String)
      → HasAdmin (set_password hash now act k password s).0.users
  unfolding set_password
  set_password-HasAdmin hash password = set_password_found-HasAdmin hash password (user_row k s)
