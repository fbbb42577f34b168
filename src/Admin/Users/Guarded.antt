-- ===== src/Admin/Users/Guarded.antt =====
-- What an UPDATE of one account does to the number of active ADMINs
-- (apps/api/src/admin/users/admin-users.service.ts).
use ikg_studio_model_trainin.Common.{
  ℕ, ◌≤◌, ◌≡◌, refl, sym, ap, ◌∙◌, inl, inr, true, false, some, count, count-update_lost,
  count-update_kept, count-update_same, count-update_other, leb, List, ◌==◌, arith, Bool-cases,
}
use ikg_studio_model_trainin.Auth.Store.{is_admin, User, Store, user_row, update_user}
use ikg_studio_model_trainin.Admin.Users.Rows.{
  is_active_admin, active_admins, is_guarded, is_last_active_admin,
}

-- What the operations keep of the table: its primary key, and an ADMIN who is ACTIVE.
pub record HasAdmin (users : List User) : Type 0 where
  pub unique : (k : ℕ) → count (λ (u : User). u.id == k) users ≤ 1
  pub admins : 1 ≤ count is_active_admin users

module _ (k : ℕ) (f : User → User) (s : Store) (keep : (u : User) → (f u).id ≡ u.id)
    (h : HasAdmin s.users) where
  update_user_unique : (j : ℕ) → count (λ (u : User). u.id == j) (update_user k f s).users ≤ 1
  unfolding update_user
  update_user_unique j =
      rw
        (count-update_same (λ (u : User). u.id == j) (λ (u : User). u.id == k) f
          (λ u hit. ap (λ (i : ℕ). i == j) (keep u)) s.users)
        (h.unique j)

  -- An account whose update the guard lets through is not the last ADMIN who is ACTIVE.
  pub guard-HasAdmin :
      (u : User)
      → user_row k s ≡ some u
      → is_last_active_admin k s ≡ false
      → HasAdmin (update_user k f s).users
  unfolding is_last_active_admin is_guarded active_admins update_user
  guard-HasAdmin u row free =
      let guarded : is_guarded (active_admins s) (some u) ≡ false =
        sym (ap (is_guarded (active_admins s)) row) ∙ free in
      record {
        unique = update_user_unique;
        admins = elim (Bool-cases (is_admin u.role)) [
          | inl admin ↦
              let two : leb (count is_active_admin s.users) 1 ≡ false = rw admin at guarded in
              let most = h.unique k in
              let lost = count-update_lost is_active_admin (λ (x : User). x.id == k) f s.users in
              ground (arith, two, most, lost)
          | inr other ↦
              let kept =
                count-update_other is_active_admin (λ (x : User). x.id == k) f s.users row
                  (rw other refl) (h.unique k) in
              let some_admin = h.admins in omega (arith, kept, some_admin)
        ];
      }

  -- An update after which an active ADMIN is one still needs no guard.
  pub keep-HasAdmin :
      ((x : User) → is_active_admin x ≡ true → is_active_admin (f x) ≡ true)
      → HasAdmin (update_user k f s).users
  unfolding update_user
  keep-HasAdmin still =
      let kept = count-update_kept is_active_admin (λ (x : User). x.id == k) f still s.users in
      let some_admin = h.admins in
      record { unique = update_user_unique; admins = omega (arith, kept, some_admin) }
