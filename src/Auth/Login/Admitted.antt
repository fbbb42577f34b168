-- ===== src/Auth/Login/Admitted.antt =====
-- Whom a login admits (apps/api/src/auth/auth.controller.ts).
use ikg_studio_model_trainin.Common.{
  ℕ, ◌≡◌, refl, sym, ap, ◌∙◌, ◌⊎◌, inl, inr, Bool, true, ◌&&◌, ◌||◌, Option, none, some, String,
  take_first-update_inv, is_empty_text, ◌==◌, Bool-cases, Option-cases,
}
use ikg_studio_model_trainin.Http.{ok}
use ikg_studio_model_trainin.Auth.Store.{
  is_active_status, is_locked, User, Store, Settings, user_row, audit,
}
use ikg_studio_model_trainin.Auth.Login.{
  Credentials, LoginIds, is_unlockable, unlocked, auto_unlock, normalized, named_user, login_fresh,
  login_named, login,
}

module _ (verify : String → String → Bool) (needs_rehash : String → Bool) (rehash : String → String)
    (now : ℕ) (settings : Settings) (ids : LoginIds) (c : Credentials) where
  -- What the checks on the row that is read again let through.
  fresh_ok :
      (s : Store) (k : ℕ) (o : Option User)
      → (login_fresh verify needs_rehash rehash now settings ids c s o).1 ≡ ok k
      → (f : User) × (o ≡ some f)
        × (k ≡ f.id)
        × (is_active_status f.status ≡ true)
        × (verify f.password_hash c.password ≡ true)
  unfolding login_fresh
  fresh_ok s k none h = absurd (cc h)
  fresh_ok s k (some f) h = elim (Bool-cases (is_active_status f.status)) [
    | inr out ↦ absurd (cc (rw out at h))
    | inl standing ↦ elim (Bool-cases (verify f.password_hash c.password)) [
      | inr wrong ↦ absurd (cc (rw (standing, wrong) at h))
      | inl right ↦
          let same : ok f.id ≡ ok k = rw (standing, right) at h in (f, refl, cc, standing, right)
    ]
  ]

  -- The row that is read again is the table's, or that row with its lock taken off.
  usable_row :
      (s : Store) (u f : User)
      → user_row u.id (auto_unlock now ids.correlation_id u s) ≡ some f
      → (g : User) × (user_row u.id s ≡ some g)
        × ((f ≡ g) ⊎ ((is_unlockable now u ≡ true) × (f ≡ unlocked now g)))
  unfolding auto_unlock audit unlocked
  usable_row s u f h = elim (Bool-cases (is_unlockable now u)) [
    | inr held ↦ (f, rw held at h, inl refl)
    | inl over ↦
        let (g, found, how) =
          take_first-update_inv (λ (x : User). x.id == u.id && is_locked x.status)
            (λ (x : User). x.id == u.id) (unlocked now) (λ x hit. refl) s.users (rw over at h) in
        (g, found, elim how [ inl (missed, same) ↦ inl same | inr (hit, same) ↦ inr (over, same) ])
  ]

  named_ok :
      (s : Store) (k : ℕ) (u : User)
      → (login_named verify needs_rehash rehash now settings ids c s (some u)).1 ≡ ok k
      → (g : User) × (user_row u.id s ≡ some g)
        × (k ≡ g.id)
        × (verify g.password_hash c.password ≡ true)
        × ((is_active_status g.status ≡ true) ⊎ (is_unlockable now u ≡ true))
  unfolding login_named unlocked
  named_ok s k u h =
      let usable = auto_unlock now ids.correlation_id u s in
      let (f, found, same, standing, right) = fresh_ok usable k (user_row u.id usable) h in
      let (g, own, how) = usable_row s u f found in
      elim how [
        | inl as_found ↦ (
          g,
          own,
          same ∙ ap (λ (x : User). x.id) as_found,
          sym (ap (λ (x : User). verify x.password_hash c.password) as_found) ∙ right,
          inl (sym (ap (λ (x : User). is_active_status x.status) as_found) ∙ standing),
        )
        | inr (over, opened) ↦ (
          g,
          own,
          same ∙ ap (λ (x : User). x.id) opened,
          sym (ap (λ (x : User). verify x.password_hash c.password) opened) ∙ right,
          inr over,
        )
      ]

-- A login admits a user only if the name, trimmed and in lower case, is that of a row, the table's
-- row of its id is that user's and its password hash verifies the password, and the status there is
-- ACTIVE or the named row is locked until a time that is past.
pub login-Admitted :
    (verify : String → String → Bool) (needs_rehash : String → Bool) (rehash : String → String)
    (now : ℕ) (settings : Settings) (ids : LoginIds) (c : Credentials) (s : Store) (k : ℕ)
    → (login verify needs_rehash rehash now settings ids c s).1 ≡ ok k
    → (u : User) × (g : User) × (named_user (normalized c) s ≡ some u)
      × (user_row u.id s ≡ some g)
      × (k ≡ g.id)
      × (verify g.password_hash c.password ≡ true)
      × ((is_active_status g.status ≡ true) ⊎ (is_unlockable now u ≡ true))
unfolding login login_named
login-Admitted verify needs_rehash rehash now settings ids c s k h =
    elim (Bool-cases (is_empty_text c.username || is_empty_text c.password)) [
      | inl missing ↦ absurd (cc (rw missing at h))
      | inr given ↦
          let h' : (login_named verify needs_rehash rehash now settings ids c s
                (named_user (normalized c) s)).1
              ≡ ok k =
            rw given at h in
          elim (Option-cases (named_user (normalized c) s)) [
            | inl unknown ↦ absurd (cc (rw unknown at h'))
            | inr (u, named) ↦
                let (g, own, same, right, standing) =
                  named_ok verify needs_rehash rehash now settings ids c s k u (rw named at h') in
                (u, g, named, own, same, right, standing)
          ]
    ]
