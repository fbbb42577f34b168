-- ===== src/Auth/Password/Laws.antt =====
-- What a change of password that succeeds has done (apps/api/src/auth/auth.controller.ts).
use ikg_studio_model_trainin.Common.{
  ℕ, ◌≡◌, refl, inl, inr, Bool, Option, none, some, String, str_eq, Bool-cases,
}
use ikg_studio_model_trainin.Http.{ok}
use ikg_studio_model_trainin.Auth.Store.{User, Store, user_row}
use ikg_studio_model_trainin.Auth.Password.{
  PasswordChange, is_incomplete, validate_policy, apply_change, change_policy, change_found,
  change_password,
}

module _ (verify : String → String → Bool) (hash : String → String) (now correlation k : ℕ)
    (token : Option ℕ) (c : PasswordChange) (s : Store) where
  policy_ok :
      (u : User) (o : Option String)
      → (change_policy verify hash now correlation k token c u s o).1 ≡ ok tt
      → (change_policy verify hash now correlation k token c u s o).0
        ≡ apply_change verify hash now correlation k token c u s
  unfolding change_policy
  policy_ok u none h = refl
  policy_ok u (some message) h = absurd (cc h)

  found_ok :
      (o : Option User)
      → (change_found verify hash now correlation k token c s o).1 ≡ ok tt
      → (u : User) × (o ≡ some u)
        × ((change_found verify hash now correlation k token c s o).0
            ≡ apply_change verify hash now correlation k token c u s)
  unfolding change_found
  found_ok none h = absurd (cc h)
  found_ok (some u) h = elim (Bool-cases (verify u.password_hash c.current_password)) [
    | inr wrong ↦ absurd (cc (rw wrong at h))
    | inl right ↦ elim (Bool-cases (verify u.password_hash c.new_password)) [
      | inl same ↦ absurd (cc (rw (right, same) at h))
      | inr fresh ↦ (
        u,
        refl,
        rw (right, fresh) (policy_ok u (validate_policy c.new_password) (rw (right, fresh) at h)),
      )
    ]
  ]

  -- A change that succeeds is the transaction on the user's row.
  pub change-ok :
      (change_password verify hash now correlation (some k) token c s).1 ≡ ok tt
      → (u : User) × (user_row k s ≡ some u)
        × ((change_password verify hash now correlation (some k) token c s).0
            ≡ apply_change verify hash now correlation k token c u s)
  unfolding change_password
  change-ok h = elim (Bool-cases (is_incomplete c)) [
    | inl missing ↦ absurd (cc (rw missing at h))
    | inr given ↦ elim (Bool-cases (str_eq c.new_password c.new_password_confirmation)) [
      | inr differ ↦ absurd (cc (rw (given, differ) at h))
      | inl agree ↦
          let (u, row, same) = found_ok (user_row k s) (rw (given, agree) at h) in
          (u, row, rw given (rw agree same))
    ]
  ]
