-- ===== src/Common/Lists.antt =====
-- Tables as lists of rows: the Boolean folds of the source's `some`, `every`, `filter` and
-- `includes`, and what an SQL `UPDATE … WHERE …`, `SELECT … LIMIT 1` and `count(*)` do to a table.
use Prim.Native.Nat.{ℕ, suc, ◌+◌}
use mathlib.Core.Path.{◌≡◌, refl, sym, ap}
use mathlib.Core.Logic.{◌≢◌, ◌⊎◌, inl, inr}
use mathlib.Core.Bool.{Bool, true, false, ◌&&◌, ◌||◌}
use mathlib.Core.Option.{Option, none, some}
use mathlib.Core.List.{List, [], ◌∷◌, ◌++◌}
use native.Mathlib.Omega.{arith}
use ikg_studio_model_trainin.Common.Tests.{if◌then◌else◌, Bool-cases, eq_of_some}

module _ {ℓ} {A : Type ℓ} where
  abbrev pub length : List A → ℕ
  length [] = 0
  length (x ∷ xs) = suc (length xs)

  abbrev pub any : (A → Bool) → List A → Bool
  any p [] = false
  any p (x ∷ xs) = p x || any p xs

  abbrev pub all : (A → Bool) → List A → Bool
  all p [] = true
  all p (x ∷ xs) = p x && all p xs

  -- `SELECT … WHERE p`, in the order of the table.
  abbrev pub select : (A → Bool) → List A → List A
  select p [] = []
  select p (x ∷ xs) = if p x then x ∷ select p xs else select p xs

  -- `executeTakeFirst`: the first row that passes, or none.
  abbrev pub take_first : (A → Bool) → List A → Option A
  take_first p [] = none
  take_first p (x ∷ xs) = if p x then some x else take_first p xs

  -- `UPDATE … SET f WHERE p`.
  abbrev pub update : (A → Bool) → (A → A) → List A → List A
  update p f [] = []
  update p f (x ∷ xs) = (if p x then f x else x) ∷ update p f xs

  -- `count(*) filter (where p)`, and `numUpdatedRows` of an update by `p`.
  abbrev pub count : (A → Bool) → List A → ℕ
  count p [] = 0
  count p (x ∷ xs) = (if p x then 1 else 0) + count p xs

module _ {ℓ κ} {A : Type ℓ} (P : A → Type κ) where
  abbrev pub All : List A → Type κ
  All [] = Unit
  All (x ∷ xs) = P x × All xs

  pub All-append : (xs ys : List A) → All xs → All ys → All (xs ++ ys)
  All-append [] ys hx hy = hy
  All-append (x ∷ xs) ys hx hy = (hx.0, All-append xs ys hx.1 hy)

  pub All-update :
      (p : A → Bool) (f : A → A)
      → ((x : A) → P x → P (f x))
      → (xs : List A) → All xs
      → All (update p f xs)
  All-update p f keep [] h = tt
  All-update p f keep (x ∷ xs) h = elim (Bool-cases (p x)) [
    | inl yes_p ↦ (ground (arith, keep x h.0), All-update p f keep xs h.1)
    | inr no_p ↦ (ground arith, All-update p f keep xs h.1)
  ]

-- How an UPDATE by one predicate shows in a SELECT by the same or by another.
module _ {ℓ} {A : Type ℓ} (p : A → Bool) (f : A → A) where
  pub take_first-update :
      ((x : A) → p x ≡ true → p (f x) ≡ true)
      → (xs : List A) {x : A} → take_first p xs ≡ some x
      → take_first p (update p f xs) ≡ some (f x)
  take_first-update keep [] h = ground arith
  take_first-update keep (y ∷ ys) {x} h = ground (arith, keep y, take_first-update keep ys {x = x})

  pub take_first-update_other :
      (q : A → Bool)
      → ((x : A) → p x ≡ true → (q x ≡ false) × (q (f x) ≡ false))
      → (xs : List A) → take_first q (update p f xs) ≡ take_first q xs
  take_first-update_other q apart [] = refl
  take_first-update_other q apart (y ∷ ys) =
      ground (arith, apart y, take_first-update_other q apart ys)

module _ {ℓ} {A : Type ℓ} (p : A → Bool) where
  pub take_first-holds : (xs : List A) {x : A} → take_first p xs ≡ some x → p x ≡ true
  take_first-holds [] h = ground arith
  take_first-holds (y ∷ ys) {x} h = ground (arith, take_first-holds ys {x = x})

module _ {ℓ} {A : Type ℓ} (p q : A → Bool) (f : A → A) where
  -- A row that the UPDATE passes over is still the first that `q` finds.
  pub take_first-update_kept :
      ((y : A) → p y ≡ true → q (f y) ≡ q y)
      → (xs : List A) {x : A} → take_first q xs ≡ some x
      → p x ≡ false
      → take_first q (update p f xs) ≡ some x
  take_first-update_kept same [] h no_p = h
  take_first-update_kept same (y ∷ ys) {x} h no_p = elim (Bool-cases (q y)) [
    | inl found ↦
        let here : y ≡ x = eq_of_some (rw found at h) in
        let passed : p y ≡ false = rw here no_p in rw passed (rw found (ap some here))
    | inr other ↦ elim (Bool-cases (p y)) [
      | inl changed ↦
          rw changed
            (rw (same y changed) (rw other (take_first-update_kept same ys (rw other at h) no_p)))
      | inr passed ↦ rw passed (rw other (take_first-update_kept same ys (rw other at h) no_p))
    ]
  ]

  -- A row that the UPDATE changes is found by `q` in its new form.
  pub take_first-update_hit :
      ((y : A) → p y ≡ true → q (f y) ≡ q y)
      → (xs : List A) {x : A} → take_first q xs ≡ some x
      → p x ≡ true
      → take_first q (update p f xs) ≡ some (f x)
  take_first-update_hit same [] h yes_p = absurd (cc h)
  take_first-update_hit same (y ∷ ys) {x} h yes_p = elim (Bool-cases (q y)) [
    | inl found ↦
        let here : y ≡ x = eq_of_some (rw found at h) in
        let changed : p y ≡ true = rw here yes_p in
        rw changed (rw (same y changed) (rw found (ap (λ z. some (f z)) here)))
    | inr other ↦ elim (Bool-cases (p y)) [
      | inl changed ↦
          rw changed
            (rw (same y changed) (rw other (take_first-update_hit same ys (rw other at h) yes_p)))
      | inr passed ↦ rw passed (rw other (take_first-update_hit same ys (rw other at h) yes_p))
    ]
  ]

  -- A row that passes `p` is counted.
  pub count-ne-zero : (xs : List A) {x : A} → take_first q xs ≡ some x → p x ≡ true → count p xs ≢ 0
  count-ne-zero [] h yes_p = absurd (cc h)
  count-ne-zero (y ∷ ys) {x} h yes_p = elim (Bool-cases (q y)) [
    | inl found ↦
        let here : y ≡ x = eq_of_some (rw found at h) in
        let counted : p y ≡ true = rw here yes_p in rw counted (omega arith)
    | inr other ↦ let rest = count-ne-zero ys (rw other at h) yes_p in ground (arith, rest)
  ]

  -- Where a row found after an UPDATE comes from.
  pub take_first-update_inv :
      ((y : A) → p y ≡ true → q (f y) ≡ q y)
      → (xs : List A) {y : A} → take_first q (update p f xs) ≡ some y
      → (x : A) × (take_first q xs ≡ some x)
        × (((p x ≡ false) × (y ≡ x)) ⊎ ((p x ≡ true) × (y ≡ f x)))
  take_first-update_inv same [] h = absurd (cc h)
  take_first-update_inv same (x ∷ xs) {y} h = elim (Bool-cases (q x)) [
    | inl found ↦ elim (Bool-cases (p x)) [
      | inl changed ↦ (
        x,
        rw found refl,
        inr (changed, sym (eq_of_some (rw (changed, same x changed, found) at h))),
      )
      | inr passed ↦ (x, rw found refl, inl (passed, sym (eq_of_some (rw (passed, found) at h))))
    ]
    | inr other ↦ elim (Bool-cases (p x)) [
      | inl changed ↦
          let (z, found, how) =
            take_first-update_inv same xs (rw (changed, same x changed, other) at h) in
          (z, rw other found, how)
      | inr passed ↦
          let (z, found, how) = take_first-update_inv same xs (rw (passed, other) at h) in
          (z, rw other found, how)
    ]
  ]

module _ {ℓ} {A : Type ℓ} (p : A → Bool) (f : A → A) where
  -- An UPDATE whose rows stop passing its predicate leaves none that passes.
  pub count-update_zero :
      ((x : A) → p x ≡ true → p (f x) ≡ false) → (xs : List A) → count p (update p f xs) ≡ 0
  count-update_zero stops [] = refl
  count-update_zero stops (x ∷ xs) = elim (Bool-cases (p x)) [
    | inl changed ↦ rw (changed, stops x changed, count-update_zero stops xs) refl
    | inr passed ↦ rw (passed, passed, count-update_zero stops xs) refl
  ]

  -- No row to change, nothing changed.
  pub update_idle : (xs : List A) → count p xs ≡ 0 → update p f xs ≡ xs
  update_idle [] h = refl
  update_idle (x ∷ xs) h = elim (Bool-cases (p x)) [
    | inl changed ↦ absurd (ground arith)
    | inr passed ↦ rw (passed, update_idle xs (ground arith)) refl
  ]
