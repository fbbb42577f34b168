-- ===== src/Common/Counting.antt =====
-- How the number of rows that pass one predicate changes with an UPDATE by another.
use Prim.Native.Nat.{◌+◌, ◌≤◌}
use mathlib.Core.Path.{◌≡◌, refl}
use mathlib.Core.Logic.{inl, inr}
use mathlib.Core.Bool.{Bool, true, false}
use mathlib.Core.Option.{some}
use mathlib.Core.List.{List, [], ◌∷◌, ◌++◌}
use native.Mathlib.Omega.{arith}
use ikg_studio_model_trainin.Common.Tests.{if◌then◌else◌, Bool-cases, eq_of_some}
use ikg_studio_model_trainin.Common.Lists.{select, take_first, update, count, any, update_idle}

module _ {ℓ} {A : Type ℓ} (p : A → Bool) where
  pub count-append : (xs ys : List A) → count p (xs ++ ys) ≡ count p xs + count p ys
  count-append [] ys = omega arith
  count-append (x ∷ xs) ys = omega (arith, count-append xs ys)

module _ {ℓ} {A : Type ℓ} (p q : A → Bool) (f : A → A) where
  -- At most the updated rows stop passing.
  pub count-update_lost : (xs : List A) → count p xs ≤ count p (update q f xs) + count q xs
  count-update_lost [] = omega arith
  count-update_lost (x ∷ xs) = elim (Bool-cases (q x)) [
    | inl hit ↦ ground (arith, hit, count-update_lost xs)
    | inr missed ↦ ground (arith, missed, count-update_lost xs)
  ]

  -- Rows that pass still do.
  pub count-update_kept :
      ((x : A) → p x ≡ true → p (f x) ≡ true) → (xs : List A) → count p xs ≤ count p (update q f xs)
  count-update_kept keep [] = omega arith
  count-update_kept keep (x ∷ xs) = ground (arith, keep x, count-update_kept keep xs)

  -- Rows pass as before.
  pub count-update_same :
      ((x : A) → q x ≡ true → p (f x) ≡ p x) → (xs : List A) → count p (update q f xs) ≡ count p xs
  count-update_same same [] = refl
  count-update_same same (x ∷ xs) = elim (Bool-cases (q x)) [
    | inl hit ↦ rw (hit, same x hit, count-update_same same xs) refl
    | inr missed ↦ rw (missed, count-update_same same xs) refl
  ]

  -- Where the one row that is updated did not pass, none is lost.
  pub count-update_other :
      (xs : List A) {u : A}
      → take_first q xs ≡ some u
      → p u ≡ false
      → count q xs ≤ 1
      → count p xs ≤ count p (update q f xs)
  count-update_other [] found out one = omega arith
  count-update_other (x ∷ xs) found out one = elim (Bool-cases (q x)) [
    | inl hit ↦
        let here : p x ≡ false = rw (eq_of_some (rw hit at found)) out in
        let same = update_idle q f xs (ground (arith, hit)) in rw (hit, here, same) (omega arith)
    | inr missed ↦
        let rest = count-update_other xs (rw missed at found) out (ground (arith, missed)) in
        rw missed (omega (arith, rest))
  ]

module _ {ℓ} {A : Type ℓ} (p q : A → Bool) where
  -- A SELECT that leaves out only rows that do not pass.
  pub count-select_same :
      ((x : A) → q x ≡ false → p x ≡ false) → (xs : List A) → count p (select q xs) ≡ count p xs
  count-select_same only [] = refl
  count-select_same only (x ∷ xs) = elim (Bool-cases (q x)) [
    | inl kept ↦ rw (kept, count-select_same only xs) refl
    | inr out ↦
        let rest = count-select_same only xs in
        let no_p : p x ≡ false = only x out in rw (out, no_p) (omega (arith, rest))
  ]

  pub count-select_le : (xs : List A) → count p (select q xs) ≤ count p xs
  count-select_le [] = omega arith
  count-select_le (x ∷ xs) = ground (arith, count-select_le xs)

module _ {ℓ} {A : Type ℓ} (p : A → Bool) where
  pub count-none : (xs : List A) → any p xs ≡ false → count p xs ≡ 0
  count-none [] h = refl
  count-none (x ∷ xs) h = ground (arith, count-none xs)

  pub count-split :
      (q r : A → Bool)
      → ((x : A) → (if q x then 1 else 0) + (if r x then 1 else 0) ≡ (if p x then 1 else 0))
      → (xs : List A) → count q xs + count r xs ≡ count p xs
  count-split q r parts [] = omega arith
  count-split q r parts (x ∷ xs) = omega (arith, parts x, count-split q r parts xs)
