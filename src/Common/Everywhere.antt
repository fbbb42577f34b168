-- ===== src/Common/Everywhere.antt =====
-- What holds of every row of a table, under a SELECT and an UPDATE.
use mathlib.Core.Path.{◌≡◌}
use mathlib.Core.Logic.{inl, inr}
use mathlib.Core.Bool.{Bool, true, false}
use mathlib.Core.List.{List, [], ◌∷◌}
use ikg_studio_model_trainin.Common.Tests.{Bool-cases}
use ikg_studio_model_trainin.Common.Lists.{All, select, update}

module _ {ℓ κ} {A : Type ℓ} {P Q : A → Type κ} where
  pub All-weaken : ((x : A) → P x → Q x) → (xs : List A) → All P xs → All Q xs
  All-weaken weaken [] h = tt
  All-weaken weaken (x ∷ xs) h = (weaken x h.0, All-weaken weaken xs h.1)

  -- The rows that the UPDATE passes over, and those that it changes.
  pub All-update_where :
      (p : A → Bool) (f : A → A)
      → ((x : A) → p x ≡ true → P x → Q (f x))
      → ((x : A) → p x ≡ false → P x → Q x)
      → (xs : List A) → All P xs
      → All Q (update p f xs)
  All-update_where p f changes keeps [] h = tt
  All-update_where p f changes keeps (x ∷ xs) h = elim (Bool-cases (p x)) [
    | inl hit ↦ rw hit (changes x hit h.0, All-update_where p f changes keeps xs h.1)
    | inr missed ↦ rw missed (keeps x missed h.0, All-update_where p f changes keeps xs h.1)
  ]

  pub All-select_where :
      (p : A → Bool)
      → ((x : A) → p x ≡ true → P x → Q x)
      → (xs : List A) → All P xs
      → All Q (select p xs)
  All-select_where p keeps [] h = tt
  All-select_where p keeps (x ∷ xs) h = elim (Bool-cases (p x)) [
    | inl hit ↦ rw hit (keeps x hit h.0, All-select_where p keeps xs h.1)
    | inr missed ↦ rw missed (All-select_where p keeps xs h.1)
  ]

module _ {ℓ κ} {A : Type ℓ} (P Q : A → Type κ) where
  pub All-both : (xs : List A) → All P xs → All Q xs → All (λ x. P x × Q x) xs
  All-both [] hp hq = tt
  All-both (x ∷ xs) hp hq = ((hp.0, hq.0), All-both xs hp.1 hq.1)
