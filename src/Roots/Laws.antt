-- ===== src/Roots/Laws.antt =====
-- The relation of roots is an order (apps/api/src/common/roots.ts).
use ikg_studio_model_trainin.Common.{
  ℕ, suc, ◌≤◌, ◌<◌, ◌≡◌, refl, inl, inr, Bool, true, false, ◌&&◌, ◌||◌, List, [], ◌∷◌, ◌++◌, Option,
  none, some, length, arith, Bool-cases,
}
use ikg_studio_model_trainin.Roots.{
  slash, normalize_root, RootRelation, path_eq, starts_with, is_below, root_relation, is_inside,
  is_within_root,
}

path_eq_sym : (x y : List ℕ) → path_eq x y ≡ path_eq y x
unfolding path_eq
path_eq_sym [] [] = refl
path_eq_sym [] (d ∷ y) = refl
path_eq_sym (c ∷ x) [] = refl
path_eq_sym (c ∷ x) (d ∷ y) = ground (arith, path_eq_sym x y)

path_eq-length : (x y : List ℕ) → path_eq x y ≡ true → length x ≡ length y
unfolding path_eq
path_eq-length [] [] h = refl
path_eq-length [] (d ∷ y) h = absurd (cc h)
path_eq-length (c ∷ x) [] h = absurd (cc h)
path_eq-length (c ∷ x) (d ∷ y) h = ground (arith, path_eq-length x y)

starts_with-length : (w x : List ℕ) → starts_with w x ≡ true → length w ≤ length x
unfolding starts_with
starts_with-length [] x h = omega arith
starts_with-length (d ∷ w) [] h = absurd (cc h)
starts_with-length (d ∷ w) (c ∷ x) h = ground (arith, starts_with-length w x)

length-snoc : (x : List ℕ) (c : ℕ) → length (x ++ c ∷ []) ≡ suc (length x)
length-snoc [] c = refl
length-snoc (d ∷ x) c = omega (arith, length-snoc x c)

-- A path is longer than one that it is below.
is_below-length : (x y : List ℕ) → is_below x y ≡ true → length y < length x
is_below-length x y h = omega (arith, starts_with-length (y ++ slash ∷ []) x h, length-snoc y slash)

starts_with_front : (w v x : List ℕ) → starts_with (w ++ v) x ≡ true → starts_with w x ≡ true
unfolding starts_with
starts_with_front [] v x h = refl
starts_with_front (d ∷ w) v [] h = absurd (cc h)
starts_with_front (d ∷ w) v (c ∷ x) h = ground (arith, starts_with_front w v x)

starts_with_trans :
    (w y x : List ℕ) → starts_with w y ≡ true → starts_with y x ≡ true → starts_with w x ≡ true
unfolding starts_with
starts_with_trans [] y x h g = refl
starts_with_trans (d ∷ w) [] x h g = absurd (cc h)
starts_with_trans (d ∷ w) (c ∷ y) [] h g = absurd (cc g)
starts_with_trans (d ∷ w) (c ∷ y) (e ∷ x) h g = ground (arith, starts_with_trans w y x)

-- The relation from the other path's point of view.
abbrev pub flip : Option RootRelation → Option RootRelation
flip none = none
flip (some RootRelation.same) = some RootRelation.same
flip (some RootRelation.inside) = some RootRelation.contains
flip (some RootRelation.contains) = some RootRelation.inside

not_both : (x y : List ℕ) → (is_below x y && is_below y x) ≡ false
not_both x y = elim (Bool-cases (is_below x y)) [
  | inr no_x ↦ rw no_x refl
  | inl yes_x ↦ elim (Bool-cases (is_below y x)) [
    | inr no_y ↦ rw yes_x (rw no_y refl)
    | inl yes_y ↦ absurd (omega (arith, is_below-length x y yes_x, is_below-length y x yes_y))
  ]
]

-- Seen from the other path, the relation is the converse: no two roots are inside each other.
pub root_relation-flip : (a b : List ℕ) → root_relation b a ≡ flip (root_relation a b)
unfolding root_relation
root_relation-flip a b = ground (
  arith,
  path_eq_sym (normalize_root a) (normalize_root b),
  not_both (normalize_root a) (normalize_root b),
)

inside_below :
    (a b : List ℕ)
    → root_relation a b ≡ some RootRelation.inside
    → is_below (normalize_root a) (normalize_root b) ≡ true
unfolding root_relation
inside_below a b h = ground arith

below_inside :
    (a b : List ℕ)
    → is_below (normalize_root a) (normalize_root b) ≡ true
    → root_relation a b ≡ some RootRelation.inside
unfolding root_relation
below_inside a b h =
    let longer = is_below-length (normalize_root a) (normalize_root b) h in
    elim (Bool-cases (path_eq (normalize_root a) (normalize_root b))) [
      | inl equal ↦
          absurd (omega (arith, longer, path_eq-length (normalize_root a) (normalize_root b) equal))
      | inr apart ↦ rw apart (rw h refl)
    ]

-- A root inside a root that is inside a third is inside the third.
pub inside_trans :
    (a b c : List ℕ)
    → root_relation a b ≡ some RootRelation.inside
    → root_relation b c ≡ some RootRelation.inside
    → root_relation a c ≡ some RootRelation.inside
inside_trans a b c h g =
    let x = normalize_root a in
    let y = normalize_root b in
    let front = starts_with_front y (slash ∷ []) x (inside_below a b h) in
    below_inside a c
      (starts_with_trans (normalize_root c ++ slash ∷ []) y x (inside_below b c g) front)

abbrev pub is_same : Option RootRelation → Bool
is_same (some RootRelation.same) = true
is_same _ = false

-- A path is within a root exactly where the relation of the two is `same` or `inside`.
pub is_within_root_relation :
    (p root : List ℕ)
    → is_within_root p root ≡ (is_same (root_relation p root) || is_inside (root_relation p root))
unfolding is_within_root root_relation
is_within_root_relation p root = ground arith
