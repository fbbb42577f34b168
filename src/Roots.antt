-- ===== src/Roots.antt =====
-- The overlap rules of filesystem roots (apps/api/src/common/roots.ts). A path is the list of its
-- characters' codes.
pub mod Laws
use ikg_studio_model_trainin.Common.{
  ℕ, Bool, true, false, ◌&&◌, ◌||◌, List, [], ◌∷◌, ◌++◌, Option, none, some, any, select, leb, ◌==◌,
  if◌then◌else◌, is_space,
}

abbrev pub slash : ℕ
slash = b'/'

abbrev pub is_slash : ℕ → Bool
is_slash c = c == slash

drop_start : (ℕ → Bool) → List ℕ → List ℕ
drop_start p [] = []
drop_start p (c ∷ cs) = if p c then drop_start p cs else c ∷ cs

drop_last : (ℕ → Bool) → ℕ → List ℕ → List ℕ
drop_last p c [] = if p c then [] else c ∷ []
drop_last p c (d ∷ rest) = c ∷ d ∷ rest

-- Without its longest end of characters that pass.
drop_end : (ℕ → Bool) → List ℕ → List ℕ
unfolding drop_last
drop_end p [] = []
drop_end p (c ∷ cs) = drop_last p c (drop_end p cs)

or_slash : List ℕ → List ℕ
or_slash [] = slash ∷ []
or_slash (c ∷ cs) = c ∷ cs

-- `normalizeRoot`.
unfoldable pub normalize_root : List ℕ → List ℕ
unfolding drop_start drop_end or_slash is_space
normalize_root p = or_slash (drop_end is_slash (drop_end is_space (drop_start is_space p)))

pub data RootRelation : Type 0 where
  same inside contains : RootRelation

unfoldable pub path_eq : List ℕ → List ℕ → Bool
path_eq [] [] = true
path_eq [] (d ∷ ds) = false
path_eq (c ∷ cs) [] = false
path_eq (c ∷ cs) (d ∷ ds) = c == d && path_eq cs ds

-- `p.startsWith(w)`.
unfoldable pub starts_with : List ℕ → List ℕ → Bool
starts_with [] p = true
starts_with (d ∷ w) [] = false
starts_with (d ∷ w) (c ∷ p) = d == c && starts_with w p

abbrev pub is_below : List ℕ → List ℕ → Bool
is_below x y = starts_with (y ++ slash ∷ []) x

-- `rootRelation`.
unfoldable pub root_relation : List ℕ → List ℕ → Option RootRelation
unfolding normalize_root path_eq starts_with
root_relation a b =
    let x = normalize_root a in
    let y = normalize_root b in
    if path_eq x y
    then some RootRelation.same
    else if is_below x y
    then some RootRelation.inside
    else if is_below y x
    then some RootRelation.contains
    else none

abbrev pub is_inside : Option RootRelation → Bool
is_inside (some RootRelation.inside) = true
is_inside _ = false

-- `nestedRootsWithin`, of the paths.
unfoldable pub nested_roots_within : List ℕ → List (List ℕ) → List (List ℕ)
unfolding root_relation
nested_roots_within base others = select (λ o. is_inside (root_relation o base)) others

-- `isWithinRoot`.
unfoldable pub is_within_root : List ℕ → List ℕ → Bool
unfolding normalize_root path_eq starts_with
is_within_root p root =
    let x = normalize_root p in let r = normalize_root root in path_eq x r || is_below x r
