-- ===== src/Tests/Roots.antt =====
-- Roots at concrete paths.
use ikg_studio_model_trainin.Common.{is_space, ℕ, ◌≡◌, refl, false, List, [], ◌∷◌}
use ikg_studio_model_trainin.Roots.{is_within_root}

-- `/a`, `/a/b/` and `/a/b/c`.
abbrev short : List ℕ
short = b'/' ∷ b'a' ∷ []

abbrev middle : List ℕ
middle = b'/' ∷ b'a' ∷ b'/' ∷ b'b' ∷ b'/' ∷ []

abbrev long : List ℕ
long = b'/' ∷ b'a' ∷ b'/' ∷ b'b' ∷ b'/' ∷ b'c' ∷ []

-- Nothing but the root directory itself is within it.
root_directory : is_within_root short (b'/' ∷ []) ≡ false
unfolding is_within_root is_space
root_directory = refl
