-- ===== src/Common/Text.antt =====
-- Texts as the services handle them: `trim`, `toLowerCase` (of the ASCII letters), `slice`, `length`
-- (of characters), and the comparison of a citext column.
use Prim.Native.Char.{Char, code}
use Prim.Native.String.{String}
use Prim.Native.Nat.{ℕ, zero, suc}
use mathlib.Core.Bool.{Bool, true, false, ◌&&◌, ◌||◌}
use mathlib.Core.List.{[], ◌∷◌}
use text.Mathlib.Text.{◌==◌ as str_eq}
use ikg_studio_model_trainin.Common.Tests.{if◌then◌else◌, leb, ◌==◌}
use ikg_studio_model_trainin.Common.Lists.{any}

-- The white space and line ends that `trim` takes off.
unfoldable pub is_space : ℕ → Bool
is_space c =
    (leb 9 c && leb c 13)
    || (leb 8192 c && leb c 8202)
    || any (λ d. d == c) (32 ∷ 160 ∷ 5760 ∷ 8232 ∷ 8233 ∷ 8239 ∷ 8287 ∷ 12288 ∷ 65279 ∷ [])

trim_start : String → String
unfolding is_space
trim_start String.[] = String.[]
trim_start (String.◌∷◌ c s) = if is_space (code c) then trim_start s else String.◌∷◌ c s

trim_last : Char → String → String
unfolding is_space
trim_last c String.[] = if is_space (code c) then String.[] else String.◌∷◌ c String.[]
trim_last c (String.◌∷◌ d rest) = String.◌∷◌ c (String.◌∷◌ d rest)

trim_end : String → String
unfolding trim_last
trim_end String.[] = String.[]
trim_end (String.◌∷◌ c s) = trim_last c (trim_end s)

unfoldable pub trim : String → String
unfolding trim_start trim_end
trim s = trim_end (trim_start s)

-- The letter of `lower` in the place that `c` has in `upper`.
letter_at : String → String → Char → Char
letter_at (String.◌∷◌ u upper) (String.◌∷◌ l lower) c =
    if code u == code c then l else letter_at upper lower c
letter_at _ _ c = c

unfoldable pub lower_text : String → String
unfolding letter_at
lower_text String.[] = String.[]
lower_text (String.◌∷◌ c s) =
    String.◌∷◌ (letter_at "ABCDEFGHIJKLMNOPQRSTUVWXYZ" "abcdefghijklmnopqrstuvwxyz" c)
      (lower_text s)

-- `=` between citext values.
abbrev pub same_text : String → String → Bool
same_text a b = str_eq (lower_text a) (lower_text b)

abbrev pub is_empty_text : String → Bool
is_empty_text String.[] = true
is_empty_text (String.◌∷◌ c s) = false

unfoldable pub text_length : String → ℕ
text_length String.[] = 0
text_length (String.◌∷◌ c s) = suc (text_length s)

-- `slice(0, n)`.
unfoldable pub text_slice : ℕ → String → String
text_slice zero s = String.[]
text_slice (suc n) String.[] = String.[]
text_slice (suc n) (String.◌∷◌ c s) = String.◌∷◌ c (text_slice n s)
