-- ===== src/RateLimit/Keys.antt =====
-- The keys of the login's counters (apps/api/src/common/rate-limit/auth-rate-limit.guard.ts).
use Prim.Native.Char.{Char, code}
use Prim.Native.String.{◌++◌ as joined}
use text.Mathlib.TextLemmas.{append_assoc, append_cancel_left, cons-append}
use ikg_studio_model_trainin.Common.{
  ℕ, ◌≡◌, ◌≢◌, sym, ap, ◌∙◌, inl, inr, false, String, str_eq, eq_iff, Bool-cases, arith,
}
use ikg_studio_model_trainin.RateLimit.{redis_key, user_key, ip_key, ip_user_key}

first_code : String → ℕ
first_code String.[] = 0
first_code (String.◌∷◌ c s) = code c

regroup :
    (p x : String)
    → joined "rl:" (joined (joined "login:" p) x) ≡ joined (joined "rl:" "login:") (joined p x)
regroup p x =
    ap (joined "rl:") (append_assoc "login:" p x) ∙ sym (append_assoc "rl:" "login:" (joined p x))

-- Keys that differ in the letter after `login:`.
differ :
    (a b : Char) (p q x y : String)
    → code a ≢ code b
    → joined "rl:" (joined (joined "login:" (String.◌∷◌ a p)) x)
      ≢ joined "rl:" (joined (joined "login:" (String.◌∷◌ b q)) y)
unfolding first_code
differ a b p q x y apart same =
    let rest =
      append_cancel_left (joined "rl:" "login:") _ _
        (sym (regroup (String.◌∷◌ a p) x) ∙ same ∙ regroup (String.◌∷◌ b q) y) in
    apart (ap first_code (sym (cons-append a p x) ∙ rest ∙ cons-append b q y))

not_equal : (a b : String) → a ≢ b → str_eq a b ≡ false
not_equal a b apart = elim (Bool-cases (str_eq a b)) [
  | inl same ↦ absurd (apart ((eq_iff a b).0 same))
  | inr other ↦ other
]

pub user_key-ip_key :
    (x y : String) → str_eq (redis_key (user_key x)) (redis_key (ip_key y)) ≡ false
user_key-ip_key x y = not_equal _ _ (differ "u" "i" "ser:" "p:" x y (λ h. omega (arith, h)))

pub user_key-ip_user_key :
    (x y z : String) → str_eq (redis_key (user_key x)) (redis_key (ip_user_key y z)) ≡ false
user_key-ip_user_key x y z =
    not_equal _ _ (differ "u" "i" "ser:" "puser:" x _ (λ h. omega (arith, h)))

pub user_key-injective :
    (x y : String)
    → str_eq x y ≡ false
    → str_eq (redis_key (user_key x)) (redis_key (user_key y)) ≡ false
user_key-injective x y apart = not_equal _ _ (λ same.
    let equal : x ≡ y = append_cancel_left "login:user:" x y (append_cancel_left "rl:" _ _ same) in
    absurd (cc (apart, (eq_iff x y).1 equal)))
