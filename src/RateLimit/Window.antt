-- ===== src/RateLimit/Window.antt =====
-- A key's counter within a window (apps/api/src/common/rate-limit/rate-limit.service.ts), over what
-- Redis documents.
use ikg_studio_model_trainin.Common.{
  ℕ, ◌+◌, ◌-◌, ◌≤◌, ◌<◌, ◌≡◌, refl, sym, ap, ◌∙◌, inl, inr, Bool, true, false, Option, none, some,
  String, leb, ltb, ◌==◌, str_eq, eq_iff, arith, Bool-cases, if◌then◌else◌,
}
use ikg_studio_model_trainin.RateLimit.{Redis, redis_key, refused, counted, consume}

-- A key's value and the time when it expires.
pub record Entry : Type 0 where
  pub count : ℕ
  pub expires_at : Option ℕ

abbrev pub is_over : ℕ → Option ℕ → Bool
is_over now none = false
is_over now (some t) = leb t now

abbrev pub live : ℕ → Option Entry → Option Entry
live now none = none
live now (some e) = if is_over now e.expires_at then none else some e

abbrev pub bump : Option Entry → Entry
bump none = record { count = 1; expires_at = none }
bump (some e) = record e { count = e.count + 1 }

abbrev pub expiring : ℕ → Option Entry → Option Entry
expiring t none = none
expiring t (some e) = some (record e { expires_at = some t })

abbrev until : ℕ → Option ℕ → Option ℕ
until now none = none
until now (some t) = some (t - now)

abbrev pub left : ℕ → Option Entry → Option ℕ
left now none = none
left now (some e) = until now e.expires_at

-- What Redis documents of INCR, EXPIRE and TTL, by the entries that the store holds.
pub record IsRedis (redis : Redis) (entry : String → redis.Store → Option Entry) : Type 0 where
  pub answer :
      (now : ℕ) (k : String) (s : redis.Store)
      → (redis.incr now k s).1 ≡ (bump (live now (entry k s))).count
  pub incremented :
      (now : ℕ) (k q : String) (s : redis.Store)
      → entry q (redis.incr now k s).0
        ≡ (if str_eq q k then some (bump (live now (entry k s))) else entry q s)
  pub expiry :
      (now : ℕ) (k q : String) (w : ℕ) (s : redis.Store)
      → entry q (redis.expire now k w s)
        ≡ (if str_eq q k then expiring (now + w) (live now (entry k s)) else entry q s)
  pub remaining :
      (now : ℕ) (k : String) (s : redis.Store) → redis.ttl now k s ≡ left now (live now (entry k s))

live-inside :
    (now n end : ℕ)
    → now < end
    → live now (some (record { count = n; expires_at = some end }))
      ≡ some (record { count = n; expires_at = some end })
live-inside now n end inside = let running : leb end now ≡ false = ground arith in rw running refl

ltb_pos : (limit : ℕ) → ltb 0 limit ≡ true → ltb limit 1 ≡ false
ltb_pos limit h = ground arith

module _ (redis : Redis) (entry : String → redis.Store → Option Entry) where
  -- The key has the count and expires at the end of the window.
  abbrev pub Counted : String → ℕ → ℕ → redis.Store → Type 0
  Counted k n end s = entry k s ≡ some (record { count = n; expires_at = some end })

module _ (redis : Redis) (entry : String → redis.Store → Option Entry)
    (laws : IsRedis redis entry) where
  -- The first attempt of a window.
  pub consume-first :
      (now : ℕ) (key : String) (limit w : ℕ) (s : redis.Store)
      → live now (entry (redis_key key) s) ≡ none
      → ltb 0 limit ≡ true
      → ((consume redis now key limit w s).1.allowed ≡ true)
        × Counted redis entry (redis_key key) 1 (now + w) (consume redis now key limit w s).0
  unfolding consume counted
  consume-first now key limit w s absent some_left =
      let k = redis_key key in
      let one : (redis.incr now k s).1 ≡ 1 =
        laws.answer now k s ∙ ap (λ e. (bump e).count) absent in
      let s1 = (redis.incr now k s).0 in
      let fresh : entry k s1 ≡ some (record { count = 1; expires_at = none }) =
        laws.incremented now k k s ∙ rw ((eq_iff k k).1 refl, absent) refl in
      let timed : Counted redis entry k 1 (now + w) (redis.expire now k w s1) =
        laws.expiry now k k w s1 ∙ rw ((eq_iff k k).1 refl, fresh) refl in
      rw (one, ltb_pos limit some_left) (refl, timed)

  -- A further one.
  pub consume-next :
      (now : ℕ) (key : String) (limit w n end : ℕ) (s : redis.Store)
      → Counted redis entry (redis_key key) n end s
      → 1 ≤ n
      → now < end
      → ((consume redis now key limit w s).1.allowed ≡ leb (n + 1) limit)
        × Counted redis entry (redis_key key) (n + 1) end (consume redis now key limit w s).0
  unfolding consume counted refused
  consume-next now key limit w n end s held some_before inside =
      let k = redis_key key in
      let s1 = (redis.incr now k s).0 in
      let alive = live-inside now n end inside in
      let next : (redis.incr now k s).1 ≡ n + 1 = laws.answer now k s ∙ rw (held, alive) refl in
      let stored : Counted redis entry k (n + 1) end s1 =
        laws.incremented now k k s ∙ rw ((eq_iff k k).1 refl, held, alive) refl in
      let left_over : redis.ttl now k s1 ≡ some (end - now) =
        laws.remaining now k s1 ∙ rw (stored, live-inside now (n + 1) end inside) refl in
      let further : n + 1 == 1 ≡ false = ground arith in
      elim (Bool-cases (ltb limit (n + 1))) [
        | inl over ↦
            rw (next, further, over, left_over)
              (let small : leb (n + 1) limit ≡ false = ground arith in sym small, stored)
        | inr within ↦
            rw (next, further, within)
              (let small : leb (n + 1) limit ≡ true = ground arith in sym small, stored)
      ]

  -- Another key's attempt.
  refused-other :
      (now : ℕ) (key k : String) (w : ℕ) (s : redis.Store) (answer : Option ℕ)
      → str_eq k key ≡ false
      → entry k (refused redis now key w s answer).0 ≡ entry k s
  unfolding refused
  refused-other now key k w s (some t) apart = refl
  refused-other now key k w s none apart = laws.expiry now key k w s ∙ rw apart refl

  counted-other :
      (now : ℕ) (key k : String) (limit w : ℕ) (s : redis.Store) (c : ℕ)
      → str_eq k key ≡ false
      → entry k (counted redis now key limit w s c).0 ≡ entry k s
  unfolding counted
  counted-other now key k limit w s c apart = elim (Bool-cases (ltb limit c)) [
    | inl over ↦ rw over (refused-other now key k w s (redis.ttl now key s) apart)
    | inr within ↦ rw within refl
  ]

  pub consume-other :
      (now : ℕ) (key k : String) (limit w : ℕ) (s : redis.Store)
      → str_eq k (redis_key key) ≡ false
      → entry k (consume redis now key limit w s).0 ≡ entry k s
  unfolding consume
  consume-other now key k limit w s apart =
      let kept : entry k (redis.incr now (redis_key key) s).0 ≡ entry k s =
        laws.incremented now (redis_key key) k s ∙ rw apart refl in
      elim (Bool-cases ((redis.incr now (redis_key key) s).1 == 1)) [
        | inl first ↦ rw first (
            counted-other now (redis_key key) k limit w _ _ apart
            ∙ laws.expiry now (redis_key key) k w _
            ∙ rw apart kept)
        | inr later ↦ rw later (counted-other now (redis_key key) k limit w _ _ apart ∙ kept)
      ]
