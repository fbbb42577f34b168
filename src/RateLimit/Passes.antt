-- ===== src/RateLimit/Passes.antt =====
-- How many attempts of one name pass within a window
-- (apps/api/src/common/rate-limit/auth-rate-limit.guard.ts).
use ikg_studio_model_trainin.Common.{
  ℕ, suc, ◌+◌, ◌-◌, ◌≤◌, ◌<◌, ◌≡◌, refl, sym, ap, subst, ◌∙◌, inl, inr, Bool, true, false, ◌&&◌,
  List, [], ◌∷◌, Option, none, String, leb, ltb, str_eq, eq_iff, is_empty_text, All, arith,
  Bool-cases, if◌then◌else◌,
}
use ikg_studio_model_trainin.RateLimit.{
  Redis, ConsumeResult, Limits, Attempt, Verdict, redis_key, login_name, user_key, ip_key,
  ip_user_key, address, verdict_of, consume, check_named, can_activate,
}
use ikg_studio_model_trainin.RateLimit.Keys.{
  user_key-ip_key, user_key-ip_user_key, user_key-injective,
}
use ikg_studio_model_trainin.RateLimit.Window.{
  Entry, live, IsRedis, Counted, consume-first, consume-next, consume-other,
}

abbrev is_passed : Verdict → Bool
is_passed Verdict.admitted = true
is_passed (Verdict.rate_limited t) = false

-- A refusal by the second key is a refusal.
second_refused :
    (a b c : ConsumeResult) → b.allowed ≡ false → is_passed (verdict_of (a ∷ b ∷ c ∷ [])) ≡ false
unfolding verdict_of
second_refused a b c h = elim (Bool-cases a.allowed) [
  | inl passed ↦ rw (passed, h) refl
  | inr stopped ↦ rw stopped refl
]

one_more :
    (passed : Bool) (later n limit : ℕ)
    → later ≤ limit - (n + 1)
    → (leb (n + 1) limit ≡ false → passed ≡ false)
    → (if passed then suc later else later) ≤ limit - n
one_more false later n limit rest full = omega (arith, rest)
one_more true later n limit rest full = elim (Bool-cases (leb (n + 1) limit)) [
  | inl within ↦ ground (arith, within, rest)
  | inr over ↦ absurd (cc (full over))
]

first_one :
    (passed : Bool) (later limit : ℕ)
    → ltb 0 limit ≡ true
    → later ≤ limit - 1
    → (if passed then suc later else later) ≤ limit
first_one false later limit positive rest = omega (arith, rest)
first_one true later limit positive rest = ground arith

abbrev name_key : String → String
name_key name = redis_key (user_key name)

module _ (redis : Redis) (l : Limits) where
  -- How many of the attempts pass that have the name.
  unfoldable pub passes : String → List (ℕ × Attempt) → redis.Store → ℕ
  passes name [] s = 0
  passes name ((now, a) ∷ rest) s =
      let later = passes name rest (can_activate redis now l a s).0 in
      if str_eq name (login_name a) && is_passed (can_activate redis now l a s).1
      then suc later
      else later

module _ (redis : Redis) (entry : String → redis.Store → Option Entry) (laws : IsRedis redis entry)
    (l : Limits) where
  -- The keys of an address leave the key of a name alone.
  ip_kept :
      (now : ℕ) (name ip : String) (s : redis.Store)
      → entry (name_key name) (consume redis now (ip_key ip) l.ip_limit l.window_s s).0
        ≡ entry (name_key name) s
  ip_kept now name ip s =
      consume-other redis entry laws now (ip_key ip) (name_key name) l.ip_limit l.window_s s
        (user_key-ip_key name ip)

  ip_user_kept :
      (now : ℕ) (name ip other : String) (s : redis.Store)
      → entry
          (name_key name)
          (consume redis now (ip_user_key ip other) l.ip_user_limit l.window_s s).0
        ≡ entry (name_key name) s
  ip_user_kept now name ip other s =
      consume-other redis entry laws now (ip_user_key ip other) (name_key name) l.ip_user_limit
        l.window_s s (user_key-ip_user_key name ip other)

  can_activate-first :
      (now : ℕ) (a : Attempt) (s : redis.Store)
      → is_empty_text (login_name a) ≡ false
      → ltb 0 l.user_limit ≡ true
      → live now (entry (name_key (login_name a)) s) ≡ none
      → Counted redis entry
          (name_key (login_name a))
          1
          (now + l.window_s)
          (can_activate redis now l a s).0
  unfolding can_activate check_named
  can_activate-first now a s named positive absent =
      let name = login_name a in
      let one = consume redis now (ip_key (address a)) l.ip_limit l.window_s s in
      let absent_still : live now (entry (name_key name) one.0) ≡ none =
        ap (live now) (ip_kept now name (address a) s) ∙ absent in
      let (allowed, held) =
        consume-first redis entry laws now (user_key name) l.user_limit l.window_s one.0
          absent_still positive in
      rw named (ip_user_kept now name (address a) name _ ∙ held)

  can_activate-next :
      (now n end : ℕ) (a : Attempt) (s : redis.Store)
      → is_empty_text (login_name a) ≡ false
      → Counted redis entry (name_key (login_name a)) n end s
      → 1 ≤ n
      → now < end
      → Counted redis entry (name_key (login_name a)) (n + 1) end (can_activate redis now l a s).0
        × (leb (n + 1) l.user_limit ≡ false → is_passed (can_activate redis now l a s).1 ≡ false)
  unfolding can_activate check_named
  can_activate-next now n end a s named held before inside =
      let name = login_name a in
      let one = consume redis now (ip_key (address a)) l.ip_limit l.window_s s in
      let two = consume redis now (user_key name) l.user_limit l.window_s one.0 in
      let three =
        consume redis now (ip_user_key (address a) name) l.ip_user_limit l.window_s two.0 in
      let (allowed, more) =
        consume-next redis entry laws now (user_key name) l.user_limit l.window_s n end one.0
          (ip_kept now name (address a) s ∙ held) before inside in
      rw named (
        ip_user_kept now name (address a) name two.0 ∙ more,
        λ full. second_refused one.1 two.1 three.1 (allowed ∙ full),
      )

  can_activate-other :
      (now : ℕ) (a : Attempt) (name : String) (s : redis.Store)
      → str_eq name (login_name a) ≡ false
      → entry (name_key name) (can_activate redis now l a s).0 ≡ entry (name_key name) s
  unfolding can_activate check_named
  can_activate-other now a name s apart = elim (Bool-cases (is_empty_text (login_name a))) [
    | inl unnamed ↦ rw unnamed (ip_kept now name (address a) s)
    | inr named ↦ rw named (
        ip_user_kept now name (address a) (login_name a) _
        ∙ consume-other redis entry laws now (user_key (login_name a)) (name_key name) l.user_limit
            l.window_s _ (user_key-injective name (login_name a) apart)
        ∙ ip_kept now name (address a) s)
  ]

  -- With `n` attempts counted, at most the rest of the limit pass.
  passes_rest :
      (name : String) (n end : ℕ) (xs : List (ℕ × Attempt)) (s : redis.Store)
      → is_empty_text name ≡ false
      → Counted redis entry (name_key name) n end s
      → 1 ≤ n
      → All (λ x. x.0 < end) xs
      → passes redis l name xs s ≤ l.user_limit - n
  unfolding passes
  passes_rest name n end [] s given held before within = omega arith
  passes_rest name n end ((now, a) ∷ xs) s given held before within =
      let after = (can_activate redis now l a s).0 in
      elim (Bool-cases (str_eq name (login_name a))) [
        | inl same ↦
            let equal : login_name a ≡ name = sym ((eq_iff name (login_name a)).0 same) in
            let (more, full) =
              can_activate-next now n end a s (rw equal given)
                (subst (λ x. Counted redis entry (name_key x) n end s) (sym equal) held) before
                within.0 in
            let more_named : Counted redis entry (name_key name) (n + 1) end after =
              subst (λ x. Counted redis entry (name_key x) (n + 1) end after) equal more in
            let rest =
              passes_rest name (n + 1) end xs after given more_named (omega arith) within.1 in
            rw same (one_more _ _ n l.user_limit rest full)
        | inr apart ↦
            let held_after = can_activate-other now a name s apart ∙ held in
            rw apart (passes_rest name n end xs after given held_after before within.1)
      ]

  -- For a Redis that does as it documents, a positive limit and an attempt with a name whose key is
  -- not alive: of that attempt and any others before the window of the first is over, from any
  -- addresses and of any names, at most the limit of those with its name pass the guard.
  pub passes-user_limit :
      (now : ℕ) (a : Attempt) (xs : List (ℕ × Attempt)) (s : redis.Store)
      → ltb 0 l.user_limit ≡ true
      → is_empty_text (login_name a) ≡ false
      → live now (entry (redis_key (user_key (login_name a))) s) ≡ none
      → All (λ x. x.0 < now + l.window_s) xs
      → passes redis l (login_name a) ((now, a) ∷ xs) s ≤ l.user_limit
  unfolding passes
  passes-user_limit now a xs s positive given absent within =
      let first = can_activate-first now a s given positive absent in
      let rest =
        passes_rest (login_name a) 1 (now + l.window_s) xs _ given first (omega arith) within in
      rw ((eq_iff (login_name a) (login_name a)).1 refl) (first_one _ _ l.user_limit positive rest)
