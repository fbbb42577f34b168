-- ===== src/RateLimit.antt =====
-- The fixed window and the guard of the login
-- (apps/api/src/common/rate-limit/rate-limit.service.ts and auth-rate-limit.guard.ts).
pub mod Keys
pub mod Window
pub mod Passes
use Prim.Native.String.{◌++◌ as joined}
use ikg_studio_model_trainin.Common.{
  ℕ, Bool, true, false, not, List, [], ◌∷◌, Option, none, some, String, max, select, leb, ltb, ◌==◌,
  trim, lower_text, is_empty_text, if◌then◌else◌,
}

-- The commands of Redis at a given time; `ttl` is absent where the answer is negative.
pub record Redis : Type 1 where
  pub Store : Type 0
  pub incr : ℕ → String → Store → Store × ℕ
  pub expire : ℕ → String → ℕ → Store → Store
  pub ttl : ℕ → String → Store → Option ℕ

pub record ConsumeResult : Type 0 where
  pub allowed : Bool
  pub retry_after_s : ℕ

pub record Limits : Type 0 where
  pub window_s : ℕ
  pub ip_limit : ℕ
  pub user_limit : ℕ
  pub ip_user_limit : ℕ

-- What the guard reads of a request; what is absent is the empty text.
pub record Attempt : Type 0 where
  pub ip : String
  pub remote_address : String
  pub username : String

pub data Verdict : Type 0 where
  admitted : Verdict
  rate_limited : (retry_after : ℕ) → Verdict

abbrev pub redis_key : String → String
redis_key key = joined "rl:" key

-- `req.ip || req.socket?.remoteAddress || 'unknown'`.
unfoldable pub address : Attempt → String
address a =
    if is_empty_text a.ip
    then if is_empty_text a.remote_address then "unknown" else a.remote_address
    else a.ip

unfoldable pub login_name : Attempt → String
login_name a = lower_text (trim a.username)

abbrev pub ip_key : String → String
ip_key ip = joined "login:ip:" ip

abbrev pub user_key : String → String
user_key name = joined "login:user:" name

abbrev pub ip_user_key : String → String → String
ip_user_key ip name = joined "login:ipuser:" (joined ip (joined ":" name))

abbrev is_refused : ConsumeResult → Bool
is_refused r = not r.allowed

-- `Math.max(1, …)`.
longest : List ConsumeResult → ℕ
longest [] = 1
longest (r ∷ rs) = max r.retry_after_s (longest rs)

verdict : List ConsumeResult → Verdict
unfolding longest
verdict [] = Verdict.admitted
verdict (r ∷ rs) = Verdict.rate_limited (longest (r ∷ rs))

unfoldable pub verdict_of : List ConsumeResult → Verdict
unfolding verdict
verdict_of rs = verdict (select is_refused rs)

module _ (redis : Redis) where
  -- A refusal, after its answer for the time to live.
  unfoldable pub refused : ℕ → String → ℕ → redis.Store → Option ℕ → redis.Store × ConsumeResult
  refused now key window s (some t) = (s, record { allowed = false; retry_after_s = t })
  refused now key window s none =
      (redis.expire now key window s, record { allowed = false; retry_after_s = window })

  unfoldable pub counted : ℕ → String → ℕ → ℕ → redis.Store → ℕ → redis.Store × ConsumeResult
  unfolding refused
  counted now key limit window s count =
      if ltb limit count
      then refused now key window s (redis.ttl now key s)
      else (s, record { allowed = true; retry_after_s = 0 })

  unfoldable pub consume : ℕ → String → ℕ → ℕ → redis.Store → redis.Store × ConsumeResult
  unfolding counted
  consume now key limit window s =
      let (s1, count) = redis.incr now (redis_key key) s in
      counted now (redis_key key) limit window
        (if count == 1 then redis.expire now (redis_key key) window s1 else s1) count

  -- The checks by the name as well.
  unfoldable pub check_named :
      ℕ → Limits → String → String → ConsumeResult → redis.Store → redis.Store × Verdict
  unfolding consume verdict_of
  check_named now l ip name first s =
      let (s1, second) = consume now (user_key name) l.user_limit l.window_s s in
      let (s2, third) = consume now (ip_user_key ip name) l.ip_user_limit l.window_s s1 in
      (s2, verdict_of (first ∷ second ∷ third ∷ []))

  -- The guard; the answers of Redis come in the order of the calls.
  unfoldable pub can_activate : ℕ → Limits → Attempt → redis.Store → redis.Store × Verdict
  unfolding consume address login_name check_named verdict_of
  can_activate now l a s =
      let (s1, first) = consume now (ip_key (address a)) l.ip_limit l.window_s s in
      let named = check_named now l (address a) (login_name a) first s1 in
      if is_empty_text (login_name a) then (s1, verdict_of (first ∷ [])) else named
