-- ===== src/Tests/RateLimit.antt =====
-- A store of Redis as a function, and attempts of one name from two addresses.
use ikg_studio_model_trainin.Common.{
  ℕ, ◌+◌, ◌≤◌, refl, arith, [], ◌∷◌, List, Option, none, some, String, str_eq, lower_text, trim,
  if◌then◌else◌,
}
use ikg_studio_model_trainin.RateLimit.{Redis, Limits, Attempt, login_name}
use ikg_studio_model_trainin.RateLimit.Window.{Entry, live, bump, expiring, left, IsRedis}
use ikg_studio_model_trainin.RateLimit.Passes.{passes, passes-user_limit}

abbrev Entries : Type 0
Entries = String → Option Entry

abbrev put : String → Option Entry → Entries → Entries
put k e s = λ q. if str_eq q k then e else s q

abbrev redis : Redis
redis = record {
  Store = Entries;
  incr = λ now k s. (put k (some (bump (live now (s k)))) s, (bump (live now (s k))).count);
  expire = λ now k w s. put k (expiring (now + w) (live now (s k))) s;
  ttl = λ now k s. left now (live now (s k));
}

abbrev entry : String → Entries → Option Entry
entry k s = s k

redis-IsRedis : IsRedis redis entry
redis-IsRedis = record {
  answer = λ now k s. refl;
  incremented = λ now k q s. refl;
  expiry = λ now k q w s. refl;
  remaining = λ now k s. refl;
}

abbrev limits : Limits
limits = record { window_s = 300; ip_limit = 30; user_limit = 2; ip_user_limit = 8 }

abbrev from : String → Attempt
from ip = record { ip = ip; remote_address = ""; username = " Ada" }

abbrev later : List (ℕ × Attempt)
later = (110, from "10.0.0.2") ∷ (120, from "10.0.0.1") ∷ (399, from "10.0.0.3") ∷ []

passes-user_limit_example :
    passes redis limits (login_name (from "10.0.0.1")) ((100, from "10.0.0.1") ∷ later) (λ k. none)
    ≤ 2
unfolding login_name lower_text trim
passes-user_limit_example =
    passes-user_limit redis entry redis-IsRedis limits 100 (from "10.0.0.1") later (λ k. none) refl
      refl refl (omega arith, (omega arith, (omega arith, tt)))
