-- ===== src/Audit.antt =====
-- Recording an audit entry, with sensitive keys removed (apps/api/src/audit/audit.service.ts).
pub mod Redaction
use Prim.Native.Char.{code}
use Prim.Native.String
use ikg_studio_model_trainin.Common.{
  ℕ, ◌+◌, Bool, true, false, ◌&&◌, ◌||◌, List, [], ◌∷◌, Option, none, some, String, any, leb, ◌==◌,
  if◌then◌else◌,
}
use ikg_studio_model_trainin.Json.{Json, object, Fields, end, field}
use ikg_studio_model_trainin.Database.{AuditLog, Database, insert_audit}

abbrev pub codes : String → List ℕ
codes String.[] = []
codes (String.◌∷◌ c s) = code c ∷ codes s

-- The `i` flag of the pattern, on ASCII letters.
lower : ℕ → ℕ
lower c = if leb b'A' c && leb c b'Z' then c + 32 else c

starts_with : List ℕ → List ℕ → Bool
starts_with [] key = true
starts_with (w ∷ word) [] = false
starts_with (w ∷ word) (c ∷ key) = w == lower c && starts_with word key

occurs_in : List ℕ → List ℕ → Bool
occurs_in [] word = starts_with word []
occurs_in (c ∷ key) word = starts_with word (c ∷ key) || occurs_in key word

abbrev sensitive_words : List String
sensitive_words =
    "password" ∷ "hash" ∷ "token" ∷ "secret" ∷ "authorization" ∷ "cookie" ∷ "presigned" ∷ []

-- `SENSITIVE_KEYS.test(key)`.
unfoldable pub is_sensitive : String → Bool
unfolding lower starts_with occurs_in
is_sensitive key = any (λ word. occurs_in (codes key) (codes word)) sensitive_words

-- `deepRedact`: an object inside is redacted too, an array is kept as it is.
unfoldable mutual
  pub deep_redact : Fields → Fields
  deep_redact end = end
  deep_redact (field key value rest) =
      if is_sensitive key
      then deep_redact rest
      else field key (redact_value value) (deep_redact rest)

  pub redact_value : Json → Json
  redact_value (object fields) = object (deep_redact fields)
  redact_value value = value

-- `redact`: null stays null.
unfoldable pub redact : Option Fields → Option Fields
unfolding deep_redact
redact none = none
redact (some fields) = some (deep_redact fields)

-- The row that `append` inserts: as given, but with the JSON columns redacted.
unfoldable pub redacted : AuditLog → AuditLog
unfolding redact
redacted params = record params {
  before_snapshot = redact params.before_snapshot;
  after_snapshot = redact params.after_snapshot;
  diff = redact params.diff;
  metadata = deep_redact params.metadata;
}

-- `append` with the parameters that the modelled callers pass.
unfoldable pub append : AuditLog → Database → Database
unfolding redacted
append params db = insert_audit (redacted params) db
