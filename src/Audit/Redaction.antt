-- ===== src/Audit/Redaction.antt =====
-- What redaction removes and what it keeps (apps/api/src/audit/audit.service.ts, `deepRedact`).
use ikg_studio_model_trainin.Common.{
  ◌≡◌, refl, false, Bool-cases, inl, inr, arith, Option, none, some, String, List, str_eq, All,
  All-append, if◌then◌else◌, eq_iff,
}
use ikg_studio_model_trainin.Database.{AuditLog, Database}
use ikg_studio_model_trainin.Json.{
  Json, null, boolean, number, text, array, object, Fields, Items, end, field,
}
use ikg_studio_model_trainin.Audit.{
  append, redact, redacted, is_sensitive, deep_redact, redact_value,
}

-- No sensitive key at any depth that is reached through objects alone.
abbrev mutual
  pub IsClean : Fields → Type 0
  IsClean end = Unit
  IsClean (field key value rest) = (is_sensitive key ≡ false) × IsCleanValue value × IsClean rest

  pub IsCleanValue : Json → Type 0
  IsCleanValue (object fields) = IsClean fields
  IsCleanValue value = Unit

mutual
  unfolding deep_redact

  redact-IsClean : (fs : Fields) → IsClean (deep_redact fs)
  redact-IsClean end = tt
  redact-IsClean (field key value rest) = elim (Bool-cases (is_sensitive key)) [
    | inl bad ↦ rw bad (redact-IsClean rest)
    | inr good ↦ rw good (good, redact_value-IsClean value, redact-IsClean rest)
  ]

  redact_value-IsClean : (v : Json) → IsCleanValue (redact_value v)
  redact_value-IsClean null = tt
  redact_value-IsClean (boolean b) = tt
  redact_value-IsClean (number n) = tt
  redact_value-IsClean (text s) = tt
  redact_value-IsClean (array vs) = tt
  redact_value-IsClean (object fs) = redact-IsClean fs

mutual
  unfolding deep_redact

  redact_clean : (fs : Fields) → IsClean fs → deep_redact fs ≡ fs
  redact_clean end h = refl
  redact_clean (field key value rest) (good, v, r) =
      rw good (cc (redact_value_clean value v, redact_clean rest r))

  redact_value_clean : (v : Json) → IsCleanValue v → redact_value v ≡ v
  redact_value_clean null h = refl
  redact_value_clean (boolean b) h = refl
  redact_value_clean (number n) h = refl
  redact_value_clean (text s) h = refl
  redact_value_clean (array vs) h = refl
  redact_value_clean (object fs) h = cc (redact_clean fs h)

-- The value at a key of an object.
abbrev pub get : String → Fields → Option Json
get k end = none
get k (field key value rest) = if str_eq key k then some value else get k rest

abbrev pub redact_option : Option Json → Option Json
redact_option none = none
redact_option (some v) = some (redact_value v)

-- After redaction a sensitive key is absent, and any other key has its value, redacted in turn.
pub get-deep_redact :
    (k : String) (fs : Fields)
    → get k (deep_redact fs) ≡ (if is_sensitive k then none else redact_option (get k fs))
unfolding deep_redact
get-deep_redact k end = ground arith
get-deep_redact k (field key value rest) = ground (arith, eq_iff key k, get-deep_redact k rest)

abbrev pub IsCleanSnapshot : Option Fields → Type 0
IsCleanSnapshot none = Unit
IsCleanSnapshot (some fields) = IsClean fields

abbrev pub IsCleanEntry : AuditLog → Type 0
IsCleanEntry a =
    IsClean a.metadata
    × IsCleanSnapshot a.before_snapshot
    × IsCleanSnapshot a.after_snapshot
    × IsCleanSnapshot a.diff

-- Every JSON column of every audit entry is free of sensitive keys.
abbrev pub HasCleanEntries : List AuditLog → Type 0
HasCleanEntries = All IsCleanEntry

redact-IsCleanSnapshot : (o : Option Fields) → IsCleanSnapshot (redact o)
unfolding redact
redact-IsCleanSnapshot none = tt
redact-IsCleanSnapshot (some fields) = redact-IsClean fields

pub redacted-IsCleanEntry : (params : AuditLog) → IsCleanEntry (redacted params)
unfolding redacted
redacted-IsCleanEntry params = (
  redact-IsClean params.metadata,
  redact-IsCleanSnapshot params.before_snapshot,
  redact-IsCleanSnapshot params.after_snapshot,
  redact-IsCleanSnapshot params.diff,
)

-- Recording an entry keeps the metadata, the snapshots and the diff of every stored entry free of
-- sensitive keys, whatever the caller passes.
pub append-IsClean :
    (params : AuditLog) (db : Database)
    → HasCleanEntries db.audit_logs
    → HasCleanEntries (append params db).audit_logs
unfolding append
append-IsClean params db h =
    All-append IsCleanEntry db.audit_logs _ h (redacted-IsCleanEntry params, tt)

-- Redacting twice is redacting once.
pub deep_redact_idempotent : (fs : Fields) → deep_redact (deep_redact fs) ≡ deep_redact fs
deep_redact_idempotent fs = redact_clean (deep_redact fs) (redact-IsClean fs)

-- An array is stored as it is given, with the objects in it, whatever their keys are.
pub array_not_redacted :
    (k : String) (vs : Items) (fs : Fields)
    → is_sensitive k ≡ false
    → get k fs ≡ some (array vs)
    → get k (deep_redact fs) ≡ some (array vs)
unfolding deep_redact
array_not_redacted k vs fs good found = rw (get-deep_redact, good, found) refl
