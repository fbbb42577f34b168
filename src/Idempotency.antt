-- ===== src/Idempotency.antt =====
-- Idempotency keys (apps/api/src/common/interceptors/idempotency.interceptor.ts). A key and a request's
-- digest are numbers here.
pub mod Laws
pub mod Balance
pub mod Runs
use ikg_studio_model_trainin.Common.{
  ℕ, ◌+◌, ◌*◌, Bool, true, false, not, ◌&&◌, ◌||◌, Option, none, some, List, String, [], ◌∷◌, ◌++◌,
  any, select, take_first, update, ◌==◌, str_eq, if◌then◌else◌,
}
use ikg_studio_model_trainin.Json.{Json}
use ikg_studio_model_trainin.Http.{ApiError, Result, ok, err}

-- What a response is, for a replay: its status and its body.
pub record Response : Type 0 where
  pub status : ℕ
  pub body : Json

-- A row of `idempotency_keys`; it has no response until the handler is done.
pub record KeyRow : Type 0 where
  pub key : ℕ
  pub user_id : ℕ
  pub operation_code : String
  pub request_hash : ℕ
  pub response : Option Response
  pub expires_at : ℕ

pub record Request : Type 0 where
  pub key : Option ℕ
  pub user_id : Option ℕ
  pub method : String
  pub operation_code : String
  pub request_hash : ℕ

pub data ReserveResult : Type 0 where
  reserved : ReserveResult
  replay : Response → ReserveResult
  conflict : ReserveResult

abbrev pub is_mutating : String → Bool
is_mutating method = any (str_eq method) ("POST" ∷ "PUT" ∷ "PATCH" ∷ "DELETE" ∷ [])

abbrev pub is_finished : KeyRow → Bool
is_finished r = elim r.response [ none ↦ false | some x ↦ true ]

abbrev pub has_key : ℕ → KeyRow → Bool
has_key k r = r.key == k

abbrev pub is_open : ℕ → KeyRow → Bool
is_open k r = has_key k r && not (is_finished r)

unfoldable pub new_row : ℕ → ℕ → ℕ → String → ℕ → KeyRow
new_row now k user operation hash = record {
  key = k;
  user_id = user;
  operation_code = operation;
  request_hash = hash;
  response = none;
  expires_at = now + 24 * 3600;
}

answer_of : Option Response → ReserveResult
answer_of none = ReserveResult.conflict
answer_of (some x) = ReserveResult.replay x

-- What `reserve` answers by the row that it finds after its INSERT was refused.
unfoldable pub inspect : ℕ → ℕ → Option KeyRow → ReserveResult
unfolding answer_of
inspect user hash none = ReserveResult.conflict
inspect user hash (some r) =
    if not (r.user_id == user) || not (r.request_hash == hash)
    then ReserveResult.conflict
    else answer_of r.response

-- The INSERT, which the primary key refuses where the key has a row.
unfoldable pub insert_key : KeyRow → List KeyRow → Option (List KeyRow)
insert_key r rows = if any (has_key r.key) rows then none else some (rows ++ r ∷ [])

reserve_by : ℕ → ℕ → ℕ → List KeyRow → Option (List KeyRow) → List KeyRow × ReserveResult
unfolding inspect
reserve_by k user hash rows (some inserted) = (inserted, ReserveResult.reserved)
reserve_by k user hash rows none = (rows, inspect user hash (take_first (has_key k) rows))

-- `reserve`.
unfoldable pub reserve : ℕ → ℕ → ℕ → String → ℕ → List KeyRow → List KeyRow × ReserveResult
unfolding reserve_by insert_key new_row
reserve now k user operation hash rows =
    reserve_by k user hash rows (insert_key (new_row now k user operation hash) rows)

abbrev finish : Response → KeyRow → KeyRow
finish x r = record r { response = some x }

-- `persist`.
unfoldable pub persist : ℕ → Response → List KeyRow → List KeyRow
persist k x rows = update (is_open k) (finish x) rows

-- `release`.
unfoldable pub release : ℕ → List KeyRow → List KeyRow
release k rows = select (λ r. not (is_open k r)) rows

-- The status of a replay.
abbrev pub or_200 : ℕ → ℕ
or_200 n = if n == 0 then 200 else n

abbrev pub key_conflict : ApiError
key_conflict = record { code = "IDEMPOTENCY_KEY_CONFLICT"; status = 409 }

-- What the handler runs on.
module _ {A : Type 0} (handler : A → A × Result Response) where
  -- The response is stored before it is sent; an error gives the key back.
  unfoldable pub settle :
      ℕ → List KeyRow → A × Result Response → (List KeyRow × A) × Result Response
  unfolding persist release
  settle k rows (a, ok x) = ((persist k (record x { status = or_200 x.status }) rows, a), ok x)
  settle k rows (a, err e) = ((release k rows, a), err e)

  unfoldable pub proceed : ℕ → A → List KeyRow × ReserveResult → (List KeyRow × A) × Result Response
  unfolding settle
  proceed k a (rows, ReserveResult.reserved) = settle k rows (handler a)
  proceed k a (rows, ReserveResult.replay x) =
      ((rows, a), ok (record x { status = or_200 x.status }))
  proceed k a (rows, ReserveResult.conflict) = ((rows, a), err key_conflict)

  ungoverned : List KeyRow → A × Result Response → (List KeyRow × A) × Result Response
  ungoverned rows (a, r) = ((rows, a), r)

  governed :
      ℕ → Request → List KeyRow → A → Option ℕ → Option ℕ → (List KeyRow × A) × Result Response
  unfolding reserve proceed ungoverned
  governed now q rows a (some k) (some user) =
      if is_mutating q.method
      then proceed k a (reserve now k user q.operation_code q.request_hash rows)
      else ungoverned rows (handler a)
  governed now q rows a _ _ = ungoverned rows (handler a)

  -- `intercept`, of one request after the other.
  unfoldable pub intercept : ℕ → Request → List KeyRow → A → (List KeyRow × A) × Result Response
  unfolding governed
  intercept now q rows a = governed now q rows a q.key q.user_id
