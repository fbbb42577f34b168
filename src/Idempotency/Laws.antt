-- ===== src/Idempotency/Laws.antt =====
-- A request that is sent again (apps/api/src/common/interceptors/idempotency.interceptor.ts).
use ikg_studio_model_trainin.Common.{
  ℕ, ◌≡◌, refl, ap, ◌∙◌, true, false, not, ◌&&◌, ◌||◌, some, List, [], ◌∷◌, ◌++◌, any, take_first,
  ◌==◌, ==_refl, arith,
}
use ikg_studio_model_trainin.Http.{ApiError, Result, ok, err}
use ikg_studio_model_trainin.Idempotency.{
  Response, KeyRow, Request, is_mutating, has_key, is_finished, new_row, inspect, insert_key,
  reserve_by, reserve, finish, persist, release, or_200, key_conflict, settle, proceed, governed,
  intercept,
}

-- The table after a new row is finished, or given back.
module _ (k : ℕ) (r : KeyRow) (own : (r.key == k) ≡ true) (opened : is_finished r ≡ false) where
  persisted_row :
      (x : Response) (rows : List KeyRow)
      → any (has_key k) rows ≡ false
      → take_first (has_key k) (persist k x (rows ++ r ∷ [])) ≡ some (finish x r)
  unfolding persist
  persisted_row x [] free = rw own (rw opened (rw own refl))
  persisted_row x (y ∷ rows) free =
      let other : (y.key == k) ≡ false = ground (arith, free) in
      rw other (rw other (persisted_row x rows (ground (arith, free))))

  persisted_any :
      (x : Response) (rows : List KeyRow)
      → any (has_key k) rows ≡ false
      → any (has_key k) (persist k x (rows ++ r ∷ [])) ≡ true
  unfolding persist
  persisted_any x [] free = rw own (rw opened (rw own refl))
  persisted_any x (y ∷ rows) free =
      let other : (y.key == k) ≡ false = ground (arith, free) in
      rw other (rw other (persisted_any x rows (ground (arith, free))))

  released : (rows : List KeyRow) → any (has_key k) rows ≡ false → release k (rows ++ r ∷ []) ≡ rows
  unfolding release
  released [] free = rw own (rw opened refl)
  released (y ∷ rows) free =
      let other : (y.key == k) ≡ false = ground (arith, free) in
      rw other (ap (λ ys. y ∷ ys) (released rows (ground (arith, free))))

module _ {A : Type 0} (handler : A → A × Result Response) (now : ℕ) (q : Request)
    (rows : List KeyRow) (a : A) (k user : ℕ) (keyed : q.key ≡ some k)
    (known : q.user_id ≡ some user) (mutating : is_mutating q.method ≡ true) where
  governed_by :
      intercept handler now q rows a
      ≡ proceed handler k a (reserve now k user q.operation_code q.request_hash rows)
  unfolding intercept governed
  governed_by =
      ap (λ o. governed handler now q rows a o q.user_id) keyed
      ∙ ap (λ o. governed handler now q rows a (some k) o) known
      ∙ rw mutating refl

  -- A key without a row is reserved, and the handler runs.
  first_run :
      any (has_key k) rows ≡ false
      → intercept handler now q rows a
        ≡ settle handler k
            (rows ++ new_row now k user q.operation_code q.request_hash ∷ [])
            (handler a)
  unfolding reserve insert_key new_row reserve_by proceed
  first_run free = governed_by ∙ rw free refl

  -- A key with a row is answered by the row.
  next_run :
      (r : KeyRow)
      → any (has_key k) rows ≡ true
      → take_first (has_key k) rows ≡ some r
      → intercept handler now q rows a
        ≡ proceed handler k a (rows, inspect user q.request_hash (some r))
  unfolding reserve insert_key new_row reserve_by
  next_run r taken found =
      governed_by
      ∙ rw taken (ap (λ o. proceed handler k a (rows, inspect user q.request_hash o)) found)

-- The status with which an answer is stored.
abbrev stored : Response → Response
stored x = record x { status = or_200 x.status }

-- A request with an unused key whose handler answers gets that answer, and the same request sent
-- again, by the same user and at any time, gets the stored answer, whatever the handler would do, and
-- changes nothing.
pub intercept-again :
    {A : Type 0} (handler other : A → A × Result Response) (now later : ℕ) (q : Request)
    (rows : List KeyRow) (a after : A) (k user : ℕ) (x : Response)
    → q.key ≡ some k
    → q.user_id ≡ some user
    → is_mutating q.method ≡ true
    → any (has_key k) rows ≡ false
    → handler a ≡ (after, ok x)
    → ((intercept handler now q rows a).1 ≡ ok x)
      × ((intercept handler now q rows a).0.1 ≡ after)
      × (intercept other later q (intercept handler now q rows a).0.0 after ≡ (
        ((intercept handler now q rows a).0.0, after),
        ok (record x { status = or_200 (or_200 x.status) }),
      ))
unfolding settle proceed inspect new_row
intercept-again handler other now later q rows a after k user x keyed known mutating free ran =
    let r = new_row now k user q.operation_code q.request_hash in
    let first =
      first_run handler now q rows a k user keyed known mutating free
      ∙ ap (settle handler k (rows ++ r ∷ [])) ran in
    let again =
      next_run other later q (persist k (stored x) (rows ++ r ∷ [])) after k user keyed known
        mutating (finish (stored x) r) (persisted_any k r (==_refl k) refl (stored x) rows free)
        (persisted_row k r (==_refl k) refl (stored x) rows free) in
    (
      ap (λ o. o.1) first,
      ap (λ o. o.0.1) first,
      rw (ap (λ o. o.0.0) first) (again ∙ rw (==_refl user) (rw (==_refl q.request_hash) refl)),
    )

-- A key whose request was answered is refused to another request and to another user: the
-- handler does not run and nothing changes.
pub intercept-conflict :
    {A : Type 0} (handler other : A → A × Result Response) (now later : ℕ) (q p : Request)
    (rows : List KeyRow) (a after : A) (k user asker : ℕ) (x : Response)
    → q.key ≡ some k
    → q.user_id ≡ some user
    → is_mutating q.method ≡ true
    → p.key ≡ some k
    → p.user_id ≡ some asker
    → is_mutating p.method ≡ true
    → (user == asker && q.request_hash == p.request_hash) ≡ false
    → any (has_key k) rows ≡ false
    → handler a ≡ (after, ok x)
    → intercept other later p (intercept handler now q rows a).0.0 after
      ≡ (((intercept handler now q rows a).0.0, after), err key_conflict)
unfolding settle proceed inspect new_row
intercept-conflict handler other now later q p rows a after k user asker x keyed known mutating
      keyed' known' mutating' differs free ran =
    let r = new_row now k user q.operation_code q.request_hash in
    let first =
      first_run handler now q rows a k user keyed known mutating free
      ∙ ap (settle handler k (rows ++ r ∷ [])) ran in
    let again =
      next_run other later p (persist k (stored x) (rows ++ r ∷ [])) after k asker keyed' known'
        mutating' (finish (stored x) r) (persisted_any k r (==_refl k) refl (stored x) rows free)
        (persisted_row k r (==_refl k) refl (stored x) rows free) in
    let refuse : (not (user == asker) || not (q.request_hash == p.request_hash)) ≡ true =
      ground (arith, differs) in
    rw (ap (λ o. o.0.0) first) (again ∙ rw refuse refl)

-- A request with an unused key whose handler fails gets the handler's error and leaves the keys as
-- they were, so that it can be sent again.
pub intercept-error :
    {A : Type 0} (handler : A → A × Result Response) (now : ℕ) (q : Request) (rows : List KeyRow)
    (a after : A) (k user : ℕ) (e : ApiError)
    → q.key ≡ some k
    → q.user_id ≡ some user
    → is_mutating q.method ≡ true
    → any (has_key k) rows ≡ false
    → handler a ≡ (after, err e)
    → intercept handler now q rows a ≡ ((rows, after), err e)
unfolding settle new_row
intercept-error handler now q rows a after k user e keyed known mutating free ran =
    let r = new_row now k user q.operation_code q.request_hash in
    first_run handler now q rows a k user keyed known mutating free
    ∙ ap (settle handler k (rows ++ r ∷ [])) ran
    ∙ ap (λ ys. ((ys, after), err e)) (released k r (==_refl k) refl rows free)
