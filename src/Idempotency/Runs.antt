-- ===== src/Idempotency/Runs.antt =====
-- Requests that run at the same time (apps/api/src/common/interceptors/idempotency.interceptor.ts).
use ikg_studio_model_trainin.Common.{
  ℕ, ◌+◌, ◌≤◌, ◌≡◌, ◌≢◌, refl, sym, subst, List, String, [], ◌∷◌, ◌++◌, count, ◌==◌, arith,
}
use ikg_studio_model_trainin.Idempotency.{
  Response, KeyRow, ReserveResult, new_row, reserve, persist, release,
}
use ikg_studio_model_trainin.Idempotency.Balance.{
  Balanced, open_or_done, times-remove, reserve-reserved, reserve-refused, begun-Balanced,
  stored-Balanced, given_back-Balanced,
}

-- The table, the keys whose handler is running, and those whose answer was stored, once for each
-- time.
pub record Requests : Type 0 where
  pub rows : List KeyRow
  pub running : List ℕ
  pub answered : List ℕ

-- A request reserves its key; a handler's answer is stored, or the write is lost; a handler fails,
-- and its key is given back, or that write is lost. A request that does not get its key changes
-- nothing.
pub data Reaches : Requests → Type 0 where
  start : Reaches (record { rows = []; running = []; answered = [] })
  begun :
      {s : Requests} (now k user : ℕ) (operation : String) (hash : ℕ)
      → Reaches s
      → (reserve now k user operation hash s.rows).1 ≡ ReserveResult.reserved
      → Reaches (record s {
        rows = (reserve now k user operation hash s.rows).0;
        running = k ∷ s.running;
      })
  turned_away :
      {s : Requests} (now k user : ℕ) (operation : String) (hash : ℕ)
      → Reaches s
      → (reserve now k user operation hash s.rows).1 ≢ ReserveResult.reserved
      → Reaches (record s { rows = (reserve now k user operation hash s.rows).0 })
  stored :
      {rows : List KeyRow} {answered : List ℕ} (before after : List ℕ) (k : ℕ) (x : Response)
      → Reaches (record { rows = rows; running = before ++ k ∷ after; answered = answered })
      → Reaches
          (record { rows = persist k x rows; running = before ++ after; answered = k ∷ answered })
  given_back :
      {rows : List KeyRow} {answered : List ℕ} (before after : List ℕ) (k : ℕ)
      → Reaches (record { rows = rows; running = before ++ k ∷ after; answered = answered })
      → Reaches (record { rows = release k rows; running = before ++ after; answered = answered })
  lost :
      {rows : List KeyRow} {answered : List ℕ} (before after : List ℕ) (k : ℕ)
      → Reaches (record { rows = rows; running = before ++ k ∷ after; answered = answered })
      → Reaches (record { rows = rows; running = before ++ after; answered = answered })

reaches-Balanced : (j : ℕ) (s : Requests) → Reaches s → Balanced j s.rows s.running s.answered
unfolding new_row
reaches-Balanced j s start = record {
  unique = omega arith;
  opened = omega arith;
  done = omega arith;
}
reaches-Balanced j s (begun {s = t} now k user operation hash before reserved) =
    let (free, rows) = reserve-reserved now k user operation hash t.rows reserved in
    subst (λ rs. Balanced j rs (k ∷ t.running) t.answered) (sym rows)
      (begun-Balanced j k t.rows t.running t.answered (new_row now k user operation hash) refl refl
        free (reaches-Balanced j t before))
reaches-Balanced j s (turned_away {s = t} now k user operation hash before refused) =
    subst (λ rs. Balanced j rs t.running t.answered)
      (sym (reserve-refused now k user operation hash t.rows refused)) (reaches-Balanced j t before)
reaches-Balanced j s (stored {rows} {answered} before after k x run) =
    stored-Balanced j k rows before after answered x (
      reaches-Balanced j
        (record { rows = rows; running = before ++ k ∷ after; answered = answered }) run)
reaches-Balanced j s (given_back {rows} {answered} before after k run) =
    given_back-Balanced j k rows before after answered (
      reaches-Balanced j
        (record { rows = rows; running = before ++ k ∷ after; answered = answered }) run)
reaches-Balanced j s (lost {rows} {answered} before after k run) =
    let b =
      reaches-Balanced j
        (record { rows = rows; running = before ++ k ∷ after; answered = answered }) run in
    let removed = times-remove j k before after in
    let ran = b.opened in
    record { unique = b.unique; opened = omega (arith, removed, ran); done = b.done }

-- However the requests of a key interleave, and though writes may be lost, the handlers that run for
-- the key and the answers that were stored for it are together one at most: the handler never runs
-- twice at a time, and never again once an answer is stored.
pub Reaches-once :
    (j : ℕ) (s : Requests)
    → Reaches s
    → count (λ k. k == j) s.running + count (λ k. k == j) s.answered ≤ 1
Reaches-once j s run =
    let b = reaches-Balanced j s run in
    let parts = open_or_done j s.rows in
    let one = b.unique in
    let ran = b.opened in let ended = b.done in omega (arith, parts, one, ran, ended)
