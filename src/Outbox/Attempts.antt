-- ===== src/Outbox/Attempts.antt =====
-- How often an event is tried, and where it ends (apps/api/src/outbox/outbox.publisher.ts).
use ikg_studio_model_trainin.Common.{
  ℕ, ◌+◌, ◌≤◌, ◌<◌, ◌≡◌, refl, inl, inr, Bool, true, false, Option, none, some, List, String, [],
  ◌∷◌, any, All, All-append, All-weaken, All-update_where, All-select_where, leb, ◌==◌, arith,
  Bool-cases,
}
use ikg_studio_model_trainin.Outbox.Rows.{OutboxStatus, OutboxRow, Outbox, new_row, enqueue}
use ikg_studio_model_trainin.Outbox.Publisher.{
  max_attempts, is_waiting, is_due, batch, is_taken, processing, published, failed, attempted,
  publish_row, publish_all, take_batch, tick, tick_rolled_back,
}
use ikg_studio_model_trainin.Outbox.Batch.{batch-All}
use ikg_studio_model_trainin.Outbox.Runs.{Reaches, here, enqueued, ticked, rolled_back}

-- The attempts that a status stands for, between two ticks.
abbrev pub Tried : OutboxStatus → ℕ → Type 0
Tried OutboxStatus.pending attempts = attempts ≡ 0
Tried OutboxStatus.processing attempts = ⊥
Tried OutboxStatus.published attempts = (1 ≤ attempts) × (attempts ≤ max_attempts)
Tried OutboxStatus.failed attempts = (1 ≤ attempts) × (attempts < max_attempts)
Tried OutboxStatus.dead attempts = attempts ≡ max_attempts

unfoldable pub IsSettled : OutboxRow → Type 0
IsSettled r = Tried r.status r.attempt_count

-- Within a tick a row may be PROCESSING, while it is still to be sent.
abbrev InTick : List OutboxRow → OutboxStatus → OutboxRow → Type 0
InTick rest OutboxStatus.processing r = any (λ t. t.id == r.id) rest ≡ true
InTick rest OutboxStatus.pending r = r.attempt_count ≡ 0
InTick rest OutboxStatus.published r = (1 ≤ r.attempt_count) × (r.attempt_count ≤ max_attempts)
InTick rest OutboxStatus.failed r = (1 ≤ r.attempt_count) × (r.attempt_count < max_attempts)
InTick rest OutboxStatus.dead r = r.attempt_count ≡ max_attempts

abbrev IsInTick : List OutboxRow → OutboxRow → Type 0
IsInTick rest r = InTick rest r.status r

attempted-InTick :
    (now attempts : ℕ) (out : Option String) (rest : List OutboxRow) (r : OutboxRow)
    → attempts < max_attempts
    → IsInTick rest (attempted now attempts out r)
unfolding attempted published failed
attempted-InTick now attempts none rest r few = (omega arith, omega (arith, few))
attempted-InTick now attempts (some m) rest r few =
    elim (Bool-cases (leb max_attempts (attempts + 1))) [
      | inl over ↦ rw over (ground (arith, over))
      | inr left ↦ rw left (omega arith, ground (arith, left))
    ]

passed-InTick :
    (b : OutboxRow) (rest : List OutboxRow) (t : OutboxStatus) (r : OutboxRow)
    → (r.id == b.id) ≡ false
    → InTick (b ∷ rest) t r
    → InTick rest t r
passed-InTick b rest OutboxStatus.pending r other h = h
passed-InTick b rest OutboxStatus.processing r other h =
    let apart : (b.id == r.id) ≡ false = ground (arith, other) in rw apart at h
passed-InTick b rest OutboxStatus.published r other h = h
passed-InTick b rest OutboxStatus.failed r other h = h
passed-InTick b rest OutboxStatus.dead r other h = h

taken-InTick :
    (taken : List OutboxRow) (t : OutboxStatus) (r : OutboxRow)
    → Tried t r.attempt_count
    → InTick taken t r
taken-InTick taken OutboxStatus.pending r h = h
taken-InTick taken OutboxStatus.processing r h = absurd h
taken-InTick taken OutboxStatus.published r h = h
taken-InTick taken OutboxStatus.failed r h = h
taken-InTick taken OutboxStatus.dead r h = h

sent-IsSettled : (t : OutboxStatus) (r : OutboxRow) → InTick [] t r → Tried t r.attempt_count
sent-IsSettled OutboxStatus.pending r h = h
sent-IsSettled OutboxStatus.processing r h = absurd (cc h)
sent-IsSettled OutboxStatus.published r h = h
sent-IsSettled OutboxStatus.failed r h = h
sent-IsSettled OutboxStatus.dead r h = h

pub waiting-few : (t : OutboxStatus) (n : ℕ) → is_waiting t ≡ true → Tried t n → n < max_attempts
waiting-few OutboxStatus.pending n w h = omega (arith, h)
waiting-few OutboxStatus.processing n w h = absurd h
waiting-few OutboxStatus.published n w h = absurd (cc w)
waiting-few OutboxStatus.failed n w h = h.1
waiting-few OutboxStatus.dead n w h = absurd (cc w)

pub attempted-IsSettled :
    (now attempts : ℕ) (out : Option String) (r : OutboxRow)
    → attempts < max_attempts
    → IsSettled (attempted now attempts out r)
unfolding IsSettled
attempted-IsSettled now attempts out r few =
    sent-IsSettled (attempted now attempts out r).status (attempted now attempts out r)
      (attempted-InTick now attempts out [] r few)

pub attempted-counts :
    (now attempts : ℕ) (out : Option String) (r : OutboxRow)
    → (attempted now attempts out r).attempt_count ≡ attempts + 1
unfolding attempted published failed
attempted-counts now attempts none r = refl
attempted-counts now attempts (some m) r = elim (Bool-cases (leb max_attempts (attempts + 1))) [
  | inl over ↦ rw over refl
  | inr left ↦ rw left refl
]

publish_all-IsSettled :
    (xadd : ℕ → Option String) (now : ℕ) (taken : List OutboxRow) (o : Outbox)
    → All (λ b. b.attempt_count < max_attempts) taken
    → All (IsInTick taken) o.rows
    → All IsSettled (publish_all xadd now taken o).rows
unfolding publish_all publish_row IsSettled
publish_all-IsSettled xadd now [] o few h =
    All-weaken (λ r one. sent-IsSettled r.status r one) o.rows h
publish_all-IsSettled xadd now (b ∷ taken) o few h =
    publish_all-IsSettled xadd now taken (publish_row xadd now b o) few.1 (
      All-update_where (λ r. r.id == b.id) (attempted now b.attempt_count (xadd b.id))
        (λ r hit old. attempted-InTick now b.attempt_count (xadd b.id) taken r few.0)
        (λ r missed old. passed-InTick b taken r.status r missed old) o.rows h)

tick-IsSettled :
    (locked : ℕ → Bool) (xadd : ℕ → Option String) (now : ℕ) (o : Outbox)
    → All IsSettled o.rows
    → All IsSettled (tick locked xadd now o).rows
unfolding tick take_batch is_taken processing is_due IsSettled
tick-IsSettled locked xadd now o h =
    let taken = batch locked now o.rows in
    publish_all-IsSettled xadd now taken (take_batch taken o)
      (batch-All (λ b. b.attempt_count < max_attempts) locked now o.rows
        (All-select_where (is_due locked now)
          (λ b due one. waiting-few b.status b.attempt_count (ground (arith, due)) one) o.rows h))
      (All-update_where (is_taken taken) processing (λ r hit old. ground (arith, hit))
        (λ r missed old. taken-InTick taken r.status r old) o.rows h)

-- From an outbox in which it is so, after any sequence of enqueuing under a new id, committed ticks
-- and ticks that are rolled back, every event is PENDING and untried, or FAILED after 1 to 7
-- attempts, or PUBLISHED after 1 to 8, or DEAD after 8; none is left PROCESSING.
pub Reaches-IsSettled : (o p : Outbox) → All IsSettled o.rows → Reaches o p → All IsSettled p.rows
unfolding enqueue new_row tick_rolled_back IsSettled
Reaches-IsSettled o p h here = h
Reaches-IsSettled o p h (enqueued {p = q} now id m before fresh) =
    All-append IsSettled q.rows (new_row now id m ∷ []) (Reaches-IsSettled o q h before) (refl, tt)
Reaches-IsSettled o p h (ticked {p = q} locked xadd now before) =
    tick-IsSettled locked xadd now q (Reaches-IsSettled o q h before)
Reaches-IsSettled o p h (rolled_back {p = q} locked xadd now n before) =
    Reaches-IsSettled o q h before
