-- ===== src/Outbox/Delivery.antt =====
-- Every message that is marked PUBLISHED is on the stream (apps/api/src/outbox).
use mathlib.Core.List.Memᴰ.{Memᴰ, head, cast, append_left, append_right}
use ikg_studio_model_trainin.Common.{
  ℕ, ◌+◌, ◌≡◌, refl, sym, ◌∙◌, inl, inr, Bool, true, false, Option, none, some, List, String, [],
  ◌∷◌, All, All-weaken, All-both, All-update_where, update, leb, ◌==◌, Bool-cases,
}
use ikg_studio_model_trainin.Outbox.Rows.{OutboxStatus, Message, OutboxRow, Outbox}
use ikg_studio_model_trainin.Outbox.Publisher.{
  max_attempts, published, failed, attempted, sent, publish_row, publish_all,
}

abbrev pub is_published : OutboxStatus → Bool
is_published OutboxStatus.published = true
is_published _ = false

-- The rows of one id carry one message, as they do under a primary key.
abbrev pub SharesMessage : OutboxRow → List OutboxRow → Type 0
SharesMessage b rows = All (λ r. (r.id == b.id) ≡ true → r.message ≡ b.message) rows

pub record IsDelivered (o : Outbox) : Type 0 where
  pub keyed : All (λ b. SharesMessage b o.rows) o.rows
  pub on_stream : All (λ r. is_published r.status ≡ true → Memᴰ r.message o.stream) o.rows

failed-id : (now attempts : ℕ) (m : String) (r : OutboxRow) → (failed now attempts m r).id ≡ r.id
unfolding failed
failed-id now attempts m r = elim (Bool-cases (leb max_attempts (attempts + 1))) [
  | inl over ↦ rw over refl
  | inr left ↦ rw left refl
]

failed-message :
    (now attempts : ℕ) (m : String) (r : OutboxRow) → (failed now attempts m r).message ≡ r.message
unfolding failed
failed-message now attempts m r = elim (Bool-cases (leb max_attempts (attempts + 1))) [
  | inl over ↦ rw over refl
  | inr left ↦ rw left refl
]

failed-status :
    (now attempts : ℕ) (m : String) (r : OutboxRow)
    → is_published (failed now attempts m r).status ≡ false
unfolding failed
failed-status now attempts m r = elim (Bool-cases (leb max_attempts (attempts + 1))) [
  | inl over ↦ rw over refl
  | inr left ↦ rw left refl
]

pub attempted-id :
    (now attempts : ℕ) (out : Option String) (r : OutboxRow)
    → (attempted now attempts out r).id ≡ r.id
unfolding attempted published
attempted-id now attempts none r = refl
attempted-id now attempts (some m) r = failed-id now attempts m r

pub attempted-message :
    (now attempts : ℕ) (out : Option String) (r : OutboxRow)
    → (attempted now attempts out r).message ≡ r.message
unfolding attempted published
attempted-message now attempts none r = refl
attempted-message now attempts (some m) r = failed-message now attempts m r

-- An UPDATE that leaves the ids and the messages alone.
module _ (p : OutboxRow → Bool) (f : OutboxRow → OutboxRow)
    (same_id : (r : OutboxRow) → (f r).id ≡ r.id)
    (same_message : (r : OutboxRow) → (f r).message ≡ r.message) where
  pub shares-update :
      (b : OutboxRow) (rows : List OutboxRow)
      → SharesMessage b rows
      → SharesMessage b (update p f rows)
  shares-update b rows h =
      All-update_where p f (λ r hit share own. same_message r ∙ share (rw (same_id r) at own))
        (λ r missed share. share) rows h

  pub keyed-update :
      (rows : List OutboxRow)
      → All (λ b. SharesMessage b rows) rows
      → All (λ b. SharesMessage b (update p f rows)) (update p f rows)
  keyed-update rows h =
      All-update_where p f
        (λ b hit share.
          All-weaken (λ r one own. one (rw (same_id b) at own) ∙ sym (same_message b))
            (update p f rows) (shares-update b rows share))
        (λ b missed share. shares-update b rows share) rows h

-- One row of the batch.
module _ (xadd : ℕ → Option String) (now : ℕ) (b : OutboxRow) (o : Outbox) where
  abbrev outcome : OutboxRow → OutboxRow
  outcome = attempted now b.attempt_count (xadd b.id)

  sent-grows :
      (out : Option String) (m n : Message) (stream : List Message)
      → Memᴰ m stream
      → Memᴰ m (sent out n stream)
  sent-grows none m n stream h = append_left (n ∷ []) h
  sent-grows (some e) m n stream h = h

  sent-now :
      (out : Option String) (r : OutboxRow)
      → r.message ≡ b.message
      → is_published (attempted now b.attempt_count out r).status ≡ true
      → Memᴰ r.message (sent out b.message o.stream)
  unfolding attempted published
  sent-now none r same h = append_right o.stream (head same)
  sent-now (some e) r same h = absurd (cc (sym (failed-status now b.attempt_count e r) ∙ h))

  publish_row-IsDelivered :
      SharesMessage b o.rows → IsDelivered o → IsDelivered (publish_row xadd now b o)
  unfolding publish_row
  publish_row-IsDelivered share h = record {
    keyed =
        keyed-update (λ r. r.id == b.id) outcome (attempted-id now b.attempt_count (xadd b.id))
          (attempted-message now b.attempt_count (xadd b.id)) o.rows h.keyed;
    on_stream =
        All-update_where (λ r. r.id == b.id) outcome
          (λ r hit both done.
            let there = sent-now (xadd b.id) r (both.0 hit) done in
            cast (attempted-message now b.attempt_count (xadd b.id) r) there)
          (λ r missed both done. sent-grows (xadd b.id) r.message b.message o.stream (both.1 done))
          o.rows
          (All-both (λ r. (r.id == b.id) ≡ true → r.message ≡ b.message)
            (λ r. is_published r.status ≡ true → Memᴰ r.message o.stream) o.rows share h.on_stream);
  }

  publish_row-shares :
      (c : OutboxRow) → SharesMessage c o.rows → SharesMessage c (publish_row xadd now b o).rows
  unfolding publish_row
  publish_row-shares c =
      shares-update (λ r. r.id == b.id) outcome (attempted-id now b.attempt_count (xadd b.id))
        (attempted-message now b.attempt_count (xadd b.id)) c o.rows

pub publish_all-IsDelivered :
    (xadd : ℕ → Option String) (now : ℕ) (taken : List OutboxRow) (o : Outbox)
    → All (λ b. SharesMessage b o.rows) taken
    → IsDelivered o
    → IsDelivered (publish_all xadd now taken o)
unfolding publish_all
publish_all-IsDelivered xadd now [] o share h = h
publish_all-IsDelivered xadd now (b ∷ taken) o share h =
    publish_all-IsDelivered xadd now taken (publish_row xadd now b o)
      (All-weaken (λ c one. publish_row-shares xadd now b o c one) taken share.1)
      (publish_row-IsDelivered xadd now b o share.0 h)

pub publish_all-grows :
    (xadd : ℕ → Option String) (now : ℕ) (taken : List OutboxRow) (o : Outbox) (m : Message)
    → Memᴰ m o.stream
    → Memᴰ m (publish_all xadd now taken o).stream
unfolding publish_all publish_row
publish_all-grows xadd now [] o m h = h
publish_all-grows xadd now (b ∷ taken) o m h =
    publish_all-grows xadd now taken (publish_row xadd now b o) m
      (sent-grows xadd now b o (xadd b.id) m b.message o.stream h)
