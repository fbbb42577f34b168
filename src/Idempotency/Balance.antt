-- ===== src/Idempotency/Balance.antt =====
-- The rows of a key against its handlers and answers
-- (apps/api/src/common/interceptors/idempotency.interceptor.ts).
use ikg_studio_model_trainin.Common.{
  ℕ, ◌+◌, ◌≤◌, ◌≡◌, ◌≢◌, refl, subst, ◌∙◌, inl, inr, Bool, true, false, not, ◌&&◌, ◌||◌, Option,
  none, some, List, String, [], ◌∷◌, ◌++◌, any, take_first, update, count, count-append,
  count-update_same, count-update_zero, count-select_same, count-select_le, count-none, count-split,
  ◌==◌, ==_iff, arith, Bool-cases,
}
use ikg_studio_model_trainin.Idempotency.{
  Response, KeyRow, ReserveResult, has_key, is_finished, is_open, new_row, answer_of, inspect,
  insert_key, reserve_by, reserve, finish, persist, release,
}

abbrev pub is_done : ℕ → KeyRow → Bool
is_done k r = has_key k r && is_finished r

abbrev pub times : ℕ → List ℕ → ℕ
times k = count (λ i. i == k)

-- Of one key: at most one row, as the primary key has it; as many open rows as handlers that run, at
-- least, and as many finished ones as answers.
pub record Balanced (j : ℕ) (rows : List KeyRow) (running answered : List ℕ) : Type 0 where
  pub unique : count (has_key j) rows ≤ 1
  pub opened : times j running ≤ count (is_open j) rows
  pub done : times j answered ≤ count (is_done j) rows

pub open_or_done :
    (j : ℕ) (rows : List KeyRow)
    → count (is_open j) rows + count (is_done j) rows ≡ count (has_key j) rows
open_or_done j rows = count-split (has_key j) (is_open j) (is_done j) (λ r. ground arith) rows

pub times-remove :
    (j k : ℕ) (before after : List ℕ)
    → times j (before ++ k ∷ after) ≡ times j (k ∷ []) + times j (before ++ after)
times-remove j k before after =
    let whole = count-append (λ i. i == j) before (k ∷ after) in
    let rest = count-append (λ i. i == j) before after in omega (arith, whole, rest)

inspect-reserved :
    (user hash : ℕ) (o : Option KeyRow) → inspect user hash o ≢ ReserveResult.reserved
unfolding inspect
inspect-reserved user hash none h = cc h
inspect-reserved user hash (some r) h =
    elim (Bool-cases (not (r.user_id == user) || not (r.request_hash == hash))) [
      | inl other ↦ cc (rw other at h)
      | inr own ↦ answered_not (r.response) (rw own at h)
    ]
  where
    answered_not : (o : Option Response) → answer_of o ≢ ReserveResult.reserved
    answered_not none e = cc e
    answered_not (some x) e = cc e

-- A key that is reserved had no row, and has an open one.
pub reserve-reserved :
    (now k user : ℕ) (operation : String) (hash : ℕ) (rows : List KeyRow)
    → (reserve now k user operation hash rows).1 ≡ ReserveResult.reserved
    → (any (has_key k) rows ≡ false)
      × ((reserve now k user operation hash rows).0
          ≡ rows ++ new_row now k user operation hash ∷ [])
unfolding reserve insert_key new_row reserve_by
reserve-reserved now k user operation hash rows h = elim (Bool-cases (any (has_key k) rows)) [
  | inl taken ↦ absurd (inspect-reserved user hash (take_first (has_key k) rows) (rw taken at h))
  | inr free ↦ (free, rw free refl)
]

pub reserve-refused :
    (now k user : ℕ) (operation : String) (hash : ℕ) (rows : List KeyRow)
    → (reserve now k user operation hash rows).1 ≢ ReserveResult.reserved
    → (reserve now k user operation hash rows).0 ≡ rows
unfolding reserve insert_key new_row reserve_by
reserve-refused now k user operation hash rows h = elim (Bool-cases (any (has_key k) rows)) [
  | inl taken ↦ rw taken refl
  | inr free ↦ absurd (h (rw free refl))
]

module _ (j k : ℕ) (rows : List KeyRow) where
  pub begun-Balanced :
      (running answered : List ℕ) (r : KeyRow)
      → r.key ≡ k
      → is_finished r ≡ false
      → any (has_key k) rows ≡ false
      → Balanced j rows running answered
      → Balanced j (rows ++ r ∷ []) (k ∷ running) answered
  begun-Balanced running answered r own fresh free b =
      let keys = count-append (has_key j) rows (r ∷ []) in
      let opens = count-append (is_open j) rows (r ∷ []) in
      let dones = count-append (is_done j) rows (r ∷ []) in
      let one = b.unique in
      let ran = b.opened in
      let ended = b.done in
      elim (Bool-cases (k == j)) [
        | inl same ↦
            let own_j : (r.key == j) ≡ true = rw own same in
            let none_yet : count (has_key j) rows ≡ 0 =
              subst (λ i. count (has_key i) rows ≡ 0) ((==_iff k j).0 same)
                (count-none (has_key k) rows free) in
            record {
              unique = rw (keys, own_j) (omega (arith, none_yet));
              opened = rw (opens, own_j, fresh, same) (omega (arith, ran));
              done = rw (dones, own_j, fresh) (omega (arith, ended));
            }
        | inr apart ↦
            let own_j : (r.key == j) ≡ false = rw own apart in
            record {
              unique = rw (keys, own_j) (omega (arith, one));
              opened = rw (opens, own_j, apart) (omega (arith, ran));
              done = rw (dones, own_j) (omega (arith, ended));
            }
      ]

  -- The rows of another key are left as they are.
  other_open : (k == j) ≡ false → (r : KeyRow) → is_open k r ≡ true → has_key j r ≡ false
  other_open apart r h = ground (arith, apart, h)

  pub stored-Balanced :
      (before after answered : List ℕ) (x : Response)
      → Balanced j rows (before ++ k ∷ after) answered
      → Balanced j (persist k x rows) (before ++ after) (k ∷ answered)
  unfolding persist
  stored-Balanced before after answered x b =
      let keys = count-update_same (has_key j) (is_open k) (finish x) (λ r hit. refl) rows in
      let parts = open_or_done j rows in
      let parts_now = open_or_done j (update (is_open k) (finish x) rows) in
      let removed = times-remove j k before after in
      let one = b.unique in
      let ran = b.opened in
      let ended = b.done in
      elim (Bool-cases (k == j)) [
        | inl same ↦
            let closed : count (is_open j) (update (is_open k) (finish x) rows) ≡ 0 =
              subst (λ i. count (is_open i) (update (is_open k) (finish x) rows) ≡ 0)
                ((==_iff k j).0 same)
                (count-update_zero (is_open k) (finish x) (λ r hit. ground arith) rows) in
            let removed' : times j (before ++ k ∷ after) ≡ 1 + times j (before ++ after) =
              rw same at removed in
            record {
              unique = omega (arith, keys, one);
              opened = omega (arith, removed', ran, parts, one, closed);
              done =
                  rw same
                    (omega (arith, removed', ran, ended, parts, parts_now, keys, closed, one));
            }
        | inr apart ↦
            let opens =
              count-update_same (is_open j) (is_open k) (finish x)
                (λ r hit. let no_j = other_open apart r hit in ground (arith, no_j)) rows in
            let removed' : times j (before ++ k ∷ after) ≡ times j (before ++ after) =
              removed ∙ rw apart (omega arith) in
            record {
              unique = omega (arith, keys, one);
              opened = omega (arith, removed', ran, opens);
              done = rw apart (omega (arith, ended, parts, parts_now, keys, opens));
            }
      ]

  pub given_back-Balanced :
      (before after answered : List ℕ)
      → Balanced j rows (before ++ k ∷ after) answered
      → Balanced j (release k rows) (before ++ after) answered
  unfolding release
  given_back-Balanced before after answered b =
      let left = λ (r : KeyRow). not (is_open k r) in
      let keys = count-select_le (has_key j) left rows in
      let dones = count-select_same (is_done j) left (λ r out. ground (arith, out)) rows in
      let parts = open_or_done j rows in
      let removed = times-remove j k before after in
      let one = b.unique in
      let ran = b.opened in
      let ended = b.done in
      elim (Bool-cases (k == j)) [
        | inl same ↦
            let removed' : times j (before ++ k ∷ after) ≡ 1 + times j (before ++ after) =
              rw same at removed in
            record {
              unique = omega (arith, keys, one);
              opened = omega (arith, removed', ran, parts, one);
              done = omega (arith, dones, ended);
            }
        | inr apart ↦
            let opens =
              count-select_same (is_open j) left
                (λ r out.
                  let no_j = other_open apart r (ground (arith, out)) in ground (arith, no_j))
                rows in
            let removed' : times j (before ++ k ∷ after) ≡ times j (before ++ after) =
              removed ∙ rw apart (omega arith) in
            record {
              unique = omega (arith, keys, one);
              opened = omega (arith, removed', ran, opens);
              done = omega (arith, dones, ended);
            }
      ]
