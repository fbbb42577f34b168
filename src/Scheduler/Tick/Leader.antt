-- ===== src/Scheduler/Tick/Leader.antt =====
-- Several scheduler instances on one database (apps/scheduler/src/index.ts, `tick`): how the steps of
-- their ticks interleave, with processes that die and connections that are lost. What the stages do
-- is Scheduler/Tick's; here a stage is only begun and done.
use ikg_studio_model_trainin.Common.{
  ℕ, ◌≡◌, ◌≢◌, refl, ap, sym, ◌∙◌, Bool, true, false, ◌||◌, List, [], ◌∷◌, Option, none, some, ◌==◌,
  ==_iff, ==_refl, if◌then◌else◌, Bool-cases, ◌⊎◌, inl, inr, eq_of_some,
}
use ikg_studio_model_trainin.Scheduler.Tick.{Stage, stages}

-- Where an instance is in its tick: `isRunning` is up in all phases but the first. The stages that
-- are left run on the pool, so that they go on when the connection of the lock is lost.
pub data Phase : Type 0 where
  idle : Phase
  asking : Phase
  working : List Stage → Phase
  adrift : List Stage → Phase
  leaving : Phase

abbrev pub is_running : Phase → Bool
is_running Phase.idle = false
is_running _ = true

abbrev pub is_connected : Phase → Bool
is_connected (Phase.working left) = true
is_connected _ = false

abbrev pub is_adrift : Phase → Bool
is_adrift (Phase.adrift left) = true
is_adrift _ = false

-- Within `runStages`.
abbrev pub in_stages : Phase → Bool
in_stages p = is_connected p || is_adrift p

-- The instance whose database session holds the advisory lock, and each instance's phase.
pub record Cluster : Type 0 where
  pub holder : Option ℕ
  pub phase : ℕ → Phase

abbrev pub put : ℕ → Phase → (ℕ → Phase) → ℕ → Phase
put n p f m = if n == m then p else f m

abbrev pub moved : ℕ → Phase → Cluster → Cluster
moved n p w = record w { phase = put n p w.phase }

-- PostgreSQL grants the lock when no session has it, and to the session that has it already, such as
-- a connection that the pool has kept. Sessions are told apart by their instances only, so that more
-- is allowed here than there: an instance may be granted what an old session of its own holds.
abbrev pub is_free_for : ℕ → Option ℕ → Bool
is_free_for n none = true
is_free_for n (some m) = n == m

pub data Step : Cluster → Cluster → Type 0 where
  -- `isRunning` is up: the tick returns.
  busy : (n : ℕ) (w : Cluster) → is_running (w.phase n) ≡ true → Step w w
  -- `isRunning` goes up, before the lock is asked for.
  starts : (n : ℕ) (w : Cluster) → is_running (w.phase n) ≡ false → Step w (moved n Phase.asking w)
  granted :
      (n : ℕ) (w : Cluster)
      → w.phase n ≡ Phase.asking
      → is_free_for n w.holder ≡ true
      → Step w (record (moved n (Phase.working stages) w) { holder = some n })
  refused :
      (n m : ℕ) (w : Cluster)
      → w.phase n ≡ Phase.asking
      → w.holder ≡ some m
      → Step w (moved n Phase.leaving w)
  -- The query throws; the lock may have been granted all the same.
  throws : (n : ℕ) (w : Cluster) → w.phase n ≡ Phase.asking → Step w (moved n Phase.leaving w)
  unheard :
      (n : ℕ) (w : Cluster)
      → w.phase n ≡ Phase.asking
      → w.holder ≡ none
      → Step w (record (moved n Phase.leaving w) { holder = some n })
  -- The next stage is run, with the lock's connection or without it.
  runs :
      (n : ℕ) (w : Cluster) (s : Stage) (left : List Stage)
      → w.phase n ≡ Phase.working (s ∷ left)
      → Step w (moved n (Phase.working left) w)
  runs_adrift :
      (n : ℕ) (w : Cluster) (s : Stage) (left : List Stage)
      → w.phase n ≡ Phase.adrift (s ∷ left)
      → Step w (moved n (Phase.adrift left) w)
  -- The connection is lost; the server may notice later.
  severed :
      (n : ℕ) (w : Cluster) (left : List Stage)
      → w.phase n ≡ Phase.working left
      → Step w (moved n (Phase.adrift left) w)
  -- The inner `finally`: the lock is given back, or the query throws.
  unlocks :
      (n : ℕ) (w : Cluster)
      → w.phase n ≡ Phase.working []
      → Step w (record (moved n Phase.leaving w) { holder = none })
  keeps : (n : ℕ) (w : Cluster) → w.phase n ≡ Phase.adrift [] → Step w (moved n Phase.leaving w)
  -- The outer `finally`.
  lowers : (n : ℕ) (w : Cluster) → w.phase n ≡ Phase.leaving → Step w (moved n Phase.idle w)
  -- The process dies, and a new one takes its number.
  dies : (n : ℕ) (w : Cluster) → Step w (moved n Phase.idle w)
  -- The server ends a session, whose instance has lost or left the connection.
  session_ends :
      (n : ℕ) (w : Cluster)
      → w.holder ≡ some n
      → is_connected (w.phase n) ≡ false
      → Step w (record w { holder = none })

pub data Reaches (start : Cluster) : Cluster → Type 0 where
  here : Reaches start start
  step : {mid after : Cluster} → Reaches start mid → Step mid after → Reaches start after

-- Nobody holds the lock and no tick is under way.
abbrev pub at_rest : Cluster
at_rest = record { holder = none; phase = λ n. Phase.idle }

-- An instance in its stages with the connection of its lock holds the lock.
abbrev Orderly : Cluster → Type 0
Orderly w = (n : ℕ) → is_connected (w.phase n) ≡ true → w.holder ≡ some n

-- A move to a phase that is not connected.
apart-Orderly :
    (w : Cluster) (n : ℕ) (p : Phase) → Orderly w → is_connected p ≡ false → Orderly (moved n p w)
apart-Orderly w n p only out m up = elim (Bool-cases (n == m)) [
  | inl same ↦ absurd (cc (rw same at up, out))
  | inr other ↦ only m (rw other at up)
]

-- So does one to a connected phase, of the holder.
held-Orderly :
    (w : Cluster) (n : ℕ) (p : Phase) → Orderly w → w.holder ≡ some n → Orderly (moved n p w)
held-Orderly w n p only held m up = elim (Bool-cases (n == m)) [
  | inl same ↦ held ∙ ap some ((==_iff n m).0 same)
  | inr other ↦ only m (rw other at up)
]

-- A new holder, where no other instance held the lock.
taken-Orderly :
    (w : Cluster) (n : ℕ) (p : Phase)
    → Orderly w
    → is_free_for n w.holder ≡ true
    → Orderly (record (moved n p w) { holder = some n })
taken-Orderly w n p only free m up = elim (Bool-cases (n == m)) [
  | inl same ↦ ap some ((==_iff n m).0 same)
  | inr other ↦
      let held = only m (rw other at up) in
      absurd (cc (other, ap (is_free_for n) (sym held) ∙ free))
]

-- The lock is given up, by a holder that is no longer connected.
freed-Orderly :
    (w : Cluster) (n : ℕ)
    → Orderly w
    → w.holder ≡ some n
    → is_connected (w.phase n) ≡ false
    → Orderly (record w { holder = none })
freed-Orderly w n only held out m up =
    let equal : n ≡ m = eq_of_some (sym held ∙ only m up) in
    absurd (cc (ap (λ k. is_connected (w.phase k)) equal, out, up))

step-Orderly : (v w : Cluster) → Orderly v → Step v w → Orderly w
step-Orderly v _ o (Step.busy n _ up) = o
step-Orderly v _ o (Step.starts n _ down) = apart-Orderly v n Phase.asking o refl
step-Orderly v _ o (Step.granted n _ asked free) = taken-Orderly v n (Phase.working stages) o free
step-Orderly v _ o (Step.refused n m _ asked held) = apart-Orderly v n Phase.leaving o refl
step-Orderly v _ o (Step.throws n _ asked) = apart-Orderly v n Phase.leaving o refl
step-Orderly v _ o (Step.unheard n _ asked free) =
    taken-Orderly v n Phase.leaving o (ap (is_free_for n) free)
step-Orderly v _ o (Step.runs n _ s left at) =
    held-Orderly v n (Phase.working left) o (o n (ap is_connected at))
step-Orderly v _ o (Step.runs_adrift n _ s left at) = apart-Orderly v n (Phase.adrift left) o refl
step-Orderly v _ o (Step.severed n _ left at) = apart-Orderly v n (Phase.adrift left) o refl
step-Orderly v _ o (Step.unlocks n _ at) =
    freed-Orderly (moved n Phase.leaving v) n (apart-Orderly v n Phase.leaving o refl)
      (o n (ap is_connected at)) (rw (==_refl n) refl)
step-Orderly v _ o (Step.keeps n _ at) = apart-Orderly v n Phase.leaving o refl
step-Orderly v _ o (Step.lowers n _ at) = apart-Orderly v n Phase.idle o refl
step-Orderly v _ o (Step.dies n _) = apart-Orderly v n Phase.idle o refl
step-Orderly v _ o (Step.session_ends n _ held out) = freed-Orderly v n o held out

reaches-Orderly : {w : Cluster} → Reaches at_rest w → Orderly w
reaches-Orderly Reaches.here = λ n up. absurd (cc up)
reaches-Orderly (Reaches.step {mid} {after} before s) =
    step-Orderly mid after (reaches-Orderly before) s

-- However the ticks of any number of instances interleave, with processes that die and connections
-- that are lost, of two instances that are within `runStages` at the same time one has lost the
-- connection of its lock.
pub stages_exclusive :
    {w : Cluster} (m n : ℕ)
    → Reaches at_rest w
    → in_stages (w.phase m) ≡ true
    → in_stages (w.phase n) ≡ true
    → m ≢ n
    → (is_adrift (w.phase m) ≡ true) ⊎ (is_adrift (w.phase n) ≡ true)
stages_exclusive {w} m n reached in_m in_n apart = elim (Bool-cases (is_connected (w.phase m))) [
  | inr lost ↦ inl (rw lost at in_m)
  | inl holds ↦ elim (Bool-cases (is_connected (w.phase n))) [
    | inr lost ↦ inr (rw lost at in_n)
    | inl holds_too ↦
        let o = reaches-Orderly reached in
        absurd (apart (eq_of_some (sym (o m holds) ∙ o n holds_too)))
  ]
]
