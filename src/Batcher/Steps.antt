-- ===== src/Batcher/Steps.antt =====
-- The batcher beside its timers and its flush goroutines, as a step relation.
use tr_engine.Common.{ℕ, ◌+◌, ◌≡◌, ◌⊎◌, List, [], ◌∷◌, ◌++◌, if◌then◌else◌}
use tr_engine.Batcher.{Batcher, remove, add, on_timer, flush, stop}

abbrev pub In : ℕ → List ℕ → Type 0
In t [] = ⊥
In t (u ∷ us) = (u ≡ t) ⊎ In t us

-- A batcher with the record of the items that `Add` has accepted.
pub record State {ℓ} (A : Type ℓ) : Type ℓ where
  pub batcher : Batcher A
  pub accepted : List A

pub data Step {ℓ} {A : Type ℓ} (s : State A) (u : State A) : Type ℓ where
  adds :
      (item : A)
      → u ≡ record {
        batcher = add item s.batcher;
        accepted = if s.batcher.stopped then s.accepted else s.accepted ++ item ∷ [];
      }
      → Step s u
  flushes : u ≡ record s { batcher = flush s.batcher } → Step s u
  stops : u ≡ record s { batcher = stop s.batcher } → Step s u
  expires :
      (t : ℕ)
      → In t s.batcher.armed
      → u ≡ record s {
        batcher = record s.batcher {
          armed = remove t s.batcher.armed;
          fired = t ∷ s.batcher.fired;
        };
      }
      → Step s u
  calls_back :
      (t : ℕ)
      → In t s.batcher.fired
      → u ≡ record s { batcher = on_timer (record s.batcher { fired = remove t s.batcher.fired }) }
      → Step s u
  finishes :
      (n : ℕ)
      → s.batcher.running ≡ n + 1
      → u ≡ record s { batcher = record s.batcher { running = n } }
      → Step s u

pub data Reach {ℓ} {A : Type ℓ} (s : State A) : State A → Type ℓ where
  here : Reach s s
  next : {t u : State A} → Reach s t → Step t u → Reach s u
