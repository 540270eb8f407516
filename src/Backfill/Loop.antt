-- ===== src/Backfill/Loop.antt =====
-- The loop and its callers as steps. Submit signals the loop after it left the mutex, so other
-- steps may come between; `signal` is the channel's one slot, `signalling` counts the callers that
-- have not signalled yet.
use tr_engine.Common.{ℕ, suc, ◌+◌, Bool, true, false, none, some, ◌≡◌, nat_comparable}
use tr_engine.Backfill.{Filters}
use tr_engine.Backfill.Manager.{
  Manager, new_backfill_manager, submit, cancel, take_next, finish_job, count_call,
}

-- Where the loop stands: before it looks at the queue, in the select, or in processJob.
pub data Phase : Type 0 where
  looking : Phase
  waiting : Phase
  running : Phase

pub record Loop : Type 0 where
  pub manager : Manager
  pub phase : Phase
  pub signal : Bool
  pub signalling : ℕ

abbrev pub start : Loop
start = record { manager = new_backfill_manager; phase = looking; signal = false; signalling = 0 }

pub data Step : Loop → Loop → Type 0 where
  submits :
      (s : Loop) (filters : Filters) (total now : ℕ)
      → Step s (record s {
        manager = (submit filters (some total) now s.manager).0;
        signalling = s.signalling + 1;
      })
  signals :
      (s : Loop) (n : ℕ)
      → s.signalling ≡ suc n
      → Step s (record s { signal = true; signalling = n })
  cancels : (s : Loop) (id : ℕ) → Step s (record s { manager = (cancel id s.manager).0 })
  sleeps :
      (s : Loop) (now : ℕ)
      → s.phase ≡ looking
      → take_next now s.manager ≡ none
      → Step s (record s { phase = waiting })
  wakes :
      (s : Loop)
      → s.phase ≡ waiting
      → s.signal ≡ true
      → Step s (record s { phase = looking; signal = false })
  takes :
      (s : Loop) (now : ℕ) (m : Manager)
      → s.phase ≡ looking
      → take_next now s.manager ≡ some m
      → Step s (record s { manager = m; phase = running })
  counts :
      (s : Loop) (enqueued : Bool)
      → s.phase ≡ running
      → Step s (record s { manager = count_call enqueued s.manager })
  finishes :
      (s : Loop)
      → s.phase ≡ running
      → Step s (record s { manager = finish_job s.manager; phase = looking })

pub data Reach (s : Loop) : Loop → Type 0 where
  here : Reach s s
  next : {t u : Loop} → Reach s t → Step t u → Reach s u
