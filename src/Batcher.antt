-- ===== src/Batcher.antt =====
-- internal/ingest/batcher.go: items collected under a mutex and flushed by size, by time or on
-- demand. Each method holds the mutex throughout, so it is one step; the flushes run in their own
-- goroutines, and the timers' callbacks wait for the mutex, so both end in steps of their own.
pub mod Steps
pub mod Invariant
pub mod Progress
mod Tests
use tr_engine.Common.{
  ℕ, suc, ◌+◌, ◌-◌, Bool, true, false, not, ◌&&◌, List, [], ◌∷◌, ◌++◌, Option, none, some, ◌==◌,
  nat_comparable, if◌then◌else◌, ltb, leb, length,
}

-- `armed` holds the timers that may still expire, `fired` those whose callback waits for the
-- mutex; a timer is a number. `flushed` holds the batches handed to `flushFn`, in the order in
-- which their goroutines were started, and `running` counts those in `wg`.
pub record Batcher {ℓ} (A : Type ℓ) : Type ℓ where
  pub items : List A
  pub max_size : ℕ
  pub timer : Option ℕ
  pub stopped : Bool
  pub next_timer : ℕ
  pub armed : List ℕ
  pub fired : List ℕ
  pub flushed : List (List A)
  pub running : ℕ

pub remove : ℕ → List ℕ → List ℕ
remove t [] = []
remove t (u ∷ us) = if u == t then remove t us else u ∷ remove t us

-- `timer.Stop()`: a timer that has expired already is not called back.
abbrev pub disarm : Option ℕ → List ℕ → List ℕ
disarm none armed = armed
disarm (some t) armed = remove t armed

module _ {ℓ} {A : Type ℓ} where
  pub new_batcher : ℕ → Batcher A
  new_batcher max_size = record {
    items = [];
    max_size = max_size;
    timer = none;
    stopped = false;
    next_timer = 0;
    armed = [];
    fired = [];
    flushed = [];
    running = 0;
  }

  pub flush_locked : Batcher A → Batcher A
  flush_locked b = record b {
    timer = none;
    armed = disarm b.timer b.armed;
    items = [];
    flushed = b.flushed ++ b.items ∷ [];
    running = b.running + 1;
  }

  -- `time.AfterFunc`
  pub start_timer : Batcher A → Batcher A
  start_timer b = record b {
    timer = some b.next_timer;
    armed = b.next_timer ∷ b.armed;
    next_timer = b.next_timer + 1;
  }

  -- `Add` once the item is appended: flush a full batch, or start the timer on the first item.
  pub after_append : Batcher A → Batcher A
  after_append b =
      if leb b.max_size (length b.items)
      then flush_locked b
      else if length b.items == 1
      then start_timer b
      else b

  pub add : A → Batcher A → Batcher A
  add item b = if b.stopped then b else after_append (record b { items = b.items ++ item ∷ [] })

  -- The body of the timer's callback.
  pub on_timer : Batcher A → Batcher A
  on_timer b = if not b.stopped && ltb 0 (length b.items) then flush_locked b else b

  pub flush : Batcher A → Batcher A
  flush b = if ltb 0 (length b.items) then flush_locked b else b

  -- `Stop` up to the unlock; it returns once `running` is 0.
  pub stop : Batcher A → Batcher A
  stop b = flush (record b { stopped = true; armed = disarm b.timer b.armed })
