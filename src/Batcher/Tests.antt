-- ===== src/Batcher/Tests.antt =====
-- A batcher of size 2 over a short run, and the theorems at it.
use tr_engine.Common.{ℕ, ◌≡◌, refl, true, false, [], ◌∷◌, none, some, arith}
use tr_engine.Batcher.Steps.{State, adds, Reach, here, next}
use tr_engine.Batcher.Invariant.{Inv, start, Reach-start-Inv}
use tr_engine.Batcher.{
  remove, new_batcher, flush_locked, start_timer, after_append, add, on_timer, flush, stop,
}

program : Unit {0}
unfolding remove new_batcher flush_locked start_timer after_append add on_timer flush stop
program = tt

-- One item waits, and the timer 0 is armed.
abbrev waiting : State ℕ
waiting = record {
  batcher = record {
    items = 5 ∷ [];
    max_size = 2;
    timer = some 0;
    stopped = false;
    next_timer = 1;
    armed = 0 ∷ [];
    fired = [];
    flushed = [];
    running = 0;
  };
  accepted = 5 ∷ [];
}

waits : Reach (start 2) waiting
unfolding program
waits = next here (adds 5 refl)

-- The second item fills the batch: it is flushed and the timer is stopped.
fills : add 6 waiting.batcher ≡ record waiting.batcher {
  items = [];
  timer = none;
  armed = [];
  flushed = (5 ∷ 6 ∷ []) ∷ [];
  running = 1;
}
unfolding program
fills = refl

Reach-start-Inv_example : Inv 2 waiting
Reach-start-Inv_example = Reach-start-Inv 2 (omega arith) waits

abbrev stopped : State ℕ
stopped = record waiting {
  batcher = record waiting.batcher {
    items = [];
    timer = none;
    armed = [];
    stopped = true;
    flushed = (5 ∷ []) ∷ [];
    running = 1;
  };
}

late_add : Reach (record waiting { batcher = stop waiting.batcher }) stopped
unfolding program
late_add = next here (adds 7 refl)
