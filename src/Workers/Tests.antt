-- ===== src/Workers/Tests.antt =====
-- A short life of a pool, a race of Enqueue with Stop, and the theorems at concrete runs.
use tr_engine.Common.{ℕ, ◌≡◌, ◌↔◌, refl, Bool, Option, true, none, some, [], ◌∷◌, bytes, last_n}
use tr_engine.Workers.{
  Job, WorkerPool, CompletionRecord, perf_ring_size, new_perf_ring, push, snapshot, new_worker_pool,
  enqueue_check, enqueue_send, stop_close,
}
use tr_engine.Workers.Performance.{push_all, push_all-snapshot}
use tr_engine.Workers.Pool.{
  pool_of, Step, Reach, checks, sends, stores, closes, here, next, Inv, Reach-new_worker_pool-Inv,
}
use tr_engine.Workers.Calm.{CalmClose, Closes, calm_no_panic}

program : Unit {0}
unfolding push snapshot push_all enqueue_check enqueue_send stop_close
program = tt

abbrev job : ℕ → Job
job n = record {
  call_id = n;
  call_start_time = 0;
  system_id = 1;
  tgid = 100;
  duration = 5;
  audio_file_path = bytes "a.wav";
  call_filename = [];
  src_list = [];
  tg_alpha_tag = [];
  tg_description = [];
  tg_tag = [];
  tg_group = [];
}

abbrev two : WorkerPool
two = new_worker_pool 2

abbrev checked : WorkerPool
checked = record two { checked = job 1 ∷ [] }

abbrev queued : WorkerPool
queued = record two { jobs = job 1 ∷ []; accepted = job 1 ∷ [] }

enqueues : pool_of (enqueue_send (job 1) [] checked) ≡ some queued
unfolding program
enqueues = refl

-- Enqueue reads `stopped`, then Stop stores it and closes the channel, then Enqueue sends.
race_panics :
    pool_of (enqueue_send (job 1) [] (record checked { stopped = true; closed = true })) ≡ none
unfolding program
race_panics = refl

stops_twice : stop_close (record two { stopped = true; closed = true }) ≡ none
unfolding program
stops_twice = refl

-- Any Stop may close.
abbrev Anyhow : WorkerPool → Type 0
Anyhow p = Unit {0}

reaches_queued : (MayClose : WorkerPool → Type 0) → Reach MayClose two queued
unfolding program
reaches_queued MayClose = next (next here (checks (job 1) refl)) (sends [] (job 1) [] refl refl)

-- The race as steps of the pool, so its panic is within reach.
race_is_reached : Reach Anyhow two (record checked { stopped = true; closed = true })
unfolding program
race_is_reached = next (next (next here (checks (job 1) refl)) (stores refl)) (closes refl tt refl)

Reach-new_worker_pool-Inv_example : Inv 2 queued
Reach-new_worker_pool-Inv_example = Reach-new_worker_pool-Inv Anyhow 2 (reaches_queued Anyhow)

-- A pool that a Stop has closed.
abbrev shut_pool : WorkerPool
shut_pool = record two { stopped = true; closed = true }

reaches_shut : Reach CalmClose two shut_pool
unfolding program
reaches_shut = next (next here (stores refl)) (closes refl refl refl)

abbrev second_stop : Step CalmClose shut_pool none
unfolding program
second_stop = closes refl refl refl

calm_no_panic_example :
    (◌≡◌ {A = Option WorkerPool} none none) ↔ (Closes second_stop × (◌≡◌ {A = Bool} true true))
calm_no_panic_example = calm_no_panic 2 shut_pool none reaches_shut second_stop

abbrev completion : ℕ → CompletionRecord
completion n = record { provider_ms = n; call_duration = 5; provider = bytes "whisper"; model = [] }

push_all-snapshot_example :
    snapshot (push_all (completion 7 ∷ completion 8 ∷ []) new_perf_ring)
    ≡ last_n perf_ring_size (completion 7 ∷ completion 8 ∷ [])
push_all-snapshot_example = push_all-snapshot (completion 7 ∷ completion 8 ∷ [])
