-- ===== src/Backfill/Tests.antt =====
-- A walk over three calls, and a short run of the manager.
use tr_engine.Common.{
  ℕ, suc, true, false, Option, none, some, List, [], ◌∷◌, bytes, ◌≡◌, refl, ◌==◌, nat_comparable,
}
use tr_engine.Backfill.{
  CallKey, before, Filters, DbFilter, Job, record_result, backfill_should_skip_for_provider,
}
use tr_engine.Backfill.Walk.{World, Walk, enqueue_call, walk_page, walk, process_job}
use tr_engine.Backfill.Once.{Inv}
use tr_engine.Backfill.Ends.{process_job-Inv}
use tr_engine.Backfill.Manager.{Manager, submit, cancel, take_next}
use tr_engine.Backfill.Loop.{Loop, start, submits, takes, here, next, running, looking}
use tr_engine.Backfill.Queue
use tr_engine.Backfill.Awake.{Reach-start-awake}

program : Unit {0}
unfolding before record_result backfill_should_skip_for_provider enqueue_call walk_page walk
    process_job submit cancel take_next
program = tt

abbrev no_filters : Filters
no_filters = record { system_id = none; tgids = []; start_time = none; end_time = none }

abbrev no_filter : DbFilter
no_filter = record { filters = no_filters; min_duration = 0; max_duration = 0 }

abbrev key : ℕ → ℕ → CallKey
key call_id start_time = record { call_id = call_id; start_time = start_time }

-- The database answers the first query with four keys, the third of them out of order. The world
-- counts the queries.
abbrev four_keys : World ℕ
four_keys = record {
  count_untranscribed_calls = λ f w. (some 1, w);
  list_untranscribed_calls =
      λ f c n w. (some (key 5 90 ∷ key 4 90 ∷ key 4 90 ∷ key 1 10 ∷ []), suc w);
  get_call_for_transcription =
      λ id w. (some (record { call_id = id; audio_file_path = bytes "a/b.DVCF" }), w);
  enqueue = λ c w. (c.call_id == 5, w);
  provider_name = bytes "IMBE";
  cancelled = λ w. (false, w);
  wait = λ w. w;
}

abbrev job : Job
job = record {
  id = 1;
  filters = no_filters;
  total = 9;
  completed = 0;
  failed = 0;
  started_at = 0;
  created_at = 0;
}

abbrev counted : Option (Walk ℕ) → List ℕ
counted none = []
counted (some s) = s.job.completed ∷ s.job.failed ∷ s.job.total ∷ s.world ∷ []

stops_at_old_key : counted (process_job four_keys no_filter 3 job 0) ≡ 1 ∷ 1 ∷ 2 ∷ 1 ∷ []
unfolding program
stops_at_old_key = refl

process_job-Inv_example :
    (fuel : ℕ) × (r : Walk ℕ) × (process_job four_keys no_filter fuel job 0 ≡ some r) × Inv r
process_job-Inv_example = process_job-Inv four_keys no_filter job 0 refl refl

wav_is_skipped : backfill_should_skip_for_provider (bytes "imbe") (bytes "x.dvcf/y.wav") ≡ true
unfolding program
wav_is_skipped = refl

abbrev submitted : Loop
submitted = record {
  manager = (submit no_filters (some 3) 7 start.manager).0;
  phase = looking;
  signal = false;
  signalling = 1;
}

abbrev taken_job : Job
taken_job = record {
  id = 1;
  filters = no_filters;
  total = 3;
  completed = 0;
  failed = 0;
  started_at = 8;
  created_at = 7;
}

abbrev taken : Manager
taken = record { next_id = 1; queue = []; active = some taken_job; cancelled = false }

takes_it : take_next 8 submitted.manager ≡ some taken
unfolding program
takes_it = refl

Reach-start-awake_example :
    Queue.Inv (record { manager = taken; phase = running; signal = false; signalling = 1 })
Reach-start-awake_example =
    Reach-start-awake
      (next (next here (submits start no_filters 3 7)) (takes submitted 8 taken refl takes_it))
