-- ===== src/Workers.antt =====
-- The worker pool of internal/transcribe/worker.go: its queue with Enqueue, Stop and the loop of a
-- worker, and the ring of the last completions. The channel is the list of the jobs that wait; its
-- size is at least 1. What `processJob` does with a job is left open but for its error.
pub mod Performance
pub mod Pool
pub mod Calm
mod Tests
use tr_engine.Common.{
  ℕ, suc, ◌+◌, ◌%◌, Bool, true, false, Option, none, some, List, [], ◌∷◌, ◌++◌, Text, if◌then◌else◌,
  ltb, length, set, take, drop, replicate,
}

pub record Job : Type 0 where
  pub call_id : ℕ
  pub call_start_time : ℕ
  pub system_id : ℕ
  pub tgid : ℕ
  pub duration : ℕ
  pub audio_file_path : Text
  pub call_filename : Text
  pub src_list : Text
  pub tg_alpha_tag : Text
  pub tg_description : Text
  pub tg_tag : Text
  pub tg_group : Text

pub record CompletionRecord : Type 0 where
  pub provider_ms : ℕ
  pub call_duration : ℕ
  pub provider : Text
  pub model : Text

pub record PerfRing : Type 0 where
  pub buf : List CompletionRecord
  pub pos : ℕ
  pub count : ℕ

abbrev pub perf_ring_size : ℕ
perf_ring_size = 100

abbrev pub no_completion : CompletionRecord
no_completion = record { provider_ms = 0; call_duration = 0; provider = []; model = [] }

-- The ring as a pool begins with it.
abbrev pub new_perf_ring : PerfRing
new_perf_ring = record { buf = replicate perf_ring_size no_completion; pos = 0; count = 0 }

unfoldable pub push : CompletionRecord → PerfRing → PerfRing
push rec r = record {
  buf = set r.buf r.pos rec;
  pos = (r.pos + 1) % perf_ring_size;
  count = if ltb r.count perf_ring_size then r.count + 1 else r.count;
}

unfoldable pub snapshot : PerfRing → List CompletionRecord
snapshot r =
    if ltb r.count perf_ring_size then take r.count r.buf else drop r.pos r.buf ++ take r.pos r.buf

-- The state that the goroutines share. `checked` are the jobs of the Enqueue calls that have read
-- `stopped` as false and not sent yet; `accepted` are all jobs sent, `busy` the jobs that workers hold.
pub record WorkerPool : Type 0 where
  pub jobs : List Job
  pub size : ℕ
  pub stopped : Bool
  pub closed : Bool
  pub completed : ℕ
  pub failed : ℕ
  pub checked : List Job
  pub accepted : List Job
  pub taken : List Job
  pub busy : ℕ

abbrev pub new_worker_pool : ℕ → WorkerPool
new_worker_pool queue_size = record {
  jobs = [];
  size = queue_size;
  stopped = false;
  closed = false;
  completed = 0;
  failed = 0;
  checked = [];
  accepted = [];
  taken = [];
  busy = 0;
}

-- The first half of Enqueue. A call that finds the pool stopped returns false at once.
unfoldable pub enqueue_check : Job → WorkerPool → WorkerPool
enqueue_check j p = if p.stopped then p else record p { checked = p.checked ++ j ∷ [] }

-- The second half: a send on the closed channel panics, one on a full channel is not made. The flag
-- is what Enqueue returns.
unfoldable pub enqueue_send : Job → List Job → WorkerPool → Option (WorkerPool × Bool)
enqueue_send j others p =
    if p.closed
    then none
    else if ltb (length p.jobs) p.size
    then some (
      record p { checked = others; jobs = p.jobs ++ j ∷ []; accepted = p.accepted ++ j ∷ [] },
      true,
    )
    else some (record p { checked = others }, false)

-- The two halves of Stop before it waits. Closing a closed channel panics.
abbrev pub stop_store : WorkerPool → WorkerPool
stop_store p = record p { stopped = true }

unfoldable pub stop_close : WorkerPool → Option WorkerPool
stop_close p = if p.closed then none else some (record p { closed = true })

-- A worker takes the first job that waits, and counts it by the error of `processJob`.
abbrev pub take_job : Job → List Job → WorkerPool → WorkerPool
take_job j rest p = record p { jobs = rest; taken = p.taken ++ j ∷ []; busy = p.busy + 1 }

abbrev pub count_job : Bool → ℕ → WorkerPool → WorkerPool
count_job is_error others p =
    if is_error
    then record p { failed = p.failed + 1; busy = others }
    else record p { completed = p.completed + 1; busy = others }

pub record QueueStats : Type 0 where
  pub pending : ℕ
  pub completed : ℕ
  pub failed : ℕ

abbrev pub stats : WorkerPool → QueueStats
stats p = record { pending = length p.jobs; completed = p.completed; failed = p.failed }
