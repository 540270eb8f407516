-- ===== src/Backfill/Manager.antt =====
-- The queue of jobs: Submit, Status, Cancel and the steps of the loop, under the manager's mutex.
-- `cancelled` tells whether `cancelFn` was called for the active job; `cancelFn` is set exactly
-- while a job is active. An id that is not positive is 0 here. The answers of the database's count
-- and of the clock are arguments.
use tr_engine.Common.{
  ℕ, ◌+◌, Bool, true, false, ◌||◌, Option, none, some, List, [], ◌∷◌, ◌++◌, map, if◌then◌else◌,
  ◌==◌, nat_comparable, length, is_some,
}
use tr_engine.Backfill.{Filters, Job, record_result}

pub record Manager : Type 0 where
  pub next_id : ℕ
  pub queue : List Job
  pub active : Option Job
  pub cancelled : Bool

abbrev pub new_backfill_manager : Manager
new_backfill_manager = record { next_id = 0; queue = []; active = none; cancelled = false }

pub record Submitted : Type 0 where
  pub job_id : ℕ
  pub position : ℕ
  pub total : ℕ

-- The part of Submit under the mutex; `none` is an error of the count.
abbrev pub new_job : Manager → Filters → ℕ → ℕ → Job
new_job m filters total now = record {
  id = m.next_id + 1;
  filters = filters;
  total = total;
  completed = 0;
  failed = 0;
  started_at = 0;
  created_at = now;
}

unfoldable pub submit : Filters → Option ℕ → ℕ → Manager → Manager × Option Submitted
submit filters none now m = (m, none)
submit filters (some total) now m =
    let job = new_job m filters total now in
    (
      record m { next_id = m.next_id + 1; queue = m.queue ++ job ∷ [] },
      some (record {
        job_id = job.id;
        position = if is_some m.active then length m.queue + 1 else length m.queue;
        total = total;
      }),
    )

pub record JobStatus : Type 0 where
  pub job_id : ℕ
  pub filters : Filters
  pub total : ℕ
  pub completed : ℕ
  pub failed : ℕ
  pub started_at : Option ℕ
  pub created_at : ℕ

pub record Status : Type 0 where
  pub active : Option JobStatus
  pub queued : List JobStatus

abbrev pub active_status : Option Job → Option JobStatus
active_status none = none
active_status (some j) = some (record {
  job_id = j.id;
  filters = j.filters;
  total = j.total;
  completed = j.completed;
  failed = j.failed;
  started_at = some j.started_at;
  created_at = j.created_at;
})

abbrev pub queued_status : Job → JobStatus
queued_status j = record {
  job_id = j.id;
  filters = j.filters;
  total = j.total;
  completed = 0;
  failed = 0;
  started_at = none;
  created_at = j.created_at;
}

unfoldable pub get_status : Manager → Status
get_status m = record { active = active_status m.active; queued = map queued_status m.queue }

-- The queue without its first job of an id, if there is one.
abbrev pub onto : Job → Option (List Job) → Option (List Job)
onto j none = none
onto j (some q) = some (j ∷ q)

unfoldable pub without_job : ℕ → List Job → Option (List Job)
without_job id [] = none
without_job id (j ∷ q) = if j.id == id then some q else onto j (without_job id q)

abbrev pub from_queue : Manager → Option (List Job) → Manager × Bool
from_queue m none = (m, false)
from_queue m (some q) = (record m { queue = q }, true)

abbrev pub is_active_id : Option Job → ℕ → Bool
is_active_id none id = false
is_active_id (some j) id = j.id == id

abbrev pub is_busy : List Job → Bool
is_busy [] = false
is_busy (j ∷ q) = true

unfoldable pub cancel : ℕ → Manager → Manager × Bool
cancel id m =
    if id == 0
    then (
      record m { queue = []; cancelled = if is_some m.active then true else m.cancelled },
      is_some m.active || is_busy m.queue,
    )
    else if is_active_id m.active id
    then (record m { cancelled = true }, true)
    else from_queue m (without_job id m.queue)

-- The loop takes the next job; `none` if there is no job.
abbrev pub start_job : ℕ → Job → Job
start_job now j = record j { started_at = now }

abbrev pub take_from : ℕ → List Job → Manager → Option Manager
take_from now [] m = none
take_from now (j ∷ q) m =
    some (record m { queue = q; active = some (start_job now j); cancelled = false })

unfoldable pub take_next : ℕ → Manager → Option Manager
take_next now m = take_from now m.queue m

-- The job is done.
unfoldable pub finish_job : Manager → Manager
finish_job m = record m { active = none; cancelled = false }

-- processJob counts a call of the active job, through the pointer that Status reads too.
abbrev pub count_active : Bool → Option Job → Option Job
count_active enqueued none = none
count_active enqueued (some j) = some (record_result j enqueued)

unfoldable pub count_call : Bool → Manager → Manager
count_call enqueued m = record m { active = count_active enqueued m.active }
