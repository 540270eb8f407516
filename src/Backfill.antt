-- ===== src/Backfill.antt =====
-- internal/ingest/backfill.go, with the order of calls of internal/database/queries_calls.go. Times
-- are natural numbers. The duration limits are kept as numbers that nothing computes with.
pub mod Manager
pub mod Walk
pub mod Order
pub mod Ends
pub mod Once
pub mod Loop
pub mod Queue
pub mod Awake
mod Tests
use tr_engine.Common.{
  ℕ, ◌+◌, Bool, true, false, ◌&&◌, not, Option, none, some, List, [], ◌∷◌, ◌++◌, map, Text, bytes,
  if◌then◌else◌, ltb, leb, ◌==◌, nat_comparable, text_comparable,
}

pub record CallKey : Type 0 where
  pub call_id : ℕ
  pub start_time : ℕ

-- Newest first.
unfoldable pub before : CallKey → CallKey → Bool
before k other =
    if not (k.start_time == other.start_time)
    then ltb other.start_time k.start_time
    else ltb other.call_id k.call_id

pub record Filters : Type 0 where
  pub system_id : Option ℕ
  pub tgids : List ℕ
  pub start_time : Option ℕ
  pub end_time : Option ℕ

pub record DbFilter : Type 0 where
  pub filters : Filters
  pub min_duration : ℕ
  pub max_duration : ℕ

pub record Job : Type 0 where
  pub id : ℕ
  pub filters : Filters
  pub total : ℕ
  pub completed : ℕ
  pub failed : ℕ
  pub started_at : ℕ
  pub created_at : ℕ

-- `Total` is raised where the count of calls handed out passes it.
unfoldable pub record_result : Job → Bool → Job
record_result job enqueued =
    let completed = if enqueued then job.completed + 1 else job.completed in
    let failed = if enqueued then job.failed else job.failed + 1 in
    let done = completed + failed in
    record job {
      completed = completed;
      failed = failed;
      total = if ltb job.total done then done else job.total;
    }

-- `filepath.Ext`: from the last dot of the last path element on.
abbrev pub ext_or : ℕ → Text → Option Text → Option Text
ext_or c s (some e) = some e
ext_or c s none = if c == b'.' then some (c ∷ s) else none

abbrev pub has_slash : Text → Bool
has_slash [] = false
has_slash (c ∷ s) = if c == b'/' then true else has_slash s

unfoldable pub last_ext : Text → Option Text
last_ext [] = none
last_ext (c ∷ s) = if has_slash (c ∷ s) then last_ext s else ext_or c s (last_ext s)

abbrev pub or_empty : Option Text → Text
or_empty none = []
or_empty (some s) = s

-- `strings.EqualFold` with an ASCII text that has no letter K or S.
abbrev pub fold : ℕ → ℕ
fold c = if leb b'A' c && leb c b'Z' then c + 32 else c

unfoldable pub equal_fold : Text → Text → Bool
equal_fold s t = map fold s == map fold t

unfoldable pub backfill_should_skip_for_provider : Text → Text → Bool
unfolding equal_fold last_ext
backfill_should_skip_for_provider provider_name audio_file_path =
    equal_fold provider_name (bytes "imbe")
    && not (equal_fold (or_empty (last_ext audio_file_path)) (bytes ".dvcf"))
