-- ===== src/ActiveCalls.antt =====
-- The map of calls in progress of internal/ingest/pipeline.go. Times are numbers in one unit, and
-- the order of the association list is the order in which a `range` visits the map.
pub mod Search
mod Tests
use tr_engine.Common.{
  ℕ, ◌+◌, ◌-◌, Bool, true, false, not, ◌&&◌, List, [], ◌∷◌, Option, none, some, ◌==◌,
  nat_comparable, text_comparable, Text, if◌then◌else◌, ltb, leb, length,
}
use tr_engine.Common.Map.{Map, lookup, insert, delete}

pub record Call : Type 0 where
  pub call_id : ℕ
  pub start_time : ℕ
  pub system_id : ℕ
  pub system_name : Text
  pub sysid : Text
  pub site_id : Option ℕ
  pub site_short_name : Text
  pub tgid : ℕ
  pub tg_alpha_tag : Text
  pub tg_description : Text
  pub tg_tag : Text
  pub tg_group : Text
  pub unit : ℕ
  pub unit_alpha_tag : Text
  pub freq : ℕ
  pub emergency : Bool
  pub encrypted : Bool
  pub analog : Bool
  pub conventional : Bool
  pub phase2_tdma : Bool
  pub audio_type : Text

abbrev pub no_call : Call
no_call = record {
  call_id = 0;
  start_time = 0;
  system_id = 0;
  system_name = [];
  sysid = [];
  site_id = none;
  site_short_name = [];
  tgid = 0;
  tg_alpha_tag = [];
  tg_description = [];
  tg_tag = [];
  tg_group = [];
  unit = 0;
  unit_alpha_tag = [];
  freq = 0;
  emergency = false;
  encrypted = false;
  analog = false;
  conventional = false;
  phase2_tdma = false;
  audio_type = [];
}

abbrev pub Calls : Type 0
Calls = Map Text Call

pub set_call : Text → Call → Calls → Calls
set_call id c m = insert id c m

pub get_call : Text → Calls → Option Call
get_call id m = lookup id m

pub delete_call : Text → Calls → Calls
delete_call id m = delete id m

-- The distance of two times, and whether the first is at or before the second.
abbrev pub abs_diff : ℕ → ℕ → ℕ
abs_diff a b = if leb a b then b - a else a - b

-- The four variables of the search.
pub record Best : Type 0 where
  pub key : Text
  pub call : Call
  pub diff : ℕ
  pub before_or_at : Bool

module _ (tgid start tolerance : ℕ) where
  pub initial : Best
  initial = record { key = []; call = no_call; diff = tolerance + 1; before_or_at = false }

  -- The test at the end of the loop's body.
  abbrev pub is_better : Call → Best → Bool
  is_better c best =
      if leb c.start_time start && not best.before_or_at
      then true
      else (if (if leb c.start_time start then best.before_or_at else not best.before_or_at)
          then ltb (abs_diff c.start_time start) best.diff
          else false)

  -- One round of the loop: a call on another talkgroup, or too far away, is passed over.
  pub consider : Best → Text → Call → Best
  consider best id c =
      if not (c.tgid == tgid)
      then best
      else if ltb tolerance (abs_diff c.start_time start)
      then best
      else if is_better c best
      then record {
        key = id;
        call = c;
        diff = abs_diff c.start_time start;
        before_or_at = leb c.start_time start;
      }
      else best

  pub search_from : Best → Calls → Best
  search_from best [] = best
  search_from best ((id, c) ∷ m) = search_from (consider best id c) m

  pub find_by_tgid_and_time : Calls → Text × Call × Bool
  find_by_tgid_and_time m =
      let best = search_from initial m in (best.key, best.call, leb best.diff tolerance)

pub find_by_freq : ℕ → Calls → Option Call
find_by_freq freq [] = none
find_by_freq freq ((_, c) ∷ m) = if c.freq == freq then some c else find_by_freq freq m

pub call_count : Calls → ℕ
call_count m = length m
