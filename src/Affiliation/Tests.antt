-- ===== src/Affiliation/Tests.antt =====
-- One unit's day, and the theorems at it.
use tr_engine.Common.{
  subst, sym, ℕ, ◌≡◌, refl, [], ◌∷◌, none, some, nat_comparable, pair_comparable, List,
}
use tr_engine.Common.Map.{lookup-Absent, lookup, insert, modify}
use tr_engine.Affiliation.Tracking.{
  SlotIsValid, IsConsistent, Input, event, sweep, run, run-IsConsistent,
}
use tr_engine.Affiliation.{
  Affiliations, update, mark_off, update_activity, get, evict_stale, EventType, join, off_event,
  call, UnitEvent, new_entry, changed_from, handle_join, handle_traffic, handle_unit_event, off,
}

program : Unit {0}
unfolding update mark_off update_activity get evict_stale changed_from handle_join handle_traffic
    handle_unit_event lookup insert modify
program = tt

abbrev event_of : EventType → ℕ → ℕ → UnitEvent
event_of k tg t = record {
  event_type = k;
  system_id = 1;
  system_name = [];
  sysid = [];
  unit = 77;
  unit_tag = [];
  talkgroup = tg;
  tg_tag = [];
  talkgroup_description = [];
  talkgroup_tag = [];
  talkgroup_group = [];
  time = t;
}

abbrev on_100 : Affiliations
on_100 = ((1, 77), new_entry (event_of join 100 5) none) ∷ []

joins : handle_unit_event (event_of join 100 5) [] ≡ on_100
unfolding program
joins = refl

-- Traffic on another talkgroup moves the unit; with no talkgroup it only marks activity.
moves :
    (handle_unit_event (event_of call 200 9) on_100
      ≡ ((1, 77), new_entry (event_of call 200 9) (some 100)) ∷ [])
    × (handle_unit_event (event_of call 0 9) on_100
        ≡ ((1, 77), record (new_entry (event_of join 100 5) none) { last_event_time = 9 }) ∷ [])
unfolding program
moves = (refl, refl)

-- Traffic does not bring back a unit that went off on the same talkgroup.
stays_off :
    lookup
      (1, 77)
      (handle_unit_event (event_of call 100 9) (handle_unit_event (event_of off_event 0 7) on_100))
    ≡ some (record (new_entry (event_of join 100 5) none) { last_event_time = 9; status = off })
unfolding program
stays_off = refl

abbrev day : List Input
day = event (event_of join 100 5) ∷ event (event_of call 200 9) ∷ sweep 40 20 ∷ []

nothing_known : IsConsistent []
unfolding lookup
nothing_known = record {
  unique = tt;
  slots = λ k. subst (SlotIsValid k) (sym (lookup-Absent k [] tt)) tt;
}

run-IsConsistent_example : IsConsistent (run day [])
run-IsConsistent_example = run-IsConsistent day [] nothing_known
