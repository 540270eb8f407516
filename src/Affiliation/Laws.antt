-- ===== src/Affiliation/Laws.antt =====
-- What an event does to the entry of its own unit, and to those of the others.
use tr_engine.Common.{
  ◌≡◌, inl, inr, Option, some, ◌==◌, nat_comparable, pair_comparable, arith, if◌then◌else◌, ltb,
  Bool-cases, Option-cases, is_some, ◌&&◌,
}
use tr_engine.Common.Map.{lookup, lookup-insert, lookup-modify, map_option}
use tr_engine.Common.Bytes.{pair_same_iff}
use tr_engine.Affiliation.{
  Entry, off, Key, Affiliations, update, mark_off, update_activity, get, EventType, join, off_event,
  call, end, location, other, UnitEvent, key_of, new_entry, changed_from, handle_join, handle_as,
  handle_traffic, handle_unit_event,
}

-- The entry of one unit across one event: the switch again, on a single slot instead of a map.
abbrev pub touched : UnitEvent → Option Entry → Option Entry
touched ev = map_option (λ e. record e { last_event_time = ev.time })

abbrev pub joined : UnitEvent → Option Entry → Option Entry
joined ev o = some (new_entry ev (changed_from ev o))

abbrev pub traffic : UnitEvent → Option Entry → Option Entry
traffic ev o =
    if ltb 0 ev.talkgroup && is_some (changed_from ev o) then joined ev o else touched ev o

abbrev pub unit_step : EventType → UnitEvent → Option Entry → Option Entry
unit_step join ev o = if ltb 0 ev.talkgroup then joined ev o else o
unit_step off_event ev o = map_option (λ e. record e { status = off; last_event_time = ev.time }) o
unit_step call ev o = traffic ev o
unit_step end ev o = traffic ev o
unit_step location ev o = traffic ev o
unit_step other ev o = touched ev o

same_slot :
    (k j : Key) (m : Affiliations) → lookup j m ≡ (if k == j then lookup k m else lookup j m)
same_slot k j m = ground (arith, pair_same_iff k j)

-- A map after an event: only the slot of the event's unit has moved, by `f`.
abbrev at_key : UnitEvent → Key → (Option Entry → Option Entry) → Affiliations → Option Entry
at_key ev j f m = if key_of ev == j then f (lookup (key_of ev) m) else lookup j m

join-lookup :
    (ev : UnitEvent) (j : Key) (m : Affiliations)
    → lookup j (handle_join ev m) ≡ at_key ev j (unit_step join ev) m
unfolding handle_join get update
join-lookup ev j m = elim (Bool-cases (ltb 0 ev.talkgroup)) [
  | inl h ↦ rw h (lookup-insert (key_of ev) j _ m)
  | inr h ↦ rw h (same_slot (key_of ev) j m)
]

touch_lookup :
    (ev : UnitEvent) (j : Key) (m : Affiliations)
    → lookup j (update_activity (key_of ev) ev.time m) ≡ at_key ev j (touched ev) m
unfolding update_activity
touch_lookup ev j m = lookup-modify (key_of ev) j _ m

off_lookup :
    (ev : UnitEvent) (j : Key) (m : Affiliations)
    → lookup j (mark_off (key_of ev) ev.time m) ≡ at_key ev j (unit_step off_event ev) m
unfolding mark_off
off_lookup ev j m = lookup-modify (key_of ev) j _ m

lookup-traffic :
    (ev : UnitEvent) (j : Key) (m : Affiliations)
    → lookup j (handle_traffic ev m) ≡ at_key ev j (traffic ev) m
unfolding handle_traffic get update
lookup-traffic ev j m = elim (Bool-cases (ltb 0 ev.talkgroup)) [
  | inr h ↦ rw h (touch_lookup ev j m)
  | inl h ↦ elim (Option-cases (changed_from ev (lookup (key_of ev) m))) [
    | inl same ↦ rw (h, same) (touch_lookup ev j m)
    | inr (p, moved) ↦ rw (h, moved) (lookup-insert (key_of ev) j _ m)
  ]
]

lookup_as :
    (k : EventType) (ev : UnitEvent) (j : Key) (m : Affiliations)
    → lookup j (handle_as k ev m) ≡ at_key ev j (unit_step k ev) m
lookup_as join ev j m = join-lookup ev j m
lookup_as off_event ev j m = off_lookup ev j m
lookup_as call ev j m = lookup-traffic ev j m
lookup_as end ev j m = lookup-traffic ev j m
lookup_as location ev j m = lookup-traffic ev j m
lookup_as other ev j m = touch_lookup ev j m

-- An event changes the entry of its own unit, by the unit's own state machine, and no other entry.
pub lookup-handle_unit_event :
    (ev : UnitEvent) (j : Key) (m : Affiliations)
    → lookup j (handle_unit_event ev m)
      ≡ (if key_of ev == j then unit_step ev.event_type ev (lookup (key_of ev) m) else lookup j m)
unfolding handle_unit_event
lookup-handle_unit_event ev j m = lookup_as ev.event_type ev j m
