-- ===== src/Affiliation/Transitions.antt =====
-- What each type of event does to the entry of its unit, field by field.
use tr_engine.Common.{ℕ, ◌≡◌, ◌≢◌, ◌<◌, ◌⊎◌, Option, none, some, nat_comparable, pair_comparable}
use tr_engine.Affiliation.{
  Entry, Status, off, affiliated, EventType, join, off_event, other, UnitEvent,
}

-- The unit has come to the event's talkgroup, from `previous`.
pub record HasJoined (ev : UnitEvent) (previous : Option ℕ) (e : Entry) : Type 0 where
  pub system_id : e.system_id ≡ ev.system_id
  pub unit_id : e.unit_id ≡ ev.unit
  pub tgid : e.tgid ≡ ev.talkgroup
  pub previous_tgid : e.previous_tgid ≡ previous
  pub affiliated_since : e.affiliated_since ≡ ev.time
  pub last_event_time : e.last_event_time ≡ ev.time
  pub status : e.status ≡ affiliated

-- The unit stays where it is, with this status, and was heard now.
pub record HasStayed (ev : UnitEvent) (status : Status) (e e' : Entry) : Type 0 where
  pub same_tgid : e'.tgid ≡ e.tgid
  pub same_previous : e'.previous_tgid ≡ e.previous_tgid
  pub same_since : e'.affiliated_since ≡ e.affiliated_since
  pub heard_at : e'.last_event_time ≡ ev.time
  pub new_status : e'.status ≡ status

-- Another talkgroup that the unit was known on.
abbrev pub CameFrom : UnitEvent → Option Entry → Option ℕ → Type 0
CameFrom ev none p = p ≡ none
CameFrom ev (some e) p =
    ((e.tgid ≡ ev.talkgroup) × (p ≡ none)) ⊎ ((e.tgid ≢ ev.talkgroup) × (p ≡ some e.tgid))

abbrev pub Stays : UnitEvent → Status → Entry → Option Entry → Type 0
Stays ev status e o = (e' : Entry) × (o ≡ some e') × HasStayed ev status e e'

abbrev pub Joins : UnitEvent → Option ℕ → Option Entry → Type 0
Joins ev previous o = (e' : Entry) × (o ≡ some e') × HasJoined ev previous e'

-- A join needs a talkgroup. Traffic moves a known unit that is heard on another talkgroup. All other
-- events leave the unit where it is, and `off_event` marks it off; they make no entry.
abbrev pub Transition : EventType → UnitEvent → Option Entry → Option Entry → Type 0
Transition join ev o o' =
    ((ev.talkgroup ≡ 0) × (o' ≡ o))
    ⊎ ((0 < ev.talkgroup) × ((p : Option ℕ) × CameFrom ev o p × Joins ev p o'))
Transition k ev none o' = o' ≡ none
Transition off_event ev (some e) o' = Stays ev off e o'
Transition other ev (some e) o' = Stays ev e.status e o'
Transition k ev (some e) o' =
    ((0 < ev.talkgroup) × (e.tgid ≢ ev.talkgroup) × Joins ev (some e.tgid) o')
    ⊎ (((ev.talkgroup ≡ 0) ⊎ (e.tgid ≡ ev.talkgroup)) × Stays ev e.status e o')
