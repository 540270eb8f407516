-- ===== src/Affiliation.antt =====
-- internal/ingest/affiliations.go, and the switch at the end of handleUnitEvent in
-- internal/ingest/handler_units.go that drives it: which talkgroup each unit is on. An entry is
-- never shared, since `Get` copies it and each caller of `Update` makes a new one. Times are
-- numbers; radio and talkgroup ids are not negative (the source asks only whether they are > 0).
pub mod Laws
pub mod Eviction
pub mod Tracking
pub mod Transitions
mod Tests
use tr_engine.Common.{
  ℕ, suc, ◌+◌, ◌≤◌, ◌<◌, Bool, true, false, not, List, [], ◌∷◌, Option, none, some, ◌==◌,
  Comparable, nat_comparable, pair_comparable, Text, if◌then◌else◌, ltb, length,
}
use tr_engine.Common.Map.{Map, lookup, insert, modify}

pub data Status : Type 0 where
  affiliated off : Status

pub record Entry : Type 0 where
  pub system_id : ℕ
  pub system_name : Text
  pub sysid : Text
  pub unit_id : ℕ
  pub unit_alpha_tag : Text
  pub tgid : ℕ
  pub tg_alpha_tag : Text
  pub tg_description : Text
  pub tg_tag : Text
  pub tg_group : Text
  pub previous_tgid : Option ℕ
  pub affiliated_since : ℕ
  pub last_event_time : ℕ
  pub status : Status

-- The system's id and the unit's.
abbrev pub Key : Type 0
Key = ℕ × ℕ

abbrev pub Affiliations : Type 0
Affiliations = Map Key Entry

pub update : Key → Entry → Affiliations → Affiliations
update key entry m = insert key entry m

pub mark_off : Key → ℕ → Affiliations → Affiliations
mark_off key t m = modify key (λ e. record e { status = off; last_event_time = t }) m

pub update_activity : Key → ℕ → Affiliations → Affiliations
update_activity key t m = modify key (λ e. record e { last_event_time = t }) m

pub get : Key → Affiliations → Option Entry
get key m = lookup key m

pub all : Affiliations → List Entry
all [] = []
all ((_, e) ∷ m) = e ∷ all m

-- `now.Add(-maxAge)` is later than the entry's last event.
abbrev pub is_stale : ℕ → ℕ → Entry → Bool
is_stale now max_age e = ltb (e.last_event_time + max_age) now

-- The loop deletes stale entries and counts them.
pub evict_stale : ℕ → ℕ → Affiliations → Affiliations × ℕ
evict_stale now max_age [] = ([], 0)
evict_stale now max_age ((k, e) ∷ m) =
    let (rest, evicted) = evict_stale now max_age m in
    if is_stale now max_age e then (rest, suc evicted) else ((k, e) ∷ rest, evicted)

-- The event's type, as far as the switch tells types apart.
pub data EventType : Type 0 where
  join off_event call end location other : EventType

-- What the handler knows when it reaches the switch.
pub record UnitEvent : Type 0 where
  pub event_type : EventType
  pub system_id : ℕ
  pub system_name : Text
  pub sysid : Text
  pub unit : ℕ
  pub unit_tag : Text
  pub talkgroup : ℕ
  pub tg_tag : Text
  pub talkgroup_description : Text
  pub talkgroup_tag : Text
  pub talkgroup_group : Text
  pub time : ℕ

abbrev pub key_of : UnitEvent → Key
key_of ev = (ev.system_id, ev.unit)

-- The entry that both literals of the switch build.
abbrev pub new_entry : UnitEvent → Option ℕ → Entry
new_entry ev previous = record {
  system_id = ev.system_id;
  system_name = ev.system_name;
  sysid = ev.sysid;
  unit_id = ev.unit;
  unit_alpha_tag = ev.unit_tag;
  tgid = ev.talkgroup;
  tg_alpha_tag = ev.tg_tag;
  tg_description = ev.talkgroup_description;
  tg_tag = ev.talkgroup_tag;
  tg_group = ev.talkgroup_group;
  previous_tgid = previous;
  affiliated_since = ev.time;
  last_event_time = ev.time;
  status = affiliated;
}

-- The known talkgroup, if it is another than the event's.
pub changed_from : UnitEvent → Option Entry → Option ℕ
changed_from ev none = none
changed_from ev (some e) = if not (e.tgid == ev.talkgroup) then some e.tgid else none

-- `join`: only with a talkgroup.
pub handle_join : UnitEvent → Affiliations → Affiliations
handle_join ev m =
    if ltb 0 ev.talkgroup
    then update (key_of ev) (new_entry ev (changed_from ev (get (key_of ev) m))) m
    else m

-- `call`, `end` and `location`: another talkgroup than the known one is an implicit join.
pub handle_traffic : UnitEvent → Affiliations → Affiliations
handle_traffic ev m =
    if ltb 0 ev.talkgroup
    then (elim (changed_from ev (get (key_of ev) m)) [
      | some previous ↦ update (key_of ev) (new_entry ev (some previous)) m
      | none ↦ update_activity (key_of ev) ev.time m
    ])
    else update_activity (key_of ev) ev.time m

abbrev pub handle_as : EventType → UnitEvent → Affiliations → Affiliations
handle_as join ev m = handle_join ev m
handle_as off_event ev m = mark_off (key_of ev) ev.time m
handle_as call ev m = handle_traffic ev m
handle_as end ev m = handle_traffic ev m
handle_as location ev m = handle_traffic ev m
handle_as other ev m = update_activity (key_of ev) ev.time m

pub handle_unit_event : UnitEvent → Affiliations → Affiliations
handle_unit_event ev m = handle_as ev.event_type ev m
