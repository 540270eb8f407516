-- ===== src/Affiliation/Tracking.antt =====
-- What holds of every entry after any run of events and sweeps, and which talkgroup an entry names.
use tr_engine.Common.{
  ℕ, ◌+◌, ◌<◌, ◌≡◌, refl, ◌≢◌, ◌⊎◌, inl, inr, Bool, true, false, not, List, [], ◌∷◌, Option, none,
  some, ◌==◌, nat_comparable, pair_comparable, arith, if◌then◌else◌, ltb, Bool-cases, Option-cases,
  sym, ◌∙◌, subst, same_refl,
}
use tr_engine.Common.Bytes.{pair_same_iff}
use tr_engine.Common.Map.{lookup, guarded, Unique, insert-Unique, modify-Unique}
use tr_engine.Affiliation.Laws.{traffic, unit_step, lookup-handle_unit_event}
use tr_engine.Affiliation.Eviction.{evict_stale_exact, evict_stale-Unique}
use tr_engine.Affiliation.{
  Entry, affiliated, Key, Affiliations, update, mark_off, update_activity, get, evict_stale,
  EventType, join, off_event, call, end, location, other, UnitEvent, key_of, new_entry,
  changed_from, handle_join, handle_traffic, handle_as, handle_unit_event,
}

-- The entry stands under its own key, names a talkgroup, and came from another one, if from any.
pub record EntryIsValid (k : Key) (e : Entry) : Type 0 where
  pub keyed : (e.system_id ≡ k.0) × (e.unit_id ≡ k.1)
  pub on_talkgroup : 0 < e.tgid
  pub moved : e.previous_tgid ≢ some e.tgid

-- The same of a slot of the map, if it is filled.
abbrev pub SlotIsValid : Key → Option Entry → Type 0
SlotIsValid k none = Unit {0}
SlotIsValid k (some e) = EntryIsValid k e

pub record IsConsistent (m : Affiliations) : Type 0 where
  pub unique : Unique m
  pub slots : (k : Key) → SlotIsValid k (lookup k m)

SlotIsValid-some :
    (k : Key) (o : Option Entry) (e : Entry) → SlotIsValid k o → o ≡ some e → EntryIsValid k e
SlotIsValid-some k o e v h = subst (SlotIsValid k) h v

every-SlotIsValid :
    (k : Key) (o : Option Entry) → ((e : Entry) → o ≡ some e → EntryIsValid k e) → SlotIsValid k o
every-SlotIsValid k none h = tt
every-SlotIsValid k (some e) h = h e refl

-- One input of the map: a unit's event, or a sweep of the eviction loop.
pub data Input : Type 0 where
  event : UnitEvent → Input
  sweep : ℕ → ℕ → Input

pub step : Input → Affiliations → Affiliations
step (event ev) m = handle_unit_event ev m
step (sweep now max_age) m = (evict_stale now max_age m).0

pub run : List Input → Affiliations → Affiliations
run [] m = m
run (i ∷ is) m = run is (step i m)

module _ (ev : UnitEvent) (m : Affiliations) (u : Unique m) where
  join_Unique : Unique (handle_join ev m)
  unfolding handle_join update
  join_Unique = elim (Bool-cases (ltb 0 ev.talkgroup)) [
    | inl h ↦ rw h (insert-Unique (key_of ev) _ m u)
    | inr h ↦ rw h u
  ]

  touch_Unique : Unique (update_activity (key_of ev) ev.time m)
  unfolding update_activity
  touch_Unique = modify-Unique (key_of ev) _ m u

  off_Unique : Unique (mark_off (key_of ev) ev.time m)
  unfolding mark_off
  off_Unique = modify-Unique (key_of ev) _ m u

  traffic_Unique : Unique (handle_traffic ev m)
  unfolding handle_traffic update
  traffic_Unique = elim (Bool-cases (ltb 0 ev.talkgroup)) [
    | inr h ↦ rw h touch_Unique
    | inl h ↦ elim (Option-cases (changed_from ev (get (key_of ev) m))) [
      | inl same ↦ rw (h, same) touch_Unique
      | inr (p, moved) ↦ rw (h, moved) (insert-Unique (key_of ev) _ m u)
    ]
  ]

  handle_as-Unique : (k : EventType) → Unique (handle_as k ev m)
  handle_as-Unique join = join_Unique
  handle_as-Unique off_event = off_Unique
  handle_as-Unique call = traffic_Unique
  handle_as-Unique end = traffic_Unique
  handle_as-Unique location = traffic_Unique
  handle_as-Unique other = touch_Unique

  handle_unit_event-Unique : Unique (handle_unit_event ev m)
  unfolding handle_unit_event
  handle_unit_event-Unique = handle_as-Unique ev.event_type

some_case :
    (k : EventType) (ev : UnitEvent) (e e' : Entry)
    → EntryIsValid (key_of ev) e
    → unit_step k ev (some e) ≡ some e'
    → EntryIsValid (key_of ev) e'
unfolding changed_from
some_case join ev e e' v h = ground arith
some_case off_event ev e e' v h = ground arith
some_case k ev e e' v h = ground arith

none_case :
    (k : EventType) (ev : UnitEvent) (e' : Entry)
    → unit_step k ev none ≡ some e'
    → EntryIsValid (key_of ev) e'
unfolding changed_from
none_case join ev e' h = ground arith
none_case off_event ev e' h = ground arith
none_case k ev e' h = ground arith

-- An entry of the event's unit stays valid across the unit's step.
unit_step-EntryIsValid :
    (k : EventType) (ev : UnitEvent) (o : Option Entry) (e' : Entry)
    → ((e : Entry) → o ≡ some e → EntryIsValid (key_of ev) e)
    → unit_step k ev o ≡ some e'
    → EntryIsValid (key_of ev) e'
unfolding changed_from
unit_step-EntryIsValid k ev none e' v h = none_case k ev e' h
unit_step-EntryIsValid k ev (some e) e' v h = some_case k ev e e' (v e refl) h

handle_unit_event-IsConsistent :
    (ev : UnitEvent) (m : Affiliations) → IsConsistent m → IsConsistent (handle_unit_event ev m)
handle_unit_event-IsConsistent ev m c = record {
  unique = handle_unit_event-Unique ev m c.unique;
  slots = λ k.
      every-SlotIsValid k (lookup k (handle_unit_event ev m))
        (λ e h. entry_at k e (lookup-handle_unit_event ev k m) h);
}
  where
    entry_at :
        (k : Key) (e : Entry)
        → lookup k (handle_unit_event ev m) ≡ (
            if key_of ev == k
            then unit_step ev.event_type ev (lookup (key_of ev) m)
            else lookup k m)
        → lookup k (handle_unit_event ev m) ≡ some e
        → EntryIsValid k e
    entry_at k e law h = elim (Bool-cases (key_of ev == k)) [
      | inl own ↦
          subst (λ j. EntryIsValid j e) ((pair_same_iff (key_of ev) k).0 own)
            (unit_step-EntryIsValid ev.event_type ev (lookup (key_of ev) m) e
              (λ j q. SlotIsValid-some (key_of ev) _ j (c.slots (key_of ev)) q)
              (sym (rw own at law) ∙ h))
      | inr foreign ↦ SlotIsValid-some k _ e (c.slots k) (sym (rw foreign at law) ∙ h)
    ]

evict_stale-IsConsistent :
    (now max_age : ℕ) (m : Affiliations)
    → IsConsistent m
    → IsConsistent (evict_stale now max_age m).0
evict_stale-IsConsistent now max_age m c = record {
  unique = evict_stale-Unique now max_age m c.unique;
  slots = λ k. every-SlotIsValid k (lookup k (evict_stale now max_age m).0) (λ e h.
      SlotIsValid-some k _ e (c.slots k)
        (kept k e (sym (evict_stale_exact now max_age m k c.unique).0 ∙ h)));
}
  where
    kept :
        (k : Key) (e : Entry)
        → guarded (λ e. not (ltb (e.last_event_time + max_age) now)) (lookup k m) ≡ some e
        → lookup k m ≡ some e
    kept k e h = ground arith

step-IsConsistent : (i : Input) (m : Affiliations) → IsConsistent m → IsConsistent (step i m)
unfolding step
step-IsConsistent (event ev) m c = handle_unit_event-IsConsistent ev m c
step-IsConsistent (sweep now max_age) m c = evict_stale-IsConsistent now max_age m c

-- After any run of events and sweeps that starts from a consistent map, such as the empty one,
-- each unit has one entry, which stands under the unit's own key, names a talkgroup above 0, and
-- has a previous talkgroup, if any, that differs from the current one.
pub run-IsConsistent :
    (is : List Input) (m : Affiliations) → IsConsistent m → IsConsistent (run is m)
unfolding run
run-IsConsistent [] m c = c
run-IsConsistent (i ∷ is) m c = run-IsConsistent is (step i m) (step-IsConsistent i m c)

abbrev pub carries_talkgroup : EventType → Bool
carries_talkgroup join = true
carries_talkgroup off_event = false
carries_talkgroup call = true
carries_talkgroup end = true
carries_talkgroup location = true
carries_talkgroup other = false

-- The entry after an event that carries a talkgroup, of a unit that had an entry.
abbrev pub Follows : UnitEvent → Entry → Entry → Type 0
Follows ev e e' =
    (e'.tgid ≡ ev.talkgroup)
    × (e'.last_event_time ≡ ev.time)
    × (((e.tgid ≢ ev.talkgroup)
          × (e'.previous_tgid ≡ some e.tgid)
          × (e'.affiliated_since ≡ ev.time)
          × (e'.status ≡ affiliated))
        ⊎ ((e.tgid ≡ ev.talkgroup)
            × ((ev.event_type ≡ join)
                ⊎ ((e'.previous_tgid ≡ e.previous_tgid)
                    × (e'.affiliated_since ≡ e.affiliated_since)
                    × (e'.status ≡ e.status)))))

Follows-traffic :
    (ev : UnitEvent) (e : Entry)
    → 0 < ev.talkgroup
    → (e' : Entry) × (traffic ev (some e) ≡ some e') × Follows ev e e'
unfolding changed_from
Follows-traffic ev e p = elim (Bool-cases (e.tgid == ev.talkgroup)) [
  | inl same ↦ (record e { last_event_time = ev.time }, ground arith, ground arith)
  | inr moved ↦ (new_entry ev (some e.tgid), ground arith, ground arith)
]

Follows-as :
    (k : EventType) (ev : UnitEvent) (e : Entry)
    → ev.event_type ≡ k
    → 0 < ev.talkgroup
    → carries_talkgroup k ≡ true
    → (e' : Entry) × (unit_step k ev (some e) ≡ some e') × Follows ev e e'
unfolding changed_from
Follows-as join ev e h p c = (new_entry ev (changed_from ev (some e)), ground arith, ground arith)
Follows-as off_event ev e h p c = absurd (ground arith)
Follows-as call ev e h p c = Follows-traffic ev e p
Follows-as end ev e h p c = Follows-traffic ev e p
Follows-as location ev e h p c = Follows-traffic ev e p
Follows-as other ev e h p c = absurd (ground arith)

-- A join, call, end or location event with a talkgroup above 0, of a unit that has an entry,
-- leaves an entry that names the event's talkgroup and time. If the talkgroup is another one than
-- before, the old one is recorded, the affiliation starts at the event and the unit is
-- affiliated; otherwise, unless the event is a join, nothing else changes.
pub handle_unit_event-Follows :
    (ev : UnitEvent) (m : Affiliations) (e : Entry)
    → carries_talkgroup ev.event_type ≡ true
    → 0 < ev.talkgroup
    → lookup (key_of ev) m ≡ some e
    → (e' : Entry) × (lookup (key_of ev) (handle_unit_event ev m) ≡ some e') × Follows ev e e'
handle_unit_event-Follows ev m e c p h =
    let (e', run, follows) = Follows-as ev.event_type ev e refl p c in
    (e', lookup-handle_unit_event ev (key_of ev) m ∙ rw (same_refl (key_of ev), h) run, follows)
