-- ===== src/EventBus/Tests.antt =====
-- Runs of the event bus on small inputs, and its theorems at them.
use tr_engine.Common.{
  ℕ, ◌≡◌, refl, ◌↔◌, true, false, List, [], ◌∷◌, ◌++◌, Option, none, some, arith, length, bytes,
  ltb, if◌then◌else◌, last_n, drop, cut, nat_comparable, text_comparable,
}
use tr_engine.Common.Decimal.{decimal}
use tr_engine.Common.Map.{lookup, insert, delete, map_values}
use tr_engine.EventBus.Filter.{Accepts, matches_filter_iff}
use tr_engine.EventBus.Ring.{RingIsValid, ring_order}
use tr_engine.EventBus.Run.{Feed, publish_all, published, publish_all-ring_order}
use tr_engine.EventBus.Replay.{matching}
use tr_engine.EventBus.Resume.{new_event_bus-RingIsValid, replay_since-resume}
use tr_engine.EventBus.Trace.{Trace, Step, publishes, reads, Reach, here, next, Delivered, receive}
use tr_engine.EventBus.Delivery.{subscribe-Delivered_run}
use tr_engine.Common.Trim.{trim_space, trim_left, trim_right}
use tr_engine.EventBus.{
  Event, EventFilter, EventData, Clock, EventBus, blank, new_event_bus, names_trimmed, names_type,
  matches_filter, format_id, build_event, push_ring, offer, distribute, publish, subscribe, cleanup,
  slots, scan_after, scan_all, replay_since,
}

-- All that a run of the bus computes with.
program : Unit {0}
unfolding trim_left trim_right trim_space names_trimmed names_type matches_filter format_id
    build_event push_ring offer distribute publish subscribe cleanup slots scan_after scan_all
    replay_since publish_all published decimal cut lookup insert delete map_values new_event_bus
    receive
program = tt

abbrev any_event : EventFilter
any_event = record {
  systems = [];
  sites = [];
  tgids = [];
  units = [];
  types = [];
  emergency_only = false;
}

abbrev calls_of_two : EventFilter
calls_of_two = record any_event { types = bytes " unit_event:call " ∷ []; systems = 2 ∷ [] }

abbrev on_system : ℕ → EventData
on_system s = record {
  event_type = bytes "unit_event";
  sub_type = bytes "call";
  system_id = s;
  site_id = 0;
  tgid = 0;
  unit_id = 0;
  emergency = false;
  payload = some [];
}

abbrev at : ℕ → Clock
at ms = record { unix_milli = ms; rfc3339 = [] }

abbrev feed : Feed
feed =
    (at 10, on_system 1)
    ∷ (at 11, record (on_system 9) { payload = none })
    ∷ (at 12, on_system 2)
    ∷ (at 12, on_system 3)
    ∷ []

abbrev event_at : ℕ → ℕ → ℕ → Event
event_at ms seq s = build_event (at ms) seq (on_system s) []

compound_filter :
    (matches_filter (event_at 12 2 2) calls_of_two ≡ true)
    × (matches_filter (event_at 12 3 3) calls_of_two ≡ false)
unfolding program
compound_filter = (refl, refl)

matches_filter_iff_example :
    (matches_filter (event_at 12 2 2) calls_of_two ≡ true) ↔ Accepts (event_at 12 2 2) calls_of_two
matches_filter_iff_example = matches_filter_iff (event_at 12 2 2) calls_of_two

-- A ring of two slots after three events.
abbrev second_id : List ℕ
second_id = bytes "12-2"

replay_of : Feed → List ℕ → Option (List Event)
replay_of ds last = elim (publish_all ds (new_event_bus 2)) [
  | none ↦ none
  | some eb ↦ replay_since last any_event eb
]

replays_the_last :
    (replay_of feed second_id ≡ some (event_at 12 3 3 ∷ []))
    × (replay_of feed (bytes "10-1") ≡ some (event_at 12 2 2 ∷ event_at 12 3 3 ∷ []))
    × (replay_of feed [] ≡ some (event_at 12 2 2 ∷ event_at 12 3 3 ∷ []))
unfolding program replay_of
replays_the_last = (refl, refl, refl)

abbrev after_feed : EventBus
after_feed = record (new_event_bus 2) {
  seq = 3;
  ring = event_at 12 3 3 ∷ event_at 12 2 2 ∷ [];
  ring_head = 1;
}

publish_all-ring_order_example :
    (eb : EventBus) × (publish_all feed (new_event_bus 2) ≡ some eb)
    × RingIsValid eb
    × (ring_order eb
        ≡ drop
            (length (published feed (new_event_bus 2).seq))
            (ring_order (new_event_bus 2) ++ published feed (new_event_bus 2).seq))
publish_all-ring_order_example =
    publish_all-ring_order feed (new_event_bus 2) (new_event_bus-RingIsValid 2 (omega arith))

replay_since-resume_example :
    replay_since second_id any_event after_feed
    ≡ some
        (matching any_event (if ltb 1 2 then event_at 12 3 3 ∷ [] else last_n 2 (published feed 0)))
unfolding program
replay_since-resume_example =
    replay_since-resume 2 feed any_event (omega arith) (omega arith) refl (event_at 10 1 1 ∷ [])
      (event_at 12 2 2) (event_at 12 3 3 ∷ []) refl

-- A subscriber that is offered one event and reads it.
abbrev subscribed : Trace
subscribed = record { bus = (subscribe any_event (new_event_bus 2)).0; offered = []; taken = [] }

abbrev offered_one : Trace
offered_one = record {
  bus = record (new_event_bus 2) {
    subscribers = (0, record { queue = event_at 10 1 1 ∷ []; filter = any_event }) ∷ [];
    next_id = 1;
    seq = 1;
    ring = event_at 10 1 1 ∷ blank ∷ [];
    ring_head = 1;
  };
  offered = event_at 10 1 1 ∷ [];
  taken = [];
}

abbrev read_one : Trace
read_one = record {
  bus = record offered_one.bus {
    subscribers = (0, record { queue = []; filter = any_event }) ∷ [];
  };
  offered = event_at 10 1 1 ∷ [];
  taken = event_at 10 1 1 ∷ [];
}

offers_one : Step 0 any_event subscribed offered_one
unfolding program
offers_one = publishes (at 10) (on_system 1) offered_one.bus refl refl

reads_one : Step 0 any_event offered_one read_one
unfolding program
reads_one = reads (event_at 10 1 1) read_one.bus refl refl

read_one_run : Reach 0 any_event subscribed read_one
read_one_run = next (next here offers_one) reads_one

subscribe-Delivered_run_example : (q : List Event) × Delivered 0 any_event read_one q
unfolding new_event_bus
subscribe-Delivered_run_example =
    subscribe-Delivered_run any_event (new_event_bus 2) (omega arith) read_one_run
