-- ===== src/EventBus.antt =====
-- internal/ingest/eventbus.go: publish and subscribe for server-sent events, with a replay ring.
-- A channel is the list of the events that wait in it; time and the marshalled payload come from
-- outside as arguments. `none` is the panic of an index out of range.
pub mod Filter
pub mod Ring
pub mod Ids
pub mod Run
pub mod Replay
pub mod Resume
pub mod Trace
pub mod Offer
pub mod Delivery
mod Tests
use tr_engine.Common.Trim.{trim_space}
use tr_engine.Common.{
  ℕ, zero, suc, ◌+◌, ◌%◌, ◌^◌, Bool, true, false, ◌&&◌, ◌||◌, not, List, [], ◌∷◌, ◌++◌, map, Option,
  none, some, ◌==◌, nat_comparable, text_comparable, Text, if◌then◌else◌, ltb, length, get_elem?,
  set, replicate, cut, ◌>>=◌,
}
use tr_engine.Common.Decimal.{decimal}
use tr_engine.Common.Map.{Map, lookup, insert, delete, map_values}

-- `SSEEvent` of internal/api/live_data.go. The zero value, with the empty id, is an unused slot.
pub record Event : Type 0 where
  pub id : Text
  pub event_type : Text
  pub sub_type : Text
  pub timestamp : Text
  pub system_id : ℕ
  pub site_id : ℕ
  pub tgid : ℕ
  pub unit_id : ℕ
  pub emergency : Bool
  pub payload : Text

-- `EventFilter` of internal/api/live_data.go.
pub record EventFilter : Type 0 where
  pub systems : List ℕ
  pub sites : List ℕ
  pub tgids : List ℕ
  pub units : List ℕ
  pub types : List Text
  pub emergency_only : Bool

-- `EventData`; `payload` is the result of `json.Marshal`, `none` its error.
pub record EventData : Type 0 where
  pub event_type : Text
  pub sub_type : Text
  pub system_id : ℕ
  pub site_id : ℕ
  pub tgid : ℕ
  pub unit_id : ℕ
  pub emergency : Bool
  pub payload : Option Text

-- The two readings of `time.Now()`: milliseconds since the epoch, and the RFC 3339 text.
pub record Clock : Type 0 where
  pub unix_milli : ℕ
  pub rfc3339 : Text

pub record Subscriber : Type 0 where
  pub queue : List Event
  pub filter : EventFilter

pub record EventBus : Type 0 where
  pub subscribers : Map ℕ Subscriber
  pub next_id : ℕ
  pub seq : ℕ
  pub ring : List Event
  pub ring_size : ℕ
  pub ring_head : ℕ

abbrev pub blank : Event
blank = record {
  id = [];
  event_type = [];
  sub_type = [];
  timestamp = [];
  system_id = 0;
  site_id = 0;
  tgid = 0;
  unit_id = 0;
  emergency = false;
  payload = [];
}

pub new_event_bus : ℕ → EventBus
new_event_bus ring_size = record {
  subscribers = [];
  next_id = 0;
  seq = 0;
  ring = replicate ring_size blank;
  ring_size = ring_size;
  ring_head = 0;
}

-- A loop that breaks at the first element that passes the test.
abbrev pub any_of {ℓ} : {A : Type ℓ} → (A → Bool) → List A → Bool
any_of p [] = false
any_of p (x ∷ xs) = p x || any_of p xs

-- The body of the loop over the filter's types: `base:sub` names a type and a subtype.
pub names_trimmed : Event → Text → Bool
names_trimmed e t = elim (cut b':' t) [
  | none ↦ t == e.event_type
  | some (base, sub) ↦ base == e.event_type && sub == e.sub_type
]

pub names_type : Event → Text → Bool
names_type e t = names_trimmed e (trim_space t)

-- One of the four blocks on ids: an empty list, and an event without the id, pass.
abbrev pub passes_ids : List ℕ → ℕ → Bool
passes_ids [] i = true
passes_ids (x ∷ xs) i = i == 0 || any_of (λ y. y == i) (x ∷ xs)

abbrev pub passes_types : List Text → Event → Bool
passes_types [] e = true
passes_types (t ∷ ts) e = any_of (names_type e) (t ∷ ts)

pub matches_filter : Event → EventFilter → Bool
matches_filter e f =
    if f.emergency_only && not e.emergency
    then false
    else if not (passes_types f.types e)
    then false
    else if not (passes_ids f.systems e.system_id)
    then false
    else if not (passes_ids f.sites e.site_id)
    then false
    else if not (passes_ids f.tgids e.tgid)
    then false
    else passes_ids f.units e.unit_id

-- `%d-%d` of the time and the sequence number.
pub format_id : ℕ → ℕ → Text
unfolding decimal
format_id millis seq = decimal millis ++ b'-' ∷ decimal seq

pub build_event : Clock → ℕ → EventData → Text → Event
build_event now seq d bytes = record {
  id = format_id now.unix_milli seq;
  event_type = d.event_type;
  sub_type = d.sub_type;
  timestamp = now.rfc3339;
  system_id = d.system_id;
  site_id = d.site_id;
  tgid = d.tgid;
  unit_id = d.unit_id;
  emergency = d.emergency;
  payload = bytes;
}

pub push_ring : EventBus → Event → Option EventBus
push_ring eb e = elim (get_elem? eb.ring eb.ring_head) [
  | none ↦ none
  | some evicted ↦ some (record eb {
    ring = set eb.ring eb.ring_head e;
    ring_head = (eb.ring_head + 1) % eb.ring_size;
  })
]

abbrev pub channel_cap : ℕ
channel_cap = 64

-- The non-blocking send: a full channel drops the event.
pub offer : Event → ℕ → Subscriber → Subscriber
offer e id sub =
    if matches_filter e sub.filter
    then (if ltb (length sub.queue) channel_cap
        then record sub { queue = sub.queue ++ e ∷ [] }
        else sub)
    else sub

pub distribute : Event → EventBus → EventBus
unfolding offer map_values
distribute e eb = record eb { subscribers = map_values (offer e) eb.subscribers }

pub publish : Clock → EventData → EventBus → Option EventBus
publish now d eb = elim d.payload [
  | none ↦ some eb
  | some bytes ↦
      let seq = (eb.seq + 1) % 2 ^ 64 in
      let e = build_event now seq d bytes in
      push_ring (record eb { seq = seq }) e >>= λ eb'. some (distribute e eb')
]

-- What `Subscribe` hands out: the subscriber's id, and the `sync.Once` of its cleanup.
pub record Subscription : Type 0 where
  pub id : ℕ
  pub done : Bool

pub subscribe : EventFilter → EventBus → EventBus × Subscription
unfolding insert
subscribe filter eb = (
  record eb {
    next_id = (eb.next_id + 1) % 2 ^ 64;
    subscribers = insert eb.next_id (record { queue = []; filter = filter }) eb.subscribers;
  },
  record { id = eb.next_id; done = false },
)

-- The cleanup function: only its first call removes the subscriber and closes the channel.
pub cleanup : Subscription → EventBus → EventBus × Subscription
unfolding delete
cleanup s eb =
    if s.done
    then (eb, s)
    else (record eb { subscribers = delete s.id eb.subscribers }, record s { done = true })

pub subscriber_count : EventBus → ℕ
subscriber_count eb = length eb.subscribers

-- The slots that both loops of `ReplaySince` visit, from round `i`.
pub slots : ℕ → ℕ → EventBus → Option (List Event)
slots zero i eb = some []
slots (suc n) i eb = do
  e ← get_elem? eb.ring ((eb.ring_head + i) % eb.ring_size)
  rest ← slots n (i + 1) eb
  some (e ∷ rest)

abbrev pub prepend_if : Bool → Event → Bool × List Event → Bool × List Event
prepend_if b e (found, es) = (found, (if b then e ∷ es else es))

-- The first loop: the events behind the last one that the client saw, and whether it was found.
pub scan_after : Text → EventFilter → Bool → List Event → Bool × List Event
scan_after last f found [] = (found, [])
scan_after last f found (e ∷ es) =
    let unused = scan_after last f found es in
    let sought = scan_after last f (e.id == last) es in
    let behind = scan_after last f true es in
    if e.id == []
    then unused
    else if not found
    then sought
    else prepend_if (matches_filter e f) e behind

-- The second loop: every event that is still there.
pub scan_all : EventFilter → List Event → List Event
scan_all f [] = []
scan_all f (e ∷ es) =
    if not (e.id == []) && matches_filter e f then e ∷ scan_all f es else scan_all f es

pub replay_since : Text → EventFilter → EventBus → Option (List Event)
replay_since last f eb = do
  es ← slots eb.ring_size 0 eb
  let (found, events) = scan_after last f (last == []) es
  some (if not found && not (last == []) then events ++ scan_all f es else events)
