-- ===== src/Topic.antt =====
-- internal/ingest/router.go: which handler an MQTT topic goes to. 47 is the slash. An empty route field is the empty text.
pub mod Segments
pub mod Routes
mod Tests
use tr_engine.Common.{
  ℕ, Bool, true, false, Option, none, some, List, [], ◌∷◌, Text, bytes, if◌then◌else◌, ◌==◌, ◌||◌,
  ◌&&◌, nat_comparable, text_comparable,
}
use tr_engine.Common.Split.{split, is_one_of}

pub record Route : Type 0 where
  pub handler : Text
  pub sys_name : Text
  pub event_type : Text

-- `parts[n-2]` and `parts[n-1]`, if there are two parts.
unfoldable pub last_two : List Text → Option (Text × Text)
last_two [] = none
last_two (a ∷ []) = none
last_two (a ∷ b ∷ []) = some (a, b)
last_two (a ∷ b ∷ c ∷ rest) = last_two (b ∷ c ∷ rest)

abbrev pub feed_handlers : List Text
feed_handlers =
    bytes "systems"
    ∷ bytes "system"
    ∷ bytes "calls_active"
    ∷ bytes "call_start"
    ∷ bytes "call_end"
    ∷ bytes "audio"
    ∷ bytes "recorders"
    ∷ bytes "recorder"
    ∷ bytes "rates"
    ∷ bytes "config"
    ∷ []

abbrev pub unit_events : List Text
unit_events =
    bytes "on"
    ∷ bytes "off"
    ∷ bytes "call"
    ∷ bytes "end"
    ∷ bytes "join"
    ∷ bytes "location"
    ∷ bytes "ackresp"
    ∷ bytes "data"
    ∷ bytes "signal"
    ∷ bytes "call_alert"
    ∷ []

abbrev pub handler_only : Text → Option Route
handler_only h = some (record { handler = h; sys_name = []; event_type = [] })

-- The part of `ParseTopic` that looks at the last segment only, or takes the one before as a name.
unfoldable pub by_last : Text → Text → Option Route
by_last before last =
    if is_one_of feed_handlers last
    then handler_only last
    else if last == bytes "message"
    then some (record { handler = bytes "trunking_message"; sys_name = before; event_type = [] })
    else if last == bytes "dvcf"
    then handler_only (bytes "dvcf")
    else if is_one_of unit_events last
    then some (record { handler = bytes "unit_event"; sys_name = before; event_type = last })
    else none

unfoldable pub by_segments : Text → Text → Option Route
by_segments before last =
    if before == bytes "trunk_recorder" && last == bytes "status"
    then handler_only (bytes "status")
    else if before == bytes "trunk_recorder" && last == bytes "console"
    then handler_only (bytes "console")
    else by_last before last

abbrev pub route_of : Option (Text × Text) → Option Route
route_of none = none
route_of (some (before, last)) = by_segments before last

unfoldable pub parse_topic : Text → Option Route
parse_topic topic = route_of (last_two (split 47 topic))
