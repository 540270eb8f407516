-- ===== src/Topic/Tests.antt =====
-- Topics as trunk-recorder sends them.
use tr_engine.Common.{
  ◌≡◌, ◌↔◌, refl, true, none, some, [], ◌∷◌, ◌++◌, bytes, Lacks, arith, nat_comparable,
  text_comparable,
}
use tr_engine.Common.Split.{split, is_one_of}
use tr_engine.Topic.{last_two, by_last, by_segments, parse_topic, handler_only, unit_events}
use tr_engine.Topic.Routes.{parse_topic_unit_event_iff}

program : Unit {0}
unfolding split last_two is_one_of by_last by_segments parse_topic
program = tt

status : parse_topic (bytes "tr/trunk_recorder/status") ≡ handler_only (bytes "status")
unfolding program
status = refl

other_status : parse_topic (bytes "tr/butco/status") ≡ none
unfolding program
other_status = refl

message :
    parse_topic (bytes "tr/butco/message")
    ≡ some
        (record { handler = bytes "trunking_message"; sys_name = bytes "butco"; event_type = [] })
unfolding program
message = refl

butco-Lacks : Lacks 47 (bytes "butco")
butco-Lacks = (ground arith, (ground arith, (ground arith, (ground arith, (ground arith, tt)))))

parse_topic_unit_event_iff_example :
    (parse_topic (bytes "a/b" ++ 47 ∷ (bytes "butco" ++ 47 ∷ bytes "on"))
      ≡ some (record {
        handler = bytes "unit_event";
        sys_name = bytes "butco";
        event_type = bytes "on";
      }))
    ↔ (is_one_of unit_events (bytes "on") ≡ true)
parse_topic_unit_event_iff_example =
    parse_topic_unit_event_iff (bytes "a/b") (bytes "butco") (bytes "on") butco-Lacks
      (ground arith, (ground arith, tt))
