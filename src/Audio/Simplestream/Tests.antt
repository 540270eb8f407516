-- ===== src/Audio/Simplestream/Tests.antt =====
-- Packets with a small JSON reader, which knows one object.
use tr_engine.Common.{
  Option, none, some, [], ◌∷◌, ◌++◌, bytes, ◌≡◌, ◌≢◌, refl, if◌then◌else◌, ◌==◌, text_comparable,
  arith, nat_comparable,
}
use tr_engine.Common.Slices.{slice}
use tr_engine.Audio.{AudioChunk}
use tr_engine.Audio.Simplestream.{
  SimplestreamMeta, Unmarshal, le_uint32, is_framed, find_byte, scan_json, json_span,
  try_parse_json, parse_packet, chunk_of, tgid_chunk,
}
use tr_engine.Audio.Simplestream.Formats.{parse_packet-Total}
use tr_engine.Audio.Simplestream.RoundTrip.{
  le_bytes, junk, object, parse_packet-framed, parse_packet-misread,
}

program : Unit {0}
unfolding le_uint32 slice is_framed find_byte scan_json json_span try_parse_json parse_packet
program = tt

abbrev meta : SimplestreamMeta
meta = record {
  src = 7;
  talkgroup = 4113;
  talkgroup_tag = bytes "Fire";
  short_name = bytes "butco";
  audio_sample_rate = 0;
}

abbrev reader : Unmarshal
reader s = if s == bytes "{t}" then some meta else none

nonzero : meta.talkgroup ≢ 0
nonzero e = absurd (omega (arith, e))

too_short : parse_packet reader 8000 1 (bytes "{t}") ≡ some none
unfolding program
too_short = refl

parse_packet-Total_example :
    (o : Option AudioChunk) × (parse_packet reader 8000 1 (bytes "abcd{t}xyz") ≡ some o)
parse_packet-Total_example = parse_packet-Total reader 8000 1 (bytes "abcd{t}xyz")

parse_packet-framed_example :
    parse_packet reader 8000 1 ((le_bytes 3 ++ bytes "{t}") ++ 5 ∷ 6 ∷ [])
    ≡ some (some (chunk_of reader 8000 1 meta (5 ∷ 6 ∷ [])))
parse_packet-framed_example =
    parse_packet-framed reader 8000 1 (bytes "t}") (5 ∷ 6 ∷ []) meta (omega arith) refl nonzero

parse_packet-misread_example :
    parse_packet reader 8000 1 ((junk 4 0 0 0 ++ object (bytes "t")) ++ 5 ∷ 6 ∷ [])
    ≡ some (some (tgid_chunk reader 8000 1 4 (object (bytes "t") ++ 5 ∷ 6 ∷ [])))
parse_packet-misread_example =
    parse_packet-misread reader 8000 1 4 0 0 0 (bytes "t") (5 ∷ 6 ∷ []) refl refl

scanned :
    parse_packet reader 8000 1 (junk 255 255 0 0 ++ bytes "{t}" ++ 5 ∷ 6 ∷ [])
    ≡ some (some (chunk_of reader 8000 1 meta (5 ∷ 6 ∷ [])))
unfolding program
scanned = refl

plain_talkgroup :
    parse_packet reader 8000 1 (le_bytes 513 ++ 9 ∷ 8 ∷ [])
    ≡ some (some (tgid_chunk reader 8000 1 513 (9 ∷ 8 ∷ [])))
unfolding program
plain_talkgroup = refl
