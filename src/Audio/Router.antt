-- ===== src/Audio/Router.antt =====
-- internal/audio/router.go: `processChunk`, what it calls, and `cleanupIdle`, as `Run` calls them
-- one at a time. The identity lookup is the interface `IdentityLookup`, a value that each call is
-- given, since the cache behind it changes in between; the clock (`now`) is an argument too. What
-- `process_chunk` returns is the frame that the source publishes on the bus.
pub mod Keys
pub mod Slots
pub mod Trace
pub mod Dedup
pub mod Invariant
pub mod Sources
use tr_engine.Common.{
  ℕ, suc, Bool, true, false, not, Option, none, some, List, [], ◌∷◌, ◌++◌, ◌+◌, ◌-◌, ◌*◌, ◌/◌, ◌%◌,
  ◌&&◌, ◌||◌, Text, if◌then◌else◌, ltb, ◌==◌, nat_comparable, text_comparable, length,
}
use tr_engine.Common.Map.{Map, lookup, insert, retain}
use tr_engine.Common.Decimal.{decimal, number_from}
use tr_engine.Audio.{
  AudioFormat, AudioChunk, AudioFrame, AudioEncoder, JitterStats, no_jitter, add_jitter,
}

-- `none` is the `false` of the last result.
pub record IdentityLookup : Type 0 where
  pub lookup_by_short_name : Text → Text → Option (ℕ × ℕ)
  pub lookup_by_short_name_any : Text → (Text → Bool) → Option (ℕ × ℕ × Text)

pub record ActiveStream : Type 0 where
  pub system_id : ℕ
  pub site_id : ℕ
  pub short_name : Text
  pub last_chunk : ℕ
  pub seq : ℕ
  pub jitter : JitterStats
  pub started_at : ℕ

pub record AudioRouter (E : Type 0) : Type 0 where
  pub instance_id : Text
  pub idle_timeout : ℕ
  pub opus_bitrate : ℕ
  pub active_streams : Map Text ActiveStream
  pub encoders : Map Text E
  pub source_map : Map Text Text

-- `fmt.Sprintf("%d:%d", systemID, chunk.TGID)`; 58 is the colon.
unfoldable pub stream_key : ℕ → ℕ → Text
stream_key system_id tgid = decimal system_id ++ 58 ∷ decimal tgid

-- The text behind the last colon, if there is one. The source reads each byte behind it as a digit,
-- also one that is none; the keys have digits only.
unfoldable pub after_last_colon : Text → Option Text
after_last_colon [] = none
after_last_colon (c ∷ key) = elim (after_last_colon key) [
  | some t ↦ some t
  | none ↦ if c == 58 then some key else none
]

abbrev pub number_or_zero : Option Text → ℕ
number_or_zero none = 0
number_or_zero (some t) = number_from 0 t

unfoldable pub extract_tgid : Text → ℕ
extract_tgid key = number_or_zero (after_last_colon key)

abbrev pub is_empty : Text → Bool
is_empty [] = true
is_empty (c ∷ t) = false

-- The exclude set: the instances that some source has claimed.
unfoldable pub claimed : Map Text Text → Text → Bool
claimed [] inst = false
claimed ((addr, i) ∷ m) inst = i == inst || claimed m inst

unfoldable pub is_idle : ℕ → ℕ → ActiveStream → Bool
is_idle now idle_timeout s = ltb (s.last_chunk + idle_timeout) now

-- A negative difference is not recorded, and neither is one of ten seconds or more.
abbrev pub jitter_after : ℕ → ℕ → JitterStats → JitterStats
jitter_after last timestamp js =
    if ltb last timestamp && ltb (timestamp - last) 10000000000
    then add_jitter ((timestamp - last) / 1000) js
    else js

abbrev pub fresh_stream : AudioChunk → ℕ → ℕ → ActiveStream
fresh_stream chunk system_id site_id = record {
  system_id = system_id;
  site_id = site_id;
  short_name = chunk.short_name;
  last_chunk = chunk.timestamp;
  seq = 0;
  jitter = no_jitter;
  started_at = chunk.timestamp;
}

abbrev pub taken_over : AudioChunk → ℕ → ActiveStream → ActiveStream
taken_over chunk site_id s = record s {
  site_id = site_id;
  short_name = chunk.short_name;
  last_chunk = chunk.timestamp;
  seq = 0;
  jitter = no_jitter;
  started_at = chunk.timestamp;
}

-- `seq` is a `uint16`.
abbrev pub continued : AudioChunk → ActiveStream → ActiveStream
continued chunk s = record s {
  last_chunk = chunk.timestamp;
  seq = (s.seq + 1) % 65536;
  jitter = jitter_after s.last_chunk chunk.timestamp s.jitter;
}

-- The stream after the chunk; `none` drops the chunk.
unfoldable pub next_stream : ℕ → ℕ → AudioChunk → ℕ → ℕ → Option ActiveStream → Option ActiveStream
next_stream now idle_timeout chunk system_id site_id none =
    some (fresh_stream chunk system_id site_id)
next_stream now idle_timeout chunk system_id site_id (some s) =
    if s.site_id == site_id
    then some (continued chunk s)
    else (if is_idle now idle_timeout s then some (taken_over chunk site_id s) else none)

-- The payload and its format: the chunk's own if the encoder fails.
abbrev pub payload : AudioChunk → Option (List ℕ × AudioFormat) → List ℕ × AudioFormat
payload chunk none = (chunk.data_bytes, chunk.format)
payload chunk (some p) = p

abbrev pub frame_of : AudioChunk → ℕ → ℕ → ℕ → List ℕ × AudioFormat → AudioFrame
frame_of chunk system_id seq rate (bytes, format) = record {
  system_id = system_id;
  tgid = chunk.tgid;
  unit_id = chunk.unit_id;
  sample_rate = rate;
  seq = seq;
  format = format;
  data_bytes = bytes;
}

-- The encoders that stay: those whose stream stays, and those without a stream.
abbrev pub keeps_encoder : ℕ → ℕ → Option ActiveStream → Bool
keeps_encoder now idle_timeout none = true
keeps_encoder now idle_timeout (some s) = not (is_idle now idle_timeout s)

module _ {E : Type 0} where
  abbrev pub new_audio_router : Text → ℕ → ℕ → AudioRouter E
  new_audio_router instance_id idle_timeout opus_bitrate = record {
    instance_id = instance_id;
    idle_timeout = idle_timeout;
    opus_bitrate = opus_bitrate;
    active_streams = [];
    encoders = [];
    source_map = [];
  }

  unfoldable pub active_stream_count : AudioRouter E → ℕ
  active_stream_count r = length r.active_streams

  abbrev pub learned : AudioChunk → AudioRouter E → Option (ℕ × ℕ × Text) → Text × AudioRouter E
  learned chunk r none = (r.instance_id, r)
  learned chunk r (some (system_id, site_id, inst)) =
      (inst, record r { source_map = insert chunk.source_addr inst r.source_map })

  abbrev pub known_or_learned :
      IdentityLookup → AudioChunk → AudioRouter E → Option Text → Text × AudioRouter E
  known_or_learned ids chunk r (some inst) = (inst, r)
  known_or_learned ids chunk r none =
      learned chunk r (ids.lookup_by_short_name_any chunk.short_name (claimed r.source_map))

  unfoldable pub resolve_instance_id :
      IdentityLookup → AudioChunk → AudioRouter E → Text × AudioRouter E
  resolve_instance_id ids chunk r =
      if is_empty chunk.source_addr || is_empty chunk.short_name
      then (r.instance_id, r)
      else known_or_learned ids chunk r (lookup chunk.source_addr r.source_map)

  -- The system and site of a chunk, by its short name if it has no system.
  unfoldable pub resolve_identity :
      IdentityLookup → AudioChunk → AudioRouter E → Option (ℕ × ℕ) × AudioRouter E
  resolve_identity ids chunk r =
      if chunk.system_id == 0 && not (is_empty chunk.short_name)
      then (let q = resolve_instance_id ids chunk r in
          (ids.lookup_by_short_name q.0 chunk.short_name, q.1))
      else (some (chunk.system_id, chunk.site_id), r)

  abbrev pub encoder_for : AudioEncoder E → AudioChunk → AudioRouter E → Option E → E
  encoder_for enc chunk r (some e) = e
  encoder_for enc chunk r none = enc.new_encoder chunk.sample_rate r.opus_bitrate

  -- From `r.activeStreams[key]` to the publication, for the stream that the chunk continues.
  unfoldable pub emit :
      AudioEncoder E
      → AudioChunk
      → ℕ
      → Option ActiveStream
      → AudioRouter E
      → Option AudioFrame × AudioRouter E
  emit enc chunk system_id none r = (none, r)
  emit enc chunk system_id (some s) r =
      let key = stream_key system_id chunk.tgid in
      let e = encoder_for enc chunk r (lookup key r.encoders) in
      let out = enc.encode chunk.data_bytes e in
      (
        some (frame_of chunk system_id s.seq (enc.encoder_rate out.1) (payload chunk out.0)),
        record r {
          active_streams = insert key s r.active_streams;
          encoders = insert key out.1 r.encoders;
        },
      )

  abbrev pub route :
      AudioEncoder E
      → ℕ
      → AudioChunk
      → Option (ℕ × ℕ) × AudioRouter E
      → Option AudioFrame × AudioRouter E
  route enc now chunk (none, r) = (none, r)
  route enc now chunk (some (system_id, site_id), r) =
      if system_id == 0 || chunk.tgid == 0
      then (none, r)
      else emit enc chunk system_id
          (next_stream now r.idle_timeout chunk system_id site_id
            (lookup (stream_key system_id chunk.tgid) r.active_streams))
          r

  unfoldable pub process_chunk :
      AudioEncoder E
      → IdentityLookup
      → ℕ
      → AudioChunk
      → AudioRouter E
      → Option AudioFrame × AudioRouter E
  process_chunk enc ids now chunk r = route enc now chunk (resolve_identity ids chunk r)

  unfoldable pub cleanup_idle : ℕ → AudioRouter E → AudioRouter E
  cleanup_idle now r = record r {
    active_streams = retain (λ key s. not (is_idle now r.idle_timeout s)) r.active_streams;
    encoders =
        retain (λ key e. keeps_encoder now r.idle_timeout (lookup key r.active_streams)) r.encoders;
  }
