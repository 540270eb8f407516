-- ===== src/Audio/Simplestream.antt =====
-- internal/audio/simplestream.go: parsePacket and tryParseJSON. `json.Unmarshal` into the metadata
-- is a parameter, and the clock is an argument. A slice or an index out of range is a panic, the
-- outer `none`. Negative numbers in the metadata are left out, and so is `Freq`.
pub mod Formats
pub mod RoundTrip
mod Tests
use tr_engine.Common.{
  ℕ, zero, suc, ◌+◌, ◌-◌, ◌*◌, Bool, true, false, ◌&&◌, Option, none, some, List, [], ◌∷◌, Text,
  if◌then◌else◌, ltb, leb, ◌==◌, nat_comparable, length, take, drop, get_elem?, ◌>>=◌, min,
}
use tr_engine.Common.Slices.{slice}
use tr_engine.Audio.{AudioChunk, pcm}

pub record SimplestreamMeta : Type 0 where
  pub src : ℕ
  pub talkgroup : ℕ
  pub talkgroup_tag : Text
  pub short_name : Text
  pub audio_sample_rate : ℕ

abbrev pub Unmarshal : Type 0
Unmarshal = List ℕ → Option SimplestreamMeta

-- `binary.LittleEndian.Uint32`.
unfoldable pub le_uint32 : List ℕ → Option ℕ
le_uint32 (a ∷ b ∷ c ∷ d ∷ rest) = some (a + b * 256 + c * 65536 + d * 16777216)
le_uint32 _ = none

-- `data[from:to]`.
abbrev pub is_open_brace : Option ℕ → Option Bool
is_open_brace none = none
is_open_brace (some c) = some (c == b'{')

-- The test of the first method; `data[4]` is read only behind the two tests of the length.
unfoldable pub is_framed : ℕ → List ℕ → Option Bool
is_framed json_len bytes =
    if ltb 0 json_len && leb json_len (length bytes - 4)
    then is_open_brace (get_elem? bytes 4)
    else some false

-- The first position of a byte, counted from `i`.
unfoldable pub find_byte : ℕ → ℕ → List ℕ → Option ℕ
find_byte c i [] = none
find_byte c i (d ∷ rest) = if d == c then some i else find_byte c (i + 1) rest

-- The bytes of the JSON object, and where the samples start.
pub record Span : Type 0 where
  pub json_bytes : List ℕ
  pub pcm_start : ℕ

abbrev pub with_end : ℕ → List ℕ → Option ℕ → Option (Option Span)
with_end json_start bytes none = some none
with_end json_start bytes (some json_end) = do
  json ← slice json_start (json_end + 1) bytes
  some (some (record { json_bytes = json; pcm_start = json_end + 1 }))

abbrev pub with_start : List ℕ → Option ℕ → Option (Option Span)
with_start bytes none = some none
with_start bytes (some json_start) =
    with_end json_start bytes (find_byte b'}' (json_start + 1) (drop (json_start + 1) bytes))

-- The second method: the braces are looked for, the opening one in the first eight bytes.
unfoldable pub scan_json : List ℕ → Option (Option Span)
scan_json bytes = with_start bytes (find_byte b'{' 0 (take (min 8 (length bytes)) bytes))

abbrev pub framed_json : ℕ → List ℕ → Option (Option Span)
framed_json json_len bytes = do
  json ← slice 4 (4 + json_len) bytes
  some (some (record { json_bytes = json; pcm_start = 4 + json_len }))

unfoldable pub json_span : ℕ → List ℕ → Option (Option Span)
json_span json_len bytes = do
  framed ← is_framed json_len bytes
  if framed then framed_json json_len bytes else scan_json bytes

module _ (unmarshal : Unmarshal) (default_sample_rate now : ℕ) where
  abbrev pub chunk_of : SimplestreamMeta → List ℕ → AudioChunk
  chunk_of meta pcm_data = record {
    short_name = meta.short_name;
    source_addr = [];
    system_id = 0;
    site_id = 0;
    tgid = meta.talkgroup;
    unit_id = meta.src;
    tg_alpha_tag = meta.talkgroup_tag;
    format = pcm;
    sample_rate =
        if meta.audio_sample_rate == 0 then default_sample_rate else meta.audio_sample_rate;
    data_bytes = pcm_data;
    timestamp = now;
  }

  abbrev pub by_meta : List ℕ → ℕ → Option SimplestreamMeta → Option (Option AudioChunk)
  by_meta bytes pcm_start none = some none
  by_meta bytes pcm_start (some meta) = if meta.talkgroup == 0 then some none else (do
    pcm_data ← slice pcm_start (length bytes) bytes
    some (some (chunk_of meta pcm_data)))

  abbrev pub by_span : List ℕ → Option Span → Option (Option AudioChunk)
  by_span bytes none = some none
  by_span bytes (some span) = by_meta bytes span.pcm_start (unmarshal span.json_bytes)

  unfoldable pub try_parse_json : List ℕ → Option (Option AudioChunk)
  try_parse_json bytes = do
    json_len ← le_uint32 bytes
    span ← json_span json_len bytes
    by_span bytes span

  abbrev pub tgid_chunk : ℕ → List ℕ → AudioChunk
  tgid_chunk tgid pcm_data = record {
    short_name = [];
    source_addr = [];
    system_id = 0;
    site_id = 0;
    tgid = tgid;
    unit_id = 0;
    tg_alpha_tag = [];
    format = pcm;
    sample_rate = default_sample_rate;
    data_bytes = pcm_data;
    timestamp = now;
  }

  -- sendTGID.
  abbrev pub by_tgid : List ℕ → Option (Option AudioChunk)
  by_tgid bytes = do
    tgid ← le_uint32 bytes
    if tgid == 0
        then some none
        else (do pcm_data ← slice 4 (length bytes) bytes; some (some (tgid_chunk tgid pcm_data)))

  abbrev pub or_tgid : List ℕ → Option AudioChunk → Option (Option AudioChunk)
  or_tgid bytes (some chunk) = some (some chunk)
  or_tgid bytes none = by_tgid bytes

  unfoldable pub parse_packet : List ℕ → Option (Option AudioChunk)
  parse_packet bytes =
      if ltb (length bytes) 4
      then some none
      else (do found ← try_parse_json bytes; or_tgid bytes found)
