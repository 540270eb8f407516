-- ===== src/Audio/Simplestream/Formats.antt =====
-- parsePacket does not panic, and reads back what the plugin sends.
use tr_engine.Common.{
  ℕ, zero, suc, ◌+◌, ◌-◌, ◌≤◌, ◌<◌, ◌≡◌, refl, sym, subst, inl, inr, Bool, true, false, ◌&&◌,
  Option, none, some, List, [], ◌∷◌, ltb, leb, ◌==◌, nat_comparable, length, take, drop, get_elem?,
  min, arith, Bool-cases, if_cases, length-drop, length-take,
}
use tr_engine.Common.Slices.{slice-some}
use tr_engine.Audio.{AudioChunk}
use tr_engine.Audio.Simplestream.{
  SimplestreamMeta, Unmarshal, le_uint32, is_framed, find_byte, Span, with_end, with_start,
  scan_json, framed_json, json_span, chunk_of, by_meta, by_span, try_parse_json, tgid_chunk,
  or_tgid, parse_packet,
}

abbrev Total {ℓ} : {A : Type ℓ} → Option A → Type ℓ
Total {A = A} o = (a : A) × (o ≡ some a)

le_uint32-Total : (bytes : List ℕ) → 4 ≤ length bytes → Total (le_uint32 bytes)
unfolding le_uint32
le_uint32-Total [] h = absurd (omega arith)
le_uint32-Total (a ∷ []) h = absurd (omega arith)
le_uint32-Total (a ∷ b ∷ []) h = absurd (omega arith)
le_uint32-Total (a ∷ b ∷ c ∷ []) h = absurd (omega arith)
le_uint32-Total (a ∷ b ∷ c ∷ d ∷ rest) h = (_, refl)

get_elem?-Total : (i : ℕ) (bytes : List ℕ) → i < length bytes → Total (get_elem? bytes i)
get_elem?-Total i [] h = absurd (omega arith)
get_elem?-Total zero (c ∷ bytes) h = (c, refl)
get_elem?-Total (suc i) (c ∷ bytes) h = get_elem?-Total i bytes (omega arith)

find_byte_bounds :
    (c i : ℕ) (bytes : List ℕ) (j : ℕ)
    → find_byte c i bytes ≡ some j
    → (i ≤ j) × (j < i + length bytes)
unfolding find_byte
find_byte_bounds c i [] j e = absurd (cc (e))
find_byte_bounds c i (d ∷ rest) j e = ground (arith, find_byte_bounds c (i + 1) rest j)

-- The samples start within the packet.
abbrev PcmWithin : List ℕ → Option Span → Type 0
PcmWithin bytes none = Unit {0}
PcmWithin bytes (some span) = span.pcm_start ≤ length bytes

abbrev SpanFits : List ℕ → Option (Option Span) → Type 0
SpanFits bytes r = (o : Option Span) × (r ≡ some o) × PcmWithin bytes o

with_end-SpanFits :
    (json_start : ℕ) (bytes : List ℕ) (o : Option ℕ)
    → find_byte b'}' (json_start + 1) (drop (json_start + 1) bytes) ≡ o
    → json_start < length bytes
    → SpanFits bytes (with_end json_start bytes o)
with_end-SpanFits json_start bytes none e h = (none, refl, tt)
with_end-SpanFits json_start bytes (some j) e h =
    let (low, high) = find_byte_bounds b'}' (json_start + 1) (drop (json_start + 1) bytes) j e in
    let within : j + 1 ≤ length bytes = omega (arith, high, length-drop (json_start + 1) bytes) in
    (
      some (record {
        json_bytes = take (j + 1 - json_start) (drop json_start bytes);
        pcm_start = j + 1;
      }),
      rw (slice-some json_start (j + 1) bytes (omega (arith, low)) within) refl,
      within,
    )

with_start-SpanFits :
    (bytes : List ℕ) (o : Option ℕ)
    → find_byte b'{' 0 (take (min 8 (length bytes)) bytes) ≡ o
    → SpanFits bytes (with_start bytes o)
with_start-SpanFits bytes none e = (none, refl, tt)
with_start-SpanFits bytes (some i) e =
    let (low, high) = find_byte_bounds b'{' 0 (take (min 8 (length bytes)) bytes) i e in
    with_end-SpanFits i bytes _ refl (omega (arith, high, length-take (min 8 (length bytes)) bytes))

scan_json-SpanFits : (bytes : List ℕ) → SpanFits bytes (scan_json bytes)
unfolding scan_json
scan_json-SpanFits bytes = with_start-SpanFits bytes _ refl

framed_json-SpanFits :
    (json_len : ℕ) (bytes : List ℕ)
    → 4 + json_len ≤ length bytes
    → SpanFits bytes (framed_json json_len bytes)
framed_json-SpanFits json_len bytes h = (
  some (record { json_bytes = take (4 + json_len - 4) (drop 4 bytes); pcm_start = 4 + json_len }),
  rw (slice-some 4 (4 + json_len) bytes (omega arith) h) refl,
  h,
)

abbrev pub length_fits : ℕ → List ℕ → Bool
length_fits json_len bytes = ltb 0 json_len && leb json_len (length bytes - 4)

pub length_fits-lt :
    (json_len : ℕ) (bytes : List ℕ)
    → length_fits json_len bytes ≡ true
    → (4 < length bytes) × (4 + json_len ≤ length bytes)
length_fits-lt json_len bytes h = (ground arith, ground arith)

pub unframed :
    (json_len : ℕ) (bytes : List ℕ)
    → is_framed json_len bytes ≡ some false
    → json_span json_len bytes ≡ scan_json bytes
unfolding json_span
unframed json_len bytes e = rw e refl

pub framed :
    (json_len : ℕ) (bytes : List ℕ)
    → is_framed json_len bytes ≡ some true
    → json_span json_len bytes ≡ framed_json json_len bytes
unfolding json_span
framed json_len bytes e = rw e refl

pub is_framed_no :
    (json_len : ℕ) (bytes : List ℕ)
    → length_fits json_len bytes ≡ false
    → is_framed json_len bytes ≡ some false
unfolding is_framed
is_framed_no json_len bytes e = rw e refl

pub is_framed_at :
    (json_len : ℕ) (bytes : List ℕ) (c : ℕ)
    → length_fits json_len bytes ≡ true
    → get_elem? bytes 4 ≡ some c
    → is_framed json_len bytes ≡ some (c == b'{')
unfolding is_framed
is_framed_at json_len bytes c e g = rw (e, g) refl

json_span-SpanFits : (json_len : ℕ) (bytes : List ℕ) → SpanFits bytes (json_span json_len bytes)
json_span-SpanFits json_len bytes = elim (Bool-cases (length_fits json_len bytes)) [
  | inr e ↦
      subst (SpanFits bytes) (sym (unframed json_len bytes (is_framed_no json_len bytes e)))
        (scan_json-SpanFits bytes)
  | inl e ↦
      let (long, within) = length_fits-lt json_len bytes e in
      let (c, g) = get_elem?-Total 4 bytes long in
      by_brace (c == b'{') (is_framed_at json_len bytes c e g) within
]
  where
    by_brace :
        (b : Bool)
        → is_framed json_len bytes ≡ some b
        → 4 + json_len ≤ length bytes
        → SpanFits bytes (json_span json_len bytes)
    by_brace true f h =
        subst (SpanFits bytes) (sym (framed json_len bytes f))
          (framed_json-SpanFits json_len bytes h)
    by_brace false f h =
        subst (SpanFits bytes) (sym (unframed json_len bytes f)) (scan_json-SpanFits bytes)

module _ (unmarshal : Unmarshal) (rate now : ℕ) where
  by_meta-Total :
      (bytes : List ℕ) (pcm_start : ℕ) (m : Option SimplestreamMeta)
      → pcm_start ≤ length bytes
      → Total (by_meta unmarshal rate now bytes pcm_start m)
  by_meta-Total bytes pcm_start none h = (none, refl)
  by_meta-Total bytes pcm_start (some meta) h =
      if_cases Total (meta.talkgroup == 0) _ _ (λ _. (none, refl))
        λ _. (
          some (
              chunk_of unmarshal rate now meta
                (take (length bytes - pcm_start) (drop pcm_start bytes))),
          rw (slice-some pcm_start (length bytes) bytes h (omega arith)) refl,
        )

  by_span-Total :
      (bytes : List ℕ) (o : Option Span)
      → PcmWithin bytes o
      → Total (by_span unmarshal rate now bytes o)
  by_span-Total bytes none h = (none, refl)
  by_span-Total bytes (some span) h =
      by_meta-Total bytes span.pcm_start (unmarshal span.json_bytes) h

  try_parse_json-Total :
      (bytes : List ℕ) → 4 ≤ length bytes → Total (try_parse_json unmarshal rate now bytes)
  unfolding try_parse_json
  try_parse_json-Total bytes h =
      let (json_len, e) = le_uint32-Total bytes h in
      let (o, f, within) = json_span-SpanFits json_len bytes in
      rw (e, f) (by_span-Total bytes o within)

  or_tgid-Total :
      (bytes : List ℕ) (o : Option AudioChunk)
      → 4 ≤ length bytes
      → Total (or_tgid unmarshal rate now bytes o)
  or_tgid-Total bytes (some chunk) h = (some chunk, refl)
  or_tgid-Total bytes none h =
      let (tgid, e) = le_uint32-Total bytes h in
      rw e (
        if_cases Total (tgid == 0) _ _ (λ _. (none, refl))
          λ _. (
            some (tgid_chunk unmarshal rate now tgid (take (length bytes - 4) (drop 4 bytes))),
            rw (slice-some 4 (length bytes) bytes h (omega arith)) refl,
          ))

  -- parsePacket reads no byte out of range and takes no slice out of range, whatever arrives.
  pub parse_packet-Total :
      (bytes : List ℕ) → (o : Option AudioChunk) × (parse_packet unmarshal rate now bytes ≡ some o)
  unfolding parse_packet
  parse_packet-Total bytes =
      if_cases Total (ltb (length bytes) 4) _ _ (λ _. (none, refl))
        λ long.
          let h : 4 ≤ length bytes = ground (arith, long) in
          let (o, e) = try_parse_json-Total bytes h in rw e (or_tgid-Total bytes o h)
