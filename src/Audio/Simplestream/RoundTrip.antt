-- ===== src/Audio/Simplestream/RoundTrip.antt =====
-- The three packet formats that the comment on parsePacket names, as a sender writes them.
use tr_engine.Common.{
  ℕ, zero, suc, ◌+◌, ◌-◌, ◌*◌, ◌/◌, ◌%◌, ◌≤◌, ◌<◌, ◌≡◌, ◌≢◌, refl, ap, ◌∙◌, inl, inr, true, false,
  Option, none, some, List, [], ◌∷◌, ◌++◌, ltb, ◌==◌, nat_comparable, length, take, drop, min,
  arith, Bool-cases, length-append, take-append-length, drop-append-length, Lacks,
}
use tr_engine.Common.Slices.{slice, slice-some}
use mathlib.Core.List.{append_assoc}
use tr_engine.Audio.Simplestream.{
  SimplestreamMeta, Unmarshal, le_uint32, is_framed, find_byte, Span, with_end, scan_json,
  json_span, chunk_of, by_meta, by_span, try_parse_json, tgid_chunk, parse_packet,
}
use tr_engine.Audio.Simplestream.Formats.{
  length_fits, length_fits-lt, framed, unframed, is_framed_no, is_framed_at,
}

-- A number below 2^32 in four bytes, the lowest first.
abbrev pub le_bytes : ℕ → List ℕ
le_bytes n = n % 256 ∷ n / 256 % 256 ∷ n / 65536 % 256 ∷ n / 16777216 % 256 ∷ []

le_uint32-le_bytes :
    (n : ℕ) (rest : List ℕ) → n < 4294967296 → le_uint32 (le_bytes n ++ rest) ≡ some n
unfolding le_uint32
le_uint32-le_bytes n rest h = ap some (digits n h)
  where
    digits :
        (n : ℕ)
        → n < 4294967296
        → n % 256 + n / 256 % 256 * 256 + n / 65536 % 256 * 65536 + n / 16777216 % 256 * 16777216
          ≡ n
    digits n h = omega arith

take-min : (k : ℕ) (xs : List ℕ) → take (min k (length xs)) xs ≡ take k xs
take-min zero xs = let same : min 0 (length xs) ≡ 0 = omega arith in rw same refl
take-min (suc k) [] = let same : min (suc k) 0 ≡ 0 = omega arith in rw same refl
take-min (suc k) (x ∷ xs) =
    let same : min (suc k) (suc (length xs)) ≡ suc (min k (length xs)) = omega arith in
    rw same (ap (◌∷◌ x) (take-min k xs))

find_byte-Lacks : (c i : ℕ) (xs : List ℕ) → Lacks c xs → find_byte c i xs ≡ none
unfolding find_byte
find_byte-Lacks c i [] h = refl
find_byte-Lacks c i (d ∷ xs) h = ground (arith, h.0, find_byte-Lacks c (i + 1) xs h.1)

find_byte-first :
    (c i : ℕ) (xs ys : List ℕ) → Lacks c xs → find_byte c i (xs ++ c ∷ ys) ≡ some (i + length xs)
unfolding find_byte
find_byte-first c i [] ys h = ground arith
find_byte-first c i (d ∷ xs) ys h = ground (arith, h.0, find_byte-first c (i + 1) xs ys h.1)

take-all : (xs : List ℕ) → take (length xs) xs ≡ xs
take-all [] = refl
take-all (x ∷ xs) = ap (◌∷◌ x) (take-all xs)

take-append_all : (n : ℕ) (xs ys : List ℕ) → n ≡ length xs → take n (xs ++ ys) ≡ xs
take-append_all n xs ys e = rw e (take-append-length xs ys)

drop-append_all : (n : ℕ) (xs ys : List ℕ) → n ≡ length xs → drop n (xs ++ ys) ≡ ys
drop-append_all n xs ys e = rw e (drop-append-length xs ys)

take_all_of : (n : ℕ) (xs : List ℕ) → n ≡ length xs → take n xs ≡ xs
take_all_of n xs e = rw e (take-all xs)

-- What stands behind a front part.
slice-rest :
    (front samples : List ℕ) (n : ℕ)
    → n ≡ length front
    → slice n (length (front ++ samples)) (front ++ samples) ≡ some samples
slice-rest front samples n e =
    let l = length-append front samples in
    slice-some n (length (front ++ samples)) (front ++ samples) (omega (arith, l, e)) (omega arith)
    ∙ rw (drop-append_all n front samples e)
        (ap some (take_all_of (length (front ++ samples) - n) samples (omega (arith, l, e))))

scan_none : (bytes : List ℕ) → Lacks b'{' (take 8 bytes) → scan_json bytes ≡ some none
unfolding scan_json
scan_none bytes h = rw (take-min 8 bytes, find_byte-Lacks b'{' 0 (take 8 bytes) h) refl

-- The JSON object that follows four bytes of junk.
abbrev pub object : List ℕ → List ℕ
object body = b'{' ∷ body ++ b'}' ∷ []

abbrev pub junk : ℕ → ℕ → ℕ → ℕ → List ℕ
junk a b c d = a ∷ b ∷ c ∷ d ∷ []

scan_object :
    (a b c d : ℕ) (body samples : List ℕ)
    → Lacks b'{' (junk a b c d)
    → Lacks b'}' body
    → scan_json ((junk a b c d ++ object body) ++ samples)
      ≡ some (some (record { json_bytes = object body; pcm_start = 6 + length body }))
unfolding scan_json
scan_object a b c d body samples h k = rw (take-min 8 bytes, opening) (closing)
  where
    bytes : List ℕ
    bytes = (junk a b c d ++ object body) ++ samples

    rest : List ℕ
    rest = (body ++ b'}' ∷ []) ++ samples

    opening : find_byte b'{' 0 (take 8 bytes) ≡ some 4
    opening = find_byte-first b'{' 0 (junk a b c d) (take 3 rest) h

    same : rest ≡ body ++ b'}' ∷ samples
    same = append_assoc body (b'}' ∷ []) samples

    found : find_byte b'}' 5 rest ≡ some (5 + length body)
    found = rw same (find_byte-first b'}' 5 body samples k)

    l : length bytes ≡ 6 + length body + length samples
    l = omega (arith, length-append (body ++ b'}' ∷ []) samples, length-append body (b'}' ∷ []))

    closing :
        with_end 4 bytes (find_byte b'}' 5 rest)
        ≡ some (some (record { json_bytes = object body; pcm_start = 6 + length body }))
    closing =
        let end : 5 + length body + 1 ≡ 6 + length body = omega arith in
        let long = length-append body (b'}' ∷ []) in
        let json : take (6 + length body - 4) (drop 4 bytes) ≡ object body =
          take-append_all (6 + length body - 4) (object body) samples (omega (arith, long)) in
        rw (found, end, slice-some 4 (6 + length body) bytes (omega arith) (omega (arith, l)), json)
          refl

module _ (unmarshal : Unmarshal) (rate now : ℕ) where
  -- With the metadata known, the samples behind the JSON are the chunk's data.
  by_meta_lem :
      (front samples : List ℕ) (n : ℕ) (meta : SimplestreamMeta)
      → n ≡ length front
      → meta.talkgroup ≢ 0
      → by_meta unmarshal rate now (front ++ samples) n (some meta)
        ≡ some (some (chunk_of unmarshal rate now meta samples))
  by_meta_lem front samples n meta l t =
      let nonzero : (meta.talkgroup == 0) ≡ false = ground (arith, t) in
      rw (nonzero, slice-rest front samples n l) refl

  -- What parsePacket makes of a packet whose JSON was found.
  parse_at_span :
      (front samples : List ℕ) (n : ℕ) (span : Span) (meta : SimplestreamMeta)
      → 4 ≤ length front
      → le_uint32 (front ++ samples) ≡ some n
      → json_span n (front ++ samples) ≡ some (some span)
      → unmarshal span.json_bytes ≡ some meta
      → span.pcm_start ≡ length front
      → meta.talkgroup ≢ 0
      → parse_packet unmarshal rate now (front ++ samples)
        ≡ some (some (chunk_of unmarshal rate now meta samples))
  unfolding parse_packet try_parse_json
  parse_at_span front samples n span meta long e s u p t =
      let enough : ltb (length (front ++ samples)) 4 ≡ false =
        ground (arith, length-append front samples) in
      rw (enough, e, s, u, by_meta_lem front samples span.pcm_start meta p t) refl

  -- And of one in which no JSON was found, or none that can be read.
  parse_without_json :
      (front samples : List ℕ) (n : ℕ) (o : Option Span)
      → 4 ≡ length front
      → n ≢ 0
      → le_uint32 (front ++ samples) ≡ some n
      → json_span n (front ++ samples) ≡ some o
      → by_span unmarshal rate now (front ++ samples) o ≡ some none
      → parse_packet unmarshal rate now (front ++ samples)
        ≡ some (some (tgid_chunk unmarshal rate now n samples))
  unfolding parse_packet try_parse_json
  parse_without_json front samples n o long z e s u =
      let enough : ltb (length (front ++ samples)) 4 ≡ false =
        ground (arith, length-append front samples) in
      let nonzero : (n == 0) ≡ false = ground (arith, z) in
      rw (enough, e, s) (rw (u, e, nonzero, slice-rest front samples 4 long) refl)

  -- The first format: a right length, the JSON object, the samples.
  pub parse_packet-framed :
      (body samples : List ℕ) (meta : SimplestreamMeta)
      → suc (length body) < 4294967296
      → unmarshal (b'{' ∷ body) ≡ some meta
      → meta.talkgroup ≢ 0
      → parse_packet unmarshal rate now ((le_bytes (suc (length body)) ++ b'{' ∷ body) ++ samples)
        ≡ some (some (chunk_of unmarshal rate now meta samples))
  parse_packet-framed body samples meta h u t =
      let n = suc (length body) in
      let front : List ℕ = le_bytes n ++ b'{' ∷ body in
      let bytes : List ℕ = front ++ samples in
      let l : length bytes ≡ 5 + length body + length samples =
        omega (arith, length-append body samples) in
      let fits : length_fits n bytes ≡ true = ground (arith, l) in
      let is : is_framed n bytes ≡ some true = is_framed_at n bytes b'{' fits refl in
      let within : 4 + n ≤ length bytes = omega (arith, l) in
      let json : take (4 + n - 4) (drop 4 bytes) ≡ b'{' ∷ body =
        take-append_all (4 + n - 4) (b'{' ∷ body) samples (omega arith) in
      parse_at_span front samples n (record { json_bytes = b'{' ∷ body; pcm_start = 4 + n }) meta
        (omega arith) (le_uint32-le_bytes n (b'{' ∷ body ++ samples) h)
        (framed n bytes is ∙ rw (slice-some 4 (4 + n) bytes (omega arith) within, json) refl) u
        (omega arith) t

  -- The second format: four bytes of junk that make no length within the packet, a JSON object
  -- with no brace inside, the samples.
  pub parse_packet-scanned :
      (a b c d : ℕ) (body samples : List ℕ) (meta : SimplestreamMeta)
      → Lacks b'{' (junk a b c d)
      → Lacks b'}' body
      → length_fits
          (a + b * 256 + c * 65536 + d * 16777216)
          ((junk a b c d ++ object body) ++ samples)
        ≡ false
      → unmarshal (object body) ≡ some meta
      → meta.talkgroup ≢ 0
      → parse_packet unmarshal rate now ((junk a b c d ++ object body) ++ samples)
        ≡ some (some (chunk_of unmarshal rate now meta samples))
  unfolding le_uint32
  parse_packet-scanned a b c d body samples meta h k f u t =
      let n = a + b * 256 + c * 65536 + d * 16777216 in
      let bytes : List ℕ = (junk a b c d ++ object body) ++ samples in
      parse_at_span (junk a b c d ++ object body) samples n
        (record { json_bytes = object body; pcm_start = 6 + length body }) meta (omega arith) refl
        (unframed n bytes (is_framed_no n bytes f) ∙ scan_object a b c d body samples h k) u
        (omega (arith, length-append body (b'}' ∷ []))) t

  -- Junk that makes a length within the packet is trusted, and if the JSON cut off by it cannot be
  -- read the braces are not looked for: the packet counts as one of the talkgroup that the junk is.
  pub parse_packet-misread :
      (a b c d : ℕ) (body samples : List ℕ)
      → length_fits
          (a + b * 256 + c * 65536 + d * 16777216)
          ((junk a b c d ++ object body) ++ samples)
        ≡ true
      → unmarshal (take (a + b * 256 + c * 65536 + d * 16777216) (object body ++ samples)) ≡ none
      → parse_packet unmarshal rate now ((junk a b c d ++ object body) ++ samples)
        ≡ some (
            some (
              tgid_chunk unmarshal rate now
                (a + b * 256 + c * 65536 + d * 16777216)
                (object body ++ samples)))
  unfolding le_uint32
  parse_packet-misread a b c d body samples f u =
      let n = a + b * 256 + c * 65536 + d * 16777216 in
      let rest : List ℕ = object body ++ samples in
      let bytes : List ℕ = junk a b c d ++ rest in
      let (long, within) = length_fits-lt n bytes f in
      let cut : 4 + n - 4 ≡ n = omega arith in
      let json : take (4 + n - 4) rest ≡ take n rest = ap (λ k. take k rest) cut in
      parse_without_json (junk a b c d) rest n
        (some (record { json_bytes = take n rest; pcm_start = 4 + n })) (omega arith)
        (ground (arith, f)) refl
        (framed n bytes (is_framed_at n bytes b'{' f refl)
          ∙ rw (slice-some 4 (4 + n) bytes (omega arith) within, json) refl)
        (rw u refl)

  -- The third format: a talkgroup and the samples, with no opening brace in the first eight bytes.
  pub parse_packet-tgid :
      (tgid : ℕ) (samples : List ℕ)
      → tgid ≢ 0
      → tgid < 4294967296
      → Lacks b'{' (take 8 (le_bytes tgid ++ samples))
      → parse_packet unmarshal rate now (le_bytes tgid ++ samples)
        ≡ some (some (tgid_chunk unmarshal rate now tgid samples))
  parse_packet-tgid tgid samples z h plain =
      parse_without_json (le_bytes tgid) samples tgid none (omega arith) z
        (le_uint32-le_bytes tgid samples h) (unframed tgid bytes (no_brace samples plain) ∙ scan)
        refl
    where
      bytes : List ℕ
      bytes = le_bytes tgid ++ samples

      scan : scan_json bytes ≡ some none
      scan = scan_none bytes plain

      no_brace :
          (rest : List ℕ)
          → Lacks b'{' (take 8 (le_bytes tgid ++ rest))
          → is_framed tgid (le_bytes tgid ++ rest) ≡ some false
      no_brace [] p = is_framed_no tgid (le_bytes tgid ++ []) (ground arith)
      no_brace (c ∷ rest) p = elim (Bool-cases (length_fits tgid (le_bytes tgid ++ c ∷ rest))) [
        | inr e ↦ is_framed_no tgid (le_bytes tgid ++ c ∷ rest) e
        | inl e ↦
            is_framed_at tgid (le_bytes tgid ++ c ∷ rest) c e refl
            ∙ ap some (ground (arith, p.1.1.1.1.0))
      ]
