-- ===== src/Transcribe/Tests.antt =====
-- A call of two units, and the theorems at it.
use tr_engine.Common.{
  ℕ, ◌≡◌, refl, [], ◌+◌, ◌&&◌, ◌==◌, leb, map, none, some, Option, if◌then◌else◌, ◌∷◌, List, Text,
  bytes, nat_comparable, text_comparable,
}
use tr_engine.Common.Map.{lookup, insert}
use tr_engine.Common.Trim.{trim_space, trim_left, trim_right}
use tr_engine.Transcribe.{
  add_time, overlaps, snap_word, snap_utterance, Source, Transmission, AttributedWord, Segment,
  transmissions, find_containing, nearest, find_transmission, segments_from,
  build_segments_fallback,
}
use tr_engine.Common.Slices.{slice, has_prefix, index}
use tr_engine.Transcribe.FullText.{
  positions_from, map_word_positions, groups_from, segments_of, build_segments,
}
use tr_engine.Transcribe.Boundary.{
  is_brief_near_end, walk_back, fix_from, back_onto, fix_boundary_words,
}
use tr_engine.Transcribe.Attribution.{
  Word, TranscriptionWords, snap_group, snap_from, snap_utterances, attribute, attribute_words,
}
use tr_engine.Transcribe.Texts.{Cut, build_segments-Cut}
use tr_engine.Transcribe.Whole.{IsAttribution, attribute_words-IsAttribution}
use tr_engine.Transcribe.Segments.{Covers, build_segments_fallback-Covers}

program : Unit {0}
unfolding transmissions find_containing nearest find_transmission segments_from
    build_segments_fallback add_time overlaps snap_word snap_utterance lookup insert trim_space
    trim_left trim_right slice has_prefix index positions_from map_word_positions groups_from
    segments_of build_segments is_brief_near_end walk_back fix_from back_onto fix_boundary_words
    snap_group snap_from snap_utterances attribute attribute_words
program = tt

abbrev first : Source
first = record { src = 11; tag = bytes "E1"; pos = 0 }

abbrev second : Source
second = record { src = 22; tag = []; pos = 2000 }

two_transmissions :
    transmissions 5000 (first ∷ second ∷ [])
    ≡ record { src = 11; tag = bytes "E1"; pos = 0; duration = 2000 }
      ∷ record { src = 22; tag = []; pos = 2000; duration = 3000 }
      ∷ []
unfolding program
two_transmissions = refl

abbrev early : Transmission
early = record { src = 11; tag = bytes "E1"; pos = 1000; duration = 500 }

abbrev late : Transmission
late = record { src = 22; tag = []; pos = 4000; duration = 500 }

finds_late : find_transmission 3000 early (late ∷ []) ≡ (22, [])
unfolding program
finds_late = refl

abbrev said : Text → ℕ → ℕ → AttributedWord
said text time unit = record {
  word = text;
  start = time;
  finish = time;
  src = unit;
  src_tag = [];
  speaker = [];
}

abbrev words : List AttributedWord
words = said (bytes " units") 2 11 ∷ said (bytes "copy ") 3 22 ∷ []

two_segments :
    build_segments_fallback (said (bytes "all") 1 11) words
    ≡ record {
      src = 11;
      src_tag = [];
      speaker = [];
      start = 1;
      finish = 2;
      text = bytes "all units";
    }
      ∷ record { src = 22; src_tag = []; speaker = []; start = 3; finish = 3; text = bytes "copy" }
      ∷ []
unfolding program
two_segments = refl

build_segments_fallback-Covers_example :
    Covers
      (build_segments_fallback (said (bytes "all") 1 11) words)
      (said (bytes "all") 1 11 ∷ words)
build_segments_fallback-Covers_example =
    build_segments_fallback-Covers (said (bytes "all") 1 11) words

-- The utterance is nearly all in the second transmission; the first word moves there.
snaps :
    snap_utterance
      (said (bytes "go") 1400 11 ∷ said (bytes "on") 4100 22 ∷ [])
      1300
      4400
      (early ∷ late ∷ [])
      500
    ≡ said (bytes "go") 1400 22 ∷ said (bytes "on") 4100 22 ∷ []
unfolding program
snaps = refl

-- `strings.ToLower` of ASCII text.
abbrev ascii_lower : Text → Text
ascii_lower = map (λ c. if leb 65 c && leb c 90 then c + 32 else c)

abbrev full : Text
full = bytes "All units. Copy!"

abbrev texts_of : Option (List Segment) → List Text
texts_of none = []
texts_of (some segments) = map (λ (s : Segment). s.text) segments

keeps_punctuation :
    texts_of (build_segments ascii_lower (said (bytes "all") 1 11 ∷ words) full)
    ≡ bytes "All units." ∷ bytes "Copy!" ∷ []
unfolding program
keeps_punctuation = refl

-- U+023A has two bytes, and three in lower case: a text that is too long by one byte, whose last
-- word begins behind the end of the full text.
abbrev longer_lower : Text → Text
longer_lower [] = []
longer_lower (c ∷ t) =
    let rest = longer_lower t in
    if c == 200 then 226 ∷ 177 ∷ rest else if c == 186 then 165 ∷ rest else c ∷ rest

panics :
    build_segments longer_lower
      (said (200 ∷ 186 ∷ []) 1 11 ∷ said (200 ∷ 186 ∷ []) 2 22 ∷ said (bytes "a") 3 11 ∷ [])
      (200 ∷ 186 ∷ 200 ∷ 186 ∷ 97 ∷ [])
    ≡ none
unfolding program
panics = refl

build_segments-Cut_example :
    (segments : List Segment) × (build_segments ascii_lower (said (bytes "all") 1 11 ∷ words) full
      ≡ some segments)
    × Cut (said (bytes "all") 1 11) words full segments
build_segments-Cut_example =
    build_segments-Cut ascii_lower (said (bytes "all") 1 11) words 65 _ refl

abbrev heard : Text → ℕ → ℕ → Word
heard text start finish = record {
  word = text;
  start = start;
  finish = finish;
  speaker = [];
  utterance = 0;
}

-- The second word is a blip close to the end of the first transmission, before a silence; it moves.
moves_blip :
    map
      (λ (a : AttributedWord). a.src)
      (attribute
        (heard (bytes "go") 1000 1200
          ∷ heard (bytes "copy") 1300 1310
          ∷ heard (bytes "ok") 4100 4300
          ∷ [])
        (early ∷ late ∷ []))
    ≡ 11 ∷ 22 ∷ 22 ∷ []
unfolding program
moves_blip = refl

attribute_words-IsAttribution_example :
    (r : TranscriptionWords) × (attribute_words ascii_lower
        (heard (bytes "all") 1000 1200 ∷ [])
        (early ∷ late ∷ [])
        full
      ≡ some r)
    × IsAttribution (heard (bytes "all") 1000 1200 ∷ []) (early ∷ late ∷ []) r
attribute_words-IsAttribution_example =
    attribute_words-IsAttribution ascii_lower (heard (bytes "all") 1000 1200 ∷ [])
      (early ∷ late ∷ []) full refl
