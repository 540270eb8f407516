-- ===== src/Transcribe/FullText.antt =====
-- `mapWordPositions` and `buildSegments`: segments whose texts are cut out of the full text of the
-- transcription. `strings.ToLower` is a parameter: on text beyond ASCII it can change the length. A
-- slice or an index out of range is a panic, `none`.
use tr_engine.Common.{
  ℕ, suc, ◌+◌, Option, none, some, List, [], ◌∷◌, Text, if◌then◌else◌, ◌==◌, nat_comparable,
  text_comparable, length, get_elem?, ◌>>=◌,
}
use tr_engine.Common.Slices.{slice, index}
use tr_engine.Common.Trim.{trim_space}
use tr_engine.Transcribe.{AttributedWord, Segment, build_segments_fallback}

module _ (to_lower : Text → Text) where
  -- Where a word is and where the search goes on, by what `strings.Index` says.
  abbrev pub found_at : ℕ → ℕ → Option ℕ → ℕ × ℕ
  found_at search_from size none = (search_from, search_from)
  found_at search_from size (some idx) = (search_from + idx, search_from + idx + size)

  abbrev pub word_position : Text → ℕ → AttributedWord → Option (ℕ × ℕ)
  word_position lower search_from w = do
    rest ← slice search_from (length lower) lower
    let word = to_lower (trim_space w.word) in
        some (found_at search_from (length word) (index rest word))

  -- The loop of `mapWordPositions`.
  unfoldable pub positions_from : Text → ℕ → List AttributedWord → Option (List ℕ)
  positions_from lower search_from [] = some []
  positions_from lower search_from (w ∷ words) = do
    at ← word_position lower search_from w
    later ← positions_from lower at.1 words
    some (at.0 ∷ later)

  unfoldable pub map_word_positions : List AttributedWord → Text → Option (List ℕ)
  map_word_positions words full_text = positions_from (to_lower full_text) 0 words

-- `last_idx` is written and never read in the source.
pub record Group : Type 0 where
  pub src : ℕ
  pub src_tag : Text
  pub speaker : Text
  pub start : ℕ
  pub finish : ℕ
  pub first_idx : ℕ
  pub last_idx : ℕ

abbrev pub open_group : AttributedWord → ℕ → Group
open_group w i = record {
  src = w.src;
  src_tag = w.src_tag;
  speaker = w.speaker;
  start = w.start;
  finish = w.finish;
  first_idx = i;
  last_idx = i;
}

abbrev pub grow : AttributedWord → ℕ → Group → Group
grow w i g = record g {
  finish = w.finish;
  last_idx = i;
  speaker = if w.speaker == g.speaker then g.speaker else [];
}

-- The loop that groups the words, from the word with this index on.
unfoldable pub groups_from : ℕ → Group → List AttributedWord → List Group
groups_from i g [] = g ∷ []
groups_from i g (w ∷ words) =
    let same = groups_from (suc i) (grow w i g) words in
    let next = groups_from (suc i) (open_group w i) words in
    if w.src == g.src then same else g ∷ next

abbrev pub text_end : List ℕ → Text → List Group → Option ℕ
text_end positions full_text [] = some (length full_text)
text_end positions full_text (g ∷ groups) = get_elem? positions g.first_idx

abbrev pub segment_of : Group → Text → Segment
segment_of g text = record {
  src = g.src;
  src_tag = g.src_tag;
  speaker = g.speaker;
  start = g.start;
  finish = g.finish;
  text = trim_space text;
}

-- The loop that makes a segment of each group.
unfoldable pub segments_of : List ℕ → Text → List Group → Option (List Segment)
segments_of positions full_text [] = some []
segments_of positions full_text (g ∷ groups) = do
  from ← get_elem? positions g.first_idx
  to ← text_end positions full_text groups
  text ← slice from to full_text
  rest ← segments_of positions full_text groups
  some (segment_of g text ∷ rest)

unfoldable pub build_segments : (Text → Text) → List AttributedWord → Text → Option (List Segment)
build_segments to_lower [] full_text = some []
build_segments to_lower (w ∷ words) [] = some (build_segments_fallback w words)
build_segments to_lower (w ∷ words) (c ∷ text) = do
  positions ← map_word_positions to_lower (w ∷ words) (c ∷ text)
  segments_of positions (c ∷ text) (groups_from 1 (open_group w 0) words)
