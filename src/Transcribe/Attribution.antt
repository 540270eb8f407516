-- ===== src/Transcribe/Attribution.antt =====
-- `snapUtterances` and `AttributeWords`: from the words of the provider to the attributed words and the
-- segments.
use tr_engine.Common.{
  ℕ, ◌&&◌, not, Option, some, List, [], ◌∷◌, ◌++◌, Text, if◌then◌else◌, ◌==◌, nat_comparable, map,
  ◌>>=◌,
}
use tr_engine.Transcribe.{Transmission, AttributedWord, Segment, find_transmission, snap_utterance}
use tr_engine.Transcribe.FullText.{build_segments}
use tr_engine.Transcribe.Boundary.{fix_boundary_words}

pub record Word : Type 0 where
  pub word : Text
  pub start : ℕ
  pub finish : ℕ
  pub speaker : Text
  pub utterance : ℕ

pub record TranscriptionWords : Type 0 where
  pub words : List AttributedWord
  pub segments : List Segment

abbrev pub attributed : Word → ℕ × Text → AttributedWord
attributed w unit = record {
  word = w.word;
  start = w.start;
  finish = w.finish;
  src = unit.0;
  src_tag = unit.1;
  speaker = w.speaker;
}

-- The words of one utterance; utterance 0 is a word with a timing of its own.
unfoldable pub snap_group :
    List Transmission → ℕ → ℕ → ℕ → List AttributedWord → List AttributedWord
snap_group txs u start finish own = if u == 0 then own else snap_utterance own start finish txs 500

-- The loop of `snapUtterances`: the utterance that is open, with its start, the end of its last word
-- and its attributed words, then the words to come.
unfoldable pub snap_from :
    List Transmission
    → ℕ
    → ℕ
    → ℕ
    → List AttributedWord
    → List (Word × AttributedWord)
    → List AttributedWord
snap_from txs u start finish own [] = snap_group txs u start finish own
snap_from txs u start finish own ((w, a) ∷ rest) =
    let same = snap_from txs u start w.finish (own ++ a ∷ []) rest in
    let next = snap_from txs w.utterance w.start w.finish (a ∷ []) rest in
    if not (u == 0) && w.utterance == u then same else snap_group txs u start finish own ++ next

-- The two slices, which are of one length.
abbrev pub zip : List Word → List AttributedWord → List (Word × AttributedWord)
zip [] found = []
zip (w ∷ ws) [] = []
zip (w ∷ ws) (a ∷ found) = (w, a) ∷ zip ws found

abbrev pub snap_pairs : List Transmission → List (Word × AttributedWord) → List AttributedWord
snap_pairs txs [] = []
snap_pairs txs ((w, a) ∷ rest) = snap_from txs w.utterance w.start w.finish (a ∷ []) rest

unfoldable pub snap_utterances :
    List Word → List AttributedWord → List Transmission → List AttributedWord
snap_utterances words found txs = snap_pairs txs (zip words found)

-- The words with their units.
unfoldable pub attribute : List Word → List Transmission → List AttributedWord
attribute words [] = map (λ w. attributed w (0, [])) words
attribute words (tx ∷ txs) =
    let first = map (λ w. attributed w (find_transmission w.start tx txs)) words in
    snap_utterances words (fix_boundary_words first (tx ∷ txs)) (tx ∷ txs)

unfoldable pub attribute_words :
    (Text → Text) → List Word → List Transmission → Text → Option TranscriptionWords
attribute_words to_lower [] txs full_text = some (record { words = []; segments = [] })
attribute_words to_lower (w ∷ words) txs full_text = do
  segments ← build_segments to_lower (attribute (w ∷ words) txs) full_text
  some (record { words = attribute (w ∷ words) txs; segments = segments })
