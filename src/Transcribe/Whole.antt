-- ===== src/Transcribe/Whole.antt =====
-- The whole of AttributeWords.
use tr_engine.Common.{some, List, [], ◌∷◌, ◌≡◌, refl, Text, map, length}
use tr_engine.Transcribe.{Transmission, AttributedWord, Segment, build_segments_fallback}
use tr_engine.Transcribe.FullText.{build_segments}
use tr_engine.Transcribe.Attribution.{Word, TranscriptionWords, attribute, attribute_words}
use tr_engine.Transcribe.Moves.{AllUnits}
use tr_engine.Transcribe.Attributed.{spoken, spoken_word, spoken-attribute, attribute-AllUnits}
use tr_engine.Transcribe.Texts.{Heading, heading, build_segments-Cut}

-- The units of the words: of transmissions, or 0 where there is none.
abbrev pub NoUnits : List AttributedWord → Type 0
NoUnits [] = Unit {0}
NoUnits (a ∷ words) = (a.src ≡ 0) × (a.src_tag ≡ []) × NoUnits words

abbrev pub UnitsOf : List Transmission → List AttributedWord → Type 0
UnitsOf [] words = NoUnits words
UnitsOf (tx ∷ txs) words = AllUnits (tx ∷ txs) words

-- The segments of the words, without their texts.
abbrev pub headings : List AttributedWord → List Heading
headings [] = []
headings (a ∷ words) = map heading (build_segments_fallback a words)

abbrev pub IsAttribution : List Word → List Transmission → TranscriptionWords → Type 0
IsAttribution words txs r =
    (map spoken r.words ≡ map spoken_word words)
    × UnitsOf txs r.words
    × (map heading r.segments ≡ headings r.words)

attribute-NoUnits : (words : List Word) → NoUnits (attribute words [])
unfolding attribute
attribute-NoUnits [] = tt
attribute-NoUnits (w ∷ words) = (refl, refl, attribute-NoUnits words)

attribute-UnitsOf :
    (words : List Word) (txs : List Transmission) → UnitsOf txs (attribute words txs)
attribute-UnitsOf words [] = attribute-NoUnits words
attribute-UnitsOf words (tx ∷ txs) = attribute-AllUnits words tx txs

build_segments-headings :
    (to_lower : Text → Text) (words : List AttributedWord) (full_text : Text)
    → length (to_lower full_text) ≡ length full_text
    → (segments : List Segment) × (build_segments to_lower words full_text ≡ some segments)
      × (map heading segments ≡ headings words)
unfolding build_segments
build_segments-headings to_lower [] full_text keeps = ([], refl, refl)
build_segments-headings to_lower (a ∷ words) [] keeps =
    (build_segments_fallback a words, refl, refl)
build_segments-headings to_lower (a ∷ words) (c ∷ text) keeps =
    let (segments, e, cut) = build_segments-Cut to_lower a words c text keeps in
    (segments, e, cut.0)

UnitsOf-nil : (txs : List Transmission) → UnitsOf txs []
UnitsOf-nil [] = tt
UnitsOf-nil (tx ∷ txs) = tt

-- Where `strings.ToLower` keeps the length of the full text, AttributeWords gives a result. Its words are
-- those of the provider, in order, with their texts, times and speakers; each has the unit and the tag
-- of one of the transmissions, or unit 0 and no tag where there is none; and its segments are, but for
-- their texts, those of `buildSegmentsFallback` for these words.
pub attribute_words-IsAttribution :
    (to_lower : Text → Text) (words : List Word) (txs : List Transmission) (full_text : Text)
    → length (to_lower full_text) ≡ length full_text
    → (r : TranscriptionWords) × (attribute_words to_lower words txs full_text ≡ some r)
      × IsAttribution words txs r
unfolding attribute_words
attribute_words-IsAttribution to_lower [] txs full_text keeps =
    (record { words = []; segments = [] }, refl, (refl, UnitsOf-nil txs, refl))
attribute_words-IsAttribution to_lower (w ∷ words) txs full_text keeps =
    let found = attribute (w ∷ words) txs in
    let (segments, e, h) = build_segments-headings to_lower found full_text keeps in
    (
      record { words = found; segments = segments },
      rw e refl,
      (spoken-attribute (w ∷ words) txs, attribute-UnitsOf (w ∷ words) txs, h),
    )
