-- ===== src/Transcribe/Attributed.antt =====
-- AttributeWords: each word keeps its text, its times and its speaker, and its unit is one of the
-- transmissions'.
use tr_engine.Common.{
  ℕ, ◌&&◌, not, List, [], ◌∷◌, ◌++◌, ◌≡◌, ◌≢◌, inl, inr, refl, sym, ap, ◌∙◌, subst, Text,
  if◌then◌else◌, ltb, ◌==◌, nat_comparable, map, arith, if_cases,
}
use mathlib.Core.List.{append-nil, append_assoc, map-append}
use tr_engine.Common.Map.{lookup}
use tr_engine.Transcribe.{
  Transmission, AttributedWord, Overlaps, no_overlaps, find_transmission, sum_of, overlaps,
  snap_word, snap_utterance,
}
use tr_engine.Transcribe.Boundary.{fix_boundary_words}
use tr_engine.Transcribe.Attribution.{
  Word, attributed, snap_group, snap_from, zip, snap_pairs, snap_utterances, attribute,
}
use tr_engine.Transcribe.Units.{IsUnit, BestIsUnit, find_transmission-IsUnit, overlaps-BestIsUnit}
use tr_engine.Transcribe.Moves.{
  AllUnits, AllUnits-append, map-fix_boundary_words, fix_boundary_words-AllUnits,
}

-- What a word says, when, and who the diarization says speaks.
pub record Spoken : Type 0 where
  pub word : Text
  pub start : ℕ
  pub finish : ℕ
  pub speaker : Text

abbrev pub spoken : AttributedWord → Spoken
spoken a = record { word = a.word; start = a.start; finish = a.finish; speaker = a.speaker }

abbrev pub spoken_word : Word → Spoken
spoken_word w = record { word = w.word; start = w.start; finish = w.finish; speaker = w.speaker }

spoken-snap_word : (n : ℕ) (b : Overlaps) (a : AttributedWord) → spoken (snap_word n b a) ≡ spoken a
unfolding snap_word
spoken-snap_word n b a =
    if_cases (λ x. spoken x ≡ spoken a)
      (not (a.src == b.best_src) && ltb (sum_of (lookup a.src b.overlap)) n) _ _ (λ h. refl)
      (λ h. refl)

spoken-snap_words :
    (n : ℕ) (b : Overlaps) (own : List AttributedWord)
    → map spoken (map (snap_word n b) own) ≡ map spoken own
spoken-snap_words n b [] = refl
spoken-snap_words n b (a ∷ own) =
    ap (◌∷◌ (spoken (snap_word n b a))) (spoken-snap_words n b own)
    ∙ ap (λ x. x ∷ map spoken own) (spoken-snap_word n b a)

spoken-snap_group :
    (txs : List Transmission) (u start finish : ℕ) (own : List AttributedWord)
    → map spoken (snap_group txs u start finish own) ≡ map spoken own
unfolding snap_group snap_utterance
spoken-snap_group txs u start finish own =
    let b = overlaps start finish txs no_overlaps in
    if_cases (λ ws. map spoken ws ≡ map spoken own) (u == 0) _ _ (λ h. refl)
      (λ h.
        if_cases (λ ws. map spoken ws ≡ map spoken own) (b.best_overlap == 0) _ _ (λ e. refl)
          (λ e. spoken-snap_words 500 b own))

abbrev second : Word × AttributedWord → AttributedWord
second p = p.1

spoken-snap_from :
    (txs : List Transmission) (u start finish : ℕ) (own : List AttributedWord)
    (rest : List (Word × AttributedWord))
    → map spoken (snap_from txs u start finish own rest)
      ≡ map spoken own ++ map spoken (map second rest)
unfolding snap_from
spoken-snap_from txs u start finish own [] =
    spoken-snap_group txs u start finish own ∙ sym (append-nil (map spoken own))
spoken-snap_from txs u start finish own ((w, a) ∷ rest) =
    if_cases (λ ws. map spoken ws ≡ map spoken own ++ spoken a ∷ map spoken (map second rest))
      (not (u == 0) && w.utterance == u) _ _
      (λ h.
        spoken-snap_from txs u start w.finish (own ++ a ∷ []) rest
        ∙ ap (λ x. x ++ later) (map-append spoken own (a ∷ []))
        ∙ append_assoc (map spoken own) (spoken a ∷ []) later)
      (λ h.
        map-append spoken (snap_group txs u start finish own)
          (snap_from txs w.utterance w.start w.finish (a ∷ []) rest)
        ∙ ap (λ x. x ++ map spoken (snap_from txs w.utterance w.start w.finish (a ∷ []) rest))
            (spoken-snap_group txs u start finish own)
        ∙ ap (λ x. map spoken own ++ x)
            (spoken-snap_from txs w.utterance w.start w.finish (a ∷ []) rest))
  where
    later : List Spoken
    later = map spoken (map second rest)

tail_spoken : List Spoken → List Spoken
tail_spoken [] = []
tail_spoken (s ∷ rest) = rest

nil_cons : {s : Spoken} {rest : List Spoken} → ◌≢◌ {A = List Spoken} [] (s ∷ rest)
nil_cons e = ground (arith, e)

second-zip :
    (words : List Word) (found : List AttributedWord)
    → map spoken found ≡ map spoken_word words
    → map second (zip words found) ≡ found
unfolding tail_spoken
second-zip [] [] e = refl
second-zip [] (a ∷ found) e = absurd (nil_cons (sym e))
second-zip (w ∷ words) [] e = absurd (nil_cons e)
second-zip (w ∷ words) (a ∷ found) e = ap (◌∷◌ a) (second-zip words found (ap tail_spoken e))

spoken-snap_utterances :
    (words : List Word) (found : List AttributedWord) (txs : List Transmission)
    → map spoken found ≡ map spoken_word words
    → map spoken (snap_utterances words found txs) ≡ map spoken_word words
unfolding snap_utterances
spoken-snap_utterances words found txs e =
    pairs (zip words found) ∙ ap (map spoken) (second-zip words found e) ∙ e
  where
    pairs :
        (ps : List (Word × AttributedWord))
        → map spoken (snap_pairs txs ps) ≡ map spoken (map second ps)
    pairs [] = refl
    pairs ((w, a) ∷ rest) = spoken-snap_from txs w.utterance w.start w.finish (a ∷ []) rest

spoken-attributed :
    (f : Word → ℕ × Text) (words : List Word)
    → map spoken (map (λ w. attributed w (f w)) words) ≡ map spoken_word words
spoken-attributed f [] = refl
spoken-attributed f (w ∷ words) = ap (◌∷◌ (spoken_word w)) (spoken-attributed f words)

pub spoken-attribute :
    (words : List Word) (txs : List Transmission)
    → map spoken (attribute words txs) ≡ map spoken_word words
unfolding attribute
spoken-attribute words [] = spoken-attributed (λ w. (0, [])) words
spoken-attribute words (tx ∷ txs) =
    let first = map (λ w. attributed w (find_transmission w.start tx txs)) words in
    spoken-snap_utterances words (fix_boundary_words first (tx ∷ txs)) (tx ∷ txs) (
      map-fix_boundary_words spoken (tx ∷ txs) (λ next w later h. refl) first
      ∙ spoken-attributed (λ w. find_transmission w.start tx txs) words)

module _ (txs : List Transmission) where
  snap_words-AllUnits :
      (n : ℕ) (b : Overlaps) (own : List AttributedWord)
      → IsUnit txs b.best_src b.best_tag
      → AllUnits txs own
      → AllUnits txs (map (snap_word n b) own)
  unfolding snap_word
  snap_words-AllUnits n b [] u h = tt
  snap_words-AllUnits n b (a ∷ own) u h = (
    if_cases (λ (x : AttributedWord). IsUnit txs x.src x.src_tag)
        (not (a.src == b.best_src) && ltb (sum_of (lookup a.src b.overlap)) n) _ _ (λ e. u)
        (λ e. h.0),
    snap_words-AllUnits n b own u h.1,
  )

  snap_best-AllUnits :
      (b : Overlaps) (own : List AttributedWord)
      → BestIsUnit txs b
      → AllUnits txs own
      → AllUnits txs (if b.best_overlap == 0 then own else map (snap_word 500 b) own)
  snap_best-AllUnits b own best h =
      if_cases (AllUnits txs) (b.best_overlap == 0) _ _ (λ z. h)
        (λ z. elim best [
          | inl none_yet ↦ absurd (ground (arith, z, none_yet))
          | inr u ↦ snap_words-AllUnits 500 b own u h
        ])

  snap_group-AllUnits :
      (u start finish : ℕ) (own : List AttributedWord)
      → AllUnits txs own
      → AllUnits txs (snap_group txs u start finish own)
  unfolding snap_group snap_utterance
  snap_group-AllUnits u start finish own h =
      if_cases (AllUnits txs) (u == 0) _ _ (λ e. h)
        (λ e.
          snap_best-AllUnits (overlaps start finish txs no_overlaps) own
            (overlaps-BestIsUnit txs start finish txs no_overlaps (λ s tag i. i) (inl refl)) h)

  snap_from-AllUnits :
      (u start finish : ℕ) (own : List AttributedWord) (rest : List (Word × AttributedWord))
      → AllUnits txs own
      → AllUnits txs (map second rest)
      → AllUnits txs (snap_from txs u start finish own rest)
  unfolding snap_from
  snap_from-AllUnits u start finish own [] h k = snap_group-AllUnits u start finish own h
  snap_from-AllUnits u start finish own ((w, a) ∷ rest) h k =
      if_cases (AllUnits txs) (not (u == 0) && w.utterance == u) _ _
        (λ e.
          snap_from-AllUnits u start w.finish (own ++ a ∷ []) rest
            (AllUnits-append txs own (a ∷ []) h (k.0, tt)) k.1)
        (λ e.
          AllUnits-append txs _ _ (snap_group-AllUnits u start finish own h)
            (snap_from-AllUnits w.utterance w.start w.finish (a ∷ []) rest (k.0, tt) k.1))

  snap_pairs-AllUnits :
      (pairs : List (Word × AttributedWord))
      → AllUnits txs (map second pairs)
      → AllUnits txs (snap_pairs txs pairs)
  snap_pairs-AllUnits [] h = tt
  snap_pairs-AllUnits ((w, a) ∷ rest) h =
      snap_from-AllUnits w.utterance w.start w.finish (a ∷ []) rest (h.0, tt) h.1

  snap_utterances-AllUnits :
      (words : List Word) (found : List AttributedWord)
      → map spoken found ≡ map spoken_word words
      → AllUnits txs found
      → AllUnits txs (snap_utterances words found txs)
  unfolding snap_utterances
  snap_utterances-AllUnits words found e h =
      snap_pairs-AllUnits (zip words found)
        (subst (AllUnits txs) (sym (second-zip words found e)) h)

found-AllUnits :
    (tx : Transmission) (txs : List Transmission) (words : List Word)
    → AllUnits (tx ∷ txs) (map (λ w. attributed w (find_transmission w.start tx txs)) words)
found-AllUnits tx txs [] = tt
found-AllUnits tx txs (w ∷ words) =
    (find_transmission-IsUnit w.start tx txs, found-AllUnits tx txs words)

pub attribute-AllUnits :
    (words : List Word) (tx : Transmission) (txs : List Transmission)
    → AllUnits (tx ∷ txs) (attribute words (tx ∷ txs))
unfolding attribute
attribute-AllUnits words tx txs =
    let first = map (λ w. attributed w (find_transmission w.start tx txs)) words in
    snap_utterances-AllUnits (tx ∷ txs) words (fix_boundary_words first (tx ∷ txs))
      (map-fix_boundary_words spoken (tx ∷ txs) (λ next w later h. refl) first
        ∙ spoken-attributed (λ w. find_transmission w.start tx txs) words)
      (fix_boundary_words-AllUnits (tx ∷ txs) first (found-AllUnits tx txs words))
