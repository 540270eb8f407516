-- ===== src/Transcribe/Segments.antt =====
-- What the segments are: maximal runs of words of one unit, in order, none lost.
use tr_engine.Common.{
  ℕ, ◌≡◌, ◌≢◌, refl, sym, ap, ◌∙◌, subst, Bool, true, false, List, [], ◌∷◌, ◌++◌, Text,
  if◌then◌else◌, ◌==◌, ◌&&◌, nat_comparable, text_comparable, arith, Bool-cases, all_of, inl, inr,
}
use mathlib.Core.List.{append_assoc}
use tr_engine.Common.Trim.{trim_space}
use tr_engine.Transcribe.{
  AttributedWord, Segment, open_segment, add_word, closed, segments_from, build_segments_fallback,
}

-- The trimmed words, one blank between two.
abbrev pub joined : Text → List AttributedWord → Text
joined s [] = s
joined s (w ∷ words) = joined (s ++ 32 ∷ trim_space w.word) words

abbrev pub last_finish : ℕ → List AttributedWord → ℕ
last_finish n [] = n
last_finish n (w ∷ words) = last_finish w.finish words

abbrev pub same_src : ℕ → AttributedWord → Bool
same_src n w = w.src == n

abbrev pub same_speaker : Text → AttributedWord → Bool
same_speaker s w = w.speaker == s

-- The segment of a first word and the words after it, before its text is trimmed.
abbrev pub Spans : Segment → AttributedWord → List AttributedWord → Type 0
Spans s w words =
    (all_of (same_src w.src) words ≡ true)
    × (s.src ≡ w.src)
    × (s.src_tag ≡ w.src_tag)
    × (s.start ≡ w.start)
    × (s.finish ≡ last_finish w.finish words)
    × (s.speaker ≡ (if all_of (same_speaker w.speaker) words then w.speaker else []))
    × (s.text ≡ joined (trim_space w.word) words)

abbrev pub Apart : ℕ → List Segment → Type 0
Apart n [] = Unit {0}
Apart n (s ∷ segments) = n ≢ s.src

-- The segments, one after the other, make up the words.
abbrev pub Covers : List Segment → List AttributedWord → Type 0
Covers [] words = words ≡ []
Covers (s ∷ segments) words =
    (cur : Segment) × (w : AttributedWord) × (own : List AttributedWord) × (rest : List
      AttributedWord)
    × (s ≡ closed cur)
    × Spans cur w own
    × Apart s.src segments
    × (words ≡ (w ∷ own) ++ rest)
    × Covers segments rest

joined-append :
    (s : Text) (words : List AttributedWord) (w : AttributedWord)
    → joined s (words ++ w ∷ []) ≡ joined s words ++ 32 ∷ trim_space w.word
joined-append s [] w = refl
joined-append s (v ∷ words) w = joined-append (s ++ 32 ∷ trim_space v.word) words w

last_finish-append :
    (n : ℕ) (words : List AttributedWord) (w : AttributedWord)
    → last_finish n (words ++ w ∷ []) ≡ w.finish
last_finish-append n [] w = refl
last_finish-append n (v ∷ words) w = last_finish-append v.finish words w

all_of-append :
    (p : AttributedWord → Bool) (words : List AttributedWord) (w : AttributedWord)
    → all_of p (words ++ w ∷ []) ≡ (all_of p words && p w)
all_of-append p [] w = ground arith
all_of-append p (v ∷ words) w = ground (arith, all_of-append p words w)

empty_either : (b : Bool) → ◌≡◌ {A = Text} (if b then [] else []) []
empty_either true = refl
empty_either false = refl

speaker_after :
    (s : Text) (words : List AttributedWord) (w : AttributedWord)
    → (if w.speaker == (if all_of (same_speaker s) words then s else [])
        then (if all_of (same_speaker s) words then s else [])
        else [])
      ≡ (if all_of (same_speaker s) (words ++ w ∷ []) then s else [])
speaker_after s words w = elim (Bool-cases (all_of (same_speaker s) words)) [
  | inl e ↦ rw (all_of-append (same_speaker s) words w, e) refl
  | inr e ↦ rw (all_of-append (same_speaker s) words w, e) (empty_either (w.speaker == []))
]

Spans-add :
    (cur : Segment) (w : AttributedWord) (own : List AttributedWord) (v : AttributedWord)
    → Spans cur w own
    → v.src ≡ cur.src
    → Spans (add_word v cur) w (own ++ v ∷ [])
Spans-add cur w own v (all, src, tag, start, finish, speaker, text) same = (
  all_of-append (same_src w.src) own v ∙ ground (arith, all, same, src),
  src,
  tag,
  start,
  sym (last_finish-append w.finish own v),
  ap (λ s. if v.speaker == s then s else []) speaker ∙ speaker_after w.speaker own v,
  ap (λ t. t ++ 32 ∷ trim_space v.word) text ∙ sym (joined-append (trim_space w.word) own v),
)

segments_from-Apart :
    (n : ℕ) (cur : Segment) (words : List AttributedWord)
    → n ≢ cur.src
    → Apart n (segments_from cur words)
unfolding segments_from
segments_from-Apart n cur [] d = d
segments_from-Apart n cur (v ∷ words) d = elim (Bool-cases (v.src == cur.src)) [
  | inl e ↦ rw e (segments_from-Apart n (add_word v cur) words d)
  | inr e ↦ rw e d
]

segments_from-Covers :
    (cur : Segment) (w : AttributedWord) (own words : List AttributedWord)
    → Spans cur w own
    → Covers (segments_from cur words) ((w ∷ own) ++ words)
unfolding segments_from
segments_from-Covers cur w own [] s = (cur, w, own, [], refl, s, tt, refl, refl)
segments_from-Covers cur w own (v ∷ words) s = elim (Bool-cases (v.src == cur.src)) [
  | inl e ↦ rw e (
      subst (Covers (segments_from (add_word v cur) words)) (append_assoc (w ∷ own) (v ∷ []) words)
        (segments_from-Covers (add_word v cur) w (own ++ v ∷ []) words
          (Spans-add cur w own v s (ground (arith, e)))))
  | inr e ↦ rw e (
    cur,
    w,
    own,
    v ∷ words,
    refl,
    s,
    segments_from-Apart cur.src (open_segment v) words (λ same. ground (arith, e, same)),
    refl,
    segments_from-Covers (open_segment v) v [] words (refl, refl, refl, refl, refl, refl, refl),
  )
]

-- For the words of a transcription: the segments are, in order, the maximal runs of words of one
-- unit. Each has its unit and tag of its first word, starts with the first and ends with the last
-- word, has the words trimmed and joined by blanks as its text, and has the speaker of its words if
-- all have the same one; two segments in a row are of different units, and no word is left out or
-- taken twice.
pub build_segments_fallback-Covers :
    (w : AttributedWord) (words : List AttributedWord)
    → Covers (build_segments_fallback w words) (w ∷ words)
unfolding build_segments_fallback
build_segments_fallback-Covers w words =
    segments_from-Covers (open_segment w) w [] words (refl, refl, refl, refl, refl, refl, refl)
