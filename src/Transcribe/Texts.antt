-- ===== src/Transcribe/Texts.antt =====
-- The segments of `buildSegments`: those of `buildSegmentsFallback` but for their texts, which are the
-- full text from the first word on, cut up.
use tr_engine.Common.{
  ℕ, suc, ◌+◌, ◌-◌, ◌≤◌, ◌<◌, some, List, [], ◌∷◌, ◌++◌, ◌≡◌, inl, inr, refl, sym, ap, ◌∙◌, Text,
  if◌then◌else◌, ◌==◌, nat_comparable, text_comparable, map, arith, Bool-cases, if_cases, length,
  get_elem?, take, drop, subst,
}
use mathlib.Core.Option.{some-injective}
use tr_engine.Common.Slices.{slice-some, take-drop-append}
use tr_engine.Common.Trim.{trim_space}
use tr_engine.Transcribe.{
  AttributedWord, Segment, open_segment, add_word, segments_from, build_segments_fallback,
}
use tr_engine.Transcribe.FullText.{
  map_word_positions, Group, open_group, grow, groups_from, text_end, segment_of, segments_of,
  build_segments,
}
use tr_engine.Transcribe.Cuts.{
  Ascending, get_elem?-inside, get_elem?-Ascending, get_elem?-order, positions_from-Ascending,
}

-- A segment without its text.
pub record Heading : Type 0 where
  pub src : ℕ
  pub src_tag : Text
  pub speaker : Text
  pub start : ℕ
  pub finish : ℕ

abbrev pub heading : Segment → Heading
heading s = record {
  src = s.src;
  src_tag = s.src_tag;
  speaker = s.speaker;
  start = s.start;
  finish = s.finish;
}

abbrev group_heading : Group → Heading
group_heading g = record {
  src = g.src;
  src_tag = g.src_tag;
  speaker = g.speaker;
  start = g.start;
  finish = g.finish;
}

abbrev grow_heading : AttributedWord → Heading → Heading
grow_heading w h = record h {
  finish = w.finish;
  speaker = if w.speaker == h.speaker then h.speaker else [];
}

-- Both loops make the same groups.
groups_from-heading :
    (i : ℕ) (g : Group) (cur : Segment) (words : List AttributedWord)
    → group_heading g ≡ heading cur
    → map group_heading (groups_from i g words) ≡ map heading (segments_from cur words)
unfolding groups_from segments_from
groups_from-heading i g cur [] e = ap (λ h. h ∷ []) e
groups_from-heading i g cur (w ∷ words) e =
    let same =
      groups_from-heading (suc i) (grow w i g) (add_word w cur) words (ap (grow_heading w) e) in
    let next =
      ap (◌∷◌ (group_heading g))
        (groups_from-heading (suc i) (open_group w i) (open_segment w) words refl)
      ∙ ap (λ h. h ∷ map heading (segments_from (open_segment w) words)) e in
    let src : g.src ≡ cur.src = ap (λ h. h.src) e in
    elim (Bool-cases (w.src == g.src)) [
      | inl t ↦ rw (t, ap (λ n. w.src == n) (sym src) ∙ t) same
      | inr t ↦ rw (t, ap (λ n. w.src == n) (sym src) ∙ t) next
    ]

-- The first words of the groups stand in order, below a bound.
abbrev Indexed : ℕ → ℕ → List Group → Type 0
Indexed low size [] = Unit {0}
Indexed low size (g ∷ groups) =
    (low ≤ g.first_idx) × (g.first_idx < size) × Indexed g.first_idx size groups

groups_from-Indexed :
    (low size i : ℕ) (g : Group) (words : List AttributedWord)
    → low ≤ g.first_idx
    → g.first_idx < i
    → i + length words ≡ size
    → Indexed low size (groups_from i g words)
unfolding groups_from
groups_from-Indexed low size i g [] l h e = (l, omega arith, tt)
groups_from-Indexed low size i g (w ∷ words) l h e =
    if_cases (Indexed low size) (w.src == g.src) _ _
      (λ t. groups_from-Indexed low size (suc i) (grow w i g) words l (omega arith) (omega arith))
      (λ t. (
        l,
        omega arith,
        groups_from-Indexed g.first_idx size (suc i) (open_group w i) words (omega arith)
            (omega arith) (omega arith),
      ))

abbrev pub joined_texts : List Text → Text
joined_texts [] = []
joined_texts (t ∷ texts) = t ++ joined_texts texts

-- The full text from here on, cut into the texts of the segments before they are trimmed.
abbrev pub CutFrom : Text → ℕ → List Segment → Type 0
CutFrom full_text from segments =
    (cuts : List Text) × (map (λ (s : Segment). s.text) segments ≡ map trim_space cuts)
    × (joined_texts cuts ≡ drop from full_text)

drop-length : (t : Text) → drop (length t) t ≡ []
drop-length [] = refl
drop-length (c ∷ t) = drop-length t

module _ (positions : List ℕ) (full_text : Text)
    (a : Ascending 0 (length full_text) positions) where
  abbrev FirstAt : List Group → ℕ → Type 0
  FirstAt groups p = text_end positions full_text groups ≡ some p

  -- The end of a group's text is there, behind its beginning and within the text.
  text_end-some :
      (low : ℕ) (groups : List Group) (p : ℕ)
      → get_elem? positions low ≡ some p
      → Indexed low (length positions) groups
      → (q : ℕ) × FirstAt groups q × (p ≤ q) × (q ≤ length full_text)
  text_end-some low [] p e i =
      (length full_text, refl, (get_elem?-Ascending 0 _ positions low p a e).1, omega arith)
  text_end-some low (g ∷ groups) p e i =
      let (q, f) = get_elem?-inside positions g.first_idx i.1 in
      (
        q,
        f,
        get_elem?-order 0 _ positions low g.first_idx p q a i.0 e f,
        (get_elem?-Ascending 0 _ positions g.first_idx q a f).1,
      )

  segments_of-CutFrom :
      (low : ℕ) (groups : List Group) (p : ℕ)
      → Indexed low (length positions) groups
      → FirstAt groups p
      → (segments : List Segment) × (segments_of positions full_text groups ≡ some segments)
        × (map heading segments ≡ map group_heading groups)
        × CutFrom full_text p segments
  unfolding segments_of
  segments_of-CutFrom low [] p i e = (
    [],
    refl,
    refl,
    (
      [],
      refl,
      sym (ap (λ n. drop n full_text) (sym (some-injective _ _ e)) ∙ drop-length full_text),
    ),
  )
  segments_of-CutFrom low (g ∷ groups) p i e =
      let (q, f, le, top) = text_end-some g.first_idx groups p e i.2 in
      let (rest, r, h, (cuts, t, j)) = segments_of-CutFrom g.first_idx groups q i.2 f in
      let text = take (q - p) (drop p full_text) in
      (
        segment_of g text ∷ rest,
        rw (e, f, slice-some p q full_text le top, r) refl,
        ap (◌∷◌ (group_heading g)) h,
        (
          text ∷ cuts,
          ap (◌∷◌ (trim_space text)) t,
          ap (λ x. text ++ x) j ∙ take-drop-append p q full_text le,
        ),
      )

groups_from-FirstAt :
    (positions : List ℕ) (full_text : Text) (i : ℕ) (g : Group) (words : List AttributedWord)
    (p : ℕ)
    → get_elem? positions g.first_idx ≡ some p
    → text_end positions full_text (groups_from i g words) ≡ some p
unfolding groups_from
groups_from-FirstAt positions full_text i g [] p e = e
groups_from-FirstAt positions full_text i g (w ∷ words) p e =
    if_cases (λ gs. text_end positions full_text gs ≡ some p) (w.src == g.src) _ _
      (λ t. groups_from-FirstAt positions full_text (suc i) (grow w i g) words p e) (λ t. e)

-- What `buildSegments` makes: the segments of the fallback but for their texts, and texts that are the
-- full text from some position on, cut up and trimmed.
abbrev pub Cut : AttributedWord → List AttributedWord → Text → List Segment → Type 0
Cut w words full_text segments =
    (map heading segments ≡ map heading (build_segments_fallback w words))
    × ((from : ℕ) × CutFrom full_text from segments)

-- Where `strings.ToLower` keeps the length of the full text, `buildSegments` does not panic. It makes,
-- for any words, the segments that `buildSegmentsFallback` makes, but for their texts; those are the full
-- text from some position on, cut up and trimmed.
pub build_segments-Cut :
    (to_lower : Text → Text) (w : AttributedWord) (words : List AttributedWord) (c : ℕ)
    (text : Text)
    → length (to_lower (c ∷ text)) ≡ length (c ∷ text)
    → (segments : List Segment) × (build_segments to_lower (w ∷ words) (c ∷ text) ≡ some segments)
      × Cut w words (c ∷ text) segments
unfolding build_segments map_word_positions build_segments_fallback
build_segments-Cut to_lower w words c text keeps =
    let (positions, e, asc, n) =
      positions_from-Ascending to_lower (to_lower (c ∷ text)) 0 (w ∷ words) (omega arith) in
    let within : Ascending 0 (length (c ∷ text)) positions =
      subst (λ m. Ascending 0 m positions) keeps asc in
    let (p, f) = get_elem?-inside positions 0 (omega (arith, n)) in
    let groups = groups_from 1 (open_group w 0) words in
    let fits =
      groups_from-Indexed 0 (length positions) 1 (open_group w 0) words (omega arith) (omega arith)
        (omega (arith, n)) in
    let (segments, s, h, cut) =
      segments_of-CutFrom positions (c ∷ text) within 0 groups p fits
        (groups_from-FirstAt positions (c ∷ text) 1 (open_group w 0) words p f) in
    (
      segments,
      rw (e, s) refl,
      (h ∙ groups_from-heading 1 (open_group w 0) (open_segment w) words refl, (p, cut)),
    )
