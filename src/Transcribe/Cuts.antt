-- ===== src/Transcribe/Cuts.antt =====
-- The positions of `mapWordPositions`: in order, and within the text in lower case.
use tr_engine.Common.{
  ℕ, zero, suc, ◌+◌, ◌-◌, ◌≤◌, ◌<◌, Option, none, some, List, [], ◌∷◌, ◌≡◌, refl, ap, Text,
  nat_comparable, text_comparable, arith, length, get_elem?, take, drop, length-take, length-drop,
}
use mathlib.Core.Option.{some-injective}
use tr_engine.Common.Slices.{index, slice-some, index-some}
use tr_engine.Common.Trim.{trim_space}
use tr_engine.Transcribe.{AttributedWord}
use tr_engine.Transcribe.FullText.{found_at, word_position, positions_from}

-- Positions in order, from the first bound to the second.
abbrev pub Ascending : ℕ → ℕ → List ℕ → Type 0
Ascending low high [] = low ≤ high
Ascending low high (p ∷ positions) = (low ≤ p) × Ascending p high positions

Ascending-weaken :
    (low mid high : ℕ) (positions : List ℕ)
    → low ≤ mid
    → Ascending mid high positions
    → Ascending low high positions
Ascending-weaken low mid high [] h a = omega arith
Ascending-weaken low mid high (p ∷ positions) h a = (omega (arith, a.0), a.1)

Ascending-low : (low high : ℕ) (positions : List ℕ) → Ascending low high positions → low ≤ high
Ascending-low low high [] a = a
Ascending-low low high (p ∷ positions) a =
    let rest = Ascending-low p high positions a.1 in omega (arith, a.0, rest)

pub get_elem?-inside :
    (positions : List ℕ) (i : ℕ) → i < length positions → (p : ℕ) × (get_elem? positions i ≡ some p)
get_elem?-inside [] i h = absurd (omega arith)
get_elem?-inside (p ∷ positions) zero h = (p, refl)
get_elem?-inside (p ∷ positions) (suc i) h = get_elem?-inside positions i (omega arith)

pub get_elem?-Ascending :
    (low high : ℕ) (positions : List ℕ) (i p : ℕ)
    → Ascending low high positions
    → get_elem? positions i ≡ some p
    → (low ≤ p) × (p ≤ high)
get_elem?-Ascending low high [] i p a e = absurd (ground (arith, e))
get_elem?-Ascending low high (q ∷ positions) zero p a e =
    let same = some-injective _ _ e in
    let top = Ascending-low q high positions a.1 in
    (omega (arith, same, a.0), omega (arith, same, top))
get_elem?-Ascending low high (q ∷ positions) (suc i) p a e =
    let (l, h) = get_elem?-Ascending q high positions i p a.1 e in (omega (arith, a.0, l), h)

pub get_elem?-order :
    (low high : ℕ) (positions : List ℕ) (i j p q : ℕ)
    → Ascending low high positions
    → i ≤ j
    → get_elem? positions i ≡ some p
    → get_elem? positions j ≡ some q
    → p ≤ q
get_elem?-order low high [] i j p q a h e f = absurd (ground (arith, e))
get_elem?-order low high (x ∷ positions) zero zero p q a h e f =
    let same = some-injective _ _ e in let also = some-injective _ _ f in omega (arith, same, also)
get_elem?-order low high (x ∷ positions) zero (suc j) p q a h e f =
    let same = some-injective _ _ e in
    let (l, t) = get_elem?-Ascending x high positions j q a.1 f in omega (arith, same, l)
get_elem?-order low high (x ∷ positions) (suc i) zero p q a h e f = absurd (omega arith)
get_elem?-order low high (x ∷ positions) (suc i) (suc j) p q a h e f =
    get_elem?-order x high positions i j p q a.1 (omega arith) e f

module _ (to_lower : Text → Text) where
  -- A word's position and the next search start lie behind the search start, within the text.
  abbrev Advances : ℕ → ℕ → ℕ × ℕ → Type 0
  Advances from high at = (from ≤ at.0) × (at.0 ≤ at.1) × (at.1 ≤ high)

  found_at-Advances :
      (from size high : ℕ) (o : Option ℕ)
      → from ≤ high
      → ((i : ℕ) → o ≡ some i → from + i + size ≤ high)
      → Advances from high (found_at to_lower from size o)
  found_at-Advances from size high none h k = (omega arith, omega arith, h)
  found_at-Advances from size high (some i) h k = (omega arith, omega arith, k i refl)

  word_position-some :
      (lower : Text) (from : ℕ) (w : AttributedWord)
      → from ≤ length lower
      → (at : ℕ × ℕ) × (word_position to_lower lower from w ≡ some at)
        × Advances from (length lower) at
  word_position-some lower from w h =
      let rest = take (length lower - from) (drop from lower) in
      let word = to_lower (trim_space w.word) in
      (
        found_at to_lower from (length word) (index rest word),
        rw (slice-some from (length lower) lower h (omega arith)) refl,
        found_at-Advances from (length word) (length lower) (index rest word) h (λ i e. omega (
          arith,
          index-some rest word i e,
          length-take (length lower - from) (drop from lower),
          length-drop from lower,
        )),
      )

  pub positions_from-Ascending :
      (lower : Text) (from : ℕ) (words : List AttributedWord)
      → from ≤ length lower
      → (positions : List ℕ) × (positions_from to_lower lower from words ≡ some positions)
        × Ascending from (length lower) positions
        × (length positions ≡ length words)
  unfolding positions_from
  positions_from-Ascending lower from [] h = ([], refl, h, refl)
  positions_from-Ascending lower from (w ∷ words) h =
      let (at, e, (low, mid, top)) = word_position-some lower from w h in
      let (later, f, a, n) = positions_from-Ascending lower at.1 words top in
      (
        at.0 ∷ later,
        rw (e, f) refl,
        (low, Ascending-weaken at.0 at.1 (length lower) later mid a),
        ap suc n,
      )
