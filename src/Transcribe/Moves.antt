-- ===== src/Transcribe/Moves.antt =====
-- What `fixBoundaryWords` leaves as it is, and the units that it gives.
use tr_engine.Common.{
  ℕ, ◌-◌, Bool, true, ◌&&◌, ◌||◌, Option, none, some, List, [], ◌∷◌, ◌++◌, ◌≡◌, refl, ap, ◌∙◌,
  if◌then◌else◌, ltb, nat_comparable, map, arith, if_cases, length,
}
use mathlib.Core.List.{append-nil}
use tr_engine.Transcribe.{Transmission, AttributedWord, find_containing}
use tr_engine.Transcribe.Boundary.{
  moves, move_to, walk_back, is_gap, is_brief_near_end, fix_gap, fix_from, back_onto,
  fix_boundary_words,
}
use tr_engine.Transcribe.Units.{IsUnit}

abbrev pub AllUnits : List Transmission → List AttributedWord → Type 0
AllUnits txs [] = Unit {0}
AllUnits txs (a ∷ words) = IsUnit txs a.src a.src_tag × AllUnits txs words

pub AllUnits-append :
    (txs : List Transmission) (xs ys : List AttributedWord)
    → AllUnits txs xs
    → AllUnits txs ys
    → AllUnits txs (xs ++ ys)
AllUnits-append txs [] ys h k = k
AllUnits-append txs (x ∷ xs) ys h k = (h.0, AllUnits-append txs xs ys h.1 k)

back_onto-back_onto {ℓ} :
    {B : Type ℓ} (xs ys zs : List B) → back_onto (back_onto xs ys) zs ≡ back_onto ys (xs ++ zs)
unfolding back_onto
back_onto-back_onto [] ys zs = refl
back_onto-back_onto (x ∷ xs) ys zs = back_onto-back_onto xs (x ∷ ys) zs

back_onto-twice {ℓ} : {B : Type ℓ} (xs : List B) → back_onto (back_onto xs []) [] ≡ xs
unfolding back_onto
back_onto-twice xs = back_onto-back_onto xs [] [] ∙ append-nil xs

module _ {ℓ} {B : Type ℓ} (f : AttributedWord → B) (txs : List Transmission) where
  -- A view of the words that no move changes.
  abbrev pub Blind : Type ℓ
  Blind =
      (next w : AttributedWord) (later : Option ℕ)
      → moves next later txs w ≡ true
      → f (move_to next w) ≡ f w

  map-back_onto :
      (xs ys : List AttributedWord) → map f (back_onto xs ys) ≡ back_onto (map f xs) (map f ys)
  unfolding back_onto
  map-back_onto [] ys = refl
  map-back_onto (x ∷ xs) ys = map-back_onto xs (x ∷ ys)

  module _ (blind : Blind) where
    map-walk_back :
        (next : AttributedWord) (later : Option ℕ) (behind : List AttributedWord)
        → map f (walk_back next later txs behind) ≡ map f behind
    unfolding walk_back
    map-walk_back next later [] = refl
    map-walk_back next later (w ∷ behind) =
        if_cases (λ ws. map f ws ≡ f w ∷ map f behind) (moves next later txs w) _ _
          (λ h.
            ap (◌∷◌ (f (move_to next w))) (map-walk_back next (some w.start) behind)
            ∙ ap (λ x. x ∷ map f behind) (blind next w later h))
          (λ h. refl)

    map-fix_gap :
        (next : AttributedWord) (behind : List AttributedWord)
        → map f (fix_gap txs next behind) ≡ map f behind
    map-fix_gap next [] = refl
    map-fix_gap next (w ∷ behind) =
        if_cases (λ ws. map f ws ≡ f w ∷ map f behind) (is_gap w next) _ _
          (λ h. map-walk_back next none (w ∷ behind)) (λ h. refl)

    map-fix_from :
        (behind words : List AttributedWord)
        → map f (fix_from txs behind words) ≡ back_onto (map f words) (map f behind)
    unfolding fix_from back_onto
    map-fix_from behind [] = refl
    map-fix_from behind (next ∷ rest) =
        map-fix_from (next ∷ fix_gap txs next behind) rest
        ∙ ap (λ b. back_onto (map f rest) (f next ∷ b)) (map-fix_gap next behind)

    pub map-fix_boundary_words :
        (words : List AttributedWord) → map f (fix_boundary_words words txs) ≡ map f words
    unfolding fix_boundary_words
    map-fix_boundary_words words =
        if_cases (λ ws. map f ws ≡ map f words) (ltb (length words) 2 || ltb (length txs) 2) _ _
          (λ h. refl)
          (λ h.
            map-back_onto (fix_from txs [] words) []
            ∙ ap (λ xs. back_onto xs []) (map-fix_from [] words)
            ∙ back_onto-twice (map f words))

module _ (txs : List Transmission) where
  walk_back-AllUnits :
      (next : AttributedWord) (later : Option ℕ) (behind : List AttributedWord)
      → IsUnit txs next.src next.src_tag
      → AllUnits txs behind
      → AllUnits txs (walk_back next later txs behind)
  unfolding walk_back
  walk_back-AllUnits next later [] u h = tt
  walk_back-AllUnits next later (w ∷ behind) u h =
      if_cases (AllUnits txs) (moves next later txs w) _ _
        (λ m. (u, walk_back-AllUnits next (some w.start) behind u h.1)) (λ m. h)

  fix_gap-AllUnits :
      (next : AttributedWord) (behind : List AttributedWord)
      → IsUnit txs next.src next.src_tag
      → AllUnits txs behind
      → AllUnits txs (fix_gap txs next behind)
  fix_gap-AllUnits next [] u h = tt
  fix_gap-AllUnits next (w ∷ behind) u h =
      if_cases (AllUnits txs) (is_gap w next) _ _
        (λ g. walk_back-AllUnits next none (w ∷ behind) u h) (λ g. h)

  fix_from-AllUnits :
      (behind words : List AttributedWord)
      → AllUnits txs behind
      → AllUnits txs words
      → AllUnits txs (fix_from txs behind words)
  unfolding fix_from
  fix_from-AllUnits behind [] h k = h
  fix_from-AllUnits behind (next ∷ rest) h k =
      fix_from-AllUnits (next ∷ fix_gap txs next behind) rest
        (k.0, fix_gap-AllUnits next behind k.0 h) k.1

  back_onto-AllUnits :
      (behind words : List AttributedWord)
      → AllUnits txs behind
      → AllUnits txs words
      → AllUnits txs (back_onto behind words)
  unfolding back_onto
  back_onto-AllUnits [] words h k = k
  back_onto-AllUnits (w ∷ behind) words h k = back_onto-AllUnits behind (w ∷ words) h.1 (h.0, k)

  pub fix_boundary_words-AllUnits :
      (words : List AttributedWord)
      → AllUnits txs words
      → AllUnits txs (fix_boundary_words words txs)
  unfolding fix_boundary_words
  fix_boundary_words-AllUnits words h =
      if_cases (AllUnits txs) (ltb (length words) 2 || ltb (length txs) 2) _ _ (λ e. h)
        (λ e. back_onto-AllUnits (fix_from txs [] words) [] (fix_from-AllUnits [] words tt h) tt)

-- A word of 50 ms or more, which no move takes.
abbrev pub long_word : AttributedWord → Option AttributedWord
long_word w = if ltb (w.finish - w.start) 50 then none else some w

is_brief :
    (w : AttributedWord) (o : Option Transmission)
    → is_brief_near_end w o ≡ true
    → ltb (w.finish - w.start) 50 ≡ true
unfolding is_brief_near_end
is_brief w none h = absurd (ground (arith, h))
is_brief w (some tx) h = left _ _ h
  where
    left : (x y : Bool) → (x && y) ≡ true → x ≡ true
    left x y e = ground (arith, e)

long_word-Blind : (txs : List Transmission) → Blind long_word txs
long_word-Blind txs next w later h =
    let brief : ltb (w.finish - w.start) 50 ≡ true =
      is_brief w (find_containing w.start txs) (middle _ _ _ h) in
    rw brief refl
  where
    middle : (x y z : Bool) → (x && y && z) ≡ true → y ≡ true
    middle x y z e = ground (arith, e)

-- What `fixBoundaryWords` may change: no word of 50 ms or more is touched, and every word keeps its
-- text, its times and its speaker.
pub fix_boundary_words-long :
    (words : List AttributedWord) (txs : List Transmission)
    → map long_word (fix_boundary_words words txs) ≡ map long_word words
fix_boundary_words-long words txs = map-fix_boundary_words long_word txs (long_word-Blind txs) words
