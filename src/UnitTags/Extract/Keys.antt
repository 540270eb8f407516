-- ===== src/UnitTags/Extract/Keys.antt =====
-- The loops that step over a designator come to an end.
use tr_engine.Common.{
  ℕ, zero, suc, ◌+◌, ◌≤◌, ◌<◌, ◌≡◌, refl, sym, ap, ◌∙◌, subst, inl, inr, Bool, true, false, Option,
  none, some, List, [], ◌∷◌, Text, length, drop, length-drop, drop-drop, Option-cases, arith,
  nat_comparable, text_comparable, if◌then◌else◌,
}
use tr_engine.UnitTags.Words.{Unicode, trim_func, is_space_rune}
use tr_engine.UnitTags.Tokens.{Token, tokenize}
use tr_engine.UnitTags.Designators.{Designator, parse_designator_at}
use tr_engine.UnitTags.Designators.Bounds.{parse_designator_at-Fits}
use tr_engine.UnitTags.Extract.{
  among_keys, with_key, keys_from, designator_keys, any_key, matches_tag,
}

-- The key of a designator that stands in the tokens.
abbrev pub KeyIn : List Token → Text → Type 0
KeyIn toks key =
    (k : ℕ) × (d : Designator) × (parse_designator_at (drop k toks) ≡ some d) × (d.key ≡ key)

abbrev pub KeysIn : List Token → List Text → Type 0
KeysIn toks [] = Unit {0}
KeysIn toks (key ∷ keys) = KeyIn toks key × KeysIn toks keys

-- The loop ends, with no more keys than tokens, each of a designator that stands there.
abbrev Ends : List Token → ℕ → Option (List Text) → Type 0
Ends toks bound none = ⊥
Ends toks bound (some keys) = (length keys ≤ bound) × KeysIn toks keys

with_key-Ends :
    (toks : List Token) (key : Text) (less bound : ℕ) (r : Option (List Text))
    → less < bound
    → KeyIn toks key
    → Ends toks less r
    → Ends toks bound (with_key key r)
with_key-Ends toks key less bound none h p e = absurd e
with_key-Ends toks key less bound (some keys) h p e = (omega (arith, e.0), (p, e.1))

Ends-le :
    (toks : List Token) (less bound : ℕ) (r : Option (List Text))
    → less ≤ bound
    → Ends toks less r
    → Ends toks bound r
Ends-le toks less bound none h e = e
Ends-le toks less bound (some keys) h e = (omega (arith, e.0), e.1)

keys_from-none :
    (fuel : ℕ) (t : Token) (rest : List Token)
    → parse_designator_at (t ∷ rest) ≡ none
    → keys_from (suc fuel) (t ∷ rest) ≡ keys_from fuel rest
unfolding keys_from
keys_from-none fuel t rest p = rw (p, keys_from)

keys_from-some :
    (fuel : ℕ) (t : Token) (rest : List Token) (d : Designator)
    → parse_designator_at (t ∷ rest) ≡ some d
    → keys_from (suc fuel) (t ∷ rest) ≡ with_key d.key (keys_from fuel (drop d.n (t ∷ rest)))
unfolding keys_from
keys_from-some fuel t rest d p = rw (p, keys_from)

-- The loop at position `k` of all the tokens.
keys_from-Ends :
    (toks : List Token) (fuel k : ℕ) (here : List Token)
    → here ≡ drop k toks
    → length here < fuel
    → Ends toks (length here) (keys_from fuel here)
unfolding keys_from
keys_from-Ends toks zero k here e h = absurd (omega arith)
keys_from-Ends toks (suc fuel) k [] e h = (omega arith, tt)
keys_from-Ends toks (suc fuel) k (t ∷ rest) e h =
    elim (Option-cases (parse_designator_at (t ∷ rest))) [
      | inl p ↦ subst (Ends toks (suc (length rest))) (sym (keys_from-none fuel t rest p)) (
          Ends-le toks (length rest) (suc (length rest)) (keys_from fuel rest) (omega arith)
            (keys_from-Ends toks fuel (k + 1) rest (rest_at toks k t rest e) (omega arith)))
      | inr (d, p) ↦
          let fits = parse_designator_at-Fits (t ∷ rest) d p in
          let after = drop d.n (t ∷ rest) in
          let shorter : length after < suc (length rest) =
            omega (arith, length-drop d.n (t ∷ rest), fits.some_word) in
          subst (Ends toks (suc (length rest))) (sym (keys_from-some fuel t rest d p)) (
            with_key-Ends toks d.key (length after) (suc (length rest)) (keys_from fuel after)
              shorter (k, d, ap parse_designator_at (sym e) ∙ p, refl)
              (keys_from-Ends toks fuel (k + d.n) after (ap (drop d.n) e ∙ drop-drop d.n k toks)
                (omega (arith, shorter))))
    ]
  where
    tail_of : List Token → List Token
    tail_of [] = []
    tail_of (u ∷ us) = us

    drop_one : (us : List Token) → drop 1 us ≡ tail_of us
    drop_one [] = refl
    drop_one (u ∷ us) = refl

    rest_at :
        (all : List Token) (j : ℕ) (u : Token) (us : List Token)
        → u ∷ us ≡ drop j all
        → us ≡ drop (j + 1) all
    rest_at all j u us q = ap tail_of q ∙ sym (drop_one (drop j all)) ∙ drop-drop 1 j all

-- DesignatorKeys comes to an end on every text. It gives no more keys than the text has tokens,
-- and each is the key of a designator that stands in the text.
pub designator_keys-total :
    (u : Unicode) (text : Text)
    → (keys : List Text) × (designator_keys u text ≡ some keys)
      × (length keys ≤ length (tokenize u text))
      × KeysIn (tokenize u text) keys
unfolding designator_keys
designator_keys-total u text =
    let toks = tokenize u text in
    read (keys_from (length toks + 1) toks)
      (keys_from-Ends toks (length toks + 1) 0 toks refl (omega arith))
  where
    read :
        (r : Option (List Text))
        → Ends (tokenize u text) (length (tokenize u text)) r
        → (keys : List Text) × (r ≡ some keys)
          × (length keys ≤ length (tokenize u text))
          × KeysIn (tokenize u text) keys
    read none e = absurd e
    read (some keys) e = (keys, refl, e.0, e.1)

among_keys-total :
    (u : Unicode) (key text : Text)
    → (b : Bool) × (among_keys u key (designator_keys u text) ≡ some b)
among_keys-total u key text =
    let (keys, e, _, _) = designator_keys-total u text in (any_key u key keys, rw e refl)

if-total :
    (a b : Bool) (r : Option Bool)
    → (c : Bool) × (r ≡ some c)
    → (c : Bool) × ((if a then some false else if b then some true else r) ≡ some c)
if-total true b r h = (false, refl)
if-total false true r h = (true, refl)
if-total false false r h = h

-- MatchesTag comes to an end as well.
pub matches_tag-total :
    (u : Unicode) (key tag : Text) → (b : Bool) × (matches_tag u key tag ≡ some b)
unfolding matches_tag
matches_tag-total u key tag =
    if-total _ _ _ (among_keys-total u key (trim_func (is_space_rune u) tag))
