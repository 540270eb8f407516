-- ===== src/UnitTags/Extract/Sound.antt =====
-- What Extract gives: designators that stand in the transmission, each key once.
use tr_engine.Common.{
  ℕ, ◌≡◌, refl, sym, ap, ◌∙◌, inl, inr, false, none, some, List, [], ◌∷◌, ◌++◌, Text, drop,
  Bool-cases, arith, ◌==◌, ◌||◌, nat_comparable, text_comparable,
}
use tr_engine.Common.Bytes.{text_same_iff}
use tr_engine.Common.Split.{is_one_of}
use tr_engine.UnitTags.Words.{Unicode}
use tr_engine.UnitTags.Tokens.{Token, tokenize}
use tr_engine.UnitTags.Designators.{Designator, parse_designator_at}
use tr_engine.UnitTags.Designators.Bounds.{Fits, parse_designator_at-Fits}
use tr_engine.UnitTags.Extract.{
  Pattern, Candidate, Found, add, Caller, opening_caller, add_caller, this_is_at, scan_this_is,
  found_in, extract, nothing_found,
}
use tr_engine.UnitTags.Extract.Positions.{
  Within, Within-rest, StandsIn, CallerIn, opening_caller-CallerIn, this_is_at-CallerIn,
}

abbrev keys_of : List Candidate → List Text
keys_of [] = []
keys_of (c ∷ cs) = c.key ∷ keys_of cs

-- No two candidates share a key.
abbrev pub Distinct : List Candidate → Type 0
Distinct [] = Unit {0}
Distinct (c ∷ cs) = (is_one_of (keys_of cs) c.key ≡ false) × Distinct cs

-- The candidate is a designator that stands in the tokens and fits there.
abbrev pub Stands : List Token → Candidate → Type 0
Stands toks c =
    (k : ℕ) × (d : Designator) × (parse_designator_at (drop k toks) ≡ some d)
    × Fits (drop k toks) d
    × (c.key ≡ d.key)
    × (c.display ≡ d.display)

abbrev pub AllStand : List Token → List Candidate → Type 0
AllStand toks [] = Unit {0}
AllStand toks (c ∷ cs) = Stands toks c × AllStand toks cs

-- `seen` holds exactly the keys of `out`.
abbrev SameKeys : Found → Type 0
SameKeys f = (key : Text) → is_one_of f.seen key ≡ is_one_of (keys_of f.out) key

same_comm : (s t : Text) → (s == t) ≡ (t == s)
same_comm s t = ground (arith, text_same_iff s t, text_same_iff t s)

keys_of-append :
    (cs : List Candidate) (c : Candidate) (key : Text)
    → is_one_of (keys_of (cs ++ c ∷ [])) key ≡ (key == c.key || is_one_of (keys_of cs) key)
unfolding is_one_of
keys_of-append [] c key = refl
keys_of-append (b ∷ cs) c key = ground (arith, keys_of-append cs c key)

Distinct-append :
    (cs : List Candidate) (c : Candidate)
    → is_one_of (keys_of cs) c.key ≡ false
    → Distinct cs
    → Distinct (cs ++ c ∷ [])
unfolding is_one_of
Distinct-append [] c h d = (refl, tt)
Distinct-append (b ∷ cs) c h d = (
  ground (arith, keys_of-append cs c b.key, same_comm c.key b.key, h, d.0),
  Distinct-append cs c (ground (arith, h)) d.1,
)

AllStand-append :
    (toks : List Token) (cs : List Candidate) (c : Candidate)
    → AllStand toks cs
    → Stands toks c
    → AllStand toks (cs ++ c ∷ [])
AllStand-append toks [] c h s = (s, tt)
AllStand-append toks (b ∷ cs) c h s = (h.0, AllStand-append toks cs c h.1 s)

record Inv (toks : List Token) (f : Found) : Type 0 where
  distinct : Distinct f.out
  seen_lem : SameKeys f
  stand : AllStand toks f.out

add-Inv :
    (toks : List Token) (f : Found) (d : Designator) (p : Pattern)
    → StandsIn toks d
    → Inv toks f
    → Inv toks (add f d p)
unfolding add
add-Inv toks f d p (k, e) i = elim (Bool-cases (is_one_of f.seen d.key)) [
  | inl old ↦ rw old i
  | inr new ↦
      let c : Candidate = record { key = d.key; display = d.display; pattern = p } in
      rw new (record {
        distinct = Distinct-append f.out c (sym (i.seen_lem d.key) ∙ new) i.distinct;
        seen_lem = λ key. grown key;
        stand =
            AllStand-append toks f.out c i.stand
              (k, d, e, parse_designator_at-Fits (drop k toks) d e, refl, refl);
      })
]
  where
    grown :
        (key : Text)
        → is_one_of (d.key ∷ f.seen) key
          ≡ is_one_of
              (keys_of (f.out ++ record { key = d.key; display = d.display; pattern = p } ∷ []))
              key
    grown key =
        ap (λ b. key == d.key || b) (i.seen_lem key)
        ∙ sym (keys_of-append f.out (record { key = d.key; display = d.display; pattern = p }) key)

add_caller-Inv :
    (toks : List Token) (f : Found) (c : Caller)
    → CallerIn toks c
    → Inv toks f
    → Inv toks (add_caller f c)
add_caller-Inv toks f none h i = i
add_caller-Inv toks f (some (d, p)) h i = add-Inv toks f d p h i

scan_this_is-Inv :
    (toks s : List Token) (f : Found) → Within toks s → Inv toks f → Inv toks (scan_this_is s f)
unfolding scan_this_is
scan_this_is-Inv toks [] f w i = i
scan_this_is-Inv toks (t ∷ s) f w i =
    scan_this_is-Inv toks s (add_caller f (this_is_at (t ∷ s))) (Within-rest toks t s w)
      (add_caller-Inv toks f (this_is_at (t ∷ s)) (this_is_at-CallerIn toks (t ∷ s) w) i)

found_in-Inv : (toks : List Token) → Inv toks (found_in toks)
unfolding found_in is_one_of
found_in-Inv toks =
    scan_this_is-Inv toks toks (add_caller nothing_found (opening_caller toks)) (0, refl)
      (add_caller-Inv toks nothing_found (opening_caller toks) (opening_caller-CallerIn toks)
        (record { distinct = tt; seen_lem = λ key. refl; stand = tt }))

-- The candidates of a text have different keys, and each is a designator that stands in the text's
-- tokens, with nothing behind it that would make it a quantity.
pub extract-Distinct :
    (u : Unicode) (text : Text)
    → Distinct (extract u text) × AllStand (tokenize u text) (extract u text)
unfolding extract
extract-Distinct u text = let i = found_in-Inv (tokenize u text) in (i.distinct, i.stand)
