-- ===== src/UnitTags/Extract/Positions.antt =====
-- Every caller that Extract settles on is a designator that stands in the transmission.
use tr_engine.Common.{
  ℕ, zero, suc, ◌+◌, ◌≡◌, refl, sym, ap, ◌∙◌, subst, inl, inr, Bool, true, false, Option, none,
  some, List, [], ◌∷◌, bytes, drop, drop-drop, Bool-cases, Option-cases, ◌||◌, ◌&&◌, nat_comparable,
  text_comparable, if◌then◌else◌,
}
use tr_engine.UnitTags.Words.{is_empty}
use tr_engine.UnitTags.Vocabulary.{is_filler_word, is_agency_word, is_dispatch_word}
use tr_engine.UnitTags.Tokens.{Token, pause, word}
use tr_engine.UnitTags.Designators.{Designator, parse_designator_at, designator_at}
use tr_engine.UnitTags.Phrases.{
  skip_lead, skip_agency, addressee_from, parse_addressee, is_plain_word, is_word_at, at_end,
  addressee_at, status_at,
}
use tr_engine.UnitTags.Extract.{
  direct_or_from, Pattern, Caller, as_caller, caller_at, alone_at, after_addressee, rest_of,
  other_than, ends_after, after_designator, opening_designator, by_opening, opening_caller,
  this_is_caller, ends_here, this_is_at, addressee_caller, from_caller, unit_caller, this_is,
  caller_to, status,
}

-- What stands from some position on.
abbrev pub Within : List Token → List Token → Type 0
Within toks s = (k : ℕ) × (s ≡ drop k toks)

Within-drop : (n : ℕ) (toks s : List Token) → Within toks s → Within toks (drop n s)
Within-drop n toks s (k, e) = (k + n, ap (drop n) e ∙ drop-drop n k toks)

pub Within-rest :
    (toks : List Token) (t : Token) (s : List Token) → Within toks (t ∷ s) → Within toks s
Within-rest toks t s w = Within-drop 1 toks (t ∷ s) w

rest_of-Within : (toks s : List Token) → Within toks s → Within toks (rest_of s)
rest_of-Within toks [] w = w
rest_of-Within toks (t ∷ s) w = Within-rest toks t s w

pub skip_lead-Within : (toks s : List Token) → Within toks s → Within toks (skip_lead s)
unfolding skip_lead
skip_lead-Within toks [] w = w
skip_lead-Within toks (pause ∷ s) w = skip_lead-Within toks s (Within-rest toks pause s w)
skip_lead-Within toks (word v ∷ s) w = elim (Bool-cases (is_filler_word v)) [
  | inl e ↦ rw e (skip_lead-Within toks s (Within-rest toks (word v) s w))
  | inr e ↦ rw e w
]

skip_agency-Within : (k : ℕ) (toks s : List Token) → Within toks s → Within toks (skip_agency k s)
unfolding skip_agency
skip_agency-Within zero toks s w = w
skip_agency-Within (suc k) toks [] w = w
skip_agency-Within (suc k) toks (pause ∷ s) w = w
skip_agency-Within (suc k) toks (word v ∷ s) w = elim (Bool-cases (is_agency_word v)) [
  | inl e ↦ rw e (skip_agency-Within k toks s (Within-rest toks (word v) s w))
  | inr e ↦ rw e w
]

abbrev WithinIf : List Token → Option (List Token) → Type 0
WithinIf toks none = Unit {0}
WithinIf toks (some s) = Within toks s

addressee_from-WithinIf :
    (k : ℕ) (toks s : List Token) → Within toks s → WithinIf toks (addressee_from k s)
unfolding addressee_from
addressee_from-WithinIf zero toks s w = tt
addressee_from-WithinIf (suc k) toks [] w = tt
addressee_from-WithinIf (suc k) toks (pause ∷ s) w = tt
addressee_from-WithinIf (suc k) toks (word v ∷ s) w =
    let after = Within-rest toks (word v) s w in
    elim (Bool-cases (is_dispatch_word v)) [
      | inl e ↦ rw e (skip_agency-Within 2 toks s after)
      | inr e ↦ elim (Bool-cases (is_plain_word v)) [
        | inl f ↦ rw (e, f) (addressee_from-WithinIf k toks s after)
        | inr f ↦ rw (e, f) tt
      ]
    ]

-- The designator stands somewhere in the tokens.
abbrev pub StandsIn : List Token → Designator → Type 0
StandsIn toks d = (k : ℕ) × (parse_designator_at (drop k toks) ≡ some d)

abbrev pub CallerIn : List Token → Caller → Type 0
CallerIn toks none = Unit {0}
CallerIn toks (some (d, p)) = StandsIn toks d

parsed-StandsIn :
    (toks s : List Token) (d : Designator)
    → Within toks s
    → parse_designator_at s ≡ some d
    → StandsIn toks d
parsed-StandsIn toks s d (k, e) h = (k, ap parse_designator_at (sym e) ∙ h)

abbrev StandsInIf : List Token → Option Designator → Type 0
StandsInIf toks none = Unit {0}
StandsInIf toks (some d) = StandsIn toks d

parse-StandsInIf : (toks s : List Token) → Within toks s → StandsInIf toks (parse_designator_at s)
parse-StandsInIf toks s w = elim (Option-cases (parse_designator_at s)) [
  | inl e ↦ subst (StandsInIf toks) (sym e) tt
  | inr (d, e) ↦ subst (StandsInIf toks) (sym e) (parsed-StandsIn toks s d w e)
]

as_caller-CallerIn :
    (toks : List Token) (p : Pattern) (allowed : Bool) (o : Option Designator)
    → StandsInIf toks o
    → CallerIn toks (as_caller p allowed o)
as_caller-CallerIn toks p allowed none h = tt
as_caller-CallerIn toks p true (some d) h = h
as_caller-CallerIn toks p false (some d) h = tt

caller_at-CallerIn :
    (toks : List Token) (p : Pattern) (s : List Token)
    → Within toks s
    → CallerIn toks (caller_at p s)
caller_at-CallerIn toks p s w =
    as_caller-CallerIn toks p (alone_at s (parse_designator_at s)) (parse_designator_at s)
      (parse-StandsInIf toks s w)

if-CallerIn :
    (toks : List Token) (b : Bool) (c e : Caller)
    → CallerIn toks c
    → CallerIn toks e
    → CallerIn toks (if b then c else e)
if-CallerIn toks true c e h k = h
if-CallerIn toks false c e h k = k

direct_or_from-CallerIn : (toks s : List Token) → Within toks s → CallerIn toks (direct_or_from s)
direct_or_from-CallerIn toks [] w = caller_at-CallerIn toks addressee_caller [] w
direct_or_from-CallerIn toks (t ∷ s) w =
    if-CallerIn toks (is_word_at (t ∷ s) (bytes "from")) (caller_at from_caller (skip_lead s))
      (caller_at addressee_caller (t ∷ s))
      (caller_at-CallerIn toks from_caller (skip_lead s)
        (skip_lead-Within toks s (Within-rest toks t s w)))
      (caller_at-CallerIn toks addressee_caller (t ∷ s) w)

after_addressee-CallerIn :
    (toks next : List Token) → Within toks next → CallerIn toks (after_addressee next)
unfolding after_addressee
after_addressee-CallerIn toks next w =
    direct_or_from-CallerIn toks (skip_lead next) (skip_lead-Within toks next w)

after_designator-CallerIn :
    (toks : List Token) (a : Designator) (after : List Token)
    → StandsIn toks a
    → Within toks after
    → CallerIn toks (after_designator a after)
unfolding after_designator
after_designator-CallerIn toks a after h w =
    let k = skip_lead after in
    let x = parse_designator_at (rest_of after) in
    let y = parse_designator_at k in
    if-CallerIn toks (at_end after) _ _ h (
      if-CallerIn toks
        (is_word_at after (bytes "to")
          && (addressee_at (rest_of after) || designator_at (rest_of after)))
        (some (a, caller_to)) _ h
        (if-CallerIn toks (is_word_at after (bytes "from")) _ _
          (as_caller-CallerIn toks from_caller (other_than a x) x
            (parse-StandsInIf toks (rest_of after) (rest_of-Within toks after w)))
          (if-CallerIn toks (status_at k) (some (a, status)) _ h (
            as_caller-CallerIn toks unit_caller (other_than a y && ends_after k y) y
              (parse-StandsInIf toks k (skip_lead-Within toks after w))))))

opening_designator-CallerIn :
    (toks start : List Token) (o : Option Designator)
    → Within toks start
    → StandsInIf toks o
    → CallerIn toks (opening_designator start o)
opening_designator-CallerIn toks start none w h = tt
opening_designator-CallerIn toks start (some a) w h =
    after_designator-CallerIn toks a (drop a.n start) h (Within-drop a.n toks start w)

by_opening-CallerIn :
    (toks start : List Token) (o : Option (List Token))
    → Within toks start
    → WithinIf toks o
    → CallerIn toks (by_opening start o)
by_opening-CallerIn toks start (some next) w h = after_addressee-CallerIn toks next h
by_opening-CallerIn toks start none w h =
    opening_designator-CallerIn toks start (parse_designator_at start) w
      (parse-StandsInIf toks start w)

parse_addressee-WithinIf : (toks s : List Token) → Within toks s → WithinIf toks (parse_addressee s)
unfolding parse_addressee
parse_addressee-WithinIf toks s w = addressee_from-WithinIf 3 toks s w

pub opening_caller-CallerIn : (toks : List Token) → CallerIn toks (opening_caller toks)
unfolding opening_caller
opening_caller-CallerIn toks =
    let start = skip_lead toks in
    let w = skip_lead-Within toks toks (0, refl) in
    if-CallerIn toks (is_empty start) none _ tt (
      by_opening-CallerIn toks start (parse_addressee start) w
        (parse_addressee-WithinIf toks start w))

this_is_caller-CallerIn :
    (toks s : List Token) (o : Option Designator)
    → StandsInIf toks o
    → CallerIn toks (this_is_caller s o)
this_is_caller-CallerIn toks s none h = tt
this_is_caller-CallerIn toks s (some d) h =
    if-CallerIn toks (ends_here (drop d.n s)) (some (d, this_is)) none h tt

pub this_is_at-CallerIn : (toks s : List Token) → Within toks s → CallerIn toks (this_is_at s)
unfolding this_is_at
this_is_at-CallerIn toks [] w = tt
this_is_at-CallerIn toks (a ∷ []) w = tt
this_is_at-CallerIn toks (a ∷ b ∷ s) w =
    if-CallerIn toks _ (this_is_caller s (parse_designator_at s)) none
      (this_is_caller-CallerIn toks s (parse_designator_at s)
        (parse-StandsInIf toks s (Within-drop 2 toks (a ∷ b ∷ s) w)))
      tt
