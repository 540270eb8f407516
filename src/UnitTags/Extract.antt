-- ===== src/UnitTags/Extract.antt =====
-- Extract, DesignatorKeys and MatchesTag of extract.go.
pub mod Positions
pub mod Sound
pub mod Keys
mod Tests
use tr_engine.Common.{
  ℕ, zero, suc, Bool, true, false, ◌&&◌, ◌||◌, not, Option, none, some, List, [], ◌∷◌, ◌++◌, map,
  Text, bytes, if◌then◌else◌, ◌==◌, nat_comparable, text_comparable, length, drop, keep, ◌+◌,
}
use tr_engine.Common.Split.{split, is_one_of}
use tr_engine.UnitTags.Words.{Unicode, is_empty, to_upper, is_space_rune, trim_func}
use tr_engine.UnitTags.Vocabulary.{is_phonetic_word}
use tr_engine.UnitTags.Tokens.{Token, pause, word, text_of, tokenize}
use tr_engine.UnitTags.Designators.{Designator, parse_designator_at, designator_at}
use tr_engine.UnitTags.Phrases.{
  skip_lead, at_end, is_word_at, is_break_at, parse_addressee, addressee_at, another_unit_follows,
  status_at,
}

pub data Pattern : Type 0 where
  addressee_caller : Pattern
  unit_caller : Pattern
  caller_to : Pattern
  from_caller : Pattern
  this_is : Pattern
  status : Pattern
  bare : Pattern

pub record Candidate : Type 0 where
  pub key : Text
  pub display : Text
  pub pattern : Pattern

-- The variables `seen` and `out`.
pub record Found : Type 0 where
  pub seen : List Text
  pub out : List Candidate

abbrev pub nothing_found : Found
nothing_found = record { seen = []; out = [] }

unfoldable pub add : Found → Designator → Pattern → Found
unfolding is_one_of
add f d p = if is_one_of f.seen d.key then f else record {
  seen = d.key ∷ f.seen;
  out = f.out ++ record { key = d.key; display = d.display; pattern = p } ∷ [];
}

-- A designator that the speaker uses for itself, with the reason.
abbrev pub Caller : Type 0
Caller = Option (Designator × Pattern)

abbrev pub as_caller : Pattern → Bool → Option Designator → Caller
as_caller p allowed none = none
as_caller p allowed (some d) = if allowed then some (d, p) else none

abbrev pub alone_at : List Token → Option Designator → Bool
alone_at toks none = false
alone_at toks (some d) = not (another_unit_follows (drop d.n toks))

-- "County, Medic 12 ...": the caller stands where the addressee, and a "from", end.
abbrev pub caller_at : Pattern → List Token → Caller
caller_at p toks = let d = parse_designator_at toks in as_caller p (alone_at toks d) d

abbrev pub direct_or_from : List Token → Caller
direct_or_from [] = caller_at addressee_caller []
direct_or_from (t ∷ rest) =
    if is_word_at (t ∷ rest) (bytes "from")
    then caller_at from_caller (skip_lead rest)
    else caller_at addressee_caller (t ∷ rest)

unfoldable pub after_addressee : List Token → Caller
after_addressee next = direct_or_from (skip_lead next)

abbrev pub rest_of : List Token → List Token
rest_of [] = []
rest_of (t ∷ rest) = rest

-- Another designator than `a`.
abbrev pub other_than : Designator → Option Designator → Bool
other_than a none = false
other_than a (some x) = not (x.key == a.key)

abbrev pub ends_after : List Token → Option Designator → Bool
ends_after toks none = false
ends_after toks (some x) = at_end (drop x.n toks)

-- The transmission opens with the designator `a`, and `after` follows it.
unfoldable pub after_designator : Designator → List Token → Caller
after_designator a after =
    let k = skip_lead after in
    if at_end after
    then some (a, bare)
    else if is_word_at after (bytes "to")
        && (addressee_at (rest_of after) || designator_at (rest_of after))
    then some (a, caller_to)
    else if is_word_at after (bytes "from")
    then (let x = parse_designator_at (rest_of after) in as_caller from_caller (other_than a x) x)
    else if status_at k
    then some (a, status)
    else (let x = parse_designator_at k in
        as_caller unit_caller (other_than a x && ends_after k x) x)

abbrev pub opening_designator : List Token → Option Designator → Caller
opening_designator start none = none
opening_designator start (some a) = after_designator a (drop a.n start)

abbrev pub by_opening : List Token → Option (List Token) → Caller
by_opening start (some next) = after_addressee next
by_opening start none = opening_designator start (parse_designator_at start)

-- The first part of Extract: the caller by the opening of the transmission.
unfoldable pub opening_caller : List Token → Caller
opening_caller toks =
    let start = skip_lead toks in
    if is_empty start then none else by_opening start (parse_addressee start)

abbrev pub add_caller : Found → Caller → Found
add_caller f none = f
add_caller f (some (d, p)) = add f d p

-- The speaker's own words "this is" before a designator.
abbrev pub ends_here : List Token → Bool
ends_here after =
    at_end after || is_break_at after || is_word_at after (bytes "to") || status_at after

abbrev pub this_is_caller : List Token → Option Designator → Caller
this_is_caller toks none = none
this_is_caller toks (some d) = if ends_here (drop d.n toks) then some (d, this_is) else none

unfoldable pub this_is_at : List Token → Caller
this_is_at [] = none
this_is_at (a ∷ []) = none
this_is_at (a ∷ b ∷ toks) =
    if not (is_empty toks)
      && is_word_at (a ∷ b ∷ toks) (bytes "this")
      && is_word_at (b ∷ toks) (bytes "is")
    then this_is_caller toks (parse_designator_at toks)
    else none

unfoldable pub scan_this_is : List Token → Found → Found
scan_this_is [] f = f
scan_this_is (t ∷ rest) f = scan_this_is rest (add_caller f (this_is_at (t ∷ rest)))

unfoldable pub found_in : List Token → Found
found_in toks = scan_this_is toks (add_caller nothing_found (opening_caller toks))

unfoldable pub extract : Unicode → Text → List Candidate
extract u text = (found_in (tokenize u text)).out

-- The loop of DesignatorKeys: `none` if the fuel runs out.
abbrev pub with_key : Text → Option (List Text) → Option (List Text)
with_key key none = none
with_key key (some keys) = some (key ∷ keys)

unfoldable pub keys_from : ℕ → List Token → Option (List Text)
keys_from zero toks = none
keys_from (suc fuel) [] = some []
keys_from (suc fuel) (t ∷ rest) = elim (parse_designator_at (t ∷ rest)) [
  | some d ↦ with_key d.key (keys_from fuel (drop d.n (t ∷ rest)))
  | none ↦ keys_from fuel rest
]

unfoldable pub designator_keys : Unicode → Text → Option (List Text)
unfolding keys_from tokenize parse_designator_at
designator_keys u text = let toks = tokenize u text in keys_from (length toks + 1) toks

-- The letter of a phonetic word, any other part whole.
abbrev pub shortened : Text → Text
shortened [] = []
shortened (c ∷ s) = if is_phonetic_word (c ∷ s) then c ∷ [] else c ∷ s

abbrev pub parts_form : Unicode → List Text → Text
parts_form u [] = []
parts_form u (part ∷ parts) = map (to_upper u) (shortened part) ++ parts_form u parts

unfoldable pub letter_form_of : Unicode → List Token → Text
unfolding split is_phonetic_word to_upper
letter_form_of u [] = []
letter_form_of u (t ∷ rest) = parts_form u (split 45 (text_of t)) ++ letter_form_of u rest

unfoldable pub letter_form : Unicode → Text → Text
unfolding letter_form_of tokenize
letter_form u text = letter_form_of u (tokenize u text)

unfoldable pub compact : Unicode → Text → Text
unfolding to_upper
compact u s = keep (λ r. not (r == 32 || r == 45 || r == 9)) (map (to_upper u) s)

unfoldable pub any_key : Unicode → Text → List Text → Bool
any_key u key [] = false
any_key u key (k ∷ keys) = k == key || letter_form u k == letter_form u key || any_key u key keys

abbrev pub among_keys : Unicode → Text → Option (List Text) → Option Bool
among_keys u key none = none
among_keys u key (some keys) = some (any_key u key keys)

-- `none` stands for a loop that does not end.
unfoldable pub matches_tag : Unicode → Text → Text → Option Bool
matches_tag u key tag =
    let trimmed = trim_func (is_space_rune u) tag in
    if is_empty trimmed || is_empty key
    then some false
    else if compact u trimmed == compact u key || letter_form u trimmed == letter_form u key
    then some true
    else among_keys u key (designator_keys u trimmed)
