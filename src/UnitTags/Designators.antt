-- ===== src/UnitTags/Designators.antt =====
-- The designator grammar of extract.go: unit numbers, letter codes, and a designator at the front
-- of the tokens.
pub mod Numbers
pub mod Bounds
pub mod Numeric
use tr_engine.Common.{
  ℕ, zero, suc, ◌+◌, ◌-◌, ◌≤◌, Bool, true, false, ◌&&◌, ◌||◌, not, Option, none, some, List, [],
  ◌∷◌, ◌++◌, map, Text, bytes, if◌then◌else◌, ltb, leb, ◌==◌, nat_comparable, text_comparable,
  length, take, drop, is_some,
}
use tr_engine.Common.Map.{Map, lookup}
use tr_engine.UnitTags.Words.{
  is_digits, is_letters, is_empty, some_char, is_vowel, is_ascii_digit, is_ascii_lower, ascii_upper,
  upper_text,
}
use tr_engine.UnitTags.Vocabulary.{
  is_prefix_word, is_phonetic_word, is_two_word_prefix, is_quantity_word, is_code_exclusion,
  is_allowed_code, is_spoken_zero, display_override, ones_words, teen_words, tens_words,
}
use tr_engine.UnitTags.Tokens.{Token, pause, word, text_of, is_break}

-- `key`, `display`, and the number of tokens consumed.
pub record Designator : Type 0 where
  pub key : Text
  pub display : Text
  pub n : ℕ

unfoldable pub title_word : Text → Text
unfolding display_override
title_word [] = []
title_word (c ∷ s) = elim (display_override (c ∷ s)) [
  | some special ↦ special
  | none ↦ ascii_upper c ∷ s
]

unfoldable pub is_numberish : Text → Bool
unfolding is_digits lookup
is_numberish w =
    is_digits w
    || (is_some (lookup w ones_words)
        || is_some (lookup w teen_words)
        || is_some (lookup w tens_words)
        || w == bytes "hundred"
        || w == bytes "thousand")

unfoldable pub follow_ok : List Token → Bool
unfolding is_numberish is_quantity_word is_spoken_zero
follow_ok [] = true
follow_ok (pause ∷ rest) = true
follow_ok (word w ∷ rest) = not (is_quantity_word w || is_numberish w || is_spoken_zero w)

-- A number that is read, and the tokens that it takes.
abbrev pub Reading : Type 0
Reading = Option (Text × ℕ)

-- The tens word `v`, with the word after it if that is a digit other than zero.
abbrev pub nonzero : Option Text → Option Text
nonzero none = none
nonzero (some o) = if o == bytes "0" then none else some o

abbrev pub ones_after : List Token → Option Text
ones_after [] = none
ones_after (pause ∷ rest) = none
ones_after (word w ∷ rest) = nonzero (lookup w ones_words)

abbrev pub tens_with : ℕ → Option Text → Text × ℕ
tens_with v (some o) = ((b'0' + v) ∷ o, 2)
tens_with v none = ((b'0' + v) ∷ bytes "0", 1)

-- The digit that a word stands for; a spoken zero only behind another digit.
abbrev pub or_zero : Bool → Option Text → Option Text
or_zero spoken (some o) = some o
or_zero spoken none = if spoken then some (bytes "0") else none

unfoldable pub spoken_digit : Bool → Text → Option Text
unfolding lookup is_spoken_zero
spoken_digit first w = or_zero (not first && is_spoken_zero w) (lookup w ones_words)

-- The words that are read as digits, with the digits: at most as many as the first argument.
unfoldable pub digits_from : ℕ → Bool → List Token → List (Text × Text)
unfolding spoken_digit
digits_from zero first toks = []
digits_from (suc k) first [] = []
digits_from (suc k) first (pause ∷ rest) = []
digits_from (suc k) first (word w ∷ rest) = elim (spoken_digit first w) [
  | some o ↦ (w, o) ∷ digits_from k false rest
  | none ↦ []
]

-- Trailing spoken zeros are given back.
abbrev pub unless_last_zero : Text × Text → List (Text × Text) → List (Text × Text)
unless_last_zero (w, o) [] = if is_spoken_zero w then [] else (w, o) ∷ []
unless_last_zero d (e ∷ rest) = d ∷ e ∷ rest

unfoldable pub drop_zeros : List (Text × Text) → List (Text × Text)
unfolding is_spoken_zero
drop_zeros [] = []
drop_zeros (d ∷ rest) = unless_last_zero d (drop_zeros rest)

-- The loop gives nothing back once one digit is left.
unfoldable pub kept_digits : List (Text × Text) → List (Text × Text)
unfolding drop_zeros
kept_digits [] = []
kept_digits (d ∷ rest) = d ∷ drop_zeros rest

-- `strings.Join(digits, "")`.
abbrev pub join : List (Text × Text) → Text
join [] = []
join ((w, o) ∷ rest) = o ++ join rest

unfoldable pub spoken_number : List Token → Text × ℕ
unfolding digits_from kept_digits
spoken_number toks =
    let digits = kept_digits (digits_from 3 true toks) in (join digits, length digits)

unfoldable pub number_word : Text → List Token → Reading
unfolding is_digits lookup
number_word w rest =
    if is_digits w
    then (if ltb 4 (length w) then none else some (w, 1))
    else elim (lookup w tens_words) [
      | some v ↦ some (tens_with v (ones_after rest))
      | none ↦ elim (lookup w teen_words) [
        | some v ↦ some (v, 1)
        | none ↦
            if is_some (lookup w ones_words) then some (spoken_number (word w ∷ rest)) else none
      ]
    ]

unfoldable pub number_at : List Token → Reading
unfolding number_word spoken_number
number_at [] = none
number_at (pause ∷ rest) = none
number_at (word w ∷ rest) = number_word w rest

unfoldable pub is_short_code_letters : Text → Bool
unfolding is_letters is_code_exclusion
is_short_code_letters w =
    if not (is_letters w) || ltb 3 (length w) || is_code_exclusion w
    then false
    else if length w == 1
    then not (w == bytes "a" || w == bytes "i" || w == bytes "o" || w == bytes "x")
    else not (some_char is_vowel w)

-- The longest front of at most `k` characters that pass a test, and the rest.
abbrev pub onto_front : ℕ → Text × Text → Text × Text
onto_front c (a, b) = (c ∷ a, b)

unfoldable pub span_at_most : ℕ → (ℕ → Bool) → Text → Text × Text
span_at_most zero p w = ([], w)
span_at_most (suc k) p [] = ([], [])
span_at_most (suc k) p (c ∷ w) = if p c then onto_front c (span_at_most k p w) else ([], c ∷ w)

unfoldable pub is_code_of : Text → Text → Text → Text → Bool
unfolding is_digits is_code_exclusion is_allowed_code
is_code_of w lead letters digits =
    if is_empty letters || ltb 3 (length letters) || not (is_digits digits) || ltb 4 (length digits)
    then false
    else if ltb 0 (length lead) && not (length letters == 1)
    then false
    else if is_code_exclusion letters || is_code_exclusion w
    then false
    else if length letters == 1
    then not (letters == bytes "i" || letters == bytes "o" || letters == bytes "x")
    else not (some_char is_vowel letters) || is_allowed_code letters

unfoldable pub is_joined_code : Text → Bool
is_joined_code w =
    let (lead, rest) = span_at_most 3 is_ascii_digit w in
    let (letters, digits) = span_at_most (length rest) is_ascii_lower rest in
    if ltb 2 (length lead) then false else is_code_of w lead letters digits

-- A designator that ends in a number: `before` is what stands before it, in `k` tokens.
abbrev pub with_number : ℕ → Text → List Token → Reading → Option Designator
with_number k before toks none = none
with_number k before toks (some (num, n)) =
    if follow_ok (drop n toks)
    then some (record { key = upper_text (before ++ num); display = before ++ num; n = k + n })
    else none

unfoldable pub numbered : ℕ → Text → List Token → Option Designator
unfolding number_at follow_ok
numbered k before toks = with_number k before toks (number_at toks)

-- 1 Paul 31
unfoldable pub phonetic_unit : Text → List Token → Option Designator
unfolding numbered is_digits is_phonetic_word title_word
phonetic_unit w [] = none
phonetic_unit w (p ∷ toks) =
    if is_digits w && leb (length w) 2 && not (is_empty toks) && is_phonetic_word (text_of p)
    then numbered 2 (w ++ 32 ∷ (title_word (text_of p) ++ 32 ∷ [])) toks
    else none

-- Battalion Chief 2
unfoldable pub two_word_unit : Text → List Token → Option Designator
unfolding numbered is_two_word_prefix title_word
two_word_unit w [] = none
two_word_unit w (pause ∷ toks) = none
two_word_unit w (word v ∷ toks) =
    if is_two_word_prefix (w ++ 32 ∷ v)
    then numbered 2 (title_word w ++ 32 ∷ (title_word v ++ 32 ∷ [])) toks
    else none

-- Medic 12, Engine five, Adam 12
unfoldable pub word_unit : Text → List Token → Option Designator
unfolding numbered title_word
word_unit w toks = numbered 1 (title_word w ++ 32 ∷ []) toks

abbrev pub code_designator : Text → ℕ → Designator
code_designator code n = record { key = upper_text code; display = upper_text code; n = n }

-- P 338, FF 1
unfoldable pub spaced_code : Text → List Token → Option Designator
unfolding is_short_code_letters is_digits follow_ok
spaced_code w [] = none
spaced_code w (pause ∷ toks) = none
spaced_code w (word d ∷ toks) =
    if is_short_code_letters w && (is_digits d && leb (length d) 4 && follow_ok toks)
    then some (code_designator (w ++ d) 2)
    else none

-- P338, FF1, 1P31
unfoldable pub joined_code : Text → List Token → Option Designator
unfolding is_joined_code span_at_most is_code_of follow_ok
joined_code w toks = if is_joined_code w && follow_ok toks then some (code_designator w 1) else none

abbrev pub or_else {ℓ} : {A : Type ℓ} → Option A → Option A → Option A
or_else (some a) o = some a
or_else none o = o

unfoldable pub designator_word : Text → List Token → Option Designator
designator_word w rest = or_else (phonetic_unit w rest) (
    or_else (two_word_unit w rest) (
      if is_prefix_word w || is_phonetic_word w
      then word_unit w rest
      else or_else (spaced_code w rest) (joined_code w rest)))

unfoldable pub parse_designator_at : List Token → Option Designator
unfolding designator_word phonetic_unit two_word_unit word_unit spaced_code joined_code
    is_prefix_word is_phonetic_word
parse_designator_at [] = none
parse_designator_at (pause ∷ rest) = none
parse_designator_at (word w ∷ rest) = designator_word w rest

unfoldable pub designator_at : List Token → Bool
unfolding parse_designator_at
designator_at toks = is_some (parse_designator_at toks)
