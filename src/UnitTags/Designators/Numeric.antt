-- ===== src/UnitTags/Designators/Numeric.antt =====
-- A pure number is no designator.
use tr_engine.Common.{
  ℕ, suc, ◌+◌, zero, ◌≡◌, refl, sym, ◌∙◌, inl, inr, Bool, true, false, ◌&&◌, Option, none, some,
  List, [], ◌∷◌, ◌++◌, Text, if◌then◌else◌, ltb, length, Bool-cases, Option-cases, nat_comparable,
  text_comparable, arith, not, leb, all_of, bytes,
}
use Prim.Native.String.{String}
use tr_engine.Common.Bytes.{text_same_iff}
use tr_engine.Common.Split.{split, is_one_of}
use tr_engine.UnitTags.Words.{
  is_empty, is_digits, is_letters, is_ascii_lower, is_ascii_digit, all_chars,
}
use tr_engine.UnitTags.Vocabulary.{
  prefix_words, phonetic_words, two_word_prefixes, one_of, is_prefix_word, is_phonetic_word,
  is_two_word_prefix,
}
use tr_engine.UnitTags.Tokens.{Token, pause, word}
use tr_engine.UnitTags.Designators.Bounds.{empty_not_phonetic, and_false}
use tr_engine.UnitTags.Designators.{
  or_else, span_at_most, is_code_of, Designator, phonetic_unit, two_word_unit, spaced_code,
  joined_code, is_short_code_letters, is_joined_code, designator_word, parse_designator_at,
  numbered, number_at,
}

abbrev starts_low : Text → Bool
starts_low [] = false
starts_low (c ∷ s) = is_ascii_lower c

digits-starts_low : (w s : Text) → is_digits w ≡ true → starts_low (w ++ s) ≡ false
unfolding is_digits
digits-starts_low [] s h = absurd (cc (h))
digits-starts_low (c ∷ w) s h = ground arith

is_one_of-starts_low :
    (names : List Text) (t : Text)
    → all_of starts_low names ≡ true
    → starts_low t ≡ false
    → is_one_of names t ≡ false
unfolding is_one_of
is_one_of-starts_low [] t a h = refl
is_one_of-starts_low (name ∷ names) t a h =
    ground (arith, text_same_iff t name, is_one_of-starts_low names t)

abbrev all_low : List String → Bool
all_low [] = true
all_low (names ∷ more) = all_of starts_low (split 32 (bytes names)) && all_low more

one_of-starts_low :
    (lines : List String) (t : Text)
    → all_low lines ≡ true
    → starts_low t ≡ false
    → one_of lines t ≡ false
unfolding one_of split
one_of-starts_low [] t a h = refl
one_of-starts_low (names ∷ more) t a h =
    ground (arith, is_one_of-starts_low (split 32 (bytes names)) t, one_of-starts_low more t)

no_two_word_prefix : (w s : Text) → is_digits w ≡ true → is_two_word_prefix (w ++ s) ≡ false
unfolding is_two_word_prefix
no_two_word_prefix w s h =
    is_one_of-starts_low two_word_prefixes (w ++ s) refl (digits-starts_low w s h)

digits_low : (w : Text) → is_digits w ≡ true → starts_low w ≡ false
unfolding is_digits
digits_low [] h = absurd (cc (h))
digits_low (c ∷ w) h = ground arith

no_prefix_word : (w : Text) → is_digits w ≡ true → is_prefix_word w ≡ false
unfolding is_prefix_word
no_prefix_word w h = one_of-starts_low prefix_words w refl (digits_low w h)

no_phonetic_word : (w : Text) → is_digits w ≡ true → is_phonetic_word w ≡ false
unfolding is_phonetic_word
no_phonetic_word w h = one_of-starts_low phonetic_words w refl (digits_low w h)

no_letters : (w : Text) → is_digits w ≡ true → is_short_code_letters w ≡ false
unfolding is_short_code_letters is_letters is_digits
no_letters [] h = absurd (cc (h))
no_letters (c ∷ w) h = ground arith

-- The characters after the leading digits are digits again.
after_digits :
    (k : ℕ) (w : Text)
    → all_chars is_ascii_digit w ≡ true
    → all_chars is_ascii_digit (span_at_most k is_ascii_digit w).1 ≡ true
unfolding span_at_most
after_digits zero w h = h
after_digits (suc k) [] h = refl
after_digits (suc k) (c ∷ w) h = ground (arith, after_digits k w)

no_lower_front :
    (k : ℕ) (w : Text)
    → all_chars is_ascii_digit w ≡ true
    → (span_at_most k is_ascii_lower w).0 ≡ []
unfolding span_at_most
no_lower_front zero w h = refl
no_lower_front (suc k) [] h = refl
no_lower_front (suc k) (c ∷ w) h = ground arith

no_code_of : (w lead digits : Text) → is_code_of w lead [] digits ≡ false
unfolding is_code_of
no_code_of w lead digits = refl

digits_all : (w : Text) → is_digits w ≡ true → all_chars is_ascii_digit w ≡ true
unfolding is_digits
digits_all [] h = refl
digits_all (c ∷ w) h = h

no_code : (w : Text) → is_digits w ≡ true → is_joined_code w ≡ false
unfolding is_joined_code
no_code w h =
    let front = span_at_most 3 is_ascii_digit w in
    let none_low = no_lower_front (length front.1) front.1 (after_digits 3 w (digits_all w h)) in
    rw none_low (rw no_code_of (either (ltb 2 (length front.0))))
  where
    either : (b : Bool) → (if b then false else false) ≡ false
    either b = ground arith

last_true : (a b c d : Bool) → (a && b && c && d) ≡ true → d ≡ true
last_true a b c d h = ground (arith, h)

-- What "1 Paul 31" is: a phonetic word and a number follow.
pub record PhoneticUnit (rest : List Token) (d : Designator) : Type 0 where
  pub phonetic : Text
  pub toks : List Token
  pub number : Text
  pub n : ℕ
  pub front : rest ≡ word phonetic ∷ toks
  pub is_phonetic : is_phonetic_word phonetic ≡ true
  pub is_number : number_at toks ≡ some (number, n)
  pub length_lem : d.n ≡ 2 + n

no_two_word_unit : (w : Text) (rest : List Token) → is_digits w ≡ true → two_word_unit w rest ≡ none
unfolding two_word_unit
no_two_word_unit w [] h = refl
no_two_word_unit w (pause ∷ toks) h = refl
no_two_word_unit w (word v ∷ toks) h = rw (no_two_word_prefix w (32 ∷ v) h) refl

no_spaced_code : (w : Text) (rest : List Token) → is_digits w ≡ true → spaced_code w rest ≡ none
unfolding spaced_code
no_spaced_code w [] h = refl
no_spaced_code w (pause ∷ toks) h = refl
no_spaced_code w (word v ∷ toks) h = rw (no_letters w h) refl

no_joined_code : (w : Text) (rest : List Token) → is_digits w ≡ true → joined_code w rest ≡ none
unfolding joined_code
no_joined_code w rest h = rw (no_code w h) refl

or_else-none : (o : Option Designator) → or_else o none ≡ o
or_else-none none = refl
or_else-none (some d) = refl

number_only_phonetic :
    (w : Text) (rest : List Token)
    → is_digits w ≡ true
    → designator_word w rest ≡ phonetic_unit w rest
unfolding designator_word
number_only_phonetic w rest h =
    rw
      (
        no_two_word_unit w rest h,
        no_prefix_word w h,
        no_phonetic_word w h,
        no_spaced_code w rest h,
        no_joined_code w rest h,
      )
      (or_else-none (phonetic_unit w rest))

numbered_cases :
    (k : ℕ) (before : Text) (toks : List Token) (d : Designator)
    → numbered k before toks ≡ some d
    → (num : Text) × (n : ℕ) × (number_at toks ≡ some (num, n)) × (d.n ≡ k + n)
unfolding numbered
numbered_cases k before toks d e = elim (Option-cases (number_at toks)) [
  | inl a ↦ absurd (cc (rw a at e))
  | inr ((num, n), a) ↦ (num, n, a, ground (arith, e, a))
]

phonetic_unit-PhoneticUnit :
    (w : Text) (rest : List Token) (d : Designator)
    → phonetic_unit w rest ≡ some d
    → PhoneticUnit rest d
unfolding phonetic_unit
phonetic_unit-PhoneticUnit w [] d e = absurd (cc (e))
phonetic_unit-PhoneticUnit w (pause ∷ toks) d e = absurd (
    cc (
      rw (empty_not_phonetic, and_false (is_digits w) (leb (length w) 2) (not (is_empty toks))) at
        e))
phonetic_unit-PhoneticUnit w (word p ∷ toks) d e =
    elim (Bool-cases
      (is_digits w && leb (length w) 2 && not (is_empty toks) && is_phonetic_word p)) [
        | inr f ↦ absurd (cc (rw f at e))
        | inl f ↦
            let (num, n, a, b) = numbered_cases 2 _ toks d (rw f at e) in
            record {
              phonetic = p;
              toks = toks;
              number = num;
              n = n;
              front = refl;
              is_phonetic = last_true (is_digits w) (leb (length w) 2) (not (is_empty toks)) _ f;
              is_number = a;
              length_lem = b;
            }
      ]

-- A token of digits alone opens a designator only before a phonetic word and a number, as in
-- "1 Paul 31": a pure number is never one.
pub number_designator :
    (w : Text) (rest : List Token) (d : Designator)
    → is_digits w ≡ true
    → parse_designator_at (word w ∷ rest) ≡ some d
    → PhoneticUnit rest d
unfolding parse_designator_at
number_designator w rest d h e =
    phonetic_unit-PhoneticUnit w rest d (sym (number_only_phonetic w rest h) ∙ e)
