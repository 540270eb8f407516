-- ===== src/UnitTags/Tokens.antt =====
-- The tokenizer of extract.go.
use tr_engine.Common.{
  ℕ, Bool, true, false, ◌&&◌, ◌||◌, not, Option, none, some, List, [], ◌∷◌, ◌++◌, map, Text, bytes,
  if◌then◌else◌, ◌==◌, nat_comparable, text_comparable, keep,
}
use tr_engine.Common.Split.{split}
use tr_engine.UnitTags.Words.{
  Unicode, is_digit_rune, is_letter_rune, to_lower, is_digits, is_letters, all_parts, is_empty,
  some_char, trim_func, before_suffix,
}
use tr_engine.UnitTags.Vocabulary.{is_prefix_word, is_phonetic_word}

-- The two forms in which the source makes a token.
pub data Token : Type 0 where
  pause : Token
  word : Text → Token

-- The fields of a token.
abbrev pub text_of : Token → Text
text_of pause = []
text_of (word s) = s

abbrev pub is_break : Token → Bool
is_break pause = true
is_break (word s) = false

abbrev pub words_of : List Text → List Token
words_of = map word

-- `strings.FieldsFunc` at one character.
unfoldable pub fields : ℕ → Text → List Text
unfolding split
fields sep w = keep (λ part. not (is_empty part)) (split sep w)

-- The text before the first digit, and the text from it on.
abbrev pub first_onto : ℕ → Text × Text → Text × Text
first_onto c (a, b) = (c ∷ a, b)

unfoldable pub at_digit : Unicode → Text → Text × Text
unfolding is_digit_rune
at_digit u [] = ([], [])
at_digit u (c ∷ s) = if is_digit_rune u c then ([], c ∷ s) else first_onto c (at_digit u s)

-- "medic12" is read as "medic 12" if the letters are a known designator word.
unfoldable pub joined : Unicode → Text → List Token
unfolding at_digit is_digits is_letters is_prefix_word is_phonetic_word
joined u w =
    let (letters, rest) = at_digit u w in
    if not (is_empty letters)
      && is_digits rest
      && (is_letters letters && (is_prefix_word letters || is_phonetic_word letters))
    then word letters ∷ word rest ∷ []
    else word w ∷ []

-- Two parts about one hyphen: a word and a number.
unfoldable pub two_parts : Unicode → Text → List Text → List Token
unfolding joined is_digits is_letters is_prefix_word is_phonetic_word
two_parts u w [] = word w ∷ []
two_parts u w (a ∷ []) = word w ∷ []
two_parts u w (a ∷ b ∷ []) =
    if is_letters a && is_digits b
    then (if is_prefix_word a || is_phonetic_word a
        then word a ∷ word b ∷ []
        else joined u (a ++ b))
    else word w ∷ []
two_parts u w (a ∷ b ∷ c ∷ rest) = word w ∷ []

unfoldable pub hyphenated : Unicode → Text → List Text → List Token
unfolding two_parts all_parts is_letters
hyphenated u w parts = if all_parts parts is_letters then words_of parts else two_parts u w parts

-- What is left of a word with its apostrophes taken out.
unfoldable pub plain_word : Unicode → Text → List Token
unfolding hyphenated joined fields
plain_word u w =
    if is_empty w
    then []
    else if some_char (λ c. c == 45) w
    then hyphenated u w (fields 45 w)
    else joined u w

abbrev pub drop_apostrophes : Text → Text
drop_apostrophes = keep (λ c. not (c == 39))

abbrev pub is_mark : ℕ → Bool
is_mark c = c == 45 || c == 39

abbrev pub possessive : Unicode → Text → Option Text → List Token
possessive u w none = plain_word u (drop_apostrophes w)
possessive u w (some base) =
    if is_digits base
    then word base ∷ word (bytes "is") ∷ []
    else plain_word u (drop_apostrophes base)

unfoldable pub split_word : Unicode → Text → List Token
unfolding plain_word trim_func before_suffix is_digits
split_word u w =
    let trimmed = trim_func is_mark w in
    if is_empty trimmed
    then pause ∷ []
    else possessive u trimmed (before_suffix (bytes "'s") trimmed)

-- What the loop does with one character.
pub data Action : Type 0 where
  write : ℕ → Action
  break_here : Action
  space_here : Action

-- 8217 is the right single quotation mark, 8211 and 8212 are the en and em dashes.
abbrev pub is_boundary : ℕ → Bool
is_boundary r =
    r == b','
    || r == b'.'
    || r == b';'
    || r == b':'
    || r == b'!'
    || r == b'?'
    || r == 8211
    || r == 8212

unfoldable pub action_of : Unicode → ℕ → Action
unfolding is_letter_rune is_digit_rune
action_of u r =
    if is_letter_rune u r || is_digit_rune u r
    then write r
    else if r == 39 || r == 8217
    then write 39
    else if r == 45
    then write 45
    else if is_boundary r
    then break_here
    else space_here

unfoldable pub flush : Unicode → Text → List Token
unfolding split_word
flush u buffer = if is_empty buffer then [] else split_word u buffer

-- The loop over the runes; the tokens that it appends come in front of those of the rest.
unfoldable pub tokens_from : Unicode → Text → Text → List Token
unfolding flush action_of
tokens_from u buffer [] = flush u buffer
tokens_from u buffer (r ∷ rest) = elim (action_of u r) [
  | write c ↦ tokens_from u (buffer ++ c ∷ []) rest
  | break_here ↦ flush u buffer ++ pause ∷ tokens_from u [] rest
  | space_here ↦ flush u buffer ++ tokens_from u [] rest
]

unfoldable pub tokenize : Unicode → Text → List Token
unfolding tokens_from to_lower
tokenize u text = tokens_from u [] (map (to_lower u) text)
