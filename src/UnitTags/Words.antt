-- ===== src/UnitTags/Words.antt =====
-- The character tests and word helpers of extract.go. The Unicode tables of Go's standard library
-- are a parameter, for the code points above ASCII.
use tr_engine.Common.{
  ℕ, ◌+◌, ◌-◌, Bool, true, false, ◌&&◌, ◌||◌, Option, none, some, List, [], ◌∷◌, map, Text,
  if◌then◌else◌, ltb, leb, ◌==◌, nat_comparable, text_comparable,
}

pub record Unicode : Type 0 where
  pub letter : ℕ → Bool
  pub digit : ℕ → Bool
  pub lower : ℕ → ℕ
  pub upper : ℕ → ℕ
  pub space : ℕ → Bool

abbrev pub is_ascii_digit : ℕ → Bool
is_ascii_digit c = leb b'0' c && leb c b'9'

abbrev pub is_ascii_lower : ℕ → Bool
is_ascii_lower c = leb b'a' c && leb c b'z'

abbrev pub is_ascii_upper : ℕ → Bool
is_ascii_upper c = leb b'A' c && leb c b'Z'

-- `strings.ToUpper` on an ASCII character.
abbrev pub ascii_upper : ℕ → ℕ
ascii_upper c = if is_ascii_lower c then c - 32 else c

abbrev pub upper_text : Text → Text
upper_text = map ascii_upper

module _ (unicode : Unicode) where
  unfoldable pub is_digit_rune : ℕ → Bool
  is_digit_rune c = if ltb c 128 then is_ascii_digit c else unicode.digit c

  unfoldable pub is_letter_rune : ℕ → Bool
  is_letter_rune c = if ltb c 128 then is_ascii_lower c || is_ascii_upper c else unicode.letter c

  unfoldable pub to_lower : ℕ → ℕ
  to_lower c = if ltb c 128 then (if is_ascii_upper c then c + 32 else c) else unicode.lower c

  unfoldable pub to_upper : ℕ → ℕ
  to_upper c = if ltb c 128 then ascii_upper c else unicode.upper c

  unfoldable pub is_space_rune : ℕ → Bool
  is_space_rune c =
      if ltb c 128
      then c == 9 || c == 10 || c == 11 || c == 12 || c == 13 || c == 32
      else unicode.space c

abbrev pub all_chars : (ℕ → Bool) → Text → Bool
all_chars p [] = true
all_chars p (c ∷ s) = p c && all_chars p s

abbrev pub some_char : (ℕ → Bool) → Text → Bool
some_char p [] = false
some_char p (c ∷ s) = p c || some_char p s

abbrev pub is_empty {ℓ} : {A : Type ℓ} → List A → Bool
is_empty [] = true
is_empty (x ∷ xs) = false

unfoldable pub is_digits : Text → Bool
is_digits s = if is_empty s then false else all_chars is_ascii_digit s

unfoldable pub is_letters : Text → Bool
is_letters s = if is_empty s then false else all_chars is_ascii_lower s

-- A word that one of the maps or sets of the vocabulary holds.
abbrev pub all_texts : (Text → Bool) → List Text → Bool
all_texts p [] = true
all_texts p (s ∷ rest) = p s && all_texts p rest

unfoldable pub all_parts : List Text → (Text → Bool) → Bool
all_parts parts p = if is_empty parts then false else all_texts p parts

abbrev pub is_vowel : ℕ → Bool
is_vowel c = c == b'a' || c == b'e' || c == b'i' || c == b'o' || c == b'u'

-- `strings.TrimFunc`.
unfoldable pub trim_front : (ℕ → Bool) → Text → Text
trim_front p [] = []
trim_front p (c ∷ s) = if p c then trim_front p s else c ∷ s

abbrev pub trim_onto : (ℕ → Bool) → ℕ → Text → Text
trim_onto p c [] = if p c then [] else c ∷ []
trim_onto p c (d ∷ s) = c ∷ d ∷ s

unfoldable pub trim_back : (ℕ → Bool) → Text → Text
trim_back p [] = []
trim_back p (c ∷ s) = trim_onto p c (trim_back p s)

unfoldable pub trim_func : (ℕ → Bool) → Text → Text
unfolding trim_front trim_back
trim_func p s = trim_front p (trim_back p s)

abbrev pub put_front : ℕ → Option Text → Option Text
put_front c none = none
put_front c (some s) = some (c ∷ s)

-- `strings.HasSuffix`, with the text before the suffix.
unfoldable pub before_suffix : Text → Text → Option Text
before_suffix suffix [] = if suffix == [] then some [] else none
before_suffix suffix (c ∷ s) =
    if suffix == c ∷ s then some [] else put_front c (before_suffix suffix s)
