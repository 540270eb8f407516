-- ===== src/UnitTags/Designators/Bounds.antt =====
-- What a designator consumes, and what may follow it.
use tr_engine.Common.{
  ℕ, suc, ◌+◌, ◌≤◌, ◌≡◌, refl, sym, subst, inl, inr, Bool, true, false, ◌&&◌, Option, none, some,
  List, [], ◌∷◌, ◌++◌, Text, if◌then◌else◌, length, drop, Bool-cases, nat_comparable,
  text_comparable, arith, not, leb, ◌≢◌, is_some, ◌||◌, ◌==◌, bytes,
}
use tr_engine.UnitTags.Words.{is_digits, is_empty, upper_text, ascii_upper}
use tr_engine.Common.Map.{lookup}
use tr_engine.UnitTags.Vocabulary.{
  is_phonetic_word, is_quantity_word, is_spoken_zero, ones_words, teen_words, tens_words,
}
use tr_engine.UnitTags.Tokens.{Token, pause, word}
use tr_engine.UnitTags.Designators.Numbers.{Words, number_at-IsNumber}
use tr_engine.UnitTags.Designators.{
  Designator, follow_ok, number_at, Reading, with_number, numbered, phonetic_unit, two_word_unit,
  word_unit, title_word, spaced_code, joined_code, is_short_code_letters, is_joined_code,
  designator_word, parse_designator_at, or_else, code_designator, is_numberish,
}

-- A word that neither counts nor measures: no digits, no word for a number, no quantity word, no
-- spoken zero.
pub record NoNumber (w : Text) : Type 0 where
  pub no_digits : is_digits w ≡ false
  pub no_ones : lookup w ones_words ≡ none
  pub no_teen : lookup w teen_words ≡ none
  pub no_tens : lookup w tens_words ≡ none
  pub no_hundred : w ≢ bytes "hundred"
  pub no_thousand : w ≢ bytes "thousand"
  pub no_quantity : is_quantity_word w ≡ false
  pub no_zero : is_spoken_zero w ≡ false

-- The end of the text, a pause, or a word that is no number.
abbrev pub MayFollow : List Token → Type 0
MayFollow [] = Unit {0}
MayFollow (pause ∷ rest) = Unit {0}
MayFollow (word w ∷ rest) = NoNumber w

not_some : {A : Type 0} → (o : Option A) → is_some o ≡ false → o ≡ none
not_some none e = refl
not_some (some x) e = absurd (cc (e))

not_same : (v w : Text) → (v == w) ≡ false → v ≢ w
not_same v w e same = absurd (cc (e, (text_comparable.same_iff v w).1 same))

none_of :
    (q d a b c h t z : Bool)
    → not (q || (d || (a || b || c || h || t)) || z) ≡ true
    → (q ≡ false)
      × (d ≡ false)
      × (a ≡ false)
      × (b ≡ false)
      × (c ≡ false)
      × (h ≡ false)
      × (t ≡ false)
      × (z ≡ false)
none_of q d a b c h t z e = ground (arith, e)

follow_ok-MayFollow : (toks : List Token) → follow_ok toks ≡ true → MayFollow toks
unfolding follow_ok is_numberish
follow_ok-MayFollow [] e = tt
follow_ok-MayFollow (pause ∷ rest) e = tt
follow_ok-MayFollow (word w ∷ rest) e =
    let (q, d, a, b, c, h, t, z) =
      none_of (is_quantity_word w) (is_digits w) (is_some (lookup w ones_words))
        (is_some (lookup w teen_words)) (is_some (lookup w tens_words)) (w == bytes "hundred")
        (w == bytes "thousand") (is_spoken_zero w) e in
    record {
      no_digits = d;
      no_ones = not_some (lookup w ones_words) a;
      no_teen = not_some (lookup w teen_words) b;
      no_tens = not_some (lookup w tens_words) c;
      no_hundred = not_same w (bytes "hundred") h;
      no_thousand = not_same w (bytes "thousand") t;
      no_quantity = q;
      no_zero = z;
    }

-- A designator at the front of the tokens: it takes one to five of them, all words, no number or
-- quantity follows, and its key is what it shows, in capitals.
pub record Fits (toks : List Token) (d : Designator) : Type 0 where
  pub some_word : 1 ≤ d.n
  pub few_words : d.n ≤ 5
  pub words : Words d.n toks
  pub followed : MayFollow (drop d.n toks)
  pub keyed : d.key ≡ upper_text d.display

abbrev pub FitsIf : List Token → Option Designator → Type 0
FitsIf toks none = Unit {0}
FitsIf toks (some d) = Fits toks d

or_else-FitsIf :
    (toks : List Token) (o p : Option Designator)
    → FitsIf toks o
    → FitsIf toks p
    → FitsIf toks (or_else o p)
or_else-FitsIf toks none p h k = k
or_else-FitsIf toks (some d) p h k = h

-- `k` words in front of the number.
abbrev Heads : ℕ → List Token → List Token → Type 0
Heads k all toks = (n : ℕ) → Words n toks → Words (k + n) all × (drop (k + n) all ≡ drop n toks)

one_add : (n : ℕ) → 1 + n ≡ suc n
one_add n = omega arith

two_add : (n : ℕ) → 2 + n ≡ suc (suc n)
two_add n = omega arith

Heads-one : (w : Text) (toks : List Token) → Heads 1 (word w ∷ toks) toks
Heads-one w toks n h = rw (one_add n) (h, refl)

Heads-two : (v w : Text) (toks : List Token) → Heads 2 (word v ∷ word w ∷ toks) toks
Heads-two v w toks n h = rw (two_add n) (h, refl)

with_number-FitsIf :
    (k : ℕ) (before : Text) (all toks : List Token) (r : Reading)
    → 1 ≤ k
    → k ≤ 2
    → Heads k all toks
    → number_at toks ≡ r
    → FitsIf all (with_number k before toks r)
with_number-FitsIf k before all toks none lo hi heads e = tt
with_number-FitsIf k before all toks (some (num, n)) lo hi heads e =
    elim (Bool-cases (follow_ok (drop n toks))) [
      | inr f ↦ rw f tt
      | inl f ↦
          let i = number_at-IsNumber toks num n e in
          let (w, dropped) = heads n i.words in
          rw f (record {
            some_word = omega (arith, i.some_word);
            few_words = omega (arith, i.few_words);
            words = w;
            followed = subst MayFollow (sym dropped) (follow_ok-MayFollow (drop n toks) f);
            keyed = refl;
          })
    ]

numbered-FitsIf :
    (k : ℕ) (before : Text) (all toks : List Token)
    → 1 ≤ k
    → k ≤ 2
    → Heads k all toks
    → FitsIf all (numbered k before toks)
unfolding numbered
numbered-FitsIf k before all toks lo hi heads =
    with_number-FitsIf k before all toks (number_at toks) lo hi heads refl

if-FitsIf :
    (all : List Token) (b : Bool) (o : Option Designator)
    → (b ≡ true → FitsIf all o)
    → FitsIf all (if b then o else none)
if-FitsIf all true o h = h refl
if-FitsIf all false o h = tt

pub empty_not_phonetic : is_phonetic_word [] ≡ false
unfolding is_phonetic_word
empty_not_phonetic = refl

pub and_false : (a b c : Bool) → (a && b && c && false) ≡ false
and_false a b c = ground arith

phonetic_unit-FitsIf :
    (w : Text) (rest : List Token) → FitsIf (word w ∷ rest) (phonetic_unit w rest)
unfolding phonetic_unit
phonetic_unit-FitsIf w [] = tt
phonetic_unit-FitsIf w (pause ∷ toks) =
    rw (empty_not_phonetic, and_false (is_digits w) (leb (length w) 2) (not (is_empty toks))) tt
phonetic_unit-FitsIf w (word p ∷ toks) = if-FitsIf (word w ∷ word p ∷ toks) _ _ (λ _.
    numbered-FitsIf 2 (w ++ 32 ∷ (title_word p ++ 32 ∷ [])) (word w ∷ word p ∷ toks) toks
      (omega arith) (omega arith) (Heads-two w p toks))

two_word_unit-FitsIf :
    (w : Text) (rest : List Token) → FitsIf (word w ∷ rest) (two_word_unit w rest)
unfolding two_word_unit
two_word_unit-FitsIf w [] = tt
two_word_unit-FitsIf w (pause ∷ toks) = tt
two_word_unit-FitsIf w (word p ∷ toks) = if-FitsIf (word w ∷ word p ∷ toks) _ _ (λ _.
    numbered-FitsIf 2 (title_word w ++ 32 ∷ (title_word p ++ 32 ∷ [])) (word w ∷ word p ∷ toks) toks
      (omega arith) (omega arith) (Heads-two w p toks))

word_unit-FitsIf : (w : Text) (rest : List Token) → FitsIf (word w ∷ rest) (word_unit w rest)
unfolding word_unit
word_unit-FitsIf w rest =
    numbered-FitsIf 1 (title_word w ++ 32 ∷ []) (word w ∷ rest) rest (omega arith) (omega arith)
      (Heads-one w rest)

ascii_upper_twice : (c : ℕ) → ascii_upper (ascii_upper c) ≡ ascii_upper c
ascii_upper_twice c = ground arith

upper_text_twice : (s : Text) → upper_text (upper_text s) ≡ upper_text s
upper_text_twice [] = refl
upper_text_twice (c ∷ s) = rw (ascii_upper_twice c, upper_text_twice s) refl

last_of_four : (a b c d : Bool) → (a && (b && c && d)) ≡ true → d ≡ true
last_of_four a b c d h = ground (arith, h)

spaced_code-FitsIf : (w : Text) (rest : List Token) → FitsIf (word w ∷ rest) (spaced_code w rest)
unfolding spaced_code
spaced_code-FitsIf w [] = tt
spaced_code-FitsIf w (pause ∷ toks) = tt
spaced_code-FitsIf w (word d ∷ toks) =
    if-FitsIf (word w ∷ word d ∷ toks)
      (is_short_code_letters w && (is_digits d && leb (length d) 4 && follow_ok toks))
      (some (code_designator (w ++ d) 2))
      λ h. record {
        some_word = omega arith;
        few_words = omega arith;
        words = tt;
        followed = follow_ok-MayFollow toks (
            last_of_four (is_short_code_letters w) (is_digits d) (leb (length d) 4) (follow_ok toks)
              h);
        keyed = sym (upper_text_twice (w ++ d));
      }

and_right : (a b : Bool) → (a && b) ≡ true → b ≡ true
and_right a b h = ground (arith, h)

joined_code-FitsIf : (w : Text) (rest : List Token) → FitsIf (word w ∷ rest) (joined_code w rest)
unfolding joined_code
joined_code-FitsIf w rest =
    if-FitsIf (word w ∷ rest) (is_joined_code w && follow_ok rest) (some (code_designator w 1)) λ h.
      record {
        some_word = omega arith;
        few_words = omega arith;
        words = tt;
        followed = follow_ok-MayFollow rest (and_right (is_joined_code w) (follow_ok rest) h);
        keyed = sym (upper_text_twice w);
      }

choose-FitsIf :
    (all : List Token) (b : Bool) (o p : Option Designator)
    → FitsIf all o
    → FitsIf all p
    → FitsIf all (if b then o else p)
choose-FitsIf all true o p h k = h
choose-FitsIf all false o p h k = k

designator_word-FitsIf :
    (w : Text) (rest : List Token) → FitsIf (word w ∷ rest) (designator_word w rest)
unfolding designator_word
designator_word-FitsIf w rest =
    let all : List Token = word w ∷ rest in
    or_else-FitsIf all _ _ (phonetic_unit-FitsIf w rest) (
      or_else-FitsIf all _ _ (two_word_unit-FitsIf w rest) (
        choose-FitsIf all _ _ _ (word_unit-FitsIf w rest)
          (or_else-FitsIf all _ _ (spaced_code-FitsIf w rest) (joined_code-FitsIf w rest))))

-- A designator that is recognized fits: it consumes one to five tokens that are there and are
-- words; what follows it is the end, a pause, or a word that is neither digits, a number word, a
-- quantity word nor a spoken zero; and its key is its display in capitals.
pub parse_designator_at-Fits :
    (toks : List Token) (d : Designator) → parse_designator_at toks ≡ some d → Fits toks d
unfolding parse_designator_at
parse_designator_at-Fits [] d e = absurd (cc (e))
parse_designator_at-Fits (pause ∷ rest) d e = absurd (cc (e))
parse_designator_at-Fits (word w ∷ rest) d e =
    subst (FitsIf (word w ∷ rest)) e (designator_word-FitsIf w rest)
