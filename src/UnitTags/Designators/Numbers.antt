-- ===== src/UnitTags/Designators/Numbers.antt =====
-- What a unit number is.
use tr_engine.Common.{
  ℕ, zero, suc, ◌+◌, ◌≤◌, ◌≡◌, refl, subst, inl, inr, Bool, true, false, ◌&&◌, Option, none, some,
  List, [], ◌∷◌, ◌++◌, Text, ltb, length, length-append, Bool-cases, Option-cases, nat_comparable,
  text_comparable, arith, ◌==◌, all_of,
}
use tr_engine.Common.Map.{Map, lookup}
use tr_engine.UnitTags.Words.{is_digits, all_chars, is_ascii_digit}
use tr_engine.UnitTags.Vocabulary.{ones_words, teen_words, tens_words, is_spoken_zero}
use tr_engine.UnitTags.Tokens.{Token, pause, word}
use tr_engine.UnitTags.Designators.{
  spoken_digit, digits_from, drop_zeros, unless_last_zero, kept_digits, join, spoken_number,
  number_word, number_at, tens_with, ones_after, nonzero,
}

-- The first `n` tokens are there, and are words.
abbrev pub Words : ℕ → List Token → Type 0
Words zero toks = Unit {0}
Words (suc n) [] = ⊥
Words (suc n) (pause ∷ rest) = ⊥
Words (suc n) (word w ∷ rest) = Words n rest

pub Words-length : (n : ℕ) (toks : List Token) → Words n toks → n ≤ length toks
Words-length zero toks h = omega arith
Words-length (suc n) [] h = absurd h
Words-length (suc n) (pause ∷ rest) h = absurd h
Words-length (suc n) (word w ∷ rest) h = omega (arith, Words-length n rest h)

-- `num` is one to four digits, read off the first `n` tokens, one to three words.
pub record IsNumber (toks : List Token) (num : Text) (n : ℕ) : Type 0 where
  pub digits : all_chars is_ascii_digit num ≡ true
  pub some_digit : 1 ≤ length num
  pub few_digits : length num ≤ 4
  pub some_word : 1 ≤ n
  pub few_words : n ≤ 3
  pub words : Words n toks

lookup-all_of {ℓ} :
    {V : Type ℓ} (test : V → Bool) (m : Map Text V) (w : Text) (v : V)
    → all_of (λ (entry : Text × V). test entry.1) m ≡ true
    → lookup w m ≡ some v
    → test v ≡ true
unfolding lookup
lookup-all_of test [] w v h e = absurd (cc (e))
lookup-all_of test ((held, value) ∷ m) w v h e = ground (arith, lookup-all_of test m w v)

abbrev is_digit_text : Text → Bool
is_digit_text o = all_chars is_ascii_digit o && length o == 1

abbrev is_teen_text : Text → Bool
is_teen_text o = all_chars is_ascii_digit o && length o == 2

ones-digit : (w o : Text) → lookup w ones_words ≡ some o → is_digit_text o ≡ true
ones-digit w o e = lookup-all_of is_digit_text ones_words w o refl e

teen-digits : (w o : Text) → lookup w teen_words ≡ some o → is_teen_text o ≡ true
teen-digits w o e = lookup-all_of is_teen_text teen_words w o refl e

tens-digit : (w : Text) (v : ℕ) → lookup w tens_words ≡ some v → ltb v 10 ≡ true
tens-digit w v e = lookup-all_of (λ v. ltb v 10) tens_words w v refl e

all_chars-append :
    (s t : Text)
    → all_chars is_ascii_digit s ≡ true
    → all_chars is_ascii_digit t ≡ true
    → all_chars is_ascii_digit (s ++ t) ≡ true
all_chars-append [] t p q = q
all_chars-append (c ∷ s) t p q = ground (arith, all_chars-append s t)

-- Every digit of a spoken number is one digit.
abbrev Digits : List (Text × Text) → Type 0
Digits [] = Unit {0}
Digits ((w, o) ∷ rest) = (is_digit_text o ≡ true) × Digits rest

join-Digits :
    (ds : List (Text × Text))
    → Digits ds
    → (all_chars is_ascii_digit (join ds) ≡ true) × (length (join ds) ≡ length ds)
join-Digits [] h = (refl, refl)
join-Digits ((w, o) ∷ rest) h =
    let (p, q) = join-Digits rest h.1 in
    (
      all_chars-append o (join rest) (ground (arith, h.0)) p,
      ground (arith, length-append o (join rest), h.0),
    )

spoken_digit-digit :
    (first : Bool) (w o : Text) → spoken_digit first w ≡ some o → is_digit_text o ≡ true
unfolding spoken_digit
spoken_digit-digit first w o e = elim (Option-cases (lookup w ones_words)) [
  | inl none' ↦ ground (arith, e)
  | inr (o', found) ↦ ground (arith, ones-digit w o' found)
]

abbrev Spoken : ℕ → List Token → List (Text × Text) → Type 0
Spoken k toks ds = (length ds ≤ k) × Words (length ds) toks × Digits ds

digits_from-Spoken :
    (k : ℕ) (first : Bool) (toks : List Token) → Spoken k toks (digits_from k first toks)
unfolding digits_from
digits_from-Spoken zero first toks = (omega arith, tt, tt)
digits_from-Spoken (suc k) first [] = (omega arith, tt, tt)
digits_from-Spoken (suc k) first (pause ∷ rest) = (omega arith, tt, tt)
digits_from-Spoken (suc k) first (word w ∷ rest) = elim (Option-cases (spoken_digit first w)) [
  | inl e ↦ rw e (omega arith, tt, tt)
  | inr (o, e) ↦
      let (p, q, r) = digits_from-Spoken k false rest in
      rw e (omega (arith, p), q, (spoken_digit-digit first w o e, r))
]

Words-le : (m n : ℕ) (toks : List Token) → m ≤ n → Words n toks → Words m toks
Words-le zero n toks h p = tt
Words-le (suc m) zero toks h p = absurd (omega arith)
Words-le (suc m) (suc n) [] h p = absurd p
Words-le (suc m) (suc n) (pause ∷ rest) h p = absurd p
Words-le (suc m) (suc n) (word w ∷ rest) h p = Words-le m n rest (omega arith) p

-- A list that gives some of the digits back.
abbrev Fewer : List (Text × Text) → List (Text × Text) → Type 0
Fewer few ds = (length few ≤ length ds) × (Digits ds → Digits few)

unless_last_zero-Fewer :
    (d : Text × Text) (few ds : List (Text × Text))
    → Fewer few ds
    → Fewer (unless_last_zero d few) (d ∷ ds)
unless_last_zero-Fewer (w, o) (e ∷ few) ds h = (omega (arith, h.0), λ p. (p.0, h.1 p.1))
unless_last_zero-Fewer (w, o) [] ds h = elim (Bool-cases (is_spoken_zero w)) [
  | inl e ↦ rw e (omega arith, λ p. tt)
  | inr e ↦ rw e (omega arith, λ p. (p.0, tt))
]

drop_zeros-Fewer : (ds : List (Text × Text)) → Fewer (drop_zeros ds) ds
unfolding drop_zeros
drop_zeros-Fewer [] = (omega arith, λ p. p)
drop_zeros-Fewer (d ∷ rest) =
    unless_last_zero-Fewer d (drop_zeros rest) rest (drop_zeros-Fewer rest)

kept_digits-Fewer : (ds : List (Text × Text)) → Fewer (kept_digits ds) ds
unfolding kept_digits
kept_digits-Fewer [] = (omega arith, λ p. p)
kept_digits-Fewer (d ∷ rest) =
    let (p, q) = drop_zeros-Fewer rest in (omega (arith, p), λ r. (r.0, q r.1))

kept_digits-some : (ds : List (Text × Text)) → 1 ≤ length ds → 1 ≤ length (kept_digits ds)
unfolding kept_digits
kept_digits-some [] h = h
kept_digits-some (d ∷ rest) h = omega arith

digits_from-some :
    (w o : Text) (rest : List Token)
    → lookup w ones_words ≡ some o
    → 1 ≤ length (digits_from 3 true (word w ∷ rest))
unfolding digits_from spoken_digit
digits_from-some w o rest e = rw e (omega arith)

abbrev ReadsNumber : List Token → Text × ℕ → Type 0
ReadsNumber toks (num, n) = IsNumber toks num n

spoken_number-IsNumber :
    (w o : Text) (rest : List Token)
    → lookup w ones_words ≡ some o
    → ReadsNumber (word w ∷ rest) (spoken_number (word w ∷ rest))
unfolding spoken_number
spoken_number-IsNumber w o rest e =
    let toks : List Token = word w ∷ rest in
    let ds = digits_from 3 true toks in
    let (short, here, digits) = digits_from-Spoken 3 true toks in
    let (fewer, kept) = kept_digits-Fewer ds in
    let some_kept = kept_digits-some ds (digits_from-some w o rest e) in
    let (all, count) = join-Digits (kept_digits ds) (kept digits) in
    record {
      digits = all;
      some_digit = omega (arith, count, some_kept);
      few_digits = omega (arith, count, fewer, short);
      some_word = some_kept;
      few_words = omega (arith, fewer, short);
      words = Words-le (length (kept_digits ds)) (length ds) toks fewer here;
    }

tens_digit-ascii : (v : ℕ) → ltb v 10 ≡ true → is_ascii_digit (b'0' + v) ≡ true
tens_digit-ascii v h = ground arith

tens_with-IsNumber :
    (w : Text) (v : ℕ) (rest : List Token)
    → ltb v 10 ≡ true
    → ReadsNumber (word w ∷ rest) (tens_with v (ones_after rest))
tens_with-IsNumber w v [] h = ground (arith, tens_digit-ascii v h)
tens_with-IsNumber w v (pause ∷ rest) h = ground (arith, tens_digit-ascii v h)
tens_with-IsNumber w v (word u ∷ rest) h = elim (Option-cases (nonzero (lookup u ones_words))) [
  | inl e ↦ rw e (ground (arith, tens_digit-ascii v h))
  | inr (o, e) ↦
      let found : lookup u ones_words ≡ some o = ground (arith, e) in
      rw e (ground (arith, tens_digit-ascii v h, ones-digit u o found))
]

is_digits-all :
    (w : Text) → is_digits w ≡ true → (all_chars is_ascii_digit w ≡ true) × (1 ≤ length w)
unfolding is_digits
is_digits-all [] h = absurd (cc (h))
is_digits-all (c ∷ w) h = (h, omega arith)

teen-IsNumber :
    (w v : Text) (rest : List Token) → is_teen_text v ≡ true → IsNumber (word w ∷ rest) v 1
teen-IsNumber w v rest h = ground arith

numeral-IsNumber :
    (w : Text) (rest : List Token)
    → is_digits w ≡ true
    → ltb 4 (length w) ≡ false
    → IsNumber (word w ∷ rest) w 1
numeral-IsNumber w rest h few = ground (arith, is_digits-all w h)

abbrev ReadsIf : List Token → Option (Text × ℕ) → Type 0
ReadsIf toks none = Unit {0}
ReadsIf toks (some r) = ReadsNumber toks r

number_word-ReadsIf : (w : Text) (rest : List Token) → ReadsIf (word w ∷ rest) (number_word w rest)
unfolding number_word
number_word-ReadsIf w rest = elim (Bool-cases (is_digits w)) [
  | inl d ↦ elim (Bool-cases (ltb 4 (length w))) [
    | inl long ↦ rw (d, long) tt
    | inr few ↦ rw (d, few) (numeral-IsNumber w rest d few)
  ]
  | inr d ↦ elim (Option-cases (lookup w tens_words)) [
    | inr (v, e) ↦ rw (d, e) (tens_with-IsNumber w v rest (tens-digit w v e))
    | inl e ↦ elim (Option-cases (lookup w teen_words)) [
      | inr (v, f) ↦ rw (d, e, f) (teen-IsNumber w v rest (teen-digits w v f))
      | inl f ↦ elim (Option-cases (lookup w ones_words)) [
        | inr (o, g) ↦ rw (d, e, f, g) (spoken_number-IsNumber w o rest g)
        | inl g ↦ rw (d, e, f, g) tt
      ]
    ]
  ]
]

pub number_at-IsNumber :
    (toks : List Token) (num : Text) (n : ℕ) → number_at toks ≡ some (num, n) → IsNumber toks num n
unfolding number_at
number_at-IsNumber [] num n e = absurd (cc (e))
number_at-IsNumber (pause ∷ rest) num n e = absurd (cc (e))
number_at-IsNumber (word w ∷ rest) num n e =
    subst (ReadsIf (word w ∷ rest)) e (number_word-ReadsIf w rest)
