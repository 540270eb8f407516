-- ===== src/UnitTags/Extract/Tests.antt =====
-- Transmissions as the tests of extract.go have them.
use tr_engine.Common.{◌≡◌, refl, true, false, some, List, [], ◌∷◌, Text, bytes}
use tr_engine.UnitTags.Words.{Unicode, is_digits, trim_func, is_space_rune}
use tr_engine.UnitTags.Tokens.{Token, pause, word, tokenize}
use tr_engine.UnitTags.Designators.{Designator, parse_designator_at, designator_at}
use tr_engine.UnitTags.Designators.Bounds.{Fits, parse_designator_at-Fits}
use tr_engine.UnitTags.Extract.Sound.{Distinct, AllStand, extract-Distinct}
use tr_engine.UnitTags.Phrases.{
  skip_lead, at_end, is_word_at, is_break_at, parse_addressee, addressee_at, another_unit_follows,
  status_at,
}
use tr_engine.UnitTags.Extract.{
  addressee_caller, this_is, found_in, scan_this_is, opening_caller, add, this_is_at,
  after_addressee, after_designator, any_key, letter_form, compact, extract, designator_keys,
  matches_tag,
}

-- Letters and digits of ASCII only.
abbrev plain : Unicode
plain = record {
  letter = λ c. false;
  digit = λ c. false;
  lower = λ c. c;
  upper = λ c. c;
  space = λ c. false;
}

program : Unit {0}
unfolding extract found_in tokenize scan_this_is opening_caller add this_is_at is_word_at at_end
    is_break_at status_at parse_designator_at skip_lead parse_addressee after_addressee
    after_designator addressee_at designator_at another_unit_follows designator_keys matches_tag
    any_key letter_form compact trim_func is_space_rune
program = tt

medic_addressing :
    extract plain (bytes "County, Medic 12 on scene")
    ≡ record { key = bytes "MEDIC 12"; display = bytes "Medic 12"; pattern = addressee_caller } ∷ []
unfolding program
medic_addressing = refl

dispatcher_calling : extract plain (bytes "Medic 12, respond to 5 Main") ≡ []
unfolding program
dispatcher_calling = refl

spoken_and_joined :
    extract plain (bytes "Engine twenty-one, this is P-338.")
    ≡ record { key = bytes "P338"; display = bytes "P338"; pattern = this_is } ∷ []
unfolding program
spoken_and_joined = refl

paul : matches_tag plain (bytes "1 PAUL 31") (bytes " BCFD 1P31 ") ≡ some true
unfolding program
paul = refl

quantity : extract plain (bytes "Engine 5 minutes out.") ≡ []
unfolding program
quantity = refl

two_keys :
    designator_keys plain (bytes "Medic one oh five, P338")
    ≡ some (bytes "MEDIC 105" ∷ bytes "P338" ∷ [])
unfolding program
two_keys = refl

abbrev medic_tokens : List Token
medic_tokens = word (bytes "medic") ∷ word (bytes "twenty") ∷ word (bytes "one") ∷ pause ∷ []

abbrev medic : Designator
medic = record { key = bytes "MEDIC 21"; display = bytes "Medic 21"; n = 3 }

medic_parses : parse_designator_at medic_tokens ≡ some medic
unfolding program
medic_parses = refl

parse_designator_at-Fits_example : Fits medic_tokens medic
parse_designator_at-Fits_example = parse_designator_at-Fits medic_tokens medic medic_parses

abbrev paul_tokens : List Token
paul_tokens = word (bytes "paul") ∷ word (bytes "31") ∷ []

abbrev one_paul : Designator
one_paul = record { key = bytes "1 PAUL 31"; display = bytes "1 Paul 31"; n = 3 }

one_paul_parses : parse_designator_at (word (bytes "1") ∷ paul_tokens) ≡ some one_paul
unfolding program
one_paul_parses = refl

one_digit : is_digits (bytes "1") ≡ true
unfolding is_digits
one_digit = refl

abbrev county : Text
county = bytes "County, Medic 12, this is Medic 12"

extract-Distinct_example :
    Distinct (extract plain county) × AllStand (tokenize plain county) (extract plain county)
extract-Distinct_example = extract-Distinct plain county
