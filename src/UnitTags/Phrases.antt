-- ===== src/UnitTags/Phrases.antt =====
-- The positional helpers of extract.go.
use tr_engine.Common.{
  ℕ, zero, suc, Bool, true, false, ◌&&◌, ◌||◌, not, Option, none, some, List, [], ◌∷◌, Text, bytes,
  if◌then◌else◌, ◌==◌, nat_comparable, text_comparable, is_some,
}
use tr_engine.UnitTags.Words.{is_letters}
use tr_engine.UnitTags.Vocabulary.{
  is_prefix_word, is_phonetic_word, is_dispatch_word, is_agency_word, is_place_stop_word,
  is_status_subject, is_filler_word, status_phrases,
}
use tr_engine.UnitTags.Tokens.{Token, pause, word}
use tr_engine.UnitTags.Designators.{is_numberish, designator_at}

unfoldable pub is_plain_word : Text → Bool
unfolding is_letters is_prefix_word is_phonetic_word is_numberish is_place_stop_word
is_plain_word w = not (
    not (is_letters w)
    || is_prefix_word w
    || is_phonetic_word w
    || is_numberish w
    || is_place_stop_word w)

unfoldable pub skip_lead : List Token → List Token
unfolding is_filler_word
skip_lead [] = []
skip_lead (pause ∷ rest) = skip_lead rest
skip_lead (word w ∷ rest) = if is_filler_word w then skip_lead rest else word w ∷ rest

unfoldable pub at_end : List Token → Bool
at_end [] = true
at_end (pause ∷ rest) = at_end rest
at_end (word w ∷ rest) = w == bytes "over" && at_end rest

unfoldable pub is_word_at : List Token → Text → Bool
is_word_at [] w = false
is_word_at (pause ∷ rest) w = false
is_word_at (word v ∷ rest) w = v == w

unfoldable pub is_break_at : List Token → Bool
is_break_at [] = false
is_break_at (pause ∷ rest) = true
is_break_at (word v ∷ rest) = false

-- The agency words behind a dispatch word, at most as many as the first argument.
unfoldable pub skip_agency : ℕ → List Token → List Token
unfolding is_agency_word
skip_agency zero toks = toks
skip_agency (suc k) [] = []
skip_agency (suc k) (pause ∷ rest) = pause ∷ rest
skip_agency (suc k) (word w ∷ rest) =
    let further = skip_agency k rest in if is_agency_word w then further else word w ∷ rest

-- The loop over `lead`; what remains after the addressee.
unfoldable pub addressee_from : ℕ → List Token → Option (List Token)
unfolding is_dispatch_word is_plain_word skip_agency
addressee_from zero toks = none
addressee_from (suc k) [] = none
addressee_from (suc k) (pause ∷ rest) = none
addressee_from (suc k) (word w ∷ rest) =
    let further = addressee_from k rest in
    if is_dispatch_word w
    then some (skip_agency 2 rest)
    else if not (is_plain_word w)
    then none
    else further

unfoldable pub parse_addressee : List Token → Option (List Token)
unfolding addressee_from
parse_addressee toks = addressee_from 3 toks

unfoldable pub addressee_at : List Token → Bool
unfolding parse_addressee
addressee_at toks = is_some (parse_addressee toks)

abbrev pub after_and : List Token → List Token
after_and [] = []
after_and (t ∷ rest) = if is_word_at (t ∷ rest) (bytes "and") then skip_lead rest else t ∷ rest

unfoldable pub another_unit_follows : List Token → Bool
unfolding skip_lead is_word_at designator_at
another_unit_follows toks = designator_at (after_and (skip_lead toks))

unfoldable pub phrase_at : List Token → List Text → Bool
phrase_at toks [] = true
phrase_at [] (w ∷ phrase) = false
phrase_at (pause ∷ rest) (w ∷ phrase) = false
phrase_at (word v ∷ rest) (w ∷ phrase) = v == w && phrase_at rest phrase

abbrev pub any_phrase_at : List Token → List (List Text) → Bool
any_phrase_at toks [] = false
any_phrase_at toks (phrase ∷ phrases) = phrase_at toks phrase || any_phrase_at toks phrases

-- The loop over `skip`.
unfoldable pub status_from : ℕ → List Token → Bool
unfolding phrase_at is_status_subject status_phrases
status_from zero toks = false
status_from (suc k) [] = any_phrase_at [] status_phrases
status_from (suc k) (pause ∷ rest) = any_phrase_at (pause ∷ rest) status_phrases
status_from (suc k) (word w ∷ rest) =
    let further = status_from k rest in
    if any_phrase_at (word w ∷ rest) status_phrases
    then true
    else if not (is_status_subject w)
    then false
    else further

unfoldable pub status_at : List Token → Bool
unfolding status_from
status_at toks = status_from 3 toks
