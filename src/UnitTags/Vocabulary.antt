-- ===== src/UnitTags/Vocabulary.antt =====
-- The vocabulary of extract.go. A set is given by lines of its words, with spaces between
-- them.
use Prim.Native.String.{String}
use tr_engine.Common.{false, ℕ, Bool, Option, List, [], ◌∷◌, Text, bytes, text_comparable, ◌||◌}
use tr_engine.Common.Split.{split, is_one_of}
use tr_engine.Common.Map.{Map, lookup}

-- `set(words...)`.
unfoldable pub one_of : List String → Text → Bool
unfolding split is_one_of
one_of [] w = false
one_of (names ∷ more) w = is_one_of (split 32 (bytes names)) w || one_of more w

abbrev pub prefix_words : List String
prefix_words =
    "engine ladder truck tower quint rescue squad medic ambulance tanker tender brush"
    ∷ "battalion chief safety utility hazmat marine boat air car unit deputy sergeant"
    ∷ "sarge lieutenant captain trooper officer detective patrol k9 canine supervisor"
    ∷ "marshal constable warden ranger rehab support wagon attack" ∷ []

unfoldable pub is_prefix_word : Text → Bool
unfolding one_of
is_prefix_word = one_of prefix_words

abbrev pub phonetic_words : List String
phonetic_words =
    "adam boy charles david edward frank george henry ida john king lincoln mary nora"
    ∷ "ocean paul queen robert sam tom union victor william xray young zebra alpha"
    ∷ "bravo charlie delta echo foxtrot golf hotel india juliet kilo lima mike november"
    ∷ "oscar papa quebec romeo sierra tango uniform whiskey yankee zulu" ∷ []

unfoldable pub is_phonetic_word : Text → Bool
unfolding one_of
is_phonetic_word = one_of phonetic_words

-- The keys of this set hold a space, so it is a list of texts.
abbrev pub two_word_prefixes : List Text
two_word_prefixes =
    bytes "battalion chief"
    ∷ bytes "district chief"
    ∷ bytes "deputy chief"
    ∷ bytes "assistant chief"
    ∷ bytes "division chief"
    ∷ bytes "fire chief"
    ∷ bytes "heavy rescue"
    ∷ bytes "air medic"
    ∷ bytes "mobile command"
    ∷ []

unfoldable pub is_two_word_prefix : Text → Bool
unfolding is_one_of
is_two_word_prefix = is_one_of two_word_prefixes

unfoldable pub is_dispatch_word : Text → Bool
unfolding one_of
is_dispatch_word = one_of (
    "dispatch dispatcher county control comm comms communications central radio base"
    ∷ "headquarters hq command ecc eoc psap" ∷ [])

unfoldable pub is_agency_word : Text → Bool
unfolding one_of
is_agency_word =
    one_of (
      "fire ems police sheriff pd fd so dispatch county control communications comm" ∷ "comms" ∷ [])

unfoldable pub is_place_stop_word : Text → Bool
unfolding one_of
is_place_stop_word = one_of (
    "this that these those here there it its is are was be the a an to for at from"
    ∷ "with of on in into by and or but go i im we were you your youre he she they my"
    ∷ "our his her their me us him them" ∷ [])

-- The phrases, each a list of words.
unfoldable pub status_phrases : List (List Text)
unfolding split
status_phrases = phrases
  where
    phrase : String → List Text
    phrase words = split 32 (bytes words)

    phrases : List (List Text)
    phrases =
        phrase "on scene"
        ∷ phrase "on the scene"
        ∷ phrase "onscene"
        ∷ phrase "on location"
        ∷ phrase "arrived"
        ∷ phrase "arriving"
        ∷ phrase "responding"
        ∷ phrase "en route"
        ∷ phrase "enroute"
        ∷ phrase "in route"
        ∷ phrase "returning"
        ∷ phrase "clear"
        ∷ phrase "cleared"
        ∷ phrase "in service"
        ∷ phrase "back in service"
        ∷ phrase "available"
        ∷ phrase "in quarters"
        ∷ phrase "out of service"
        ∷ phrase "staging"
        ∷ phrase "staged"
        ∷ phrase "transporting"
        ∷ phrase "copies"
        ∷ phrase "out at"
        ∷ phrase "out with"
        ∷ phrase "on the way"
        ∷ phrase "10-8"
        ∷ phrase "10-97"
        ∷ phrase "10-23"
        ∷ phrase "10-76"
        ∷ phrase "10-7"
        ∷ []

unfoldable pub is_status_subject : Text → Bool
unfolding one_of
is_status_subject = one_of ("is were we are im i am will be well ill show us me" ∷ [])

unfoldable pub is_filler_word : Text → Bool
unfolding one_of
is_filler_word = one_of ("uh um umm uhm uhh er ah hm hmm" ∷ [])

unfoldable pub is_quantity_word : Text → Bool
unfolding one_of
is_quantity_word = one_of (
    "minute minutes min mins second seconds sec secs hour hours hr hrs mile miles"
    ∷ "block blocks feet foot ft yard yards percent year years yr yrs month months day"
    ∷ "days week weeks units cars vehicle vehicles patient patients people person"
    ∷ "persons pound pounds lb lbs degree degrees am pm oclock times story stories"
    ∷ "hundred thousand mph north south east west northbound southbound eastbound" ∷ "westbound"
    ∷ [])

unfoldable pub is_code_exclusion : Text → Bool
unfolding one_of
is_code_exclusion = one_of (
    "i sr us rt rte cr hwy st rd dr ln ct mm mi ft hr hrs min sec mph kph lb lbs kg"
    ∷ "mg ml cc bp pt pts rm fl ch tg fg grp ext px rx tx sn vs yr yrs wk am pm th nd"
    ∷ "hz khz mhz db k9 mp tac ops by my why try fly dry cry sky shy gym spy pry fry"
    ∷ "hmm brr mr ms mrs jr u" ∷ [])

unfoldable pub is_allowed_code : Text → Bool
unfolding one_of
is_allowed_code = one_of ("eng med amb res bat" ∷ [])

unfoldable pub is_spoken_zero : Text → Bool
unfolding one_of
is_spoken_zero = one_of ("oh o" ∷ [])

unfoldable pub display_override : Text → Option Text
unfolding lookup
display_override w = lookup w ((bytes "k9", bytes "K9") ∷ (bytes "hq", bytes "HQ") ∷ [])

-- The three maps of number words.
abbrev pub ones_words : Map Text Text
ones_words =
    (bytes "zero", bytes "0")
    ∷ (bytes "one", bytes "1")
    ∷ (bytes "two", bytes "2")
    ∷ (bytes "three", bytes "3")
    ∷ (bytes "four", bytes "4")
    ∷ (bytes "five", bytes "5")
    ∷ (bytes "six", bytes "6")
    ∷ (bytes "seven", bytes "7")
    ∷ (bytes "eight", bytes "8")
    ∷ (bytes "nine", bytes "9")
    ∷ (bytes "niner", bytes "9")
    ∷ []

abbrev pub teen_words : Map Text Text
teen_words =
    (bytes "ten", bytes "10")
    ∷ (bytes "eleven", bytes "11")
    ∷ (bytes "twelve", bytes "12")
    ∷ (bytes "thirteen", bytes "13")
    ∷ (bytes "fourteen", bytes "14")
    ∷ (bytes "fifteen", bytes "15")
    ∷ (bytes "sixteen", bytes "16")
    ∷ (bytes "seventeen", bytes "17")
    ∷ (bytes "eighteen", bytes "18")
    ∷ (bytes "nineteen", bytes "19")
    ∷ []

abbrev pub tens_words : Map Text ℕ
tens_words =
    (bytes "twenty", 2)
    ∷ (bytes "thirty", 3)
    ∷ (bytes "forty", 4)
    ∷ (bytes "fifty", 5)
    ∷ (bytes "sixty", 6)
    ∷ (bytes "seventy", 7)
    ∷ (bytes "eighty", 8)
    ∷ (bytes "ninety", 9)
    ∷ []
