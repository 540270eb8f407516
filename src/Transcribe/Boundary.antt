-- ===== src/Transcribe/Boundary.antt =====
-- `fixBoundaryWords`: the words in front of a silence that move to the next unit. A time difference
-- below zero is 0 here; the tests of the source take both alike.
use tr_engine.Common.{
  ℕ, ◌+◌, ◌-◌, Bool, true, false, ◌&&◌, ◌||◌, not, Option, none, some, List, [], ◌∷◌, if◌then◌else◌,
  ltb, leb, ◌==◌, nat_comparable, length,
}
use tr_engine.Transcribe.{Transmission, AttributedWord, find_containing}

-- A brief word that starts close to the end of the transmission that it is in.
unfoldable pub is_brief_near_end : AttributedWord → Option Transmission → Bool
is_brief_near_end w none = false
is_brief_near_end w (some tx) =
    ltb (w.finish - w.start) 50 && not (ltb 500 (tx.pos + tx.duration - w.start))

-- No silence up to the word behind it in its cluster; the word in front of the gap has none.
abbrev pub is_in_cluster : Option ℕ → AttributedWord → Bool
is_in_cluster none w = true
is_in_cluster (some later_start) w = not (ltb 150 (later_start - w.finish))

-- No test of the inner loop breaks off.
abbrev pub moves : AttributedWord → Option ℕ → List Transmission → AttributedWord → Bool
moves next later txs w =
    not (w.src == next.src)
    && is_brief_near_end w (find_containing w.start txs)
    && is_in_cluster later w

abbrev pub move_to : AttributedWord → AttributedWord → AttributedWord
move_to next w = record w { src = next.src; src_tag = next.src_tag }

-- The inner loop, over the words up to the gap, the last one first.
unfoldable pub walk_back :
    AttributedWord → Option ℕ → List Transmission → List AttributedWord → List AttributedWord
walk_back next later txs [] = []
walk_back next later txs (w ∷ behind) =
    let rest = walk_back next (some w.start) txs behind in
    if moves next later txs w then move_to next w ∷ rest else w ∷ behind

abbrev pub is_gap : AttributedWord → AttributedWord → Bool
is_gap w next = leb 300 (next.start - w.finish) && not (w.src == next.src)

abbrev pub fix_gap : List Transmission → AttributedWord → List AttributedWord → List AttributedWord
fix_gap txs next [] = []
fix_gap txs next (w ∷ behind) =
    if is_gap w next then walk_back next none txs (w ∷ behind) else w ∷ behind

-- The outer loop: the words up to here, the last one first, and the words to come.
unfoldable pub fix_from :
    List Transmission → List AttributedWord → List AttributedWord → List AttributedWord
fix_from txs behind [] = behind
fix_from txs behind (next ∷ rest) = fix_from txs (next ∷ fix_gap txs next behind) rest

-- A list read backwards, in front of another.
unfoldable pub back_onto {ℓ} : {A : Type ℓ} → List A → List A → List A
back_onto [] words = words
back_onto (w ∷ behind) words = back_onto behind (w ∷ words)

unfoldable pub fix_boundary_words : List AttributedWord → List Transmission → List AttributedWord
fix_boundary_words words txs =
    if ltb (length words) 2 || ltb (length txs) 2
    then words
    else back_onto (fix_from txs [] words) []
