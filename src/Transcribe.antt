-- ===== src/Transcribe.antt =====
-- internal/transcribe/units.go: which transmission a word belongs to, the words of an utterance that
-- move to another unit, and the segments made of the words when the full text is not there. The
-- times, floating point seconds in the source, are whole milliseconds here.
pub mod Nearest
pub mod FullText
pub mod Boundary
pub mod Attribution
pub mod Units
pub mod Moves
pub mod Attributed
pub mod Cuts
pub mod Texts
pub mod Whole
pub mod Segments
pub mod Snap
mod Tests
use tr_engine.Common.{
  ℕ, Bool, true, false, Option, none, some, List, [], ◌∷◌, ◌++◌, ◌+◌, ◌-◌, ◌&&◌, Text,
  if◌then◌else◌, ltb, leb, min, not, map, ◌==◌, nat_comparable, text_comparable,
}
use tr_engine.Common.Map.{Map, lookup, insert}
use tr_engine.Common.Trim.{trim_space}

pub record Transmission : Type 0 where
  pub src : ℕ
  pub tag : Text
  pub pos : ℕ
  pub duration : ℕ

-- An entry of `src_list`.
pub record Source : Type 0 where
  pub src : ℕ
  pub tag : Text
  pub pos : ℕ

pub record AttributedWord : Type 0 where
  pub word : Text
  pub start : ℕ
  pub finish : ℕ
  pub src : ℕ
  pub src_tag : Text
  pub speaker : Text

pub record Segment : Type 0 where
  pub src : ℕ
  pub src_tag : Text
  pub speaker : Text
  pub start : ℕ
  pub finish : ℕ
  pub text : Text

abbrev pub transmission : Source → ℕ → Transmission
transmission r until = record { src = r.src; tag = r.tag; pos = r.pos; duration = until - r.pos }

-- The loop of `ParseSrcList` over the parsed entries; a negative gap is 0.
unfoldable pub transmissions : ℕ → List Source → List Transmission
transmissions total [] = []
transmissions total (r ∷ []) = transmission r total ∷ []
transmissions total (r ∷ next ∷ rest) = transmission r next.pos ∷ transmissions total (next ∷ rest)

abbrev pub contains : ℕ → Transmission → Bool
contains t tx = leb tx.pos t && ltb t (tx.pos + tx.duration)

unfoldable pub find_containing : ℕ → List Transmission → Option Transmission
find_containing t [] = none
find_containing t (tx ∷ txs) = if contains t tx then some tx else find_containing t txs

abbrev pub distance : ℕ → Transmission → ℕ
distance t tx = if ltb t tx.pos then tx.pos - t else t - tx.pos

-- The second loop of `findTransmission`, from the best one so far.
unfoldable pub nearest : ℕ → Transmission → List Transmission → Transmission
nearest t best [] = best
nearest t best (tx ∷ txs) =
    nearest t (if ltb (distance t tx) (distance t best) then tx else best) txs

abbrev pub or_nearest : ℕ → Transmission → List Transmission → Option Transmission → Transmission
or_nearest t tx txs none = nearest t tx txs
or_nearest t tx txs (some found) = found

-- `findTransmission` of a list that is not empty, as its caller sees to.
unfoldable pub find_transmission : ℕ → Transmission → List Transmission → ℕ × Text
find_transmission t tx txs =
    let found = or_nearest t tx txs (find_containing t (tx ∷ txs)) in (found.src, found.tag)

abbrev pub open_segment : AttributedWord → Segment
open_segment w = record {
  src = w.src;
  src_tag = w.src_tag;
  speaker = w.speaker;
  start = w.start;
  finish = w.finish;
  text = trim_space w.word;
}

abbrev pub add_word : AttributedWord → Segment → Segment
add_word w cur = record cur {
  finish = w.finish;
  text = cur.text ++ 32 ∷ trim_space w.word;
  speaker = if w.speaker == cur.speaker then cur.speaker else [];
}

abbrev pub closed : Segment → Segment
closed cur = record cur { text = trim_space cur.text }

-- The loop of `buildSegmentsFallback`, with the segment that is open.
unfoldable pub segments_from : Segment → List AttributedWord → List Segment
segments_from cur [] = closed cur ∷ []
segments_from cur (w ∷ words) =
    let same = segments_from (add_word w cur) words in
    let next = segments_from (open_segment w) words in
    if w.src == cur.src then same else closed cur ∷ next

-- Of a list of words that is not empty, as its callers see to.
unfoldable pub build_segments_fallback : AttributedWord → List AttributedWord → List Segment
build_segments_fallback w words = segments_from (open_segment w) words

-- The sums of `snapUtterance` over the transmissions seen so far.
pub record Overlaps : Type 0 where
  pub overlap : Map ℕ ℕ
  pub best_src : ℕ
  pub best_tag : Text
  pub best_overlap : ℕ

abbrev pub no_overlaps : Overlaps
no_overlaps = record { overlap = []; best_src = 0; best_tag = []; best_overlap = 0 }

-- A missing key of the map reads as 0.
abbrev pub sum_of : Option ℕ → ℕ
sum_of none = 0
sum_of (some n) = n

abbrev pub later_of : ℕ → ℕ → ℕ
later_of m n = if ltb m n then n else m

-- How long the transmission overlaps the utterance; 0 stands for no overlap at all.
abbrev pub common_time : ℕ → ℕ → Transmission → ℕ
common_time start finish tx = min finish (tx.pos + tx.duration) - later_of start tx.pos

-- A transmission that overlaps by `o`; one that does not is passed over.
unfoldable pub add_time : ℕ → Transmission → Overlaps → Overlaps
add_time o tx b =
    let sum = sum_of (lookup tx.src b.overlap) + o in
    if o == 0
    then b
    else if ltb b.best_overlap sum
    then record {
      overlap = insert tx.src sum b.overlap;
      best_src = tx.src;
      best_tag = tx.tag;
      best_overlap = sum;
    }
    else record b { overlap = insert tx.src sum b.overlap }

unfoldable pub overlaps : ℕ → ℕ → List Transmission → Overlaps → Overlaps
overlaps start finish [] b = b
overlaps start finish (tx ∷ txs) b =
    overlaps start finish txs (add_time (common_time start finish tx) tx b)

unfoldable pub snap_word : ℕ → Overlaps → AttributedWord → AttributedWord
snap_word min_overlap b w =
    if not (w.src == b.best_src) && ltb (sum_of (lookup w.src b.overlap)) min_overlap
    then record w { src = b.best_src; src_tag = b.best_tag }
    else w

unfoldable pub snap_utterance :
    List AttributedWord → ℕ → ℕ → List Transmission → ℕ → List AttributedWord
snap_utterance ws start finish txs min_overlap =
    let b = overlaps start finish txs no_overlaps in
    if b.best_overlap == 0 then ws else map (snap_word min_overlap b) ws
