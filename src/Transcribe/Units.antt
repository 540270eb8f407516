-- ===== src/Transcribe/Units.antt =====
-- The units that findTransmission and snapUtterance give are those of transmissions.
use tr_engine.Common.{
  ℕ, ◌+◌, Option, none, some, List, [], ◌∷◌, ◌≡◌, ◌⊎◌, inl, inr, refl, Text, if◌then◌else◌, ltb,
  ◌==◌, nat_comparable, if_cases,
}
use tr_engine.Common.Map.{lookup}
use tr_engine.Transcribe.{
  Transmission, Overlaps, contains, find_containing, nearest, distance, or_nearest,
  find_transmission, sum_of, common_time, add_time, overlaps,
}

-- A transmission of the list has this unit and this tag.
abbrev pub IsUnit : List Transmission → ℕ → Text → Type 0
IsUnit [] src tag = ⊥
IsUnit (tx ∷ txs) src tag = ((src ≡ tx.src) × (tag ≡ tx.tag)) ⊎ IsUnit txs src tag

nearest-IsUnit :
    (t : ℕ) (best : Transmission) (txs all : List Transmission)
    → IsUnit all best.src best.tag
    → ((s : ℕ) (tag : Text) → IsUnit txs s tag → IsUnit all s tag)
    → IsUnit all (nearest t best txs).src (nearest t best txs).tag
unfolding nearest
nearest-IsUnit t best [] all h up = h
nearest-IsUnit t best (tx ∷ txs) all h up =
    nearest-IsUnit t (if ltb (distance t tx) (distance t best) then tx else best) txs all
      (if_cases (λ (x : Transmission). IsUnit all x.src x.tag)
        (ltb (distance t tx) (distance t best)) _ _ (λ e. up tx.src tx.tag (inl (refl, refl)))
        (λ e. h))
      (λ s tag i. up s tag (inr i))

abbrev FoundIsUnit : List Transmission → Option Transmission → Type 0
FoundIsUnit txs none = Unit {0}
FoundIsUnit txs (some tx) = IsUnit txs tx.src tx.tag

pub find_containing-IsUnit :
    (t : ℕ) (txs : List Transmission) → FoundIsUnit txs (find_containing t txs)
unfolding find_containing
find_containing-IsUnit t [] = tt
find_containing-IsUnit t (tx ∷ txs) =
    if_cases (FoundIsUnit (tx ∷ txs)) (contains t tx) _ _ (λ e. inl (refl, refl))
      (λ e. later (find_containing t txs) (find_containing-IsUnit t txs))
  where
    later : (o : Option Transmission) → FoundIsUnit txs o → FoundIsUnit (tx ∷ txs) o
    later none h = tt
    later (some x) h = inr h

pub find_transmission-IsUnit :
    (t : ℕ) (tx : Transmission) (txs : List Transmission)
    → IsUnit (tx ∷ txs) (find_transmission t tx txs).0 (find_transmission t tx txs).1
unfolding find_transmission
find_transmission-IsUnit t tx txs =
    go (find_containing t (tx ∷ txs)) (find_containing-IsUnit t (tx ∷ txs))
  where
    go :
        (o : Option Transmission)
        → FoundIsUnit (tx ∷ txs) o
        → IsUnit (tx ∷ txs) (or_nearest t tx txs o).src (or_nearest t tx txs o).tag
    go none h = nearest-IsUnit t tx txs (tx ∷ txs) (inl (refl, refl)) (λ s tag i. inr i)
    go (some x) h = h

-- The best unit so far is one, once some transmission overlapped.
abbrev pub BestIsUnit : List Transmission → Overlaps → Type 0
BestIsUnit all b = (b.best_overlap ≡ 0) ⊎ IsUnit all b.best_src b.best_tag

pub add_time-BestIsUnit :
    (all : List Transmission) (o : ℕ) (tx : Transmission) (b : Overlaps)
    → IsUnit all tx.src tx.tag
    → BestIsUnit all b
    → BestIsUnit all (add_time o tx b)
unfolding add_time
add_time-BestIsUnit all o tx b u h =
    if_cases (BestIsUnit all) (o == 0) _ _ (λ z. h)
      (λ z.
        if_cases (BestIsUnit all) (ltb b.best_overlap (sum_of (lookup tx.src b.overlap) + o)) _ _
          (λ l. inr u) (λ l. h))

pub overlaps-BestIsUnit :
    (all : List Transmission) (start finish : ℕ) (txs : List Transmission) (b : Overlaps)
    → ((s : ℕ) (tag : Text) → IsUnit txs s tag → IsUnit all s tag)
    → BestIsUnit all b
    → BestIsUnit all (overlaps start finish txs b)
unfolding overlaps
overlaps-BestIsUnit all start finish [] b up h = h
overlaps-BestIsUnit all start finish (tx ∷ txs) b up h =
    overlaps-BestIsUnit all start finish txs (add_time (common_time start finish tx) tx b)
      (λ s tag i. up s tag (inr i))
      (add_time-BestIsUnit all (common_time start finish tx) tx b
        (up tx.src tx.tag (inl (refl, refl))) h)
