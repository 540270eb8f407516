-- ===== src/Transcribe/Snap.antt =====
-- `snapUtterance`: the unit that overlaps an utterance most, and the words that move to it.
use tr_engine.Common.{
  ℕ, ◌≡◌, ◌≢◌, refl, sym, ap, ◌∙◌, true, false, List, [], ◌∷◌, Text, map, if◌then◌else◌, ◌+◌, ◌<◌,
  ◌≤◌, ◌⊎◌, ltb, ◌==◌, nat_comparable, arith, Bool-cases, inl, inr,
}
use tr_engine.Common.Map.{lookup, insert, lookup-insert, lookup-Absent}
use tr_engine.Transcribe.{
  Transmission, AttributedWord, Overlaps, no_overlaps, sum_of, common_time, add_time, overlaps,
  snap_word, snap_utterance,
}

-- The time that a unit's transmissions share with the utterance.
abbrev pub time_of : ℕ → ℕ → ℕ → List Transmission → ℕ
time_of start finish s [] = 0
time_of start finish s (tx ∷ txs) =
    (if tx.src == s then common_time start finish tx else 0) + time_of start finish s txs

abbrev sum_at : ℕ → Overlaps → ℕ
sum_at s b = sum_of (lookup s b.overlap)

-- The map with a longer time for one unit.
sum-insert :
    (k o s : ℕ) (b : Overlaps)
    → sum_of (lookup s (insert k (sum_at k b + o) b.overlap))
      ≡ (if k == s then o else 0) + sum_at s b
sum-insert k o s b = elim (Bool-cases (k == s)) [
  | inl e ↦
      let same : sum_at k b ≡ sum_at s b = ap (λ j. sum_at j b) (ground (arith, e)) in
      rw (lookup-insert k s (sum_at k b + o) b.overlap, e) (ground (arith, same))
  | inr e ↦ rw (lookup-insert k s (sum_at k b + o) b.overlap, e) (ground arith)
]

sum-add_time :
    (o s : ℕ) (tx : Transmission) (b : Overlaps)
    → sum_at s (add_time o tx b) ≡ (if tx.src == s then o else 0) + sum_at s b
unfolding add_time
sum-add_time o s tx b = elim (Bool-cases (o == 0)) [
  | inl z ↦ rw z (ground (arith, z))
  | inr z ↦ elim (Bool-cases (ltb b.best_overlap (sum_at tx.src b + o))) [
    | inl l ↦ rw (z, l) (sum-insert tx.src o s b)
    | inr l ↦ rw (z, l) (sum-insert tx.src o s b)
  ]
]

sum-overlaps :
    (start finish s : ℕ) (txs : List Transmission) (b : Overlaps)
    → sum_at s (overlaps start finish txs b) ≡ time_of start finish s txs + sum_at s b
unfolding overlaps
sum-overlaps start finish s [] b = ground arith
sum-overlaps start finish s (tx ∷ txs) b =
    sum-overlaps start finish s txs (add_time (common_time start finish tx) tx b)
    ∙ ground (arith, sum-add_time (common_time start finish tx) s tx b)

-- The best unit holds the best time, if there is one, and no unit has more.
record IsBest (b : Overlaps) : Type 0 where
  held : (b.best_overlap ≡ 0) ⊎ (sum_at b.best_src b ≡ b.best_overlap)
  most : (s : ℕ) → sum_at s b ≤ b.best_overlap

add_time-held :
    (o : ℕ) (tx : Transmission) (b : Overlaps)
    → IsBest b
    → ((add_time o tx b).best_overlap ≡ 0)
      ⊎ (sum_at (add_time o tx b).best_src (add_time o tx b) ≡ (add_time o tx b).best_overlap)
unfolding add_time
add_time-held o tx b v = elim (Bool-cases (o == 0)) [
  | inl z ↦ rw z v.held
  | inr z ↦ elim (Bool-cases (ltb b.best_overlap (sum_at tx.src b + o))) [
    | inl l ↦ rw (z, l) (inr (sum-insert tx.src o tx.src b ∙ ground arith))
    | inr l ↦ rw (z, l) (held_still z l v.held)
  ]
]
  where
    held_still :
        (o == 0) ≡ false
        → ltb b.best_overlap (sum_at tx.src b + o) ≡ false
        → (b.best_overlap ≡ 0) ⊎ (sum_at b.best_src b ≡ b.best_overlap)
        → (b.best_overlap ≡ 0)
          ⊎ (sum_of (lookup b.best_src (insert tx.src (sum_at tx.src b + o) b.overlap))
              ≡ b.best_overlap)
    held_still z l (inl e) = inl e
    held_still z l (inr e) = elim (Bool-cases (tx.src == b.best_src)) [
      | inl is ↦
          let same : sum_at tx.src b ≡ sum_at b.best_src b =
            ap (λ j. sum_at j b) (ground (arith, is)) in
          absurd (ground (arith, z, l, e, same))
      | inr is ↦ inr (sum-insert tx.src o b.best_src b ∙ ground (arith, is, e))
    ]

add_time-most :
    (o s : ℕ) (tx : Transmission) (b : Overlaps)
    → IsBest b
    → sum_at s (add_time o tx b) ≤ (add_time o tx b).best_overlap
unfolding add_time
add_time-most o s tx b v = elim (Bool-cases (o == 0)) [
  | inl z ↦ rw z (v.most s)
  | inr z ↦ elim (Bool-cases (ltb b.best_overlap (sum_at tx.src b + o))) [
    | inl l ↦ rw (z, l) (ground (arith, sum-insert tx.src o s b, v.most s, l, same s))
    | inr l ↦ rw (z, l) (ground (arith, sum-insert tx.src o s b, v.most s, l, same s))
  ]
]
  where
    same : (s : ℕ) → (tx.src ≢ s) ⊎ (sum_at tx.src b ≡ sum_at s b)
    same s = elim (Bool-cases (tx.src == s)) [
      | inl e ↦ inr (ap (λ j. sum_at j b) (ground (arith, e)))
      | inr e ↦ inl (λ h. ground (arith, e, h))
    ]

overlaps-IsBest :
    (start finish : ℕ) (txs : List Transmission) (b : Overlaps)
    → IsBest b
    → IsBest (overlaps start finish txs b)
unfolding overlaps
overlaps-IsBest start finish [] b v = v
overlaps-IsBest start finish (tx ∷ txs) b v =
    let o = common_time start finish tx in
    overlaps-IsBest start finish txs (add_time o tx b)
      (record { held = add_time-held o tx b v; most = λ s. add_time-most o s tx b v })

no_sum : (s : ℕ) → sum_at s no_overlaps ≡ 0
no_sum s = ap sum_of (lookup-Absent s [] tt)

-- The sums of snapUtterance: the map has, for each unit, the time that its transmissions share with
-- the utterance; no unit shares more than the best overlap, and the best unit shares that much,
-- unless the best overlap is 0.
pub overlaps_exact :
    (start finish s : ℕ) (txs : List Transmission)
    → let b = overlaps start finish txs no_overlaps in
      (sum_of (lookup s b.overlap) ≡ time_of start finish s txs)
      × (time_of start finish s txs ≤ b.best_overlap)
      × ((b.best_overlap ≡ 0) ⊎ (time_of start finish b.best_src txs ≡ b.best_overlap))
overlaps_exact start finish s txs =
    let b = overlaps start finish txs no_overlaps in
    let best =
      overlaps-IsBest start finish txs no_overlaps
        (record { held = inl refl; most = λ j. ground (arith, no_sum j) }) in
    let sum : (j : ℕ) → sum_at j b ≡ time_of start finish j txs =
      λ j. sum-overlaps start finish j txs no_overlaps ∙ ground (arith, no_sum j) in
    (
      sum s,
      ground (arith, sum s, best.most s),
      elim best.held [ inl e ↦ inl e | inr e ↦ inr (sym (sum b.best_src) ∙ e) ],
    )

-- How the words of an utterance come out, given the time of each unit and the unit that wins.
abbrev pub Snapped : (ℕ → ℕ) → ℕ → ℕ → Text → List AttributedWord → List AttributedWord → Type 0
Snapped time min_overlap best tag [] [] = Unit {0}
Snapped time min_overlap best tag [] (v ∷ vs) = ⊥
Snapped time min_overlap best tag (w ∷ ws) [] = ⊥
Snapped time min_overlap best tag (w ∷ ws) (v ∷ vs) =
    (((v ≡ w) × ((w.src ≡ best) ⊎ (min_overlap ≤ time w.src)))
      ⊎ ((v ≡ record w { src = best; src_tag = tag })
          × (w.src ≢ best)
          × (time w.src < min_overlap)))
    × Snapped time min_overlap best tag ws vs

map-Snapped :
    (time : ℕ → ℕ) (min_overlap : ℕ) (b : Overlaps) (ws : List AttributedWord)
    → ((s : ℕ) → sum_at s b ≡ time s)
    → Snapped time min_overlap b.best_src b.best_tag ws (map (snap_word min_overlap b) ws)
unfolding snap_word
map-Snapped time min_overlap b [] h = tt
map-Snapped time min_overlap b (w ∷ ws) h = (
  one (Bool-cases (w.src == b.best_src)) (Bool-cases (ltb (sum_at w.src b) min_overlap)) (h w.src),
  map-Snapped time min_overlap b ws h,
)
  where
    one :
        ((w.src == b.best_src) ≡ true) ⊎ ((w.src == b.best_src) ≡ false)
        → (ltb (sum_at w.src b) min_overlap ≡ true) ⊎ (ltb (sum_at w.src b) min_overlap ≡ false)
        → sum_at w.src b ≡ time w.src
        → ((snap_word min_overlap b w ≡ w) × ((w.src ≡ b.best_src) ⊎ (min_overlap ≤ time w.src)))
          ⊎ ((snap_word min_overlap b w ≡ record w { src = b.best_src; src_tag = b.best_tag })
              × (w.src ≢ b.best_src)
              × (time w.src < min_overlap))
    one (inl e) l h = inl (rw (snap_word, e) refl, inl (ground (arith, e)))
    one (inr e) (inl l) h =
        inr (rw (snap_word, e, l) refl, (λ o. ground (arith, e, o)), ground (arith, l, h))
    one (inr e) (inr l) h = inl (rw (snap_word, e, l) refl, inr (ground (arith, l, h)))

-- For the words of one utterance: if no transmission overlaps it, the words stay as they are. Else
-- there is a unit that shares the most time with the utterance, and each word stays as it is if it is
-- of that unit or of one that shares the minimum at least, and moves to that unit otherwise.
pub snap_utterance-Snapped :
    (ws : List AttributedWord) (start finish : ℕ) (txs : List Transmission) (min_overlap : ℕ)
    → let vs = snap_utterance ws start finish txs min_overlap in
      ((vs ≡ ws) × ((s : ℕ) → time_of start finish s txs ≡ 0))
      ⊎ ((best : ℕ) × (tag : Text) × ((s : ℕ)
            → time_of start finish s txs ≤ time_of start finish best txs)
          × Snapped (λ j. time_of start finish j txs) min_overlap best tag ws vs)
unfolding snap_utterance
snap_utterance-Snapped ws start finish txs min_overlap =
    let b = overlaps start finish txs no_overlaps in
    elim (Bool-cases (b.best_overlap == 0)) [
      | inl z ↦ rw z (inl (refl, λ s. ground (arith, z, (overlaps_exact start finish s txs).1)))
      | inr z ↦ rw z (
          inr (
            b.best_src,
            b.best_tag,
            (λ s. ground (
              arith,
              z,
              (overlaps_exact start finish s txs).1,
              (overlaps_exact start finish s txs).2,
            )),
            map-Snapped (λ j. time_of start finish j txs) min_overlap b ws
                (λ j. (overlaps_exact start finish j txs).0),
          ))
    ]
