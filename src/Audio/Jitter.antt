-- ===== src/Audio/Jitter.antt =====
-- internal/audio/jitter.go: what the statistics say of the deltas that were added since a reset.
use tr_engine.Common.{
  ℕ, suc, ◌≡◌, refl, ap, ◌∙◌, false, List, [], ◌∷◌, ◌+◌, ◌≤◌, ◌⊎◌, ◌==◌, nat_comparable, arith, inl,
  inr, length,
}
use tr_engine.Audio.{JitterStats, no_jitter, add_jitter}

unfoldable pub add_all : List ℕ → JitterStats → JitterStats
add_all [] js = js
add_all (d ∷ ds) js = add_all ds (add_jitter d js)

abbrev pub Holds : ℕ → List ℕ → Type 0
Holds n [] = ⊥
Holds n (d ∷ ds) = (n ≡ d) ⊎ Holds n ds

abbrev pub AllWithin : ℕ → ℕ → List ℕ → Type 0
AllWithin low high [] = Unit {0}
AllWithin low high (d ∷ ds) = (low ≤ d) × (d ≤ high) × AllWithin low high ds

abbrev pub last_of : ℕ → List ℕ → ℕ
last_of d [] = d
last_of d (e ∷ ds) = last_of e ds

-- The statistics of a start and more deltas.
abbrev Extends : JitterStats → List ℕ → JitterStats → Type 0
Extends js ds js' =
    (js'.count ≡ length ds + js.count)
    × (js'.last_delta ≡ last_of js.last_delta ds)
    × ((js'.min_delta ≤ js.min_delta) × (js.max_delta ≤ js'.max_delta))
    × AllWithin js'.min_delta js'.max_delta ds
    × ((js'.min_delta ≡ js.min_delta) ⊎ Holds js'.min_delta ds)
    × ((js'.max_delta ≡ js.max_delta) ⊎ Holds js'.max_delta ds)

-- One delta on statistics that are not empty.
abbrev Grown : ℕ → JitterStats → JitterStats → Type 0
Grown d js js' =
    (js'.count ≡ suc js.count)
    × (js'.last_delta ≡ d)
    × (js'.min_delta ≤ js.min_delta)
    × (js'.min_delta ≤ d)
    × (js.max_delta ≤ js'.max_delta)
    × (d ≤ js'.max_delta)
    × ((js'.min_delta ≡ js.min_delta) ⊎ (js'.min_delta ≡ d))
    × ((js'.max_delta ≡ js.max_delta) ⊎ (js'.max_delta ≡ d))

add_jitter-Grown :
    (d : ℕ) (js : JitterStats) → (js.count == 0) ≡ false → Grown d js (add_jitter d js)
unfolding add_jitter
add_jitter-Grown d js h =
    rw h (
      refl,
      refl,
      ground arith,
      ground arith,
      ground arith,
      ground arith,
      ground arith,
      ground arith,
    )

-- The least, or the greatest, of a start, one more delta and the rest.
from_rest :
    (n m k d : ℕ) (ds : List ℕ)
    → (n ≡ m) ⊎ Holds n ds
    → (m ≡ k) ⊎ (m ≡ d)
    → (n ≡ k) ⊎ ((n ≡ d) ⊎ Holds n ds)
from_rest n m k d ds (inl e) (inl g) = inl (e ∙ g)
from_rest n m k d ds (inl e) (inr g) = inr (inl (e ∙ g))
from_rest n m k d ds (inr e) g = inr (inr e)

Grown-Extends :
    (js step final : JitterStats) (d : ℕ) (ds : List ℕ)
    → Grown d js step
    → Extends step ds final
    → Extends js (d ∷ ds) final
Grown-Extends js step final d ds (count, last, low, low_d, high, high_d, least, most)
      (counts, lasts, (lows, highs), within, leasts, mosts) =
    (
      ground (arith, count, counts),
      lasts ∙ ap (λ n. last_of n ds) last,
      (ground (arith, low, lows), ground (arith, high, highs)),
      (ground (arith, low_d, lows), ground (arith, high_d, highs), within),
      from_rest final.min_delta step.min_delta js.min_delta d ds leasts least,
      from_rest final.max_delta step.max_delta js.max_delta d ds mosts most,
    )

add_all-Extends :
    (ds : List ℕ) (js : JitterStats) → (js.count == 0) ≡ false → Extends js ds (add_all ds js)
unfolding add_all
add_all-Extends [] js h = (ground arith, refl, (ground arith, ground arith), tt, inl refl, inl refl)
add_all-Extends (d ∷ ds) js h =
    let g = add_jitter-Grown d js h in
    Grown-Extends js (add_jitter d js) (add_all ds (add_jitter d js)) d ds g
      (add_all-Extends ds (add_jitter d js) (ground (arith, g.0)))

-- After a reset and one or more deltas: the count is their number, the last one is kept, all of them
-- lie between the least and the greatest, and both of these are among them.
pub add_all-after_reset :
    (d : ℕ) (ds : List ℕ)
    → let js = add_all (d ∷ ds) no_jitter in
      (js.count ≡ length (d ∷ ds))
      × (js.last_delta ≡ last_of d ds)
      × AllWithin js.min_delta js.max_delta (d ∷ ds)
      × Holds js.min_delta (d ∷ ds)
      × Holds js.max_delta (d ∷ ds)
unfolding add_all add_jitter
add_all-after_reset d ds =
    let first : JitterStats = record { count = 1; min_delta = d; max_delta = d; last_delta = d } in
    let e = add_all-Extends ds first refl in
    (ground (arith, e.0), e.1, (e.2.0, e.2.1, e.3), e.4, e.5)
