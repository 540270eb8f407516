-- ===== src/Transcribe/Nearest.antt =====
-- `findTransmission`: the first transmission that contains the time, else a nearest one.
use tr_engine.Common.{
  ℕ, ◌≡◌, refl, ap, subst, Bool, true, false, none, some, List, [], ◌∷◌, ◌++◌, if◌then◌else◌, ◌<◌,
  ◌≤◌, ◌⊎◌, ltb, arith, Bool-cases, Option-cases, inl, inr,
}
use mathlib.Core.Option.{some-injective}
use tr_engine.Transcribe.{
  Source, Transmission, contains, find_containing, distance, nearest, or_nearest, find_transmission,
  transmissions, transmission,
}

abbrev pub Among : Transmission → List Transmission → Type 0
Among tx [] = ⊥
Among tx (t ∷ txs) = (tx ≡ t) ⊎ Among tx txs

-- Every one of the list is at least that far away.
abbrev pub NoNearer : ℕ → ℕ → List Transmission → Type 0
NoNearer t d [] = Unit {0}
NoNearer t d (tx ∷ txs) = (d ≤ distance t tx) × NoNearer t d txs

-- None of the list contains the time.
abbrev pub Outside : ℕ → List Transmission → Type 0
Outside t [] = Unit {0}
Outside t (tx ∷ txs) = (contains t tx ≡ false) × Outside t txs

-- How one of `best` and the list compares with all of them.
abbrev NearestOf : ℕ → Transmission → Transmission → List Transmission → Type 0
NearestOf t best r txs =
    (distance t r ≤ distance t best) × NoNearer t (distance t r) txs × ((r ≡ best) ⊎ Among r txs)

-- One round of the loop, on the test's result.
nearest_round :
    (t : ℕ) (best tx : Transmission) (txs : List Transmission) (b : Bool)
    → ltb (distance t tx) (distance t best) ≡ b
    → NearestOf t tx (nearest t tx txs) txs
    → NearestOf t best (nearest t best txs) txs
    → NearestOf t best (nearest t (if b then tx else best) txs) (tx ∷ txs)
nearest_round t best tx txs true e (near, none_nearer, from) stays =
    (ground (arith, near, e), (near, none_nearer), inr from)
nearest_round t best tx txs false e moves (near, none_nearer, from) = (
  near,
  (ground (arith, near, e), none_nearer),
  elim from [ inl same ↦ inl same | inr among ↦ inr (inr among) ],
)

nearest-NearestOf :
    (t : ℕ) (best : Transmission) (txs : List Transmission)
    → NearestOf t best (nearest t best txs) txs
unfolding nearest
nearest-NearestOf t best [] = (ground arith, tt, inl refl)
nearest-NearestOf t best (tx ∷ txs) =
    nearest_round t best tx txs (ltb (distance t tx) (distance t best)) refl
      (nearest-NearestOf t tx txs) (nearest-NearestOf t best txs)

-- What is found is the first one that contains the time, or else one of the list that no other one is
-- nearer than.
abbrev pub FirstContaining : ℕ → Transmission → List Transmission → Type 0
FirstContaining t tx txs =
    (before : List Transmission) × (after : List Transmission) × (txs ≡ before ++ tx ∷ after)
    × Outside t before
    × (contains t tx ≡ true)

find_containing-none :
    (t : ℕ) (txs : List Transmission) → find_containing t txs ≡ none → Outside t txs
unfolding find_containing
find_containing-none t [] h = tt
find_containing-none t (tx ∷ txs) h = elim (Bool-cases (contains t tx)) [
  | inl e ↦ absurd (cc (rw e at h))
  | inr e ↦ (e, find_containing-none t txs (rw e at h))
]

find_containing-some :
    (t : ℕ) (txs : List Transmission) (tx : Transmission)
    → find_containing t txs ≡ some tx
    → FirstContaining t tx txs
unfolding find_containing
find_containing-some t [] tx h = absurd (cc (h))
find_containing-some t (x ∷ txs) tx h = elim (Bool-cases (contains t x)) [
  | inl e ↦
      let same = some-injective _ _ (rw e at h) in
      ([], txs, ap (λ y. y ∷ txs) same, tt, subst (λ y. contains t y ≡ true) same e)
  | inr e ↦
      let (before, after, split, outside, inside) = find_containing-some t txs tx (rw e at h) in
      (x ∷ before, after, ap (◌∷◌ x) split, (e, outside), inside)
]

-- For a time and a list of transmissions that is not empty, findTransmission answers with the unit
-- and tag of the first transmission that contains the time; if none does, with those of a
-- transmission of the list whose start no other transmission's start is nearer to the time than.
pub find_transmission_best :
    (t : ℕ) (tx : Transmission) (txs : List Transmission)
    → (found : Transmission) × (find_transmission t tx txs ≡ (found.src, found.tag))
      × (FirstContaining t found (tx ∷ txs)
          ⊎ (Outside t (tx ∷ txs)
              × Among found (tx ∷ txs)
              × NoNearer t (distance t found) (tx ∷ txs)))
unfolding find_transmission
find_transmission_best t tx txs = elim (Option-cases (find_containing t (tx ∷ txs))) [
  | inr (found, e) ↦ (
    found,
    ap (λ o. let f = or_nearest t tx txs o in (f.src, f.tag)) e,
    inl (find_containing-some t (tx ∷ txs) found e),
  )
  | inl e ↦
      let (near, none_nearer, from) = nearest-NearestOf t tx txs in
      (
        nearest t tx txs,
        ap (λ o. let f = or_nearest t tx txs o in (f.src, f.tag)) e,
        inr (find_containing-none t (tx ∷ txs) e, from, (near, none_nearer)),
      )
]

-- The transmissions that ParseSrcList makes of a list of entries leave no gap: every time from the
-- first entry's position on and before the total duration is in one of them.
pub transmissions_cover :
    (t total : ℕ) (r : Source) (rest : List Source)
    → r.pos ≤ t
    → t < total
    → (tx : Transmission) × (find_containing t (transmissions total (r ∷ rest)) ≡ some tx)
      × (contains t tx ≡ true)
unfolding find_containing transmissions
transmissions_cover t total r [] a b =
    let inside : contains t (transmission r total) ≡ true = ground (arith, a, b) in
    (transmission r total, rw inside refl, inside)
transmissions_cover t total r (next ∷ rest) a b =
    elim (Bool-cases (contains t (transmission r next.pos))) [
      | inl e ↦ (transmission r next.pos, rw e refl, e)
      | inr e ↦
          let later : next.pos ≤ t = ground (arith, a, e) in
          let (tx, found, inside) = transmissions_cover t total next rest later b in
          (tx, rw e found, inside)
    ]
