-- ===== src/Common/Map.antt =====
-- Go maps as association lists with one entry for each key. The order of the list stands for one
-- order in which a `range` may visit the entries.
use tr_engine.Common.Tests.{if◌then◌else◌}
use tr_engine.Common.Bytes.{Comparable, ◌==◌}
use mathlib.Core.Path.{◌≡◌, refl}
use mathlib.Core.Bool.{Bool, false}
use mathlib.Core.List.{List, [], ◌∷◌}
use mathlib.Core.Option.{Option, none, some}
use native.Mathlib.Omega.{arith}

abbrev pub Map {ℓ κ} : Type ℓ → Type κ → Type (ℓ ⊔ κ)
Map K V = List (K × V)

module _ {ℓ κ} {K : Type ℓ} {V : Type κ} ⦃e : Comparable K⦄ where
  unfoldable pub lookup : K → Map K V → Option V
  lookup key [] = none
  lookup key ((held, value) ∷ rest) = if held == key then some value else lookup key rest

  unfoldable pub insert : K → V → Map K V → Map K V
  insert key value [] = (key, value) ∷ []
  insert key value ((held, old) ∷ rest) =
      if held == key then (key, value) ∷ rest else (held, old) ∷ insert key value rest

  unfoldable pub delete : K → Map K V → Map K V
  delete k [] = []
  delete k ((j, v) ∷ m) = if j == k then delete k m else (j, v) ∷ delete k m

  -- Every value is replaced, the keys stay: an update loop over the entries.
  unfoldable pub map_values : (K → V → V) → Map K V → Map K V
  map_values f [] = []
  map_values f ((k, v) ∷ m) = (k, f k v) ∷ map_values f m

  -- A write through the pointer under a key, if there is one.
  unfoldable pub modify : K → (V → V) → Map K V → Map K V
  modify k f [] = []
  modify k f ((j, v) ∷ m) = if j == k then (j, f v) ∷ m else (j, v) ∷ modify k f m

  -- A loop that deletes the entries that fail a test.
  unfoldable pub retain : (K → V → Bool) → Map K V → Map K V
  retain p [] = []
  retain p ((k, v) ∷ m) = if p k v then (k, v) ∷ retain p m else retain p m

  abbrev pub Absent : K → Map K V → Type 0
  Absent k [] = Unit {0}
  Absent k ((j, v) ∷ m) = ((j == k) ≡ false) × Absent k m

  -- One entry for each key.
  abbrev pub Unique : Map K V → Type 0
  Unique [] = Unit {0}
  Unique ((k, v) ∷ m) = Absent k m × Unique m

module _ {ℓ} {V : Type ℓ} where
  abbrev pub map_option : (V → V) → Option V → Option V
  map_option f none = none
  map_option f (some v) = some (f v)

  abbrev pub guarded : (V → Bool) → Option V → Option V
  guarded p none = none
  guarded p (some v) = if p v then some v else none

module _ {ℓ κ} {K : Type ℓ} {V : Type κ} ⦃e : Comparable K⦄ where
  pub lookup-insert :
      (key other : K) (value : V) (entries : Map K V)
      → lookup other (insert key value entries)
        ≡ (if key == other then some value else lookup other entries)
  unfolding insert lookup
  lookup-insert key other value ((i, old) ∷ rest) = ground (
    e.same_iff i key,
    e.same_iff i other,
    e.same_iff key other,
    lookup-insert key other value rest,
    arith,
  )
  lookup-insert key other value [] = refl

  pub lookup-delete :
      (k j : K) (m : Map K V) → lookup j (delete k m) ≡ (if k == j then none else lookup j m)
  unfolding lookup delete
  lookup-delete k j [] = ground arith
  lookup-delete k j ((i, w) ∷ m) =
      ground (arith, e.same_iff k j, e.same_iff i k, e.same_iff i j, lookup-delete k j m)

  pub lookup-map_values :
      (f : K → V → V) (k : K) (m : Map K V)
      → lookup k (map_values f m) ≡ map_option (f k) (lookup k m)
  unfolding lookup map_values
  lookup-map_values f k [] = refl
  lookup-map_values f k ((i, w) ∷ m) = ground (arith, e.same_iff i k, lookup-map_values f k m)

  pub lookup-modify :
      (k j : K) (f : V → V) (m : Map K V)
      → lookup j (modify k f m) ≡ (if k == j then map_option f (lookup k m) else lookup j m)
  unfolding lookup modify
  lookup-modify k j f [] = ground arith
  lookup-modify k j f ((i, w) ∷ m) =
      ground (arith, e.same_iff k j, e.same_iff i k, e.same_iff i j, lookup-modify k j f m)

  pub lookup-Absent : (k : K) (m : Map K V) → Absent k m → lookup k m ≡ none
  unfolding lookup
  lookup-Absent k [] h = refl
  lookup-Absent k ((j, v) ∷ m) h = rw h.0 (lookup-Absent k m h.1)

  retain-Absent : (p : K → V → Bool) (k : K) (m : Map K V) → Absent k m → Absent k (retain p m)
  unfolding retain
  retain-Absent p k [] h = tt
  retain-Absent p k ((j, v) ∷ m) h = ground (arith, retain-Absent p k m)

  pub lookup-retain :
      (p : K → V → Bool) (k : K) (m : Map K V)
      → Unique m
      → lookup k (retain p m) ≡ guarded (p k) (lookup k m)
  unfolding lookup retain
  lookup-retain p k [] u = refl
  lookup-retain p k ((j, v) ∷ m) u =
      ground (
        arith,
        e.same_iff j k,
        lookup-retain p k m,
        lookup-Absent k m,
        lookup-Absent k (retain p m),
      )

  pub retain-Unique : (p : K → V → Bool) (m : Map K V) → Unique m → Unique (retain p m)
  unfolding retain
  retain-Unique p [] u = tt
  retain-Unique p ((j, v) ∷ m) u = ground (arith, retain-Absent p j m, retain-Unique p m)

  insert-Absent :
      (k j : K) (v : V) (m : Map K V) → (k == j) ≡ false → Absent j m → Absent j (insert k v m)
  unfolding insert
  insert-Absent k j v [] d h = (d, tt)
  insert-Absent k j v ((i, w) ∷ m) d h = ground (arith, insert-Absent k j v m)

  pub insert-Unique : (k : K) (v : V) (m : Map K V) → Unique m → Unique (insert k v m)
  unfolding insert
  insert-Unique k v [] u = (tt, tt)
  insert-Unique k v ((i, w) ∷ m) u =
      ground (arith, e.same_iff i k, e.same_iff k i, insert-Absent k i v m, insert-Unique k v m)

  modify-Absent : (k j : K) (f : V → V) (m : Map K V) → Absent j m → Absent j (modify k f m)
  unfolding modify
  modify-Absent k j f [] h = tt
  modify-Absent k j f ((i, w) ∷ m) h = ground (arith, modify-Absent k j f m)

  pub modify-Unique : (k : K) (f : V → V) (m : Map K V) → Unique m → Unique (modify k f m)
  unfolding modify
  modify-Unique k f [] u = tt
  modify-Unique k f ((i, w) ∷ m) u = ground (arith, modify-Absent k i f m, modify-Unique k f m)

  delete-Absent : (k j : K) (m : Map K V) → Absent j m → Absent j (delete k m)
  unfolding delete
  delete-Absent k j [] h = tt
  delete-Absent k j ((i, w) ∷ m) h = ground (arith, delete-Absent k j m)

  pub delete-Unique : (k : K) (m : Map K V) → Unique m → Unique (delete k m)
  unfolding delete
  delete-Unique k [] u = tt
  delete-Unique k ((i, w) ∷ m) u = ground (arith, delete-Absent k i m, delete-Unique k m)

  map_values-Absent : (f : K → V → V) (j : K) (m : Map K V) → Absent j m → Absent j (map_values f m)
  unfolding map_values
  map_values-Absent f j [] h = tt
  map_values-Absent f j ((i, w) ∷ m) h = (h.0, map_values-Absent f j m h.1)

  pub map_values-Unique : (f : K → V → V) (m : Map K V) → Unique m → Unique (map_values f m)
  unfolding map_values
  map_values-Unique f [] u = tt
  map_values-Unique f ((i, w) ∷ m) u = (map_values-Absent f i m u.0, map_values-Unique f m u.1)

  pub ruleset map_laws = (lookup-insert, lookup-delete, lookup-map_values, lookup-modify)
