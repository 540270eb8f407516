-- ===== src/Storage/Totals.antt =====
-- The running total of a pass of CachePruner.prune is the size of what is left.
use tr_engine.Common.{
  ℕ, ◌+◌, ◌-◌, Bool, true, false, some, List, [], ◌∷◌, ◌≡◌, inl, inr, refl, subst, ap, ◌∙◌, ltb,
  Text, ◌==◌, text_comparable, arith, Bool-cases, if_cases, if◌then◌else◌, length,
}
use mathlib.Core.Option.{some-injective}
use tr_engine.Common.Map.{lookup, delete, lookup-delete, delete-Unique, Unique, Absent}
use tr_engine.Storage.Pruner.{
  File, Disk, FileEntry, CachePruner, Sweep, walk_dir, total_of, insert_entry, sort_entries,
  should_prune, in_s3, remove, sweep_file, sweep_files,
}
use tr_engine.Storage.Entries.{Recorded, none-some}

-- No entry has the key.
abbrev pub Apart : Text → List FileEntry → Type 0
Apart key [] = Unit {0}
Apart key (x ∷ xs) = ((x.key == key) ≡ false) × Apart key xs

abbrev pub Distinct : (Text → Bool) → List FileEntry → Type 0
Distinct has_info [] = Unit {0}
Distinct has_info (x ∷ xs) = (has_info x.key ≡ true) × Apart x.key xs × Distinct has_info xs

insert-Apart :
    (key : Text) (e : FileEntry) (xs : List FileEntry)
    → (e.key == key) ≡ false
    → Apart key xs
    → Apart key (insert_entry e xs)
unfolding insert_entry
insert-Apart key e [] d a = (d, tt)
insert-Apart key e (x ∷ xs) d a =
    if_cases (Apart key) (ltb x.mod_time e.mod_time) _ _ (λ t. (a.0, insert-Apart key e xs d a.1))
      (λ t. (d, a))

apart_sym : (j k : Text) → (j == k) ≡ false → (k == j) ≡ false
apart_sym j k h = ground (arith, text_comparable.same_iff j k, text_comparable.same_iff k j)

module _ (has_info : Text → Bool) where
  insert-Distinct :
      (e : FileEntry) (xs : List FileEntry)
      → Distinct has_info (e ∷ xs)
      → Distinct has_info (insert_entry e xs)
  unfolding insert_entry
  insert-Distinct e [] d = d
  insert-Distinct e (x ∷ xs) d =
      if_cases (Distinct has_info) (ltb x.mod_time e.mod_time) _ _
        (λ t. (
          d.2.0,
          insert-Apart x.key e xs (apart_sym x.key e.key d.1.0) d.2.1,
          insert-Distinct e xs (d.0, d.1.1, d.2.2),
        ))
        (λ t. d)

  sort-Apart : (key : Text) (xs : List FileEntry) → Apart key xs → Apart key (sort_entries xs)
  unfolding sort_entries
  sort-Apart key [] a = tt
  sort-Apart key (x ∷ xs) a = insert-Apart key x (sort_entries xs) a.0 (sort-Apart key xs a.1)

  pub sort-Distinct :
      (xs : List FileEntry) → Distinct has_info xs → Distinct has_info (sort_entries xs)
  unfolding sort_entries
  sort-Distinct [] d = tt
  sort-Distinct (x ∷ xs) d =
      insert-Distinct x (sort_entries xs) (d.0, sort-Apart x.key xs d.1, sort-Distinct xs d.2)

  walk-Apart : (key : Text) (disk : Disk) → Absent key disk → Apart key (walk_dir has_info disk)
  unfolding walk_dir
  walk-Apart key [] a = tt
  walk-Apart key ((k, f) ∷ disk) a =
      if_cases (Apart key) (has_info k) _ _ (λ t. (a.0, walk-Apart key disk a.1))
        (λ t. walk-Apart key disk a.1)

  pub walk-Distinct : (disk : Disk) → Unique disk → Distinct has_info (walk_dir has_info disk)
  unfolding walk_dir
  walk-Distinct [] u = tt
  walk-Distinct ((k, f) ∷ disk) u =
      if_cases (Distinct has_info) (has_info k) _ _
        (λ t. (t, walk-Apart k disk u.0, walk-Distinct disk u.1)) (λ t. walk-Distinct disk u.1)

  -- The size of what the walk sees.
  abbrev pub size_of : Disk → ℕ
  size_of disk = total_of (walk_dir has_info disk)

  delete-Absent_same : (key : Text) (disk : Disk) → Absent key disk → delete key disk ≡ disk
  unfolding delete
  delete-Absent_same key [] a = refl
  delete-Absent_same key ((k, f) ∷ disk) a =
      rw a.0 (ap (◌∷◌ (k, f)) (delete-Absent_same key disk a.1))

  size-cons :
      (key : Text) (f : File) (disk : Disk)
      → size_of ((key, f) ∷ disk)
        ≡ (if has_info key then length f.content + size_of disk else size_of disk)
  unfolding walk_dir total_of
  size-cons key f disk = elim (Bool-cases (has_info key)) [ inl h ↦ rw h refl | inr h ↦ rw h refl ]

  size-delete :
      (key : Text) (f : File) (disk : Disk)
      → Unique disk
      → has_info key ≡ true
      → lookup key disk ≡ some f
      → size_of (delete key disk) + length f.content ≡ size_of disk
  unfolding delete lookup
  size-delete key f [] u h l = absurd (none-some refl l)
  size-delete key f ((k, g) ∷ disk) u h l = elim (Bool-cases (k == key)) [
    | inl e ↦
        let same = (text_comparable.same_iff k key).0 e in
        let held : g ≡ f = some-injective _ _ (rw e at l) in
        let whole : size_of ((k, g) ∷ disk) ≡ length g.content + size_of disk =
          size-cons k g disk ∙ rw (same, h) refl in
        let left : size_of (delete key disk) ≡ size_of disk =
          ap size_of (delete-Absent_same key disk (subst (λ j. Absent j disk) same u.0)) in
        rw e (omega (arith, whole, left, ap (λ x. length x.content) held))
    | inr e ↦
        let rest = size-delete key f disk u.1 h (rw e at l) in
        rw e (cons_other k g (delete key disk) disk rest)
  ]
    where
      cons_other :
          (j : Text) (x : File) (a b : Disk)
          → size_of a + length f.content ≡ size_of b
          → size_of ((j, x) ∷ a) + length f.content ≡ size_of ((j, x) ∷ b)
      cons_other j x a b r = elim (Bool-cases (has_info j)) [
        | inl y ↦
            let p : size_of ((j, x) ∷ a) ≡ length x.content + size_of a =
              size-cons j x a ∙ rw y refl in
            let q : size_of ((j, x) ∷ b) ≡ length x.content + size_of b =
              size-cons j x b ∙ rw y refl in
            omega (arith, p, q, r)
        | inr n ↦
            let p : size_of ((j, x) ∷ a) ≡ size_of a = size-cons j x a ∙ rw n refl in
            let q : size_of ((j, x) ∷ b) ≡ size_of b = size-cons j x b ∙ rw n refl in
            omega (arith, p, q, r)
      ]

  -- The entries still to come are on the disk, and the total is the size of what is there.
  abbrev pub Counted : List FileEntry → Sweep → Type 0
  Counted es s =
      Unique s.disk × Recorded s.disk es × Distinct has_info es × (s.total_size ≡ size_of s.disk)

  delete-Recorded :
      (key : Text) (disk : Disk) (es : List FileEntry)
      → Apart key es
      → Recorded disk es
      → Recorded (delete key disk) es
  delete-Recorded key disk [] a r = tt
  delete-Recorded key disk (x ∷ es) a r =
      let (f, l, same) = r.0 in
      let kept : lookup x.key (delete key disk) ≡ some f =
        lookup-delete key x.key disk ∙ rw (apart_sym x.key key a.0) l in
      ((f, kept, same), delete-Recorded key disk es a.1 r.1)

  module _ (p : CachePruner) (cutoff : ℕ) (removes : Text → Bool) where
    remove-Counted :
        (e : FileEntry) (es : List FileEntry) (s : Sweep)
        → Counted (e ∷ es) s
        → Counted es (remove removes e s)
    unfolding remove
    remove-Counted e es s c =
        let (f, l, same) = c.1.0 in
        let size = size-delete e.key f s.disk c.0 c.2.0 l in
        let total : s.total_size - e.size ≡ size_of (delete e.key s.disk) =
          omega (arith, size, c.3, ap (λ x. x.size) same) in
        if_cases (Counted es) (removes e.key) _ _
          (λ r. (
            delete-Unique e.key s.disk c.0,
            delete-Recorded e.key s.disk es c.2.1 c.1.1,
            c.2.2,
            total,
          ))
          (λ r. (c.0, c.1.1, c.2.2, c.3))

    sweep_file-Counted :
        (e : FileEntry) (es : List FileEntry) (s : Sweep)
        → Counted (e ∷ es) s
        → Counted es (sweep_file p cutoff removes e s)
    unfolding sweep_file
    sweep_file-Counted e es s c =
        if_cases (Counted es) (should_prune p cutoff e s.total_size) _ _
          (λ h.
            if_cases (Counted es) (in_s3 p.s3 e.key) _ _ (λ i. remove-Counted e es s c)
              (λ i. (c.0, c.1.1, c.2.2, c.3)))
          (λ h. (c.0, c.1.1, c.2.2, c.3))

    pub sweep_files-size :
        (es : List FileEntry) (s : Sweep)
        → Counted es s
        → (sweep_files p cutoff removes es s).total_size
          ≡ size_of (sweep_files p cutoff removes es s).disk
    unfolding sweep_files
    sweep_files-size [] s c = c.3
    sweep_files-size (e ∷ es) s c =
        sweep_files-size es (sweep_file p cutoff removes e s) (sweep_file-Counted e es s c)
