-- ===== src/Storage/Evictions.antt =====
-- What a pass of CachePruner.prune may remove, and in which order.
use tr_engine.Common.{
  ℕ, ◌≤◌, Bool, true, false, Option, none, List, [], ◌∷◌, ◌≡◌, ◌≢◌, ◌⊎◌, inl, inr, refl, sym, subst,
  ◌∙◌, ap, Text, ◌==◌, text_comparable, arith, Bool-cases, if_cases, same_refl,
}
use tr_engine.Common.Map.{lookup, delete, lookup-delete}
use tr_engine.Storage.Pruner.{
  Disk, FileEntry, CachePruner, Sweep, should_prune, in_s3, remove, sweep_file, sweep_files,
}
use tr_engine.Storage.Entries.{Among, NoneOlder, NoneOlder-Among, IsSorted}

-- A key keeps its file, or it was in S3 and its file was removed.
abbrev pub Fate : Option (Text → Bool) → Text → Disk → Disk → Type 0
Fate s3 key before after =
    (lookup key after ≡ lookup key before) ⊎ ((lookup key after ≡ none) × (in_s3 s3 key ≡ true))

Fate-trans :
    (s3 : Option (Text → Bool)) (key : Text) (a b c : Disk)
    → Fate s3 key a b
    → Fate s3 key b c
    → Fate s3 key a c
Fate-trans s3 key a b c f (inr gone) = inr gone
Fate-trans s3 key a b c (inl same) (inl again) = inl (again ∙ same)
Fate-trans s3 key a b c (inr gone) (inl again) = inr (again ∙ gone.0, gone.1)

delete-Fate :
    (s3 : Option (Text → Bool)) (e key : Text) (disk : Disk)
    → in_s3 s3 e ≡ true
    → Fate s3 key disk (delete e disk)
delete-Fate s3 e key disk i = elim (Bool-cases (e == key)) [
  | inl same ↦ inr (
    lookup-delete e key disk ∙ rw same refl,
    ap (in_s3 s3) (sym ((text_comparable.same_iff e key).0 same)) ∙ i,
  )
  | inr other ↦ inl (lookup-delete e key disk ∙ rw other refl)
]

module _ (p : CachePruner) (cutoff : ℕ) (removes : Text → Bool) where
  sweep_file-Fate :
      (key : Text) (e : FileEntry) (s : Sweep)
      → Fate p.s3 key s.disk (sweep_file p cutoff removes e s).disk
  unfolding sweep_file remove
  sweep_file-Fate key e s =
      let P : Sweep → Type 0 = λ r. Fate p.s3 key s.disk r.disk in
      if_cases P (should_prune p cutoff e s.total_size) _ _
        (λ h.
          if_cases P (in_s3 p.s3 e.key) _ _
            (λ i.
              if_cases P (removes e.key) _ _ (λ r. delete-Fate p.s3 e.key key s.disk i)
                (λ r. inl refl))
            (λ i. inl refl))
        (λ h. inl refl)

  pub sweep_files-Fate :
      (key : Text) (es : List FileEntry) (s : Sweep)
      → Fate p.s3 key s.disk (sweep_files p cutoff removes es s).disk
  unfolding sweep_files
  sweep_files-Fate key [] s = inl refl
  sweep_files-Fate key (e ∷ es) s =
      Fate-trans p.s3 key _ _ _ (sweep_file-Fate key e s)
        (sweep_files-Fate key es (sweep_file p cutoff removes e s))

  -- What is gone stays away.
  stays_gone :
      (key : Text) (es : List FileEntry) (s : Sweep)
      → lookup key s.disk ≡ none
      → lookup key (sweep_files p cutoff removes es s).disk ≡ none
  stays_gone key es s gone = elim (sweep_files-Fate key es s) [
    | inl same ↦ same ∙ gone
    | inr now ↦ now.0
  ]

  sweep_file-total :
      (e : FileEntry) (s : Sweep) → (sweep_file p cutoff removes e s).total_size ≤ s.total_size
  unfolding sweep_file remove
  sweep_file-total e s =
      let P : Sweep → Type 0 = λ r. r.total_size ≤ s.total_size in
      if_cases P (should_prune p cutoff e s.total_size) _ _
        (λ h.
          if_cases P (in_s3 p.s3 e.key) _ _
            (λ i. if_cases P (removes e.key) _ _ (λ r. omega arith) (λ r. omega arith))
            (λ i. omega arith))
        (λ h. omega arith)

  pub sweep_files-total :
      (es : List FileEntry) (s : Sweep)
      → (sweep_files p cutoff removes es s).total_size ≤ s.total_size
  unfolding sweep_files
  sweep_files-total [] s = omega arith
  sweep_files-total (e ∷ es) s =
      omega (arith, sweep_file-total e s, sweep_files-total es (sweep_file p cutoff removes e s))

  -- Nothing outside keeps the pass from removing the file.
  abbrev pub Removable : Text → Type 0
  Removable key = (in_s3 p.s3 key ≡ true) × (removes key ≡ true)

  kept_file :
      (e : FileEntry) (es : List FileEntry) (s : Sweep)
      → Removable e.key
      → lookup e.key (sweep_files p cutoff removes (e ∷ es) s).disk ≢ none
      → should_prune p cutoff e s.total_size ≡ false
  unfolding sweep_files sweep_file remove
  kept_file e es s r kept = elim (Bool-cases (should_prune p cutoff e s.total_size)) [
    | inr safe ↦ safe
    | inl due ↦
        let gone : lookup e.key (sweep_file p cutoff removes e s).disk ≡ none =
          rw (due, r.0, r.1) (lookup-delete e.key e.key s.disk ∙ rw (same_refl e.key) refl) in
        absurd (kept (stays_gone e.key es (sweep_file p cutoff removes e s) gone))
  ]

  -- A removable file is kept only where it is young enough, and where the rest is small enough.
  abbrev pub Fine : FileEntry → ℕ → Type 0
  Fine e total =
      ((p.retention ≡ 0) ⊎ (cutoff ≤ e.mod_time)) × ((p.max_bytes ≡ 0) ⊎ (total ≤ p.max_bytes))

  should_prune-Fine :
      (e : FileEntry) (total after : ℕ)
      → should_prune p cutoff e total ≡ false
      → after ≤ total
      → Fine e after
  unfolding should_prune
  should_prune-Fine e total after h le = ground (arith, h, le)

  later_file :
      (x e : FileEntry) (total : ℕ)
      → should_prune p cutoff x total ≡ false
      → x.mod_time ≤ e.mod_time
      → should_prune p cutoff e total ≡ false
  unfolding should_prune
  later_file x e total h le = ground (arith, h, le)

  unpruned :
      (e : FileEntry) (s : Sweep)
      → should_prune p cutoff e s.total_size ≡ false
      → sweep_file p cutoff removes e s ≡ s
  unfolding sweep_file
  unpruned e s h = rw h refl

  -- After a file that stays within the limits, a pass over younger ones changes nothing.
  rest_unpruned :
      (x : FileEntry) (es : List FileEntry) (s : Sweep)
      → should_prune p cutoff x s.total_size ≡ false
      → NoneOlder x es
      → sweep_files p cutoff removes es s ≡ s
  unfolding sweep_files
  rest_unpruned x [] s h o = refl
  rest_unpruned x (e ∷ es) s h o =
      rw (unpruned e s (later_file x e s.total_size h o.0)) (rest_unpruned x es s h o.1)

  -- Of sorted files: where a removable one is kept, only files that are no younger were removed.
  abbrev Oldest : FileEntry → Text → List FileEntry → Sweep → Type 0
  Oldest f key es s =
      Removable f.key
      → lookup f.key (sweep_files p cutoff removes es s).disk ≢ none
      → lookup key s.disk ≢ none
      → lookup key (sweep_files p cutoff removes es s).disk ≡ none
      → (x : FileEntry) × Among x es × (x.key ≡ key) × (x.mod_time ≤ f.mod_time)

  first_kept :
      (x : FileEntry) (key : Text) (es : List FileEntry) (s : Sweep)
      → NoneOlder x es
      → Oldest x key (x ∷ es) s
  unfolding sweep_files
  first_kept x key es s o r kept held gone =
      let safe = kept_file x es s r kept in
      let same : sweep_files p cutoff removes es (sweep_file p cutoff removes x s) ≡ s =
        rw (unpruned x s safe) (rest_unpruned x es s safe o) in
      absurd (held (ap (λ t. lookup key t.disk) (sym same) ∙ gone))

  sweep_file-other :
      (key : Text) (e : FileEntry) (s : Sweep)
      → (e.key == key) ≡ false
      → lookup key (sweep_file p cutoff removes e s).disk ≡ lookup key s.disk
  unfolding sweep_file remove
  sweep_file-other key e s d =
      let P : Sweep → Type 0 = λ r. lookup key r.disk ≡ lookup key s.disk in
      if_cases P (should_prune p cutoff e s.total_size) _ _
        (λ h.
          if_cases P (in_s3 p.s3 e.key) _ _
            (λ i.
              if_cases P (removes e.key) _ _ (λ r. lookup-delete e.key key s.disk ∙ rw d refl)
                (λ r. refl))
            (λ i. refl))
        (λ h. refl)

  pub sweep_files-Oldest :
      (f : FileEntry) (key : Text) (es : List FileEntry) (s : Sweep)
      → IsSorted es
      → Among f es
      → Oldest f key es s
  unfolding sweep_files
  sweep_files-Oldest f key [] s o i = elim i [ ]
  sweep_files-Oldest f key (x ∷ es) s o (inl same) =
      subst (λ y. Oldest y key (x ∷ es) s) same (first_kept x key es s o.0)
  sweep_files-Oldest f key (x ∷ es) s o (inr i) = λ r kept held gone.
      elim (Bool-cases (x.key == key)) [
        | inl e ↦
            (x, inl refl, (text_comparable.same_iff x.key key).0 e, NoneOlder-Among x f es o.0 i)
        | inr e ↦
            let still : lookup key (sweep_file p cutoff removes x s).disk ≢ none =
              λ n. held (sym (sweep_file-other key x s e) ∙ n) in
            let (y, j, k, le) =
              sweep_files-Oldest f key es (sweep_file p cutoff removes x s) o.1 i r kept still
                gone in
            (y, inr j, k, le)
      ]

  abbrev Within : List FileEntry → Sweep → FileEntry → Type 0
  Within es s f =
      Removable f.key
      → lookup f.key (sweep_files p cutoff removes es s).disk ≢ none
      → Fine f (sweep_files p cutoff removes es s).total_size

  first_Within : (x : FileEntry) (es : List FileEntry) (s : Sweep) → Within (x ∷ es) s x
  unfolding sweep_files
  first_Within x es s r kept =
      should_prune-Fine x s.total_size _ (kept_file x es s r kept) (
        omega (arith, sweep_file-total x s, sweep_files-total es (sweep_file p cutoff removes x s)))

  pub sweep_files-Within :
      (f : FileEntry) (es : List FileEntry) (s : Sweep) → Among f es → Within es s f
  unfolding sweep_files
  sweep_files-Within f [] s i = elim i [ ]
  sweep_files-Within f (x ∷ es) s (inl same) = subst (Within (x ∷ es) s) same (first_Within x es s)
  sweep_files-Within f (x ∷ es) s (inr i) =
      sweep_files-Within f es (sweep_file p cutoff removes x s) i
