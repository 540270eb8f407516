-- ===== src/Storage/Limits.antt =====
-- A whole pass of CachePruner.prune: what it may remove, what it leaves, and in which order.
use tr_engine.Common.{
  ℕ, ◌-◌, ◌≤◌, Bool, true, false, none, some, List, ◌∷◌, [], ◌≡◌, ◌≢◌, ◌⊎◌, inl, inr, refl, sym,
  ◌∙◌, ap, ltb, Text, text_comparable, arith, Bool-cases, ◌||◌,
}
use mathlib.Core.Option.{some-injective}
use tr_engine.Common.Map.{lookup, Unique}
use tr_engine.Storage.Pruner.{
  File, Disk, FileEntry, CachePruner, Sweep, entry_of, walk_dir, total_of, sort_entries, in_s3,
  sweep_files, sweep_start, prune,
}
use tr_engine.Storage.Entries.{
  Among, Recorded, none-some, sort-IsSorted, sort-Among, sort-Recorded, walk-Recorded, walk-Among,
}
use tr_engine.Storage.Totals.{size_of, sort-Distinct, walk-Distinct, sweep_files-size}
use tr_engine.Storage.Evictions.{Fate, sweep_files-Fate, sweep_files-Oldest, sweep_files-Within}

-- The time of a recorded entry.
Recorded-time :
    (key : Text) (g : File) (disk : Disk) (x : FileEntry) (es : List FileEntry)
    → Recorded disk es
    → Among x es
    → x.key ≡ key
    → lookup key disk ≡ some g
    → x.mod_time ≡ g.mod_time
Recorded-time key g disk x [] r i same l = elim i [ ]
Recorded-time key g disk x (y ∷ es) r (inr i) same l = Recorded-time key g disk x es r.1 i same l
Recorded-time key g disk x (y ∷ es) r (inl here) same l =
    let (f, held, is_f) = r.0 in
    let at_key : y.key ≡ key = ap (λ z. z.key) here ∙ same in
    let one : f ≡ g = some-injective _ _ (sym held ∙ ap (λ k. lookup k disk) at_key ∙ l) in
    ap (λ z. z.mod_time) (sym here ∙ is_f) ∙ ap (λ h. h.mod_time) one

module _ (p : CachePruner) (has_info removes : Text → Bool) (now : ℕ) where
  -- What the loop leaves, when it runs.
  abbrev swept : Disk → Sweep
  swept disk =
      sweep_files p (now - p.retention) removes (sort_entries (walk_dir has_info disk))
        (sweep_start disk (total_of (walk_dir has_info disk)))

  abbrev is_limited : Bool
  is_limited = ltb 0 p.retention || ltb 0 p.max_bytes

  prune-limited :
      (disk : Disk) → is_limited ≡ true → prune p has_info removes now disk ≡ (swept disk).disk
  unfolding prune
  prune-limited disk h = rw h refl

  prune-unlimited : (disk : Disk) → is_limited ≡ false → prune p has_info removes now disk ≡ disk
  unfolding prune
  prune-unlimited disk h = rw h refl

  -- A pass leaves every file as it is, or removes it; with an S3 store only a file that S3 has.
  pub prune-Fate :
      (key : Text) (disk : Disk) → Fate p.s3 key disk (prune p has_info removes now disk)
  prune-Fate key disk = elim (Bool-cases is_limited) [
    | inl h ↦ rw (prune-limited disk h) (sweep_files-Fate p _ removes key _ (sweep_start disk _))
    | inr h ↦ rw (prune-unlimited disk h) (inl refl)
  ]

  swept-size :
      (disk : Disk) → Unique disk → (swept disk).total_size ≡ size_of has_info (swept disk).disk
  swept-size disk u =
      let files = walk_dir has_info disk in
      sweep_files-size has_info p (now - p.retention) removes (sort_entries files)
        (sweep_start disk (total_of files))
        (
          u,
          sort-Recorded disk files (walk-Recorded has_info disk u),
          sort-Distinct has_info files (walk-Distinct has_info disk u),
          refl,
        )

  -- The walk sees the file, S3 has it and it can be removed.
  abbrev pub Prunable : Text → Type 0
  Prunable key = (has_info key ≡ true) × (in_s3 p.s3 key ≡ true) × (removes key ≡ true)

  -- On a disk with one file for each key: where a pass keeps a file that the walk sees, that S3 has and
  -- that can be removed, the file is within the retention, if there is one, and the size of all that the
  -- walk sees afterwards is within the limit, if there is one.
  pub prune-limits :
      (key : Text) (f : File) (disk : Disk)
      → Unique disk
      → Prunable key
      → lookup key disk ≡ some f
      → lookup key (prune p has_info removes now disk) ≢ none
      → ((p.retention ≡ 0) ⊎ (now - p.retention ≤ f.mod_time))
        × ((p.max_bytes ≡ 0) ⊎ (size_of has_info (prune p has_info removes now disk) ≤ p.max_bytes))
  prune-limits key f disk u r l kept = elim (Bool-cases is_limited) [
    | inl h ↦
        let e = prune-limited disk h in
        let there = sort-Among (entry_of key f) _ (walk-Among has_info key f disk r.0 l) in
        let fine =
          sweep_files-Within p (now - p.retention) removes (entry_of key f) _ (sweep_start disk _)
            there (r.1, r.2) (rw e at kept) in
        rw (e, sym (swept-size disk u)) fine
    | inr h ↦ ground (arith, h)
  ]

  -- On a disk with one file for each key, files are removed from the oldest on: where a pass keeps a file
  -- that the walk sees, that S3 has and that can be removed, no file that it removed is younger.
  pub prune-oldest_first :
      (kept_key gone_key : Text) (f g : File) (disk : Disk)
      → Unique disk
      → Prunable kept_key
      → lookup kept_key disk ≡ some f
      → lookup kept_key (prune p has_info removes now disk) ≢ none
      → lookup gone_key disk ≡ some g
      → lookup gone_key (prune p has_info removes now disk) ≡ none
      → g.mod_time ≤ f.mod_time
  prune-oldest_first kept_key gone_key f g disk u r l kept held gone =
      elim (Bool-cases is_limited) [
        | inl h ↦
            let e = prune-limited disk h in
            let there =
              sort-Among (entry_of kept_key f) _ (walk-Among has_info kept_key f disk r.0 l) in
            let (x, i, same, le) =
              sweep_files-Oldest p (now - p.retention) removes (entry_of kept_key f) gone_key _
                (sweep_start disk _) (sort-IsSorted (walk_dir has_info disk)) there (r.1, r.2)
                (rw e at kept) (λ n. none-some n held) (rw e at gone) in
            let time =
              Recorded-time gone_key g disk x _
                (sort-Recorded disk _ (walk-Recorded has_info disk u)) i same held in
            omega (arith, time, le)
        | inr h ↦
            absurd (none-some (sym (ap (lookup gone_key) (prune-unlimited disk h)) ∙ gone) held)
      ]
