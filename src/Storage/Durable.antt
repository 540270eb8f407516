-- ===== src/Storage/Durable.antt =====
-- What the tiered store gives back: after a Save, and after a pass of the cache pruner.
use tr_engine.Common.{
  ℕ, Bool, true, false, none, some, ◌≡◌, inl, inr, refl, sym, ◌∙◌, ap, arith, Bool-cases, same_refl,
  Text, text_comparable,
}
use tr_engine.Common.Map.{lookup, insert, lookup-insert}
use tr_engine.Storage.Pruner.{File, Disk, CachePruner, in_s3, prune}
use tr_engine.Storage.Limits.{prune-Fate}
use tr_engine.Storage.Tiered.{
  S3Store, LocalStore, Stores, file_of, local_save, local_open, save, open_reader,
}

module _ {ℓ} {S : Type ℓ} (s3 : S3Store S) (local : LocalStore) where
  -- What Save leaves: the file on the disk, and what S3 made of the write.
  abbrev saved : Text → Text → ℕ → Stores S → Stores S
  saved key bytes now s = record {
    disk = insert key (record { content = bytes; mod_time = now }) s.disk;
    remote = (s3.put_object key bytes s.remote).0;
  }

  save-saved :
      (key bytes : Text) (now : ℕ) (s : Stores S)
      → file_of local key ≡ some key
      → local.writes key ≡ true
      → save s3 local key bytes now s ≡ (saved key bytes now s, true)
  unfolding save local_save
  save-saved key bytes now s c w = rw (c, w) refl

  lookup-saved :
      (key bytes : Text) (now : ℕ) (disk : Disk)
      → lookup key (insert key (record { content = bytes; mod_time = now }) disk)
        ≡ some (record { content = bytes; mod_time = now })
  lookup-saved key bytes now disk =
      lookup-insert key key (record { content = bytes; mod_time = now }) disk
      ∙ rw (same_refl key) refl

  open_reader-local :
      (key : Text) (f : File) (now : ℕ) (s : Stores S)
      → file_of local key ≡ some key
      → local.reads key ≡ true
      → lookup key s.disk ≡ some f
      → open_reader s3 local key now s ≡ (s, some f.content)
  unfolding open_reader local_open
  open_reader-local key f now s c r l = rw (c, r, l) refl

  open_reader-remote :
      (key bytes : Text) (now : ℕ) (s : Stores S)
      → file_of local key ≡ some key
      → lookup key s.disk ≡ none
      → s3.get_object key s.remote ≡ some bytes
      → (open_reader s3 local key now s).1 ≡ some bytes
  unfolding open_reader local_open
  open_reader-remote key bytes now s c l g = elim (Bool-cases (local.reads key)) [
    | inl r ↦ rw (c, r, l, g) refl
    | inr r ↦ rw (c, r, g) refl
  ]

  abbrev pub pruned : CachePruner → (Text → Bool) → (Text → Bool) → ℕ → Stores S → Stores S
  pruned p has_info removes now s = record {
    disk = prune p has_info removes now s.disk;
    remote = s.remote;
  }

  module _ (p : CachePruner) (has_info removes : Text → Bool) where
    -- A file that S3 has the same bytes of is read the same after a pass.
    pub prune-open_reader :
        (key : Text) (f : File) (now later : ℕ) (s : Stores S)
        → p.s3 ≡ some (λ k. s3.head_object k s.remote)
        → (s3.head_object key s.remote ≡ true → s3.get_object key s.remote ≡ some f.content)
        → file_of local key ≡ some key
        → local.reads key ≡ true
        → lookup key s.disk ≡ some f
        → (open_reader s3 local key later (pruned p has_info removes now s)).1 ≡ some f.content
    prune-open_reader key f now later s backed copy c r l =
        elim (prune-Fate p has_info removes now key s.disk) [
          | inl same ↦
              ap (λ o. o.1)
                (open_reader-local key f later (pruned p has_info removes now s) c r (same ∙ l))
          | inr gone ↦
              let there : s3.head_object key s.remote ≡ true =
                ap (λ x. in_s3 x key) (sym backed) ∙ gone.1 in
              open_reader-remote key f.content later (pruned p has_info removes now s) c gone.0
                (copy there)
        ]

    -- Save under a key that S3 does not have, then a pass of the pruner whose S3 store is this one, then
    -- Open: Save reports no error and the bytes come back, whether the write to S3 failed or not. Given
    -- that S3 gives back what it accepted, that a failed write leaves its answer to Exists as it was, and
    -- that the local disk takes and reads the file, and that the key is the path of its file below the
    -- audio directory, as safePath cleans it.
    pub save-prune-open_reader :
        (key bytes : Text) (saved_at now later : ℕ) (s : Stores S)
        → ((s3.put_object key bytes s.remote).1 ≡ true
            → s3.get_object key (s3.put_object key bytes s.remote).0 ≡ some bytes)
        → ((s3.put_object key bytes s.remote).1 ≡ false
            → s3.head_object key (s3.put_object key bytes s.remote).0 ≡ s3.head_object key s.remote)
        → s3.head_object key s.remote ≡ false
        → p.s3 ≡ some (λ k. s3.head_object k (s3.put_object key bytes s.remote).0)
        → file_of local key ≡ some key
        → local.writes key ≡ true
        → local.reads key ≡ true
        → ((save s3 local key bytes saved_at s).1 ≡ true)
          × ((open_reader s3 local key later
                (pruned p has_info removes now (save s3 local key bytes saved_at s).0)).1
              ≡ some bytes)
    save-prune-open_reader key bytes saved_at now later s stored failed fresh backed c w r =
        rw (save-saved key bytes saved_at s c w) (
          refl,
          prune-open_reader key (record { content = bytes; mod_time = saved_at }) now later
              (saved key bytes saved_at s) backed copy c r (lookup-saved key bytes saved_at s.disk),
        )
      where
        copy :
            s3.head_object key (s3.put_object key bytes s.remote).0 ≡ true
            → s3.get_object key (s3.put_object key bytes s.remote).0 ≡ some bytes
        copy there = elim (Bool-cases (s3.put_object key bytes s.remote).1) [
          | inl fine ↦ stored fine
          | inr err ↦ absurd (ground (arith, failed err, fresh, there))
        ]
