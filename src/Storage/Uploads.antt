-- ===== src/Storage/Uploads.antt =====
-- A whole pass of the upload reconciler over the directories of the cache.
use tr_engine.Common.{ℕ, true, false, not, ◌||◌, Option, List, ◌≡◌, Text, if_cases}
use tr_engine.Storage.Tiered.{S3Store}
use tr_engine.Storage.Reconciler.{
  CachedFile, DateDir, SysDir, Reconciled, object_of, reconcile_file, is_before, reconcile_date,
  reconcile_sys, reconcile,
}
use tr_engine.Storage.Backed.{
  Each, Each-map, Follows, Follows-refl, Laws, Whole, Backed-Follows, FileIsBacked, each-Follows,
  each-Good, reconcile_file-Follows, reconcile_file-FileIsBacked,
}

module _ {ℓ} {S : Type ℓ} (s3 : S3Store S) (read_file : Text → Option Text)
    (parse_date : Text → Option ℕ) (cutoff : ℕ) where
  -- Every such file of a directory that is not too old.
  abbrev pub DateIsBacked : Text → DateDir → Reconciled S → Type 0
  DateIsBacked sys d r =
      d.is_dir ≡ true
      → is_before cutoff (parse_date d.name) ≡ false
      → Each (λ f. FileIsBacked s3 read_file sys d.name f r) d.files

  abbrev pub SysIsBacked : SysDir → Reconciled S → Type 0
  SysIsBacked d r = d.is_dir ≡ true → Each (λ x. DateIsBacked d.name x r) d.date_dirs

  File-stable :
      (sys date : Text) (f : CachedFile) (a b : Reconciled S)
      → Follows s3 read_file a b
      → FileIsBacked s3 read_file sys date f a
      → FileIsBacked s3 read_file sys date f b
  File-stable sys date f a b g h d t content c =
      Backed-Follows s3 read_file (object_of sys date f.name) a b g (h d t content c)

  Date-stable :
      (sys : Text) (d : DateDir) (a b : Reconciled S)
      → Follows s3 read_file a b
      → DateIsBacked sys d a
      → DateIsBacked sys d b
  Date-stable sys d a b g h i n = Each-map d.files (λ f. File-stable sys d.name f a b g) (h i n)

  Sys-stable :
      (d : SysDir) (a b : Reconciled S)
      → Follows s3 read_file a b
      → SysIsBacked d a
      → SysIsBacked d b
  Sys-stable d a b g h i = Each-map d.date_dirs (λ x. Date-stable d.name x a b g) (h i)

  module _ (laws : Laws s3) where
    reconcile_date-Follows :
        (sys : Text) (d : DateDir) (r : Reconciled S)
        → Follows s3 read_file r (reconcile_date s3 read_file parse_date cutoff sys d r)
    unfolding reconcile_date
    reconcile_date-Follows sys d r =
        if_cases (Follows s3 read_file r) (not d.is_dir || is_before cutoff (parse_date d.name)) _ _
          (λ h. Follows-refl s3 read_file r)
          (λ h.
            each-Follows s3 read_file (FileIsBacked s3 read_file sys d.name)
              (reconcile_file s3 read_file sys d.name) (File-stable sys d.name)
              (reconcile_file-Follows s3 read_file laws sys d.name)
              (reconcile_file-FileIsBacked s3 read_file laws sys d.name) d.files r)

    reconcile_date-DateIsBacked :
        (sys : Text) (d : DateDir) (r : Reconciled S)
        → DateIsBacked sys d (reconcile_date s3 read_file parse_date cutoff sys d r)
    unfolding reconcile_date
    reconcile_date-DateIsBacked sys d r i n =
        rw (i, n)
          (each-Good s3 read_file (FileIsBacked s3 read_file sys d.name)
            (reconcile_file s3 read_file sys d.name) (File-stable sys d.name)
            (reconcile_file-Follows s3 read_file laws sys d.name)
            (reconcile_file-FileIsBacked s3 read_file laws sys d.name) d.files r)

    reconcile_sys-Follows :
        (d : SysDir) (r : Reconciled S)
        → Follows s3 read_file r (reconcile_sys s3 read_file parse_date cutoff d r)
    unfolding reconcile_sys
    reconcile_sys-Follows d r =
        if_cases (Follows s3 read_file r) d.is_dir _ _
          (λ h.
            each-Follows s3 read_file (DateIsBacked d.name)
              (reconcile_date s3 read_file parse_date cutoff d.name) (Date-stable d.name)
              (reconcile_date-Follows d.name) (reconcile_date-DateIsBacked d.name) d.date_dirs r)
          (λ h. Follows-refl s3 read_file r)

    reconcile_sys-SysIsBacked :
        (d : SysDir) (r : Reconciled S)
        → SysIsBacked d (reconcile_sys s3 read_file parse_date cutoff d r)
    unfolding reconcile_sys
    reconcile_sys-SysIsBacked d r i = rw i (
        each-Good s3 read_file (DateIsBacked d.name)
          (reconcile_date s3 read_file parse_date cutoff d.name) (Date-stable d.name)
          (reconcile_date-Follows d.name) (reconcile_date-DateIsBacked d.name) d.date_dirs r)

    -- After a pass, S3 has an object for every readable file of the cache that is no temporary file and
    -- stands in a day directory that is not too old, or the pass counted a failed upload. Every object
    -- that S3 had before is there with the same bytes, and every new one has the bytes of the file of
    -- its key. Given that S3 has what it accepted, that an object which a write brings has the bytes
    -- written, and that a write touches no other object.
    pub reconcile-SysIsBacked :
        (dirs : List SysDir) (remote : S)
        → Each (λ d. SysIsBacked d (reconcile s3 read_file parse_date cutoff dirs remote)) dirs
          × ((key : Text)
              → Whole s3 read_file key remote
                  (reconcile s3 read_file parse_date cutoff dirs remote).remote)
    unfolding reconcile
    reconcile-SysIsBacked dirs remote = (
      each-Good s3 read_file SysIsBacked (reconcile_sys s3 read_file parse_date cutoff) Sys-stable
          reconcile_sys-Follows reconcile_sys-SysIsBacked dirs start,
      (each-Follows s3 read_file SysIsBacked (reconcile_sys s3 read_file parse_date cutoff)
          Sys-stable reconcile_sys-Follows reconcile_sys-SysIsBacked dirs start).whole,
    )
      where
        start : Reconciled S
        start = record { remote = remote; uploaded = 0; failed = 0; checked = 0 }
