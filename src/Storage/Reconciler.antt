-- ===== src/Storage/Reconciler.antt =====
-- UploadReconciler.reconcile: the directories of the cache, one per system and in it one per day, as
-- `os.ReadDir` lists them. `read_file` is `os.ReadFile` at a path below the cache directory, which is
-- the key too; it gives `none` for an error. How a directory name reads as a date is a parameter; the content type of an upload is left out.
use tr_engine.Common.{
  ℕ, ◌+◌, Bool, true, false, not, ◌&&◌, ◌||◌, Option, none, some, List, [], ◌∷◌, ◌++◌,
  if◌then◌else◌, ltb, Text, bytes, length, drop, ◌-◌, ◌==◌, text_comparable, leb,
}
use tr_engine.Common.Slices.{has_prefix}
use tr_engine.Storage.Tiered.{S3Store}

pub record CachedFile : Type 0 where
  pub name : Text
  pub is_dir : Bool

pub record DateDir : Type 0 where
  pub name : Text
  pub is_dir : Bool
  pub files : List CachedFile

pub record SysDir : Type 0 where
  pub name : Text
  pub is_dir : Bool
  pub date_dirs : List DateDir

-- The state of the loop.
pub record Reconciled {ℓ} (S : Type ℓ) : Type ℓ where
  pub remote : S
  pub uploaded : ℕ
  pub failed : ℕ
  pub checked : ℕ

unfoldable pub has_suffix : Text → Text → Bool
has_suffix t suffix = leb (length suffix) (length t) && drop (length t - length suffix) t == suffix

unfoldable pub is_temp : Text → Bool
is_temp name = has_prefix name (bytes ".audio-") && has_suffix name (bytes ".tmp")

abbrev pub object_of : Text → Text → Text → Text
object_of sys date name = sys ++ 47 ∷ date ++ 47 ∷ name

-- A `for` loop over a list.
unfoldable pub each {ℓ κ} : {A : Type ℓ} {R : Type κ} → (A → R → R) → List A → R → R
each step [] r = r
each step (x ∷ xs) r = each step xs (step x r)

abbrev pub is_before : ℕ → Option ℕ → Bool
is_before cutoff none = false
is_before cutoff (some date) = ltb date cutoff

module _ {ℓ} {S : Type ℓ} (s3 : S3Store S) where
  abbrev pub counted_upload : S × Bool → Reconciled S → Reconciled S
  counted_upload (remote, true) r = record r { remote = remote; uploaded = r.uploaded + 1 }
  counted_upload (remote, false) r = record r { remote = remote; failed = r.failed + 1 }

  abbrev pub upload : Text → Option Text → Reconciled S → Reconciled S
  upload key none r = r
  upload key (some content) r = counted_upload (s3.put_object key content r.remote) r

  abbrev pub check : Text → Option Text → Reconciled S → Reconciled S
  check key content r = if s3.head_object key r.remote then r else upload key content r

  module _ (read_file : Text → Option Text) where
    unfoldable pub reconcile_file : Text → Text → CachedFile → Reconciled S → Reconciled S
    reconcile_file sys date f r =
        let key = object_of sys date f.name in
        if f.is_dir || is_temp f.name
        then r
        else check key (read_file key) (record r { checked = r.checked + 1 })

    module _ (parse_date : Text → Option ℕ) (cutoff : ℕ) where
      unfoldable pub reconcile_date : Text → DateDir → Reconciled S → Reconciled S
      reconcile_date sys d r =
          if not d.is_dir || is_before cutoff (parse_date d.name)
          then r
          else each (reconcile_file sys d.name) d.files r

      unfoldable pub reconcile_sys : SysDir → Reconciled S → Reconciled S
      reconcile_sys d r = if d.is_dir then each (reconcile_date d.name) d.date_dirs r else r

      unfoldable pub reconcile : List SysDir → S → Reconciled S
      reconcile dirs remote =
          each reconcile_sys dirs
            (record { remote = remote; uploaded = 0; failed = 0; checked = 0 })
