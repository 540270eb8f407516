-- ===== src/Storage/Tiered.antt =====
-- TieredStore over LocalStore and S3Store. The disk has the files by their paths below the audio
-- directory. An operation on it fails where safePath rejects the key, or where the file system does:
-- `writes` and `reads` say for which files that does not. S3 takes the key as it is.
-- A write renames a temporary file over the target, so a failed one leaves the file as it was; the
-- time of modification is the time of the call. The S3 client is a parameter over a state of its own;
-- an operation answers `none` or `false` for an error.
use tr_engine.Common.{
  ℕ, Bool, true, false, ◌||◌, Option, none, some, if◌then◌else◌, is_some, Text, text_comparable,
}
use tr_engine.Common.Map.{lookup, insert}
use tr_engine.Storage.Pruner.{File, Disk}
use tr_engine.Storage.Local.{disk_key}

pub record S3Store {ℓ} (S : Type ℓ) : Type ℓ where
  pub put_object : Text → Text → S → S × Bool
  pub get_object : Text → S → Option Text
  pub head_object : Text → S → Bool

-- The working directory is the process's.
pub record LocalStore : Type 0 where
  pub cwd : Text
  pub audio_dir : Text
  pub writes : Text → Bool
  pub reads : Text → Bool

abbrev pub file_of : LocalStore → Text → Option Text
file_of local key = disk_key local.cwd local.audio_dir key

abbrev pub write_file : LocalStore → Option Text → Text → ℕ → Disk → Disk × Bool
write_file local none bytes now disk = (disk, false)
write_file local (some file) bytes now disk =
    if local.writes file
    then (insert file (record { content = bytes; mod_time = now }) disk, true)
    else (disk, false)

unfoldable pub local_save : LocalStore → Text → Text → ℕ → Disk → Disk × Bool
local_save local key bytes now disk = write_file local (file_of local key) bytes now disk

abbrev pub content_of : Option File → Option Text
content_of none = none
content_of (some f) = some f.content

abbrev pub stat_file : LocalStore → Option Text → Disk → Option File
stat_file local none disk = none
stat_file local (some file) disk = if local.reads file then lookup file disk else none

unfoldable pub local_open : LocalStore → Text → Disk → Option Text
local_open local key disk = content_of (stat_file local (file_of local key) disk)

unfoldable pub local_exists : LocalStore → Text → Disk → Bool
local_exists local key disk = is_some (stat_file local (file_of local key) disk)

-- The two backends.
pub record Stores {ℓ} (S : Type ℓ) : Type ℓ where
  pub disk : Disk
  pub remote : S

module _ {ℓ} {S : Type ℓ} where
  module _ (s3 : S3Store S) (local : LocalStore) where
    abbrev pub after_local : Text → Text → Disk × Bool → Stores S → Stores S × Bool
    after_local key bytes (disk, false) s = (s, false)
    after_local key bytes (disk, true) s =
        (record { disk = disk; remote = (s3.put_object key bytes s.remote).0 }, true)

    -- The flag is false for an error; one of S3 is only logged.
    unfoldable pub save : Text → Text → ℕ → Stores S → Stores S × Bool
    save key bytes now s = after_local key bytes (local_save local key bytes now s.disk) s

    unfoldable pub save_local : Text → Text → ℕ → Stores S → Stores S × Bool
    save_local key bytes now s =
        let saved = local_save local key bytes now s.disk in
        (record { disk = saved.0; remote = s.remote }, saved.1)

    unfoldable pub save_to_s3 : Text → Text → Stores S → Stores S × Bool
    save_to_s3 key bytes s =
        let put = s3.put_object key bytes s.remote in
        (record { disk = s.disk; remote = put.0 }, put.1)

    -- From S3, with a copy on the local disk if that can be written.
    abbrev pub from_s3 : Text → ℕ → Option Text → Stores S → Stores S × Option Text
    from_s3 key now none s = (s, none)
    from_s3 key now (some bytes) s =
        (record { disk = (local_save local key bytes now s.disk).0; remote = s.remote }, some bytes)

    abbrev pub from_local : Text → ℕ → Option Text → Stores S → Stores S × Option Text
    from_local key now (some bytes) s = (s, some bytes)
    from_local key now none s = from_s3 key now (s3.get_object key s.remote) s

    unfoldable pub open_reader : Text → ℕ → Stores S → Stores S × Option Text
    open_reader key now s = from_local key now (local_open local key s.disk) s

    unfoldable pub exists : Text → Stores S → Bool
    exists key s = local_exists local key s.disk || s3.head_object key s.remote
