-- ===== src/Storage/Tests.antt =====
-- Concrete runs of the storage, and the instances of the theorems on it.
use tr_engine.Common.Bytes.{text_same_iff}
use tr_engine.Common.{
  ap, ◌∙◌, ◌≢◌, ◌==◌, Bool-cases, inl, inr, ℕ, Bool, true, false, Option, none, some, List, [], ◌∷◌,
  ◌≡◌, ◌≢◌, ◌⊎◌, ◌≤◌, ◌-◌, ◌↔◌, same_refl, refl, Text, bytes, ◌==◌, text_comparable, arith, is_some,
}
use tr_engine.Common.Slices.{has_prefix}
use tr_engine.Common.Split.{split}
use tr_engine.Common.Map.{Map, Unique, lookup, insert, delete, lookup-insert}
use tr_engine.Storage.Local.{
  clean_onto, reversed_onto, clean_segments, slashed, join_path, abs_segments, safe_path, disk_key,
}
use tr_engine.Storage.Inside.{LeadsInside, safe_path_iff}
use tr_engine.Storage.Pruner.{
  File, Disk, CachePruner, walk_dir, total_of, insert_entry, sort_entries, should_prune, remove,
  sweep_file, sweep_files, prune,
}
use tr_engine.Storage.Entries.{none-some}
use tr_engine.Storage.Totals.{size_of}
use tr_engine.Storage.Limits.{prune-limits, prune-oldest_first}
use tr_engine.Storage.Tiered.{
  S3Store, LocalStore, Stores, local_save, local_open, local_exists, save, save_local, save_to_s3,
  open_reader, exists,
}
use tr_engine.Storage.Durable.{pruned, save-prune-open_reader}
use tr_engine.Storage.Reconciler.{
  SysDir, has_suffix, is_temp, each, reconcile_file, reconcile_date, reconcile_sys, reconcile,
}
use tr_engine.Storage.Backed.{Each, Laws, Whole}
use tr_engine.Storage.Uploads.{SysIsBacked, reconcile-SysIsBacked}

program : Unit {0}
unfolding split lookup insert delete has_prefix clean_onto reversed_onto clean_segments slashed
    join_path abs_segments safe_path disk_key walk_dir total_of insert_entry sort_entries
    should_prune remove sweep_file sweep_files prune local_save local_open local_exists save
    save_local save_to_s3 open_reader exists has_suffix is_temp each reconcile_file reconcile_date
    reconcile_sys reconcile
program = tt

abbrev home : Text
home = bytes "/srv"

abbrev audio : Text
audio = bytes "data/audio/"

takes_file :
    safe_path home audio (bytes "butco/2025-01-02/a.wav")
    ≡ some (bytes "/srv/data/audio/butco/2025-01-02/a.wav")
unfolding program
takes_file = refl

-- A directory whose name only begins like the audio directory's is outside.
rejects_neighbour : safe_path home audio (bytes "../audio2/a.wav") ≡ none
unfolding program
rejects_neighbour = refl

rejects_parent : safe_path home audio (bytes "x/../../y") ≡ none
unfolding program
rejects_parent = refl

-- Below the root directory everything is rejected: the prefix is two slashes.
root_rejects : safe_path home (bytes "/") (bytes "a.wav") ≡ none
unfolding program
root_rejects = refl

audio_dir_is_no_root : abs_segments home audio ≢ []
unfolding program
audio_dir_is_no_root e = ground (arith, e)

safe_path_iff_example :
    (safe_path home audio (bytes "a/./b.wav") ≡ some (bytes "/srv/data/audio/a/b.wav"))
    ↔ LeadsInside home audio (bytes "a/./b.wav") (bytes "/srv/data/audio/a/b.wav")
safe_path_iff_example =
    safe_path_iff home audio (bytes "a/./b.wav") (bytes "/srv/data/audio/a/b.wav")
      audio_dir_is_no_root

abbrev file : ℕ → Text → File
file time content = record { content = content; mod_time = time }

-- Three files of 3 bytes each.
abbrev disk : Disk
disk =
    (bytes "b", file 20 (bytes "222"))
    ∷ (bytes "a", file 10 (bytes "111"))
    ∷ (bytes "c", file 30 (bytes "333"))
    ∷ []

abbrev always : Text → Bool
always key = true

-- At most 6 bytes, everything in S3.
abbrev by_size : CachePruner
by_size = record { retention = 0; max_bytes = 6; s3 = some always }

-- At most 6 bytes, and the oldest file is not in S3.
abbrev not_in_s3 : CachePruner
not_in_s3 = record { retention = 0; max_bytes = 6; s3 = some (λ key. key == bytes "c") }

abbrev keys_of : Disk → List Text
keys_of [] = []
keys_of ((k, f) ∷ d) = k ∷ keys_of d

evicts_oldest : keys_of (prune by_size always always 40 disk) ≡ bytes "b" ∷ bytes "c" ∷ []
unfolding program
evicts_oldest = refl

-- A file that S3 does not have is passed over, and a younger one goes in its place.
passes_over : keys_of (prune not_in_s3 always always 40 disk) ≡ bytes "b" ∷ bytes "a" ∷ []
unfolding program
passes_over = refl

disk-Unique : Unique disk
disk-Unique = ((refl, (refl, tt)), ((refl, tt), (tt, tt)))

prune-limits_example :
    ((by_size.retention ≡ 0) ⊎ (40 - by_size.retention ≤ 20))
    × ((by_size.max_bytes ≡ 0)
        ⊎ (size_of always (prune by_size always always 40 disk) ≤ by_size.max_bytes))
unfolding program
prune-limits_example =
    prune-limits by_size always always 40 (bytes "b") (file 20 (bytes "222")) disk disk-Unique
      (refl, refl, refl) refl (λ gone. none-some gone refl)

prune-oldest_first_example : 10 ≤ 20
unfolding program
prune-oldest_first_example =
    prune-oldest_first by_size always always 40 (bytes "b") (bytes "a") (file 20 (bytes "222"))
      (file 10 (bytes "111")) disk disk-Unique (refl, refl, refl) refl (λ gone. none-some gone refl)
      refl refl

-- A bucket as a map, which accepts every write.
abbrev bucket : S3Store (Map Text Text)
bucket = record {
  put_object = λ key content remote. (insert key content remote, true);
  get_object = λ key remote. lookup key remote;
  head_object = λ key remote. is_some (lookup key remote);
}

abbrev whole_disk : LocalStore
whole_disk = record {
  cwd = bytes "/srv";
  audio_dir = bytes "audio";
  writes = always;
  reads = always;
}

abbrev empty_stores : Stores (Map Text Text)
empty_stores = record { disk = []; remote = [] }

-- Everything older than 5 is pruned.
abbrev by_age : CachePruner
by_age = record {
  retention = 5;
  max_bytes = 0;
  s3 = some (λ k. is_some (lookup k ((bytes "a", bytes "111") ∷ [])));
}

prune_removes :
    keys_of (
      prune by_age always always 40
        (save bucket whole_disk (bytes "a") (bytes "111") 10 empty_stores).0.disk)
    ≡ []
unfolding program
prune_removes = refl

save-prune-open_reader_example :
    ((save bucket whole_disk (bytes "a") (bytes "111") 10 empty_stores).1 ≡ true)
    × ((open_reader bucket whole_disk (bytes "a") 50 (
          pruned bucket whole_disk by_age always always 40
            (save bucket whole_disk (bytes "a") (bytes "111") 10 empty_stores).0)).1
        ≡ some (bytes "111"))
unfolding program
save-prune-open_reader_example =
    save-prune-open_reader bucket whole_disk by_age always always (bytes "a") (bytes "111") 10 40 50
      empty_stores (λ ok. refl) (λ err. absurd (ground (arith, err))) refl refl refl refl refl

not_same : (key other : Text) → key ≢ other → (key == other) ≡ false
not_same key other n = elim (Bool-cases (key == other)) [
  | inl e ↦ absurd (n ((text_same_iff key other).0 e))
  | inr e ↦ e
]

own_slot :
    (key content : Text) (remote : Map Text Text)
    → lookup key (insert key content remote) ≡ some content
own_slot key content remote = lookup-insert key key content remote ∙ rw (same_refl key) refl

other_slot :
    (key content other : Text) (remote : Map Text Text)
    → key ≢ other
    → lookup other (insert key content remote) ≡ lookup other remote
other_slot key content other remote n =
    lookup-insert key other content remote ∙ rw (not_same key other n) refl

bucket_laws : Laws bucket
bucket_laws = record {
  stored = λ key content remote ok. ap is_some (own_slot key content remote);
  whole = λ key content remote fresh there. own_slot key content remote;
  apart = λ key content other remote n.
      (ap is_some (other_slot key content other remote n), other_slot key content other remote n);
}

-- A day of one system, with a temporary file.
abbrev dirs : List SysDir
dirs =
    record {
      name = bytes "butco";
      is_dir = true;
      date_dirs =
          record {
            name = bytes "2025-01-02";
            is_dir = true;
            files =
                record { name = bytes "a.wav"; is_dir = false }
                ∷ record { name = bytes ".audio-7.tmp"; is_dir = false }
                ∷ [];
          }
          ∷ [];
    }
    ∷ []

abbrev cached : Text → Option Text
cached key = lookup key ((bytes "butco/2025-01-02/a.wav", bytes "111") ∷ [])

abbrev no_date : Text → Option ℕ
no_date name = none

uploads_one :
    (reconcile bucket cached no_date 0 dirs []).remote
    ≡ (bytes "butco/2025-01-02/a.wav", bytes "111") ∷ []
unfolding program
uploads_one = refl

reconcile-SysIsBacked_example :
    Each
      (λ d. SysIsBacked bucket cached no_date 0 d (reconcile bucket cached no_date 0 dirs []))
      dirs
    × ((key : Text) → Whole bucket cached key [] (reconcile bucket cached no_date 0 dirs []).remote)
reconcile-SysIsBacked_example = reconcile-SysIsBacked bucket cached no_date 0 bucket_laws dirs []

-- The same bucket when it refuses every write.
abbrev refusing : S3Store (Map Text Text)
refusing = record bucket { put_object = λ key content remote. (remote, false) }

abbrev old_copy : Stores (Map Text Text)
old_copy = record { disk = []; remote = (bytes "a", bytes "111") ∷ [] }

-- Two keys of one file.
one_file :
    local_open whole_disk
      (bytes "a/./b")
      (local_save whole_disk (bytes "/a/b") (bytes "111") 1 []).0
    ≡ some (bytes "111")
unfolding program
one_file = refl

-- S3 has an older object under the cleaned path and refuses the new one under the key as it is: the
-- pruner deletes the file, and the bytes under the key are on no store.
unclean_key :
    (open_reader refusing whole_disk (bytes "/a") 50 (
      pruned refusing whole_disk by_age always always 40
        (save refusing whole_disk (bytes "/a") (bytes "222") 10 old_copy).0)).1
    ≡ none
unfolding program
unclean_key = refl

-- A Save over an older object whose write to S3 fails, then a pass of the pruner: the older bytes
-- are read, and the newer ones are on no store.
stale_copy :
    (open_reader refusing whole_disk (bytes "a") 50 (
      pruned refusing whole_disk by_age always always 40
        (save refusing whole_disk (bytes "a") (bytes "222") 10 old_copy).0)).1
    ≡ some (bytes "111")
unfolding program
stale_copy = refl
