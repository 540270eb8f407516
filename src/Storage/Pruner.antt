-- ===== src/Storage/Pruner.antt =====
-- CachePruner.prune. What the pass learns from outside is a parameter: whether `d.Info` of a walked
-- file answers, whether S3 has a key, whether `os.Remove` of a file succeeds. A size is the length
-- of the file, the total the sum of sizes (an int64 in Go).
use tr_engine.Common.{
  ℕ, ◌+◌, ◌-◌, Bool, true, ◌&&◌, ◌||◌, Option, none, some, List, [], ◌∷◌, if◌then◌else◌, ltb, Text,
  text_comparable, length,
}
use tr_engine.Common.Map.{Map, delete}

pub record File : Type 0 where
  pub content : Text
  pub mod_time : ℕ

abbrev pub Disk : Type 0
Disk = Map Text File

pub record FileEntry : Type 0 where
  pub key : Text
  pub mod_time : ℕ
  pub size : ℕ

-- `s3` is nil, or answers Exists.
pub record CachePruner : Type 0 where
  pub retention : ℕ
  pub max_bytes : ℕ
  pub s3 : Option (Text → Bool)

-- The state of the loop over the files.
pub record Sweep : Type 0 where
  pub disk : Disk
  pub total_size : ℕ
  pub pruned_count : ℕ
  pub pruned_bytes : ℕ
  pub skipped_not_in_s3 : ℕ

abbrev pub entry_of : Text → File → FileEntry
entry_of key f = record { key = key; mod_time = f.mod_time; size = length f.content }

-- The walk over the directory; a file whose `d.Info` fails is passed over.
unfoldable pub walk_dir : (Text → Bool) → Disk → List FileEntry
walk_dir has_info [] = []
walk_dir has_info ((key, f) ∷ disk) =
    let rest = walk_dir has_info disk in if has_info key then entry_of key f ∷ rest else rest

unfoldable pub total_of : List FileEntry → ℕ
total_of [] = 0
total_of (e ∷ es) = e.size + total_of es

-- sort.Slice by the time of modification. It may put equal times in any order; here the order of the
-- walk is kept.
unfoldable pub insert_entry : FileEntry → List FileEntry → List FileEntry
insert_entry e [] = e ∷ []
insert_entry e (f ∷ fs) =
    let rest = insert_entry e fs in if ltb f.mod_time e.mod_time then f ∷ rest else e ∷ f ∷ fs

unfoldable pub sort_entries : List FileEntry → List FileEntry
sort_entries [] = []
sort_entries (e ∷ es) = insert_entry e (sort_entries es)

abbrev pub in_s3 : Option (Text → Bool) → Text → Bool
in_s3 none key = true
in_s3 (some exists) key = exists key

unfoldable pub remove : (Text → Bool) → FileEntry → Sweep → Sweep
remove removes e s =
    if removes e.key
    then record {
      disk = delete e.key s.disk;
      total_size = s.total_size - e.size;
      pruned_count = s.pruned_count + 1;
      pruned_bytes = s.pruned_bytes + e.size;
      skipped_not_in_s3 = s.skipped_not_in_s3;
    }
    else s

abbrev pub skip : Sweep → Sweep
skip s = record s { skipped_not_in_s3 = s.skipped_not_in_s3 + 1 }

module _ (p : CachePruner) (cutoff : ℕ) where
  unfoldable pub should_prune : FileEntry → ℕ → Bool
  should_prune e total =
      (ltb 0 p.retention && ltb e.mod_time cutoff) || (ltb 0 p.max_bytes && ltb p.max_bytes total)

  module _ (removes : Text → Bool) where
    unfoldable pub sweep_file : FileEntry → Sweep → Sweep
    sweep_file e s =
        if should_prune e s.total_size
        then (if in_s3 p.s3 e.key then remove removes e s else skip s)
        else s

    unfoldable pub sweep_files : List FileEntry → Sweep → Sweep
    sweep_files [] s = s
    sweep_files (e ∷ es) s = sweep_files es (sweep_file e s)

abbrev pub sweep_start : Disk → ℕ → Sweep
sweep_start disk total = record {
  disk = disk;
  total_size = total;
  pruned_count = 0;
  pruned_bytes = 0;
  skipped_not_in_s3 = 0;
}

-- The whole pass; none where neither limit is set.
unfoldable pub prune : CachePruner → (Text → Bool) → (Text → Bool) → ℕ → Disk → Disk
prune p has_info removes now disk =
    let files = walk_dir has_info disk in
    let swept =
      sweep_files p (now - p.retention) removes (sort_entries files)
        (sweep_start disk (total_of files)) in
    if ltb 0 p.retention || ltb 0 p.max_bytes then swept.disk else disk
