-- ===== src/Storage/Local.antt =====
-- LocalStore.safePath on a Unix system: a path is a text, its segments are what stands between
-- slashes (47). `filepath.Clean` of a rooted path drops empty segments and `.`, and `..` takes the
-- segment before it, if there is one; `filepath.Abs` puts a relative path below the working
-- directory `cwd`.
use tr_engine.Common.{
  Bool, false, not, ◌&&◌, ◌||◌, Option, none, some, List, [], ◌∷◌, ◌++◌, if◌then◌else◌, Text, bytes,
  ◌==◌, text_comparable, nat_comparable, ◌+◌, length, drop,
}
use tr_engine.Common.Slices.{has_prefix}
use tr_engine.Common.Split.{split}

-- The segments behind, the last one first.
abbrev pub parent_of : List Text → List Text
parent_of [] = []
parent_of (s ∷ behind) = behind

unfoldable pub clean_onto : List Text → List Text → List Text
clean_onto behind [] = behind
clean_onto behind (s ∷ rest) =
    if s == [] || s == bytes "."
    then clean_onto behind rest
    else (if s == bytes ".."
        then clean_onto (parent_of behind) rest
        else clean_onto (s ∷ behind) rest)

unfoldable pub reversed_onto : List Text → List Text → List Text
reversed_onto done [] = done
reversed_onto done (s ∷ behind) = reversed_onto (s ∷ done) behind

-- The segments of the cleaned path.
unfoldable pub clean_segments : Text → List Text
clean_segments path = reversed_onto [] (clean_onto [] (split 47 path))

-- Each segment after a slash.
unfoldable pub slashed : List Text → Text
slashed [] = []
slashed (s ∷ rest) = 47 ∷ s ++ slashed rest

abbrev pub render : List Text → Text
render [] = 47 ∷ []
render (s ∷ rest) = slashed (s ∷ rest)

abbrev pub is_rooted : Text → Bool
is_rooted [] = false
is_rooted (c ∷ t) = c == 47

unfoldable pub join_path : Text → Text → Text
join_path [] key = key
join_path (c ∷ dir) [] = c ∷ dir
join_path (c ∷ dir) (d ∷ key) = (c ∷ dir) ++ 47 ∷ d ∷ key

-- The segments of the absolute path.
unfoldable pub abs_segments : Text → Text → List Text
abs_segments cwd path = clean_segments (if is_rooted path then path else cwd ++ 47 ∷ path)

unfoldable pub safe_path : Text → Text → Text → Option Text
safe_path cwd audio_dir key =
    let abs = render (abs_segments cwd (join_path audio_dir key)) in
    let base = render (abs_segments cwd audio_dir) in
    if not (has_prefix abs (base ++ 47 ∷ [])) && not (abs == base) then none else some abs

abbrev below : Text → Option Text → Option Text
below base none = none
below base (some path) = some (drop (length base + 1) path)

-- The file of a key, as its path below the directory, which is the name that the pruner gives it;
-- `none` where the key is rejected. The directory itself has the empty name.
unfoldable pub disk_key : Text → Text → Text → Option Text
unfolding safe_path
disk_key cwd audio_dir key =
    below (render (abs_segments cwd audio_dir)) (safe_path cwd audio_dir key)
