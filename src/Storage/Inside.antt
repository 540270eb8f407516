-- ===== src/Storage/Inside.antt =====
-- LocalStore.safePath accepts exactly the paths inside the directory.
use tr_engine.Common.{
  true, not, ◌&&◌, none, some, List, [], ◌∷◌, ◌++◌, ◌≡◌, ◌≢◌, ◌⊎◌, ◌↔◌, inl, inr, refl, sym, subst,
  ◌∙◌, ap, Text, ◌==◌, text_comparable, Bool-cases, if◌then◌else◌,
}
use tr_engine.Common.Slices.{has_prefix, has_prefix-append, prefix-has_prefix, cons_nil, tail_of}
use mathlib.Core.Option.{some-injective}
use mathlib.Core.List.{append_assoc, append-nil}
use tr_engine.Storage.Backed.{Each}
use tr_engine.Storage.Entries.{none-some}
use tr_engine.Storage.Local.{slashed, render, abs_segments, join_path, safe_path}
use tr_engine.Storage.Paths.{Proper, AtSlash, abs_segments-Proper, slashed-prefix, slashed-append}

render-Below :
    (base path : List Text) (v : Text)
    → base ≢ []
    → Each Proper base
    → Each Proper path
    → AtSlash v
    → render path ≡ render base ++ v
    → (rest : List Text) × (path ≡ base ++ rest)
unfolding slashed tail_of
render-Below [] path v n p q a e = absurd (n refl)
render-Below ([] ∷ b) [] v n p q a e = absurd (p.0.0 refl)
render-Below ((c ∷ x) ∷ b) [] v n p q a e = absurd (cons_nil (sym (ap tail_of e)))
render-Below (x ∷ b) (y ∷ s) v n p q a e =
    let (rest, inside, left) = slashed-prefix (x ∷ b) (y ∷ s) v p q a e in (rest, inside)

render-append : (base rest : List Text) → base ≢ [] → render (base ++ rest) ≡ slashed (base ++ rest)
render-append [] rest n = absurd (n refl)
render-append (x ∷ base) rest n = refl

Each-append_right : (base rest : List Text) → Each Proper (base ++ rest) → Each Proper rest
Each-append_right [] rest h = h
Each-append_right (x ∷ base) rest h = Each-append_right base rest h.1

-- The key leads to the directory itself or down from it by proper names, to this path.
abbrev pub LeadsInside : Text → Text → Text → Text → Type 0
LeadsInside cwd audio_dir key path =
    (rest : List Text) × (abs_segments cwd (join_path audio_dir key)
      ≡ abs_segments cwd audio_dir ++ rest)
    × (path ≡ slashed (abs_segments cwd audio_dir ++ rest))
    × Each Proper rest

safe_path-LeadsInside :
    (cwd audio_dir key path : Text)
    → abs_segments cwd audio_dir ≢ []
    → safe_path cwd audio_dir key ≡ some path
    → LeadsInside cwd audio_dir key path
unfolding safe_path
safe_path-LeadsInside cwd audio_dir key path n e =
    elim (Bool-cases (has_prefix (render whole) (render base ++ 47 ∷ []))) [
      | inl h ↦
          below _ refl
            (has_prefix-append (render whole) (render base ++ 47 ∷ []) h
              ∙ append_assoc (render base) (47 ∷ []) _)
            (some-injective _ _ (rw h at e))
      | inr h ↦ elim (Bool-cases (render whole == render base)) [
        | inl same ↦
            below [] tt
              ((text_comparable.same_iff (render whole) (render base)).0 same
                ∙ sym (append-nil (render base)))
              (some-injective _ _ (rw (h, same) at e))
        | inr other ↦ absurd (none-some (rw (h, other) refl) e)
      ]
    ]
  where
    whole : List Text
    whole = abs_segments cwd (join_path audio_dir key)

    base : List Text
    base = abs_segments cwd audio_dir

    below :
        (v : Text)
        → AtSlash v
        → render whole ≡ render base ++ v
        → render whole ≡ path
        → LeadsInside cwd audio_dir key path
    below v a split at_path =
        let proper = abs_segments-Proper cwd (join_path audio_dir key) in
        let (rest, inside) =
          render-Below base whole v n (abs_segments-Proper cwd audio_dir) proper a split in
        (
          rest,
          inside,
          sym at_path ∙ ap render inside ∙ render-append base rest n,
          Each-append_right base rest (subst (Each Proper) inside proper),
        )

abbrev Accepted : Text → Text → Type 0
Accepted abs base = (has_prefix abs (base ++ 47 ∷ []) ≡ true) ⊎ (abs ≡ base)

accepted :
    (abs base : Text)
    → Accepted abs base
    → (if not (has_prefix abs (base ++ 47 ∷ [])) && not (abs == base) then none else some abs)
      ≡ some abs
accepted abs base (inl h) = rw h refl
accepted abs base (inr e) = elim (Bool-cases (has_prefix abs (base ++ 47 ∷ []))) [
  | inl h ↦ rw h refl
  | inr h ↦ rw (h, (text_comparable.same_iff abs base).1 e) refl
]

append-Accepted :
    (base rest : List Text) → base ≢ [] → Accepted (render (base ++ rest)) (render base)
unfolding slashed
append-Accepted base [] n = inr (ap render (append-nil base))
append-Accepted [] (r ∷ rest) n = absurd (n refl)
append-Accepted (x ∷ base) (r ∷ rest) n = inl (
    prefix-has_prefix _ _ (r ++ slashed rest) (
      slashed-append (x ∷ base) (r ∷ rest)
      ∙ sym (append_assoc (slashed (x ∷ base)) (47 ∷ []) (r ++ slashed rest))))

-- No key whose path is the directory or below it is rejected.
safe_path_complete :
    (cwd audio_dir key : Text) (rest : List Text)
    → abs_segments cwd audio_dir ≢ []
    → abs_segments cwd (join_path audio_dir key) ≡ abs_segments cwd audio_dir ++ rest
    → safe_path cwd audio_dir key ≡ some (slashed (abs_segments cwd audio_dir ++ rest))
unfolding safe_path
safe_path_complete cwd audio_dir key rest n e =
    let base = abs_segments cwd audio_dir in
    rw e (
      accepted (render (base ++ rest)) (render base) (append-Accepted base rest n)
      ∙ ap some (render-append base rest n))

-- safePath accepts a key, with a path, exactly when the key leads inside a directory that is not the
-- root: to the directory itself or down from it by proper names.
pub safe_path_iff :
    (cwd audio_dir key path : Text)
    → abs_segments cwd audio_dir ≢ []
    → (safe_path cwd audio_dir key ≡ some path) ↔ LeadsInside cwd audio_dir key path
safe_path_iff cwd audio_dir key path n = (
  safe_path-LeadsInside cwd audio_dir key path n,
  λ inside. safe_path_complete cwd audio_dir key inside.0 n inside.1 ∙ ap some (sym inside.2),
)
