-- ===== src/Storage/Paths.antt =====
-- The paths of LocalStore.safePath: cleaned segments, and prefixes of rendered paths.
use tr_engine.Common.{
  ℕ, Bool, false, ◌||◌, List, [], ◌∷◌, ◌++◌, ◌≡◌, ◌≢◌, refl, sym, ◌∙◌, ap, Text, bytes, ◌==◌,
  text_comparable, nat_comparable, Lacks, arith, if_cases,
}
use tr_engine.Common.Slices.{cons_nil, head_or, tail_of}
use mathlib.Core.List.{append_assoc}
use tr_engine.Common.Split.{split, push_byte}
use tr_engine.Storage.Backed.{Each}
use tr_engine.Storage.Local.{
  parent_of, clean_onto, reversed_onto, clean_segments, slashed, abs_segments,
}

-- A name inside a directory: not empty, not `.` or `..`, without a slash.
abbrev pub Proper : Text → Type 0
Proper s = (s ≢ []) × (s ≢ bytes ".") × (s ≢ bytes "..") × Lacks 47 s

not_same : (s t : Text) → (s == t) ≡ false → s ≢ t
not_same s t h e = ground (arith, h, text_comparable.same_iff s t, e)

push_byte-Lacks :
    (c : ℕ) (segments : List Text)
    → c ≢ 47
    → Each (Lacks 47) segments
    → Each (Lacks 47) (push_byte c segments)
push_byte-Lacks c [] n h = ((n, tt), tt)
push_byte-Lacks c (s ∷ rest) n h = ((n, h.0), h.1)

split-Lacks-Each : (path : Text) → Each (Lacks 47) (split 47 path)
unfolding split
split-Lacks-Each [] = (tt, tt)
split-Lacks-Each (c ∷ t) =
    if_cases (Each (Lacks 47)) (c == 47) _ _ (λ h. (tt, split-Lacks-Each t))
      (λ h. push_byte-Lacks c (split 47 t) (ground (arith, h)) (split-Lacks-Each t))

parent_of-Proper : (behind : List Text) → Each Proper behind → Each Proper (parent_of behind)
parent_of-Proper [] h = tt
parent_of-Proper (s ∷ behind) h = h.1

clean_onto-Proper :
    (behind segments : List Text)
    → Each Proper behind
    → Each (Lacks 47) segments
    → Each Proper (clean_onto behind segments)
unfolding clean_onto
clean_onto-Proper behind [] h l = h
clean_onto-Proper behind (s ∷ rest) h l =
    if_cases (Each Proper) (s == [] || s == bytes ".") _ _
      (λ a. clean_onto-Proper behind rest h l.1)
      (λ a.
        if_cases (Each Proper) (s == bytes "..") _ _
          (λ b. clean_onto-Proper (parent_of behind) rest (parent_of-Proper behind h) l.1)
          (λ b.
            clean_onto-Proper (s ∷ behind) rest
              (
                (
                  not_same s [] (neither_left _ _ a),
                  not_same s (bytes ".") (neither_right _ _ a),
                  not_same s (bytes "..") b,
                  l.0,
                ),
                h,
              )
              l.1))
  where
    neither_left : (x y : Bool) → (x || y) ≡ false → x ≡ false
    neither_left x y e = ground (arith, e)

    neither_right : (x y : Bool) → (x || y) ≡ false → y ≡ false
    neither_right x y e = ground (arith, e)

reversed_onto-Proper :
    (done behind : List Text)
    → Each Proper done
    → Each Proper behind
    → Each Proper (reversed_onto done behind)
unfolding reversed_onto
reversed_onto-Proper done [] d h = d
reversed_onto-Proper done (s ∷ behind) d h = reversed_onto-Proper (s ∷ done) behind (h.0, d) h.1

pub abs_segments-Proper : (cwd path : Text) → Each Proper (abs_segments cwd path)
unfolding abs_segments clean_segments
abs_segments-Proper cwd path =
    reversed_onto-Proper [] _ tt (clean_onto-Proper [] (split 47 _) tt (split-Lacks-Each _))

-- Empty, or behind a slash.
abbrev pub AtSlash : Text → Type 0
AtSlash [] = Unit {0}
AtSlash (c ∷ t) = c ≡ 47

-- Two names that end at a slash, or with the text, are the same.
same_name :
    (x y u v : Text)
    → Lacks 47 x
    → Lacks 47 y
    → AtSlash u
    → AtSlash v
    → y ++ u ≡ x ++ v
    → (y ≡ x) × (u ≡ v)
unfolding head_or tail_of
same_name [] [] u v p q a b e = (refl, e)
same_name [] (d ∷ y) u [] p q a b e = absurd (cons_nil e)
same_name [] (d ∷ y) u (c ∷ v) p q a b e = absurd (q.0 (ap (head_or 0) e ∙ b))
same_name (c ∷ x) [] [] v p q a b e = absurd (cons_nil (sym e))
same_name (c ∷ x) [] (d ∷ u) v p q a b e = absurd (p.0 (sym (ap (head_or 0) e) ∙ a))
same_name (c ∷ x) (d ∷ y) u v p q a b e =
    let (same, rest) = same_name x y u v p.1 q.1 a b (ap tail_of e) in
    let first : d ≡ c = ap (head_or 0) e in (rw (first, same) refl, rest)

slashed-AtSlash : (segments : List Text) (v : Text) → AtSlash v → AtSlash (slashed segments ++ v)
unfolding slashed
slashed-AtSlash [] v a = a
slashed-AtSlash (s ∷ rest) v a = refl

-- What stands behind a rendered path, up to a slash, is a path behind its segments.
pub slashed-prefix :
    (b s : List Text) (v : Text)
    → Each Proper b
    → Each Proper s
    → AtSlash v
    → slashed s ≡ slashed b ++ v
    → (rest : List Text) × (s ≡ b ++ rest) × (slashed rest ≡ v)
unfolding slashed tail_of
slashed-prefix [] s v p q a e = (s, refl, e)
slashed-prefix (x ∷ b) [] v p q a e = absurd (cons_nil (sym e))
slashed-prefix (x ∷ b) (y ∷ s) v p q a e =
    let names : y ++ slashed s ≡ x ++ (slashed b ++ v) =
      ap tail_of e ∙ append_assoc x (slashed b) v in
    let (same, more) =
      same_name x y (slashed s) (slashed b ++ v) p.0.3 q.0.3 (slashed-at s) (slashed-AtSlash b v a)
        names in
    let (rest, inside, left) = slashed-prefix b s v p.1 q.1 a more in
    (rest, ap (◌∷◌ y) inside ∙ ap (λ z. z ∷ b ++ rest) same, left)
  where
    slashed-at : (segments : List Text) → AtSlash (slashed segments)
    slashed-at [] = tt
    slashed-at (z ∷ zs) = refl

pub slashed-append : (b rest : List Text) → slashed (b ++ rest) ≡ slashed b ++ slashed rest
unfolding slashed
slashed-append [] rest = refl
slashed-append (x ∷ b) rest =
    ap (◌∷◌ 47)
      (ap (◌++◌ x) (slashed-append b rest) ∙ sym (append_assoc x (slashed b) (slashed rest)))
