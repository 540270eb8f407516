-- ===== src/Common/Slices.antt =====
-- Slice expressions and `strings.HasPrefix` and `strings.Index` on lists of bytes.
use tr_engine.Common.Tests.{if◌then◌else◌, leb, if_cases}
use tr_engine.Common.Lists.{length, take, drop, length-take, drop-drop, take-append-length}
use tr_engine.Common.Bytes.{Text, ◌==◌, text_comparable}
use Prim.Native.Nat.{ℕ, zero, suc, ◌+◌, ◌-◌, ◌≤◌}
use mathlib.Core.Path.{◌≡◌, refl, sym, ap, ◌∙◌}
use mathlib.Core.Logic.{◌≢◌}
use mathlib.Core.Bool.{Bool, true, ◌&&◌}
use mathlib.Core.List.{List, [], ◌∷◌, ◌++◌}
use mathlib.Core.Option.{Option, none, some}
use native.Mathlib.Omega.{arith}

-- `s[from:to]`; out of range is a panic, `none`.
unfoldable pub slice : ℕ → ℕ → List ℕ → Option (List ℕ)
slice from to bytes =
    if leb from to && leb to (length bytes) then some (take (to - from) (drop from bytes)) else none

unfoldable pub has_prefix : Text → Text → Bool
has_prefix t prefix = take (length prefix) t == prefix

abbrev one_later : Option ℕ → Option ℕ
one_later none = none
one_later (some i) = some (suc i)

-- The first position of a text in another.
unfoldable pub index : Text → Text → Option ℕ
index [] sub = if has_prefix [] sub then some 0 else none
index (c ∷ t) sub =
    let later = index t sub in if has_prefix (c ∷ t) sub then some 0 else one_later later

unfoldable pub head_or : ℕ → Text → ℕ
head_or n [] = n
head_or n (c ∷ t) = c

unfoldable pub tail_of : Text → Text
tail_of [] = []
tail_of (c ∷ t) = t

pub cons_nil : {c : ℕ} {t : Text} → c ∷ t ≢ []
cons_nil e = ground (arith, e)

take-drop : (t p : Text) → take (length p) t ≡ p → t ≡ p ++ drop (length p) t
unfolding head_or tail_of
take-drop t [] e = refl
take-drop [] (c ∷ p) e = absurd (cons_nil (sym e))
take-drop (d ∷ t) (c ∷ p) e =
    let first : d ≡ c = ap (head_or 0) e in
    ap (◌∷◌ d) (take-drop t p (ap tail_of e)) ∙ ap (λ x. x ∷ p ++ drop (length p) t) first

pub has_prefix-append : (t p : Text) → has_prefix t p ≡ true → t ≡ p ++ drop (length p) t
unfolding has_prefix
has_prefix-append t p h = take-drop t p ((text_comparable.same_iff (take (length p) t) p).0 h)

pub prefix-has_prefix : (t p w : Text) → t ≡ p ++ w → has_prefix t p ≡ true
unfolding has_prefix
prefix-has_prefix t p w e =
    (text_comparable.same_iff (take (length p) t) p).1
      (ap (take (length p)) e ∙ take-append-length p w)

has_prefix-length : (t p : Text) → has_prefix t p ≡ true → length p ≤ length t
unfolding has_prefix
has_prefix-length t p h =
    let same = ap length ((text_comparable.same_iff (take (length p) t) p).0 h) in
    omega (arith, same, length-take (length p) t)

-- What is found lies within the text.
abbrev Within : Option ℕ → ℕ → ℕ → Type 0
Within none n size = Unit {0}
Within (some i) n size = i + n ≤ size

later-Within : (o : Option ℕ) (n size : ℕ) → Within o n size → Within (one_later o) n (suc size)
later-Within none n size w = tt
later-Within (some i) n size w = omega arith

index-Within : (t sub : Text) → Within (index t sub) (length sub) (length t)
unfolding index
index-Within [] sub =
    if_cases (λ o. Within o (length sub) 0) (has_prefix [] sub) _ _
      (λ h. omega (arith, has_prefix-length [] sub h)) (λ h. tt)
index-Within (c ∷ t) sub =
    if_cases (λ o. Within o (length sub) (suc (length t))) (has_prefix (c ∷ t) sub) _ _
      (λ h. omega (arith, has_prefix-length (c ∷ t) sub h))
      (λ h. later-Within (index t sub) (length sub) (length t) (index-Within t sub))

pub index-some : (t sub : Text) (i : ℕ) → index t sub ≡ some i → i + length sub ≤ length t
index-some t sub i e = let w = index-Within t sub in rw e at w

pub slice-some :
    (from to : ℕ) (bytes : List ℕ)
    → from ≤ to
    → to ≤ length bytes
    → slice from to bytes ≡ some (take (to - from) (drop from bytes))
unfolding slice
slice-some from to bytes h k = ground arith

take-append_drop : (n : ℕ) (t : Text) → take n t ++ drop n t ≡ t
take-append_drop zero t = refl
take-append_drop (suc n) [] = refl
take-append_drop (suc n) (c ∷ t) = ap (◌∷◌ c) (take-append_drop n t)

-- A slice and what stands behind it.
pub take-drop-append :
    (from to : ℕ) (t : Text) → from ≤ to → take (to - from) (drop from t) ++ drop to t ≡ drop from t
take-drop-append from to t h =
    let rest : drop (to - from) (drop from t) ≡ drop to t =
      drop-drop (to - from) from t ∙ ap (λ n. drop n t) (omega arith) in
    ap (λ r. take (to - from) (drop from t) ++ r) (sym rest)
    ∙ take-append_drop (to - from) (drop from t)
