-- ===== src/Common/Split.antt =====
-- `strings.Cut` and `strings.Split` at a single byte, and `switch` over texts.
use tr_engine.Common.Tests.{if◌then◌else◌, Bool-cases, Option-cases}
use tr_engine.Common.Bytes.{Text, nat_same, ◌==◌, nat_comparable, text_comparable}
use mathlib.Core.Bool.{Bool, false, ◌||◌}
use Prim.Native.Nat.{ℕ}
use mathlib.Core.Path.{◌≡◌, refl}
use mathlib.Core.Logic.{◌≢◌, inl, inr}
use mathlib.Core.List.{List, [], ◌∷◌, ◌++◌}
use mathlib.Core.Option.{Option, none, some}
use native.Mathlib.Omega.{arith}

-- The text before the first occurrence, and the text after it.
abbrev before_more : ℕ → Option (Text × Text) → Option (Text × Text)
before_more c none = none
before_more c (some (a, b)) = some (c ∷ a, b)

unfoldable pub cut : ℕ → Text → Option (Text × Text)
cut sep [] = none
cut sep (c ∷ s) = if nat_same c sep then some ([], s) else before_more c (cut sep s)

-- A byte at the front of the first segment.
abbrev pub push_byte : ℕ → List Text → List Text
push_byte c [] = (c ∷ []) ∷ []
push_byte c (s ∷ rest) = (c ∷ s) ∷ rest

unfoldable pub split : ℕ → Text → List Text
split sep [] = [] ∷ []
split sep (c ∷ t) = let rest = split sep t in if c == sep then [] ∷ rest else push_byte c rest

unfoldable pub is_one_of : List Text → Text → Bool
is_one_of [] t = false
is_one_of (name ∷ names) t = t == name || is_one_of names t

-- The byte does not occur.
abbrev pub Lacks : ℕ → Text → Type 0
Lacks sep [] = Unit {0}
Lacks sep (c ∷ s) = (c ≢ sep) × Lacks sep s

pub Lacks-append : (sep : ℕ) (s t : Text) → Lacks sep s → Lacks sep t → Lacks sep (s ++ t)
Lacks-append sep [] t p q = q
Lacks-append sep (c ∷ s) t p q = (p.0, Lacks-append sep s t p.1 q)

pub cut-append : (sep : ℕ) (a b : Text) → Lacks sep a → cut sep (a ++ sep ∷ b) ≡ some (a, b)
unfolding cut
cut-append sep [] b h = ground arith
cut-append sep (c ∷ a) b h = ground (arith, cut-append sep a b h.1)

pub cut-none : (sep : ℕ) (s : Text) → cut sep s ≡ none → Lacks sep s
unfolding cut
cut-none sep [] h = tt
cut-none sep (c ∷ s) h = elim (Bool-cases (nat_same c sep)) [
  | inl e ↦ absurd (ground arith)
  | inr e ↦ (ground arith, cut-none sep s (ground arith))
]

pub cut-some : (sep : ℕ) (s a b : Text) → cut sep s ≡ some (a, b) → (s ≡ a ++ sep ∷ b) × Lacks sep a
unfolding cut
cut-some sep [] a b h = absurd (cc)
cut-some sep (c ∷ s) a b h = elim (Bool-cases (nat_same c sep)) [
  | inl e ↦ ground arith
  | inr e ↦ elim (Option-cases (cut sep s)) [
    | inl n ↦ absurd (ground arith)
    | inr ((a', b'), m) ↦ ground (arith, cut-some sep s a' b' m)
  ]
]

pub cut-Lacks : (sep : ℕ) (s : Text) → Lacks sep s → cut sep s ≡ none
unfolding cut
cut-Lacks sep [] h = refl
cut-Lacks sep (c ∷ s) h = ground (arith, cut-Lacks sep s h.1)
