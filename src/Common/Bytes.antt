-- ===== src/Common/Bytes.antt =====
-- Equality as an interface, and texts as lists of bytes (Go strings are byte sequences).
use Prim.Native.Char.{code}
use Prim.Native.String.{String}
use Prim.Native.Nat.{ℕ, compare, Ordering}
use mathlib.Core.Path.{◌≡◌, refl}
use mathlib.Core.Bool.{Bool, true, false, ◌&&◌}
use mathlib.Core.Logic.{◌↔◌}
use mathlib.Core.List.{List, [], ◌∷◌}
use native.Mathlib.Omega.{arith}

pub record Comparable {ℓ} (K : Type ℓ) : Type ℓ where
  pub same : K → K → Bool
  pub same_iff : (x y : K) → (same x y ≡ true) ↔ (x ≡ y)

module _ {ℓ} {K : Type ℓ} ⦃key : Comparable K⦄ where
  infix 50 ◌==◌
  abbrev pub ◌==◌ : K → K → Bool
  ◌==◌ x y = key.same x y

  pub same_refl : (x : K) → (x == x) ≡ true
  same_refl x = (key.same_iff x x).1 refl

abbrev pub nat_same : ℕ → ℕ → Bool
nat_same a b = elim (compare a b) [ Ordering.eq ↦ true | _ ↦ false ]

pub nat_same_iff : (a b : ℕ) → (nat_same a b ≡ true) ↔ (a ≡ b)
nat_same_iff a b = ground arith

instance abbrev pub nat_comparable : Comparable ℕ
nat_comparable = record { same = nat_same; same_iff = nat_same_iff }

abbrev pub pair_same {ℓ κ} :
    {A : Type ℓ} {B : Type κ} ⦃e : Comparable A⦄ ⦃f : Comparable B⦄ → A × B → A × B → Bool
pair_same (a, b) (c, d) = (a == c) && (b == d)

pub pair_same_iff {ℓ κ} :
    {A : Type ℓ} {B : Type κ} ⦃e : Comparable A⦄ ⦃f : Comparable B⦄ (p q : A × B)
    → (pair_same p q ≡ true) ↔ (p ≡ q)
pair_same_iff ⦃e⦄ ⦃f⦄ (a, b) (c, d) = ground (arith, e.same_iff a c, f.same_iff b d)

instance abbrev pub pair_comparable {ℓ κ} :
    {A : Type ℓ} {B : Type κ} ⦃e : Comparable A⦄ ⦃f : Comparable B⦄ → Comparable (A × B)
pair_comparable = record { same = pair_same; same_iff = pair_same_iff }

abbrev pub Text : Type 0
Text = List ℕ

abbrev pub text_same : Text → Text → Bool
text_same [] [] = true
text_same [] (d ∷ t) = false
text_same (c ∷ s) [] = false
text_same (c ∷ s) (d ∷ t) = nat_same c d && text_same s t

pub text_same_iff : (s t : Text) → (text_same s t ≡ true) ↔ (s ≡ t)
text_same_iff [] [] = ground arith
text_same_iff [] (d ∷ t) = ground arith
text_same_iff (c ∷ s) [] = ground arith
text_same_iff (c ∷ s) (d ∷ t) = ground (arith, text_same_iff s t)

instance abbrev pub text_comparable : Comparable Text
text_comparable = record { same = text_same; same_iff = text_same_iff }

-- The bytes of an ASCII literal.
abbrev pub bytes : String → Text
bytes (String.◌∷◌ letter rest) = code letter ∷ bytes rest
bytes String.[] = []
