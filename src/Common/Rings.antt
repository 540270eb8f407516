-- ===== src/Common/Rings.antt =====
-- A ring buffer: a list, and the position of its oldest slot.
use tr_engine.Common.Lists.{
  length, set, take, drop, length-append, drop-append-length, take-append-length, set-append-length,
  split_at,
}
use Prim.Native.Nat.{ℕ, suc, ◌+◌, ◌%◌, ◌<◌}
use mathlib.Core.Path.{◌≡◌, refl, sym, ap, ◌∙◌}
use mathlib.Core.Logic.{◌⊎◌, inl, inr}
use mathlib.Core.List.{List, [], ◌∷◌, ◌++◌, append_assoc, append-nil}
use native.Mathlib.Nat.{mod-eq_of_lt, mod-eq-sub-mod}
use native.Mathlib.Omega.{arith}

pub wrap_index : (s p n : ℕ) → p < s → (n ≡ p) ⊎ (n ≡ s + p) → n % s ≡ p
wrap_index s p n h (inl e) = rw e (mod-eq_of_lt h)
wrap_index s p n h (inr e) = grind (arith, mod-eq_of_lt h, mod-eq-sub-mod)

pub drop_of_length : {A : Type 0} (n : ℕ) (a b : List A) → length a ≡ n → drop n (a ++ b) ≡ b
drop_of_length n a b e = rw (← e) (drop-append-length a b)

pub take_of_length : {A : Type 0} (n : ℕ) (a b : List A) → length a ≡ n → take n (a ++ b) ≡ a
take_of_length n a b e = rw (← e) (take-append-length a b)

pub order_after :
    {A : Type 0} (a : List A) (n : A) (b : List A) (size : ℕ)
    → size ≡ suc (length b) + length a
    → drop ((length a + 1) % size) (a ++ n ∷ b) ++ take ((length a + 1) % size) (a ++ n ∷ b)
      ≡ b ++ (a ++ n ∷ [])
order_after a n [] size e =
    rw (wrap_index size 0 (length a + 1) (omega arith) (inr (omega arith))) (append-nil _)
order_after a n (y ∷ b) size e =
    let front : length (a ++ n ∷ []) ≡ length a + 1 = length-append a (n ∷ []) in
    rw (
      wrap_index size (length a + 1) (length a + 1) (omega arith) (inl refl),
      sym (append_assoc a (n ∷ []) (y ∷ b)),
      drop_of_length (length a + 1) (a ++ n ∷ []) (y ∷ b) front,
      take_of_length (length a + 1) (a ++ n ∷ []) (y ∷ b) front,
    )

-- The slots from the oldest one on.
abbrev pub order_of {ℓ} : {A : Type ℓ} → List A → ℕ → List A
order_of ring head = drop head ring ++ take head ring

-- A write over the oldest slot drops it and appends the new value.
pub push-order_of :
    {A : Type 0} (ring : List A) (head : ℕ) (n : A)
    → head < length ring
    → order_of (set ring head n) ((head + 1) % length ring) ≡ drop 1 (order_of ring head) ++ n ∷ []
push-order_of ring head n h =
    let (a, x, b, e, l) = split_at ring head h in
    let size : length ring ≡ suc (length b) + length a =
      omega (arith, ap length e, length-append a (x ∷ b)) in
    let before : order_of ring head ≡ (x ∷ b) ++ a =
      rw e (rw (drop_of_length head a (x ∷ b) l, take_of_length head a (x ∷ b) l) refl) in
    rw (before, append_assoc b a (n ∷ []))
      (rw (e, sym l)
        (rw (set-append-length a x n b) (order_after a n b _ (sym (ap length e) ∙ size))))
