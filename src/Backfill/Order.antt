-- ===== src/Backfill/Order.antt =====
-- The order in which calls are handed out is strict, and every call has only finitely many steps
-- after it.
use tr_engine.Common.{
  ℕ, zero, suc, ◌≤◌, ◌<◌, true, false, Option, none, some, ◌≡◌, ◌⊎◌, inl, inr, ◌==◌, nat_comparable,
  arith, Bool-cases,
}
use mathlib.Core.WellFounded.{Acc}
use tr_engine.Backfill.{CallKey, before}

-- `k` stands behind `c`.
abbrev pub Later : CallKey → CallKey → Type 0
Later k c = before c k ≡ true

pub Later-trans : (a b c : CallKey) → Later b a → Later c b → Later c a
unfolding before
Later-trans a b c p q = ground arith

pub before_irreflexive : (c : CallKey) → before c c ≡ false
unfolding before
before_irreflexive c = ground arith

before_cases :
    (c k : CallKey)
    → Later k c
    → (k.start_time < c.start_time) ⊎ ((k.start_time ≡ c.start_time) × (k.call_id < c.call_id))
unfolding before
before_cases c k h = elim (Bool-cases (k.start_time == c.start_time)) [
  | inl e ↦ inr (ground (arith, e, h), ground (arith, e, h))
  | inr e ↦ inl (ground (arith, e, h))
]

-- Every call of an earlier time is accessible; so is one of this time, by its id.
same_time :
    (t : ℕ)
    → ((c : CallKey) → c.start_time < t → Acc Later c)
    → (bound : ℕ) (c : CallKey) → c.start_time ≤ t
    → c.call_id < bound
    → Acc Later c
same_time t earlier zero c h i = absurd (omega arith)
same_time t earlier (suc bound) c h i = Acc.intro c λ k later. elim (before_cases c k later) [
  | inl sooner ↦ earlier k (omega arith)
  | inr (same, less) ↦ same_time t earlier bound k (omega arith) (omega arith)
]

within_time : (t : ℕ) (c : CallKey) → c.start_time < t → Acc Later c
within_time zero c h = absurd (omega arith)
within_time (suc t) c h =
    same_time t (λ k e. within_time t k e) (suc c.call_id) c (omega arith) (omega arith)

pub Later-wf : (c : CallKey) → Acc Later c
Later-wf c = within_time (suc c.start_time) c (omega arith)

-- The cursor moved forward.
abbrev pub Beyond : Option CallKey → Option CallKey → Type 0
Beyond start none = ⊥
Beyond none (some k) = Unit {0}
Beyond (some c) (some k) = Later k c

pub Beyond-trans : (a b c : Option CallKey) → Beyond a b → Beyond b c → Beyond a c
Beyond-trans a b none p q = q
Beyond-trans none b (some k) p q = tt
Beyond-trans (some x) none (some k) p q = absurd p
Beyond-trans (some x) (some y) (some k) p q = Later-trans x y k p q
