-- ===== src/EventBus/Ids.antt =====
-- Event ids: the sequence number can be read back from an id, so a run never repeats one.
use tr_engine.Common.{
  ℕ, suc, ◌+◌, ◌<◌, ◌≤◌, ◌≡◌, sym, ap, ◌∙◌, ◌≢◌, List, [], ◌∷◌, ◌++◌, some, Text, arith, length,
  cut, cut-append, Lacks,
}
use tr_engine.Common.Decimal.{
  decimal, number_from, number_from-decimal, decimal-AllDigits, AllDigits,
}
use tr_engine.EventBus.{Event, format_id}

AllDigits-Lacks : (s : Text) → AllDigits s → Lacks b'-' s
AllDigits-Lacks [] d = tt
AllDigits-Lacks (c ∷ s) d = ((λ e. absurd (omega arith)), AllDigits-Lacks s d.2)

cut-format_id : (m q : ℕ) → cut b'-' (format_id m q) ≡ some (decimal m, decimal q)
unfolding format_id
cut-format_id m q =
    cut-append b'-' (decimal m) (decimal q) (AllDigits-Lacks (decimal m) (decimal-AllDigits m))

pub format_id_seq : (m q m' q' : ℕ) → format_id m q ≡ format_id m' q' → q ≡ q'
format_id_seq m q m' q' h =
    sym (number_from-decimal q) ∙ ap (number_from 0) same ∙ number_from-decimal q'
  where
    same : decimal q ≡ decimal q'
    same = cc (cut-format_id m q, cut-format_id m' q', ap (cut b'-') h)

pub format_id-ne-nil : (m q : ℕ) → format_id m q ≢ []
unfolding cut
format_id-ne-nil m q h = cc (cut-format_id m q, ap (cut b'-') h)

-- The ids carry the sequence numbers after `s`, without a gap.
abbrev pub IdsFrom : ℕ → List Event → Type 0
IdsFrom s [] = Unit {0}
IdsFrom s (e ∷ es) = ((m : ℕ) × (e.id ≡ format_id m (s + 1))) × IdsFrom (s + 1) es

-- No event has the id.
abbrev pub Unseen : Text → List Event → Type 0
Unseen last [] = Unit {0}
Unseen last (e ∷ es) = (e.id ≢ last) × Unseen last es

pub Unseen-append :
    (t : Text) (xs ys : List Event) → Unseen t xs → Unseen t ys → Unseen t (xs ++ ys)
Unseen-append t [] ys p q = q
Unseen-append t (x ∷ xs) ys p q = (p.0, Unseen-append t xs ys p.1 q)

pub Unseen-before :
    (m q s : ℕ) (es : List Event) → IdsFrom s es → s + length es < q → Unseen (format_id m q) es
Unseen-before m q s [] d h = tt
Unseen-before m q s (e ∷ es) d h = (
  (λ same. absurd (omega (arith, format_id_seq d.0.0 (s + 1) m q (sym d.0.1 ∙ same)))),
  Unseen-before m q (s + 1) es d.1 (omega arith),
)

pub Unseen-behind : (m q s : ℕ) (es : List Event) → IdsFrom s es → q ≤ s → Unseen (format_id m q) es
Unseen-behind m q s [] d h = tt
Unseen-behind m q s (e ∷ es) d h = (
  (λ same. absurd (omega (arith, format_id_seq d.0.0 (s + 1) m q (sym d.0.1 ∙ same)))),
  Unseen-behind m q (s + 1) es d.1 (omega arith),
)

-- The ids of a run that is cut in two.
pub IdsFrom-append :
    (s : ℕ) (pre es : List Event)
    → IdsFrom s (pre ++ es)
    → IdsFrom s pre × IdsFrom (s + length pre) es
IdsFrom-append s [] es d = let same : s + 0 ≡ s = omega arith in (tt, rw same d)
IdsFrom-append s (p ∷ pre) es d =
    let (front, back) = IdsFrom-append (s + 1) pre es d.1 in
    let shift : s + suc (length pre) ≡ s + 1 + length pre = omega arith in
    ((d.0, front), rw shift back)
