-- ===== src/EventBus/Filter.antt =====
-- What `matchesFilter` accepts, written without its loops and early returns.
use tr_engine.Common.{
  ℕ, ◌≡◌, refl, ◌↔◌, ◌⊎◌, inl, inr, true, false, List, [], ◌∷◌, ◌++◌, ◌==◌, Text, text_comparable,
  nat_comparable, arith, Option-cases, Lacks, cut, cut-append, cut-none, cut-some, cut-Lacks, ap,
}
use tr_engine.Common.Bytes.{text_same_iff}
use tr_engine.Common.Trim.{trim_space}
use tr_engine.EventBus.{
  Event, EventFilter, any_of, names_type, names_trimmed, passes_ids, passes_types, matches_filter,
}

abbrev pub In : ℕ → List ℕ → Type 0
In x [] = ⊥
In x (y ∷ ys) = (y ≡ x) ⊎ In x ys

-- An id dimension is open: nothing is asked, the event has no such id, or the id is listed.
abbrev pub Admits : List ℕ → ℕ → Type 0
Admits ids i = (ids ≡ []) ⊎ ((i ≡ 0) ⊎ In i ids)

-- The entry, without surrounding blanks, is the event's type, or `type:subtype`.
abbrev pub NamesTrimmed : Event → Text → Type 0
NamesTrimmed e t =
    (Lacks b':' t × (t ≡ e.event_type))
    ⊎ ((t ≡ e.event_type ++ b':' ∷ e.sub_type) × Lacks b':' e.event_type)

abbrev pub Names : Event → Text → Type 0
Names e t = NamesTrimmed e (trim_space t)

abbrev pub Some : {A : Type 0} → (A → Type 0) → List A → Type 0
Some P [] = ⊥
Some P (x ∷ xs) = P x ⊎ Some P xs

pub record Accepts (e : Event) (f : EventFilter) : Type 0 where
  pub emergency : (f.emergency_only ≡ false) ⊎ (e.emergency ≡ true)
  pub types : (f.types ≡ []) ⊎ Some (Names e) f.types
  pub systems : Admits f.systems e.system_id
  pub sites : Admits f.sites e.site_id
  pub tgids : Admits f.tgids e.tgid
  pub units : Admits f.units e.unit_id

any_of-In : (i : ℕ) (ids : List ℕ) → (any_of (λ y. y == i) ids ≡ true) ↔ In i ids
any_of-In i [] = ((λ h. cc), (λ h. absurd h))
any_of-In i (x ∷ xs) = ground (arith, any_of-In i xs)

passes_ids-Admits : (ids : List ℕ) (i : ℕ) → (passes_ids ids i ≡ true) ↔ Admits ids i
passes_ids-Admits [] i = (λ h. inl refl, λ h. refl)
passes_ids-Admits (x ∷ xs) i = ground (arith, any_of-In i (x ∷ xs))

names_trimmed-Names : (e : Event) (t : Text) → (names_trimmed e t ≡ true) ↔ NamesTrimmed e t
unfolding names_trimmed
names_trimmed-Names e t = elim (Option-cases (cut b':' t)) [
  | inl whole ↦
      rw (whole, names_trimmed)
        (ground (
          arith,
          whole,
          cut-none b':' t whole,
          text_same_iff t e.event_type,
          λ (h : Lacks b':' e.event_type). cut-append b':' e.event_type e.sub_type h,
          λ (h : t ≡ e.event_type ++ b':' ∷ e.sub_type). ap (cut b':') h,
        ))
  | inr ((base, sub), split) ↦
      rw (split, names_trimmed)
        (ground (
          arith,
          split,
          cut-some b':' t base sub split,
          text_same_iff base e.event_type,
          text_same_iff sub e.sub_type,
          λ (h : Lacks b':' t). cut-Lacks b':' t h,
          λ (h : Lacks b':' e.event_type). cut-append b':' e.event_type e.sub_type h,
          λ (h : t ≡ e.event_type ++ b':' ∷ e.sub_type). ap (cut b':') h,
        ))
]

names_type-Names : (e : Event) (t : Text) → (names_type e t ≡ true) ↔ Names e t
unfolding names_type
names_type-Names e t = names_trimmed-Names e (trim_space t)

any_of-Some : (e : Event) (ts : List Text) → (any_of (names_type e) ts ≡ true) ↔ Some (Names e) ts
any_of-Some e [] = ((λ h. cc), (λ h. absurd h))
any_of-Some e (t ∷ ts) = ground (arith, names_type-Names e t, any_of-Some e ts)

passes_types-Some :
    (ts : List Text) (e : Event) → (passes_types ts e ≡ true) ↔ ((ts ≡ []) ⊎ Some (Names e) ts)
passes_types-Some [] e = (λ h. inl refl, λ h. refl)
passes_types-Some (t ∷ ts) e = ground (arith, any_of-Some e (t ∷ ts))

matches-Accepts : (e : Event) (f : EventFilter) → matches_filter e f ≡ true → Accepts e f
unfolding matches_filter
matches-Accepts e f h = record {
  emergency = ground arith;
  types = (passes_types-Some f.types e).0 (ground arith);
  systems = (passes_ids-Admits f.systems e.system_id).0 (ground arith);
  sites = (passes_ids-Admits f.sites e.site_id).0 (ground arith);
  tgids = (passes_ids-Admits f.tgids e.tgid).0 (ground arith);
  units = (passes_ids-Admits f.units e.unit_id).0 (ground arith);
}

Accepts-matches : (e : Event) (f : EventFilter) → Accepts e f → matches_filter e f ≡ true
unfolding matches_filter
Accepts-matches e f a =
    rw
      (
        (passes_types-Some f.types e).1 a.types,
        (passes_ids-Admits f.systems e.system_id).1 a.systems,
        (passes_ids-Admits f.sites e.site_id).1 a.sites,
        (passes_ids-Admits f.tgids e.tgid).1 a.tgids,
        (passes_ids-Admits f.units e.unit_id).1 a.units,
      )
      (ground arith)

-- An event passes a filter exactly when every dimension of the filter admits it.
pub matches_filter_iff : (e : Event) (f : EventFilter) → (matches_filter e f ≡ true) ↔ Accepts e f
unfolding matches_filter
matches_filter_iff e f = (matches-Accepts e f, Accepts-matches e f)
