-- ===== src/EventBus/Offer.antt =====
-- What one `Publish` does to the subscribers' channels.
use mathlib.Core.List.{Sublist, append_assoc, append-nil, sublist-append_left}
use mathlib.Core.List.Sublist
use tr_engine.Common.{
  ℕ, ◌+◌, ◌%◌, ◌^◌, ◌≤◌, ◌<◌, ◌≡◌, refl, sym, ap, ◌∙◌, ◌≢◌, false, List, [], ◌∷◌, ◌++◌, Option,
  none, some, Text, arith, length, keep, length-append, if◌then◌else◌, ltb, ◌&&◌, inl, inr,
  Bool-cases, ltb→lt, Option-cases, nat_comparable, ◌==◌,
}
use tr_engine.Common.Map.{lookup, lookup-map_values, map_option}
use tr_engine.EventBus.Trace.{Lossless}
use tr_engine.EventBus.{
  Event, EventFilter, EventData, Clock, EventBus, Subscriber, channel_cap, matches_filter,
  build_event, push_ring, offer, distribute, publish,
}

pub push_ring-subscribers :
    (eb eb' : EventBus) (e : Event)
    → push_ring eb e ≡ some eb'
    → (eb'.subscribers ≡ eb.subscribers) × (eb'.next_id ≡ eb.next_id)
unfolding push_ring
push_ring-subscribers eb eb' e h = ground arith

pub distribute-lookup :
    (e : Event) (eb : EventBus) (k : ℕ)
    → lookup k (distribute e eb).subscribers ≡ map_option (offer e k) (lookup k eb.subscribers)
unfolding distribute
distribute-lookup e eb k = lookup-map_values (offer e) k eb.subscribers

pub distribute-next_id : (e : Event) (eb : EventBus) → (distribute e eb).next_id ≡ eb.next_id
unfolding distribute
distribute-next_id e eb = refl

pub publish-none_cases :
    (now : Clock) (d : EventData) (eb eb' : EventBus)
    → d.payload ≡ none
    → publish now d eb ≡ some eb'
    → eb' ≡ eb
unfolding publish
publish-none_cases now d eb eb' p h = ground arith

pub publish-some_cases :
    (now : Clock) (d : EventData) (eb eb' : EventBus) (bytes : Text)
    → d.payload ≡ some bytes
    → publish now d eb ≡ some eb'
    → (mid : EventBus) × (push_ring
          (record eb { seq = (eb.seq + 1) % 2 ^ 64 })
          (build_event now ((eb.seq + 1) % 2 ^ 64) d bytes)
        ≡ some mid)
      × (eb' ≡ distribute (build_event now ((eb.seq + 1) % 2 ^ 64) d bytes) mid)
unfolding publish
publish-some_cases now d eb eb' bytes p h =
    elim (Option-cases (
      push_ring (record eb { seq = (eb.seq + 1) % 2 ^ 64 })
        (build_event now ((eb.seq + 1) % 2 ^ 64) d bytes))) [
          | inl bad ↦ absurd (ground arith)
          | inr (mid, good) ↦ (mid, good, ground arith)
        ]

module _ (e : Event) (taken q offered : List Event) where
  room_case :
      length q < channel_cap
      → Sublist (taken ++ q) offered
      → Lossless taken q offered
      → (length (q ++ e ∷ []) ≤ channel_cap)
        × Sublist (taken ++ (q ++ e ∷ [])) (offered ++ e ∷ [])
        × Lossless taken (q ++ e ∷ []) (offered ++ e ∷ [])
  room_case b s l =
      let grouped : taken ++ (q ++ e ∷ []) ≡ (taken ++ q) ++ e ∷ [] =
        sym (append_assoc taken q (e ∷ [])) in
      (
        omega (arith, length-append q (e ∷ [])),
        rw grouped (Sublist.append s (Sublist.refl (e ∷ []))),
        (elim l [
          | inl all ↦ inl (grouped ∙ ap (λ xs. xs ++ e ∷ []) all)
          | inr many ↦ inr (omega (arith, many, length-append offered (e ∷ [])))
        ]),
      )

  full_case :
      length q ≤ channel_cap
      → channel_cap ≤ length q
      → Sublist (taken ++ q) offered
      → Lossless taken q offered
      → (length q ≤ channel_cap)
        × Sublist (taken ++ q) (offered ++ e ∷ [])
        × Lossless taken q (offered ++ e ∷ [])
  full_case b c s l = (
    b,
    Sublist.trans s (sublist-append_left offered (e ∷ [])),
    (elim l [
      | inl all ↦
          inr
            (omega (arith, ap length all, length-append taken q, length-append offered (e ∷ []), c))
      | inr many ↦ inr (omega (arith, many, length-append offered (e ∷ [])))
    ]),
  )

pub differs : (j k : ℕ) → j ≢ k → (j == k) ≡ false
differs j k h = ground arith

pub requeue :
    (s s' : Subscriber) (q : List Event)
    → s ≡ s'
    → ◌≡◌ {A = Option Subscriber} (some (record s { queue = q })) (some (record s' { queue = q }))
requeue s s' q h = ground arith

module _ (k : ℕ) (f : EventFilter) where
  -- The record of a subscriber with this filter.
  abbrev pub sub_of : List Event → Subscriber
  sub_of q = record { queue = q; filter = f }

  pub offer_queue : Event → List Event → List Event
  offer_queue e q = if matches_filter e f && ltb (length q) channel_cap then q ++ e ∷ [] else q

  pub offer-sub_of : (e : Event) (q : List Event) → offer e k (sub_of q) ≡ sub_of (offer_queue e q)
  unfolding offer offer_queue
  offer-sub_of e q = ground arith

  -- One event offered: the queue's side of the invariant.
  pub offered_event :
      (e : Event) (taken q offered : List Event)
      → length q ≤ channel_cap
      → Sublist (taken ++ q) offered
      → Lossless taken q offered
      → (length (offer_queue e q) ≤ channel_cap)
        × Sublist (taken ++ offer_queue e q) (offered ++ keep (λ e. matches_filter e f) (e ∷ []))
        × Lossless taken (offer_queue e q) (offered ++ keep (λ e. matches_filter e f) (e ∷ []))
  unfolding offer_queue
  offered_event e taken q offered b s l = elim (Bool-cases (matches_filter e f)) [
    | inr other ↦ rw (other, append-nil) (b, s, l)
    | inl wanted ↦ elim (Bool-cases (ltb (length q) channel_cap)) [
      | inl room ↦ rw (wanted, room) (room_case e taken q offered (ltb→lt _ _ room) s l)
      | inr full ↦ rw (wanted, full) (full_case e taken q offered b (ground arith) s l)
    ]
  ]
