-- ===== src/EventBus/Trace.antt =====
-- The bus beside its channels' readers, as a step relation on one subscriber's trace.
use mathlib.Core.List.{Sublist}
use tr_engine.Common.{
  ℕ, ◌+◌, ◌^◌, ◌≤◌, ◌<◌, ◌≡◌, sym, ap, ◌∙◌, ◌≢◌, List, [], ◌∷◌, ◌++◌, ◌⊎◌, Option, none, some,
  arith, length, keep, inl, inr, Option-cases, ◌>>=◌, nat_comparable,
}
use mathlib.Core.Option.{some-injective}
use tr_engine.Common.Map.{lookup, insert}
use tr_engine.EventBus.{
  Event, EventFilter, EventData, Clock, EventBus, Subscriber, Subscription, channel_cap,
  matches_filter, publish, subscribe, cleanup,
}
use tr_engine.EventBus.Run.{published}

take_front : ℕ → Subscriber → List Event → EventBus → Option (Event × EventBus)
take_front k sub [] eb = none
take_front k sub (e ∷ q) eb =
    some (e, record eb { subscribers = insert k (record sub { queue = q }) eb.subscribers })

-- The consumer's read of its channel; `none` while it would wait.
unfoldable pub receive : ℕ → EventBus → Option (Event × EventBus)
unfolding take_front
receive k eb = do sub ← lookup k eb.subscribers; take_front k sub sub.queue eb

-- A bus with the record of one subscriber: what was published for it, and what it has read.
pub record Trace : Type 0 where
  pub bus : EventBus
  pub offered : List Event
  pub taken : List Event

-- One step while subscriber `k` with filter `f` stays subscribed and the ids do not wrap.
pub data Step (k : ℕ) (f : EventFilter) (t u : Trace) : Type 0 where
  publishes :
      (now : Clock) (d : EventData) (eb : EventBus)
      → publish now d t.bus ≡ some eb
      → u ≡ record t {
        bus = eb;
        offered = t.offered ++ keep (λ e. matches_filter e f) (published ((now, d) ∷ []) t.bus.seq);
      }
      → Step k f t u
  subscribes :
      (g : EventFilter)
      → t.bus.next_id + 1 < 2 ^ 64
      → u ≡ record t { bus = (subscribe g t.bus).0 }
      → Step k f t u
  cancels :
      (s : Subscription) → s.id ≢ k → u ≡ record t { bus = (cleanup s t.bus).0 } → Step k f t u
  other_reads :
      (j : ℕ) (e : Event) (eb : EventBus)
      → j ≢ k
      → receive j t.bus ≡ some (e, eb)
      → u ≡ record t { bus = eb }
      → Step k f t u
  reads :
      (e : Event) (eb : EventBus)
      → receive k t.bus ≡ some (e, eb)
      → u ≡ record t { bus = eb; taken = t.taken ++ e ∷ [] }
      → Step k f t u

pub data Reach (k : ℕ) (f : EventFilter) (t : Trace) : Trace → Type 0 where
  here : Reach k f t t
  next : {u v : Trace} → Reach k f t u → Step k f u v → Reach k f t v

-- Nothing is missing, unless more than 64 events were offered.
abbrev pub Lossless : List Event → List Event → List Event → Type 0
Lossless taken q offered = (taken ++ q ≡ offered) ⊎ (channel_cap < length offered)

-- Read and waiting events are, in order, some of those published for the subscriber; at most 64
-- wait; and none is missing while no more than 64 were published.
pub record Delivered (k : ℕ) (f : EventFilter) (t : Trace) (q : List Event) : Type 0 where
  pub known : lookup k t.bus.subscribers ≡ some (record { queue = q; filter = f })
  pub older : k < t.bus.next_id
  pub bounded : length q ≤ channel_cap
  pub in_order : Sublist (t.taken ++ q) t.offered
  pub lossless : Lossless t.taken q t.offered

take_front-some :
    (j : ℕ) (sub : Subscriber) (q : List Event) (eb : EventBus) (e : Event) (eb' : EventBus)
    → take_front j sub q eb ≡ some (e, eb')
    → (rest : List Event) × (q ≡ e ∷ rest)
      × (eb' ≡ record eb { subscribers = insert j (record sub { queue = rest }) eb.subscribers })
unfolding take_front
take_front-some j sub [] eb e eb' r = absurd (cc)
take_front-some j sub (x ∷ rest) eb e eb' r =
    let parts = some-injective _ _ r in
    (rest, ap (λ p. p.0 ∷ rest) parts, sym (ap (λ p. p.1) parts))

pub receive-some :
    (j : ℕ) (eb : EventBus) (e : Event) (eb' : EventBus)
    → receive j eb ≡ some (e, eb')
    → (sub : Subscriber) × (rest : List Event) × (lookup j eb.subscribers ≡ some sub)
      × (sub.queue ≡ e ∷ rest)
      × (eb' ≡ record eb { subscribers = insert j (record sub { queue = rest }) eb.subscribers })
unfolding receive
receive-some j eb e eb' r = elim (Option-cases (lookup j eb.subscribers)) [
  | inl missing ↦ absurd (ground arith)
  | inr (sub, found) ↦
      let front =
        take_front-some j sub sub.queue eb e eb'
          (ap (λ o. o >>= λ s. take_front j s s.queue eb) (sym found) ∙ r) in
      (sub, front.0, found, front.1, front.2)
]
