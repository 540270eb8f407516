-- ===== src/EventBus/Delivery.antt =====
-- What reaches one subscriber, over any interleaving of the bus's operations with its reads and
-- those of others.
use mathlib.Core.List.{append_assoc, append-nil}
use mathlib.Core.List.Sublist
use tr_engine.Common.{
  ℕ, ◌+◌, ◌%◌, ◌^◌, ◌<◌, ◌≡◌, refl, sym, ap, ◌∙◌, ◌≢◌, List, [], ◌∷◌, ◌++◌, some, arith, length,
  keep, inl, inr, Bool-cases, Option-cases, nat_comparable, same_refl, subst,
}
use mathlib.Core.Option.{some-injective}
use native.Mathlib.Nat.{mod-eq_of_lt}
use tr_engine.Common.Map.{lookup, lookup-insert, lookup-delete, map_option}
use tr_engine.EventBus.{
  Event, EventFilter, EventData, Clock, EventBus, Subscription, matches_filter, build_event, offer,
  distribute, publish, subscribe, cleanup,
}
use tr_engine.EventBus.Run.{published, published_one_none, published_one_some}
use tr_engine.EventBus.Trace.{
  receive, receive-some, Trace, Step, publishes, subscribes, cancels, other_reads, reads, Reach,
  here, next, Delivered,
}
use tr_engine.EventBus.Offer.{
  push_ring-subscribers, distribute-lookup, distribute-next_id, publish-none_cases,
  publish-some_cases, differs, requeue, sub_of, offer_queue, offer-sub_of, offered_event,
}

module _ (k : ℕ) (f : EventFilter) where
  publish-Delivered :
      (now : Clock) (d : EventData) (eb : EventBus) (t : Trace) (q : List Event)
      → publish now d t.bus ≡ some eb
      → Delivered k f t q
      → (q' : List Event) × Delivered k f
          (record t {
            bus = eb;
            offered =
                t.offered ++ keep (λ e. matches_filter e f) (published ((now, d) ∷ []) t.bus.seq);
          })
          q'
  publish-Delivered now d eb t q h v = elim (Option-cases d.payload) [
    | inl p ↦ (
      q,
      published_nothing (publish-none_cases now d t.bus eb p h)
          (published_one_none now d t.bus.seq p),
    )
    | inr (bytes, p) ↦
        let (mid, pushed, same) = publish-some_cases now d t.bus eb bytes p h in
        let (subs, ids) = push_ring-subscribers _ mid _ pushed in
        let e = build_event now ((t.bus.seq + 1) % 2 ^ 64) d bytes in
        (
          offer_queue k f e q,
          published_event e mid same subs ids (published_one_some now d t.bus.seq bytes p),
        )
  ]
    where
      published_nothing :
          eb ≡ t.bus
          → published ((now, d) ∷ []) t.bus.seq ≡ []
          → Delivered k f
              (record t {
                bus = eb;
                offered =
                    t.offered
                    ++ keep (λ e. matches_filter e f) (published ((now, d) ∷ []) t.bus.seq);
              })
              q
      published_nothing same made =
          rw (made, append-nil)
            (record {
              known = subst (λ b. lookup k b.subscribers ≡ some (sub_of k f q)) (sym same) v.known;
              older = subst (λ b. k < b.next_id) (sym same) v.older;
              bounded = v.bounded;
              in_order = v.in_order;
              lossless = v.lossless;
            })

      published_event :
          (e : Event) (mid : EventBus)
          → eb ≡ distribute e mid
          → mid.subscribers ≡ t.bus.subscribers
          → mid.next_id ≡ t.bus.next_id
          → published ((now, d) ∷ []) t.bus.seq ≡ e ∷ []
          → Delivered k f
              (record t {
                bus = eb;
                offered =
                    t.offered
                    ++ keep (λ e. matches_filter e f) (published ((now, d) ∷ []) t.bus.seq);
              })
              (offer_queue k f e q)
      published_event e mid same subs ids made =
          let (b, s, l) = offered_event k f e t.taken q t.offered v.bounded v.in_order v.lossless in
          rw made (record {
            known =
                subst (λ b. lookup k b.subscribers ≡ some (sub_of k f (offer_queue k f e q)))
                  (sym same)
                  (distribute-lookup e mid k
                    ∙ ap (λ m. map_option (offer e k) (lookup k m)) subs
                    ∙ ap (map_option (offer e k)) v.known
                    ∙ ap some (offer-sub_of k f e q));
            older =
                subst (λ b. k < b.next_id) (sym same)
                  (omega (arith, distribute-next_id e mid, ids, v.older));
            bounded = b;
            in_order = s;
            lossless = l;
          })

  subscribe-Delivered :
      (g : EventFilter) (t : Trace) (q : List Event)
      → t.bus.next_id + 1 < 2 ^ 64
      → Delivered k f t q
      → Delivered k f (record t { bus = (subscribe g t.bus).0 }) q
  unfolding subscribe
  subscribe-Delivered g t q small v = record {
    known =
        lookup-insert t.bus.next_id k _ t.bus.subscribers
        ∙ (rw (differs t.bus.next_id k (omega (arith, v.older))) v.known);
    older = omega (arith, mod-eq_of_lt small, v.older);
    bounded = v.bounded;
    in_order = v.in_order;
    lossless = v.lossless;
  }

  cleanup-Delivered :
      (s : Subscription) (t : Trace) (q : List Event)
      → s.id ≢ k
      → Delivered k f t q
      → Delivered k f (record t { bus = (cleanup s t.bus).0 }) q
  unfolding cleanup
  cleanup-Delivered s t q other v = elim (Bool-cases s.done) [
    | inl done ↦ rw (done, cleanup) v
    | inr live ↦
        rw (live, cleanup)
          (record {
            known = lookup-delete s.id k t.bus.subscribers ∙ (rw (differs s.id k other) v.known);
            older = v.older;
            bounded = v.bounded;
            in_order = v.in_order;
            lossless = v.lossless;
          })
  ]

  other_reads-Delivered :
      (j : ℕ) (e : Event) (eb : EventBus) (t : Trace) (q : List Event)
      → j ≢ k
      → receive j t.bus ≡ some (e, eb)
      → Delivered k f t q
      → Delivered k f (record t { bus = eb }) q
  other_reads-Delivered j e eb t q other r v =
      let (sub, rest, found, front, same) = receive-some j t.bus e eb r in
      subst (λ b. Delivered k f (record t { bus = b }) q) (sym same)
        (record {
          known = lookup-insert j k _ t.bus.subscribers ∙ (rw (differs j k other) v.known);
          older = v.older;
          bounded = v.bounded;
          in_order = v.in_order;
          lossless = v.lossless;
        })

  reads-Delivered :
      (e : Event) (eb : EventBus) (t : Trace) (q : List Event)
      → receive k t.bus ≡ some (e, eb)
      → Delivered k f t q
      → (q' : List Event) × Delivered k f (record t { bus = eb; taken = t.taken ++ e ∷ [] }) q'
  reads-Delivered e eb t q r v =
      let (sub, rest, found, front, same) = receive-some k t.bus e eb r in
      let mine : sub ≡ sub_of k f q = some-injective sub (sub_of k f q) (sym found ∙ v.known) in
      let queue : q ≡ e ∷ rest = sym (ap (λ s. s.queue) mine) ∙ front in
      let grouped : (t.taken ++ e ∷ []) ++ rest ≡ t.taken ++ q =
        append_assoc t.taken (e ∷ []) rest ∙ ap (◌++◌ t.taken) (sym queue) in
      (
        rest,
        subst (λ b. Delivered k f (record t { bus = b; taken = t.taken ++ e ∷ [] }) rest) (sym same)
            (record {
              known =
                  lookup-insert k k _ t.bus.subscribers
                  ∙ rw (same_refl k) (requeue sub (sub_of k f q) rest mine);
              older = v.older;
              bounded = omega (arith, ap length queue, v.bounded);
              in_order = rw grouped v.in_order;
              lossless = rw grouped v.lossless;
            }),
      )

  -- Every step keeps the promise to the subscriber.
  Step-Delivered :
      {t u : Trace} (q : List Event)
      → Step k f t u
      → Delivered k f t q
      → (q' : List Event) × Delivered k f u q'
  Step-Delivered {t} {u} q (publishes now d eb h e) v =
      subst (λ w. (q' : List Event) × Delivered k f w q') (sym e)
        (publish-Delivered now d eb t q h v)
  Step-Delivered {t} {u} q (subscribes g small e) v =
      (q, subst (λ w. Delivered k f w q) (sym e) (subscribe-Delivered g t q small v))
  Step-Delivered {t} {u} q (cancels s other e) v =
      (q, subst (λ w. Delivered k f w q) (sym e) (cleanup-Delivered s t q other v))
  Step-Delivered {t} {u} q (other_reads j e eb other r same) v =
      (q, subst (λ w. Delivered k f w q) (sym same) (other_reads-Delivered j e eb t q other r v))
  Step-Delivered {t} {u} q (reads e eb r same) v =
      subst (λ w. (q' : List Event) × Delivered k f w q') (sym same) (reads-Delivered e eb t q r v)

  pub Reach-Delivered :
      {t u : Trace} (q : List Event)
      → Reach k f t u
      → Delivered k f t q
      → (q' : List Event) × Delivered k f u q'
  Reach-Delivered q here v = (q, v)
  Reach-Delivered q (next r st) v = let (q', v') = Reach-Delivered q r v in Step-Delivered q' st v'

-- Following a subscriber from its `Subscribe` through any interleaving of publications, of other
-- subscriptions, cancellations and reads, and of its own reads, as long as it is not cancelled
-- and the 64-bit ids do not wrap: what it has read and what waits for it are, in order, some of
-- the events published since then that pass its filter; at most 64 wait; and while
-- no more than 64 such events were published, all of them are there.
pub subscribe-Delivered_run :
    (f : EventFilter) (eb : EventBus) {u : Trace}
    → eb.next_id + 1 < 2 ^ 64
    → Reach eb.next_id f (record { bus = (subscribe f eb).0; offered = []; taken = [] }) u
    → (q : List Event) × Delivered eb.next_id f u q
unfolding subscribe
subscribe-Delivered_run f eb small r = Reach-Delivered eb.next_id f [] r (record {
  known = lookup-insert eb.next_id eb.next_id _ eb.subscribers ∙ rw (same_refl eb.next_id);
  older = omega (arith, mod-eq_of_lt small);
  bounded = omega arith;
  in_order = Sublist.refl [];
  lossless = inl refl;
})
