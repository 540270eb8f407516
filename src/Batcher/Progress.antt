-- ===== src/Batcher/Progress.antt =====
-- The timer's promise, and what has happened when `Stop` returns.
use tr_engine.Common.{
  arith, ℕ, ◌<◌, ◌≡◌, refl, sym, ap, ◌∙◌, subst, ◌⊎◌, inl, inr, true, false, not, ◌&&◌, [], ◌∷◌,
  ◌++◌, if◌then◌else◌, ltb, length, Bool-cases, nat_comparable,
}
use mathlib.Core.List.{append-nil}
use tr_engine.Batcher.Steps.{
  In, State, Step, adds, flushes, stops, expires, calls_back, finishes, Reach, here, next,
}
use tr_engine.Batcher.Invariant.{Inv, Live, joined, start, Reach-start-Inv, Step-Inv, empty_after}
use tr_engine.Batcher.{
  Batcher, remove, disarm, add, after_append, on_timer, flush_locked, flush, stop,
}

module _ {ℓ} {A : Type ℓ} where
  on_timer_items : (b : Batcher A) → (b.stopped ≡ false) ⊎ (b.items ≡ []) → (on_timer b).items ≡ []
  unfolding on_timer flush_locked
  on_timer_items b closed = elim (Bool-cases (not b.stopped && ltb 0 (length b.items))) [
    | inl due ↦ rw due
    | inr idle ↦ rw idle (empty_after b idle closed)
  ]

  fire :
      (n : ℕ) (s : State A) (t : ℕ)
      → Inv n s
      → In t s.batcher.fired
      → (u : State A) × Step s u × (u.batcher.items ≡ []) × (u.accepted ≡ s.accepted)
  fire n s t v i = (
    record s { batcher = on_timer (record s.batcher { fired = remove t s.batcher.fired }) },
    calls_back t i refl,
    on_timer_items _ v.closed,
    refl,
  )

  flush_by_timer :
      (n : ℕ) (s : State A)
      → Inv n s
      → Live s.batcher
      → (u : State A) × Reach s u × (u.batcher.items ≡ []) × (u.accepted ≡ s.accepted)
  flush_by_timer n s v (t, at, inr fired) =
      let (u, st, empty, kept) = fire n s t v fired in (u, next here st, empty, kept)
  flush_by_timer n s v (t, at, inl armed) =
      let expired : State A = record s {
        batcher = record s.batcher {
          armed = remove t s.batcher.armed;
          fired = t ∷ s.batcher.fired;
        };
      } in
      let (u, st, empty, kept) =
        fire n expired t (Step-Inv n s expired (expires t armed refl) v) (inl refl) in
      (u, next (next here (expires t armed refl)) st, empty, kept)

  settle :
      (n : ℕ) (s : State A)
      → Inv n s
      → (s.batcher.items ≡ []) ⊎ Live s.batcher
      → (u : State A) × Reach s u × (u.batcher.items ≡ []) × (u.accepted ≡ s.accepted)
  settle n s v (inl e) = (s, here, e, refl)
  settle n s v (inr live) = flush_by_timer n s v live

  Reach-trans : {s t u : State A} → Reach s t → Reach t u → Reach s u
  Reach-trans r here = r
  Reach-trans r (next q st) = next (Reach-trans r q) st

  -- From every reachable state the current timer's expiry and callback, or no step at all, lead
  -- to a state in which no item waits and the batches are all that was accepted, in order.
  pub timer_flushes :
      (n : ℕ) {s : State A}
      → 0 < n
      → Reach (start n) s
      → (u : State A) × Reach s u × (u.batcher.items ≡ []) × (joined u.batcher.flushed ≡ s.accepted)
  timer_flushes n {s} h r =
      let v = Reach-start-Inv n h r in
      let (u, run, empty, kept) = settle n s v v.timed in
      let w = Reach-start-Inv n h (Reach-trans r run) in
      (
        u,
        run,
        empty,
        sym (append-nil (joined u.batcher.flushed))
            ∙ ap (◌++◌ (joined u.batcher.flushed)) (sym empty)
            ∙ w.conserved
            ∙ kept,
      )

  -- What a stopped batcher keeps: the flag, no pending item, its batches and the accepted items.
  abbrev Frozen : State A → State A → Type ℓ
  Frozen s u =
      (u.batcher.stopped ≡ true)
      × (u.batcher.items ≡ [])
      × (u.batcher.flushed ≡ s.batcher.flushed)
      × (u.accepted ≡ s.accepted)

  flush_frozen : (b : Batcher A) → b.items ≡ [] → flush b ≡ b
  unfolding flush
  flush_frozen b h =
      let bare : ltb 0 (length b.items) ≡ false = ap (λ xs. ltb 0 (length xs)) h in rw bare

  stop_flag : (b : Batcher A) → (stop b).stopped ≡ true
  unfolding stop flush flush_locked
  stop_flag b = elim (Bool-cases (ltb 0 (length b.items))) [
    | inl full ↦ rw full
    | inr bare ↦ rw bare
  ]

  on_timer_frozen : (b : Batcher A) → b.stopped ≡ true → on_timer b ≡ b
  unfolding on_timer
  on_timer_frozen b h = ap (λ c. if not c && ltb 0 (length b.items) then flush_locked b else b) h

  add_frozen : (item : A) (b : Batcher A) → b.stopped ≡ true → add item b ≡ b
  unfolding add
  add_frozen item b h =
      ap (λ c. if c then b else after_append (record b { items = b.items ++ item ∷ [] })) h

  Step-Frozen : (s t u : State A) → Step t u → Frozen s t → Frozen s u
  unfolding stop
  Step-Frozen s t u (adds item e) (c, i, f, a) = subst (Frozen s) (sym e) (
      rw (add_frozen item t.batcher c)
        (c, i, f, ap (λ c. if c then t.accepted else t.accepted ++ item ∷ []) c ∙ a))
  Step-Frozen s t u (flushes e) (c, i, f, a) =
      subst (Frozen s) (sym e) (rw (flush_frozen t.batcher i) (c, i, f, a))
  Step-Frozen s t u (stops e) (c, i, f, a) = subst (Frozen s) (sym e) (
      rw
        (flush_frozen
          (record t.batcher { stopped = true; armed = disarm t.batcher.timer t.batcher.armed }) i)
        (refl, i, f, a))
  Step-Frozen s t u (expires x j e) fr = subst (Frozen s) (sym e) fr
  Step-Frozen s t u (calls_back x j e) (c, i, f, a) =
      subst (Frozen s) (sym e) (
        rw (on_timer_frozen (record t.batcher { fired = remove x t.batcher.fired }) c) (c, i, f, a))
  Step-Frozen s t u (finishes k r e) fr = subst (Frozen s) (sym e) fr

  Reach-Frozen : (s t u : State A) → Reach t u → Frozen s t → Frozen s u
  Reach-Frozen s t u here fr = fr
  Reach-Frozen s t u (next {t = m} r st) fr = Step-Frozen s m u st (Reach-Frozen s t m r fr)

  closed_items :
      (b : Batcher A) → (b.stopped ≡ false) ⊎ (b.items ≡ []) → b.stopped ≡ true → b.items ≡ []
  closed_items b (inl o) h = absurd (ground arith)
  closed_items b (inr e) h = e

  -- A call of `Stop` flushes all that was accepted before it, and from then on, whatever is
  -- called and whichever timer fires, nothing more is accepted, pending or flushed.
  pub stop_final :
      (n : ℕ) {s u : State A}
      → 0 < n
      → Reach (start n) s
      → Reach (record s { batcher = stop s.batcher }) u
      → (u.batcher.stopped ≡ true)
        × (u.batcher.items ≡ [])
        × (joined u.batcher.flushed ≡ s.accepted)
        × (u.accepted ≡ s.accepted)
  stop_final n {s} {u} h r q =
      let stopped : State A = record s { batcher = stop s.batcher } in
      let v = Reach-start-Inv n h (next r (stops refl)) in
      let flag = stop_flag s.batcher in
      let empty = closed_items stopped.batcher v.closed flag in
      let (c, i, f, a) = Reach-Frozen stopped stopped u q (flag, empty, refl, refl) in
      (
        c,
        i,
        ap joined f
            ∙ sym (append-nil (joined stopped.batcher.flushed))
            ∙ ap (◌++◌ (joined stopped.batcher.flushed)) (sym empty)
            ∙ v.conserved,
        a,
      )
