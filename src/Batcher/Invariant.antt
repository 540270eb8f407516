-- ===== src/Batcher/Invariant.antt =====
-- No item is lost, repeated or reordered, and no batch is empty or too large.
use tr_engine.Common.{
  ℕ, ◌≤◌, ◌<◌, ◌≡◌, refl, sym, ap, ◌∙◌, subst, ◌≢◌, ◌⊎◌, inl, inr, Bool, true, false, not, ◌&&◌,
  List, [], ◌∷◌, ◌++◌, some, arith, if◌then◌else◌, ltb, leb, length, length-append, ◌==◌,
  nat_comparable, Bool-cases,
}
use mathlib.Core.List.{append_assoc, append-nil}
use tr_engine.Batcher.Steps.{
  In, State, Step, adds, flushes, stops, expires, calls_back, finishes, Reach, here, next,
}
use tr_engine.Batcher.{
  Batcher, remove, new_batcher, flush_locked, start_timer, after_append, add, on_timer, flush, stop,
}

In-remove : (t u : ℕ) (us : List ℕ) → In u us → (t ≡ u) ⊎ In u (remove t us)
unfolding remove
In-remove t u [] i = absurd i
In-remove t u (w ∷ us) i = ground (arith, In-remove t u us)

module _ {ℓ} {A : Type ℓ} where
  abbrev pub joined : List (List A) → List A
  joined [] = []
  joined (x ∷ xs) = x ++ joined xs

  abbrev pub AllSized : ℕ → List (List A) → Type 0
  AllSized n [] = Unit
  AllSized n (x ∷ xs) = (0 < length x) × (length x ≤ n) × AllSized n xs

  -- The timer that `b.timer` points at has not run its callback yet.
  abbrev pub Live : Batcher A → Type 0
  Live b = (t : ℕ) × (b.timer ≡ some t) × (In t b.armed ⊎ In t b.fired)

  pub record Inv (n : ℕ) (s : State A) : Type ℓ where
    pub sized : s.batcher.max_size ≡ n
    pub conserved : joined s.batcher.flushed ++ s.batcher.items ≡ s.accepted
    pub batches : AllSized n s.batcher.flushed
    pub pending : length s.batcher.items < n
    pub closed : (s.batcher.stopped ≡ false) ⊎ (s.batcher.items ≡ [])
    pub timed : (s.batcher.items ≡ []) ⊎ Live s.batcher

  joined-append : (xs : List (List A)) (x : List A) → joined (xs ++ x ∷ []) ≡ joined xs ++ x
  joined-append [] x = append-nil x
  joined-append (y ∷ xs) x = ap (◌++◌ y) (joined-append xs x) ∙ sym (append_assoc y (joined xs) x)

  AllSized-append :
      (n : ℕ) (xs : List (List A)) (x : List A)
      → AllSized n xs
      → 0 < length x
      → length x ≤ n
      → AllSized n (xs ++ x ∷ [])
  AllSized-append n [] x a p q = (p, q, tt)
  AllSized-append n (y ∷ xs) x a p q = (a.0, a.1, AllSized-append n xs x a.2 p q)

  flush_locked-Inv :
      (n : ℕ) (b : Batcher A) (acc : List A)
      → b.max_size ≡ n
      → joined b.flushed ++ b.items ≡ acc
      → AllSized n b.flushed
      → 0 < length b.items
      → length b.items ≤ n
      → Inv n (record { batcher = flush_locked b; accepted = acc })
  unfolding flush_locked
  flush_locked-Inv n b acc m c a p q = record {
    sized = m;
    conserved = rw append-nil (joined-append b.flushed b.items ∙ c);
    batches = AllSized-append n b.flushed b.items a p q;
    pending = omega (arith, p, q);
    closed = inr refl;
    timed = inl refl;
  }

  pub empty_of_length : (xs : List A) → ltb 0 (length xs) ≡ false → xs ≡ []
  empty_of_length [] h = refl
  empty_of_length (x ∷ xs) h = absurd (ground arith)

  -- Whatever the timers and the flag are, a flush leaves nothing pending.
  pub flush_core :
      (n : ℕ) (b : Batcher A) (acc : List A)
      → b.max_size ≡ n
      → joined b.flushed ++ b.items ≡ acc
      → AllSized n b.flushed
      → length b.items < n
      → Inv n (record { batcher = flush b; accepted = acc })
  unfolding flush
  flush_core n b acc m c a p = elim (Bool-cases (ltb 0 (length b.items))) [
    | inl full ↦ rw full (flush_locked-Inv n b acc m c a (ground arith) (omega (arith, p)))
    | inr bare ↦ rw bare (record {
      sized = m;
      conserved = c;
      batches = a;
      pending = p;
      closed = inr (empty_of_length b.items bare);
      timed = inl (empty_of_length b.items bare);
    })
  ]

  after_append-Inv :
      (n : ℕ) (b : Batcher A) (acc : List A)
      → b.max_size ≡ n
      → joined b.flushed ++ b.items ≡ acc
      → AllSized n b.flushed
      → 0 < length b.items
      → length b.items ≤ n
      → b.stopped ≡ false
      → (length b.items ≢ 1 → Live b)
      → Inv n (record { batcher = after_append b; accepted = acc })
  unfolding after_append
  after_append-Inv n b acc m c a p q o l = elim (Bool-cases (leb b.max_size (length b.items))) [
    | inl full ↦ rw full (flush_locked-Inv n b acc m c a p q)
    | inr part ↦ elim (Bool-cases (length b.items == 1)) [
      | inl first ↦
          rw (part, first)
            (unfold start_timer in
              record {
                sized = m;
                conserved = c;
                batches = a;
                pending = ground arith;
                closed = inl o;
                timed = inr (b.next_timer, refl, inl (inl refl));
              })
      | inr later ↦
          rw (part, later)
            (record {
              sized = m;
              conserved = c;
              batches = a;
              pending = ground arith;
              closed = inl o;
              timed = inr (l (ground arith));
            })
    ]
  ]

  Live-of_items : (b : Batcher A) → (b.items ≡ []) ⊎ Live b → 0 < length b.items → Live b
  Live-of_items b (inl e) h = absurd (omega (arith, ap length e, h))
  Live-of_items b (inr l) h = l

  pub add_at :
      (n : ℕ) (s : State A) (item : A) (c : Bool)
      → s.batcher.stopped ≡ c
      → Inv n s
      → Inv n (record {
        batcher =
            if c
            then s.batcher
            else after_append (record s.batcher { items = s.batcher.items ++ item ∷ [] });
        accepted = if c then s.accepted else s.accepted ++ item ∷ [];
      })
  add_at n s item true e v = v
  add_at n s item false e v =
      let longer = length-append s.batcher.items (item ∷ []) in
      after_append-Inv n (record s.batcher { items = s.batcher.items ++ item ∷ [] })
        (s.accepted ++ item ∷ []) v.sized
        (sym (append_assoc (joined s.batcher.flushed) s.batcher.items (item ∷ []))
          ∙ ap (λ xs. xs ++ item ∷ []) v.conserved)
        v.batches (omega (arith, longer)) (omega (arith, longer, v.pending)) e
        (λ more. Live-of_items s.batcher v.timed (omega (arith, longer, more)))

  add-Inv :
      (n : ℕ) (s : State A) (item : A)
      → Inv n s
      → Inv n (record {
        batcher = add item s.batcher;
        accepted = if s.batcher.stopped then s.accepted else s.accepted ++ item ∷ [];
      })
  unfolding add
  add-Inv n s item v = add_at n s item s.batcher.stopped refl v

  pub empty_after :
      (b : Batcher A)
      → (not b.stopped && ltb 0 (length b.items)) ≡ false
      → (b.stopped ≡ false) ⊎ (b.items ≡ [])
      → b.items ≡ []
  empty_after b h (inl o) = empty_of_length b.items (ground arith)
  empty_after b h (inr e) = e

  on_timer_core :
      (n : ℕ) (b : Batcher A) (acc : List A)
      → b.max_size ≡ n
      → joined b.flushed ++ b.items ≡ acc
      → AllSized n b.flushed
      → length b.items < n
      → (b.stopped ≡ false) ⊎ (b.items ≡ [])
      → Inv n (record { batcher = on_timer b; accepted = acc })
  unfolding on_timer
  on_timer_core n b acc m c a p closed =
      elim (Bool-cases (not b.stopped && ltb 0 (length b.items))) [
        | inl due ↦ rw due (flush_locked-Inv n b acc m c a (ground arith) (omega (arith, p)))
        | inr idle ↦ rw idle (record {
          sized = m;
          conserved = c;
          batches = a;
          pending = p;
          closed = closed;
          timed = inl (empty_after b idle closed);
        })
      ]

  timer_expires :
      (b : Batcher A) (t : ℕ)
      → (b.items ≡ []) ⊎ Live b
      → (b.items ≡ []) ⊎ Live (record b { armed = remove t b.armed; fired = t ∷ b.fired })
  timer_expires b t (inl e) = inl e
  timer_expires b t (inr (u, at, inr fired)) = inr (u, at, inr (inr fired))
  timer_expires b t (inr (u, at, inl armed)) = elim (In-remove t u b.armed armed) [
    | inl same ↦ inr (u, at, inr (inl same))
    | inr still ↦ inr (u, at, inl still)
  ]

  -- Every step of the batcher, of a timer or of a flush keeps the invariant.
  pub Step-Inv : (n : ℕ) (s u : State A) → Step s u → Inv n s → Inv n u
  unfolding stop
  Step-Inv n s u (adds item e) v = subst (Inv n) (sym e) (add-Inv n s item v)
  Step-Inv n s u (flushes e) v =
      subst (Inv n) (sym e)
        (flush_core n s.batcher s.accepted v.sized v.conserved v.batches v.pending)
  Step-Inv n s u (stops e) v =
      subst (Inv n) (sym e) (flush_core n _ s.accepted v.sized v.conserved v.batches v.pending)
  Step-Inv n s u (expires t i e) v = subst (Inv n) (sym e) (record {
    sized = v.sized;
    conserved = v.conserved;
    batches = v.batches;
    pending = v.pending;
    closed = v.closed;
    timed = timer_expires s.batcher t v.timed;
  })
  Step-Inv n s u (calls_back t i e) v =
      subst (Inv n) (sym e)
        (on_timer_core n _ s.accepted v.sized v.conserved v.batches v.pending v.closed)
  Step-Inv n s u (finishes k r e) v = subst (Inv n) (sym e) (record {
    sized = v.sized;
    conserved = v.conserved;
    batches = v.batches;
    pending = v.pending;
    closed = v.closed;
    timed = v.timed;
  })

  Reach-Inv : (n : ℕ) (s u : State A) → Reach s u → Inv n s → Inv n u
  Reach-Inv n s u here v = v
  Reach-Inv n s u (next {t = t} r st) v = Step-Inv n t u st (Reach-Inv n s t r v)

  abbrev pub start : ℕ → State A
  start n = record { batcher = new_batcher n; accepted = [] }

  -- Whatever the order of additions, flushes, stops, expiries, late callbacks and ends of
  -- flushes: the batches followed by the pending items are the accepted items, in order; each
  -- batch has between 1 and `max_size` items; fewer than `max_size` items wait; none waits once
  -- the batcher is stopped; and while some wait, the current timer has yet to call back.
  pub Reach-start-Inv : (n : ℕ) {u : State A} → 0 < n → Reach (start n) u → Inv n u
  unfolding new_batcher
  Reach-start-Inv n {u} h r = Reach-Inv n (start n) u r (record {
    sized = refl;
    conserved = refl;
    batches = tt;
    pending = h;
    closed = inr refl;
    timed = inl refl;
  })
