-- ===== src/EventBus/Run.antt =====
-- Runs of `Publish` calls: the events that they make, and what the ring then holds.
use tr_engine.Common.{
  ℕ, ◌+◌, ◌%◌, ◌^◌, ◌<◌, ◌≡◌, refl, sym, ap, ◌∙◌, List, [], ◌∷◌, ◌++◌, Option, none, some, Text,
  text_comparable, arith, length, drop, take, length-drop, length-take, Option-cases, inl, inr,
  length-append, ◌>>=◌,
}
use mathlib.Core.List.{append_assoc, append-nil}
use native.Mathlib.Nat.{mod-eq_of_lt}
use tr_engine.EventBus.Ids.{IdsFrom}
use tr_engine.EventBus.Ring.{RingIsValid, ring_order, after_push, push_ring-ring_order}
use tr_engine.EventBus.{Event, EventData, Clock, EventBus, build_event, distribute, publish}

-- A run of `Publish` calls, and the events that it makes: a payload that does not marshal makes
-- none, and takes no sequence number.
abbrev pub Feed : Type 0
Feed = List (Clock × EventData)

unfoldable pub publish_all : Feed → EventBus → Option EventBus
publish_all [] eb = some eb
publish_all ((now, d) ∷ ds) eb = publish now d eb >>= publish_all ds

abbrev published_from : ℕ → Clock → EventData → Option Text → (ℕ → List Event) → List Event
published_from seq now d none rest = rest seq
published_from seq now d (some bytes) rest =
    build_event now ((seq + 1) % 2 ^ 64) d bytes ∷ rest ((seq + 1) % 2 ^ 64)

unfoldable pub published : Feed → ℕ → List Event
published [] seq = []
published ((now, d) ∷ ds) seq = published_from seq now d d.payload (published ds)

-- A call whose payload marshals: the ring takes the event and the channels are offered it.
abbrev after_publish : Event → ℕ → EventBus → EventBus
after_publish e seq eb = distribute e (after_push (record eb { seq = seq }) e)

after_publish-ring :
    (e : Event) (seq : ℕ) (eb : EventBus)
    → RingIsValid eb
    → RingIsValid (after_publish e seq eb)
      × (ring_order (after_publish e seq eb) ≡ drop 1 (ring_order eb) ++ e ∷ [])
unfolding distribute
after_publish-ring e seq eb v =
    let (_, valid, order) =
      push_ring-ring_order (record eb { seq = seq }) e
        (record { sized = v.sized; head_in = v.head_in }) in
    (record { sized = valid.sized; head_in = valid.head_in }, order)

abbrev next_seq : EventBus → ℕ
next_seq eb = (eb.seq + 1) % 2 ^ 64

pub publish-some :
    (now : Clock) (d : EventData) (bytes : Text) (eb : EventBus)
    → d.payload ≡ some bytes
    → RingIsValid eb
    → publish now d eb
      ≡ some (after_publish (build_event now (next_seq eb) d bytes) (next_seq eb) eb)
unfolding publish distribute build_event
publish-some now d bytes eb h v =
    let e = build_event now (next_seq eb) d bytes in
    let pushed =
      push_ring-ring_order (record eb { seq = next_seq eb }) e
        (record { sized = v.sized; head_in = v.head_in }) in
    rw (h, publish) (rw pushed.0)

pub publish-none :
    (now : Clock) (d : EventData) (eb : EventBus) → d.payload ≡ none → publish now d eb ≡ some eb
unfolding publish
publish-none now d eb h = rw (h, publish)

drop_later :
    (o : List Event) (e : Event) (es : List Event)
    → 0 < length o
    → drop (length es) ((drop 1 o ++ e ∷ []) ++ es) ≡ drop (length (e ∷ es)) (o ++ e ∷ es)
drop_later [] e es h = absurd (omega arith)
drop_later (x ∷ o) e es h = rw (append_assoc o (e ∷ []) es)

length-ring_order : (eb : EventBus) → RingIsValid eb → length (ring_order eb) ≡ eb.ring_size
length-ring_order eb v = omega (
  arith,
  length-append (drop eb.ring_head eb.ring) (take eb.ring_head eb.ring),
  length-drop eb.ring_head eb.ring,
  length-take eb.ring_head eb.ring,
  v.sized,
  v.head_in,
)

pub published-none :
    (now : Clock) (d : EventData) (ds : Feed) (seq : ℕ)
    → d.payload ≡ none
    → published ((now, d) ∷ ds) seq ≡ published ds seq
unfolding published
published-none now d ds seq h = ap (λ p. published_from seq now d p (published ds)) h

pub published-some :
    (now : Clock) (d : EventData) (ds : Feed) (seq : ℕ) (bytes : Text)
    → d.payload ≡ some bytes
    → published ((now, d) ∷ ds) seq
      ≡ build_event now ((seq + 1) % 2 ^ 64) d bytes ∷ published ds ((seq + 1) % 2 ^ 64)
unfolding published
published-some now d ds seq bytes h = ap (λ p. published_from seq now d p (published ds)) h

run_on :
    (now : Clock) (d : EventData) (ds : Feed) (eb eb₁ eb₂ : EventBus)
    → publish now d eb ≡ some eb₁
    → publish_all ds eb₁ ≡ some eb₂
    → publish_all ((now, d) ∷ ds) eb ≡ some eb₂
unfolding publish_all
run_on now d ds eb eb₁ eb₂ p q = ap (λ o. o >>= publish_all ds) p ∙ q

-- No run panics, and afterwards the ring holds the last events, oldest first.
pub publish_all-ring_order :
    (ds : Feed) (eb : EventBus)
    → RingIsValid eb
    → (eb' : EventBus) × (publish_all ds eb ≡ some eb')
      × RingIsValid eb'
      × (ring_order eb'
          ≡ drop (length (published ds eb.seq)) (ring_order eb ++ published ds eb.seq))
unfolding publish_all published distribute
publish_all-ring_order [] eb v = (eb, refl, v, rw append-nil)
publish_all-ring_order ((now, d) ∷ ds) eb v = elim (Option-cases d.payload) [
  | inl h ↦
      let (eb', run, valid, order) = publish_all-ring_order ds eb v in
      (
        eb',
        run_on now d ds eb eb eb' (publish-none now d eb h) run,
        valid,
        order
            ∙ ap (λ es. drop (length es) (ring_order eb ++ es))
                (sym (published-none now d ds eb.seq h)),
      )
  | inr (bytes, h) ↦
      let e = build_event now (next_seq eb) d bytes in
      let (valid, order) = after_publish-ring e (next_seq eb) eb v in
      let (eb', run, valid', order') =
        publish_all-ring_order ds (after_publish e (next_seq eb) eb) valid in
      let es = published ds (next_seq eb) in
      (
        eb',
        run_on now d ds eb (after_publish e (next_seq eb) eb) eb' (publish-some now d bytes eb h v)
            run,
        valid',
        order'
            ∙ ap (λ o. drop (length es) (o ++ es)) order
            ∙ drop_later (ring_order eb) e es (omega (arith, length-ring_order eb v, v.head_in))
            ∙ ap (λ l. drop (length l) (ring_order eb ++ l))
                (sym (published-some now d ds eb.seq bytes h)),
      )
]

-- Until the 64-bit counter wraps, the events of a run carry consecutive sequence numbers.
pub published-IdsFrom :
    (ds : Feed) (seq : ℕ) → seq + length ds < 2 ^ 64 → IdsFrom seq (published ds seq)
unfolding published
published-IdsFrom [] seq h = tt
published-IdsFrom ((now, d) ∷ ds) seq h = elim (Option-cases d.payload) [
  | inl p ↦ rw (published-none now d ds seq p) (published-IdsFrom ds seq (omega arith))
  | inr (bytes, p) ↦
      let small : (seq + 1) % 2 ^ 64 ≡ seq + 1 = mod-eq_of_lt (omega arith) in
      rw (published-some now d ds seq bytes p) (
        rw small (
          (now.unix_milli, unfold build_event in refl),
          published-IdsFrom ds (seq + 1) (omega arith),
        ))
]

-- One call makes at most one event.
pub published_one_none :
    (now : Clock) (d : EventData) (seq : ℕ) → d.payload ≡ none → published ((now, d) ∷ []) seq ≡ []
unfolding published
published_one_none now d seq h = published-none now d [] seq h

pub published_one_some :
    (now : Clock) (d : EventData) (seq : ℕ) (bytes : Text)
    → d.payload ≡ some bytes
    → published ((now, d) ∷ []) seq ≡ build_event now ((seq + 1) % 2 ^ 64) d bytes ∷ []
unfolding published
published_one_some now d seq bytes h = published-some now d [] seq bytes h
