-- ===== src/EventBus/Ring.antt =====
-- The replay ring against a list: what the loop of `ReplaySince` visits, and what `Publish` does
-- to it.
use tr_engine.Common.{
  ℕ, suc, ◌+◌, ◌%◌, ◌<◌, ◌≡◌, refl, sym, ap, ◌∙◌, ◌⊎◌, inl, inr, List, [], ◌∷◌, ◌++◌, some, arith,
  length, get_elem?, set, take, drop, length-append, length-set, split_at, set-append-length,
  get_elem?-append-length,
}
use tr_engine.Common.Rings.{wrap_index, drop_of_length, take_of_length, order_after}
use mathlib.Core.List.{append_assoc, append-nil}
use native.Mathlib.Nat.{mod-lt}
use tr_engine.EventBus.{Event, EventBus, push_ring, slots}

-- The ring has its size, which is not 0, and the head points into it.
pub record RingIsValid (eb : EventBus) : Type 0 where
  pub sized : length eb.ring ≡ eb.ring_size
  pub head_in : eb.ring_head < eb.ring_size

-- Oldest slot first.
abbrev pub ring_order : EventBus → List Event
ring_order eb = drop eb.ring_head eb.ring ++ take eb.ring_head eb.ring

slots_round :
    (eb : EventBus) (n i : ℕ) (x : Event) (xs : List Event)
    → get_elem? eb.ring ((eb.ring_head + i) % eb.ring_size) ≡ some x
    → slots n (i + 1) eb ≡ some xs
    → slots (suc n) i eb ≡ some (x ∷ xs)
unfolding slots
slots_round eb n i x xs p q = rw (p, q)

slots_end : (eb : EventBus) (i : ℕ) → slots 0 i eb ≡ some []
unfolding slots
slots_end eb i = refl

-- Rounds that meet no end of the ring read a piece of it; `ys` is what the later rounds read.
slots_piece :
    (eb : EventBus) (pre xs post ys : List Event) (n i : ℕ)
    → eb.ring ≡ pre ++ (xs ++ post)
    → length eb.ring ≡ eb.ring_size
    → (eb.ring_head + i ≡ length pre) ⊎ (eb.ring_head + i ≡ eb.ring_size + length pre)
    → slots n (i + length xs) eb ≡ some ys
    → slots (length xs + n) i eb ≡ some (xs ++ ys)
slots_piece eb pre [] post ys n i e s w later =
    let same : i + 0 ≡ i = omega arith in
    let none_read : 0 + n ≡ n = omega arith in rw none_read (rw same at later)
slots_piece eb pre (x ∷ xs) post ys n i e s w later =
    let round : suc (length xs) + n ≡ suc (length xs + n) = omega arith in
    let next : i + suc (length xs) ≡ i + 1 + length xs = omega arith in
    rw round (
      slots_round eb (length xs + n) i x (xs ++ ys)
        (rw
          (
            wrap_index eb.ring_size (length pre) (eb.ring_head + i)
                (omega (arith, ap length e, length-append pre (x ∷ xs ++ post))) w,
            e,
          )
          (get_elem?-append-length pre x (xs ++ post)))
        (slots_piece eb (pre ++ x ∷ []) xs post ys n (i + 1)
          (e ∙ sym (append_assoc pre (x ∷ []) (xs ++ post))) s
          (omega (arith, length-append pre (x ∷ []))) (rw next at later)))

abbrev pub after_push : EventBus → Event → EventBus
after_push eb n = record eb {
  ring = set eb.ring eb.ring_head n;
  ring_head = (eb.ring_head + 1) % eb.ring_size;
}

-- The ring cut at the head: `x` is the oldest slot.
module _ (eb : EventBus) (a : List Event) (x : Event) (b : List Event) (v : RingIsValid eb)
    (e : eb.ring ≡ a ++ x ∷ b) (l : length a ≡ eb.ring_head) where
  ring_order_cut : ring_order eb ≡ (x ∷ b) ++ a
  ring_order_cut =
      rw e (rw (drop_of_length eb.ring_head a (x ∷ b) l, take_of_length eb.ring_head a (x ∷ b) l))

  whole_ring : suc (length b) + length a ≡ eb.ring_size
  whole_ring = omega (arith, ap length e, length-append a (x ∷ b), v.sized)

  slots_late : slots (length a) (0 + suc (length b)) eb ≡ some a
  slots_late =
      let rounds : length a + 0 ≡ length a = omega arith in
      let piece : eb.ring ≡ [] ++ (a ++ x ∷ b) = e in
      rw (append-nil, rounds) at
        (slots_piece eb [] a (x ∷ b) [] 0 (0 + suc (length b)) piece v.sized
          (inr (omega (arith, whole_ring, l))) (slots_end eb (0 + suc (length b) + length a)))

  slots_cut : slots eb.ring_size 0 eb ≡ some ((x ∷ b) ++ a)
  slots_cut =
      let piece : eb.ring ≡ a ++ ((x ∷ b) ++ []) = rw append-nil e in
      rw whole_ring at (
        slots_piece eb a (x ∷ b) [] a (length a) 0 piece v.sized (inl (omega (arith, l)))
          slots_late)

  push_cut :
      (n : Event)
      → RingIsValid (after_push eb n) × (ring_order (after_push eb n) ≡ b ++ (a ++ n ∷ []))
  push_cut n = (
    record {
      sized = length-set eb.ring eb.ring_head n ∙ v.sized;
      head_in = mod-lt _ (omega (arith, v.head_in));
    },
    rw (e, sym l, set-append-length a x n b) (order_after a n b eb.ring_size (sym whole_ring)),
  )

  get_cut : get_elem? eb.ring eb.ring_head ≡ some x
  get_cut = rw (e, sym l) (get_elem?-append-length a x b)

-- The loop reads every slot once, oldest first, and never leaves the ring.
pub slots-ring_order :
    (eb : EventBus) → RingIsValid eb → slots eb.ring_size 0 eb ≡ some (ring_order eb)
slots-ring_order eb v =
    let (a, x, b, e, l) = split_at eb.ring eb.ring_head (omega (arith, v.sized, v.head_in)) in
    rw (ring_order_cut eb a x b v e l) (slots_cut eb a x b v e l)

push_ring-some :
    (eb : EventBus) (e old : Event)
    → get_elem? eb.ring eb.ring_head ≡ some old
    → push_ring eb e ≡ some (after_push eb e)
unfolding push_ring
push_ring-some eb e old h = rw (h, push_ring)

-- A push drops the oldest slot and appends the event.
pub push_ring-ring_order :
    (eb : EventBus) (e : Event)
    → RingIsValid eb
    → (push_ring eb e ≡ some (after_push eb e))
      × RingIsValid (after_push eb e)
      × (ring_order (after_push eb e) ≡ drop 1 (ring_order eb) ++ e ∷ [])
push_ring-ring_order eb e v =
    let (a, x, b, cut, l) = split_at eb.ring eb.ring_head (omega (arith, v.sized, v.head_in)) in
    let after = push_cut eb a x b v cut l e in
    (
      push_ring-some eb e x (get_cut eb a x b v cut l),
      after.0,
      rw (ring_order_cut eb a x b v cut l, append_assoc b a (e ∷ [])) after.1,
    )
