-- ===== src/EventBus/Resume.antt =====
-- What a client that reconnects receives, after any run of `Publish` calls on a new bus.
use tr_engine.Common.{
  ℕ, suc, ◌+◌, ◌-◌, ◌^◌, ◌≤◌, ◌<◌, ◌≡◌, refl, sym, ap, ◌∙◌, ◌≢◌, subst, List, [], ◌∷◌, ◌++◌, some,
  arith, length, drop, replicate, ltb, last_n, length-append, length-replicate, if◌then◌else◌, inl,
  inr, Bool-cases, drop-append_le, drop-append_ge,
}
use mathlib.Core.List.{append_assoc, append-nil}
use mathlib.Core.Option.{some-injective}
use tr_engine.EventBus.Ids.{
  IdsFrom, Unseen, Unseen-append, Unseen-before, Unseen-behind, IdsFrom-append, format_id-ne-nil,
}
use tr_engine.EventBus.Ring.{RingIsValid, ring_order}
use tr_engine.EventBus.Run.{Feed, publish_all, published, publish_all-ring_order, published-IdsFrom}
use tr_engine.EventBus.Replay.{
  matching, replay_first, replay_resume, replay_lost, scan_all_blanks, scan_all-matching,
  Unseen-drop, Unseen-blanks,
}
use tr_engine.EventBus.{Event, EventFilter, EventBus, blank, new_event_bus, scan_all, replay_since}

pub new_event_bus-RingIsValid : (n : ℕ) → 0 < n → RingIsValid (new_event_bus n)
unfolding new_event_bus
new_event_bus-RingIsValid n h = record { sized = length-replicate n blank; head_in = h }

ring_order-new : (n : ℕ) → ring_order (new_event_bus n) ≡ replicate n blank
unfolding new_event_bus
ring_order-new n = append-nil (replicate n blank)

seq-new : (n : ℕ) → (new_event_bus n).seq ≡ 0
unfolding new_event_bus
seq-new n = refl

module _ (n : ℕ) (ds : Feed) (f : EventFilter) {eb : EventBus} (sized : 0 < n)
    (fits : length ds < 2 ^ 64) (run : publish_all ds (new_event_bus n) ≡ some eb) where
  ring_after :
      RingIsValid eb
      × (ring_order eb ≡ drop (length (published ds 0)) (replicate n blank ++ published ds 0))
  ring_after =
      let (eb', run', valid, order) =
        publish_all-ring_order ds (new_event_bus n) (new_event_bus-RingIsValid n sized) in
      subst
        (λ b.
          RingIsValid b
          × (ring_order b ≡ drop (length (published ds 0)) (replicate n blank ++ published ds 0)))
        (some-injective eb' eb (sym run' ∙ run)) (valid, rw (ring_order-new n, seq-new n) at order)

  ids : IdsFrom 0 (published ds 0)
  ids = published-IdsFrom ds 0 (omega (arith, fits))

  -- All that the ring holds is the last `n` events.
  scan_all-last_n : scan_all f (ring_order eb) ≡ matching f (last_n n (published ds 0))
  scan_all-last_n =
      rw (ring_after.1, scan_all_blanks f (length (published ds 0)) n (published ds 0))
        (scan_all-matching f (length (published ds 0) - n) 0 (published ds 0) ids)

  -- A client with no last event id receives those of the last `n` events that pass its filter.
  pub replay_since-connect : replay_since [] f eb ≡ some (matching f (last_n n (published ds 0)))
  replay_since-connect = rw (← scan_all-last_n) (replay_first eb ring_after.0 f)

  module _ (pre : List Event) (e : Event) (post : List Event)
      (split : published ds 0 ≡ pre ++ e ∷ post) where
    split_ids : IdsFrom 0 pre × IdsFrom (length pre) (e ∷ post)
    split_ids =
        let (front, back) = IdsFrom-append 0 pre (e ∷ post) (subst (IdsFrom 0) split ids) in
        let same : 0 + length pre ≡ length pre = omega arith in (front, rw same at back)

    e_named : e.id ≢ []
    e_named h = format_id-ne-nil split_ids.1.0.0 (length pre + 1) (sym split_ids.1.0.1 ∙ h)

    Unseen-earlier : Unseen e.id pre
    Unseen-earlier =
        subst (λ t. Unseen t pre) (sym split_ids.1.0.1)
          (Unseen-before split_ids.1.0.0 (length pre + 1) 0 pre split_ids.0 (omega arith))

    Unseen-later : Unseen e.id post
    Unseen-later =
        subst (λ t. Unseen t post) (sym split_ids.1.0.1)
          (Unseen-behind split_ids.1.0.0 (length pre + 1) (length pre + 1) post split_ids.1.1
            (omega arith))

    scan_post : scan_all f post ≡ matching f post
    scan_post = scan_all-matching f 0 (length pre + 1) post split_ids.1.1

    count : length (published ds 0) ≡ length pre + suc (length post)
    count = ap length split ∙ length-append pre (e ∷ post)

    -- The slots up to `e`, those that were never written included.
    abbrev front : List Event
    front = replicate n blank ++ pre

    length-front : length front ≡ n + length pre
    length-front = omega (arith, length-append (replicate n blank) pre, length-replicate n blank)

    Unseen-front : Unseen e.id front
    Unseen-front =
        Unseen-append e.id (replicate n blank) pre (Unseen-blanks e.id n e_named) Unseen-earlier

    regrouped : ring_order eb ≡ drop (length (published ds 0)) (front ++ e ∷ post)
    regrouped =
        ring_after.1
        ∙ ap (λ es. drop (length (published ds 0)) (replicate n blank ++ es)) split
        ∙ ap (drop (length (published ds 0)))
            (sym (append_assoc (replicate n blank) pre (e ∷ post)))

    resume_kept : length post < n → replay_since e.id f eb ≡ some (matching f post)
    resume_kept h = rw (← scan_post) (
        replay_resume eb ring_after.0 f (drop (length (published ds 0)) front) e post
          (regrouped
            ∙ drop-append_le (length (published ds 0)) front (e ∷ post)
                (omega (arith, count, length-front)))
          e_named (Unseen-drop e.id (length (published ds 0)) front Unseen-front))

    resume_lost :
        n ≤ length post → replay_since e.id f eb ≡ some (matching f (last_n n (published ds 0)))
    resume_lost h = rw (← scan_all-last_n) (
        replay_lost eb ring_after.0 f e.id e_named
          (subst (Unseen e.id) (sym tail_only) unseen_tail))
      where
        left : ℕ
        left = length post - n

        past : length (published ds 0) - length front ≡ suc left
        past = omega (arith, count, length-front)

        tail_only : ring_order eb ≡ drop left post
        tail_only =
            regrouped
            ∙ drop-append_ge (length (published ds 0)) front (e ∷ post)
                (omega (arith, count, length-front))
            ∙ ap (λ k. drop k (e ∷ post)) past

        unseen_tail : Unseen e.id (drop left post)
        unseen_tail = Unseen-drop e.id left post Unseen-later

    -- A client that last saw the event `e` receives, in order, the later events that pass its
    -- filter, if fewer than `n` events came later; otherwise it receives those of the last `n`.
    pub replay_since-resume :
        replay_since e.id f eb
        ≡ some (matching f (if ltb (length post) n then post else last_n n (published ds 0)))
    replay_since-resume = elim (Bool-cases (ltb (length post) n)) [
      | inl kept ↦ rw kept (resume_kept (ground arith))
      | inr lost ↦ rw lost (resume_lost (ground arith))
    ]
