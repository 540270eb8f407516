-- ===== src/EventBus/Replay.antt =====
-- `ReplaySince` after any run of `Publish` calls on a new bus.
use tr_engine.Common.{
  ℕ, zero, suc, ◌+◌, ◌-◌, ◌≡◌, refl, sym, ◌∙◌, ◌≢◌, true, false, List, [], ◌∷◌, ◌++◌, some, Text,
  text_comparable, ◌==◌, arith, drop, replicate, keep,
}
use tr_engine.Common.Bytes.{text_same_iff}
use mathlib.Core.List.{append-nil}
use tr_engine.EventBus.Ids.{IdsFrom, Unseen, format_id-ne-nil}
use tr_engine.EventBus.Ring.{RingIsValid, ring_order, slots-ring_order}
use tr_engine.EventBus.{
  Event, EventFilter, EventBus, blank, scan_after, scan_all, replay_since, matches_filter,
}

abbrev pub matching : EventFilter → List Event → List Event
matching f = keep (λ e. matches_filter e f)

-- The first loop before the event that the client saw last, and behind it.
scan_after_found :
    (last : Text) (f : EventFilter) (es : List Event)
    → scan_after last f true es ≡ (true, scan_all f es)
unfolding scan_after scan_all
scan_after_found last f [] = refl
scan_after_found last f (e ∷ es) = ground (arith, scan_after_found last f es)

scan_after-Unseen :
    (last : Text) (f : EventFilter) (pre es : List Event)
    → Unseen last pre
    → scan_after last f false (pre ++ es) ≡ scan_after last f false es
unfolding scan_after
scan_after-Unseen last f [] es u = refl
scan_after-Unseen last f (p ∷ pre) es u =
    ground (arith, text_same_iff p.id last, scan_after-Unseen last f pre es u.1)

scan_after_hit :
    (f : EventFilter) (e : Event) (post : List Event)
    → e.id ≢ []
    → scan_after e.id f false (e ∷ post) ≡ (true, scan_all f post)
unfolding scan_after
scan_after_hit f e post h =
    ground (arith, text_same_iff e.id [], text_same_iff e.id e.id, scan_after_found e.id f post)

scan_after_end : (last : Text) (f : EventFilter) → scan_after last f false [] ≡ (false, [])
unfolding scan_after
scan_after_end last f = refl

scan_after_lost :
    (last : Text) (f : EventFilter) (es : List Event)
    → Unseen last es
    → scan_after last f false es ≡ (false, [])
scan_after_lost last f es u =
    rw append-nil at (scan_after-Unseen last f es [] u ∙ scan_after_end last f)

not_empty : (t : Text) → t ≢ [] → (t == []) ≡ false
not_empty t h = ground (arith, text_same_iff t [])

-- `ReplaySince` in its three cases, in terms of the slots.
module _ (eb : EventBus) (v : RingIsValid eb) (f : EventFilter) where
  pub replay_first : replay_since [] f eb ≡ some (scan_all f (ring_order eb))
  unfolding replay_since
  replay_first = rw (slots-ring_order eb v) (rw (scan_after_found [] f (ring_order eb)))

  pub replay_resume :
      (pre : List Event) (e : Event) (post : List Event)
      → ring_order eb ≡ pre ++ e ∷ post
      → e.id ≢ []
      → Unseen e.id pre
      → replay_since e.id f eb ≡ some (scan_all f post)
  unfolding replay_since
  replay_resume pre e post h some_id u =
      rw (slots-ring_order eb v, h)
        (rw (
          not_empty e.id some_id,
          scan_after-Unseen e.id f pre (e ∷ post) u,
          scan_after_hit f e post some_id,
        ))

  pub replay_lost :
      (last : Text)
      → last ≢ []
      → Unseen last (ring_order eb)
      → replay_since last f eb ≡ some (scan_all f (ring_order eb))
  unfolding replay_since
  replay_lost last some_id u =
      rw (slots-ring_order eb v)
        (rw (not_empty last some_id, scan_after_lost last f (ring_order eb) u))

module _ (f : EventFilter) where
  -- Slots that were never written are passed over.
  pub scan_all_blanks :
      (k n : ℕ) (es : List Event)
      → scan_all f (drop k (replicate n blank ++ es)) ≡ scan_all f (drop (k - n) es)
  unfolding scan_all
  scan_all_blanks zero zero es = refl
  scan_all_blanks zero (suc n) es =
      let same : 0 - n ≡ 0 = omega arith in
      let same' : 0 - suc n ≡ 0 = omega arith in rw same' (rw same at (scan_all_blanks zero n es))
  scan_all_blanks (suc k) zero es = let same : suc k - 0 ≡ suc k = omega arith in rw same
  scan_all_blanks (suc k) (suc n) es =
      let same : suc k - suc n ≡ k - n = omega arith in rw same (scan_all_blanks k n es)

  -- A published event has an id, so only the filter decides.
  pub scan_all-matching :
      (k s : ℕ) (es : List Event) → IdsFrom s es → scan_all f (drop k es) ≡ matching f (drop k es)
  unfolding scan_all
  scan_all-matching zero s [] d = refl
  scan_all-matching zero s (e ∷ es) d =
      rw (not_empty e.id (λ n. format_id-ne-nil d.0.0 (s + 1) (sym d.0.1 ∙ n)))
        (ground (arith, scan_all-matching zero (s + 1) es d.1))
  scan_all-matching (suc k) s [] d = refl
  scan_all-matching (suc k) s (e ∷ es) d = scan_all-matching k (s + 1) es d.1

pub Unseen-drop : (t : Text) (k : ℕ) (es : List Event) → Unseen t es → Unseen t (drop k es)
Unseen-drop t zero es u = u
Unseen-drop t (suc k) [] u = tt
Unseen-drop t (suc k) (e ∷ es) u = Unseen-drop t k es u.1

pub Unseen-blanks : (t : Text) (n : ℕ) → t ≢ [] → Unseen t (replicate n blank)
Unseen-blanks t zero h = tt
Unseen-blanks t (suc n) h = ((λ e. h (sym e)), Unseen-blanks t n h)
