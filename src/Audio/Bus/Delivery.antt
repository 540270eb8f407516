-- ===== src/Audio/Bus/Delivery.antt =====
-- Which frames a subscriber gets.
use tr_engine.Common.{
  ℕ, ◌≡◌, ◌↔◌, ◌⊎◌, refl, ap, ◌∙◌, true, some, inl, inr, List, [], ◌∷◌, ◌++◌, nat_comparable, arith,
  ◌<◌, ◌≤◌, ltb, ltb→lt, length, length-append, Bool-cases,
}
use tr_engine.Common.Map.{lookup, lookup-map_values, map_option}
use tr_engine.Audio.{AudioFrame}
use tr_engine.Audio.Bus.{
  AudioFilter, AudioSubscriber, AudioBus, is_listed, passes, matches_audio_filter, send, publish,
  audio_subscriber_buffer,
}

abbrev pub Listed : ℕ → List ℕ → Type 0
Listed n [] = ⊥
Listed n (id ∷ ids) = (n ≡ id) ⊎ Listed n ids

-- The frame is wanted in one dimension: nothing is asked, or its id is listed.
abbrev pub Wants : ℕ → List ℕ → Type 0
Wants n ids = (ids ≡ []) ⊎ Listed n ids

is_listed-Listed : (n : ℕ) (ids : List ℕ) → (is_listed n ids ≡ true) ↔ Listed n ids
unfolding is_listed
is_listed-Listed n [] = (λ h. absurd (cc (h)), λ h. absurd h)
is_listed-Listed n (id ∷ ids) = ground (arith, is_listed-Listed n ids)

passes-Wants : (n : ℕ) (ids : List ℕ) → (passes n ids ≡ true) ↔ Wants n ids
unfolding passes
passes-Wants n [] = (λ h. inl refl, λ h. refl)
passes-Wants n (id ∷ ids) = (
  (λ h. inr ((is_listed-Listed n (id ∷ ids)).0 h)),
  (λ h. elim h [ inl e ↦ absurd (cc (e)) | inr l ↦ (is_listed-Listed n (id ∷ ids)).1 l ]),
)

-- A frame passes a filter if and only if each of the two lists is empty or has the frame's id.
pub matches_audio_filter_iff :
    (frame : AudioFrame) (f : AudioFilter)
    → (matches_audio_filter frame f ≡ true)
      ↔ (Wants frame.system_id f.system_ids × Wants frame.tgid f.tgids)
unfolding matches_audio_filter
matches_audio_filter_iff frame f = (
  (λ h. (
    (passes-Wants frame.system_id f.system_ids).0 (ground (arith, h)),
    (passes-Wants frame.tgid f.tgids).0 (ground (arith, h)),
  )),
  (λ w. ground (
    arith,
    (passes-Wants frame.system_id f.system_ids).1 w.0,
    (passes-Wants frame.tgid f.tgids).1 w.1,
  )),
)

-- What a subscriber is after a frame: with the frame at the end of the channel, if it wants it and
-- there is room; else as it was.
abbrev pub Delivery : AudioFrame → AudioSubscriber → AudioSubscriber → Type 0
Delivery frame sub sub' =
    (Wants frame.system_id sub.filter.system_ids
      × Wants frame.tgid sub.filter.tgids
      × (length sub.waiting < audio_subscriber_buffer)
      × (sub' ≡ record sub { waiting = sub.waiting ++ frame ∷ [] }))
    ⊎ (((¬ (Wants frame.system_id sub.filter.system_ids × Wants frame.tgid sub.filter.tgids))
          ⊎ (audio_subscriber_buffer ≤ length sub.waiting))
        × (sub' ≡ sub))

send-Delivery : (frame : AudioFrame) (sub : AudioSubscriber) → Delivery frame sub (send frame sub)
unfolding send
send-Delivery frame sub = elim (Bool-cases (matches_audio_filter frame sub.filter)) [
  | inr m ↦
      let unwanted : ¬ (
          Wants frame.system_id sub.filter.system_ids × Wants frame.tgid sub.filter.tgids) =
        λ w. absurd (ground (arith, m, (matches_audio_filter_iff frame sub.filter).1 w)) in
      rw m (inr (inl unwanted, refl))
  | inl m ↦ elim (Bool-cases (ltb (length sub.waiting) audio_subscriber_buffer)) [
    | inr r ↦ rw (m, r) (inr (inr (ground (arith, r)), refl))
    | inl r ↦
        let wants = (matches_audio_filter_iff frame sub.filter).0 m in
        rw (m, r) (inl (wants.0, wants.1, ltb→lt _ _ r, refl))
  ]
]

-- Publish gives the frame to each subscriber that wants it and has room for it, behind the frames
-- that wait already, and changes nothing else of it; a subscriber that does not want it, or has no
-- room, stays as it was. It wants the frame if each of its two lists is empty or has the frame's id.
-- A channel with at most 256 frames stays so.
pub publish-Delivery :
    (frame : AudioFrame) (bus : AudioBus) (id : ℕ) (sub : AudioSubscriber)
    → lookup id bus.subscribers ≡ some sub
    → length sub.waiting ≤ audio_subscriber_buffer
    → (sub' : AudioSubscriber) × (lookup id (publish frame bus).subscribers ≡ some sub')
      × Delivery frame sub sub'
      × (length sub'.waiting ≤ audio_subscriber_buffer)
unfolding publish
publish-Delivery frame bus id sub h room = (
  send frame sub,
  lookup-map_values _ id bus.subscribers ∙ ap (map_option (send frame)) h,
  send-Delivery frame sub,
  bounded (send frame sub) (send-Delivery frame sub),
)
  where
    bounded :
        (sub' : AudioSubscriber)
        → Delivery frame sub sub'
        → length sub'.waiting ≤ audio_subscriber_buffer
    bounded sub' (inl (s, t, free, e)) =
        let longer = ap (λ u. length u.waiting) e ∙ length-append sub.waiting (frame ∷ []) in
        ground (arith, longer, free)
    bounded sub' (inr (why, e)) = ground (arith, ap (λ u. length u.waiting) e, room)
