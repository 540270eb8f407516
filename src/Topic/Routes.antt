-- ===== src/Topic/Routes.antt =====
-- Which topics are unit events, and which are trunking messages.
use tr_engine.Common.{
  ◌≡◌, ◌↔◌, refl, sym, ap, ◌∙◌, Bool, true, false, not, Option, none, some, inl, inr, List, [], ◌∷◌,
  ◌++◌, Text, bytes, ◌==◌, ◌&&◌, nat_comparable, text_comparable, Lacks, arith, Bool-cases, all_of,
}
use tr_engine.Common.Bytes.{text_same_iff}
use tr_engine.Common.Split.{is_one_of}
use tr_engine.Topic.{Route, feed_handlers, unit_events, by_last, by_segments, parse_topic}
use tr_engine.Topic.Segments.{parse_topic_suffix}

is_one_of-all_of :
    (p : Text → Bool) (names : List Text) (t : Text)
    → all_of p names ≡ true
    → is_one_of names t ≡ true
    → p t ≡ true
unfolding is_one_of
is_one_of-all_of p [] t a h = absurd (cc (h))
is_one_of-all_of p (name ∷ names) t a h = elim (Bool-cases (t == name)) [
  | inl e ↦ ap p ((text_same_iff t name).0 e) ∙ ground (arith, a)
  | inr e ↦ is_one_of-all_of p names t (ground (arith, a)) (rw e at h)
]

-- A name that no branch before the unit events takes.
abbrev plain : Text → Bool
plain t =
    not (is_one_of feed_handlers t)
    && not (t == bytes "message")
    && not (t == bytes "dvcf")
    && not (t == bytes "status")
    && not (t == bytes "console")

unit_events-plain : (t : Text) → is_one_of unit_events t ≡ true → plain t ≡ true
unfolding is_one_of
unit_events-plain t h = is_one_of-all_of plain unit_events t refl h

plain_route :
    (name last : Text)
    → plain last ≡ true
    → is_one_of unit_events last ≡ true
    → by_segments name last
      ≡ some (record { handler = bytes "unit_event"; sys_name = name; event_type = last })
unfolding by_segments by_last
plain_route name last p u =
    let a : is_one_of feed_handlers last ≡ false = ground (arith, p) in
    let b : (last == bytes "message") ≡ false = ground (arith, p) in
    let c : (last == bytes "dvcf") ≡ false = ground (arith, p) in
    let d : (name == bytes "trunk_recorder" && last == bytes "status") ≡ false =
      ground (arith, p) in
    let e : (name == bytes "trunk_recorder" && last == bytes "console") ≡ false =
      ground (arith, p) in
    rw (d, e, a, b, c, u) refl

abbrev event_of : Option Route → Text
event_of none = []
event_of (some r) = r.event_type

other_route :
    (name last : Text) → is_one_of unit_events last ≡ false → event_of (by_segments name last) ≡ []
unfolding by_segments by_last
other_route name last u =
    elim (Bool-cases (name == bytes "trunk_recorder" && last == bytes "status")) [
      | inl d ↦ rw d refl
      | inr d ↦ elim (Bool-cases (name == bytes "trunk_recorder" && last == bytes "console")) [
        | inl e ↦ rw (d, e) refl
        | inr e ↦ elim (Bool-cases (is_one_of feed_handlers last)) [
          | inl a ↦ rw (d, e, a) refl
          | inr a ↦ elim (Bool-cases (last == bytes "message")) [
            | inl b ↦ rw (d, e, a, b) refl
            | inr b ↦ elim (Bool-cases (last == bytes "dvcf")) [
              | inl c ↦ rw (d, e, a, b, c) refl
              | inr c ↦ rw (d, e, a, b, c, u) refl
            ]
          ]
        ]
      ]
    ]

no_last : (name : Text) → by_segments name [] ≡ none
unfolding by_segments by_last is_one_of
no_last name = elim (Bool-cases (name == bytes "trunk_recorder")) [
  | inl e ↦ rw e refl
  | inr e ↦ rw e refl
]

unit_event_only :
    (name last : Text)
    → by_segments name last
      ≡ some (record { handler = bytes "unit_event"; sys_name = name; event_type = last })
    → is_one_of unit_events last ≡ true
unit_event_only name last h = elim (Bool-cases (is_one_of unit_events last)) [
  | inl u ↦ u
  | inr u ↦
      let empty : last ≡ [] = sym (ap event_of h) ∙ other_route name last u in
      absurd (cc (sym (no_last name) ∙ ap (by_segments name) (sym empty) ∙ h))
]

-- A topic whose last two segments are a name and a last part, behind any prefix, is routed as a unit
-- event of that system with that type if and only if the last part is one of the ten event types.
pub parse_topic_unit_event_iff :
    (prefix name last : Text)
    → Lacks 47 name
    → Lacks 47 last
    → (parse_topic (prefix ++ 47 ∷ (name ++ 47 ∷ last))
        ≡ some (record { handler = bytes "unit_event"; sys_name = name; event_type = last }))
      ↔ (is_one_of unit_events last ≡ true)
parse_topic_unit_event_iff prefix name last h g =
    let route = (parse_topic_suffix prefix name last h g).0 in
    (
      (λ e. unit_event_only name last (sym route ∙ e)),
      (λ u. route ∙ plain_route name last (unit_events-plain last u) u),
    )
