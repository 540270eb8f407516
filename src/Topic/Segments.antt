-- ===== src/Topic/Segments.antt =====
-- The prefix of a topic does not matter.
use tr_engine.Common.{
  ℕ, ◌≡◌, refl, ap, ◌∙◌, none, some, inl, inr, List, [], ◌∷◌, ◌++◌, Text, ◌==◌, nat_comparable,
  Lacks, arith, Bool-cases,
}
use tr_engine.Common.Split.{split}
use tr_engine.Topic.{last_two, by_segments, route_of, parse_topic}

split-Lacks : (sep : ℕ) (t : Text) → Lacks sep t → split sep t ≡ t ∷ []
unfolding split
split-Lacks sep [] h = refl
split-Lacks sep (c ∷ t) h = ground (arith, h.0, split-Lacks sep t h.1)

-- The segments of a text without the separator, and of what stands behind it.
split-segment : (sep : ℕ) (s t : Text) → Lacks sep s → split sep (s ++ sep ∷ t) ≡ s ∷ split sep t
unfolding split
split-segment sep [] t h = ground arith
split-segment sep (c ∷ s) t h = ground (arith, h.0, split-segment sep s t h.1)

-- Whatever stands before a separator, only whole segments come before those behind it.
split-behind :
    (sep : ℕ) (p t : Text)
    → (a : Text) × (rest : List Text) × (split sep (p ++ sep ∷ t) ≡ a ∷ (rest ++ split sep t))
unfolding split
split-behind sep [] t = ([], [], ground arith)
split-behind sep (c ∷ p) t =
    let (a, rest, q) = split-behind sep p t in
    elim (Bool-cases (c == sep)) [
      | inl e ↦ ([], a ∷ rest, rw (e, q) refl)
      | inr e ↦ (c ∷ a, rest, rw (e, q) refl)
    ]

last_two-behind : (xs : List Text) (a b : Text) → last_two (xs ++ a ∷ b ∷ []) ≡ some (a, b)
unfolding last_two
last_two-behind [] a b = refl
last_two-behind (x ∷ []) a b = refl
last_two-behind (x ∷ y ∷ []) a b = refl
last_two-behind (x ∷ y ∷ z ∷ xs) a b = last_two-behind (y ∷ z ∷ xs) a b

-- The two segments that end a topic.
split_end :
    (p s t : Text)
    → Lacks 47 s
    → Lacks 47 t
    → last_two (split 47 (p ++ 47 ∷ (s ++ 47 ∷ t))) ≡ some (s, t)
split_end p s t h g =
    let (a, rest, q) = split-behind 47 p (s ++ 47 ∷ t) in
    let two : split 47 (s ++ 47 ∷ t) ≡ s ∷ t ∷ [] =
      split-segment 47 s t h ∙ ap (◌∷◌ s) (split-Lacks 47 t g) in
    ap last_two (q ∙ ap (λ r. a ∷ (rest ++ r)) two) ∙ last_two-behind (a ∷ rest) s t

split_whole :
    (s t : Text) → Lacks 47 s → Lacks 47 t → last_two (split 47 (s ++ 47 ∷ t)) ≡ some (s, t)
split_whole s t h g =
    ap last_two (split-segment 47 s t h ∙ ap (◌∷◌ s) (split-Lacks 47 t g)) ∙ last_two-behind [] s t

-- A topic goes where its last two segments say, whatever stands before them, and a topic of one
-- segment goes nowhere.
pub parse_topic_suffix :
    (prefix name last : Text)
    → Lacks 47 name
    → Lacks 47 last
    → (parse_topic (prefix ++ 47 ∷ (name ++ 47 ∷ last)) ≡ by_segments name last)
      × (parse_topic (name ++ 47 ∷ last) ≡ by_segments name last)
      × (parse_topic last ≡ none)
unfolding parse_topic last_two
parse_topic_suffix prefix name last h g = (
  ap route_of (split_end prefix name last h g),
  ap route_of (split_whole name last h g),
  ap (λ parts. route_of (last_two parts)) (split-Lacks 47 last g),
)
