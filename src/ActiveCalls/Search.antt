-- ===== src/ActiveCalls/Search.antt =====
-- `FindByTgidAndTime` returns the best candidate, whatever the order of the map.
use tr_engine.Common.{
  ℕ, ◌≤◌, ◌<◌, ◌≡◌, refl, sym, ap, ◌∙◌, ◌↔◌, ◌⊎◌, inl, inr, Bool, true, false, not, ◌&&◌, [], ◌∷◌,
  ◌==◌, nat_comparable, Text, arith, if◌then◌else◌, ltb, leb, Bool-cases, subst,
}
use tr_engine.ActiveCalls.{
  Call, Calls, abs_diff, Best, initial, is_better, consider, search_from, find_by_tgid_and_time,
}

-- The map has this entry.
abbrev pub Has : Text → Call → Calls → Type 0
Has id c [] = ⊥
Has id c ((i, d) ∷ m) = ((i ≡ id) × (d ≡ c)) ⊎ Has id c m

-- A start at or before the time is preferred to a later one, and of two on the same side the
-- nearer one is.
abbrev pub Preferred : ℕ → ℕ → ℕ → Type 0
Preferred start c d =
    ((c ≤ start) × ((start < d) ⊎ (d ≤ c))) ⊎ ((start < c) × (start < d) × (c ≤ d))

Preferred-refl : (start c : ℕ) → Preferred start c c
Preferred-refl start c = ground arith

Preferred-trans :
    (start b c d : ℕ) → Preferred start b c → Preferred start c d → Preferred start b d
Preferred-trans start b c d p q = ground arith

-- The code's test on two start times.
abbrev nearer : ℕ → ℕ → ℕ → Bool
nearer start c b =
    if leb c start && not (leb b start)
    then true
    else (if (if leb c start then leb b start else not (leb b start))
        then ltb (abs_diff c start) (abs_diff b start)
        else false)

nearer-Preferred : (start c b : ℕ) → nearer start c b ≡ true → Preferred start c b
nearer-Preferred start c b h = ground arith

not_nearer-Preferred : (start c b : ℕ) → nearer start c b ≡ false → Preferred start b c
not_nearer-Preferred start c b h = ground arith

module _ (tgid start tolerance : ℕ) where
  -- A call on the talkgroup that started within the tolerance.
  abbrev pub Candidate : Call → Type 0
  Candidate c = (c.tgid ≡ tgid) × (abs_diff c.start_time start ≤ tolerance)

  abbrev pub NoWorse : Call → Call → Type 0
  NoWorse c d = Preferred start c.start_time d.start_time

  -- What the search knows after some rounds: nothing fits yet, or the best so far.
  pub data Known (best : Best) (seen : Text → Call → Type 0) : Type 0 where
    nothing :
        best ≡ initial tgid start tolerance
        → ((id : Text) (c : Call) → seen id c → ¬ Candidate c)
        → Known best seen
    found :
        seen best.key best.call
        → Candidate best.call
        → best.diff ≡ abs_diff best.call.start_time start
        → best.before_or_at ≡ leb best.call.start_time start
        → ((id : Text) (c : Call) → seen id c → Candidate c → NoWorse best.call c)
        → Known best seen

  -- The rounds so far, and one more.
  abbrev Seen : (Text → Call → Type 0) → Text → Call → Text → Call → Type 0
  Seen seen id c i d = seen i d ⊎ ((id ≡ i) × (c ≡ d))

  is_candidate : Call → Bool
  is_candidate c = (c.tgid == tgid) && not (ltb tolerance (abs_diff c.start_time start))

  Candidate-iff : (c : Call) → (is_candidate c ≡ true) ↔ Candidate c
  unfolding is_candidate
  Candidate-iff c = ground arith

  skipped :
      (best : Best) (id : Text) (c : Call)
      → is_candidate c ≡ false
      → consider tgid start tolerance best id c ≡ best
  unfolding is_candidate consider
  skipped best id c h = ground arith

  weighed :
      (best : Best) (id : Text) (c : Call)
      → is_candidate c ≡ true
      → consider tgid start tolerance best id c ≡ (
          if is_better tgid start tolerance c best
          then record {
            key = id;
            call = c;
            diff = abs_diff c.start_time start;
            before_or_at = leb c.start_time start;
          }
          else best)
  unfolding is_candidate consider
  weighed best id c h = ground arith

  -- A round that passes the call over.
  skip-Known :
      (best : Best) (seen : Text → Call → Type 0) (id : Text) (c : Call)
      → ¬ Candidate c
      → Known best seen
      → Known best (Seen seen id c)
  skip-Known best seen id c bad (nothing e none) = nothing e (λ i d.
      λ h. elim h [ inl old ↦ none i d old | inr new ↦ subst (λ x. ¬ Candidate x) new.1 bad ])
  skip-Known best seen id c bad (found s k d b best_of) = found (inl s) k d b (λ i x h fits.
      elim h [
        | inl old ↦ best_of i x old fits
        | inr new ↦ absurd (bad (subst Candidate (sym new.1) fits))
      ])

  -- The call becomes the best.
  take-Known :
      (best : Best) (seen : Text → Call → Type 0) (id : Text) (c : Call)
      → Candidate c
      → ((i : Text) (x : Call) → seen i x → Candidate x → NoWorse c x)
      → Known
          (record {
            key = id;
            call = c;
            diff = abs_diff c.start_time start;
            before_or_at = leb c.start_time start;
          })
          (Seen seen id c)
  take-Known best seen id c fits over = found (inr (refl, refl)) fits refl refl (λ i x h fit.
      elim h [
        | inl old ↦ over i x old fit
        | inr new ↦ subst (λ y. NoWorse c y) new.1 (Preferred-refl start c.start_time)
      ])

  better_initial :
      (c : Call)
      → Candidate c
      → is_better tgid start tolerance c (initial tgid start tolerance) ≡ true
  unfolding initial
  better_initial c h = ground arith

  better_nearer :
      (c : Call) (best : Best)
      → best.diff ≡ abs_diff best.call.start_time start
      → best.before_or_at ≡ leb best.call.start_time start
      → is_better tgid start tolerance c best ≡ nearer start c.start_time best.call.start_time
  better_nearer c best d b = rw (d, b)

  weigh-Known :
      (best : Best) (seen : Text → Call → Type 0) (id : Text) (c : Call)
      → Candidate c
      → Known best seen
      → Known
          (if is_better tgid start tolerance c best
            then record {
              key = id;
              call = c;
              diff = abs_diff c.start_time start;
              before_or_at = leb c.start_time start;
            }
            else best)
          (Seen seen id c)
  weigh-Known best seen id c fits (nothing e none) =
      rw (ap (is_better tgid start tolerance c) e ∙ better_initial c fits)
        (take-Known best seen id c fits (λ i x old fit. absurd (none i x old fit)))
  weigh-Known best seen id c fits (found s k d b best_of) =
      elim (Bool-cases (nearer start c.start_time best.call.start_time)) [
        | inl near ↦ rw (better_nearer c best d b ∙ near) (
            take-Known best seen id c fits (λ i x old fit.
              Preferred-trans start c.start_time best.call.start_time x.start_time
                (nearer-Preferred start c.start_time best.call.start_time near)
                (best_of i x old fit)))
        | inr far ↦ rw (better_nearer c best d b ∙ far) (
            found (inl s) k d b (λ i x h fit. elim h [
              | inl old ↦ best_of i x old fit
              | inr new ↦
                  subst (λ y. NoWorse best.call y) new.1
                    (not_nearer-Preferred start c.start_time best.call.start_time far)
            ]))
      ]

  consider-Known :
      (best : Best) (seen : Text → Call → Type 0) (id : Text) (c : Call)
      → Known best seen
      → Known (consider tgid start tolerance best id c) (Seen seen id c)
  consider-Known best seen id c v = elim (Bool-cases (is_candidate c)) [
    | inl fits ↦
        rw (weighed best id c fits) (weigh-Known best seen id c ((Candidate-iff c).0 fits) v)
    | inr misses ↦
        rw (skipped best id c misses)
          (skip-Known best seen id c (λ fits. absurd (true_false fits misses)) v)
  ]
    where
      true_false : Candidate c → is_candidate c ≡ false → ⊥
      true_false fits misses = cc ((Candidate-iff c).1 fits)

  -- The rounds that are left.
  abbrev Later : (Text → Call → Type 0) → Calls → Text → Call → Type 0
  Later seen m i d = seen i d ⊎ Has i d m

  Known_same :
      (best : Best) (seen seen' : Text → Call → Type 0)
      → ((i : Text) (d : Call) → seen i d → seen' i d)
      → ((i : Text) (d : Call) → seen' i d → seen i d)
      → Known best seen
      → Known best seen'
  Known_same best seen seen' to from (nothing e none) = nothing e (λ i d h. none i d (from i d h))
  Known_same best seen seen' to from (found s k d b best_of) =
      found (to best.key best.call s) k d b (λ i x h fit. best_of i x (from i x h) fit)

  search-Known :
      (best : Best) (seen : Text → Call → Type 0) (m : Calls)
      → Known best seen
      → Known (search_from tgid start tolerance best m) (Later seen m)
  unfolding search_from
  search-Known best seen [] v =
      Known_same best seen (Later seen []) (λ i d h. inl h)
        (λ i d h. elim h [ inl s ↦ s | inr n ↦ absurd n ]) v
  search-Known best seen ((id, c) ∷ m) v =
      Known_same _ (Later (Seen seen id c) m) (Later seen ((id, c) ∷ m)) (λ i d h. regroup i d h)
        (λ i d h. regroup' i d h)
        (search-Known (consider tgid start tolerance best id c) (Seen seen id c) m
          (consider-Known best seen id c v))
    where
      regroup : (i : Text) (d : Call) → Later (Seen seen id c) m i d → Later seen ((id, c) ∷ m) i d
      regroup i d (inl (inl s)) = inl s
      regroup i d (inl (inr n)) = inr (inl n)
      regroup i d (inr h) = inr (inr h)

      regroup' : (i : Text) (d : Call) → Later seen ((id, c) ∷ m) i d → Later (Seen seen id c) m i d
      regroup' i d (inl s) = inl (inl s)
      regroup' i d (inr (inl n)) = inl (inr n)
      regroup' i d (inr (inr h)) = inr h

  best_known :
      (m : Calls)
      → Known (search_from tgid start tolerance (initial tgid start tolerance) m) (λ i d. Has i d m)
  best_known m =
      Known_same _ (Later (λ i d. ⊥) m) (λ i d. Has i d m)
        (λ i d h. elim h [ inl n ↦ absurd n | inr s ↦ s ]) (λ i d h. inr h)
        (search-Known (initial tgid start tolerance) (λ i d. ⊥) m
          (nothing refl (λ i d h. absurd h)))

  hit :
      (best : Best) (m : Calls) (id : Text) (c : Call)
      → Known best (λ i d. Has i d m)
      → Has id c m
      → Candidate c
      → (leb best.diff tolerance ≡ true)
        × Has best.key best.call m
        × Candidate best.call
        × NoWorse best.call c
  hit best m id c (nothing e none) has fits = absurd (none id c has fits)
  hit best m id c (found s k d b best_of) has fits =
      (rw d (ground arith), s, k, best_of id c has fits)

  too_far : (best : Best) → best ≡ initial tgid start tolerance → leb best.diff tolerance ≡ true → ⊥
  unfolding initial
  too_far best e h = ground (arith, ap (λ b. b.diff) e)

  sound :
      (best : Best) (m : Calls)
      → Known best (λ i d. Has i d m)
      → leb best.diff tolerance ≡ true
      → Has best.key best.call m × Candidate best.call
  sound best m (nothing e none) h = absurd (too_far best e h)
  sound best m (found s k d b best_of) h = (s, k)

  -- If any call in the map is on the talkgroup and started within the tolerance of the time, the
  -- search reports one that is, under its own key, and that call is preferred to it: a start at or
  -- before the time beats a later one, and on the same side the nearer start wins. So it does in
  -- whatever order the map is visited.
  pub find_by_tgid_and_time_best :
      (m : Calls) (id : Text) (c : Call)
      → Has id c m
      → Candidate c
      → let (key, call, ok) = find_by_tgid_and_time tgid start tolerance m in
        (ok ≡ true) × Has key call m × Candidate call × NoWorse call c
  unfolding find_by_tgid_and_time
  find_by_tgid_and_time_best m id c has fits = hit _ m id c (best_known m) has fits

  -- The search reports a call only if that call stands in the map under the key that it returns,
  -- is on the talkgroup and started within the tolerance of the time.
  pub find_by_tgid_and_time_sound :
      (m : Calls) (key : Text) (call : Call)
      → find_by_tgid_and_time tgid start tolerance m ≡ (key, call, true)
      → Has key call m × Candidate call
  unfolding find_by_tgid_and_time
  find_by_tgid_and_time_sound m key call h =
      let (has, fits) = sound _ m (best_known m) (ap (λ r. r.2) h) in
      (
        subst (λ k. Has k call m) (ap (λ r. r.0) h)
            (subst
              (λ c. Has (search_from tgid start tolerance (initial tgid start tolerance) m).key c m)
              (ap (λ r. r.1) h) has),
        subst Candidate (ap (λ r. r.1) h) fits,
      )
