-- ===== src/Workers/Performance.antt =====
-- The performance ring against the list of all completions.
use tr_engine.Common.{
  ◌+◌, ◌-◌, ◌%◌, ◌≤◌, ◌<◌, ◌≡◌, refl, sym, ap, ◌∙◌, List, [], ◌∷◌, ◌++◌, ltb, min, arith,
  Bool-cases, inl, inr, length, set, take, drop, replicate, last_n, length-append, length-set,
  length-drop, drop-append_le, drop-append_ge, drop-drop,
}
use mathlib.Core.List.{append_assoc, append-nil}
use native.Mathlib.Nat.{mod-eq_of_lt, mod-lt}
use tr_engine.Common.Rings.{order_of, push-order_of, drop_of_length}
use tr_engine.Workers.{
  CompletionRecord, PerfRing, perf_ring_size, no_completion, new_perf_ring, push, snapshot,
}

unfoldable pub push_all : List CompletionRecord → PerfRing → PerfRing
push_all [] r = r
push_all (rec ∷ recs) r = push_all recs (push rec r)

-- The ring after the completions `done`, over the blanks that it began with.
record IsRingOf (blanks done : List CompletionRecord) (r : PerfRing) : Type 0 where
  sized : length r.buf ≡ perf_ring_size
  inside : r.pos < perf_ring_size
  ordered : order_of r.buf r.pos ≡ drop (length done) (blanks ++ done)
  counted : r.count ≡ min perf_ring_size (length done)
  filling : length done < perf_ring_size → r.pos ≡ length done

module _ (blanks : List CompletionRecord) (full : length blanks ≡ perf_ring_size) where
  one_more :
      (done : List CompletionRecord) (rec : CompletionRecord)
      → drop 1 (drop (length done) (blanks ++ done)) ++ rec ∷ []
        ≡ drop (length (done ++ rec ∷ [])) (blanks ++ (done ++ rec ∷ []))
  one_more done rec =
      let more : length (done ++ rec ∷ []) ≡ length done + 1 = length-append done (rec ∷ []) in
      let padded : length (blanks ++ done) ≡ length blanks + length done =
        length-append blanks done in
      ap (λ xs. xs ++ rec ∷ []) (drop-drop 1 (length done) (blanks ++ done))
      ∙ sym (
          drop-append_le (length done + 1) (blanks ++ done) (rec ∷ [])
            (omega (arith, padded, full)))
      ∙ ap (drop (length done + 1)) (append_assoc blanks done (rec ∷ []))
      ∙ ap (λ n. drop n (blanks ++ (done ++ rec ∷ []))) (sym more)

  push-IsRingOf :
      (done : List CompletionRecord) (rec : CompletionRecord) (r : PerfRing)
      → IsRingOf blanks done r
      → IsRingOf blanks (done ++ rec ∷ []) (push rec r)
  unfolding push
  push-IsRingOf done rec r v =
      let more : length (done ++ rec ∷ []) ≡ length done + 1 = length-append done (rec ∷ []) in
      record {
        sized = length-set r.buf r.pos rec ∙ v.sized;
        inside = mod-lt _ (omega arith);
        ordered =
            ap (λ n. order_of (set r.buf r.pos rec) ((r.pos + 1) % n)) (sym v.sized)
            ∙ push-order_of r.buf r.pos rec (omega (arith, v.inside, v.sized))
            ∙ ap (λ xs. drop 1 xs ++ rec ∷ []) v.ordered
            ∙ one_more done rec;
        counted = ground (arith, v.counted, more);
        filling = λ h.
            mod-eq_of_lt (omega (arith, v.filling, h, more)) ∙ omega (arith, v.filling, h, more);
      }

  push_all-IsRingOf :
      (recs done : List CompletionRecord) (r : PerfRing)
      → IsRingOf blanks done r
      → IsRingOf blanks (done ++ recs) (push_all recs r)
  unfolding push_all
  push_all-IsRingOf [] done r v = rw (append-nil done) v
  push_all-IsRingOf (rec ∷ recs) done r v =
      rw (← append_assoc done (rec ∷ []) recs)
        (push_all-IsRingOf recs (done ++ rec ∷ []) (push rec r) (push-IsRingOf done rec r v))

  taken_front :
      (done : List CompletionRecord) (r : PerfRing)
      → IsRingOf blanks done r
      → length done < perf_ring_size
      → take r.pos r.buf ≡ done
  taken_front done r v h =
      let pos = v.filling h in
      let whole : drop r.pos r.buf ++ take r.pos r.buf ≡ drop (length done) blanks ++ done =
        v.ordered ∙ drop-append_le (length done) blanks done (omega (arith, full, h)) in
      let left : length (drop r.pos r.buf) ≡ perf_ring_size - length done =
        omega (arith, length-drop r.pos r.buf, v.sized, pos) in
      let right : length (drop (length done) blanks) ≡ perf_ring_size - length done =
        omega (arith, length-drop (length done) blanks, full) in
      sym (drop_of_length _ (drop r.pos r.buf) (take r.pos r.buf) left)
      ∙ ap (drop (perf_ring_size - length done)) whole
      ∙ drop_of_length _ (drop (length done) blanks) done right

  snapshot-last_n :
      (done : List CompletionRecord) (r : PerfRing)
      → IsRingOf blanks done r
      → snapshot r ≡ last_n perf_ring_size done
  unfolding snapshot
  snapshot-last_n done r v = elim (Bool-cases (ltb r.count perf_ring_size)) [
    | inl h ↦
        let few : length done < perf_ring_size = ground (arith, h, v.counted) in
        let size : r.count ≡ r.pos = omega (arith, v.counted, v.filling few, few) in
        let none_gone : length done - perf_ring_size ≡ 0 = omega (arith, few) in
        rw h (
          ap (λ n. take n r.buf) size
          ∙ taken_front done r v few
          ∙ ap (λ n. drop n done) (sym none_gone))
    | inr h ↦
        let many : perf_ring_size ≤ length done = ground (arith, h, v.counted) in
        rw h (
          v.ordered
          ∙ drop-append_ge (length done) blanks done (omega (arith, full, many))
          ∙ ap (λ n. drop (length done - n) done) full)
  ]

-- After any completions the snapshot holds the last 100 of them, oldest first.
pub push_all-snapshot :
    (recs : List CompletionRecord)
    → snapshot (push_all recs new_perf_ring) ≡ last_n perf_ring_size recs
push_all-snapshot recs = snapshot-last_n blanks refl recs (push_all recs new_perf_ring) (
    push_all-IsRingOf blanks refl recs [] new_perf_ring (record {
      sized = refl;
      inside = omega arith;
      ordered = refl;
      counted = refl;
      filling = λ h. refl;
    }))
  where
    blanks : List CompletionRecord
    blanks = replicate perf_ring_size no_completion
