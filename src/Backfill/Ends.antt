-- ===== src/Backfill/Ends.antt =====
-- A job ends whatever the database answers.
use tr_engine.Common.{
  ℕ, suc, Option, none, some, List, [], ◌∷◌, ◌≡◌, inl, inr, refl, subst, ltb, length, arith,
  Bool-cases,
}
use mathlib.Core.WellFounded.{Acc}
use tr_engine.Backfill.{CallKey, DbFilter, Job}
use tr_engine.Backfill.Order.{Later, Later-wf, Beyond}
use tr_engine.Backfill.Once.{Inv, PageIsFine, walk_page-IsFine}
use tr_engine.Backfill.Walk.{
  World, Walk, Page, stopped, done, backfill_batch_size, walk_page, after_page, after_query, walk,
  recounted, process_job,
}

module _ {ℓ} {W : Type ℓ} (env : World W) (filter : DbFilter) where
  -- With some fuel the walk from here ends, in a state that meets the invariant.
  abbrev Ends : Walk W → Type ℓ
  Ends s = (fuel : ℕ) × (r : Walk W) × (walk env filter fuel s ≡ some r) × Inv r

  -- With some fuel for the pages that follow, the rest of the round ends.
  abbrev Settles : ((Walk W → Option (Walk W)) → Option (Walk W)) → Type ℓ
  Settles round = (fuel : ℕ) × (r : Walk W) × (round (walk env filter fuel) ≡ some r) × Inv r

  abbrev Again : Walk W → Type ℓ
  Again s = (s' : Walk W) → Inv s' → Beyond s.cursor s'.cursor → Ends s'

  after_page-Settles :
      (batch : List CallKey) (s : Walk W) (p : Page W)
      → PageIsFine env batch s p
      → Again s
      → Settles (λ again. after_page env batch again p)
  after_page-Settles batch s (stopped r) h again = (0, r, refl, h)
  after_page-Settles [] s (done r) h again = (0, r, refl, h.0)
  after_page-Settles (key ∷ keys) s (done r) h again =
      elim (Bool-cases (ltb (length (key ∷ keys)) backfill_batch_size)) [
        | inl short ↦ (0, r, rw (short, after_page) refl, h.0)
        | inr full ↦ let (fuel, t, e, i) = again r h.0 h.1 in (fuel, t, rw (full, after_page) e, i)
      ]

  after_query-Settles :
      (found : Option (List CallKey)) (s : Walk W)
      → Inv s
      → Again s
      → Settles (λ again. after_query env again found s)
  after_query-Settles none s i again = (0, s, refl, i)
  after_query-Settles (some batch) s i again =
      after_page-Settles batch s (walk_page env batch s) (walk_page-IsFine env batch s i) again

  -- The world changes while nothing else of the walk does.
  at_world : Walk W → W → Walk W
  at_world s w = record s { world = w }

  at_world-Inv : (s : Walk W) (w : W) → Inv s → Inv (at_world s w)
  unfolding at_world
  at_world-Inv s w i = record {
    ordered = i.ordered;
    passed = i.passed;
    counted = i.counted;
    bounded = i.bounded;
  }

  walk-Ends : (s : Walk W) → Inv s → Again s → Ends s
  unfolding walk at_world
  walk-Ends s i again =
      let w = (env.cancelled s.world).1 in
      let found = env.list_untranscribed_calls filter s.cursor backfill_batch_size w in
      let here : Walk W = at_world s found.1 in
      elim (Bool-cases (env.cancelled s.world).0) [
        | inl c ↦ (1, at_world s w, rw (c, walk) refl, at_world-Inv s w i)
        | inr c ↦
            let (fuel, r, e, j) =
              after_query-Settles found.0 here (at_world-Inv s found.1 i)
                (λ s' k b. again s' k b) in
            (suc fuel, r, rw (c, walk) e, j)
      ]

  -- From a cursor that is not the one before.
  behind :
      (c : CallKey)
      → ((k : CallKey) → Later k c → (s : Walk W) → s.cursor ≡ some k → Inv s → Ends s)
      → (s : Walk W) (o : Option CallKey) → s.cursor ≡ o
      → Beyond (some c) o
      → Inv s
      → Ends s
  behind c later s none e b i = absurd b
  behind c later s (some k) e b i = later k b s e i

  from_cursor : (c : CallKey) → Acc Later c → (s : Walk W) → s.cursor ≡ some c → Inv s → Ends s
  from_cursor c (Acc.intro _ smaller) s e i = walk-Ends s i λ s' j b.
      behind c (λ k l. from_cursor k (smaller k l)) s' s'.cursor refl
        (subst (λ o. Beyond o s'.cursor) e b) j

  from_anywhere : (s : Walk W) (o : Option CallKey) → s.cursor ≡ o → Inv s → Ends s
  from_anywhere s (some c) e i = from_cursor c (Later-wf c) s e i
  from_anywhere s none e i = walk-Ends s i λ s' j b. with_cursor s' s'.cursor refl b j
    where
      with_cursor :
          (s' : Walk W) (o : Option CallKey) → s'.cursor ≡ o → Beyond s.cursor o → Inv s' → Ends s'
      with_cursor s' none f b j = absurd b
      with_cursor s' (some k) f b j = from_cursor k (Later-wf k) s' f j

recounted_counts {ℓ} :
    {W : Type ℓ} (env : World W) (job : Job) (o : Option ℕ)
    → ((recounted env job o).completed ≡ job.completed)
      × ((recounted env job o).failed ≡ job.failed)
recounted_counts env job none = (refl, refl)
recounted_counts env job (some total) = (refl, refl)

-- Every job ends, whatever pages the database answers with and whenever it is cancelled. Then each
-- call was handed to enqueueCall at most once, newest first; Completed and Failed count the calls
-- that were handed out, and together do not exceed Total. The job has counted nothing before.
pub process_job-Inv {ℓ} :
    {W : Type ℓ} (env : World W) (filter : DbFilter) (job : Job) (w : W)
    → job.completed ≡ 0
    → job.failed ≡ 0
    → (fuel : ℕ) × (r : Walk W) × (process_job env filter fuel job w ≡ some r) × Inv r
unfolding process_job
process_job-Inv {W = W} env filter job w c f =
    let o = (env.count_untranscribed_calls filter w).0 in
    let same = recounted_counts env job o in
    from_anywhere env filter
      (record {
        job = recounted env job (env.count_untranscribed_calls filter w).0;
        cursor = none;
        handed = [];
        world = (env.count_untranscribed_calls filter w).1;
      })
      none refl
      (record {
        ordered = tt;
        passed = λ k e. tt;
        counted = omega (arith, same.0, same.1, c, f);
        bounded = omega (arith, same.0, same.1, c, f);
      })
