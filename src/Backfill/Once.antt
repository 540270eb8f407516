-- ===== src/Backfill/Once.antt =====
-- One page of the walk: the cursor moves forward, and the invariant of the walk is kept.
use tr_engine.Common.{
  suc, ◌+◌, ◌≤◌, Bool, false, Option, none, some, List, [], ◌∷◌, ◌≡◌, refl, sym, ◌∙◌, subst, length,
  arith, if_cases,
}
use tr_engine.Backfill.{CallKey, Job, record_result}
use tr_engine.Backfill.Order.{Later, Later-trans, Beyond, Beyond-trans}
use tr_engine.Backfill.Walk.{
  World, Walk, Page, stopped, done, enqueue_call, is_stale, hand_out, walk_page,
}

-- All of them come before `k`.
abbrev pub AllBefore : List CallKey → CallKey → Type 0
AllBefore [] k = Unit {0}
AllBefore (j ∷ js) k = Later k j × AllBefore js k

-- Each comes after all that were handed out earlier: the last one stands first.
abbrev pub Ordered : List CallKey → Type 0
Ordered [] = Unit {0}
Ordered (k ∷ ks) = AllBefore ks k × Ordered ks

-- A key that passes the check comes after all that were handed out.
abbrev Passed : List CallKey → Option CallKey → Type 0
Passed handed cursor = (k : CallKey) → is_stale cursor k ≡ false → AllBefore handed k

AllBefore-Later : (js : List CallKey) (c k : CallKey) → AllBefore js c → Later k c → AllBefore js k
AllBefore-Later [] c k h l = tt
AllBefore-Later (j ∷ js) c k h l = (Later-trans j c k h.0 l, AllBefore-Later js c k h.1 l)

pub record Inv {ℓ} {W : Type ℓ} (s : Walk W) : Type ℓ where
  pub ordered : Ordered s.handed
  pub passed : Passed s.handed s.cursor
  pub counted : s.job.completed + s.job.failed ≡ length s.handed
  pub bounded : s.job.completed + s.job.failed ≤ s.job.total

-- The counts after one more call.
record_result_counts :
    (job : Job) (enqueued : Bool)
    → ((record_result job enqueued).completed + (record_result job enqueued).failed
        ≡ suc (job.completed + job.failed))
      × ((record_result job enqueued).completed + (record_result job enqueued).failed
          ≤ (record_result job enqueued).total)
unfolding record_result
record_result_counts job enqueued = ground arith

module _ {ℓ} {W : Type ℓ} (env : World W) where
  -- The cursor may move before the job stops; nothing else of the invariant reads it.
  moved-Inv :
      (s : Walk W) (key : CallKey) (w : W)
      → is_stale s.cursor key ≡ false
      → Inv s
      → Inv (record s { cursor = some key; world = w })
  moved-Inv s key w fresh i = record {
    ordered = i.ordered;
    passed = λ k e. AllBefore-Later s.handed key k (i.passed key fresh) (not_stale key k e);
    counted = i.counted;
    bounded = i.bounded;
  }
    where
      not_stale : (c k : CallKey) → is_stale (some c) k ≡ false → Later k c
      not_stale c k e = ground (arith, e)

  hand_out-Inv :
      (s : Walk W) (key : CallKey) (w : W)
      → is_stale s.cursor key ≡ false
      → Inv s
      → Inv (hand_out env key (record s { cursor = some key; world = w }))
  hand_out-Inv s key w fresh i =
      let (grown, within) = record_result_counts s.job (enqueue_call env key.call_id w).0 in
      record {
        ordered = (i.passed key fresh, i.ordered);
        passed = λ k e. (
          not_stale key k e,
          AllBefore-Later s.handed key k (i.passed key fresh) (not_stale key k e),
        );
        counted = omega (arith, grown, i.counted);
        bounded = within;
      }
    where
      not_stale : (c k : CallKey) → is_stale (some c) k ≡ false → Later k c
      not_stale c k e = ground (arith, e)

  -- What holds at the end of a page that began at `s`.
  abbrev pub PageIsFine : List CallKey → Walk W → Page W → Type ℓ
  PageIsFine keys s (stopped r) = Inv r
  PageIsFine [] s (done r) = Inv r × (r.cursor ≡ s.cursor)
  PageIsFine (key ∷ keys) s (done r) = Inv r × Beyond s.cursor r.cursor

  page_rest :
      (keys : List CallKey) (key : CallKey) (s s' : Walk W) (p : Page W)
      → s'.cursor ≡ some key
      → Beyond s.cursor (some key)
      → PageIsFine keys s' p
      → PageIsFine (key ∷ keys) s p
  page_rest keys key s s' (stopped r) e b h = h
  page_rest [] key s s' (done r) e b h = (h.0, subst (Beyond s.cursor) (sym (h.1 ∙ e)) b)
  page_rest (next ∷ keys) key s s' (done r) e b h =
      (h.0, Beyond-trans s.cursor (some key) r.cursor b (subst (λ c. Beyond c r.cursor) e h.1))

  fresh-Beyond :
      (cursor : Option CallKey) (key : CallKey)
      → is_stale cursor key ≡ false
      → Beyond cursor (some key)
  fresh-Beyond none key e = tt
  fresh-Beyond (some c) key e = ground (arith, e)

  pub walk_page-IsFine :
      (keys : List CallKey) (s : Walk W) → Inv s → PageIsFine keys s (walk_page env keys s)
  unfolding walk_page
  walk_page-IsFine [] s i = (i, refl)
  walk_page-IsFine (key ∷ keys) s i =
      let P = PageIsFine (key ∷ keys) s in
      let w1 = (env.cancelled s.world).1 in
      let w2 = (env.cancelled (env.wait w1)).1 in
      let s3 : Walk W = record s { cursor = some key; world = w2 } in
      if_cases P (is_stale s.cursor key) _ _ (λ stale. i)
        λ fresh.
          if_cases P (env.cancelled s.world).0 _ _ (λ c1. moved-Inv s key w1 fresh i)
            λ c1.
              if_cases P (env.cancelled (env.wait w1)).0 _ _ (λ c2. moved-Inv s key w2 fresh i)
                λ c2.
                  page_rest keys key s (hand_out env key s3)
                    (walk_page env keys (hand_out env key s3)) refl
                    (fresh-Beyond s.cursor key fresh)
                    (walk_page-IsFine keys (hand_out env key s3) (hand_out-Inv s key w2 fresh i))
