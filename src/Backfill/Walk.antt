-- ===== src/Backfill/Walk.antt =====
-- enqueueCall and processJob. The database, the transcriber and the clock are one world `W` that
-- each call of theirs may change; `cancelled` is what `ctx.Err()` tells at that moment, and `wait`
-- is the time that passes in waitForQueueRoom.
use tr_engine.Common.{
  ℕ, zero, suc, Bool, true, false, not, Option, none, some, List, [], ◌∷◌, Text, if◌then◌else◌, ltb,
  length,
}
use tr_engine.Backfill.{
  CallKey, before, DbFilter, Job, record_result, backfill_should_skip_for_provider,
}

-- What is read of a call, and handed to the transcriber as it is.
pub record CallInfo : Type 0 where
  pub call_id : ℕ
  pub audio_file_path : Text

pub record World {ℓ} (W : Type ℓ) : Type ℓ where
  pub count_untranscribed_calls : DbFilter → W → Option ℕ × W
  pub list_untranscribed_calls : DbFilter → Option CallKey → ℕ → W → Option (List CallKey) × W
  pub get_call_for_transcription : ℕ → W → Option CallInfo × W
  pub enqueue : CallInfo → W → Bool × W
  pub provider_name : Text
  pub cancelled : W → Bool × W
  pub wait : W → W

abbrev pub backfill_batch_size : ℕ
backfill_batch_size = 100

-- The job with its counts, the cursor, and the world. `handed` is a ghost: the calls that
-- enqueueCall was called for, the last one first.
pub record Walk {ℓ} (W : Type ℓ) : Type ℓ where
  pub job : Job
  pub cursor : Option CallKey
  pub handed : List CallKey
  pub world : W

-- How a page ends: with the job, or behind its last call.
pub data Page {ℓ} (W : Type ℓ) : Type ℓ where
  stopped : Walk W → Page W
  done : Walk W → Page W

-- The cursor is there, and the key does not come after it.
abbrev pub is_stale : Option CallKey → CallKey → Bool
is_stale none key = false
is_stale (some cursor) key = not (before cursor key)

module _ {ℓ} {W : Type ℓ} (env : World W) where
  unfoldable pub enqueue_call : ℕ → W → Bool × W
  enqueue_call call_id w =
      let (found, w') = env.get_call_for_transcription call_id w in
      elim found [
        | none ↦ (false, w')
        | some c ↦
            if backfill_should_skip_for_provider env.provider_name c.audio_file_path
            then (false, w')
            else env.enqueue c w'
      ]

  abbrev pub hand_out : CallKey → Walk W → Walk W
  hand_out key s =
      let (enqueued, w) = enqueue_call key.call_id s.world in
      record s { job = record_result s.job enqueued; handed = key ∷ s.handed; world = w }

  -- The loop over one page.
  unfoldable pub walk_page : List CallKey → Walk W → Page W
  walk_page [] s = done s
  walk_page (key ∷ keys) s =
      let s1 = record s { cursor = some key } in
      let (c1, w1) = env.cancelled s.world in
      let (c2, w2) = env.cancelled (env.wait w1) in
      let s2 = record s1 { world = w1 } in
      let s3 = record s1 { world = w2 } in
      let rest = walk_page keys (hand_out key s3) in
      if is_stale s.cursor key
      then stopped s
      else if c1
      then stopped s2
      else if c2
      then stopped s3
      else rest

  -- A page has been walked; the loop goes on if it was full.
  abbrev pub after_page : List CallKey → (Walk W → Option (Walk W)) → Page W → Option (Walk W)
  after_page batch again (stopped s) = some s
  after_page batch again (done s) = elim (ltb (length batch) backfill_batch_size) [
    | true ↦ some s
    | false ↦ again s
  ]

  abbrev pub after_query :
      (Walk W → Option (Walk W)) → Option (List CallKey) → Walk W → Option (Walk W)
  after_query again none s = some s
  after_query again (some batch) s = after_page batch again (walk_page batch s)

  -- The loop over the pages, on fuel: `none` if the fuel runs out.
  unfoldable pub walk : DbFilter → ℕ → Walk W → Option (Walk W)
  walk filter zero s = none
  walk filter (suc fuel) s =
      let (c, w) = env.cancelled s.world in
      let (found, w') = env.list_untranscribed_calls filter s.cursor backfill_batch_size w in
      elim c [
        | true ↦ some (record s { world = w })
        | false ↦ after_query (walk filter fuel) found (record s { world = w' })
      ]

  abbrev pub recounted : Job → Option ℕ → Job
  recounted job none = job
  recounted job (some total) = record job { total = total }

  unfoldable pub process_job : DbFilter → ℕ → Job → W → Option (Walk W)
  process_job filter fuel job w =
      let (total, w') = env.count_untranscribed_calls filter w in
      walk filter fuel
        (record { job = recounted job total; cursor = none; handed = []; world = w' })
