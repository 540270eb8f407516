-- ===== src/Workers/Calm.antt =====
-- Which calls of Enqueue and Stop panic.
use tr_engine.Common.{
  ℕ, ◌≡◌, ◌≢◌, refl, sym, subst, ◌∙◌, Bool, true, false, Option, none, some, List, [], ◌∷◌, ◌++◌,
  ltb, arith, length, if_cases, ◌⊎◌, inl, inr, Bool-cases, ◌↔◌,
}
use tr_engine.Workers.{
  Job, WorkerPool, new_worker_pool, enqueue_check, enqueue_send, stop_close, count_job,
}
use tr_engine.Workers.Pool.{
  pool_of, Step, Reach, checks, sends, stores, closes, takes, counts, here, next,
}

-- Stop closes the channel when no Enqueue call stands between its test and its send.
abbrev pub CalmClose : WorkerPool → Type 0
CalmClose p = p.checked ≡ []

-- The step is a Stop that comes to its close.
abbrev pub Closes : {p : WorkerPool} {u : Option WorkerPool} → Step CalmClose p u → Type 0
Closes (checks j e) = ⊥
Closes (sends before j after c e) = ⊥
Closes (stores e) = ⊥
Closes (closes s m e) = Unit
Closes (takes j rest c e) = ⊥
Closes (counts is_error n b e) = ⊥

record IsCalm (p : WorkerPool) : Type 0 where
  quiet : p.closed ≡ true → p.checked ≡ []
  shut : p.closed ≡ true → p.stopped ≡ true

abbrev CalmAfter : Option WorkerPool → Type 0
CalmAfter none = ⊥
CalmAfter (some p) = IsCalm p

enqueue_check-IsCalm : (j : Job) (p : WorkerPool) → IsCalm p → IsCalm (enqueue_check j p)
unfolding enqueue_check
enqueue_check-IsCalm j p v =
    if_cases IsCalm p.stopped _ _ (λ h. v)
      (λ h. record { quiet = λ c. absurd (ground (arith, h, v.shut c)); shut = v.shut })

not_empty : (before : List Job) (j : Job) (after : List Job) → before ++ j ∷ after ≢ []
not_empty [] j after e = ground (arith, e)
not_empty (x ∷ before) j after e = ground (arith, e)

enqueue_send-CalmAfter :
    (before : List Job) (j : Job) (after : List Job) (p : WorkerPool)
    → p.checked ≡ before ++ j ∷ after
    → IsCalm p
    → CalmAfter (pool_of (enqueue_send j (before ++ after) p))
unfolding enqueue_send
enqueue_send-CalmAfter before j after p e v =
    if_cases (λ o. CalmAfter (pool_of o)) p.closed _ _
      (λ c. not_empty before j after (sym e ∙ v.quiet c))
      (λ c.
        if_cases (λ o. CalmAfter (pool_of o)) (ltb (length p.jobs) p.size) _ _
          (λ l. record { quiet = λ d. absurd (ground (arith, c, d)); shut = v.shut })
          (λ l. record { quiet = λ d. absurd (ground (arith, c, d)); shut = v.shut }))

-- A close of a channel that is open.
stop_close-CalmAfter :
    (p : WorkerPool) → p.stopped ≡ true → CalmClose p → p.closed ≡ false → CalmAfter (stop_close p)
unfolding stop_close
stop_close-CalmAfter p s m open_still = rw open_still (record { quiet = λ d. m; shut = λ d. s })

count_job-IsCalm :
    (is_error : Bool) (n : ℕ) (p : WorkerPool) → IsCalm p → IsCalm (count_job is_error n p)
count_job-IsCalm true n p v = record { quiet = v.quiet; shut = v.shut }
count_job-IsCalm false n p v = record { quiet = v.quiet; shut = v.shut }

-- What a step leaves, unless it closes a closed channel.
abbrev Outcome : WorkerPool → Option WorkerPool → Type 0 → Type 0
Outcome p u Close = CalmAfter u ⊎ (Close × (p.closed ≡ true))

Step-Outcome :
    {p : WorkerPool} {u : Option WorkerPool} (s : Step CalmClose p u)
    → IsCalm p
    → Outcome p u (Closes s)
Step-Outcome {p} (checks j e) v = inl (subst CalmAfter (sym e) (enqueue_check-IsCalm j p v))
Step-Outcome {p} (sends before j after c e) v =
    inl (subst CalmAfter (sym e) (enqueue_send-CalmAfter before j after p c v))
Step-Outcome (stores e) v =
    inl (subst CalmAfter (sym e) (record { quiet = v.quiet; shut = λ c. refl }))
Step-Outcome {p} (closes s m e) v = elim (Bool-cases p.closed) [
  | inl c ↦ inr (tt, c)
  | inr c ↦ inl (subst CalmAfter (sym e) (stop_close-CalmAfter p s m c))
]
Step-Outcome {p} (takes j rest c e) v =
    inl (subst CalmAfter (sym e) (record { quiet = v.quiet; shut = v.shut }))
Step-Outcome {p} (counts is_error n b e) v =
    inl (subst CalmAfter (sym e) (count_job-IsCalm is_error n p v))

stop_close-closed : (p : WorkerPool) → p.closed ≡ true → stop_close p ≡ none
unfolding stop_close
stop_close-closed p c = rw c refl

-- A close of a closed channel leaves no pool.
Step-IsCalm : {p q : WorkerPool} → Step CalmClose p (some q) → IsCalm p → IsCalm q
Step-IsCalm {p} {q} s v = elim (Step-Outcome s v) [ inl c ↦ c | inr c ↦ absurd (no_pool s c.0 c.1) ]
  where
    no_pool :
        {p : WorkerPool} {q : WorkerPool} (s : Step CalmClose p (some q))
        → Closes s
        → p.closed ≡ true
        → ⊥
    no_pool (checks j e) c d = c
    no_pool (sends before j after h e) c d = c
    no_pool (stores e) c d = c
    no_pool {p} (closes s m e) c d = absurd (cc (e, stop_close-closed p d))
    no_pool (takes j rest h e) c d = c
    no_pool (counts is_error n b e) c d = c

Reach-IsCalm : (size : ℕ) {p : WorkerPool} → Reach CalmClose (new_worker_pool size) p → IsCalm p
Reach-IsCalm size here = record { quiet = λ c. refl; shut = λ c. absurd (ground (arith, c)) }
Reach-IsCalm size (next r s) = Step-IsCalm s (Reach-IsCalm size r)

-- Where no Stop closes the channel while an Enqueue call stands between its test and its send, the
-- only step that panics is another Stop that closes the channel again, and it always panics: no call
-- of Enqueue and no worker does.
pub calm_no_panic :
    (size : ℕ) (p : WorkerPool) (u : Option WorkerPool)
    → Reach CalmClose (new_worker_pool size) p
    → (s : Step CalmClose p u) → (u ≡ none) ↔ (Closes s × (p.closed ≡ true))
calm_no_panic size p u r s = (
  λ e. elim (Step-Outcome s (Reach-IsCalm size r)) [
    | inl c ↦ absurd (subst CalmAfter e c)
    | inr c ↦ c
  ],
  λ c. panics s c.0 c.1,
)
  where
    panics :
        {p : WorkerPool} {u : Option WorkerPool} (s : Step CalmClose p u)
        → Closes s
        → p.closed ≡ true
        → u ≡ none
    panics (checks j e) c d = absurd c
    panics (sends before j after h e) c d = absurd c
    panics (stores e) c d = absurd c
    panics {p} (closes s m e) c d = e ∙ stop_close-closed p d
    panics (takes j rest h e) c d = absurd c
    panics (counts is_error n b e) c d = absurd c
