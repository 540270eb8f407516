-- ===== src/Workers/Pool.antt =====
-- The pool as a step relation: calls of Enqueue, cut between the test and the send, the two halves of
-- Stop, and the workers, in any order. A step to `none` is a panic.
use tr_engine.Common.{
  ℕ, suc, ◌+◌, ◌≤◌, ◌≡◌, refl, sym, subst, ap, ◌∙◌, Bool, true, false, Option, none, some, List, [],
  ◌∷◌, ◌++◌, ltb, arith, length, length-append, if_cases,
}
use mathlib.Core.List.{append_assoc}
use tr_engine.Workers.{
  Job, WorkerPool, new_worker_pool, enqueue_check, enqueue_send, stop_store, stop_close, take_job,
  count_job,
}

abbrev pub pool_of : Option (WorkerPool × Bool) → Option WorkerPool
pool_of none = none
pool_of (some (p, sent)) = some p

-- `MayClose` says in which states a Stop may close the channel.
module _ (MayClose : WorkerPool → Type 0) where
  pub data Step (p : WorkerPool) (u : Option WorkerPool) : Type 0 where
    checks : (j : Job) → u ≡ some (enqueue_check j p) → Step p u
    sends :
        (before : List Job) (j : Job) (after : List Job)
        → p.checked ≡ before ++ j ∷ after
        → u ≡ pool_of (enqueue_send j (before ++ after) p)
        → Step p u
    stores : u ≡ some (stop_store p) → Step p u
    closes : p.stopped ≡ true → MayClose p → u ≡ stop_close p → Step p u
    takes :
        (j : Job) (rest : List Job) → p.jobs ≡ j ∷ rest → u ≡ some (take_job j rest p) → Step p u
    counts :
        (is_error : Bool) (n : ℕ) → p.busy ≡ suc n → u ≡ some (count_job is_error n p) → Step p u

  pub data Reach (s : WorkerPool) : WorkerPool → Type 0 where
    here : Reach s s
    next : {p q : WorkerPool} → Reach s p → Step p (some q) → Reach s q

-- The jobs that were accepted are those that workers took and those that wait, in order; no more wait
-- than the channel holds; every job taken is counted once or still held; the channel is closed only in
-- a stopped pool.
pub record Inv (size : ℕ) (p : WorkerPool) : Type 0 where
  pub in_order : p.accepted ≡ p.taken ++ p.jobs
  pub sized : p.size ≡ size
  pub bounded : length p.jobs ≤ p.size
  pub counted : p.completed + p.failed + p.busy ≡ length p.taken
  pub shut : p.closed ≡ true → p.stopped ≡ true

enqueue_check-Inv :
    (size : ℕ) (j : Job) (p : WorkerPool) → Inv size p → Inv size (enqueue_check j p)
unfolding enqueue_check
enqueue_check-Inv size j p v =
    if_cases (Inv size) p.stopped _ _ (λ h. v)
      (λ h. record {
        in_order = v.in_order;
        sized = v.sized;
        bounded = v.bounded;
        counted = v.counted;
        shut = v.shut;
      })

abbrev AfterSend : ℕ → Option (WorkerPool × Bool) → Type 0
AfterSend size none = Unit {0}
AfterSend size (some (p, sent)) = Inv size p

enqueue_send-Inv :
    (size : ℕ) (j : Job) (others : List Job) (p : WorkerPool)
    → Inv size p
    → AfterSend size (enqueue_send j others p)
unfolding enqueue_send
enqueue_send-Inv size j others p v =
    if_cases (AfterSend size) p.closed _ _ (λ c. tt)
      (λ c.
        if_cases (AfterSend size) (ltb (length p.jobs) p.size) _ _
          (λ l. record {
            in_order = ap (λ js. js ++ j ∷ []) v.in_order ∙ append_assoc p.taken p.jobs (j ∷ []);
            sized = v.sized;
            bounded = ground (arith, l, length-append p.jobs (j ∷ []));
            counted = v.counted;
            shut = v.shut;
          })
          (λ l. record {
            in_order = v.in_order;
            sized = v.sized;
            bounded = v.bounded;
            counted = v.counted;
            shut = v.shut;
          }))

count_job-Inv :
    (size : ℕ) (is_error : Bool) (n : ℕ) (p : WorkerPool)
    → p.busy ≡ suc n
    → Inv size p
    → Inv size (count_job is_error n p)
count_job-Inv size true n p b v = record {
  in_order = v.in_order;
  sized = v.sized;
  bounded = v.bounded;
  counted = omega (arith, b, v.counted);
  shut = v.shut;
}
count_job-Inv size false n p b v = record {
  in_order = v.in_order;
  sized = v.sized;
  bounded = v.bounded;
  counted = omega (arith, b, v.counted);
  shut = v.shut;
}

take_job-Inv :
    (size : ℕ) (j : Job) (rest : List Job) (p : WorkerPool)
    → p.jobs ≡ j ∷ rest
    → Inv size p
    → Inv size (take_job j rest p)
take_job-Inv size j rest p e v = record {
  in_order = v.in_order ∙ ap (λ js. p.taken ++ js) e ∙ sym (append_assoc p.taken (j ∷ []) rest);
  sized = v.sized;
  bounded = omega (arith, v.bounded, ap length e);
  counted = omega (arith, v.counted, length-append p.taken (j ∷ []));
  shut = v.shut;
}

module _ (MayClose : WorkerPool → Type 0) (size : ℕ) where
  abbrev After : Option WorkerPool → Type 0
  After none = Unit {0}
  After (some p) = Inv size p

  AfterSend-After : (o : Option (WorkerPool × Bool)) → AfterSend size o → After (pool_of o)
  AfterSend-After none a = tt
  AfterSend-After (some (p, sent)) a = a

  stop_close-After : (p : WorkerPool) → p.stopped ≡ true → Inv size p → After (stop_close p)
  unfolding stop_close
  stop_close-After p s v =
      if_cases After p.closed _ _ (λ c. tt)
        (λ c. record {
          in_order = v.in_order;
          sized = v.sized;
          bounded = v.bounded;
          counted = v.counted;
          shut = λ h. s;
        })

  Step-After : {p : WorkerPool} {u : Option WorkerPool} → Step MayClose p u → Inv size p → After u
  Step-After {p} (checks j e) v = subst After (sym e) (enqueue_check-Inv size j p v)
  Step-After {p} (sends before j after c e) v = subst After (sym e) (
      AfterSend-After (enqueue_send j (before ++ after) p)
        (enqueue_send-Inv size j (before ++ after) p v))
  Step-After (stores e) v = subst After (sym e) (record {
    in_order = v.in_order;
    sized = v.sized;
    bounded = v.bounded;
    counted = v.counted;
    shut = λ h. refl;
  })
  Step-After {p} (closes s m e) v = subst After (sym e) (stop_close-After p s v)
  Step-After {p} (takes j rest c e) v = subst After (sym e) (take_job-Inv size j rest p c v)
  Step-After {p} (counts is_error n b e) v =
      subst After (sym e) (count_job-Inv size is_error n p b v)

  new_worker_pool-Inv : Inv size (new_worker_pool size)
  new_worker_pool-Inv = record {
    in_order = refl;
    sized = refl;
    bounded = omega arith;
    counted = refl;
    shut = λ h. absurd (ground (arith, h));
  }

  -- In every state that calls of Enqueue and Stop and the workers lead to, in any order: the jobs that
  -- were accepted are those that workers took and those that wait, in this order; no more wait than the
  -- queue holds; every job that was taken is counted once, as completed or failed, or a worker holds it;
  -- and the channel is closed only in a stopped pool.
  pub Reach-new_worker_pool-Inv :
      {p : WorkerPool} → Reach MayClose (new_worker_pool size) p → Inv size p
  Reach-new_worker_pool-Inv here = new_worker_pool-Inv
  Reach-new_worker_pool-Inv (next r s) = Step-After s (Reach-new_worker_pool-Inv r)
