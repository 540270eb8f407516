-- ===== src/Backfill/Awake.antt =====
-- Every step of the manager and its loop keeps the invariant.
use tr_engine.Common.{
  ℕ, ◌+◌, Bool, false, Option, none, some, List, [], ◌∷◌, ◌≡◌, ◌≢◌, refl, sym, subst, ◌==◌,
  nat_comparable, arith, if_cases,
}
use mathlib.Core.Option.{some-injective}
use tr_engine.Backfill.{Filters, Job, record_result}
use tr_engine.Backfill.Manager.{
  Manager, new_job, submit, cancel, without_job, from_queue, is_active_id, take_from, take_next,
  finish_job, count_call, count_active,
}
use tr_engine.Backfill.Loop.{
  Phase, looking, waiting, running, Loop, start, Step, submits, signals, cancels, sleeps, wakes,
  takes, counts, finishes, Reach, here, next,
}
use tr_engine.Backfill.Queue.{
  Rising, Rising-le, Rising-append, Rising-lower, RisingIf, without_job-Rising, PhaseFits, Awake,
  Awake-signal, Awake-signalling, Awake-nil, Awake-without, active_id, Inv, Holds,
}

submits-Inv :
    (s : Loop) (filters : Filters) (total now : ℕ)
    → Inv s
    → Holds (submit filters (some total) now s.manager).0 s.phase s.signal (s.signalling + 1)
unfolding submit
submits-Inv s filters total now i = record {
  rising =
      Rising-append (active_id s.manager.active) s.manager.queue s.manager.next_id
        (new_job s.manager filters total now) refl i.rising;
  fits = i.fits;
  awake = Awake-signalling s.phase _ s.signal s.signalling;
}

from_queue-Inv :
    (s : Loop) (id : ℕ) (o : Option (List Job))
    → without_job id s.manager.queue ≡ o
    → Inv s
    → Holds (from_queue s.manager o).0 s.phase s.signal s.signalling
from_queue-Inv s id none e i = i
from_queue-Inv s id (some q) e i = record {
  rising =
      subst (λ o. RisingIf (active_id s.manager.active) o s.manager.next_id) e
        (without_job-Rising id (active_id s.manager.active) s.manager.queue s.manager.next_id
          i.rising);
  fits = i.fits;
  awake = Awake-without s.phase id s.manager.queue q s.signal s.signalling e i.awake;
}

cancels-Inv :
    (s : Loop) (id : ℕ) → Inv s → Holds (cancel id s.manager).0 s.phase s.signal s.signalling
unfolding cancel
cancels-Inv s id i =
    if_cases (λ (r : Manager × Bool). Holds r.0 s.phase s.signal s.signalling) (id == 0) _ _
      (λ _. record {
        rising = Rising-le (active_id s.manager.active) s.manager.queue s.manager.next_id i.rising;
        fits = i.fits;
        awake = Awake-nil s.phase s.signal s.signalling;
      })
      λ _.
        if_cases (λ (r : Manager × Bool). Holds r.0 s.phase s.signal s.signalling)
          (is_active_id s.manager.active id) _ _
          (λ _. record { rising = i.rising; fits = i.fits; awake = i.awake })
          λ _. from_queue-Inv s id (without_job id s.manager.queue) refl i

no_job-nil : (now : ℕ) (m : Manager) (q : List Job) → take_from now q m ≡ none → q ≡ []
no_job-nil now m [] e = refl
no_job-nil now m (j ∷ q) e = absurd (cc (e))

idle : (phase : Phase) (o : Option Job) → PhaseFits phase o → phase ≢ running → o ≡ none
idle phase none h n = refl
idle looking (some j) h n = absurd h
idle waiting (some j) h n = absurd h
idle running (some j) h n = absurd (n refl)

sleeps-Inv :
    (s : Loop) (now : ℕ)
    → s.phase ≡ looking
    → take_next now s.manager ≡ none
    → Inv s
    → Holds s.manager waiting s.signal s.signalling
unfolding take_next
sleeps-Inv s now p e i = record {
  rising = i.rising;
  fits = subst (PhaseFits waiting) (sym (idle s.phase s.manager.active i.fits (λ q. cc))) tt;
  awake =
      subst (λ q. Awake waiting q s.signal s.signalling)
        (sym (no_job-nil now s.manager s.manager.queue e)) tt;
}

wakes-Inv : (s : Loop) → s.phase ≡ waiting → Inv s → Holds s.manager looking false s.signalling
wakes-Inv s p i = record {
  rising = i.rising;
  fits = subst (PhaseFits looking) (sym (idle s.phase s.manager.active i.fits (λ q. cc))) tt;
  awake = tt;
}

take_from-Inv :
    (s : Loop) (now low : ℕ) (q : List Job) (m : Manager)
    → take_from now q s.manager ≡ some m
    → Rising low q s.manager.next_id
    → Holds m running s.signal s.signalling
take_from-Inv s now low [] m e r = absurd (cc (e))
take_from-Inv s now low (j ∷ q) m e r =
    subst (λ k. Holds k running s.signal s.signalling) (some-injective _ _ e)
      (record { rising = r.1; fits = tt; awake = tt })

takes-Inv :
    (s : Loop) (now : ℕ) (m : Manager)
    → take_next now s.manager ≡ some m
    → Inv s
    → Holds m running s.signal s.signalling
unfolding take_next
takes-Inv s now m e i =
    take_from-Inv s now (active_id s.manager.active) s.manager.queue m e i.rising

count_active-id : (b : Bool) (o : Option Job) → active_id (count_active b o) ≡ active_id o
unfolding record_result
count_active-id b none = refl
count_active-id b (some j) = refl

count_active-PhaseFits :
    (b : Bool) (phase : Phase) (o : Option Job)
    → PhaseFits phase o
    → PhaseFits phase (count_active b o)
count_active-PhaseFits b looking none h = h
count_active-PhaseFits b waiting none h = h
count_active-PhaseFits b running none h = h
count_active-PhaseFits b looking (some j) h = h
count_active-PhaseFits b waiting (some j) h = h
count_active-PhaseFits b running (some j) h = h

counts-Inv :
    (s : Loop) (b : Bool) → Inv s → Holds (count_call b s.manager) s.phase s.signal s.signalling
unfolding count_call
counts-Inv s b i = record {
  rising =
      subst (λ n. Rising n s.manager.queue s.manager.next_id)
        (sym (count_active-id b s.manager.active)) i.rising;
  fits = count_active-PhaseFits b s.phase s.manager.active i.fits;
  awake = i.awake;
}

finishes-Inv : (s : Loop) → Inv s → Holds (finish_job s.manager) looking s.signal s.signalling
unfolding finish_job
finishes-Inv s i = record {
  rising =
      Rising-lower (active_id s.manager.active) 0 s.manager.queue s.manager.next_id (omega arith)
        i.rising;
  fits = tt;
  awake = tt;
}

Step-Inv : {s t : Loop} → Step s t → Inv s → Inv t
Step-Inv (submits s filters total now) i = submits-Inv s filters total now i
Step-Inv (signals s n e) i = record {
  rising = i.rising;
  fits = i.fits;
  awake = Awake-signal s.phase s.manager.queue n;
}
Step-Inv (cancels s id) i = cancels-Inv s id i
Step-Inv (sleeps s now p e) i = sleeps-Inv s now p e i
Step-Inv (wakes s p e) i = wakes-Inv s p i
Step-Inv (takes s now m p e) i = takes-Inv s now m e i
Step-Inv (counts s enqueued p) i = counts-Inv s enqueued i
Step-Inv (finishes s p) i = finishes-Inv s i

-- In every state that submissions, signals, cancellations and the loop can reach, in any order, the
-- invariant holds: no job waits while the loop sleeps for good, jobs run in the order of their ids,
-- and a job is active exactly while the loop runs one.
pub Reach-start-awake : {t : Loop} → Reach start t → Inv t
Reach-start-awake here = record { rising = omega arith; fits = tt; awake = tt }
Reach-start-awake (next r st) = Step-Inv st (Reach-start-awake r)
