-- ===== src/Backfill/Queue.antt =====
-- What holds in every state of the manager and its loop.
use tr_engine.Common.{
  ℕ, ◌+◌, ◌≤◌, ◌<◌, Bool, true, Option, none, some, List, [], ◌∷◌, ◌++◌, ◌≡◌, ◌⊎◌, inl, inr, refl,
  ◌==◌, nat_comparable, arith, if_cases,
}
use tr_engine.Backfill.{Job}
use tr_engine.Backfill.Manager.{Manager, without_job, onto}
use tr_engine.Backfill.Loop.{Phase, looking, waiting, running, Loop}

-- The ids of the queue rise, above `low`, up to `high`.
abbrev pub Rising : ℕ → List Job → ℕ → Type 0
Rising low [] high = low ≤ high
Rising low (j ∷ q) high = (low < j.id) × Rising j.id q high

pub Rising-le : (low : ℕ) (q : List Job) (high : ℕ) → Rising low q high → low ≤ high
Rising-le low [] high h = h
Rising-le low (j ∷ q) high h = omega (arith, h.0, Rising-le j.id q high h.1)

pub Rising-append :
    (low : ℕ) (q : List Job) (high : ℕ) (job : Job)
    → job.id ≡ high + 1
    → Rising low q high
    → Rising low (q ++ job ∷ []) (high + 1)
Rising-append low [] high job e h = (omega (arith, e), omega (arith, e))
Rising-append low (j ∷ q) high job e h = (h.0, Rising-append j.id q high job e h.1)

pub Rising-lower :
    (low less : ℕ) (q : List Job) (high : ℕ) → less ≤ low → Rising low q high → Rising less q high
Rising-lower low less [] high e h = omega (arith, e, h)
Rising-lower low less (j ∷ q) high e h = (omega (arith, e, h.0), h.1)

abbrev pub RisingIf : ℕ → Option (List Job) → ℕ → Type 0
RisingIf low none high = Unit {0}
RisingIf low (some q) high = Rising low q high

pub without_job-Rising :
    (id low : ℕ) (q : List Job) (high : ℕ)
    → Rising low q high
    → RisingIf low (without_job id q) high
unfolding without_job
without_job-Rising id low [] high h = tt
without_job-Rising id low (j ∷ q) high h =
    if_cases (λ o. RisingIf low o high) (j.id == id) (some q) (onto j (without_job id q))
      (λ _. Rising-lower j.id low q high (omega (arith, h.0)) h.1)
      λ _. kept (without_job id q) (without_job-Rising id j.id q high h.1)
  where
    kept : (o : Option (List Job)) → RisingIf j.id o high → RisingIf low (onto j o) high
    kept none i = tt
    kept (some r) i = (h.0, i)

-- A job is active exactly while processJob runs.
abbrev pub PhaseFits : Phase → Option Job → Type 0
PhaseFits looking none = Unit {0}
PhaseFits waiting none = Unit {0}
PhaseFits running none = ⊥
PhaseFits looking (some j) = ⊥
PhaseFits waiting (some j) = ⊥
PhaseFits running (some j) = Unit {0}

-- While jobs are queued the waiting loop has a signal, or a caller is about to give one.
abbrev pub Awake : Phase → List Job → Bool → ℕ → Type 0
Awake looking q signal n = Unit {0}
Awake running q signal n = Unit {0}
Awake waiting [] signal n = Unit {0}
Awake waiting (j ∷ q) signal n = (signal ≡ true) ⊎ (0 < n)

pub Awake-signal : (phase : Phase) (q : List Job) (n : ℕ) → Awake phase q true n
Awake-signal looking q n = tt
Awake-signal running q n = tt
Awake-signal waiting [] n = tt
Awake-signal waiting (j ∷ q) n = inl refl

pub Awake-signalling : (phase : Phase) (q : List Job) (b : Bool) (n : ℕ) → Awake phase q b (n + 1)
Awake-signalling looking q b n = tt
Awake-signalling running q b n = tt
Awake-signalling waiting [] b n = tt
Awake-signalling waiting (j ∷ q) b n = inr (omega arith)

pub Awake-nil : (phase : Phase) (b : Bool) (n : ℕ) → Awake phase [] b n
Awake-nil looking b n = tt
Awake-nil running b n = tt
Awake-nil waiting b n = tt

pub Awake-without :
    (phase : Phase) (id : ℕ) (q r : List Job) (b : Bool) (n : ℕ)
    → without_job id q ≡ some r
    → Awake phase q b n
    → Awake phase r b n
unfolding without_job
Awake-without looking id q r b n e h = tt
Awake-without running id q r b n e h = tt
Awake-without waiting id [] r b n e h = absurd (cc (e))
Awake-without waiting id (j ∷ q) [] b n e h = tt
Awake-without waiting id (j ∷ q) (i ∷ r) b n e h = h

abbrev pub active_id : Option Job → ℕ
active_id none = 0
active_id (some j) = j.id

-- The ids of the active and the queued jobs rise in the order in which they run, the loop has a
-- job exactly while it runs one, and it does not sleep over a queued job.
pub record Inv (s : Loop) : Type 0 where
  pub rising : Rising (active_id s.manager.active) s.manager.queue s.manager.next_id
  pub fits : PhaseFits s.phase s.manager.active
  pub awake : Awake s.phase s.manager.queue s.signal s.signalling

-- The three parts, for a state that is given by its fields.
abbrev pub Holds : Manager → Phase → Bool → ℕ → Type 0
Holds m phase signal n =
    Inv (record { manager = m; phase = phase; signal = signal; signalling = n })
