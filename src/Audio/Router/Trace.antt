-- ===== src/Audio/Router/Trace.antt =====
-- The router over a sequence of chunks and cleanups: the frames of one talkgroup are numbered
-- through.
use tr_engine.Common.{
  ℕ, ◌≡◌, sym, ap, subst, ◌∙◌, Bool, true, false, not, Option, none, some, ◌⊎◌, inl, inr, List, [],
  ◌∷◌, Text, if◌then◌else◌, ◌==◌, nat_comparable, text_comparable, arith, ◌&&◌, ◌+◌, ◌%◌,
  Bool-cases, ◌≢◌, ◌<◌, ltb, ltb→lt, refl,
}
use mathlib.Core.Option.{some-injective}
use tr_engine.Common.Map.{lookup, lookup-insert, Unique, guarded, lookup-Absent}
use tr_engine.Common.Bytes.{text_same_iff}
use tr_engine.Audio.{AudioChunk, AudioFrame, AudioEncoder}
use tr_engine.Audio.Router.{
  IdentityLookup, ActiveStream, AudioRouter, stream_key, is_idle, next_stream, process_chunk,
  cleanup_idle, resolve_identity, new_audio_router, continued, taken_over,
}
use tr_engine.Audio.Router.Keys.{stream_key-injective}
use tr_engine.Audio.Router.Slots.{
  Routed, process_chunk-Routed, Routed-Unique, Routed-idle, cleanup-idle, cleanup-Unique,
  lookup-cleanup_idle,
}

-- One turn of the loop in `Run`.
pub data Turn : Type 0 where
  chunk_turn : IdentityLookup → ℕ → AudioChunk → Turn
  cleanup_turn : ℕ → Turn

abbrev pub published : Option AudioFrame → List AudioFrame → List AudioFrame
published none fs = fs
published (some f) fs = f ∷ fs

module _ {E : Type 0} where
  abbrev pub turn : AudioEncoder E → Turn → AudioRouter E → Option AudioFrame × AudioRouter E
  turn enc (chunk_turn ids now chunk) r = process_chunk enc ids now chunk r
  turn enc (cleanup_turn now) r = (none, cleanup_idle now r)

  -- The frames that are published, in order, and the router at the end.
  abbrev pub run : AudioEncoder E → List Turn → AudioRouter E → List AudioFrame × AudioRouter E
  run enc [] r = ([], r)
  run enc (t ∷ ts) r =
      let q = turn enc t r in let rest = run enc ts q.1 in (published q.0 rest.0, rest.1)

-- What listeners of one talkgroup know of it: the site that is heard, the time stamp of the last chunk
-- from it, and the last number.
pub record Voice : Type 0 where
  pub site : ℕ
  pub last : ℕ
  pub number : ℕ

-- The number of a frame from this site: 0 where no voice is there; the next one, at 16 bits, from the
-- site that is heard; and 0 from another site, which takes over once the voice has been idle.
abbrev pub Numbered : ℕ → ℕ → Option Voice → ℕ → ℕ → Type 0
Numbered idle now none site n = n ≡ 0
Numbered idle now (some v) site n =
    ((site ≡ v.site) × (n ≡ (v.number + 1) % 65536))
    ⊎ ((site ≢ v.site) × (v.last + idle < now) × (n ≡ 0))

-- A cleanup ends a voice that is idle.
abbrev pub fades : ℕ → ℕ → Option Voice → Option Voice
fades idle now none = none
fades idle now (some v) = if ltb (v.last + idle) now then none else some v

abbrev pub is_of : ℕ → ℕ → AudioFrame → Bool
is_of system tgid f = (f.system_id == system) && (f.tgid == tgid)

-- A chunk of this identity, the frame that it gives, and what comes after it.
abbrev pub Heard :
    Option (ℕ × ℕ)
    → ℕ
    → ℕ
    → ℕ
    → ℕ
    → AudioChunk
    → Option Voice
    → Option AudioFrame
    → (Option Voice → Type 0)
    → Type 0
Heard id idle system tgid now chunk v none Next = Next v
Heard id idle system tgid now chunk v (some f) Next =
    if is_of system tgid f
    then ((site : ℕ) × (id ≡ some (system, site))
        × Numbered idle now v site f.seq
        × Next (some (record { site = site; last = chunk.timestamp; number = f.seq })))
    else Next v

module _ {E : Type 0} where
  -- All frames of the talkgroup over the turns are numbered by the voice that is heard.
  abbrev pub Story : AudioEncoder E → ℕ → ℕ → ℕ → List Turn → AudioRouter E → Option Voice → Type 0
  Story enc idle system tgid [] r v = Unit {0}
  Story enc idle system tgid (cleanup_turn now ∷ ts) r v =
      Story enc idle system tgid ts (cleanup_idle now r) (fades idle now v)
  Story enc idle system tgid (chunk_turn ids now chunk ∷ ts) r v =
      let p = process_chunk enc ids now chunk r in
      Heard (resolve_identity ids chunk r).0 idle system tgid now chunk v p.0
        (λ w. Story enc idle system tgid ts p.1 w)

-- The stream as a voice.
abbrev voice_of : ActiveStream → Voice
voice_of s = record { site = s.site_id; last = s.last_chunk; number = s.seq }

abbrev voice_in : Option ActiveStream → Option Voice
voice_in none = none
voice_in (some s) = some (voice_of s)

is_idle-lt :
    (now idle : ℕ) (s : ActiveStream) → is_idle now idle s ≡ true → s.last_chunk + idle < now
unfolding is_idle
is_idle-lt now idle s h = ltb→lt _ _ h

-- Which chunks a stream takes, and what becomes of it.
pub next_stream-some :
    (now idle : ℕ) (chunk : AudioChunk) (system site : ℕ) (old s : ActiveStream)
    → next_stream now idle chunk system site (some old) ≡ some s
    → ((old.site_id ≡ site) × (continued chunk old ≡ s))
      ⊎ ((old.site_id ≢ site) × (is_idle now idle old ≡ true) × (taken_over chunk site old ≡ s))
unfolding next_stream
next_stream-some now idle chunk system site old s h = elim (Bool-cases (old.site_id == site)) [
  | inl e ↦ inl (ground (arith, e), some-injective _ _ (rw e at h))
  | inr e ↦ elim (Bool-cases (is_idle now idle old)) [
    | inl i ↦ inr (ground (arith, e), i, some-injective _ _ (rw (e, i) at h))
    | inr i ↦ absurd (cc (rw (e, i) at h))
  ]
]

next_stream-Numbered :
    (now idle : ℕ) (chunk : AudioChunk) (system site : ℕ) (o : Option ActiveStream)
    (s : ActiveStream)
    → next_stream now idle chunk system site o ≡ some s
    → Numbered idle now (voice_in o) site s.seq
      × (voice_of s ≡ record { site = site; last = chunk.timestamp; number = s.seq })
unfolding next_stream
next_stream-Numbered now idle chunk system site none s h =
    let same = some-injective _ _ h in
    let site_same : site ≡ s.site_id = ap ActiveStream.site_id same in
    let last_same : chunk.timestamp ≡ s.last_chunk = ap ActiveStream.last_chunk same in
    (sym (ap ActiveStream.seq same), rw (site_same, last_same) refl)
next_stream-Numbered now idle chunk system site (some old) s h =
    elim (next_stream-some now idle chunk system site old s h) [
      | inl (own, same) ↦
          let site_same : old.site_id ≡ s.site_id = ap ActiveStream.site_id same in
          let last_same : chunk.timestamp ≡ s.last_chunk = ap ActiveStream.last_chunk same in
          (inl (sym own, sym (ap ActiveStream.seq same)), rw (← own, site_same, last_same) refl)
      | inr (other, gone, same) ↦
          let site_same : site ≡ s.site_id = ap ActiveStream.site_id same in
          let last_same : chunk.timestamp ≡ s.last_chunk = ap ActiveStream.last_chunk same in
          (
            inr (λ e. other (sym e), is_idle-lt now idle old gone, sym (ap ActiveStream.seq same)),
            rw (site_same, last_same) refl,
          )
    ]

guarded-fades :
    (now idle : ℕ) (o : Option ActiveStream)
    → voice_in (guarded (λ s. not (is_idle now idle s)) o) ≡ fades idle now (voice_in o)
unfolding is_idle
guarded-fades now idle none = refl
guarded-fades now idle (some s) = elim (Bool-cases (ltb (s.last_chunk + idle) now)) [
  | inl e ↦ rw e refl
  | inr e ↦ rw e refl
]

other_key :
    (system tgid system' tgid' : ℕ)
    → ((system == system') && (tgid == tgid')) ≡ false
    → (stream_key system tgid == stream_key system' tgid') ≡ false
other_key system tgid system' tgid' d =
    elim (Bool-cases (stream_key system tgid == stream_key system' tgid')) [
      | inr e ↦ e
      | inl e ↦
          let p =
            stream_key-injective system tgid system' tgid'
              ((text_same_iff (stream_key system tgid) (stream_key system' tgid')).0 e) in
          absurd (ground (arith, p.0, p.1, d))
    ]

module _ {E : Type 0} where
  -- One chunk, with what is heard after it.
  chunk-Heard :
      (id : Option (ℕ × ℕ)) (system tgid now : ℕ) (chunk : AudioChunk) (r : AudioRouter E)
      (o : Option AudioFrame) (r' : AudioRouter E) (Next : Option Voice → Type 0)
      → Routed id now chunk r o r'
      → Next (voice_in (lookup (stream_key system tgid) r'.active_streams))
      → Heard id r.idle_timeout system tgid now chunk
          (voice_in (lookup (stream_key system tgid) r.active_streams))
          o
          Next
  unfolding Routed
  chunk-Heard id system tgid now chunk r none r' Next h next =
      subst (λ m. Next (voice_in (lookup (stream_key system tgid) m))) h.0 next
  chunk-Heard id system tgid now chunk r (some f) r' Next (site, s, e, n, q, t, st, en, i, at)
        next =
      let key = stream_key f.system_id chunk.tgid in
      let own = stream_key system tgid in
      let slot = ap (lookup own) st ∙ lookup-insert key own s r.active_streams in
      elim (Bool-cases (is_of system tgid f)) [
        | inl is ↦
            let sys : f.system_id ≡ system = ground (arith, is) in
            let tg : chunk.tgid ≡ tgid = sym t ∙ ground (arith, is) in
            let same : key ≡ own = cc (sys, tg) in
            let now_there : lookup own r'.active_streams ≡ some s =
              slot
              ∙ ap (λ b. if b then some s else lookup own r.active_streams)
                  ((text_same_iff key own).1 same) in
            let (numbered, voice) =
              next_stream-Numbered now r.idle_timeout chunk f.system_id site
                (lookup key r.active_streams) s n in
            let here : Numbered r.idle_timeout now (voice_in (lookup own r.active_streams)) site
                f.seq =
              subst
                (λ k. Numbered r.idle_timeout now (voice_in (lookup k r.active_streams)) site f.seq)
                same
                (subst (Numbered r.idle_timeout now (voice_in (lookup key r.active_streams)) site)
                  (sym q) numbered) in
            let after : voice_in (lookup own r'.active_streams)
                ≡ some (record { site = site; last = chunk.timestamp; number = f.seq }) =
              ap voice_in now_there
              ∙ ap some voice
              ∙ ap (λ m. some (record { site = site; last = chunk.timestamp; number = m }))
                  (sym q) in
            rw is (site, at ∙ ap (λ m. some (m, site)) sys, here, subst Next after next)
        | inr is ↦
            let apart =
              other_key f.system_id chunk.tgid system tgid
                (subst (λ x. ((f.system_id == system) && (x == tgid)) ≡ false) t is) in
            let still_there : lookup own r'.active_streams ≡ lookup own r.active_streams =
              slot ∙ ap (λ b. if b then some s else lookup own r.active_streams) apart in
            rw is (subst (λ m. Next (voice_in m)) still_there next)
      ]

  run-Story :
      (enc : AudioEncoder E) (idle system tgid : ℕ) (ts : List Turn) (r : AudioRouter E)
      → Unique r.active_streams
      → r.idle_timeout ≡ idle
      → Story enc idle system tgid ts r
          (voice_in (lookup (stream_key system tgid) r.active_streams))
  run-Story enc idle system tgid [] r u i = tt
  run-Story enc idle system tgid (chunk_turn ids now chunk ∷ ts) r u i =
      let p = process_chunk enc ids now chunk r in
      let id = (resolve_identity ids chunk r).0 in
      let routed = process_chunk-Routed enc ids now chunk r in
      subst
        (λ k.
          Heard id k system tgid now chunk
            (voice_in (lookup (stream_key system tgid) r.active_streams)) p.0
            (Story enc idle system tgid ts p.1))
        i
        (chunk-Heard id system tgid now chunk r p.0 p.1 (Story enc idle system tgid ts p.1) routed (
          run-Story enc idle system tgid ts p.1 (Routed-Unique id now chunk r p.0 p.1 routed u)
            (Routed-idle id now chunk r p.0 p.1 routed ∙ i)))
  run-Story enc idle system tgid (cleanup_turn now ∷ ts) r u i =
      let own = stream_key system tgid in
      let c = cleanup_idle now r in
      let faded : voice_in (lookup own c.active_streams)
          ≡ fades idle now (voice_in (lookup own r.active_streams)) =
        ap voice_in (lookup-cleanup_idle now r own u)
        ∙ guarded-fades now r.idle_timeout (lookup own r.active_streams)
        ∙ ap (λ k. fades k now (voice_in (lookup own r.active_streams))) i in
      subst (Story enc idle system tgid ts c) faded
        (run-Story enc idle system tgid ts c (cleanup-Unique now r u) (cleanup-idle now r ∙ i))

  -- From a new router on, over any chunks and cleanups, whatever the identity cache and the encoders
  -- answer, the frames that are published for one system and talkgroup are numbered through: the first
  -- one has 0; a frame from the site that is heard has the number after the last one, modulo 2 ^ 16;
  -- one from another site has 0, and comes only once the time stamp of the last chunk heard lies more
  -- than the idle timeout back; and only a cleanup at such a time makes the next frame a first one.
  pub run-numbered :
      (enc : AudioEncoder E) (system tgid : ℕ) (ts : List Turn) (inst : Text) (idle bitrate : ℕ)
      → Story enc idle system tgid ts (new_audio_router inst idle bitrate) none
  run-numbered enc system tgid ts inst idle bitrate =
      subst (Story enc idle system tgid ts (new_audio_router inst idle bitrate))
        (ap voice_in (lookup-Absent (stream_key system tgid) [] tt))
        (run-Story enc idle system tgid ts (new_audio_router inst idle bitrate) tt refl)
