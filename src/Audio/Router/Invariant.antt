-- ===== src/Audio/Router/Invariant.antt =====
-- What streams and encoders look like after any run of the router.
use tr_engine.Common.{
  ℕ, ◌≡◌, refl, sym, ap, subst, ◌∙◌, not, Option, none, some, inl, inr, List, [], ◌∷◌, Text, ◌==◌,
  nat_comparable, text_comparable, arith, ◌<◌, Bool-cases, ◌⊎◌,
}
use mathlib.Core.Option.{some-injective}
use tr_engine.Common.Map.{
  lookup, insert, lookup-insert, lookup-retain, insert-Unique, retain-Unique, Unique, guarded,
  lookup-Absent,
}
use tr_engine.Common.Bytes.{text_same_iff}
use tr_engine.Audio.{AudioChunk, AudioFrame, AudioEncoder}
use tr_engine.Audio.Router.{
  ActiveStream, AudioRouter, stream_key, is_idle, next_stream, process_chunk, resolve_identity,
  cleanup_idle, keeps_encoder, new_audio_router,
}
use tr_engine.Audio.Router.Keys.{stream_key-injective}
use tr_engine.Audio.Router.Slots.{Routed, process_chunk-Routed, Routed-Unique, cleanup-Unique}
use tr_engine.Audio.Router.Trace.{Turn, chunk_turn, cleanup_turn, run, next_stream-some}

-- A stream and an encoder, or neither; the stream under its own key, its number in 16 bits.
abbrev pub SlotIsValid : {E : Type 0} → Text → Option ActiveStream → Option E → Type 0
SlotIsValid k none none = Unit {0}
SlotIsValid k none (some e) = ⊥
SlotIsValid k (some s) none = ⊥
SlotIsValid k (some s) (some e) = ((tgid : ℕ) × (k ≡ stream_key s.system_id tgid)) × (s.seq < 65536)

-- The stream that goes on is in its slot, under the same system.
next_stream_valid :
    (now idle : ℕ) (chunk : AudioChunk) (system site : ℕ) (o : Option ActiveStream)
    (s : ActiveStream)
    → next_stream now idle chunk system site o ≡ some s
    → ((old : ActiveStream) × (o ≡ some old) × (s.system_id ≡ old.system_id) × (s.seq < 65536))
      ⊎ ((o ≡ none) × (s.system_id ≡ system) × (s.seq < 65536))
unfolding next_stream
next_stream_valid now idle chunk system site none s h =
    let p = some-injective _ _ h in
    inr (
      refl,
      sym (ap (λ t. t.system_id) p),
      subst (λ n. n < 65536) (ap (λ t. t.seq) p) (ground arith),
    )
next_stream_valid now idle chunk system site (some old) s h =
    elim (next_stream-some now idle chunk system site old s h) [
      | inl (own, p) ↦ inl (
        old,
        refl,
        sym (ap (λ t. t.system_id) p),
        subst (λ n. n < 65536) (ap (λ t. t.seq) p) (ground arith),
      )
      | inr (other, gone, p) ↦ inl (
        old,
        refl,
        sym (ap (λ t. t.system_id) p),
        subst (λ n. n < 65536) (ap (λ t. t.seq) p) (ground arith),
      )
    ]

module _ {E : Type 0} where
  abbrev pub At : Text → AudioRouter E → Type 0
  At k r = SlotIsValid k (lookup k r.active_streams) (lookup k r.encoders)

  insert-At :
      (k : Text) (s : ActiveStream) (e : E) (tgid : ℕ) (k' : Text) (r : AudioRouter E)
      → k ≡ stream_key s.system_id tgid
      → s.seq < 65536
      → At k' r
      → SlotIsValid k' (lookup k' (insert k s r.active_streams)) (lookup k' (insert k e r.encoders))
  insert-At k s e tgid k' r own small v = elim (Bool-cases (k == k')) [
    | inl is ↦
        rw (lookup-insert k k' s r.active_streams, lookup-insert k k' e r.encoders, is)
          ((tgid, sym ((text_same_iff k k').0 is) ∙ own), small)
    | inr is ↦ rw (lookup-insert k k' s r.active_streams, lookup-insert k k' e r.encoders, is) v
  ]

  -- A valid slot that has a stream of the system `system`.
  old_system :
      (k : Text) (o : Option ActiveStream) (e : Option E) (old : ActiveStream) (system tgid : ℕ)
      → SlotIsValid k o e
      → o ≡ some old
      → k ≡ stream_key system tgid
      → old.system_id ≡ system
  old_system k none e old system tgid v h own = absurd (cc (h))
  old_system k (some s) none old system tgid v h own = absurd v
  old_system k (some s) (some e) old system tgid v h own =
      sym (ap (λ t. t.system_id) (some-injective _ _ h))
      ∙ (stream_key-injective s.system_id v.0.0 system tgid (sym v.0.1 ∙ own)).0

  chunk-At :
      (id : Option (ℕ × ℕ)) (now : ℕ) (chunk : AudioChunk) (r : AudioRouter E)
      (o : Option AudioFrame) (r' : AudioRouter E) (k : Text)
      → Routed id now chunk r o r'
      → ((j : Text) → At j r)
      → At k r'
  unfolding Routed
  chunk-At id now chunk r none r' k h v =
      subst (λ m. SlotIsValid k (lookup k m) (lookup k r'.encoders)) (sym h.0)
        (subst (λ m. SlotIsValid k (lookup k r.active_streams) (lookup k m)) (sym h.1) (v k))
  chunk-At id now chunk r (some f) r' k (site, s, e, n, q, t, st, en, i, at) v =
      let key = stream_key f.system_id chunk.tgid in
      let done : s.system_id ≡ f.system_id → s.seq < 65536 → At k r' = λ own small.
        subst (λ m. SlotIsValid k (lookup k m) (lookup k r'.encoders)) (sym st)
          (subst (λ m. SlotIsValid k (lookup k (insert key s r.active_streams)) (lookup k m))
            (sym en)
            (insert-At key s e chunk.tgid k r (ap (λ n. stream_key n chunk.tgid) (sym own)) small
              (v k))) in
      elim (next_stream_valid now r.idle_timeout chunk f.system_id site _ s n) [
        | inl (old, there, same, small) ↦
            done (same ∙ old_system key _ _ old f.system_id chunk.tgid (v key) there refl) small
        | inr (gone, same, small) ↦ done same small
      ]

  guarded-SlotIsValid :
      (now idle : ℕ) (k : Text) (o : Option ActiveStream) (e : Option E)
      → SlotIsValid k o e
      → SlotIsValid k
          (guarded (λ s. not (is_idle now idle s)) o)
          (guarded (λ x. keeps_encoder now idle o) e)
  guarded-SlotIsValid now idle k none none v = tt
  guarded-SlotIsValid now idle k none (some e) v = v
  guarded-SlotIsValid now idle k (some s) none v = absurd v
  guarded-SlotIsValid now idle k (some s) (some e) v = elim (Bool-cases (is_idle now idle s)) [
    | inl i ↦ rw i tt
    | inr i ↦ rw i v
  ]

  Routed-encoders :
      (id : Option (ℕ × ℕ)) (now : ℕ) (chunk : AudioChunk) (r : AudioRouter E)
      (o : Option AudioFrame) (r' : AudioRouter E)
      → Routed id now chunk r o r'
      → Unique r.encoders
      → Unique r'.encoders
  unfolding Routed
  Routed-encoders id now chunk r none r' h u = subst Unique (sym h.1) u
  Routed-encoders id now chunk r (some f) r' (site, s, e, n, q, t, st, en, i, at) u =
      subst Unique (sym en) (insert-Unique _ e r.encoders u)

  cleanup-At :
      (now : ℕ) (r : AudioRouter E) (k : Text)
      → Unique r.active_streams
      → Unique r.encoders
      → At k r
      → At k (cleanup_idle now r)
  unfolding cleanup_idle
  cleanup-At now r k u w v =
      rw (lookup-retain (λ j s. not (is_idle now r.idle_timeout s)) k r.active_streams u) (
        rw
          (lookup-retain (λ j e. keeps_encoder now r.idle_timeout (lookup j r.active_streams)) k
            r.encoders w)
          (guarded-SlotIsValid now r.idle_timeout k _ _ v))

  run-At :
      (enc : AudioEncoder E) (ts : List Turn) (r : AudioRouter E) (k : Text)
      → Unique r.active_streams
      → Unique r.encoders
      → ((j : Text) → At j r)
      → At k (run enc ts r).1
  unfolding cleanup_idle
  run-At enc [] r k u w v = v k
  run-At enc (chunk_turn ids now chunk ∷ ts) r k u w v =
      let p = process_chunk enc ids now chunk r in
      let routed = process_chunk-Routed enc ids now chunk r in
      run-At enc ts p.1 k
        (Routed-Unique (resolve_identity ids chunk r).0 now chunk r p.0 p.1 routed u)
        (Routed-encoders (resolve_identity ids chunk r).0 now chunk r p.0 p.1 routed w)
        (λ j. chunk-At (resolve_identity ids chunk r).0 now chunk r p.0 p.1 j routed v)
  run-At enc (cleanup_turn now ∷ ts) r k u w v =
      run-At enc ts (cleanup_idle now r) k (cleanup-Unique now r u) (retain-Unique _ r.encoders w)
        (λ j. cleanup-At now r j u w (v j))

  -- From a new router on, over any chunks and cleanups: under every key there are a stream and an
  -- encoder or neither of them, so no encoder outlives its stream; a stream stands under the key of
  -- its own system and some talkgroup, and its sequence number is below 2 ^ 16.
  pub run-At_key :
      (enc : AudioEncoder E) (ts : List Turn) (inst : Text) (idle bitrate : ℕ) (k : Text)
      → At k (run enc ts (new_audio_router inst idle bitrate)).1
  run-At_key enc ts inst idle bitrate k =
      run-At enc ts (new_audio_router inst idle bitrate) k tt tt
        (λ j. rw (lookup-Absent {V = ActiveStream} j [] tt, lookup-Absent {V = E} j [] tt) tt)
