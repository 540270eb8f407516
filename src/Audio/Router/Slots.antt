-- ===== src/Audio/Router/Slots.antt =====
-- One stream across a step of the router: what a chunk does to the stream under a key, what the
-- published frame carries, and what a cleanup removes.
use tr_engine.Common.{
  ℕ, ◌≡◌, refl, sym, ap, ◌∙◌, not, Option, none, some, inl, inr, Text, ◌==◌, nat_comparable,
  text_comparable, ◌&&◌, ◌||◌, Bool-cases, subst,
}
use tr_engine.Common.Map.{
  lookup, insert, lookup-retain, insert-Unique, retain-Unique, Unique, guarded,
}
use tr_engine.Audio.{AudioChunk, AudioFrame, AudioEncoder}
use tr_engine.Audio.Router.{
  IdentityLookup, ActiveStream, AudioRouter, stream_key, is_idle, next_stream, resolve_instance_id,
  resolve_identity, known_or_learned, learned, emit, route, process_chunk, cleanup_idle, is_empty,
  claimed,
}

-- Streams and encoders of two routers agree; the rest may differ.
abbrev pub SameStreams : {E : Type 0} → AudioRouter E → AudioRouter E → Type 0
SameStreams r r' =
    (r'.active_streams ≡ r.active_streams)
    × (r'.encoders ≡ r.encoders)
    × (r'.idle_timeout ≡ r.idle_timeout)

pair_path {ℓ κ} :
    {A : Type ℓ} {B : Type κ} {a a' : A} {b b' : B}
    → a ≡ a'
    → b ≡ b'
    → ◌≡◌ {A = A × B} (a, b) (a', b')
pair_path p q = cc (p, q)

module _ {E : Type 0} where
  known_or_learned-SameStreams :
      (ids : IdentityLookup) (chunk : AudioChunk) (r : AudioRouter E) (o : Option Text)
      → SameStreams r (known_or_learned ids chunk r o).1
  known_or_learned-SameStreams ids chunk r (some inst) = (refl, refl, refl)
  known_or_learned-SameStreams ids chunk r none =
      learned-SameStreams (ids.lookup_by_short_name_any chunk.short_name (claimed r.source_map))
    where
      learned-SameStreams : (o : Option (ℕ × ℕ × Text)) → SameStreams r (learned chunk r o).1
      learned-SameStreams none = (refl, refl, refl)
      learned-SameStreams (some (system, site, inst)) = (refl, refl, refl)

  resolve_instance_id-SameStreams :
      (ids : IdentityLookup) (chunk : AudioChunk) (r : AudioRouter E)
      → SameStreams r (resolve_instance_id ids chunk r).1
  unfolding resolve_instance_id
  resolve_instance_id-SameStreams ids chunk r =
      elim (Bool-cases (is_empty chunk.source_addr || is_empty chunk.short_name)) [
        | inl e ↦ rw e (refl, refl, refl)
        | inr e ↦
            rw e (known_or_learned-SameStreams ids chunk r (lookup chunk.source_addr r.source_map))
      ]

  pub resolve_identity-SameStreams :
      (ids : IdentityLookup) (chunk : AudioChunk) (r : AudioRouter E)
      → SameStreams r (resolve_identity ids chunk r).1
  unfolding resolve_identity
  resolve_identity-SameStreams ids chunk r =
      elim (Bool-cases (chunk.system_id == 0 && not (is_empty chunk.short_name))) [
        | inl e ↦ rw e (resolve_instance_id-SameStreams ids chunk r)
        | inr e ↦ rw e (refl, refl, refl)
      ]

  -- What one chunk of this identity may do, told by the frame that it publishes.
  unfoldable pub Routed :
      Option (ℕ × ℕ) → ℕ → AudioChunk → AudioRouter E → Option AudioFrame → AudioRouter E → Type 0
  Routed id now chunk r none r' = SameStreams r r'
  Routed id now chunk r (some f) r' =
      let key = stream_key f.system_id chunk.tgid in
      (site : ℕ) × (s : ActiveStream) × (e : E) × (next_stream now r.idle_timeout chunk f.system_id
          site (lookup key r.active_streams)
        ≡ some s)
      × (f.seq ≡ s.seq)
      × (f.tgid ≡ chunk.tgid)
      × (r'.active_streams ≡ insert key s r.active_streams)
      × (r'.encoders ≡ insert key e r.encoders)
      × (r'.idle_timeout ≡ r.idle_timeout)
      × (id ≡ some (f.system_id, site))

  emit-Routed :
      (enc : AudioEncoder E) (now : ℕ) (chunk : AudioChunk) (system site : ℕ) (r : AudioRouter E)
      (o : Option ActiveStream)
      → next_stream now r.idle_timeout chunk system site
          (lookup (stream_key system chunk.tgid) r.active_streams)
        ≡ o
      → let q = emit enc chunk system o r in Routed (some (system, site)) now chunk r q.0 q.1
  unfolding emit Routed
  emit-Routed enc now chunk system site r none h = (refl, refl, refl)
  emit-Routed enc now chunk system site r (some s) h =
      (site, s, _, h, refl, refl, refl, refl, refl, refl)

  -- Routed looks at the streams, the encoders and the timeout only.
  Routed-start :
      (id : Option (ℕ × ℕ)) (now : ℕ) (chunk : AudioChunk) (r r1 : AudioRouter E)
      (o : Option AudioFrame) (r' : AudioRouter E)
      → SameStreams r r1
      → Routed id now chunk r1 o r'
      → Routed id now chunk r o r'
  unfolding Routed
  Routed-start id now chunk r r1 none r' a b = (b.0 ∙ a.0, b.1 ∙ a.1, b.2 ∙ a.2)
  Routed-start id now chunk r r1 (some f) r' a (site, s, e, h, q, t, st, en, idle, at) =
      let key = stream_key f.system_id chunk.tgid in
      (
        site,
        s,
        e,
        sym (
              ap (λ p. next_stream now p.0 chunk f.system_id site (lookup key p.1))
                (pair_path a.2 a.0))
            ∙ h,
        q,
        t,
        st ∙ ap (insert key s) a.0,
        en ∙ ap (insert key e) a.1,
        idle ∙ a.2,
        at,
      )

  route-Routed :
      (enc : AudioEncoder E) (now : ℕ) (chunk : AudioChunk) (q : Option (ℕ × ℕ) × AudioRouter E)
      → let p = route enc now chunk q in Routed q.0 now chunk q.1 p.0 p.1
  unfolding Routed
  route-Routed enc now chunk (none, r) = (refl, refl, refl)
  route-Routed enc now chunk (some (system, site), r) =
      elim (Bool-cases (system == 0 || chunk.tgid == 0)) [
        | inl e ↦ rw e (refl, refl, refl)
        | inr e ↦ rw e (emit-Routed enc now chunk system site r _ refl)
      ]

  pub process_chunk-Routed :
      (enc : AudioEncoder E) (ids : IdentityLookup) (now : ℕ) (chunk : AudioChunk)
      (r : AudioRouter E)
      → let p = process_chunk enc ids now chunk r in
        Routed (resolve_identity ids chunk r).0 now chunk r p.0 p.1
  unfolding process_chunk
  process_chunk-Routed enc ids now chunk r =
      let q = resolve_identity ids chunk r in
      let p = route enc now chunk q in
      Routed-start q.0 now chunk r q.1 p.0 p.1 (resolve_identity-SameStreams ids chunk r)
        (route-Routed enc now chunk q)

  pub Routed-Unique :
      (id : Option (ℕ × ℕ)) (now : ℕ) (chunk : AudioChunk) (r : AudioRouter E)
      (o : Option AudioFrame) (r' : AudioRouter E)
      → Routed id now chunk r o r'
      → Unique r.active_streams
      → Unique r'.active_streams
  unfolding Routed
  Routed-Unique id now chunk r none r' h u = subst Unique (sym h.0) u
  Routed-Unique id now chunk r (some f) r' (site, s, e, n, q, t, st, en, i, at) u =
      subst Unique (sym st) (insert-Unique _ s r.active_streams u)

  pub Routed-idle :
      (id : Option (ℕ × ℕ)) (now : ℕ) (chunk : AudioChunk) (r : AudioRouter E)
      (o : Option AudioFrame) (r' : AudioRouter E)
      → Routed id now chunk r o r'
      → r'.idle_timeout ≡ r.idle_timeout
  unfolding Routed
  Routed-idle id now chunk r none r' h = h.2
  Routed-idle id now chunk r (some f) r' (site, s, e, n, q, t, st, en, i, at) = i

  pub cleanup-idle :
      (now : ℕ) (r : AudioRouter E) → (cleanup_idle now r).idle_timeout ≡ r.idle_timeout
  unfolding cleanup_idle
  cleanup-idle now r = refl

  pub cleanup-Unique :
      (now : ℕ) (r : AudioRouter E)
      → Unique r.active_streams
      → Unique (cleanup_idle now r).active_streams
  unfolding cleanup_idle
  cleanup-Unique now r u = retain-Unique _ r.active_streams u

  pub lookup-cleanup_idle :
      (now : ℕ) (r : AudioRouter E) (k : Text)
      → Unique r.active_streams
      → lookup k (cleanup_idle now r).active_streams
        ≡ guarded (λ s. not (is_idle now r.idle_timeout s)) (lookup k r.active_streams)
  unfolding cleanup_idle
  lookup-cleanup_idle now r k u = lookup-retain _ k r.active_streams u
