-- ===== src/Audio/Router/Dedup.antt =====
-- What happens to a chunk of a talkgroup whose stream is there: the two sites' rule, and what every
-- stream looks like.
use tr_engine.Common.{
  ℕ, ◌≡◌, ◌≢◌, refl, sym, ap, subst, ◌∙◌, false, Option, none, some, ◌⊎◌, inl, inr, Text, ◌==◌,
  nat_comparable, text_comparable, arith, ◌||◌, ◌+◌, ◌%◌, ◌<◌, ◌≤◌, Bool-cases, ltb, ltb→lt,
}
use tr_engine.Common.Map.{lookup, insert}
use tr_engine.Audio.{AudioChunk, AudioFrame, AudioEncoder}
use tr_engine.Audio.Router.{
  IdentityLookup, ActiveStream, AudioRouter, stream_key, is_idle, next_stream, process_chunk,
  continued, taken_over, emit, route, resolve_identity,
}
use tr_engine.Audio.Router.Slots.{SameStreams, resolve_identity-SameStreams}

abbrev pub seq_of : Option AudioFrame → Option ℕ
seq_of none = none
seq_of (some f) = some f.seq

module _ {E : Type 0} where
  -- The result publishes a frame with this number, and stores a stream with this number, this site
  -- and this start, which last heard the chunk.
  abbrev pub Publishes :
      Text → AudioChunk → ℕ → ℕ → ℕ → AudioRouter E → Option AudioFrame → AudioRouter E → Type 0
  Publishes key chunk number site started r f r' =
      (seq_of f ≡ some number)
      × ((t : ActiveStream) × (r'.active_streams ≡ insert key t r.active_streams)
          × (t.seq ≡ number)
          × (t.site_id ≡ site)
          × (t.last_chunk ≡ chunk.timestamp)
          × (t.started_at ≡ started))

  abbrev pub Decision :
      ℕ
      → AudioChunk
      → ℕ
      → ℕ
      → ActiveStream
      → AudioRouter E
      → Option AudioFrame
      → AudioRouter E
      → Type 0
  Decision now chunk system site s r f r' =
      let key = stream_key system chunk.tgid in
      ((s.site_id ≡ site) × Publishes key chunk ((s.seq + 1) % 65536) site s.started_at r f r')
      ⊎ ((s.site_id ≢ site)
          × (s.last_chunk + r.idle_timeout < now)
          × Publishes key chunk 0 site chunk.timestamp r f r')
      ⊎ ((s.site_id ≢ site) × (now ≤ s.last_chunk + r.idle_timeout) × (f ≡ none) × SameStreams r r')

  emit-Decision :
      (enc : AudioEncoder E) (now : ℕ) (chunk : AudioChunk) (system site : ℕ) (s : ActiveStream)
      (r r1 : AudioRouter E)
      → SameStreams r r1
      → let q =
          emit enc chunk system (next_stream now r.idle_timeout chunk system site (some s)) r1 in
        Decision now chunk system site s r q.0 q.1
  unfolding emit next_stream is_idle
  emit-Decision enc now chunk system site s r r1 same = elim (Bool-cases (s.site_id == site)) [
    | inl e ↦
        let own : s.site_id ≡ site = ground (arith, e) in
        rw e (inl (own, (refl, (continued chunk s, ap (insert _ _) same.0, refl, own, refl, refl))))
    | inr e ↦ elim (Bool-cases (ltb (s.last_chunk + r.idle_timeout) now)) [
      | inl i ↦
          rw (e, i)
            (inr (
              inl (
                (λ o. ground (arith, e, o)),
                ltb→lt _ _ i,
                (refl, (taken_over chunk site s, ap (insert _ _) same.0, refl, refl, refl, refl)),
              )))
      | inr i ↦ rw (e, i) (inr (inr ((λ o. ground (arith, e, o)), ground (arith, i), refl, same)))
    ]
  ]

  route_known :
      (enc : AudioEncoder E) (now : ℕ) (chunk : AudioChunk) (system site : ℕ) (o : Option (ℕ × ℕ))
      (r : AudioRouter E)
      → o ≡ some (system, site)
      → 0 < system
      → 0 < chunk.tgid
      → route enc now chunk (o, r)
        ≡ emit enc chunk system
            (next_stream now r.idle_timeout chunk system site
              (lookup (stream_key system chunk.tgid) r.active_streams))
            r
  route_known enc now chunk system site o r h a b =
      let valid : (system == 0 || chunk.tgid == 0) ≡ false = ground (arith, a, b) in
      subst
        (λ q.
          route enc now chunk (q, r)
          ≡ emit enc chunk system
              (next_stream now r.idle_timeout chunk system site
                (lookup (stream_key system chunk.tgid) r.active_streams))
              r)
        (sym h) (rw valid refl)

  -- A chunk that resolves to a system and a site, with a talkgroup, while a stream of that talkgroup
  -- is there: if the stream is of the chunk's site, a frame with the next sequence number modulo
  -- 2 ^ 16 is published, and the stream keeps its site and its start; if it is of another site and idle
  -- for longer than the timeout, the chunk's site takes the stream over, which starts anew, and the
  -- frame has number 0; if it is of another site and not idle, nothing is
  -- published, and streams and encoders stay as they are.
  pub process_chunk_dedup :
      (enc : AudioEncoder E) (ids : IdentityLookup) (now : ℕ) (chunk : AudioChunk) (system site : ℕ)
      (s : ActiveStream) (r : AudioRouter E)
      → (resolve_identity ids chunk r).0 ≡ some (system, site)
      → 0 < system
      → 0 < chunk.tgid
      → lookup (stream_key system chunk.tgid) r.active_streams ≡ some s
      → let q = process_chunk enc ids now chunk r in Decision now chunk system site s r q.0 q.1
  unfolding process_chunk
  process_chunk_dedup enc ids now chunk system site s r h a b l =
      let q = resolve_identity ids chunk r in
      let same = resolve_identity-SameStreams ids chunk r in
      let routed = route_known enc now chunk system site q.0 q.1 h a b in
      let slot : lookup (stream_key system chunk.tgid) q.1.active_streams ≡ some s =
        ap (lookup (stream_key system chunk.tgid)) same.0 ∙ l in
      let step =
        routed
        ∙ ap (λ o. emit enc chunk system (next_stream now q.1.idle_timeout chunk system site o) q.1)
            slot
        ∙ ap (λ t. emit enc chunk system (next_stream now t chunk system site (some s)) q.1)
            same.2 in
      subst (λ p. Decision now chunk system site s r p.0 p.1) (sym step)
        (emit-Decision enc now chunk system site s r q.1 same)
