-- ===== src/Audio/Router/Sources.antt =====
-- Which instance a sender's address stands for: `resolveInstanceID`, and the identity resolver that
-- answers it.
use tr_engine.Common.{
  ℕ, ◌≡◌, refl, sym, ap, subst, ◌∙◌, Bool, true, false, not, Option, none, some, inl, inr, List, [],
  ◌∷◌, Text, ◌==◌, nat_comparable, text_comparable, arith, ◌&&◌, ◌||◌, Bool-cases, ◌⊎◌,
}
use tr_engine.Common.Map.{Map, lookup, insert, lookup-insert}
use tr_engine.Common.Bytes.{text_same_iff}
use tr_engine.Audio.{AudioChunk, AudioEncoder}
use tr_engine.Audio.Router.{
  IdentityLookup, ActiveStream, AudioRouter, claimed, is_empty, learned, known_or_learned,
  resolve_instance_id, resolve_identity, emit, route, process_chunk, cleanup_idle, new_audio_router,
}
use tr_engine.Audio.Router.Trace.{Turn, chunk_turn, cleanup_turn, run}

abbrev pub NotExcluded : (Text → Bool) → Option (ℕ × ℕ × Text) → Type 0
NotExcluded exclude none = Unit {0}
NotExcluded exclude (some (system, site, inst)) = exclude inst ≡ false

-- What the lookup promises: it does not answer with an excluded instance.
abbrev pub Respects : IdentityLookup → Type 0
Respects ids =
    (name : Text) (exclude : Text → Bool)
    → NotExcluded exclude (ids.lookup_by_short_name_any name exclude)

-- Every chunk is looked up in a cache that keeps the promise.
abbrev pub AllRespect : List Turn → Type 0
AllRespect [] = Unit {0}
AllRespect (chunk_turn ids now chunk ∷ ts) = Respects ids × AllRespect ts
AllRespect (cleanup_turn now ∷ ts) = AllRespect ts

-- No instance stands for two addresses.
abbrev NoShared : Map Text Text → Type 0
NoShared [] = Unit {0}
NoShared ((a, i) ∷ m) = (claimed m i ≡ false) × NoShared m

-- The source map after a chunk: the same, or with a new address and an instance that is free.
abbrev SourceStep : AudioChunk → Map Text Text → Map Text Text → Type 0
SourceStep chunk m m' =
    (m' ≡ m)
    ⊎ ((inst : Text) × (lookup chunk.source_addr m ≡ none)
        × (claimed m inst ≡ false)
        × (m' ≡ insert chunk.source_addr inst m))

-- Only an address that is not in the map is added.
abbrev Grows : AudioChunk → Map Text Text → Map Text Text → Type 0
Grows chunk m m' =
    (m' ≡ m)
    ⊎ ((inst : Text) × (lookup chunk.source_addr m ≡ none) × (m' ≡ insert chunk.source_addr inst m))

claimed-insert :
    (a i j : Text) (m : Map Text Text)
    → lookup a m ≡ none
    → claimed (insert a i m) j ≡ (claimed m j || (i == j))
unfolding claimed insert lookup
claimed-insert a i j [] h = ground arith
claimed-insert a i j ((b, k) ∷ m) h = elim (Bool-cases (b == a)) [
  | inl e ↦ absurd (cc (rw e at h))
  | inr e ↦ rw e (rw (claimed-insert a i j m (rw e at h)) (ground arith))
]

insert-NoShared :
    (a i : Text) (m : Map Text Text)
    → lookup a m ≡ none
    → claimed m i ≡ false
    → NoShared m
    → NoShared (insert a i m)
unfolding claimed insert lookup
insert-NoShared a i [] h c n = (refl, tt)
insert-NoShared a i ((b, k) ∷ m) h c n = elim (Bool-cases (b == a)) [
  | inl e ↦ absurd (cc (rw e at h))
  | inr e ↦
      let free = rw e at h in
      rw e (
        claimed-insert a i k m free
            ∙ ground
                (arith, n.0, c, text_same_iff k i, text_same_iff i k, claimed m i, claimed m k),
        insert-NoShared a i m free (ground (arith, c)) n.1,
      )
]

lookup-claimed : (a i : Text) (m : Map Text Text) → lookup a m ≡ some i → claimed m i ≡ true
unfolding claimed lookup
lookup-claimed a i [] h = absurd (cc (h))
lookup-claimed a i ((b, k) ∷ m) h = ground (arith, lookup-claimed a i m, text_same_iff k i, h)

NoShared-lookup :
    (a b i : Text) (m : Map Text Text)
    → NoShared m
    → lookup a m ≡ some i
    → lookup b m ≡ some i
    → a ≡ b
unfolding lookup
NoShared-lookup a b i [] n h g = absurd (cc (h))
NoShared-lookup a b i ((c, k) ∷ m) n h g = ground (
  arith,
  h,
  g,
  n.0,
  NoShared-lookup a b i m n.1,
  lookup-claimed a i m,
  lookup-claimed b i m,
  text_same_iff c a,
  text_same_iff c b,
)

SourceStep-NoShared :
    (chunk : AudioChunk) (m m' : Map Text Text) → SourceStep chunk m m' → NoShared m → NoShared m'
SourceStep-NoShared chunk m m' (inl e) n = subst NoShared (sym e) n
SourceStep-NoShared chunk m m' (inr (inst, h, c, e)) n =
    subst NoShared (sym e) (insert-NoShared chunk.source_addr inst m h c n)

Grows-lookup :
    (chunk : AudioChunk) (m m' : Map Text Text) (a i : Text)
    → Grows chunk m m'
    → lookup a m ≡ some i
    → lookup a m' ≡ some i
Grows-lookup chunk m m' a i (inl e) l = ap (lookup a) e ∙ l
Grows-lookup chunk m m' a i (inr (inst, h, e)) l =
    ap (lookup a) e
    ∙ ground
        (arith, lookup-insert chunk.source_addr a inst m, text_same_iff chunk.source_addr a, h, l)

module _ {E : Type 0} where
  learned-SourceStep :
      (chunk : AudioChunk) (r : AudioRouter E) (o : Option (ℕ × ℕ × Text))
      → lookup chunk.source_addr r.source_map ≡ none
      → (Grows chunk r.source_map (learned chunk r o).1.source_map)
        × (NotExcluded (claimed r.source_map) o
            → SourceStep chunk r.source_map (learned chunk r o).1.source_map)
  learned-SourceStep chunk r none h = (inl refl, λ n. inl refl)
  learned-SourceStep chunk r (some (system, site, inst)) h =
      (inr (inst, h, refl), λ n. inr (inst, h, n, refl))

  known_or_learned-SourceStep :
      (ids : IdentityLookup) (chunk : AudioChunk) (r : AudioRouter E) (o : Option Text)
      → lookup chunk.source_addr r.source_map ≡ o
      → (Grows chunk r.source_map (known_or_learned ids chunk r o).1.source_map)
        × (Respects ids
            → SourceStep chunk r.source_map (known_or_learned ids chunk r o).1.source_map)
  known_or_learned-SourceStep ids chunk r (some inst) h = (inl refl, λ n. inl refl)
  known_or_learned-SourceStep ids chunk r none h =
      let answer = ids.lookup_by_short_name_any chunk.short_name (claimed r.source_map) in
      let both = learned-SourceStep chunk r answer h in
      (both.0, λ n. both.1 (n chunk.short_name (claimed r.source_map)))

  resolve_identity-SourceStep :
      (ids : IdentityLookup) (chunk : AudioChunk) (r : AudioRouter E)
      → (Grows chunk r.source_map (resolve_identity ids chunk r).1.source_map)
        × (Respects ids → SourceStep chunk r.source_map (resolve_identity ids chunk r).1.source_map)
  unfolding resolve_identity resolve_instance_id
  resolve_identity-SourceStep ids chunk r =
      elim (Bool-cases (chunk.system_id == 0 && not (is_empty chunk.short_name))) [
        | inr e ↦ rw e (inl refl, λ n. inl refl)
        | inl e ↦ elim (Bool-cases (is_empty chunk.source_addr || is_empty chunk.short_name)) [
          | inl f ↦ rw (e, f) (inl refl, λ n. inl refl)
          | inr f ↦
              rw (e, f)
                (known_or_learned-SourceStep ids chunk r (lookup chunk.source_addr r.source_map)
                  refl)
        ]
      ]

  emit_sources :
      (enc : AudioEncoder E) (chunk : AudioChunk) (system : ℕ) (o : Option ActiveStream)
      (r : AudioRouter E)
      → (emit enc chunk system o r).1.source_map ≡ r.source_map
  unfolding emit
  emit_sources enc chunk system none r = refl
  emit_sources enc chunk system (some s) r = refl

  route_sources :
      (enc : AudioEncoder E) (now : ℕ) (chunk : AudioChunk) (q : Option (ℕ × ℕ) × AudioRouter E)
      → (route enc now chunk q).1.source_map ≡ q.1.source_map
  route_sources enc now chunk (none, r) = refl
  route_sources enc now chunk (some (system, site), r) =
      elim (Bool-cases (system == 0 || chunk.tgid == 0)) [
        | inl e ↦ rw e refl
        | inr e ↦ rw e (emit_sources enc chunk system _ r)
      ]

  process_chunk_sources :
      (enc : AudioEncoder E) (ids : IdentityLookup) (now : ℕ) (chunk : AudioChunk)
      (r : AudioRouter E)
      → (process_chunk enc ids now chunk r).1.source_map
        ≡ (resolve_identity ids chunk r).1.source_map
  unfolding process_chunk
  process_chunk_sources enc ids now chunk r =
      route_sources enc now chunk (resolve_identity ids chunk r)

  run-NoShared :
      (enc : AudioEncoder E) (ts : List Turn) (r : AudioRouter E)
      → AllRespect ts
      → NoShared r.source_map
      → NoShared (run enc ts r).1.source_map
  unfolding cleanup_idle
  run-NoShared enc [] r a n = n
  run-NoShared enc (chunk_turn ids now chunk ∷ ts) r a n =
      run-NoShared enc ts (process_chunk enc ids now chunk r).1 a.1 (
        subst NoShared (sym (process_chunk_sources enc ids now chunk r)) (
          SourceStep-NoShared chunk r.source_map _ ((resolve_identity-SourceStep ids chunk r).1 a.0)
            n))
  run-NoShared enc (cleanup_turn now ∷ ts) r a n = run-NoShared enc ts (cleanup_idle now r) a n

  -- From a new router on, over any chunks and cleanups, if the identity caches do not answer with an
  -- excluded instance: no two addresses are learned for the same instance.
  pub run_exclusive :
      (enc : AudioEncoder E) (ts : List Turn) (inst : Text) (idle bitrate : ℕ) (a b i : Text)
      → AllRespect ts
      → lookup a (run enc ts (new_audio_router inst idle bitrate)).1.source_map ≡ some i
      → lookup b (run enc ts (new_audio_router inst idle bitrate)).1.source_map ≡ some i
      → a ≡ b
  run_exclusive enc ts inst idle bitrate a b i respects h g =
      NoShared-lookup a b i _ (run-NoShared enc ts (new_audio_router inst idle bitrate) respects tt)
        h g

  run-keeps_source :
      (enc : AudioEncoder E) (ts : List Turn) (r : AudioRouter E) (a i : Text)
      → lookup a r.source_map ≡ some i
      → lookup a (run enc ts r).1.source_map ≡ some i
  unfolding cleanup_idle
  run-keeps_source enc [] r a i h = h
  run-keeps_source enc (chunk_turn ids now chunk ∷ ts) r a i h =
      run-keeps_source enc ts (process_chunk enc ids now chunk r).1 a i (
        ap (lookup a) (process_chunk_sources enc ids now chunk r)
        ∙ Grows-lookup chunk r.source_map _ a i (resolve_identity-SourceStep ids chunk r).0 h)
  run-keeps_source enc (cleanup_turn now ∷ ts) r a i h =
      run-keeps_source enc ts (cleanup_idle now r) a i h

  -- An instance that was learned for an address stays: after any chunks and cleanups, a chunk of that
  -- address with a short name is resolved to the instance, and the router stays as it is, whatever
  -- the identity cache answers by then.
  pub resolve_instance_id-run :
      (enc : AudioEncoder E) (ts : List Turn) (r : AudioRouter E) (i : Text) (ids : IdentityLookup)
      (chunk : AudioChunk)
      → is_empty chunk.source_addr ≡ false
      → is_empty chunk.short_name ≡ false
      → lookup chunk.source_addr r.source_map ≡ some i
      → let r' = (run enc ts r).1 in resolve_instance_id ids chunk r' ≡ (i, r')
  unfolding resolve_instance_id
  resolve_instance_id-run enc ts r i ids chunk a n h =
      rw (a, n)
        (ap (known_or_learned ids chunk (run enc ts r).1)
          (run-keeps_source enc ts r chunk.source_addr i h))
