-- ===== src/Identity/Run.antt =====
-- The resolver over a sequence of calls: an identity that was once given out stays.
use tr_engine.Common.{
  ◌≡◌, ap, ◌∙◌, Option, none, some, inl, inr, List, [], ◌∷◌, Text, ℕ, text_comparable, arith,
  same_refl, sym,
}
use tr_engine.Common.Map.{lookup, lookup-insert, lookup-map_values, map_option}
use tr_engine.Common.Bytes.{text_same_iff}
use tr_engine.Identity.{
  ResolvedIdentity, IdentityResolver, Database, cache_key, resolve, resolve_slow, rewrite_system_id,
  with_new_system,
}
use tr_engine.Identity.Outcome.{Created, resolve_hit, resolve_outcome}

pub data Call : Type 0 where
  resolve_call : Text → Text → Call
  rewrite_call : ℕ → ℕ → Call

abbrev pub rewritten : List Call → ResolvedIdentity → ResolvedIdentity
rewritten [] id = id
rewritten (resolve_call inst sys ∷ calls) id = rewritten calls id
rewritten (rewrite_call old new ∷ calls) id = rewritten calls (with_new_system old new id)

Created-keeps :
    (inst sys k : Text) (id : ResolvedIdentity) (r : IdentityResolver) (o : Option ResolvedIdentity)
    (r' : IdentityResolver)
    → Created inst sys r o r'
    → lookup (cache_key inst sys) r.cache ≡ none
    → lookup k r.cache ≡ some id
    → lookup k r'.cache ≡ some id
unfolding Created
Created-keeps inst sys k id r none r' c miss h = ap (lookup k) c ∙ h
Created-keeps inst sys k id r (some new) r' c miss h =
    ap (lookup k) c.0
    ∙ ground (
      arith,
      lookup-insert (cache_key inst sys) k new r.cache,
      text_same_iff (cache_key inst sys) k,
    )

Created-cached :
    (inst sys : Text) (id : ResolvedIdentity) (r : IdentityResolver) (o : Option ResolvedIdentity)
    (r' : IdentityResolver)
    → Created inst sys r o r'
    → o ≡ some id
    → lookup (cache_key inst sys) r'.cache ≡ some id
unfolding Created
Created-cached inst sys id r none r' c e = absurd (cc (e))
Created-cached inst sys id r (some new) r' c e =
    ap (lookup (cache_key inst sys)) c.0
    ∙ rw (lookup-insert (cache_key inst sys) (cache_key inst sys) new r.cache)
        (rw (same_refl (cache_key inst sys)) e)

module _ {ℓ} {D : Type ℓ} where
  abbrev pub apply : Database D → Call → IdentityResolver × D → IdentityResolver × D
  apply db (resolve_call inst sys) (r, d) = let q = resolve db inst sys r d in (q.1, q.2)
  apply db (rewrite_call old new) (r, d) = (rewrite_system_id old new r, d)

  abbrev pub run : Database D → List Call → IdentityResolver × D → IdentityResolver × D
  run db [] s = s
  run db (c ∷ calls) s = run db calls (apply db c s)

  resolve_keeps :
      (db : Database D) (inst sys k : Text) (id : ResolvedIdentity) (r : IdentityResolver) (d : D)
      → lookup k r.cache ≡ some id
      → lookup k (resolve db inst sys r d).1.cache ≡ some id
  resolve_keeps db inst sys k id r d h = elim (resolve_outcome db inst sys r d) [
    | inl (old, hit, same) ↦ rw same h
    | inr (miss, c) ↦
        let q = resolve db inst sys r d in Created-keeps inst sys k id r q.0 q.1 c miss h
  ]

  run_keeps :
      (db : Database D) (calls : List Call) (k : Text) (id : ResolvedIdentity)
      (s : IdentityResolver × D)
      → lookup k s.0.cache ≡ some id
      → lookup k (run db calls s).0.cache ≡ some (rewritten calls id)
  unfolding rewrite_system_id
  run_keeps db [] k id s h = h
  run_keeps db (resolve_call inst sys ∷ calls) k id (r, d) h =
      run_keeps db calls k id (apply db (resolve_call inst sys) (r, d))
        (resolve_keeps db inst sys k id r d h)
  run_keeps db (rewrite_call old new ∷ calls) k id (r, d) h =
      run_keeps db calls k (with_new_system old new id) (apply db (rewrite_call old new) (r, d))
        (lookup-map_values _ k r.cache ∙ ap (map_option (with_new_system old new)) h)

  resolve_cached :
      (db : Database D) (inst sys : Text) (id : ResolvedIdentity) (r : IdentityResolver) (d : D)
      → (resolve db inst sys r d).0 ≡ some id
      → lookup (cache_key inst sys) (resolve db inst sys r d).1.cache ≡ some id
  resolve_cached db inst sys id r d e = elim (resolve_outcome db inst sys r d) [
    | inl (old, hit, same) ↦ rw same (hit ∙ sym (ap (λ q. q.0) same) ∙ e)
    | inr (miss, c) ↦ let q = resolve db inst sys r d in Created-cached inst sys id r q.0 q.1 c e
  ]

  -- Once Resolve has returned an identity for an instance and a name, then after any further calls of
  -- Resolve and RewriteSystemID it returns that identity again, its system id replaced as the
  -- rewrites in between say, and changes neither the resolver nor the database; and the same holds of
  -- a call that missed the cache earlier and waited for the write lock meanwhile.
  pub resolve-run :
      (db : Database D) (inst sys : Text) (id : ResolvedIdentity) (r : IdentityResolver) (d : D)
      (calls : List Call)
      → (resolve db inst sys r d).0 ≡ some id
      → let s = run db calls (apply db (resolve_call inst sys) (r, d)) in
        (resolve db inst sys s.0 s.1 ≡ (some (rewritten calls id), s.0, s.1))
        × (resolve_slow db inst sys s.0 s.1 ≡ (some (rewritten calls id), s.0, s.1))
  resolve-run db inst sys id r d calls e =
      let s = apply db (resolve_call inst sys) (r, d) in
      let t = run db calls s in
      resolve_hit db inst sys (rewritten calls id) t.0 t.1
        (run_keeps db calls (cache_key inst sys) id s (resolve_cached db inst sys id r d e))
