-- ===== src/Identity/Cache.antt =====
-- What a cache looks like: every entry under the key of an instance and of its own name, no key
-- twice. Every method keeps it.
use tr_engine.Common.{
  ◌≡◌, refl, sym, subst, Option, none, some, inl, inr, List, [], ◌∷◌, Text, ℕ, Bool-cases,
  text_comparable, ◌==◌, arith,
}
use tr_engine.Common.Map.{Map, insert, map_values, Unique, insert-Unique, map_values-Unique}
use tr_engine.Identity.{
  ResolvedIdentity, IdentityResolver, Site, Database, cache_key, resolve, rewrite_system_id,
  with_new_system, load_sites, load_result, load_cache, identity_of_site, new_identity_resolver,
}
use tr_engine.Identity.Outcome.{Created, resolve_outcome}
use tr_engine.Identity.Run.{Call, resolve_call, rewrite_call, apply, run}

abbrev pub Named : Map Text ResolvedIdentity → Type 0
Named [] = Unit {0}
Named ((k, id) ∷ m) = ((inst : Text) × (k ≡ cache_key inst id.system_name)) × Named m

abbrev pub IsValid : Map Text ResolvedIdentity → Type 0
IsValid m = Named m × Unique m

insert-Named :
    (inst : Text) (id : ResolvedIdentity) (m : Map Text ResolvedIdentity)
    → Named m
    → Named (insert (cache_key inst id.system_name) id m)
unfolding insert
insert-Named inst id [] h = ((inst, refl), tt)
insert-Named inst id ((k, old) ∷ m) h = elim (Bool-cases (k == cache_key inst id.system_name)) [
  | inl e ↦ rw e ((inst, refl), h.1)
  | inr e ↦ rw e (h.0, insert-Named inst id m h.1)
]

pub insert-IsValid :
    (inst : Text) (id : ResolvedIdentity) (m : Map Text ResolvedIdentity)
    → IsValid m
    → IsValid (insert (cache_key inst id.system_name) id m)
insert-IsValid inst id m h = (insert-Named inst id m h.0, insert-Unique _ id m h.1)

load_sites-IsValid :
    (sites : List Site) (m : Map Text ResolvedIdentity) → IsValid m → IsValid (load_sites sites m)
unfolding load_sites
load_sites-IsValid [] m h = h
load_sites-IsValid (s ∷ sites) m h =
    load_sites-IsValid sites _ (insert-IsValid s.instance_id (identity_of_site s) m h)

load_result-IsValid :
    (o : Option (List Site)) (r : IdentityResolver)
    → IsValid r.cache
    → IsValid (load_result o r).1.cache
load_result-IsValid none r h = h
load_result-IsValid (some sites) r h = load_sites-IsValid sites r.cache h

name_kept :
    (old new : ℕ) (id : ResolvedIdentity)
    → (with_new_system old new id).system_name ≡ id.system_name
name_kept old new id = ground arith

rewrite-Named :
    (old new : ℕ) (m : Map Text ResolvedIdentity)
    → Named m
    → Named (map_values (λ k id. with_new_system old new id) m)
unfolding map_values
rewrite-Named old new [] h = tt
rewrite-Named old new ((k, id) ∷ m) h =
    ((h.0.0, rw (name_kept old new id) h.0.1), rewrite-Named old new m h.1)

Created-IsValid :
    (inst sys : Text) (r : IdentityResolver) (o : Option ResolvedIdentity) (r' : IdentityResolver)
    → Created inst sys r o r'
    → IsValid r.cache
    → IsValid r'.cache
unfolding Created
Created-IsValid inst sys r none r' c h = subst IsValid (sym c) h
Created-IsValid inst sys r (some id) r' c h = subst IsValid (sym c.0) (
    subst (λ n. IsValid (insert (cache_key inst n) id r.cache)) c.1
      (insert-IsValid inst id r.cache h))

module _ {ℓ} {D : Type ℓ} where
  resolve-IsValid :
      (db : Database D) (inst sys : Text) (r : IdentityResolver) (d : D)
      → IsValid r.cache
      → IsValid (resolve db inst sys r d).1.cache
  resolve-IsValid db inst sys r d h = elim (resolve_outcome db inst sys r d) [
    | inl (id, hit, same) ↦ rw same h
    | inr (miss, c) ↦ let q = resolve db inst sys r d in Created-IsValid inst sys r q.0 q.1 c h
  ]

  run-IsValid :
      (db : Database D) (calls : List Call) (s : IdentityResolver × D)
      → IsValid s.0.cache
      → IsValid (run db calls s).0.cache
  unfolding rewrite_system_id
  run-IsValid db [] s h = h
  run-IsValid db (resolve_call inst sys ∷ calls) (r, d) h =
      run-IsValid db calls (apply db (resolve_call inst sys) (r, d))
        (resolve-IsValid db inst sys r d h)
  run-IsValid db (rewrite_call old new ∷ calls) (r, d) h =
      run-IsValid db calls (apply db (rewrite_call old new) (r, d))
        (rewrite-Named old new r.cache h.0, map_values-Unique _ r.cache h.1)

  -- After the load at the start, whether it fails or not, and any sequence of calls, the cache is
  -- well formed: every entry stands under the key of some instance and of the entry's own name, and
  -- no key twice.
  pub start-IsValid :
      (db : Database D) (calls : List Call) (d : D)
      → IsValid (run db calls ((load_cache db d new_identity_resolver).1, d)).0.cache
  unfolding load_cache
  start-IsValid db calls d =
      run-IsValid db calls _
        (load_result-IsValid (db.load_all_sites d) new_identity_resolver (tt, tt))
