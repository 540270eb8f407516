-- ===== src/Identity/Outcome.antt =====
-- `Resolve`: the one thing it may change in the cache, and what is left when it fails.
use tr_engine.Common.{
  ◌≡◌, refl, Bool, true, false, Option, none, some, ◌⊎◌, inl, inr, Text, Option-cases,
  text_comparable, ap, same_refl, ℕ,
}
use tr_engine.Common.Map.{lookup, insert, lookup-insert}
use tr_engine.Identity.{
  ResolvedIdentity, IdentityResolver, Database, cache_key, recorded, instance_step, ensure_instance,
  finish, with_system, with_instance, create, resolve_slow, resolve,
}

-- How the resolver before relates to the one after, for the result of a call that found nothing
-- in the cache.
unfoldable pub Created :
    Text → Text → IdentityResolver → Option ResolvedIdentity → IdentityResolver → Type 0
Created inst sys r none r' = r'.cache ≡ r.cache
Created inst sys r (some id) r' =
    (r'.cache ≡ insert (cache_key inst sys) id r.cache)
    × (id.system_name ≡ sys)
    × (lookup inst r'.instances ≡ some id.instance_db_id)

-- What `ensure_instance` leaves: the cache, and on success an id for the instance.
abbrev Ensured : Text → IdentityResolver → Bool → IdentityResolver → Type 0
Ensured inst r false r' = r'.cache ≡ r.cache
Ensured inst r true r' = (r'.cache ≡ r.cache) × ((n : ℕ) × lookup inst r'.instances ≡ some n)

module _ {ℓ} {D : Type ℓ} where
  recorded-Ensured :
      (inst : Text) (r : IdentityResolver) (o : Option ℕ × D)
      → let q = recorded inst r o in Ensured inst r q.0 q.1
  recorded-Ensured inst r (none, d) = refl
  recorded-Ensured inst r (some n, d) =
      (refl, (n, rw (lookup-insert inst inst n r.instances, same_refl inst) refl))

  instance_step-Ensured :
      (db : Database D) (inst : Text) (o : Option ℕ) (r : IdentityResolver) (d : D)
      → lookup inst r.instances ≡ o
      → let q = instance_step db inst o r d in Ensured inst r q.0 q.1
  instance_step-Ensured db inst none r d h = recorded-Ensured inst r (db.upsert_instance inst d)
  instance_step-Ensured db inst (some n) r d h = (refl, (n, h))

  finish-Created :
      (inst sys : Text) (n : ℕ) (sysid : Text) (r r' : IdentityResolver) (o : Option ℕ × D)
      → Ensured inst r true r'
      → let q = finish inst sys n sysid r' o in Created inst sys r q.0 q.1
  unfolding finish Created
  finish-Created inst sys n sysid r r' (none, d) e = e.0
  finish-Created inst sys n sysid r r' (some site, d) e =
      (ap (insert (cache_key inst sys) _) e.0, refl, rw e.1.1 refl)

  with_system-Created :
      (db : Database D) (inst sys : Text) (r r' : IdentityResolver) (o : Option (ℕ × Text) × D)
      → Ensured inst r true r'
      → let q = with_system db inst sys r' o in Created inst sys r q.0 q.1
  unfolding with_system Created
  with_system-Created db inst sys r r' (none, d) e = e.0
  with_system-Created db inst sys r r' (some (n, sysid), d) e =
      finish-Created inst sys n sysid r r' (db.find_or_create_site n inst sys d) e

  with_instance-Created :
      (db : Database D) (inst sys : Text) (r : IdentityResolver) (o : Bool × IdentityResolver × D)
      → Ensured inst r o.0 o.1
      → let q = with_instance db inst sys o in Created inst sys r q.0 q.1
  unfolding with_instance Created
  with_instance-Created db inst sys r (false, r', d) e = e
  with_instance-Created db inst sys r (true, r', d) e =
      with_system-Created db inst sys r r' (db.find_or_create_system inst sys d) e

  create-Created :
      (db : Database D) (inst sys : Text) (r : IdentityResolver) (d : D)
      → let q = create db inst sys r d in Created inst sys r q.0 q.1
  unfolding create ensure_instance
  create-Created db inst sys r d =
      with_instance-Created db inst sys r (instance_step db inst (lookup inst r.instances) r d)
        (instance_step-Ensured db inst (lookup inst r.instances) r d refl)

  pub resolve_hit :
      (db : Database D) (inst sys : Text) (id : ResolvedIdentity) (r : IdentityResolver) (d : D)
      → lookup (cache_key inst sys) r.cache ≡ some id
      → (resolve db inst sys r d ≡ (some id, r, d))
        × (resolve_slow db inst sys r d ≡ (some id, r, d))
  unfolding resolve resolve_slow
  resolve_hit db inst sys id r d h = (rw (h, resolve) refl, rw (h, resolve_slow) refl)

  resolve_miss :
      (db : Database D) (inst sys : Text) (r : IdentityResolver) (d : D)
      → lookup (cache_key inst sys) r.cache ≡ none
      → resolve db inst sys r d ≡ create db inst sys r d
  unfolding resolve resolve_slow
  resolve_miss db inst sys r d h = rw (h, resolve) (rw (h, resolve_slow) refl)

  -- A call that finds its key in the cache returns that identity, and changes neither the resolver
  -- nor the database; a call that does not find it either fails and leaves the cache as it was, or
  -- returns an identity with the asked name, which is then in the cache under its key, every other
  -- entry as it was, and with the id that the resolver keeps for the instance.
  pub resolve_outcome :
      (db : Database D) (inst sys : Text) (r : IdentityResolver) (d : D)
      → let q = resolve db inst sys r d in
        (((id : ResolvedIdentity) × (lookup (cache_key inst sys) r.cache ≡ some id)
            × (q ≡ (some id, r, d)))
          ⊎ ((lookup (cache_key inst sys) r.cache ≡ none) × Created inst sys r q.0 q.1))
  resolve_outcome db inst sys r d = elim (Option-cases (lookup (cache_key inst sys) r.cache)) [
    | inl h ↦ inr (h, rw (resolve_miss db inst sys r d h) (create-Created db inst sys r d))
    | inr (id, h) ↦ inl (id, h, (resolve_hit db inst sys id r d h).0)
  ]
