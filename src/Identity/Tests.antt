-- ===== src/Identity/Tests.antt =====
-- A database that counts its calls, and the theorems at it.
use tr_engine.Common.{
  ℕ, suc, ◌≡◌, refl, ◌⊎◌, [], ◌∷◌, none, some, false, List, bytes, ◌==◌, text_comparable,
  nat_comparable, if◌then◌else◌,
}
use tr_engine.Common.Map.{lookup, insert, map_values}
use tr_engine.Identity.{
  ResolvedIdentity, Database, Site, cache_key, new_identity_resolver, load_sites, load_cache,
  ensure_instance, finish, with_system, with_instance, create, resolve_slow, resolve, first_system,
  get_system_id_for_sys_name, scan_names, lookup_by_short_name, scan_any, lookup_by_short_name_any,
  rewrite_system_id, cache_len, missing, found,
}
use tr_engine.Identity.Outcome.{Created, resolve_outcome}
use tr_engine.Identity.Run.{Call, resolve_call, rewrite_call, rewritten, apply, run, resolve-run}
use tr_engine.Identity.Search.{Answers, lookup_by_short_name_any-Answers}

program : Unit {0}
unfolding cache_key load_sites load_cache ensure_instance finish with_system with_instance create
    resolve_slow resolve first_system get_system_id_for_sys_name scan_names lookup_by_short_name
    scan_any lookup_by_short_name_any rewrite_system_id cache_len lookup insert map_values Created
program = tt

abbrev loaded_site : Site
loaded_site = record {
  site_id = 3;
  system_id = 2;
  instance_id = bytes "tr-1";
  short_name = bytes "butco";
  sysid = bytes "348";
}

-- Every new row takes the next number, and the name `down` cannot be created.
abbrev counting : Database ℕ
counting = record {
  load_all_sites = λ d. some (loaded_site ∷ []);
  upsert_instance = λ inst d. (some d, suc d);
  find_or_create_system =
      λ inst name d. if name == bytes "down" then (none, d) else (some (d, bytes "ABC"), suc d);
  find_or_create_site = λ system inst name d. (some d, suc d);
}

abbrev fresh : ResolvedIdentity
fresh = record {
  instance_db_id = 100;
  system_id = 101;
  site_id = 102;
  system_name = bytes "warco";
  sysid = bytes "ABC";
}

resolves_new :
    (resolve counting (bytes "tr-2") (bytes "warco") new_identity_resolver 100).0 ≡ some fresh
unfolding program
resolves_new = refl

-- The second call for the same key makes no call to the database.
resolves_again :
    let q = resolve counting (bytes "tr-2") (bytes "warco") new_identity_resolver 100 in
    resolve counting (bytes "tr-2") (bytes "warco") q.1 q.2 ≡ (some fresh, q.1, 103)
unfolding program
resolves_again = refl

-- A failure after the instance was recorded: the cache stays empty.
fails :
    let q = resolve counting (bytes "tr-2") (bytes "down") new_identity_resolver 100 in
    (q.0 ≡ none) × (q.1.cache ≡ []) × (q.2 ≡ 101)
unfolding program
fails = (refl, refl, refl)

-- A site that the load put in the cache has no id of its instance.
loaded_without_instance :
    let r = (load_cache counting 100 new_identity_resolver).1 in
    (resolve counting (bytes "tr-1") (bytes "butco") r 100).0
    ≡ some (record {
      instance_db_id = 0;
      system_id = 2;
      site_id = 3;
      system_name = bytes "butco";
      sysid = bytes "348";
    })
unfolding program
loaded_without_instance = refl

-- Two pairs of an instance and a name with one key.
one_key : cache_key (bytes "a:b") (bytes "c") ≡ cache_key (bytes "a") (bytes "b:c")
unfolding program
one_key = refl

finds_any :
    lookup_by_short_name_any
      (bytes "butco")
      (λ inst. false)
      (load_cache counting 100 new_identity_resolver).1
    ≡ found 2 3 (bytes "tr-1")
unfolding program
finds_any = refl

excludes_any :
    lookup_by_short_name_any
      (bytes "butco")
      (λ inst. inst == bytes "tr-1")
      (load_cache counting 100 new_identity_resolver).1
    ≡ missing
unfolding program
excludes_any = refl

abbrev calls : List Call
calls = resolve_call (bytes "tr-2") (bytes "butco") ∷ rewrite_call 101 7 ∷ []

resolve_outcome_example :
    let q = resolve counting (bytes "tr-2") (bytes "warco") new_identity_resolver 100 in
    ((id : ResolvedIdentity) × (lookup
          (cache_key (bytes "tr-2") (bytes "warco"))
          new_identity_resolver.cache
        ≡ some id)
      × (q ≡ (some id, new_identity_resolver, 100)))
    ⊎ ((lookup (cache_key (bytes "tr-2") (bytes "warco")) new_identity_resolver.cache ≡ none)
        × Created (bytes "tr-2") (bytes "warco") new_identity_resolver q.0 q.1)
resolve_outcome_example =
    resolve_outcome counting (bytes "tr-2") (bytes "warco") new_identity_resolver 100

resolve-run_example :
    let s =
      run counting calls (
        apply counting
          (resolve_call (bytes "tr-2") (bytes "warco"))
          (new_identity_resolver, 100)) in
    (resolve counting (bytes "tr-2") (bytes "warco") s.0 s.1
      ≡ (some (rewritten calls fresh), s.0, s.1))
    × (resolve_slow counting (bytes "tr-2") (bytes "warco") s.0 s.1
        ≡ (some (rewritten calls fresh), s.0, s.1))
resolve-run_example =
    resolve-run counting (bytes "tr-2") (bytes "warco") fresh new_identity_resolver 100 calls
      resolves_new

lookup_by_short_name_any-Answers_example :
    let r = (run counting calls ((load_cache counting 100 new_identity_resolver).1, 100)).0 in
    Answers
      (bytes "butco")
      (λ inst. inst == bytes "tr-1")
      r.cache
      (lookup_by_short_name_any (bytes "butco") (λ inst. inst == bytes "tr-1") r)
lookup_by_short_name_any-Answers_example =
    lookup_by_short_name_any-Answers counting calls 100 (bytes "butco")
      (λ inst. inst == bytes "tr-1")
