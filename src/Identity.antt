-- ===== src/Identity.antt =====
-- internal/ingest/identity.go: the cache of instance, system and site ids. The database's methods
-- are the parameter `Database`, over a database state of any type. A resolver is used under its
-- lock, so each method is one step; `resolve` takes the lock twice, first to read (`fast`), then to
-- write (`resolve_slow`), and other calls may come between. An identity is never changed in place:
-- `RewriteSystemID` puts a new one in the cache.
pub mod Cache
pub mod Outcome
pub mod Run
pub mod Search
mod Tests
use tr_engine.Common.{
  ℕ, suc, Bool, true, false, Option, none, some, List, [], ◌∷◌, ◌++◌, ◌-◌, Text, if◌then◌else◌,
  length, take, ◌==◌, nat_comparable, text_comparable, leb,
}
use tr_engine.Common.Map.{Map, lookup, insert, map_values}

pub record ResolvedIdentity : Type 0 where
  pub instance_db_id : ℕ
  pub system_id : ℕ
  pub site_id : ℕ
  pub system_name : Text
  pub sysid : Text

pub record IdentityResolver : Type 0 where
  pub cache : Map Text ResolvedIdentity
  pub instances : Map Text ℕ

pub record Site : Type 0 where
  pub site_id : ℕ
  pub system_id : ℕ
  pub instance_id : Text
  pub short_name : Text
  pub sysid : Text

-- The methods of `database.DB` that the resolver calls; `none` is an error.
pub record Database {ℓ} (D : Type ℓ) : Type ℓ where
  pub load_all_sites : D → Option (List Site)
  pub upsert_instance : Text → D → Option ℕ × D
  pub find_or_create_system : Text → Text → D → Option (ℕ × Text) × D
  pub find_or_create_site : ℕ → Text → Text → D → Option ℕ × D

abbrev pub new_identity_resolver : IdentityResolver
new_identity_resolver = record { cache = []; instances = [] }

-- `instanceID + ":" + sysName`; 58 is the colon.
unfoldable pub cache_key : Text → Text → Text
cache_key instance_id sys_name = instance_id ++ 58 ∷ sys_name

abbrev pub identity_of_site : Site → ResolvedIdentity
identity_of_site s = record {
  instance_db_id = 0;
  system_id = s.system_id;
  site_id = s.site_id;
  system_name = s.short_name;
  sysid = s.sysid;
}

unfoldable pub load_sites : List Site → Map Text ResolvedIdentity → Map Text ResolvedIdentity
load_sites [] cache = cache
load_sites (s ∷ sites) cache =
    load_sites sites (insert (cache_key s.instance_id s.short_name) (identity_of_site s) cache)

abbrev pub load_result : Option (List Site) → IdentityResolver → Bool × IdentityResolver
load_result none r = (false, r)
load_result (some sites) r = (true, record r { cache = load_sites sites r.cache })

-- Whether the load succeeded, and the resolver after it.
unfoldable pub load_cache {ℓ} :
    {D : Type ℓ} → Database D → D → IdentityResolver → Bool × IdentityResolver
load_cache db d r = load_result (db.load_all_sites d) r

unfoldable pub cache_len : IdentityResolver → ℕ
cache_len r = length r.cache

abbrev pub or_zero : Option ℕ → ℕ
or_zero none = 0
or_zero (some n) = n

module _ {ℓ} {D : Type ℓ} where
  abbrev pub recorded : Text → IdentityResolver → Option ℕ × D → Bool × IdentityResolver × D
  recorded instance_id r (none, d) = (false, r, d)
  recorded instance_id r (some db_id, d) =
      (true, record r { instances = insert instance_id db_id r.instances }, d)

  abbrev pub instance_step :
      Database D → Text → Option ℕ → IdentityResolver → D → Bool × IdentityResolver × D
  instance_step db instance_id none r d = recorded instance_id r (db.upsert_instance instance_id d)
  instance_step db instance_id (some db_id) r d = (true, r, d)

  -- `false` is the error return.
  unfoldable pub ensure_instance :
      Database D → Text → IdentityResolver → D → Bool × IdentityResolver × D
  ensure_instance db instance_id r d =
      instance_step db instance_id (lookup instance_id r.instances) r d

  unfoldable pub finish :
      Text
      → Text
      → ℕ
      → Text
      → IdentityResolver
      → Option ℕ × D
      → Option ResolvedIdentity × IdentityResolver × D
  finish instance_id sys_name system_id sysid r (none, d) = (none, r, d)
  finish instance_id sys_name system_id sysid r (some site_id, d) =
      let id : ResolvedIdentity = record {
        instance_db_id = or_zero (lookup instance_id r.instances);
        system_id = system_id;
        site_id = site_id;
        system_name = sys_name;
        sysid = sysid;
      } in
      (some id, record r { cache = insert (cache_key instance_id sys_name) id r.cache }, d)

  unfoldable pub with_system :
      Database D
      → Text
      → Text
      → IdentityResolver
      → Option (ℕ × Text) × D
      → Option ResolvedIdentity × IdentityResolver × D
  with_system db instance_id sys_name r (none, d) = (none, r, d)
  with_system db instance_id sys_name r (some (system_id, sysid), d) =
      finish instance_id sys_name system_id sysid r
        (db.find_or_create_site system_id instance_id sys_name d)

  unfoldable pub with_instance :
      Database D
      → Text
      → Text
      → Bool × IdentityResolver × D
      → Option ResolvedIdentity × IdentityResolver × D
  with_instance db instance_id sys_name (false, r, d) = (none, r, d)
  with_instance db instance_id sys_name (true, r, d) =
      with_system db instance_id sys_name r (db.find_or_create_system instance_id sys_name d)

  unfoldable pub create :
      Database D
      → Text
      → Text
      → IdentityResolver
      → D
      → Option ResolvedIdentity × IdentityResolver × D
  create db instance_id sys_name r d =
      with_instance db instance_id sys_name (ensure_instance db instance_id r d)

  -- The slow path: the cache is looked at again, under the write lock.
  unfoldable pub resolve_slow :
      Database D
      → Text
      → Text
      → IdentityResolver
      → D
      → Option ResolvedIdentity × IdentityResolver × D
  resolve_slow db instance_id sys_name r d =
      elim (lookup (cache_key instance_id sys_name) r.cache) [
        | some id ↦ (some id, r, d)
        | none ↦ create db instance_id sys_name r d
      ]

  unfoldable pub resolve :
      Database D
      → Text
      → Text
      → IdentityResolver
      → D
      → Option ResolvedIdentity × IdentityResolver × D
  resolve db instance_id sys_name r d = elim (lookup (cache_key instance_id sys_name) r.cache) [
    | some id ↦ (some id, r, d)
    | none ↦ resolve_slow db instance_id sys_name r d
  ]

-- The scans below take the order of the entries as the order in which `range` visits them.
unfoldable pub first_system : Text → Map Text ResolvedIdentity → ℕ
first_system sys_name [] = 0
first_system sys_name ((key, id) ∷ entries) =
    if id.system_name == sys_name then id.system_id else first_system sys_name entries

unfoldable pub get_system_id_for_sys_name : Text → IdentityResolver → ℕ
get_system_id_for_sys_name sys_name r = first_system sys_name r.cache

abbrev pub ids_of : Option ResolvedIdentity → Option (ℕ × ℕ)
ids_of none = none
ids_of (some id) = some (id.system_id, id.site_id)

unfoldable pub scan_names : Text → Map Text ResolvedIdentity → Option (ℕ × ℕ)
scan_names short_name [] = none
scan_names short_name ((key, id) ∷ entries) =
    if id.system_name == short_name
    then some (id.system_id, id.site_id)
    else scan_names short_name entries

unfoldable pub lookup_by_short_name : Text → Text → IdentityResolver → Option (ℕ × ℕ)
lookup_by_short_name [] short_name r = scan_names short_name r.cache
lookup_by_short_name (c ∷ instance_id) short_name r =
    ids_of (lookup (cache_key (c ∷ instance_id) short_name) r.cache)

-- `panics` is a slice out of range.
pub data AnyResult : Type 0 where
  panics missing : AnyResult
  found : ℕ → ℕ → Text → AnyResult

unfoldable pub scan_any : Text → (Text → Bool) → Map Text ResolvedIdentity → AnyResult
scan_any short_name exclude [] = missing
scan_any short_name exclude ((key, id) ∷ entries) =
    let rest = scan_any short_name exclude entries in
    let inst_id = take (length key - suc (length short_name)) key in
    if id.system_name == short_name
    then (if leb (suc (length short_name)) (length key)
        then (if exclude inst_id then rest else found id.system_id id.site_id inst_id)
        else panics)
    else rest

unfoldable pub lookup_by_short_name_any : Text → (Text → Bool) → IdentityResolver → AnyResult
lookup_by_short_name_any short_name exclude r = scan_any short_name exclude r.cache

abbrev pub with_new_system : ℕ → ℕ → ResolvedIdentity → ResolvedIdentity
with_new_system old new id = if id.system_id == old then record id { system_id = new } else id

unfoldable pub rewrite_system_id : ℕ → ℕ → IdentityResolver → IdentityResolver
rewrite_system_id old new r = record r {
  cache = map_values (λ key id. with_new_system old new id) r.cache;
}
