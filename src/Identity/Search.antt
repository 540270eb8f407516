-- ===== src/Identity/Search.antt =====
-- The scans of the cache, and what they see of a merge of systems.
use tr_engine.Common.{
  ◌≡◌, ◌⊎◌, ◌<◌, ◌-◌, ◌+◌, ◌++◌, refl, sym, ap, ◌∙◌, subst, Bool, true, false, Option, none, some,
  inl, inr, List, [], ◌∷◌, Text, ℕ, suc, Bool-cases, text_comparable, nat_comparable, ◌==◌,
  if◌then◌else◌, arith, leb, length, take, length-append, take-append-length,
}
use tr_engine.Common.Map.{
  Map, lookup, map_values, map_option, Absent, Unique, lookup-map_values, lookup-Absent,
}
use tr_engine.Common.Bytes.{text_same_iff}
use tr_engine.Identity.{
  ResolvedIdentity, IdentityResolver, Database, cache_key, AnyResult, panics, missing, found,
  scan_any, lookup_by_short_name_any, load_cache, new_identity_resolver, with_new_system,
  scan_names, lookup_by_short_name, ids_of, first_system, get_system_id_for_sys_name,
  rewrite_system_id, cache_len,
}
use tr_engine.Identity.Cache.{Named, start-IsValid}
use tr_engine.Identity.Run.{Call, run}

-- Every entry has another name, or an instance that is excluded.
abbrev pub Skipped : Text → (Text → Bool) → Map Text ResolvedIdentity → Type 0
Skipped short exclude [] = Unit {0}
Skipped short exclude ((k, id) ∷ m) =
    (((id.system_name == short) ≡ false)
      ⊎ ((inst : Text) × (k ≡ cache_key inst short) × (exclude inst ≡ true)))
    × Skipped short exclude m

-- What `LookupByShortNameAny` may answer.
abbrev pub Answers : Text → (Text → Bool) → Map Text ResolvedIdentity → AnyResult → Type 0
Answers short exclude m panics = ⊥
Answers short exclude m missing = Skipped short exclude m
Answers short exclude m (found system site inst) =
    (exclude inst ≡ false)
    × ((id : ResolvedIdentity) × (lookup (cache_key inst short) m ≡ some id)
        × (id.system_name ≡ short)
        × (id.system_id ≡ system)
        × (id.site_id ≡ site))

key_slice :
    (inst short : Text)
    → (take (length (cache_key inst short) - suc (length short)) (cache_key inst short) ≡ inst)
      × (leb (suc (length short)) (length (cache_key inst short)) ≡ true)
unfolding cache_key
key_slice inst short =
    let total : length (inst ++ 58 ∷ short) ≡ length inst + suc (length short) =
      length-append inst (58 ∷ short) in
    let at_end : length (inst ++ 58 ∷ short) - suc (length short) ≡ length inst =
      ground (arith, total) in
    (
      ap (λ n. take n (inst ++ 58 ∷ short)) at_end ∙ take-append-length inst (58 ∷ short),
      ground (arith, total),
    )

lookup-later :
    (j k : Text) (i id : ResolvedIdentity) (m : Map Text ResolvedIdentity)
    → Absent k m
    → lookup j m ≡ some i
    → lookup j ((k, id) ∷ m) ≡ some i
unfolding lookup
lookup-later j k i id m u l = ground (arith, text_same_iff k j, lookup-Absent k m u, l)

Answers-later :
    (short : Text) (exclude : Text → Bool) (k : Text) (id : ResolvedIdentity)
    (m : Map Text ResolvedIdentity) (a : AnyResult)
    → Absent k m
    → ((id.system_name == short) ≡ false)
      ⊎ ((inst : Text) × (k ≡ cache_key inst short) × (exclude inst ≡ true))
    → Answers short exclude m a
    → Answers short exclude ((k, id) ∷ m) a
Answers-later short exclude k id m panics u s h = h
Answers-later short exclude k id m missing u s h = (s, h)
Answers-later short exclude k id m (found system site inst) u s (e, (i, l, p, q, w)) =
    (e, (i, lookup-later (cache_key inst short) k i id m u l, p, q, w))

lookup_head :
    (j k : Text) (id : ResolvedIdentity) (m : Map Text ResolvedIdentity)
    → k ≡ j
    → lookup j ((k, id) ∷ m) ≡ some id
unfolding lookup
lookup_head j k id m e = ground (arith, text_same_iff k j, e)

scan_any-Answers :
    (short : Text) (exclude : Text → Bool) (m : Map Text ResolvedIdentity)
    → Named m
    → Unique m
    → Answers short exclude m (scan_any short exclude m)
unfolding scan_any
scan_any-Answers short exclude [] n u = tt
scan_any-Answers short exclude ((k, id) ∷ m) ((inst, own), n) u =
    let later = scan_any-Answers short exclude m n u.1 in
    let answer = scan_any short exclude m in
    elim (Bool-cases (id.system_name == short)) [
      | inr other ↦ rw other (Answers-later short exclude k id m answer u.0 (inl other) later)
      | inl same ↦
          let name = (text_same_iff id.system_name short).0 same in
          let key : k ≡ cache_key inst short = own ∙ ap (cache_key inst) name in
          let slice =
            subst
              (λ j.
                (take (length j - suc (length short)) j ≡ inst)
                × (leb (suc (length short)) (length j) ≡ true))
              (sym key) (key_slice inst short) in
          elim (Bool-cases (exclude inst)) [
            | inl skip ↦
                rw (same, slice.1, slice.0, skip)
                  (Answers-later short exclude k id m answer u.0 (inr (inst, key, skip)) later)
            | inr free ↦
                rw (same, slice.1, slice.0, free)
                  (free, (id, lookup_head (cache_key inst short) k id m key, name, refl, refl))
          ]
    ]

-- `lookup_by_short_name`, as a merge of the system `old` into `new` changes it.
abbrev pub merged : ℕ → ℕ → ℕ × ℕ → ℕ × ℕ
merged old new (system, site) = (if system == old then new else system, site)

scan_names-rewrite :
    (old new : ℕ) (short : Text) (m : Map Text ResolvedIdentity)
    → scan_names short (map_values (λ k id. with_new_system old new id) m)
      ≡ map_option (merged old new) (scan_names short m)
unfolding scan_names map_values
scan_names-rewrite old new short [] = refl
scan_names-rewrite old new short ((k, id) ∷ m) =
    ground (arith, text_same_iff id.system_name short, scan_names-rewrite old new short m)

ids_of-merged :
    (old new : ℕ) (o : Option ResolvedIdentity)
    → ids_of (map_option (with_new_system old new) o) ≡ map_option (merged old new) (ids_of o)
ids_of-merged old new none = refl
ids_of-merged old new (some id) = ground arith

first_system-rewrite :
    (old new : ℕ) (name : Text) (m : Map Text ResolvedIdentity)
    → 0 < old
    → first_system name (map_values (λ k id. with_new_system old new id) m)
      ≡ (if first_system name m == old then new else first_system name m)
unfolding first_system map_values
first_system-rewrite old new name [] h = ground arith
first_system-rewrite old new name ((k, id) ∷ m) h =
    ground (arith, text_same_iff id.system_name name, first_system-rewrite old new name m)

length-map_values :
    (f : Text → ResolvedIdentity → ResolvedIdentity) (m : Map Text ResolvedIdentity)
    → length (map_values f m) ≡ length m
unfolding map_values
length-map_values f [] = refl
length-map_values f ((k, id) ∷ m) = ap suc (length-map_values f m)

-- A merge of one system into another, seen through the lookups: LookupByShortName, for a named
-- instance and for the scan, answers as before with the old system id replaced by the new one;
-- GetSystemIDForSysName does so too if the old id is not 0, its answer for an unknown name; the
-- number of entries stays.
pub rewrite_system_id_lem :
    (old new : ℕ) (inst name : Text) (r : IdentityResolver)
    → 0 < old
    → let r' = rewrite_system_id old new r in
      (lookup_by_short_name inst name r'
        ≡ map_option (merged old new) (lookup_by_short_name inst name r))
      × (get_system_id_for_sys_name name r'
          ≡ (let n = get_system_id_for_sys_name name r in if n == old then new else n))
      × (cache_len r' ≡ cache_len r)
unfolding rewrite_system_id lookup_by_short_name get_system_id_for_sys_name cache_len
rewrite_system_id_lem old new [] name r h = (
  scan_names-rewrite old new name r.cache,
  first_system-rewrite old new name r.cache h,
  length-map_values _ r.cache,
)
rewrite_system_id_lem old new (c ∷ inst) name r h = (
  ap ids_of (lookup-map_values _ (cache_key (c ∷ inst) name) r.cache)
      ∙ ids_of-merged old new (lookup (cache_key (c ∷ inst) name) r.cache),
  first_system-rewrite old new name r.cache h,
  length-map_values _ r.cache,
)

module _ {ℓ} {D : Type ℓ} where
  -- After the load at the start and any sequence of calls, LookupByShortNameAny does not slice out of
  -- range, for any exclusion; what it finds is an instance that is not excluded, with the system and
  -- site of the entry under the key of that instance and the name; and when it finds nothing, every
  -- entry has another name or stands under the key of an excluded instance.
  pub lookup_by_short_name_any-Answers :
      (db : Database D) (calls : List Call) (d : D) (short : Text) (exclude : Text → Bool)
      → let r = (run db calls ((load_cache db d new_identity_resolver).1, d)).0 in
        Answers short exclude r.cache (lookup_by_short_name_any short exclude r)
  unfolding lookup_by_short_name_any
  lookup_by_short_name_any-Answers db calls d short exclude =
      let v = start-IsValid db calls d in scan_any-Answers short exclude _ v.0 v.1
