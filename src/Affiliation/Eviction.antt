-- ===== src/Affiliation/Eviction.antt =====
-- `EvictStale`: which entries go, and how many it reports.
use tr_engine.Common.{
  ℕ, ◌+◌, ◌≡◌, refl, not, [], ◌∷◌, nat_comparable, pair_comparable, arith, ltb, length,
}
use tr_engine.Common.Map.{lookup, retain, lookup-retain, retain-Unique, Unique, guarded}
use tr_engine.Affiliation.{Key, Affiliations, is_stale, evict_stale}

evict_stale-retain :
    (now max_age : ℕ) (m : Affiliations)
    → (evict_stale now max_age m).0 ≡ retain (λ k e. not (is_stale now max_age e)) m
unfolding evict_stale retain
evict_stale-retain now max_age [] = refl
evict_stale-retain now max_age ((k, e) ∷ m) = ground (arith, evict_stale-retain now max_age m)

evict_stale_count :
    (now max_age : ℕ) (m : Affiliations)
    → (evict_stale now max_age m).1 + length (evict_stale now max_age m).0 ≡ length m
unfolding evict_stale
evict_stale_count now max_age [] = refl
evict_stale_count now max_age ((k, e) ∷ m) = ground (arith, evict_stale_count now max_age m)

pub evict_stale-Unique :
    (now max_age : ℕ) (m : Affiliations) → Unique m → Unique (evict_stale now max_age m).0
evict_stale-Unique now max_age m u = rw (evict_stale-retain now max_age m) (retain-Unique _ m u)

-- In a map with one entry for each key, a sweep removes exactly the entries whose last event is
-- more than the age before now, leaves every other entry as it was, and reports how many it removed.
pub evict_stale_exact :
    (now max_age : ℕ) (m : Affiliations) (k : Key)
    → Unique m
    → (lookup k (evict_stale now max_age m).0
        ≡ guarded (λ e. not (ltb (e.last_event_time + max_age) now)) (lookup k m))
      × ((evict_stale now max_age m).1 + length (evict_stale now max_age m).0 ≡ length m)
evict_stale_exact now max_age m k u =
    (rw (evict_stale-retain now max_age m) (lookup-retain _ k m u), evict_stale_count now max_age m)
