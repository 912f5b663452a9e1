-- ===== src/Cache/Laws.antt =====
-- What a look into the cache finds after each operation.
use pve_traffic_monitor.Base.{
  ℕ, ◌≤◌, ◌≡◌, inl, inr, refl, ap, not, List, [], ◌∷◌, keep, length, none, some, Option, leb, ◌&&◌,
  ◌+◌, ◌==◌, Bool-cases, arith, if◌then◌else◌,
}
use pve_traffic_monitor.Base.Text.{Text}
use pve_traffic_monitor.Base.Split.{Lacks}
use pve_traffic_monitor.Base.Maps.{
  lookup, delete_key, put_key, text_Eq, lookup-put_key_self, lookup-put_key_other,
  lookup-keep_keys_in, lookup-keep_keys_out, lookup-delete_key_self, keep_option, IsMap,
  lookup-keep, keep-IsMap, keep_keys-IsMap,
}
use pve_traffic_monitor.Clock.{Time}
use pve_traffic_monitor.Cache.{
  colon, make_key, CachedStats, TrafficCache, is_expired, use_cached, get, set, invalidate, cleanup,
  clear, get_stats,
}
use pve_traffic_monitor.Cache.Keys.{make_key_injective, scan_int-make_key}

module _ {S : Type 0} where
  -- What is set is found again as long as it is asked for the same start of the period and is not
  -- older than the cache's time to live, and for no other start and no longer.
  pub get-set_same :
      (set_at now : Time) (c : TrafficCache S) (vmid : ℕ) (period direction : Text)
      (start asked : Time) (stats : S)
      → set_at ≤ now
      → get now (set set_at c vmid period direction start stats) vmid period direction asked
        ≡ (if (start == asked) && leb now (set_at + c.ttl) then some stats else none)
  unfolding get set use_cached is_expired
  get-set_same set_at now c vmid period direction start asked stats h =
      rw
        (lookup-put_key_self (make_key vmid period direction)
          (record { stats = stats; last_update = set_at; period_start = start }) c.cache)
        (ground arith)

  -- Setting the statistics of one VM, period and direction leaves what is found for any other; the
  -- periods' texts have no colon.
  pub get-set_other :
      (set_at now : Time) (c : TrafficCache S) (vmid vmid' : ℕ)
      (period period' direction direction' : Text) (start asked : Time) (stats : S)
      → Lacks colon period
      → Lacks colon period'
      → ¬ ((vmid ≡ vmid') × (period ≡ period') × (direction ≡ direction'))
      → get now (set set_at c vmid period direction start stats) vmid' period' direction' asked
        ≡ get now c vmid' period' direction' asked
  unfolding get set
  get-set_other set_at now c vmid vmid' period period' direction direction' start asked stats hp hp'
        differ =
      ap (use_cached now c.ttl asked) (
        lookup-put_key_other (make_key vmid' period' direction') (make_key vmid period direction) _
          c.cache
          (λ q.
            differ (make_key_injective vmid vmid' period period' direction direction' hp hp' q)))

  -- After a VM's statistics are invalidated, nothing is found for it, in any period and direction,
  -- and what is found for each other VM is as before.
  pub get-invalidate :
      (now : Time) (c : TrafficCache S) (vmid vmid' : ℕ) (period direction : Text) (asked : Time)
      → get now (invalidate c vmid) vmid' period direction asked
        ≡ (if vmid' == vmid then none else get now c vmid' period direction asked)
  unfolding get invalidate use_cached
  get-invalidate now c vmid vmid' period direction asked = elim (Bool-cases (vmid' == vmid)) [
    | inl same ↦ rw same (
        ap (use_cached now c.ttl asked) (
          lookup-keep_keys_out _ (make_key vmid' period direction) c.cache
            (rw (scan_int-make_key vmid' period direction, same) refl)))
    | inr other ↦ rw other (
        ap (use_cached now c.ttl asked) (
          lookup-keep_keys_in _ (make_key vmid' period direction) c.cache
            (rw (scan_int-make_key vmid' period direction, other) refl)))
  ]

  -- The loop that cleans up does not change what any later look finds; the map has each key once.
  pub get-cleanup :
      (at now : Time) (c : TrafficCache S) (vmid : ℕ) (period direction : Text) (asked : Time)
      → at ≤ now
      → IsMap c.cache
      → get now (cleanup at c) vmid period direction asked ≡ get now c vmid period direction asked
  unfolding get cleanup use_cached is_expired
  get-cleanup at now c vmid period direction asked h unique =
      rw
        (lookup-keep (λ entry. not (is_expired at c.ttl entry)) (make_key vmid period direction)
          c.cache unique)
        (go (lookup (make_key vmid period direction) c.cache))
    where
      go :
          (o : Option (CachedStats S))
          → use_cached now c.ttl asked (keep_option (λ entry. not (is_expired at c.ttl entry)) o)
            ≡ use_cached now c.ttl asked o
      go none = refl
      go (some cached) = ground arith

  none_left :
      (now ttl : Time) (m : List (Text × CachedStats S))
      → keep
          (λ entry. is_expired now ttl entry.1)
          (keep (λ entry. not (is_expired now ttl entry.1)) m)
        ≡ []
  none_left now ttl [] = refl
  none_left now ttl ((k, v) ∷ m) = ground (arith, none_left now ttl m)

  -- No operation makes a key occur twice, and none is left expired by the clean-up.
  pub operations-IsMap :
      (now : Time) (c : TrafficCache S) (vmid : ℕ) (period direction : Text) (start : Time)
      (stats : S)
      → IsMap c.cache
      → IsMap (set now c vmid period direction start stats).cache
        × IsMap (invalidate c vmid).cache
        × IsMap (cleanup now c).cache
        × IsMap (clear c).cache
        × ((get_stats now (cleanup now c)).1 ≡ 0)
  unfolding set invalidate cleanup clear get_stats put_key delete_key
  operations-IsMap now c vmid period direction start stats unique = (
    (lookup-delete_key_self _ c.cache, keep_keys-IsMap _ c.cache unique),
    keep_keys-IsMap _ c.cache unique,
    keep-IsMap _ c.cache unique,
    tt,
    ap length (none_left now c.ttl c.cache),
  )
