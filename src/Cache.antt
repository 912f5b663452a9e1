-- ===== src/Cache.antt =====
-- The cache of traffic statistics, pkg/cache/traffic_cache.go. Its map has texts as keys,
-- "vmid:period:direction". Each operation holds the cache's lock from its first to its last line, so
-- an operation is one step; `now` is the time that it reads.
pub mod Keys
pub mod Laws
use pve_traffic_monitor.Base.{
  ℕ, zero, suc, ◌-◌, ◌*◌, Bool, true, false, not, ◌||◌, List, [], ◌∷◌, ◌++◌, keep, length, Option,
  none, some, ltb, ◌==◌, if◌then◌else◌,
}
use pve_traffic_monitor.Base.Text.{Text}
use pve_traffic_monitor.Base.Decimal.{print_int, scan_int}
use pve_traffic_monitor.Base.Maps.{lookup, keep_keys, put_key, text_Eq}
use pve_traffic_monitor.Clock.{Time, minute_ns}

abbrev pub colon : ℕ
colon = b':'

unfoldable pub make_key : ℕ → Text → Text → Text
make_key vmid period direction = print_int vmid ++ (colon ∷ (period ++ (colon ∷ direction)))

module _ (S : Type 0) where
  pub record CachedStats : Type 0 where
    pub stats : S
    pub last_update : Time
    pub period_start : Time

  pub record TrafficCache : Type 0 where
    pub cache : List (Text × CachedStats)
    pub ttl : Time

module _ {S : Type 0} where
  -- time.Since(last) > ttl
  unfoldable pub is_expired : Time → Time → CachedStats S → Bool
  is_expired now ttl cached = ltb ttl (now - cached.last_update)

  unfoldable pub new_traffic_cache : Time → TrafficCache S
  new_traffic_cache ttl = record { cache = []; ttl = if ttl == 0 then 5 * minute_ns else ttl }

  -- What `Get` does with the entry that it finds.
  unfoldable pub use_cached : Time → Time → Time → Option (CachedStats S) → Option S
  use_cached now ttl period_start none = none
  use_cached now ttl period_start (some cached) =
      if not (cached.period_start == period_start)
      then none
      else if is_expired now ttl cached
      then none
      else some cached.stats

  unfoldable pub get : Time → TrafficCache S → ℕ → Text → Text → Time → Option S
  get now c vmid period direction period_start =
      use_cached now c.ttl period_start (lookup (make_key vmid period direction) c.cache)

  unfoldable pub set : Time → TrafficCache S → ℕ → Text → Text → Time → S → TrafficCache S
  set now c vmid period direction period_start stats = record {
    cache =
        put_key (make_key vmid period direction)
          (record { stats = stats; last_update = now; period_start = period_start }) c.cache;
    ttl = c.ttl;
  }

  unfoldable pub invalidate : TrafficCache S → ℕ → TrafficCache S
  invalidate c vmid = record {
    cache = keep_keys (λ key. not (scan_int key == vmid)) c.cache;
    ttl = c.ttl;
  }

  unfoldable pub clear : TrafficCache S → TrafficCache S
  clear c = record { cache = []; ttl = c.ttl }

  -- total and expired
  unfoldable pub get_stats : Time → TrafficCache S → ℕ × ℕ
  get_stats now c = (length c.cache, length (keep (λ entry. is_expired now c.ttl entry.1) c.cache))

  unfoldable pub cleanup : Time → TrafficCache S → TrafficCache S
  cleanup now c = record {
    cache = keep (λ entry. not (is_expired now c.ttl entry.1)) c.cache;
    ttl = c.ttl;
  }
