-- ===== src/Api.antt =====
-- The parts of the API server that do not concern HTTP, pkg/api/server.go: the measurements of
-- requests, the cache of responses and the check of the token. A cache's operation holds its lock, and
-- `now` is the time that it reads. Durations are in nanoseconds.
pub mod Requests
pub mod Tokens
pub mod History
pub mod Repeats
pub mod Again
pub mod Handlers
pub mod Files
pub mod Figures
use pve_traffic_monitor.Base.{
  ℕ, suc, ◌+◌, ◌*◌, Bool, true, false, not, ◌&&◌, List, [], ◌∷◌, ◌++◌, keep, length, Option, none,
  some, leb, ltb, if◌then◌else◌,
}
use pve_traffic_monitor.Base.Maps.{lookup, put_key, text_Eq}
use pve_traffic_monitor.Base.Text.{Text, codes, text_eq, has_prefix, trim_prefix}
use pve_traffic_monitor.Clock.{Time, hour_ns, after}

pub record PerformanceStats : Type 0 where
  pub total_requests : ℕ
  pub total_duration : ℕ
  pub request_durations : List ℕ
  pub max_duration : ℕ
  pub min_duration : ℕ

abbrev pub new_performance_stats : PerformanceStats
new_performance_stats = record {
  total_requests = 0;
  total_duration = 0;
  request_durations = [];
  max_duration = 0;
  min_duration = hour_ns;
}

abbrev pub tail_of : List ℕ → List ℕ
tail_of [] = []
tail_of (d ∷ ds) = ds

unfoldable pub record_request : ℕ → PerformanceStats → PerformanceStats
record_request duration p = record {
  total_requests = p.total_requests + 1;
  total_duration = p.total_duration + duration;
  request_durations =
      (if leb 100 (length p.request_durations)
        then tail_of p.request_durations
        else p.request_durations)
      ++ (duration ∷ []);
  max_duration = if ltb p.max_duration duration then duration else p.max_duration;
  min_duration = if ltb duration p.min_duration then duration else p.min_duration;
}

module _ (A : Type 0) where
  pub record CacheEntry : Type 0 where
    pub data_of : A
    pub expires_at : Time

  abbrev pub Entries : Type 0
  Entries = List (Text × CacheEntry)

module _ {A : Type 0} where
  abbrev pub is_expired : Time → CacheEntry A → Bool
  is_expired now entry = after now entry.expires_at

  abbrev pub use_entry : Time → Option (CacheEntry A) → Option A
  use_entry now none = none
  use_entry now (some entry) = if is_expired now entry then none else some entry.data_of

  unfoldable pub get_cache : Time → Text → Entries A → Option A
  get_cache now key entries = use_entry now (lookup key entries)

  unfoldable pub set_cache : Time → Text → A → ℕ → Entries A → Entries A
  set_cache now key a ttl entries =
      put_key key (record { data_of = a; expires_at = now + ttl }) entries

  unfoldable pub clean_expired_cache : Time → Entries A → Entries A
  clean_expired_cache now entries = keep (λ entry. not (is_expired now entry.1)) entries

  -- total and expired
  unfoldable pub get_cache_stats : Time → Entries A → ℕ × ℕ
  get_cache_stats now entries =
      (length entries, length (keep (λ entry. is_expired now entry.1) entries))

-- The two headers and the query parameter that may hold the token.
pub record Request : Type 0 where
  pub api_token : Text
  pub authorization : Text
  pub query_token : Text

abbrev pub is_empty : Text → Bool
is_empty s = text_eq s []

abbrev pub bearer : Text
bearer = codes "Bearer "

abbrev pub without_bearer : Text → Text
without_bearer token =
    if ltb 7 (length token) && has_prefix token bearer then trim_prefix token bearer else token

unfoldable pub token_of : Request → Text
token_of r =
    let header = if is_empty r.api_token then without_bearer r.authorization else r.api_token in
    if is_empty header then r.query_token else header

-- Whether the handler is called.
unfoldable pub is_authorized : Text → Request → Bool
is_authorized token r = if is_empty token then true else text_eq (token_of r) token
