-- ===== src/Tests/Caches.antt =====
-- A cache with one entry.
use pve_traffic_monitor.Base.{ℕ, ◌≡◌, refl, []}
use pve_traffic_monitor.Base.Maps.{text_Eq, lookup, put_key, delete_key, keep_keys, IsMap}
use pve_traffic_monitor.Base.Decimal.{print_int, print_at}
use pve_traffic_monitor.Base.Text.{Text, codes}
use pve_traffic_monitor.Clock.{minute_ns, hour_ns}
use pve_traffic_monitor.Cache.{TrafficCache, make_key, get, set, invalidate}
use pve_traffic_monitor.Cache.Laws.{get-invalidate}

abbrev hour_text : Text
hour_text = codes "hour"

abbrev both_text : Text
both_text = codes "both"

abbrev empty : TrafficCache ℕ
empty = record { cache = []; ttl = hour_ns }

abbrev filled : TrafficCache ℕ
filled = set minute_ns empty 100 hour_text both_text 0 7

printed : make_key 100 hour_text both_text ≡ codes "100:hour:both"
unfolding make_key print_int print_at
printed = refl

get-invalidate_example :
    get hour_ns (invalidate filled 10) 100 hour_text both_text 0
    ≡ get hour_ns filled 100 hour_text both_text 0
get-invalidate_example = get-invalidate hour_ns filled 10 100 hour_text both_text 0

filled-IsMap : IsMap filled.cache
unfolding set put_key lookup delete_key keep_keys
filled-IsMap = (refl, tt)
