-- ===== src/Client/Creation.antt =====
-- When a VM was created, as its configuration tells: GetVMCreationTime of pkg/pve/client.go.
use pve_traffic_monitor.Base.{
  ℕ, ◌*◌, ◌^◌, Bool, not, ◌&&◌, List, [], ◌∷◌, every, length, Option, none, some, ltb, leb, ◌==◌,
  if◌then◌else◌,
}
use pve_traffic_monitor.Base.Decimal.{is_digit, scan_int}
use pve_traffic_monitor.Base.Int.{ℤ, pos, ◌-ℤ◌}
use pve_traffic_monitor.Base.Result.{Result, ok, err}
use pve_traffic_monitor.Base.Text.{Text, codes, has_prefix, trim_prefix, trim_space, split}
use pve_traffic_monitor.Clock.{Time, second_ns, add_time, times}
use pve_traffic_monitor.Network.{PveError, not_found, Config, lookup_text, comma}
use pve_traffic_monitor.Client.{Pve, Op, bind, fail}

-- strconv.ParseInt(s, 10, 64): digits with or without a sign, in the range of int64.
abbrev pub is_number : Text → Bool
is_number s = not (length s == 0) && every is_digit s

unfoldable pub parse_int64 : Text → Option ℤ
parse_int64 [] = none
parse_int64 (c ∷ s) =
    if c == b'-'
    then (if is_number s && leb (scan_int s) (2 ^ 63)
        then some (pos 0 -ℤ pos (scan_int s))
        else none)
    else if c == b'+'
    then (if is_number s && ltb (scan_int s) (2 ^ 63) then some (pos (scan_int s)) else none)
    else if is_number (c ∷ s) && ltb (scan_int (c ∷ s)) (2 ^ 63)
    then some (pos (scan_int (c ∷ s)))
    else none

-- time.Unix(n, 0)
abbrev pub unix : ℤ → Time
unix n = add_time (62_135_596_800 * second_ns) (times n second_ns)

abbrev pub time_or : Result PveError Time → Option ℤ → Result PveError Time
time_or rest none = rest
time_or rest (some n) = ok (unix n)

abbrev pub ctime : Text
ctime = codes "ctime="

-- The loop over the parts of `meta`: the first that is a number.
unfoldable pub find_ctime : List Text → Result PveError Time
find_ctime [] = err not_found
find_ctime (part ∷ parts) =
    if has_prefix (trim_space part) ctime
    then time_or (find_ctime parts) (parse_int64 (trim_prefix (trim_space part) ctime))
    else find_ctime parts

abbrev pub ctime_in : Option Text → Result PveError Time
ctime_in none = err not_found
ctime_in (some meta) = find_ctime (split comma meta)

unfoldable pub creation_time_from_config : Config → Result PveError Time
creation_time_from_config config = ctime_in (lookup_text (codes "meta") config)

unfoldable pub get_vm_creation_time : (pve : Pve) → ℕ → Op pve Time
get_vm_creation_time pve vmid =
    bind pve (pve.get_vm_config vmid) (λ config. fail pve (creation_time_from_config config))
