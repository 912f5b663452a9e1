-- ===== src/Tests/Servers.antt =====
-- Requests to the server, reloads of the configuration and a message of the command line.
use pve_traffic_monitor.Base.{
  ℕ, ap, ◌+◌, ◌++◌, ◌&&◌, ◌||◌, ◌≢◌, ◌∙◌, sym, subst, Bool, All, Bool-cases, inl, inr, ◌*◌, ◌≡◌,
  ◌↔◌, refl, true, false, [], ◌∷◌, List, Option, none, some, arith, ◌==◌, every, not, if◌then◌else◌,
}
use mathlib.Core.List.{reverse}
use pve_traffic_monitor.Base.Int.{pos, negsuc, pos_part, ◌-ℤ◌}
use pve_traffic_monitor.Base.Split.{Lacks}
use pve_traffic_monitor.Base.Text.{
  Text, codes, text_eq, text_eq_iff, has_prefix, split, push_front, join, to_lower, lower,
}
use pve_traffic_monitor.Clock.{Time, minute_ns, hour_ns, day_ns, add_days, add_time}
use pve_traffic_monitor.Clock.Months.{add_days-pos}
use pve_traffic_monitor.Models.{PeriodType}
use pve_traffic_monitor.Base.Maps.{lookup, text_Eq}
use pve_traffic_monitor.Traffic.{aggregate_traffic_by_period}
use pve_traffic_monitor.Api.{get_cache}
use pve_traffic_monitor.Api.History.{
  Texts, HistoryRequest, HistoryResponse, refused, history, Point, Plan, preset_plan, points_of,
  plan_preset, cache_key, handle_history, plan_of,
}
use pve_traffic_monitor.Api.Repeats.{Store, handle_history_other}
use pve_traffic_monitor.Api.Again.{
  is_bad_request, handle_history_again, handle_history-is_bad_request,
}
use pve_traffic_monitor.Api.Files.{
  Paths, Served, HasNoParent, IsSafe, serve_file, serve_file-IsSafe,
}
use pve_traffic_monitor.Cache.{get, new_traffic_cache}
use pve_traffic_monitor.Validation.{
  Config, validate_config, with_default, is_bad_port, is_below, check_storage, check_rules,
}
use pve_traffic_monitor.Storage.{days_from, visited_days}
use pve_traffic_monitor.Storage.Days.{visited_days_fuel}
use pve_traffic_monitor.Loader.{Disk, new_loader, reload, reloads, on_config_reload}
use pve_traffic_monitor.Loader.Reloads.{IsChecked, reloads-IsChecked}
use pve_traffic_monitor.Loader.Callbacks.{current_or, on_config_reload-reload}
use pve_traffic_monitor.Ipc.{
  line_feed, Message, MessageJson, handle_connection, start_handlers, send_message,
}
use pve_traffic_monitor.Ipc.Lines.{handle_connection-cleanup_done}
use pve_traffic_monitor.Tests.Configs.{usual}
use pve_traffic_monitor.Tests.Storages.{reading}
use pve_traffic_monitor.Tests.Traffics.{whole}

-- Three identifiers, one of them negative, one time, and texts that are not looked at.
abbrev texts : Texts
texts = record {
  atoi = λ s.
      if text_eq s (codes "100")
      then some (pos 100)
      else if text_eq s (codes "101")
      then some (pos 101)
      else if text_eq s (codes "-5")
      then some (negsuc 4)
      else none;
  parse_rfc3339 = λ s. if text_eq s (codes "noon") then some (day_ns + 12 * hour_ns) else none;
  format = λ layout t. [];
}

abbrev request : Text → Text → HistoryRequest
request vmid_text period = record {
  vmid_text = vmid_text;
  start = [];
  end = [];
  granularity = [];
  period = period;
}

abbrev store : Store
store vmid start end =
    some (reading (pos_part vmid) hour_ns 5 ∷ reading (pos_part vmid) (2 * hour_ns) 9 ∷ [])

abbrev noon : Time
noon = 400 * day_ns + 12 * hour_ns

handle_history_other_example :
    (handle_history texts store noon noon noon
      (request (codes "101") [])
      (handle_history texts store noon noon noon (request (codes "100") []) []).1).0
    ≡ (handle_history texts store noon noon noon (request (codes "101") []) []).0
unfolding text_eq
handle_history_other_example =
    handle_history_other texts store store noon noon noon noon noon noon (request (codes "100") [])
      (request (codes "101") []) (pos 100) (pos 101) [] refl refl
      (λ e. absurd (omega (arith, ap pos_part e)))

-- A negative identifier is read and answered, as one without records.
negative_identifier :
    (handle_history texts
      (λ vmid start end. some [])
      noon
      noon
      noon
      (request (codes "-5") (codes "day"))
      []).0
    ≡ HistoryResponse.no_records PeriodType.day
unfolding handle_history plan_of plan_preset text_eq get_cache lookup cache_key
negative_identifier = refl

handle_history-is_bad_request_example :
    (is_bad_request texts (request (codes "100") (codes "week")) ≡ true) ↔ (
      handle_history texts store noon noon noon (request (codes "100") (codes "week")) []
      ≡ (refused 400, []))
handle_history-is_bad_request_example =
    handle_history-is_bad_request texts store noon noon noon (request (codes "100") (codes "week"))
      []

-- The last element of the stack is taken off by "..", and the empty ones and "." are passed over.
abbrev without_last : List Text → List Text
without_last [] = []
without_last (e ∷ stack) = stack

abbrev next_stack : List Text → Text → List Text
next_stack stack e =
    if text_eq e [] || text_eq e (codes ".")
    then stack
    else if text_eq e (codes "..")
    then without_last stack
    else e ∷ stack

unfoldable resolve : List Text → List Text → List Text
resolve stack [] = stack
resolve stack (e ∷ es) = resolve (next_stack stack e) es

-- filepath.Clean on an absolute path.
abbrev clean_path : Text → Text
clean_path s = b'/' ∷ join b'/' (reverse (resolve [] (split b'/' s)))

abbrev is_free : Text → Bool
is_free path = every (λ e. not (text_eq e (codes ".."))) (split b'/' path)

abbrev paths : Paths
paths = record {
  clean = clean_path;
  join = λ dir s. clean_path (dir ++ (b'/' ∷ s));
  abs = λ s. if is_free (clean_path s) then some (clean_path s) else none;
  stat = λ s. some false;
}

every-free :
    (es : List Text)
    → every (λ e. not (text_eq e (codes ".."))) es ≡ true
    → All (λ e. e ≢ codes "..") es
every-free [] h = tt
every-free (e ∷ es) h = elim (Bool-cases (text_eq e (codes ".."))) [
  | inl same ↦
      let wrong : false ≡ true =
        subst (λ b. (not b && every (λ d. not (text_eq d (codes ".."))) es) ≡ true) same h in
      cc wrong
  | inr other ↦ (
    (λ same.
        let wrong : false ≡ true = sym other ∙ (text_eq_iff e (codes "..")).1 same in cc wrong),
    every-free es (ground (arith, h, other)),
  )
]

abs-HasNoParent : (p path : Text) → paths.abs p ≡ some path → HasNoParent path
abs-HasNoParent p path h = elim (Bool-cases (is_free (clean_path p))) [
  | inl free ↦
      let told : some (clean_path p) ≡ some path = given true free in
      let same : clean_path p ≡ path = cc told in
      subst HasNoParent same (every-free (split b'/' (clean_path p)) free)
  | inr other ↦ let told : none ≡ some path = given false other in cc told
]
  where
    given :
        (b : Bool)
        → is_free (clean_path p) ≡ b
        → (if b then some (clean_path p) else none) ≡ some path
    given b e = subst (λ c. (if c then some (clean_path p) else none) ≡ some path) e h

-- A file above the directory is asked for.
serve_file-IsSafe_example :
    IsSafe paths (codes "/web") (serve_file paths (codes "/web") (codes "/../etc/passwd"))
serve_file-IsSafe_example =
    serve_file-IsSafe paths (codes "/web") (codes "/../etc/passwd") abs-HasNoParent

-- It is looked for in the directory.
passwd_in_web :
    serve_file paths (codes "/web") (codes "/../etc/passwd") ≡ Served.file (codes "/web/etc/passwd")
unfolding serve_file resolve split push_front join text_eq has_prefix
passwd_in_web = refl

abbrev hourly_plan : Plan
hourly_plan =
    preset_plan (add_time noon (pos 0 -ℤ pos (24 * hour_ns))) noon PeriodType.hour minute_ns

abbrev served : List Point
served = points_of texts PeriodType.hour (
    aggregate_traffic_by_period (reading 100 hour_ns 5 ∷ reading 100 (2 * hour_ns) 9 ∷ [])
      PeriodType.hour)

-- Half a minute later, when the storage has no records.
handle_history_again_example :
    let left =
      (handle_history texts store noon noon noon (request (codes "100") (codes "hour")) []).1 in
    handle_history texts
      (λ vmid start end. some [])
      (noon + 30)
      (noon + 30)
      (noon + 30)
      (request (codes "100") (codes "hour"))
      left
    ≡ (history served PeriodType.hour true, left)
unfolding plan_of plan_preset text_eq handle_history cache_key get_cache lookup
handle_history_again_example =
    handle_history_again texts store (λ vmid start end. some []) noon noon noon (noon + 30)
      (noon + 30) (noon + 30) (request (codes "100") (codes "hour")) (pos 100) hourly_plan served []
      refl refl refl (omega arith)

visited_days_fuel_example :
    days_from 7 hour_ns (add_days (2 * hour_ns) (pos 1)) ≡ visited_days hour_ns (2 * hour_ns)
visited_days_fuel_example =
    visited_days_fuel hour_ns (2 * hour_ns) 7 (omega (arith, add_days-pos (2 * hour_ns) 1))

-- The text of a configuration file is not looked at.
abbrev disk : Disk
disk = record { modified = some hour_ns; content = some [] }

abbrev decode : Text → Option (Config whole.F)
decode s = some usual

reloads-IsChecked_example :
    IsChecked whole (reloads whole decode (disk ∷ disk ∷ []) new_loader).config
reloads-IsChecked_example = reloads-IsChecked whole decode (disk ∷ disk ∷ []) new_loader tt

on_config_reload-reload_example :
    on_config_reload true (current_or usual (reload whole decode disk new_loader).1.config) usual
    ≡ []
unfolding reload validate_config with_default is_bad_port is_below check_storage check_rules text_eq
    to_lower lower
on_config_reload-reload_example =
    on_config_reload-reload whole decode disk new_loader usual true refl

abbrev cleanup_message : Message (Unit {0})
cleanup_message = record {
  message_type = codes "cleanup_done";
  timestamp = noon;
  message_data = tt;
}

abbrev messages : MessageJson (Unit {0})
messages = record {
  marshal = λ m. some m.message_type;
  unmarshal = λ s. some (record { message_type = s; timestamp = noon; message_data = tt });
}

every-Lacks : (s : Text) → every (λ c. not (c == line_feed)) s ≡ true → Lacks line_feed s
every-Lacks [] h = tt
every-Lacks (c ∷ s) h = ground (arith, every-Lacks s)

handle_connection-cleanup_done_example :
    get noon
      (handle_connection messages start_handlers
        (codes "cleanup_done\n")
        (new_traffic_cache {S = ℕ} minute_ns))
      100
      (codes "hour")
      (codes "both")
      noon
    ≡ none
unfolding send_message
handle_connection-cleanup_done_example =
    handle_connection-cleanup_done messages cleanup_message (codes "cleanup_done")
      (codes "cleanup_done\n") (new_traffic_cache minute_ns) noon 100 (codes "hour") (codes "both")
      noon refl refl refl
      (record { one = every-Lacks (codes "cleanup_done") refl; short = omega arith; plain = refl })
      refl
