-- ===== src/Ipc.antt =====
-- The messages from the command line to the running program, pkg/ipc/socket.go, with the handlers that
-- Start of cmd/monitor/main.go registers and the path of the socket that both sides compute. The
-- socket is the bytes that pass through it; JSON, the temporary directory and filepath.Join are
-- parameters.
pub mod Lines
use pve_traffic_monitor.Base.{
  ℕ, suc, Bool, true, false, ◌||◌, List, [], ◌∷◌, ◌++◌, Option, none, some, length, leb, ltb, ◌==◌,
  if◌then◌else◌,
}
use pve_traffic_monitor.Base.Maps.{lookup, put_key, text_Eq}
use pve_traffic_monitor.Base.Text.{Text, codes, text_eq, split}
use pve_traffic_monitor.Clock.{Time}
use pve_traffic_monitor.Cache.{TrafficCache, clear}
use pve_traffic_monitor.Validation.{StorageConfig}

pub record Message (D : Type 0) : Type 0 where
  pub message_type : Text
  pub timestamp : Time
  pub message_data : D

-- encoding/json on messages.
pub record MessageJson (D : Type 0) : Type 0 where
  pub marshal : Message D → Option Text
  pub unmarshal : Text → Option (Message D)

abbrev pub line_feed : ℕ
line_feed = 10

abbrev pub drop_cr : Text → Text
drop_cr [] = []
drop_cr (c ∷ []) = if c == 13 then [] else c ∷ []
drop_cr (c ∷ d ∷ s) = c ∷ drop_cr (d ∷ s)

-- The pieces between line feeds up to the first that is too long for the scanner's buffer of 64 KB,
-- each without a carriage return at its end; the last is no line where it is empty.
unfoldable pub scan_pieces : List Text → List Text
scan_pieces [] = []
scan_pieces (piece ∷ []) =
    if leb (length piece) 0 || ltb 65535 (length piece) then [] else drop_cr piece ∷ []
scan_pieces (piece ∷ p ∷ ps) =
    let rest = scan_pieces (p ∷ ps) in if ltb 65535 (length piece) then [] else drop_cr piece ∷ rest

-- bufio.Scanner with ScanLines.
unfoldable pub scan_lines : Text → List Text
scan_lines bytes = scan_pieces (split line_feed bytes)

abbrev pub Handlers : Type 0 → Type 0 → Type 0
Handlers D W = List (Text × (Message D → W → W))

unfoldable pub on_message :
    {D W : Type 0} → Text → (Message D → W → W) → Handlers D W → Handlers D W
on_message message_type handler handlers = put_key message_type handler handlers

abbrev pub call_handler : {D W : Type 0} → Message D → Option (Message D → W → W) → W → W
call_handler m none w = w
call_handler m (some handler) w = handler m w

-- A line that cannot be decoded is passed over.
abbrev pub handle_decoded : {D W : Type 0} → Handlers D W → Option (Message D) → W → W
handle_decoded handlers none w = w
handle_decoded handlers (some m) w = call_handler m (lookup m.message_type handlers) w

module _ {D W : Type 0} (json : MessageJson D) where
  unfoldable pub handle_lines : Handlers D W → List Text → W → W
  handle_lines handlers [] w = w
  handle_lines handlers (line ∷ lines) w =
      handle_lines handlers lines (handle_decoded handlers (json.unmarshal line) w)

  unfoldable pub handle_connection : Handlers D W → Text → W → W
  handle_connection handlers bytes w = handle_lines handlers (scan_lines bytes) w

-- What SendMessage writes, where there is a connection and the message can be encoded.
abbrev pub with_line_feed : Option Text → Option Text
with_line_feed none = none
with_line_feed (some s) = some (s ++ (line_feed ∷ []))

unfoldable pub send_message : {D : Type 0} → MessageJson D → Message D → Option Text
send_message json m = with_line_feed (json.marshal m)

-- handleCleanupNotification and handleReloadCacheNotification, on the cache.
unfoldable pub handle_cleanup_notification :
    {D S : Type 0} → Message D → TrafficCache S → TrafficCache S
handle_cleanup_notification m cache = clear cache

unfoldable pub handle_reload_cache_notification :
    {D S : Type 0} → Message D → TrafficCache S → TrafficCache S
handle_reload_cache_notification m cache = clear cache

-- The handlers of Start.
unfoldable pub start_handlers : {D S : Type 0} → Handlers D (TrafficCache S)
start_handlers =
    on_message (codes "reload_cache") handle_reload_cache_notification
      (on_message (codes "cleanup_done") handle_cleanup_notification [])

-- GetDefaultSocketPath. It also makes the directory, whose error is not looked at.
unfoldable pub get_default_socket_path : Text → (Text → Text → Text) → Text → Text
get_default_socket_path temp_dir join storage_path =
    join (if text_eq storage_path [] then temp_dir else storage_path) (codes "monitor.sock")

-- The directory of the socket, which NewMonitor and notifyMainProgram compute alike.
unfoldable pub socket_base_path : Text → (Text → Text → Text) → StorageConfig → Text
socket_base_path temp_dir join c =
    if text_eq c.storage_type (codes "file") || text_eq c.storage_type []
    then c.file_path
    else join temp_dir (codes "pve-traffic-monitor")
