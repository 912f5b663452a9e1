-- ===== src/Ipc/Lines.antt =====
-- Messages sent over the socket and handled on the other side.
use pve_traffic_monitor.Base.{
  ℕ, ◌≡◌, ◌≤◌, refl, sym, ap, ◌∙◌, inl, inr, false, List, [], ◌∷◌, ◌++◌, none, some, All, length,
  ltb, ◌==◌, Bool-cases, arith,
}
use pve_traffic_monitor.Base.Maps.{lookup, put_key, delete_key, keep_keys, text_Eq}
use pve_traffic_monitor.Base.Split.{Lacks}
use pve_traffic_monitor.Base.Text.{Text, codes, text_eq, split, push_front}
use pve_traffic_monitor.Clock.{Time}
use pve_traffic_monitor.Cache.{TrafficCache, get, clear, use_cached}
use pve_traffic_monitor.Ipc.{
  Message, MessageJson, line_feed, drop_cr, scan_pieces, scan_lines, Handlers, handle_decoded,
  handle_lines, handle_connection, with_line_feed, send_message, call_handler, start_handlers,
  on_message, handle_cleanup_notification,
}

split_line :
    (line s : Text)
    → Lacks line_feed line
    → split line_feed (line ++ (line_feed ∷ s)) ≡ line ∷ split line_feed s
unfolding split
split_line [] s h = refl
split_line (c ∷ line) s h =
    let other : (c == line_feed) ≡ false = ground (arith, h.0) in
    rw other (ap (push_front c) (split_line line s h.1))

split_some : (s : Text) → (p : Text) × (ps : List Text) × (split line_feed s ≡ p ∷ ps)
unfolding split push_front
split_some [] = ([], [], refl)
split_some (c ∷ s) = elim (Bool-cases (c == line_feed)) [
  | inl e ↦ rw e ([], _, refl)
  | inr e ↦ let (p, ps, h) = split_some s in rw e (c ∷ p, ps, ap (push_front c) h)
]

-- A line that a scanner takes as it is.
pub record IsLine (line : Text) : Type 0 where
  pub one : Lacks line_feed line
  pub short : length line ≤ 65535
  pub plain : drop_cr line ≡ line

pub scan_lines-line :
    (line s : Text) → IsLine line → scan_lines (line ++ (line_feed ∷ s)) ≡ line ∷ scan_lines s
unfolding scan_lines scan_pieces
scan_lines-line line s h =
    let (p, ps, some_piece) = split_some s in
    let fits : ltb 65535 (length line) ≡ false = ground (arith, h.short) in
    rw (split_line line s h.one)
      (rw some_piece (rw fits (ap (λ l. l ∷ scan_pieces (p ∷ ps)) h.plain)))

-- Lines one after the other, each with its line feed.
abbrev pub sent_lines : List Text → Text
sent_lines [] = []
sent_lines (line ∷ lines) = line ++ (line_feed ∷ sent_lines lines)

scan_lines-sent_lines :
    (lines : List Text) → All IsLine lines → scan_lines (sent_lines lines) ≡ lines
unfolding scan_lines scan_pieces split
scan_lines-sent_lines [] h = refl
scan_lines-sent_lines (line ∷ lines) h =
    scan_lines-line line (sent_lines lines) h.0
    ∙ ap (λ ls. line ∷ ls) (scan_lines-sent_lines lines h.1)

module _ {D W : Type 0} (json : MessageJson D) (handlers : Handlers D W) where
  -- The lines of a connection are handled in their order; one that cannot be decoded, or whose type no
  -- handler has, changes nothing and does not keep the others from being handled.
  pub handle_connection-line :
      (line s : Text) (w : W)
      → IsLine line
      → handle_connection json handlers (line ++ (line_feed ∷ s)) w
        ≡ handle_connection json handlers s (handle_decoded handlers (json.unmarshal line) w)
  unfolding handle_connection handle_lines
  handle_connection-line line s w h =
      ap (λ lines. handle_lines json handlers lines w) (scan_lines-line line s h)

  pub handle_connection-send_message :
      (m : Message D) (s bytes : Text) (w : W)
      → json.marshal m ≡ some s
      → json.unmarshal s ≡ some m
      → IsLine s
      → send_message json m ≡ some bytes
      → handle_connection json handlers bytes w ≡ call_handler m (lookup m.message_type handlers) w
  unfolding handle_connection handle_lines send_message
  handle_connection-send_message m s bytes w e d l sent =
      let told : some (s ++ (line_feed ∷ [])) ≡ some bytes = sym (ap with_line_feed e) ∙ sent in
      let is_bytes : s ++ (line_feed ∷ []) ≡ bytes = cc told in
      ap (λ b. handle_lines json handlers (scan_lines b) w) (sym is_bytes)
      ∙ ap (λ ls. handle_lines json handlers ls w) (scan_lines-sent_lines (s ∷ []) (l, tt))
      ∙ ap (λ o. handle_decoded handlers o w) d

-- Once the running program has handled the message "cleanup_done" that the command line sends after a
-- removal, its cache has no statistics for any VM, period, direction or time. The message's JSON is one
-- line that decodes to it.
pub handle_connection-cleanup_done :
    {D S : Type 0} (json : MessageJson D) (m : Message D) (s bytes : Text) (cache : TrafficCache S)
    (now : Time) (vmid : ℕ) (period direction : Text) (start : Time)
    → m.message_type ≡ codes "cleanup_done"
    → json.marshal m ≡ some s
    → json.unmarshal s ≡ some m
    → IsLine s
    → send_message json m ≡ some bytes
    → get now (handle_connection json start_handlers bytes cache) vmid period direction start ≡ none
unfolding get clear lookup start_handlers on_message put_key delete_key keep_keys
    handle_cleanup_notification text_eq use_cached
handle_connection-cleanup_done json m s bytes cache now vmid period direction start t e d l sent =
    ap (λ c. get now c vmid period direction start)
      (handle_connection-send_message json start_handlers m s bytes cache e d l sent
        ∙ ap (λ name. call_handler m (lookup name start_handlers) cache) t)
    ∙ refl
