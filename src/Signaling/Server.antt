-- ===== src/Signaling/Server.antt =====
-- signaling-server/src/ws_controller.cpp: `WsController`. Connections are numbers. A message is what the
-- JSON library reads of it: a value of another type throws there, and is not modelled. Only the calls
-- with the timer that has not been cancelled are events.
use text.Mathlib.Text.{◌==◌ as str_eq}
use rtc_framework.Base.{
  ℕ, ◌+◌, Bool, false, String, List, [], ◌∷◌, ◌++◌, Option, none, some, u32, ◌==◌, if◌then◌else◌,
}
use rtc_framework.Base.Assoc.{lookup}
use rtc_framework.Base.Sorted.{put}
use rtc_framework.Signaling.Rooms.{Rooms, no_rooms, count, remove, leave_room}

-- The fields that are read, and the rest of the message.
pub record Message : Type 0 where
  pub command : Option String
  pub type : Option String
  pub to_sessionid : ℕ
  pub body : ℕ

pub data Outgoing : Type 0 where
  login_succeed : ℕ → Outgoing
  forwarded : Message → Outgoing

pub record Server : Type 0 where
  pub rooms : Rooms
  pub next_id : ℕ
  pub sessionid_conn_map : List (ℕ × ℕ)
  -- The connections that have a ping timer, and those whose timer a posted task is to erase.
  pub conn_pingtimer_map : List ℕ
  pub erasing : List ℕ
  -- What was sent, newest first.
  pub sent : List (ℕ × Outgoing)

abbrev pub new_server : Server
new_server = record {
  rooms = no_rooms;
  next_id = 0;
  sessionid_conn_map = [];
  conn_pingtimer_map = [];
  erasing = [];
  sent = [];
}

-- `conn_pingtimer_map_[conn] = pingtimer`.
unfoldable pub on_open : ℕ → Server → Server
on_open conn s = record s {
  next_id = u32 (s.next_id + 1);
  sessionid_conn_map = put s.next_id conn s.sessionid_conn_map;
  conn_pingtimer_map = conn ∷ remove conn s.conn_pingtimer_map;
  sent = (conn, login_succeed s.next_id) ∷ s.sent;
}

unfoldable pub forward : ℕ → Message → Server → Server
forward sessionid message s = elim (lookup sessionid s.sessionid_conn_map) [
  | none ↦ s
  | some conn ↦ record s { sent = (conn, forwarded message) ∷ s.sent }
]

abbrev pub is_text : String → Option String → Bool
is_text text none = false
is_text text (some t) = str_eq t text

-- The commands; those that are only logged do nothing.
unfoldable pub on_message : ℕ → Message → Server → Server
unfolding forward
on_message conn m s =
    if is_text "take_heartbeat" m.command
    then (if count conn s.conn_pingtimer_map == 0
        then s
        else record s { sent = (conn, forwarded (record m { type = some "pong" })) ∷ s.sent })
    else if is_text "take_configuration" m.command
    then (if is_text "offer" m.type
        then forward m.to_sessionid (record m { type = some "forward_offer" }) s
        else if is_text "answer" m.type
        then forward m.to_sessionid (record m { type = some "forward_answer" }) s
        else s)
    else if is_text "take_candidate" m.command
    then forward m.to_sessionid m s
    else s

-- The loop over the sessions: each of the connection leaves its room and is erased.
unfoldable pub close_sessions : ℕ → List (ℕ × ℕ) → Rooms → Rooms × List (ℕ × ℕ)
unfolding leave_room
close_sessions conn [] r = (r, [])
close_sessions conn ((sessionid, c) ∷ others) r =
    let (closed, none_left) = close_sessions conn others (leave_room sessionid r) in
    let (passed, left) = close_sessions conn others r in
    if c == conn then (closed, none_left) else (passed, (sessionid, c) ∷ left)

-- `CloseConnectionAndTimer`: after an error, a close, or a ping that did not come.
unfoldable pub close_connection : ℕ → Server → Server
unfolding close_sessions
close_connection conn s =
    let (rooms, left) = close_sessions conn s.sessionid_conn_map s.rooms in
    record s {
      rooms = rooms;
      sessionid_conn_map = left;
      erasing = if count conn s.conn_pingtimer_map == 0 then s.erasing else s.erasing ++ conn ∷ [];
    }

-- The task that `CloseConnectionAndTimer` posts.
unfoldable pub erase_timer : Server → Server
erase_timer s = elim s.erasing [
  | [] ↦ s
  | conn ∷ others ↦ record s {
    erasing = others;
    conn_pingtimer_map = remove conn s.conn_pingtimer_map;
  }
]
