-- ===== src/Manager/Link.antt =====
-- vtsrtc/src/rtc_connection_manager.cpp: what the thread of the WebSocket does (`InitWebsocket`,
-- `SetPingTimeout`, `ReconnectWebsocket`). A timer is whether a wait is pending: to set it cancels the wait
-- before, and a cancelled wait does nothing. A message is what the JSON library reads of it; a value of
-- another type throws there, and is not modelled. The first message comes after an `on_open`.
use text.Mathlib.Text.{◌==◌ as str_eq}
use rtc_framework.Base.{
  ℕ, suc, Bool, true, false, String, List, [], ◌∷◌, ◌++◌, Option, none, some, if◌then◌else◌,
}

-- What is posted to the logic thread.
pub data Task : Type 0 where
  connected logined disconnected : Task
  room_info : String → String → Task
  interact : ℕ → String → Task
  ack : ℕ → String → Task
  candidate : ℕ → String → Task

-- The fields that are read, where `contains` is asked before; the others are there.
pub record Message : Type 0 where
  pub command : Option String
  pub type : Option String
  pub sessionid : Option ℕ
  pub roomid : Option String
  pub from_sessionid : ℕ
  pub sdp : String
  pub ice : String

pub record Link : Type 0 where
  pub network_disconnected_notified : Bool
  pub lock_reconnect : Bool
  pub ping_timer : Bool
  pub pong_timer : Bool
  pub reconnect_timer : Bool
  pub current_sessionid : Option ℕ
  pub ws_conn : Option ℕ
  -- The calls of `start`, and the pings.
  pub starts : ℕ
  pub pings : ℕ
  -- The tasks that wait, and all that were posted, newest first.
  pub tasks : List Task
  pub posted : List Task

-- After the first `start`.
abbrev pub new_link : Link
new_link = record {
  network_disconnected_notified = false;
  lock_reconnect = false;
  ping_timer = false;
  pong_timer = false;
  reconnect_timer = false;
  current_sessionid = none;
  ws_conn = none;
  starts = 1;
  pings = 0;
  tasks = [];
  posted = [];
}

abbrev pub post : Task → Link → Link
post t l = record l { tasks = l.tasks ++ t ∷ []; posted = t ∷ l.posted }

abbrev pub is_some {ℓ} : {A : Type ℓ} → Option A → Bool
is_some none = false
is_some (some a) = true

unfoldable pub on_open : ℕ → Link → Link
on_open conn l = post connected (record l {
  network_disconnected_notified = false;
  lock_reconnect = false;
  reconnect_timer = false;
  ws_conn = some conn;
  ping_timer = true;
})

-- The first part: the notice, once until the next `on_open`.
unfoldable pub notify_disconnected : Link → Link
notify_disconnected l =
    if l.network_disconnected_notified
    then l
    else post disconnected (record l {
      current_sessionid = none;
      ws_conn = none;
      network_disconnected_notified = true;
    })

unfoldable pub reconnect_websocket : Link → Link
unfolding notify_disconnected
reconnect_websocket l =
    let m = record (notify_disconnected l) { ping_timer = false; pong_timer = false } in
    if m.lock_reconnect
    then m
    else record m { lock_reconnect = true; reconnect_timer = true; starts = suc m.starts }

-- The handlers of the timers, for a wait that was not cancelled.
unfoldable pub set_ping_timeout : Link → Link
set_ping_timeout l = record l {
  ping_timer = false;
  pong_timer = true;
  pings = if is_some l.ws_conn then suc l.pings else l.pings;
}

unfoldable pub on_pong_timeout : Link → Link
unfolding reconnect_websocket
on_pong_timeout l = reconnect_websocket (record l { pong_timer = false })

unfoldable pub on_reconnect_timeout : Link → Link
unfolding reconnect_websocket
on_reconnect_timeout l =
    reconnect_websocket (record l { reconnect_timer = false; lock_reconnect = false })

abbrev pub is_text : String → Option String → Bool
is_text text none = false
is_text text (some t) = str_eq t text

abbrev pub log_in : Option ℕ → Link → Link
log_in none l = l
log_in (some id) l = post logined (record l { current_sessionid = some id })

abbrev pub post_room_info : Option String → Option String → Link → Link
post_room_info (some type) (some roomid) l = post (room_info type roomid) l
post_room_info none _ l = l
post_room_info (some type) none l = l

unfoldable pub read_message : Message → Link → Link
read_message m l =
    if is_text "take_heartbeat" m.command
    then record l { pong_timer = false; ping_timer = true }
    else if is_text "take_info" m.command
    then (if is_text "login_succeed" m.type then log_in m.sessionid l else l)
    else if is_text "take_roominfo" m.command
    then post_room_info m.type m.roomid l
    else if is_text "take_configuration" m.command
    then (if is_text "forward_offer" m.type
        then post (interact m.from_sessionid m.sdp) l
        else if is_text "forward_answer" m.type
        then post (ack m.from_sessionid m.sdp) l
        else l)
    else if is_text "take_candidate" m.command
    then post (candidate m.from_sessionid m.ice) l
    else l

-- `none` is a text that is no JSON.
unfoldable pub on_message : Option Message → Link → Link
unfolding read_message
on_message none l = l
on_message (some m) l = read_message m l

-- What happens on that thread, in any order; a timer ends only while its wait is pending.
pub data Event : Type 0 where
  opens : ℕ → Event
  says : Option Message → Event
  fails closes ping_ends pong_ends reconnect_ends : Event

unfoldable pub happen : Event → Link → Link
unfolding on_open on_message reconnect_websocket set_ping_timeout on_pong_timeout
    on_reconnect_timeout
happen (opens conn) l = on_open conn l
happen (says m) l = on_message m l
happen fails l = reconnect_websocket l
happen closes l = reconnect_websocket l
happen ping_ends l = if l.ping_timer then set_ping_timeout l else l
happen pong_ends l = if l.pong_timer then on_pong_timeout l else l
happen reconnect_ends l = if l.reconnect_timer then on_reconnect_timeout l else l

unfoldable pub run_events : List Event → Link → Link
run_events [] l = l
run_events (e ∷ es) l = run_events es (happen e l)
