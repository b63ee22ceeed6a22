-- ===== src/Signaling/ServerLaws.antt =====
-- ws_controller.cpp: what is left of a connection when it is closed.
use rtc_framework.Base.{
  ℕ, ◌≤◌, ◌≡◌, refl, Bool, true, false, not, ◌&&◌, ◌||◌, List, [], ◌∷◌, ◌==◌, arith,
}
use rtc_framework.Signaling.Rooms.{Rooms, leave_room}
use rtc_framework.Signaling.Seats.{seats, all_kept}
use rtc_framework.Signaling.Leaving.{IsValid, leave-IsValid, leave_none, leave_fewer}
use rtc_framework.Signaling.RoomsLaws.{Request, do_request, request-IsValid, none-IsValid}
use rtc_framework.Signaling.Server.{
  Message, Server, new_server, on_open, forward, on_message, close_sessions, close_connection,
  erase_timer,
}

pub data Event : Type 0 where
  opens closes : ℕ → Event
  says : ℕ → Message → Event
  asks : Request → Event
  erases : Event

unfoldable pub happen : Event → Server → Server
unfolding on_open on_message close_connection erase_timer do_request
happen (opens conn) s = on_open conn s
happen (closes conn) s = close_connection conn s
happen (says conn message) s = on_message conn message s
happen (asks q) s = record s { rooms = do_request q s.rooms }
happen erases s = erase_timer s

unfoldable pub run_events : List Event → Server → Server
run_events [] s = s
run_events (e ∷ es) s = run_events es (happen e s)

sessions-IsValid :
    (conn : ℕ) (m : List (ℕ × ℕ)) (r : Rooms)
    → ((x : ℕ) → IsValid x r)
    → (x : ℕ) → IsValid x (close_sessions conn m r).0
unfolding close_sessions
sessions-IsValid conn [] r v x = v x
sessions-IsValid conn ((y, c) ∷ m) r v x = ground (
  arith,
  sessions-IsValid conn m r v x,
  sessions-IsValid conn m (leave_room y r) (λ z. leave-IsValid z y r (v z)) x,
)

abbrev RoomsValid : Server → Type 0
RoomsValid s = (x : ℕ) → IsValid x s.rooms

message_rooms : (conn : ℕ) (m : Message) (s : Server) → (on_message conn m s).rooms ≡ s.rooms
unfolding on_message forward
message_rooms conn m s = ground arith

happen-RoomsValid : (e : Event) (s : Server) → RoomsValid s → RoomsValid (happen e s)
unfolding happen on_open close_connection erase_timer
happen-RoomsValid (opens conn) s v x = v x
happen-RoomsValid (closes conn) s v x = sessions-IsValid conn s.sessionid_conn_map s.rooms v x
happen-RoomsValid (says conn m) s v x = rw (message_rooms conn m s) (v x)
happen-RoomsValid (asks q) s v x = request-IsValid q s.rooms v x
happen-RoomsValid erases s v x = ground (arith, v x)

run-RoomsValid : (es : List Event) (s : Server) → RoomsValid s → RoomsValid (run_events es s)
unfolding run_events
run-RoomsValid [] s v = v
run-RoomsValid (e ∷ es) s v = run-RoomsValid es (happen e s) (happen-RoomsValid e s v)

-- The sessions of a connection, and whether there are any.
abbrev pub holds : ℕ → ℕ → List (ℕ × ℕ) → Bool
holds x conn [] = false
holds x conn ((y, c) ∷ m) = ((y == x) && (c == conn)) || holds x conn m

none_held :
    (x conn : ℕ) (m : List (ℕ × ℕ)) (r : Rooms) → holds x conn (close_sessions conn m r).1 ≡ false
unfolding close_sessions
none_held x conn [] r = refl
none_held x conn ((y, c) ∷ m) r =
    ground (arith, none_held x conn m r, none_held x conn m (leave_room y r))

fewer_seats :
    (x conn : ℕ) (m : List (ℕ × ℕ)) (r : Rooms)
    → ((z : ℕ) → IsValid z r)
    → seats x (close_sessions conn m r).0.rooms ≤ seats x r.rooms
unfolding close_sessions
fewer_seats x conn [] r v = omega arith
fewer_seats x conn ((y, c) ∷ m) r v = ground (
  arith,
  fewer_seats x conn m r v,
  fewer_seats x conn m (leave_room y r) (λ z. leave-IsValid z y r (v z)),
  leave_fewer x y r (v x),
)

no_seats :
    (x conn : ℕ) (m : List (ℕ × ℕ)) (r : Rooms)
    → ((z : ℕ) → IsValid z r)
    → holds x conn m ≡ true
    → seats x (close_sessions conn m r).0.rooms ≡ 0
unfolding close_sessions
no_seats x conn [] r v h = ground arith
no_seats x conn ((y, c) ∷ m) r v h = ground (
  arith,
  no_seats x conn m r v,
  no_seats x conn m (leave_room y r) (λ z. leave-IsValid z y r (v z)),
  fewer_seats x conn m (leave_room y r) (λ z. leave-IsValid z y r (v z)),
  leave_none y r (v y),
)

start-RoomsValid : RoomsValid new_server
start-RoomsValid x = none-IsValid x

-- After any connections, messages and requests: when a connection closes, none of the sessions that it
-- had is left to it or has a seat in a room, no session has gained a seat, no room is empty, and the
-- broadcaster of every broadcast has a seat.
pub closed_connection_gone :
    (es : List Event) (conn x other : ℕ)
    → let s = run_events es new_server in
      let t = close_connection conn s in
      (holds x conn t.sessionid_conn_map ≡ false)
      × (((not (holds x conn s.sessionid_conn_map) || (seats x t.rooms.rooms == 0)) ≡ true)
          × ((seats other t.rooms.rooms ≤ seats other s.rooms.rooms)
              × (all_kept t.rooms.rooms ≡ true)))
unfolding close_connection
closed_connection_gone es conn x other =
    let s : Server = run_events es new_server in
    let v = run-RoomsValid es new_server start-RoomsValid in
    let m : List (ℕ × ℕ) = s.sessionid_conn_map in
    (
      none_held x conn m s.rooms,
      (
        ground (arith, no_seats x conn m s.rooms v),
        (fewer_seats other conn m s.rooms v, (sessions-IsValid conn m s.rooms v x).kept),
      ),
    )
