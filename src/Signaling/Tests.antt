-- ===== src/Signaling/Tests.antt =====
-- The theorems of the signalling server on a broadcast of two sessions.
use rtc_framework.Base.{◌≡◌, ◌≤◌, true, false, not, ◌||◌, List, [], ◌∷◌, ◌==◌}
use rtc_framework.Signaling.Rooms.{RoomType, no_rooms, complete}
use rtc_framework.Signaling.Seats.{seats, all_kept}
use rtc_framework.Signaling.RoomsLaws.{Request, do_requests, seated_once}
use rtc_framework.Signaling.Server.{new_server, close_connection}
use rtc_framework.Signaling.ServerLaws.{Event, run_events, holds, closed_connection_gone}

abbrev broadcast : List Request
broadcast =
    Request.opens (
      complete (record {
        sessionid = 0;
        roomid = 5;
        room_type = RoomType.video_broadcasting;
        force = false;
      }))
    ∷ Request.joins (complete (record { sessionid = 1; roomid = 5 }))
    ∷ []

seated_once_example :
    let r = do_requests broadcast no_rooms in (seats 1 r.rooms ≤ 1) × (all_kept r.rooms ≡ true)
seated_once_example = seated_once broadcast 1

abbrev show : List Event
show =
    Event.opens 70
    ∷ Event.opens 71
    ∷ Event.asks (
        Request.opens (
          complete (record {
            sessionid = 0;
            roomid = 5;
            room_type = RoomType.video_broadcasting;
            force = false;
          })))
    ∷ Event.asks (Request.joins (complete (record { sessionid = 1; roomid = 5 })))
    ∷ []

closed_connection_gone_example :
    let s = run_events show new_server in
    let t = close_connection 70 s in
    (holds 0 70 t.sessionid_conn_map ≡ false)
    × (((not (holds 0 70 s.sessionid_conn_map) || (seats 0 t.rooms.rooms == 0)) ≡ true)
        × ((seats 1 t.rooms.rooms ≤ seats 1 s.rooms.rooms) × (all_kept t.rooms.rooms ≡ true)))
closed_connection_gone_example = closed_connection_gone show 70 0 1
