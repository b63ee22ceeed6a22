-- ===== src/Signaling/Rooms.antt =====
-- signaling-server/src/ws_controller.cpp and http_controller.cpp: the rooms. Room ids are only compared,
-- and are numbers here. A request is what the JSON library reads of it; a value of another type throws
-- there, and is not modelled. What is sent to the clients about rooms is a list of notices.
use rtc_framework.Base.{
  ℕ, zero, suc, ◌+◌, ◌-◌, Bool, true, false, not, ◌&&◌, ◌||◌, List, [], ◌∷◌, ◌++◌, Option, none,
  some, length, ltb, ◌==◌, if◌then◌else◌,
}
use rtc_framework.Base.Assoc.{lookup, erase}
use rtc_framework.Base.Sorted.{put}

pub data RoomType : Type 0 where
  video_broadcasting video_conference : RoomType
  unlisted : ℕ → RoomType

pub record Room : Type 0 where
  pub room_type : RoomType
  pub sessionids : List ℕ
  pub broadcaster_sessionid : ℕ

-- `-1` as a `SessionId`.
abbrev pub no_session : ℕ
no_session = 4294967295

pub data Notice : Type 0 where
  opened_room closed_room : ℕ → Notice

pub record Rooms : Type 0 where
  pub rooms : List (ℕ × Room)
  pub notices : List Notice

abbrev pub no_rooms : Rooms
no_rooms = record { rooms = []; notices = [] }

abbrev pub is_broadcasting : RoomType → Bool
is_broadcasting RoomType.video_broadcasting = true
is_broadcasting _ = false

-- `std::count` and `std::remove` with `erase`.
abbrev pub count : ℕ → List ℕ → ℕ
count x [] = 0
count x (y ∷ ys) = (if y == x then 1 else 0) + count x ys

abbrev pub remove : ℕ → List ℕ → List ℕ
remove x [] = []
remove x (y ∷ ys) = if y == x then remove x ys else y ∷ remove x ys

-- `IsSessionidExisted`: the first room that has the session, with what is in it.
unfoldable pub find_room : ℕ → List (ℕ × Room) → Option (ℕ × Room)
find_room sessionid [] = none
find_room sessionid ((roomid, room) ∷ others) =
    let rest = find_room sessionid others in
    if ltb 0 (count sessionid room.sessionids) then some (roomid, room) else rest

unfoldable pub open_room : ℕ → Room → Rooms → Rooms
open_room roomid room r = record r {
  rooms = put roomid room r.rooms;
  notices = opened_room roomid ∷ r.notices;
}

unfoldable pub close_room : ℕ → Rooms → Rooms
close_room roomid r = record r {
  rooms = erase roomid r.rooms;
  notices = closed_room roomid ∷ r.notices;
}

-- One turn of the loop of `LeaveRoom`, in the room that was found.
unfoldable pub leave_found : ℕ → ℕ → Room → Rooms → Rooms
leave_found sessionid roomid room r =
    let cnt = count sessionid room.sessionids in
    if (is_broadcasting room.room_type && (room.broadcaster_sessionid == sessionid))
      || (length room.sessionids - cnt == 0)
    then record r { rooms = erase roomid r.rooms; notices = closed_room roomid ∷ r.notices }
    else record r {
      rooms = put roomid (record room { sessionids = remove sessionid room.sessionids }) r.rooms;
    }

-- The loop, with fuel: each turn takes the session out of a room, so their number is enough.
unfoldable pub leave_loop : ℕ → ℕ → Rooms → Rooms
unfolding leave_found
leave_loop zero sessionid r = r
leave_loop (suc fuel) sessionid r = elim (find_room sessionid r.rooms) [
  | none ↦ r
  | some (roomid, room) ↦ leave_loop fuel sessionid (leave_found sessionid roomid room r)
]

unfoldable pub leave_room : ℕ → Rooms → Rooms
unfolding leave_loop
leave_room sessionid r = leave_loop (suc (length r.rooms)) sessionid r

-- What the requests of the HTTP server answer.
pub data HttpStatus : Type 0 where
  ok parameter_incorrect body_parameter_json_invalid : HttpStatus
  room_not_existed room_already_existed sessionid_already_in_room : HttpStatus

-- A body: no JSON, without a parameter that is needed, or with them.
pub data Body (A : Type 0) : Type 0 where
  no_json incomplete : Body A
  complete : A → Body A

pub record OpenRequest : Type 0 where
  pub sessionid : ℕ
  pub roomid : ℕ
  pub room_type : RoomType
  pub force : Bool

pub record JoinRequest : Type 0 where
  pub sessionid : ℕ
  pub roomid : ℕ

abbrev pub is_there {ℓ} : {A : Type ℓ} → Option A → Bool
is_there none = false
is_there (some a) = true

unfoldable pub http_open_room : Body OpenRequest → Rooms → Rooms × HttpStatus
unfolding open_room find_room
http_open_room no_json r = (r, HttpStatus.body_parameter_json_invalid)
http_open_room incomplete r = (r, HttpStatus.parameter_incorrect)
http_open_room (complete q) r =
    let new_room : Room = record {
      room_type = q.room_type;
      sessionids = q.sessionid ∷ [];
      broadcaster_sessionid = if is_broadcasting q.room_type then q.sessionid else no_session;
    } in
    let room_exists = is_there (lookup q.roomid r.rooms) in
    if is_there (find_room q.sessionid r.rooms)
    then (r, HttpStatus.sessionid_already_in_room)
    else if room_exists && not q.force
    then (r, HttpStatus.room_already_existed)
    else if room_exists
    then (open_room q.roomid new_room (record r { rooms = erase q.roomid r.rooms }), HttpStatus.ok)
    else (open_room q.roomid new_room r, HttpStatus.ok)

unfoldable pub http_close_room : Body ℕ → Rooms → Rooms × HttpStatus
unfolding close_room
http_close_room no_json r = (r, HttpStatus.body_parameter_json_invalid)
http_close_room incomplete r = (r, HttpStatus.parameter_incorrect)
http_close_room (complete roomid) r =
    if not (is_there (lookup roomid r.rooms))
    then (r, HttpStatus.room_not_existed)
    else (close_room roomid r, HttpStatus.ok)

-- The part for a room that was looked up.
unfoldable pub join_found : JoinRequest → Option Room → Rooms → Rooms × HttpStatus
unfolding find_room
join_found q none r = (r, HttpStatus.room_not_existed)
join_found q (some room) r =
    if is_there (find_room q.sessionid r.rooms)
    then (r, HttpStatus.sessionid_already_in_room)
    else (
      record r {
        rooms =
            put q.roomid (record room { sessionids = room.sessionids ++ q.sessionid ∷ [] }) r.rooms;
      },
      HttpStatus.ok,
    )

unfoldable pub http_join_room : Body JoinRequest → Rooms → Rooms × HttpStatus
unfolding join_found
http_join_room no_json r = (r, HttpStatus.body_parameter_json_invalid)
http_join_room incomplete r = (r, HttpStatus.parameter_incorrect)
http_join_room (complete q) r = join_found q (lookup q.roomid r.rooms) r

unfoldable pub http_leave_room : Body ℕ → Rooms → Rooms × HttpStatus
unfolding leave_room
http_leave_room no_json r = (r, HttpStatus.body_parameter_json_invalid)
http_leave_room incomplete r = (r, HttpStatus.parameter_incorrect)
http_leave_room (complete sessionid) r = (leave_room sessionid r, HttpStatus.ok)
