-- ===== src/Signaling/RoomsLaws.antt =====
-- ws_controller.cpp and http_controller.cpp: the rooms, over any sequence of requests.
use rtc_framework.Base.{
  ℕ, suc, ◌+◌, ◌≤◌, ◌≡◌, refl, true, not, ◌&&◌, List, [], ◌∷◌, ◌++◌, Option, none, some,
  Option-cases, inl, inr, length, length-append, ◌==◌, arith, if_elim, if◌then◌else◌,
}
use rtc_framework.Base.Assoc.{lookup, erase}
use rtc_framework.Base.Sorted.{put, put-IsAscending}
use rtc_framework.Signaling.Rooms.{
  Room, Rooms, no_rooms, no_session, is_broadcasting, count, find_room, open_room, close_room,
  leave_room, HttpStatus, Body, no_json, incomplete, complete, OpenRequest, JoinRequest, is_there,
  http_open_room, http_close_room, join_found, http_join_room, http_leave_room,
}
use rtc_framework.Signaling.Seats.{
  seats, seats_in, is_kept, all_kept, count-append, seats-erase, seats-put, all_kept-put,
  kept-lookup, not_found,
}
use rtc_framework.Signaling.Leaving.{IsValid, erase-IsValid, seats_found, loop-IsValid}

-- What is asked of the rooms; the server itself makes a session leave when its connection closes.
pub data Request : Type 0 where
  opens : Body OpenRequest → Request
  joins : Body JoinRequest → Request
  closes leaves : Body ℕ → Request

unfoldable pub do_request : Request → Rooms → Rooms
unfolding http_open_room http_join_room http_close_room http_leave_room
do_request (opens b) r = (http_open_room b r).0
do_request (joins b) r = (http_join_room b r).0
do_request (closes b) r = (http_close_room b r).0
do_request (leaves b) r = (http_leave_room b r).0

unfoldable pub do_requests : List Request → Rooms → Rooms
do_requests [] r = r
do_requests (q ∷ qs) r = do_requests qs (do_request q r)

same_rooms : (x : ℕ) (r s : Rooms) → s.rooms ≡ r.rooms → IsValid x r → IsValid x s
same_rooms x r s e v = record {
  ascending = rw e v.ascending;
  one_seat = rw e v.one_seat;
  kept = rw e v.kept;
}

abbrev AnswerIsValid : ℕ → Rooms × HttpStatus → Type 0
AnswerIsValid x p = IsValid x p.0

-- A session without a seat gets one where the room is put.
put-IsValid :
    (x y k : ℕ) (room : Room) (r : Rooms)
    → ((z : ℕ) → IsValid z r)
    → find_room y r.rooms ≡ none
    → is_kept room ≡ true
    → count x room.sessionids ≤ seats_in x (lookup k r.rooms) + (if y == x then 1 else 0)
    → IsValid x (record r { rooms = put k room r.rooms })
put-IsValid x y k room r v e kept added = ground (
  arith,
  v x,
  not_found y r.rooms e,
  put-IsAscending k room r.rooms (v x).ascending,
  seats-put x k room r.rooms (v x).ascending,
  all_kept-put k room r.rooms kept (v x).kept,
)

open-IsValid :
    (x : ℕ) (b : Body OpenRequest) (r : Rooms)
    → ((z : ℕ) → IsValid z r)
    → IsValid x (http_open_room b r).0
unfolding http_open_room open_room
open-IsValid x no_json r v = v x
open-IsValid x incomplete r v = v x
open-IsValid x (complete q) r v =
    let room : Room = record {
      room_type = q.room_type;
      sessionids = q.sessionid ∷ [];
      broadcaster_sessionid = if is_broadcasting q.room_type then q.sessionid else no_session;
    } in
    let cleared : Rooms = record r { rooms = erase q.roomid r.rooms } in
    elim (Option-cases (find_room q.sessionid r.rooms)) [
      | inl e ↦
          let gone = seats_found q.sessionid cleared.rooms (
            omega (
              arith,
              seats-erase q.sessionid q.roomid r.rooms (v x).ascending,
              not_found q.sessionid r.rooms e,
            )) in
          let w = put-IsValid x q.sessionid q.roomid room r v e (ground arith) (ground arith) in
          let u =
            put-IsValid x q.sessionid q.roomid room cleared
              (λ z. erase-IsValid z q.roomid r cleared refl (v z)) gone (ground arith)
              (ground arith) in
          rw (e, http_open_room)
            (if_elim (AnswerIsValid x) (is_there (lookup q.roomid r.rooms) && not q.force) _ _
              (λ _. v x)
              (λ _.
                if_elim (AnswerIsValid x) (is_there (lookup q.roomid r.rooms)) _ _
                  (λ _. same_rooms x _ _ refl u) (λ _. same_rooms x _ _ refl w)))
      | inr (found, e) ↦ rw (e, http_open_room) (v x)
    ]

join_found-IsValid :
    (x : ℕ) (q : JoinRequest) (o : Option Room) (r : Rooms)
    → lookup q.roomid r.rooms ≡ o
    → ((z : ℕ) → IsValid z r)
    → IsValid x (join_found q o r).0
unfolding join_found
join_found-IsValid x q none r e v = v x
join_found-IsValid x q (some room) r e v =
    let fuller : Room = record room { sessionids = room.sessionids ++ q.sessionid ∷ [] } in
    let kept = kept-lookup q.roomid room r.rooms (v x).kept e in
    elim (Option-cases (find_room q.sessionid r.rooms)) [
      | inl f ↦
          let w =
            put-IsValid x q.sessionid q.roomid fuller r v f
              (ground (
                arith,
                length-append room.sessionids (q.sessionid ∷ []),
                count-append room.broadcaster_sessionid q.sessionid room.sessionids,
              ))
              (rw e (omega (arith, count-append x q.sessionid room.sessionids))) in
          rw (f, join_found)
            (record { ascending = w.ascending; one_seat = w.one_seat; kept = w.kept })
      | inr (found, f) ↦ rw (f, join_found) (v x)
    ]

pub request-IsValid :
    (q : Request) (r : Rooms) → ((x : ℕ) → IsValid x r) → (x : ℕ) → IsValid x (do_request q r)
unfolding do_request http_join_room http_close_room close_room http_leave_room leave_room
request-IsValid (opens b) r v x = open-IsValid x b r v
request-IsValid (joins no_json) r v x = v x
request-IsValid (joins incomplete) r v x = v x
request-IsValid (joins (complete q)) r v x =
    join_found-IsValid x q (lookup q.roomid r.rooms) r refl v
request-IsValid (closes no_json) r v x = v x
request-IsValid (closes incomplete) r v x = v x
request-IsValid (closes (complete k)) r v x =
    if_elim (AnswerIsValid x) (not (is_there (lookup k r.rooms))) _ _ (λ _. v x)
      (λ _. erase-IsValid x k r _ refl (v x))
request-IsValid (leaves no_json) r v x = v x
request-IsValid (leaves incomplete) r v x = v x
request-IsValid (leaves (complete y)) r v x = loop-IsValid x y (suc (length r.rooms)) r (v x)

requests-IsValid :
    (qs : List Request) (r : Rooms)
    → ((x : ℕ) → IsValid x r)
    → (x : ℕ) → IsValid x (do_requests qs r)
unfolding do_requests
requests-IsValid [] r v x = v x
requests-IsValid (q ∷ qs) r v x = requests-IsValid qs (do_request q r) (request-IsValid q r v) x

pub none-IsValid : (x : ℕ) → IsValid x no_rooms
none-IsValid x = ground arith

-- After any requests a session has at most one seat in all rooms together, no room is empty, and in
-- every broadcast its broadcaster has a seat.
pub seated_once :
    (qs : List Request) (x : ℕ)
    → let r = do_requests qs no_rooms in (seats x r.rooms ≤ 1) × (all_kept r.rooms ≡ true)
seated_once qs x = let v = requests-IsValid qs no_rooms none-IsValid x in (v.one_seat, v.kept)
