-- ===== src/Signaling/Leaving.antt =====
-- ws_controller.cpp: a session that leaves its room.
use rtc_framework.Base.{
  ℕ, zero, suc, ◌-◌, ◌≤◌, ◌≡◌, refl, true, ◌&&◌, ◌||◌, List, [], ◌∷◌, none, some, Option-cases, inl,
  inr, length, ◌==◌, arith, if_elim,
}
use rtc_framework.Base.Assoc.{erase}
use rtc_framework.Signaling.Rooms.{
  Room, Rooms, is_broadcasting, count, remove, find_room, leave_found, leave_loop, leave_room,
}
use rtc_framework.Base.Sorted.{IsAscending, put-IsAscending, erase-IsAscending}
use rtc_framework.Signaling.Seats.{
  seats, all_kept, count-remove, length-remove, seats-erase, seats-put, all_kept-put,
  all_kept-erase, kept-lookup, found_there, not_found,
}

-- Of one session: it has at most one seat, and every room is kept by somebody.
pub record IsValid (x : ℕ) (r : Rooms) : Type 0 where
  pub ascending : IsAscending r.rooms
  pub one_seat : seats x r.rooms ≤ 1
  pub kept : all_kept r.rooms ≡ true

pub erase-IsValid : (x k : ℕ) (r s : Rooms) → s.rooms ≡ erase k r.rooms → IsValid x r → IsValid x s
erase-IsValid x k r s e v =
    ground (arith, erase-IsAscending k r.rooms, seats-erase x k r.rooms, all_kept-erase k r.rooms)

found-IsValid :
    (x y k : ℕ) (room : Room) (r : Rooms)
    → find_room y r.rooms ≡ some (k, room)
    → IsValid x r
    → IsValid x (leave_found y k room r)
unfolding leave_found
found-IsValid x y k room r e v =
    let there = found_there y k room r.rooms v.ascending e in
    let fewer : Room = record room { sessionids = remove y room.sessionids } in
    let kept = kept-lookup k room r.rooms v.kept there.0 in
    if_elim (IsValid x)
      ((is_broadcasting room.room_type && (room.broadcaster_sessionid == y))
        || (length room.sessionids - count y room.sessionids == 0))
      _ _ (λ c. erase-IsValid x k r _ refl v)
      (λ c. ground (
        arith,
        put-IsAscending k fewer r.rooms v.ascending,
        seats-put x k fewer r.rooms v.ascending,
        all_kept-put k fewer r.rooms,
        count-remove x y room.sessionids,
        count-remove room.broadcaster_sessionid y room.sessionids,
        length-remove y room.sessionids,
      ))

pub loop-IsValid : (x y fuel : ℕ) (r : Rooms) → IsValid x r → IsValid x (leave_loop fuel y r)
unfolding leave_loop
loop-IsValid x y zero r v = v
loop-IsValid x y (suc fuel) r v = elim (Option-cases (find_room y r.rooms)) [
  | inl e ↦ rw (e, leave_loop) v
  | inr ((k, room), e) ↦
      rw (e, leave_loop)
        (loop-IsValid x y fuel (leave_found y k room r) (found-IsValid x y k room r e v))
]

pub seats_found : (x : ℕ) (m : List (ℕ × Room)) → seats x m ≡ 0 → find_room x m ≡ none
unfolding find_room
seats_found x [] h = refl
seats_found x ((k, room) ∷ m) h = ground (arith, seats_found x m)

loop_done : (y fuel : ℕ) (r : Rooms) → seats y r.rooms ≡ 0 → leave_loop fuel y r ≡ r
unfolding leave_loop
loop_done y zero r h = refl
loop_done y (suc fuel) r h = let e = seats_found y r.rooms h in rw (e, leave_loop) refl

found_left :
    (y k : ℕ) (room : Room) (r : Rooms)
    → find_room y r.rooms ≡ some (k, room)
    → IsValid y r
    → seats y (leave_found y k room r).rooms ≡ 0
unfolding leave_found
found_left y k room r e v =
    let there = found_there y k room r.rooms v.ascending e in
    let fewer : Room = record room { sessionids = remove y room.sessionids } in
    ground (
      arith,
      there,
      seats-erase y k r.rooms v.ascending,
      seats-put y k fewer r.rooms v.ascending,
      count-remove y y room.sessionids,
    )

loop_left : (y fuel : ℕ) (r : Rooms) → IsValid y r → seats y (leave_loop (suc fuel) y r).rooms ≡ 0
unfolding leave_loop
loop_left y fuel r v = elim (Option-cases (find_room y r.rooms)) [
  | inl e ↦ rw (e, leave_loop) (not_found y r.rooms e)
  | inr ((k, room), e) ↦
      let left = found_left y k room r e v in
      rw (e, leave_loop, loop_done y fuel (leave_found y k room r) left) left
]

pub leave-IsValid : (x y : ℕ) (r : Rooms) → IsValid x r → IsValid x (leave_room y r)
unfolding leave_room
leave-IsValid x y r v = loop-IsValid x y (suc (length r.rooms)) r v

pub leave_none : (y : ℕ) (r : Rooms) → IsValid y r → seats y (leave_room y r).rooms ≡ 0
unfolding leave_room
leave_none y r v = loop_left y (length r.rooms) r v

found_fewer :
    (y x k : ℕ) (room : Room) (r : Rooms)
    → find_room x r.rooms ≡ some (k, room)
    → IsValid y r
    → seats y (leave_found x k room r).rooms ≤ seats y r.rooms
unfolding leave_found
found_fewer y x k room r e v =
    let there = found_there x k room r.rooms v.ascending e in
    let fewer : Room = record room { sessionids = remove x room.sessionids } in
    ground (
      arith,
      there,
      seats-erase y k r.rooms v.ascending,
      seats-put y k fewer r.rooms v.ascending,
      count-remove y x room.sessionids,
    )

loop_fewer :
    (y x fuel : ℕ) (r : Rooms) → IsValid y r → seats y (leave_loop fuel x r).rooms ≤ seats y r.rooms
unfolding leave_loop
loop_fewer y x zero r v = omega arith
loop_fewer y x (suc fuel) r v = elim (Option-cases (find_room x r.rooms)) [
  | inl e ↦ rw (e, leave_loop) (omega arith)
  | inr ((k, room), e) ↦
      let less = found_fewer y x k room r e v in
      let rest = loop_fewer y x fuel (leave_found x k room r) (found-IsValid y x k room r e v) in
      rw (e, leave_loop) (omega (arith, less, rest))
]

pub leave_fewer :
    (y x : ℕ) (r : Rooms) → IsValid y r → seats y (leave_room x r).rooms ≤ seats y r.rooms
unfolding leave_room
leave_fewer y x r v = loop_fewer y x (suc (length r.rooms)) r v
