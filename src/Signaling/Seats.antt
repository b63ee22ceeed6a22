-- ===== src/Signaling/Seats.antt =====
-- ws_controller.cpp: in how many places of the rooms a session is.
use rtc_framework.Base.{
  ℕ, ◌+◌, ◌<◌, ◌≡◌, refl, Bool, true, not, ◌&&◌, ◌||◌, List, [], ◌∷◌, ◌++◌, Option, none, some,
  length, ltb, ◌==◌, arith, if◌then◌else◌,
}
use rtc_framework.Base.Assoc.{lookup, erase}
use rtc_framework.Base.Sorted.{put, IsAscending, ascending, absent_below}
use rtc_framework.Signaling.Rooms.{Room, is_broadcasting, count, remove, find_room}

abbrev pub seats : ℕ → List (ℕ × Room) → ℕ
seats x [] = 0
seats x ((roomid, room) ∷ others) = count x room.sessionids + seats x others

abbrev pub seats_in : ℕ → Option Room → ℕ
seats_in x none = 0
seats_in x (some room) = count x room.sessionids

-- Somebody is in the room, and so is the broadcaster of a broadcast.
abbrev pub is_kept : Room → Bool
is_kept room =
    not (length room.sessionids == 0)
    && (not (is_broadcasting room.room_type)
        || ltb 0 (count room.broadcaster_sessionid room.sessionids))

abbrev pub all_kept : List (ℕ × Room) → Bool
all_kept [] = true
all_kept ((roomid, room) ∷ others) = is_kept room && all_kept others

pub count-append :
    (x y : ℕ) (ys : List ℕ) → count x (ys ++ y ∷ []) ≡ count x ys + (if y == x then 1 else 0)
count-append x y [] = omega arith
count-append x y (z ∷ ys) = omega (arith, count-append x y ys)

pub count-remove :
    (x y : ℕ) (ys : List ℕ) → count x (remove y ys) ≡ (if y == x then 0 else count x ys)
count-remove x y [] = ground arith
count-remove x y (z ∷ ys) = ground (arith, count-remove x y ys)

pub length-remove : (y : ℕ) (ys : List ℕ) → length (remove y ys) + count y ys ≡ length ys
length-remove y [] = omega arith
length-remove y (z ∷ ys) = ground (arith, length-remove y ys)

seats-erase_absent :
    (x k : ℕ) (m : List (ℕ × Room)) → lookup k m ≡ none → seats x (erase k m) ≡ seats x m
unfolding lookup erase
seats-erase_absent x k [] h = refl
seats-erase_absent x k ((i, w) ∷ m) h = ground (arith, seats-erase_absent x k m)

pub seats-erase :
    (x k : ℕ) (m : List (ℕ × Room))
    → IsAscending m
    → seats x (erase k m) + seats_in x (lookup k m) ≡ seats x m
unfolding lookup erase
seats-erase x k [] h = omega arith
seats-erase x k ((i, w) ∷ m) h =
    ground
      (arith, seats-erase x k m (ascending i m h), seats-erase_absent x k m, absent_below i k m h)

pub seats-put :
    (x k : ℕ) (v : Room) (m : List (ℕ × Room))
    → IsAscending m
    → seats x (put k v m) + seats_in x (lookup k m) ≡ seats x m + count x v.sessionids
unfolding lookup put
seats-put x k v [] h = omega arith
seats-put x k v ((i, w) ∷ m) h =
    ground (arith, seats-put x k v m (ascending i m h), absent_below i k m h)

pub all_kept-put :
    (k : ℕ) (v : Room) (m : List (ℕ × Room))
    → is_kept v ≡ true
    → all_kept m ≡ true
    → all_kept (put k v m) ≡ true
unfolding put
all_kept-put k v [] g h = ground arith
all_kept-put k v ((i, w) ∷ m) g h = ground (arith, all_kept-put k v m g)

pub all_kept-erase : (k : ℕ) (m : List (ℕ × Room)) → all_kept m ≡ true → all_kept (erase k m) ≡ true
unfolding erase
all_kept-erase k [] h = refl
all_kept-erase k ((i, w) ∷ m) h = ground (arith, all_kept-erase k m)

pub kept-lookup :
    (k : ℕ) (v : Room) (m : List (ℕ × Room))
    → all_kept m ≡ true
    → lookup k m ≡ some v
    → is_kept v ≡ true
unfolding lookup
kept-lookup k v [] h e = ground arith
kept-lookup k v ((i, w) ∷ m) h e = ground (arith, kept-lookup k v m)

-- What is found has the session, and is at its id.
pub found_there :
    (x k : ℕ) (v : Room) (m : List (ℕ × Room))
    → IsAscending m
    → find_room x m ≡ some (k, v)
    → (lookup k m ≡ some v) × (0 < count x v.sessionids)
unfolding find_room lookup
found_there x k v [] h e = ground arith
found_there x k v ((i, w) ∷ m) h e =
    ground (arith, found_there x k v m (ascending i m h), absent_below i k m h)

pub not_found : (x : ℕ) (m : List (ℕ × Room)) → find_room x m ≡ none → seats x m ≡ 0
unfolding find_room
not_found x [] e = refl
not_found x ((i, w) ∷ m) e = ground (arith, not_found x m)
