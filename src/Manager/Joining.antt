-- ===== src/Manager/Joining.antt =====
-- rtc_connection_manager.cpp: what a session has connections to after it has joined a room, and left it.
use rtc_framework.Base.{
  ℕ, ◌≡◌, ◌≢◌, refl, Bool, true, false, not, ◌&&◌, ◌||◌, String, List, [], ◌∷◌, Option, none, some,
  ◌==◌, arith, if◌then◌else◌,
}
use rtc_framework.Base.Assoc.{lookup}
use rtc_framework.Base.Sorted.{lookup-put}
use rtc_framework.Runtime.Types.{RtcErrorCode, has}
use rtc_framework.Signaling.Rooms.{RoomType, Room, no_session}
use rtc_framework.Manager.Link.{is_some}
use rtc_framework.Manager.Peers.{
  Webrtc, Manager, join_room, leave_room, interact_remote_peer, destroy_all_peer_connection,
}
use rtc_framework.Manager.Requests.{
  asking, replied, copy_sessionid, with_login, interact_all, enter_room, ask_join_room,
  ask_leave_room, convert_http_code,
}

abbrev pub listed : ℕ → Manager → Bool
listed x m = is_some (lookup x m.remotesessionid_rtcconn_map)

-- All peer connections can be created.
abbrev pub CanConnect : Webrtc → Type 0
CanConnect w = (n : ℕ) → w.creates n ≡ true

interact-listed :
    (w : Webrtc) (x y : ℕ) (m : Manager)
    → CanConnect w
    → is_some m.link.current_sessionid ≡ true
    → (listed x (interact_remote_peer w y true "" m) ≡ ((y == x) || listed x m))
      × ((interact_remote_peer w y true "" m).link ≡ m.link)
unfolding interact_remote_peer
interact-listed w x y m can h =
    ground (arith, can m.next_peer, lookup-put y x m.next_peer m.remotesessionid_rtcconn_map)

all-listed :
    (w : Webrtc) (me x : ℕ) (sessions : List ℕ) (m : Manager)
    → CanConnect w
    → is_some m.link.current_sessionid ≡ true
    → listed x (interact_all w me sessions m) ≡ (((not (me == x)) && has x sessions) || listed x m)
unfolding interact_all
all-listed w me x [] m can h = ground arith
all-listed w me x (y ∷ ys) m can h = ground (
  arith,
  interact-listed w x y m can h,
  all-listed w me x ys (interact_remote_peer w y true "" m) can,
  all-listed w me x ys m can h,
)

all-link :
    (w : Webrtc) (me : ℕ) (sessions : List ℕ) (m : Manager)
    → (interact_all w me sessions m).link ≡ m.link
unfolding interact_all interact_remote_peer
all-link w me [] m = refl
all-link w me (y ∷ ys) m =
    ground (arith, all-link w me ys (interact_remote_peer w y true "" m), all-link w me ys m)

copied :
    (o : Option ℕ) (me : ℕ)
    → o ≡ some me
    → me ≢ no_session
    → elim o [ none ↦ none | some id ↦ if id == no_session then none else some id ] ≡ some me
copied o me h ne = ground arith

conference_joined :
    (w : Webrtc) (o : Option ℕ) (me : ℕ) (roomid : String) (room : Room) (m : Manager)
    → o ≡ some me
    → room.room_type ≡ RoomType.video_conference
    → with_login o
        (join_room roomid)
        (replied 0 room)
        (λ me status room t. if status == 0 then enter_room w me room.room_type room t else t)
        m
      ≡ (interact_all w me room.sessionids (asking (join_room roomid) m), RtcErrorCode.ok)
unfolding with_login enter_room convert_http_code
conference_joined w o me roomid room m h type = rw h (ground (arith, type))

left :
    (o : Option ℕ) (me x : ℕ) (m : Manager)
    → o ≡ some me
    → listed x
        (with_login o leave_room
          (replied 0 (tt {0}))
          (λ me status a t. if status == 0 then destroy_all_peer_connection t else t)
          m).0
      ≡ false
unfolding with_login destroy_all_peer_connection lookup
left o me x m h = rw h refl

-- A session that is logged in joins a conference, and peer connections can be created: the call answers
-- OK, and the sessions with a connection are the others of the room and those that had one. When
-- it then leaves with success, none has one.
pub joined_conference :
    (w : Webrtc) (me : ℕ) (roomid : String) (room : Room) (m : Manager) (x : ℕ)
    → CanConnect w
    → m.link.current_sessionid ≡ some me
    → me ≢ no_session
    → room.room_type ≡ RoomType.video_conference
    → let (t, code) = ask_join_room w roomid (replied 0 room) m in
      (code ≡ RtcErrorCode.ok)
      × (listed x t ≡ ((not (me == x) && has x room.sessionids) || listed x m))
      × (listed x (ask_leave_room (replied 0 tt) t).0 ≡ false)
unfolding ask_join_room ask_leave_room
joined_conference w me roomid room m x can h ne type =
    let t : Manager = interact_all w me room.sessionids (asking (join_room roomid) m) in
    let mine = copied m.link.current_sessionid me h ne in
    let again =
      copied t.link.current_sessionid me
        (ground (arith, all-link w me room.sessionids (asking (join_room roomid) m))) ne in
    rw (conference_joined w (copy_sessionid m) me roomid room m mine type) (
      refl,
      all-listed w me x room.sessionids (asking (join_room roomid) m) can (ground arith),
      left (copy_sessionid t) me x t again,
    )
