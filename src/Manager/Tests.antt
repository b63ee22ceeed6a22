-- ===== src/Manager/Tests.antt =====
-- The theorems of the connection manager on two sessions that meet.
use rtc_framework.Base.{
  Bool, ℕ, suc, ◌+◌, ◌*◌, ◌/◌, ◌≤◌, ◌≡◌, refl, true, false, not, ◌&&◌, ◌||◌, List, [], ◌∷◌, Option,
  none, some, ◌==◌, ltb, arith, if◌then◌else◌,
}
use rtc_framework.Base.Assoc.{lookup}
use rtc_framework.Base.Sorted.{put}
use rtc_framework.VehicleModule.Queue.{RtcP2PState}
use rtc_framework.Runtime.Types.{RtcErrorCode, has}
use rtc_framework.Signaling.Rooms.{RoomType, Room}
use rtc_framework.Manager.Link
use rtc_framework.Manager.Link.{Message, Link, new_link, is_some, disconnected}
use rtc_framework.Manager.LinkLaws.{
  lost, told_once, attempts, always_watched, silent_server_retried,
}
use rtc_framework.Manager.Frames.{divisor_of, fit_frame_size}
use rtc_framework.Manager.FrameSizes.{Fits, Widest, fit_frame_size_best}
use rtc_framework.Manager.Peers.{
  Webrtc, Manager, new_manager, interact_remote_peer, p2p_state_changed,
}
use rtc_framework.Manager.Requests.{
  Event, happen, run_events, replied, ask_join_room, ask_leave_room,
}
use rtc_framework.Manager.Held.{count, held}
use rtc_framework.Manager.PeersLaws.{held_or_closed_once}
use rtc_framework.Manager.Replaced.{replaced_never_closed}
use rtc_framework.Manager.Senders.{
  PriorityType, Encoding, Limits, Sender, Outcomes, set_rtp_senders_priority, senders-Outcomes,
}
use rtc_framework.Manager.Joining.{listed, joined_conference}

abbrev login : Option Message
login = some (record {
  command = some "take_info";
  type = some "login_succeed";
  sessionid = some 4;
  roomid = none;
  from_sessionid = 0;
  sdp = "";
  ice = "";
})

abbrev offer : Option Message
offer = some (record {
  command = some "take_configuration";
  type = some "forward_offer";
  sessionid = none;
  roomid = none;
  from_sessionid = 9;
  sdp = "v=0";
  ice = "";
})

abbrev dialling : List Link.Event
dialling =
    Link.Event.fails ∷ Link.Event.reconnect_ends ∷ Link.Event.opens 1 ∷ Link.Event.says login ∷ []

always_watched_example :
    let l = Link.run_events dialling new_link in
    ((not (is_some l.ws_conn) || (l.ping_timer || l.pong_timer)) ≡ true)
    × ((not (lost l.posted) || l.reconnect_timer) ≡ true)
    × (told_once l.posted ≡ true)
always_watched_example = always_watched dialling

dialled : is_some (Link.run_events dialling new_link).ws_conn ≡ true
unfolding Link.run_events Link.happen
dialled = refl

silent_server_retried_example :
    let l = Link.run_events dialling new_link in
    let t = Link.happen Link.Event.pong_ends (Link.happen Link.Event.ping_ends l) in
    (t.posted ≡ disconnected ∷ l.posted)
    × (t.ws_conn ≡ none)
    × ((attempts 3 t).starts ≡ 3 + suc l.starts)
    × ((attempts 3 t).reconnect_timer ≡ true)
silent_server_retried_example = silent_server_retried dialling 3 dialled

-- 1920 x 1080 is 120 times 16 x 9; 1280 x 960 leaves room for 80 times.
fit_frame_size_best_example :
    let size = fit_frame_size 1920 1080 1280 960 in
    Fits 1920 1080 1280 960 size
    × Widest (1920 / divisor_of 1920 1080) (1080 / divisor_of 1920 1080) 1920 1280 960 size
    × ((k x y : ℕ)
        → ◌≡◌ {A = ℕ} 1920 (x * k)
        → ◌≡◌ {A = ℕ} 1080 (y * k)
        → (z : ℕ) × (divisor_of 1920 1080 ≡ z * k))
unfolding divisor_of
fit_frame_size_best_example =
    fit_frame_size_best 1920 1080 1280 960 (omega arith) (omega arith) (omega arith) (omega arith)

fits_720 : fit_frame_size 1920 1080 1280 960 ≡ (1280, 720)
unfolding fit_frame_size
fits_720 = refl

abbrev engine : Webrtc
engine = record {
  creates = λ n. true;
  parses_offer = λ text. true;
  parses_answer = λ text. true;
  parses_candidate = λ text. true;
}

abbrev meeting : List Event
meeting =
    Event.on_link (Link.Event.opens 1)
    ∷ Event.on_link (Link.Event.says login)
    ∷ Event.on_link (Link.Event.says offer)
    ∷ Event.next_task
    ∷ Event.next_task
    ∷ Event.next_task
    ∷ []

held_or_closed_once_example :
    let m = run_events engine meeting new_manager in
    held 0 m.remotesessionid_rtcconn_map + count 0 m.closed ≤ (if ltb 0 m.next_peer then 1 else 0)
held_or_closed_once_example = held_or_closed_once engine meeting 0

met :
    let m = run_events engine meeting new_manager in
    (is_some m.link.current_sessionid ≡ true)
    × (lookup 9 m.remotesessionid_rtcconn_map ≡ some 0)
    × (m.next_peer ≡ 1)
unfolding run_events happen lookup put
met = (refl, refl, refl)

replaced_never_closed_example :
    let m = run_events engine meeting new_manager in
    let n = interact_remote_peer engine 9 false "v=0" m in
    let t = p2p_state_changed 0 RtcP2PState.p2p_failed n in
    (held 0 (run_events engine meeting n).remotesessionid_rtcconn_map ≡ 0)
    × (count 0 (run_events engine meeting n).closed ≡ 0)
    × (lookup 9 t.remotesessionid_rtcconn_map ≡ none)
    × (t.closed ≡ m.next_peer ∷ m.closed)
replaced_never_closed_example =
    replaced_never_closed engine meeting meeting 9 0 false "v=0" met.0 refl refl met.1

abbrev senders : List Sender
senders =
    record {
      id = 1;
      priority = PriorityType.very_low;
      encoding = some (record {
        bitrate_priority = 2;
        network_priority = PriorityType.low;
        min_bitrate_bps = none;
        max_bitrate_bps = none;
      });
    }
    ∷ record { id = 2; priority = PriorityType.high; encoding = none }
    ∷ []

abbrev limits : Limits
limits = record { bitrate_minmum = 500000; bitrate_maxmum = 4000000 }

-- The first sender takes its parameters.
abbrev first_takes : ℕ → Encoding → Bool
first_takes id e = id == 1

senders-Outcomes_example :
    let once = set_rtp_senders_priority first_takes limits senders in
    Outcomes first_takes senders once × (set_rtp_senders_priority first_takes limits once ≡ once)
senders-Outcomes_example = senders-Outcomes first_takes limits senders ((refl, refl), (tt, tt))

abbrev conference : Room
conference = record {
  room_type = RoomType.video_conference;
  sessionids = 4 ∷ 9 ∷ [];
  broadcaster_sessionid = 4294967295;
}

abbrev logged_in : Manager
logged_in = record new_manager { link = record new_link { current_sessionid = some 4 } }

joined_conference_example :
    let (t, code) = ask_join_room engine "lab" (replied 0 conference) logged_in in
    (code ≡ RtcErrorCode.ok)
    × (listed 9 t ≡ ((not (◌==◌ 4 9) && has 9 (4 ∷ 9 ∷ [])) || listed 9 logged_in))
    × (listed 9 (ask_leave_room (replied 0 (tt {0})) t).0 ≡ false)
joined_conference_example =
    joined_conference engine 4 "lab" conference logged_in 9 (λ n. refl) refl (omega arith) refl
