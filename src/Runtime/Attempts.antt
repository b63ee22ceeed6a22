-- ===== src/Runtime/Attempts.antt =====
-- rtc_session.cpp: how often a session tries to enter its room.
use text.Mathlib.Text.{◌==◌ as str_eq}
use rtc_framework.Base.{
  ℕ, suc, ◌+◌, ◌*◌, ◌<◌, ◌≡◌, ◌≢◌, refl, Bool, true, false, not, ◌&&◌, List, [], ◌∷◌, ltb, arith,
}
use rtc_framework.Runtime.Types.{
  RtcSession, room_new, room_delete, Answers, entries, join, open_it, SessionOptions,
}
use rtc_framework.Runtime.Init.{init}
use rtc_framework.Runtime.Session.{
  shutdown, maybe_enter_room, tick, on_room, on_p2p_state, on_server_connection_state, Event, inits,
  ticks, room, happen, run_events, send_i420_frame, send_audio, note_captured_frame,
  on_datachannel_state, on_recv_message, on_recv_audio_frame, on_recv_frame,
}
use rtc_framework.Runtime.Kept.{init_keeps}

-- An event that is no reason to try again: a tick before the time, or any event but the news of the
-- session's own room.
abbrev pub is_quiet : ℕ → SessionOptions → Event → Bool
is_quiet time options (ticks answer now) = ltb now time
is_quiet time options (room room_new id) = not (str_eq id options.room_id)
is_quiet time options _ = true

abbrev pub all_quiet : ℕ → SessionOptions → List Event → Bool
all_quiet time options [] = true
all_quiet time options (e ∷ es) = is_quiet time options e && all_quiet time options es

-- An attempt was made at `time`, after so many, and no other is asked for.
record Waits (options : SessionOptions) (time count : ℕ) (s : RtcSession) : Type 0 where
  same_options : s.options ≡ options
  last : s.last_join_attempt ≡ time
  some_time : 0 < time
  unasked : s.room_retry_requested ≡ false
  counted : entries s.calls ≡ count

abbrev later : SessionOptions → ℕ → ℕ
later options time = time + options.join_retry_ms * 1000000

tick-Waits :
    (options : SessionOptions) (time count : ℕ) (answer : Answers) (now : ℕ) (s : RtcSession)
    → Waits options time count s
    → ltb now (later options time) ≡ true
    → Waits options time count (tick answer now s)
unfolding tick maybe_enter_room
tick-Waits options time count answer now s w h = ground arith

init-Waits :
    (options : SessionOptions) (time count : ℕ) (answer : Answers) (now : ℕ) (s : RtcSession)
    → Waits options time count s
    → Waits options time count (init answer now s).1
init-Waits options time count answer now s w = ground (arith, init_keeps answer now s)

happen-Waits :
    (options : SessionOptions) (time count : ℕ) (e : Event) (s : RtcSession)
    → Waits options time count s
    → is_quiet (later options time) options e ≡ true
    → Waits options time count (happen e s)
unfolding happen shutdown note_captured_frame send_i420_frame send_audio on_room on_p2p_state
    on_server_connection_state on_datachannel_state on_recv_message on_recv_audio_frame
    on_recv_frame
happen-Waits o t n (inits answer now) s w h = init-Waits o t n answer now s w
happen-Waits o t n (ticks answer now) s w h = tick-Waits o t n answer now s w h
happen-Waits o t n (room room_new id) s w h = ground arith
happen-Waits o t n (room room_delete id) s w h = ground arith
happen-Waits o t n e s w h = ground arith

run-Waits :
    (options : SessionOptions) (time count : ℕ) (es : List Event) (s : RtcSession)
    → Waits options time count s
    → all_quiet (later options time) options es ≡ true
    → Waits options time count (run_events es s)
unfolding run_events
run-Waits o t n [] s w h = w
run-Waits o t n (e ∷ es) s w h =
    run-Waits o t n es (happen e s) (happen-Waits o t n e s w (ground arith)) (ground arith)

attempt-Waits :
    (answer : Answers) (now : ℕ) (s : RtcSession)
    → 0 < now
    → entries (tick answer now s).calls ≢ entries s.calls
    → Waits s.options now (suc (entries s.calls)) (tick answer now s)
unfolding tick maybe_enter_room
attempt-Waits answer now s h d =
    elim s.features.room_action
        as (λ a.
          s.features.room_action ≡ a
          → Waits s.options now (suc (entries s.calls)) (tick answer now s)) [
            | join ↦ λ e. ground arith
            | open_it ↦ λ e. ground arith
          ]
      refl

-- When a tick tries to enter the room, it tries once, and no further attempt is made for the interval
-- of the options, whatever happens, but for news that the session's own room has been opened.
pub attempts_spaced :
    (answer : Answers) (now : ℕ) (s : RtcSession) (es : List Event)
    → 0 < now
    → entries (tick answer now s).calls ≢ entries s.calls
    → all_quiet (now + s.options.join_retry_ms * 1000000) s.options es ≡ true
    → entries (run_events es (tick answer now s)).calls ≡ suc (entries s.calls)
attempts_spaced answer now s es h d q =
    (run-Waits s.options now (suc (entries s.calls)) es (tick answer now s)
      (attempt-Waits answer now s h d) q).counted
