-- ===== src/Dog/StopFirst.antt =====
-- dog_command_forwarder.cpp: what is written on a connection, and in which order.
use rtc_framework.Base.{
  ℕ, ◌≡◌, refl, Bool, true, false, not, ◌&&◌, ◌||◌, List, [], ◌∷◌, none, ◌==◌, arith, if_elim,
}
use rtc_framework.Dog.Types.{
  Frame, velocity_frame, boot_up_frame, subscription_frame, Stage, no_setup, stop_writing, Impl,
  standstill,
}
use rtc_framework.Dog.Connection.{
  notify_initial_connection, finish_shutdown, closed, drop_connection, handle_connection_failure,
  do_connect, start_write, queued, queue_frame_on_io, on_connected, on_handshake, on_stop_written,
  on_written, begin_shutdown,
}
use rtc_framework.Dog.Notices.{fail_pending_keeps}

-- The zero velocity.
abbrev pub is_still : Frame → Bool
is_still (velocity_frame v) = v.vx == 0 && (v.vy == 0 && v.wz == 0)
is_still _ = false

-- The oldest frame, if there is one, is the zero velocity.
unfoldable pub still_first : List Frame → Bool
still_first [] = true
still_first (f ∷ []) = is_still f
still_first (f ∷ g ∷ frames) = still_first (g ∷ frames)

abbrev pub has_frames : List Frame → Bool
has_frames [] = false
has_frames (f ∷ frames) = true

abbrev pub writes_stop : Stage → Bool
writes_stop (stop_writing generation) = true
writes_stop _ = false

abbrev pub in_setup : Stage → Bool
in_setup no_setup = false
in_setup _ = true

pub record IsStopFirst (s : Impl) : Type 0 where
  pub first : still_first s.wire ≡ true
  pub connected_wrote : s.connected ≡ true → has_frames s.wire ≡ true
  pub connected_open : s.connected ≡ true → s.socket_open ≡ true
  pub pending_wrote : has_frames s.pending_writes ≡ true → has_frames s.wire ≡ true
  pub stopping_wrote : writes_stop s.stage ≡ true → has_frames s.wire ≡ true
  pub reading_connected : s.reading ≡ true → s.connected ≡ true
  pub stage_open : in_setup s.stage ≡ true → s.socket_open ≡ true

still_first-cons :
    (f : Frame) (frames : List Frame)
    → still_first frames ≡ true
    → has_frames frames ≡ true
    → still_first (f ∷ frames) ≡ true
unfolding still_first
still_first-cons f [] h n = cc
still_first-cons f (g ∷ frames) h n = h

pub start_write-IsStopFirst : (s : Impl) → IsStopFirst s → IsStopFirst (start_write s)
unfolding start_write
start_write-IsStopFirst s v = grind (arith, still_first-cons)

pub queue_frame-IsStopFirst :
    (f : Frame) (replace discard high : Bool) (s : Impl)
    → has_frames s.wire ≡ true
    → IsStopFirst s
    → IsStopFirst (queue_frame_on_io f replace discard high s)
unfolding queue_frame_on_io
queue_frame-IsStopFirst f replace discard high s n v =
    if_elim IsStopFirst (not s.socket_open) _ _ (λ _. v)
      (λ _.
        start_write-IsStopFirst
          (record s { pending_writes = queued f replace discard high s.pending_writes })
          (ground arith))

pub finish_shutdown-IsStopFirst : (s : Impl) → IsStopFirst s → IsStopFirst (finish_shutdown s)
unfolding finish_shutdown
finish_shutdown-IsStopFirst s v =
    if_elim IsStopFirst s.shutdown_finished s _ (λ _. v)
      (λ _.
        fail_pending_keeps (λ t. IsStopFirst (record (closed t) { io_stopped = true })) _ _ _
          (λ c. ground arith))

initial-IsStopFirst :
    (s : Impl)
    → IsStopFirst s
    → IsStopFirst (record s { initial_finished = true; initial_connected = true })
initial-IsStopFirst s v = ground arith

drop_connection-IsStopFirst : (s : Impl) → IsStopFirst s → IsStopFirst (drop_connection s)
unfolding drop_connection
drop_connection-IsStopFirst s v =
    fail_pending_keeps (λ t. IsStopFirst (notify_initial_connection false (closed t))) _ _ _
      (λ c. ground arith)

pub failure-IsStopFirst :
    (generation : ℕ) (s : Impl)
    → IsStopFirst s
    → IsStopFirst (handle_connection_failure generation s)
unfolding handle_connection_failure
failure-IsStopFirst generation s v =
    let w = drop_connection-IsStopFirst s v in
    if_elim IsStopFirst (not (generation == s.connection_generation)) _ _ (λ _. v)
      (λ _.
        if_elim IsStopFirst (not s.running || s.stopping) _ _
          (λ _. finish_shutdown-IsStopFirst (drop_connection s) w) (λ _. w))

pub do_connect-IsStopFirst : (s : Impl) → IsStopFirst s → IsStopFirst (do_connect s)
unfolding do_connect still_first
do_connect-IsStopFirst s v = ground arith

pub on_connected-IsStopFirst :
    (generation : ℕ) (error : Bool) (s : Impl)
    → s.socket_open ≡ true
    → IsStopFirst s
    → IsStopFirst (on_connected generation error s)
unfolding on_connected
on_connected-IsStopFirst generation error s o v =
    if_elim IsStopFirst (not (generation == s.connection_generation)) _ _ (λ _. v)
      (λ _.
        if_elim IsStopFirst error _ _ (λ _. failure-IsStopFirst generation s v) (λ _. ground arith))

still_first-still :
    (frames : List Frame)
    → still_first frames ≡ true
    → still_first (velocity_frame standstill ∷ frames) ≡ true
unfolding still_first
still_first-still [] h = refl
still_first-still (f ∷ frames) h = h

-- The socket is open while the handshake is under way.
pub on_handshake-IsStopFirst :
    (generation : ℕ) (valid : Bool) (s : Impl)
    → s.socket_open ≡ true
    → IsStopFirst s
    → IsStopFirst (on_handshake generation valid s)
unfolding on_handshake
on_handshake-IsStopFirst generation valid s o v =
    if_elim IsStopFirst (not (generation == s.connection_generation)) _ _ (λ _. v)
      (λ _.
        if_elim IsStopFirst (not valid) _ _ (λ _. failure-IsStopFirst generation s v)
          (λ _. ground (arith, still_first-still s.wire)))

pub on_written-IsStopFirst :
    (generation : ℕ) (error : Bool) (s : Impl)
    → IsStopFirst s
    → IsStopFirst (on_written generation error s)
unfolding on_written
on_written-IsStopFirst generation error s v =
    let t : Impl = record s { active_write = none } in
    let w : IsStopFirst t = ground arith in
    if_elim IsStopFirst (not (generation == s.connection_generation)) _ _ (λ _. v)
      (λ _.
        if_elim IsStopFirst error _ _ (λ _. failure-IsStopFirst generation s v)
          (λ _. ground (arith, start_write-IsStopFirst t w, finish_shutdown-IsStopFirst t w)))

pub begin_shutdown-IsStopFirst : (s : Impl) → IsStopFirst s → IsStopFirst (begin_shutdown s)
unfolding begin_shutdown
begin_shutdown-IsStopFirst s v =
    let t : Impl = record s { stopping = true } in
    let w : IsStopFirst t = ground arith in
    if_elim IsStopFirst s.shutdown_finished _ _ (λ _. v)
      (λ _.
        if_elim IsStopFirst (not s.connected || not s.socket_open) _ _
          (λ _. finish_shutdown-IsStopFirst t w)
          (λ up.
            start_write-IsStopFirst (record t { pending_writes = velocity_frame standstill ∷ [] })
              (ground arith)))

start_write-has_frames :
    (s : Impl) → has_frames s.wire ≡ true → has_frames (start_write s).wire ≡ true
unfolding start_write
start_write-has_frames s h = ground arith

queue_frame-has_frames :
    (f : Frame) (s : Impl)
    → has_frames s.wire ≡ true
    → has_frames (queue_frame_on_io f false false false s).wire ≡ true
unfolding queue_frame_on_io
queue_frame-has_frames f s h =
    if_elim (λ (t : Impl). has_frames t.wire ≡ true) (not s.socket_open) _ _ (λ _. h)
      (λ _.
        start_write-has_frames
          (record s { pending_writes = queued f false false false s.pending_writes }) h)

pub on_stop_written-IsStopFirst :
    (generation : ℕ) (error : Bool) (s : Impl)
    → s.socket_open ≡ true
    → has_frames s.wire ≡ true
    → IsStopFirst s
    → IsStopFirst (on_stop_written generation error s)
unfolding on_stop_written
on_stop_written-IsStopFirst generation error s o n v =
    let t : Impl = record s { connected = true } in
    let w : IsStopFirst t = ground arith in
    let t1 : Impl = queue_frame_on_io subscription_frame false false false t in
    let w1 : IsStopFirst t1 = queue_frame-IsStopFirst subscription_frame false false false t n w in
    let n1 = queue_frame-has_frames subscription_frame t n in
    let t2 : Impl = queue_frame_on_io boot_up_frame false false false t1 in
    let w2 : IsStopFirst t2 = queue_frame-IsStopFirst boot_up_frame false false false t1 n1 w1 in
    if_elim IsStopFirst (not (generation == s.connection_generation)) _ _ (λ _. v)
      (λ _.
        if_elim IsStopFirst error _ _ (λ _. failure-IsStopFirst generation s v)
          (λ _.
            if_elim IsStopFirst t2.initial_finished _ _ (λ _. w2) (λ _. initial-IsStopFirst t2 w2)))
