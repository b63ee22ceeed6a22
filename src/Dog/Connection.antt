-- ===== src/Dog/Connection.antt =====
-- dog_command_forwarder.cpp: what the io thread does. An operation that was started with a generation
-- is a function of it, of how the operation ended and of the members. A timer may fire whenever the
-- code's own tests let it; the reasons of failures are only logged.
use rtc_framework.Base.{
  ℕ, ◌+◌, Bool, true, false, not, ◌&&◌, ◌||◌, String, List, [], ◌∷◌, ◌++◌, none, some, ◌==◌, u64,
  if◌then◌else◌,
}
use rtc_framework.Base.Assoc.{lookup, erase}
use rtc_framework.VehicleProtocol.Types.{VehicleErrorCode}
use rtc_framework.VehicleModule.State.{VehicleCommandResult}
use rtc_framework.Dog.Types.{
  standstill, Frame, velocity_frame, boot_up_frame, subscription_frame, no_setup, connecting,
  handshaking, stop_writing, Impl,
}

abbrev pub failed : VehicleErrorCode → String → VehicleCommandResult
failed code text = record {
  accepted = false;
  completion_pending = false;
  error_code = code;
  detail = text;
}

abbrev pub notify_initial_connection : Bool → Impl → Impl
notify_initial_connection success s =
    if s.initial_finished
    then s
    else record s { initial_finished = true; initial_connected = success }

unfoldable pub notify_dog_action_completion : ℕ → VehicleCommandResult → Impl → Impl
notify_dog_action_completion id result s =
    if s.has_completion
    then record s { completions = record { request_id = id; result = result } ∷ s.completions }
    else s

unfoldable pub complete_behavior_goal : ℕ → VehicleCommandResult → Impl → Impl
unfolding notify_dog_action_completion
complete_behavior_goal goal result s = elim (lookup goal s.pending_behavior_goals) [
  | none ↦ s
  | some id ↦
      notify_dog_action_completion id result
        (record s { pending_behavior_goals = erase goal s.pending_behavior_goals })
]

-- The loop over the request ids.
unfoldable pub notify_all : List (ℕ × ℕ) → VehicleCommandResult → Impl → Impl
unfolding notify_dog_action_completion
notify_all [] result s = s
notify_all ((goal, id) ∷ goals) result s =
    notify_all goals result (notify_dog_action_completion id result s)

unfoldable pub fail_pending_behavior_goals : VehicleErrorCode → String → Impl → Impl
fail_pending_behavior_goals code text s =
    notify_all s.pending_behavior_goals (failed code text)
      (record s { pending_behavior_goals = [] })

-- The next generation, with no connection; and with the socket closed and nothing to write.
abbrev pub disconnected : Impl → Impl
disconnected s = record s {
  connection_generation = u64 (s.connection_generation + 1);
  connected = false;
}

abbrev pub closed : Impl → Impl
closed s = record s {
  socket_open = false;
  reading = false;
  stage = no_setup;
  pending_writes = [];
  active_write = none;
}

unfoldable pub finish_shutdown : Impl → Impl
finish_shutdown s =
    let t =
      fail_pending_behavior_goals VehicleErrorCode.invalid_state
        "dog command forwarder stopped before action completed"
        (record (disconnected s) { shutdown_finished = true }) in
    if s.shutdown_finished then s else record (closed t) { io_stopped = true }

-- What a failure does before it looks whether the forwarder is to run on.
unfoldable pub drop_connection : Impl → Impl
drop_connection s = notify_initial_connection false (
    closed (
      fail_pending_behavior_goals VehicleErrorCode.invalid_state
        "rosbridge connection lost before dog action completed" (disconnected s)))

unfoldable pub handle_connection_failure : ℕ → Impl → Impl
handle_connection_failure generation s =
    let closed = drop_connection s in
    let ended = finish_shutdown closed in
    if not (generation == s.connection_generation)
    then s
    else if not s.running || s.stopping
    then ended
    else closed

-- The socket is opened when the connection is begun.
unfoldable pub do_connect : Impl → Impl
do_connect s = if not s.running || (s.stopping || not s.has_io) then s else record s {
  incoming_buffer = [];
  reading = false;
  pending_writes = [];
  active_write = none;
  connected = false;
  connection_generation = u64 (s.connection_generation + 1);
  socket_open = true;
  stage = connecting (u64 (s.connection_generation + 1));
  wire = [];
}

unfoldable pub start_write : Impl → Impl
start_write s = elim s.active_write [
  | some frame ↦ s
  | none ↦ elim s.pending_writes [
    | [] ↦ s
    | frame ∷ frames ↦
        if not s.socket_open
        then s
        else record s { active_write = some frame; pending_writes = frames; wire = frame ∷ s.wire }
  ]
]

-- `pending_writes.back() = frame` on a queue that is not empty, and a push on an empty one.
unfoldable pub replace_back : Frame → List Frame → List Frame
replace_back frame [] = frame ∷ []
replace_back frame (f ∷ []) = frame ∷ []
replace_back frame (f ∷ g ∷ frames) = f ∷ replace_back frame (g ∷ frames)

-- The queue with the frame in it.
unfoldable pub queued : Frame → Bool → Bool → Bool → List Frame → List Frame
queued frame replace_latest discard_pending high_priority pending =
    if discard_pending
    then frame ∷ []
    else if high_priority
    then frame ∷ pending
    else if replace_latest
    then replace_back frame pending
    else pending ++ frame ∷ []

unfoldable pub queue_frame_on_io : Frame → Bool → Bool → Bool → Impl → Impl
unfolding start_write queued
queue_frame_on_io frame replace_latest discard_pending high_priority s =
    if not s.socket_open
    then s
    else start_write (record s {
      pending_writes = queued frame replace_latest discard_pending high_priority s.pending_writes;
    })

unfoldable pub on_connected : ℕ → Bool → Impl → Impl
on_connected generation error s =
    if not (generation == s.connection_generation)
    then s
    else if error
    then handle_connection_failure generation s
    else record s { stage = handshaking generation }

-- The response to the handshake was read, or an operation of it failed; a valid one is followed by
-- the zero velocity, which is written at once.
unfoldable pub on_handshake : ℕ → Bool → Impl → Impl
on_handshake generation valid s =
    if not (generation == s.connection_generation)
    then s
    else if not valid
    then handle_connection_failure generation s
    else record s { stage = stop_writing generation; wire = velocity_frame standstill ∷ s.wire }

unfoldable pub on_stop_written : ℕ → Bool → Impl → Impl
unfolding queue_frame_on_io
on_stop_written generation error s =
    if not (generation == s.connection_generation)
    then s
    else if error
    then handle_connection_failure generation s
    else notify_initial_connection true (
        queue_frame_on_io boot_up_frame false false false
          (queue_frame_on_io subscription_frame false false false (record s { connected = true })))

unfoldable pub on_written : ℕ → Bool → Impl → Impl
unfolding start_write
on_written generation error s =
    let t = record s { active_write = none } in
    if not (generation == s.connection_generation)
    then s
    else if error
    then handle_connection_failure generation s
    else elim s.pending_writes [
      | _ ∷ _ ↦ start_write t
      | [] ↦ if s.stopping then finish_shutdown t else t
    ]

unfoldable pub on_operation_timeout : ℕ → Impl → Impl
on_operation_timeout generation s =
    if generation == s.connection_generation then handle_connection_failure generation s else s

unfoldable pub on_reconnect_timeout : Impl → Impl
on_reconnect_timeout s = if s.running && not s.stopping then do_connect s else s

unfoldable pub on_goal_timeout : ℕ → Impl → Impl
on_goal_timeout goal s =
    complete_behavior_goal goal (failed VehicleErrorCode.internal "dog behavior result timed out") s

unfoldable pub begin_shutdown : Impl → Impl
unfolding start_write
begin_shutdown s =
    let t = record s { stopping = true } in
    if s.shutdown_finished
    then s
    else if not s.connected || not s.socket_open
    then finish_shutdown t
    else start_write (record t { pending_writes = velocity_frame standstill ∷ [] })
