-- ===== src/Dog/Tests.antt =====
-- The theorems of the dog command forwarder on concrete runs.
use rtc_framework.Base.{
  ◌+◌, ◌≡◌, ◌⊎◌, refl, true, false, List, [], ◌∷◌, ◌++◌, none, some, arith, ltb, if◌then◌else◌,
}
use rtc_framework.Base.Assoc.{lookup, insert, erase}
use rtc_framework.Base.Float32.{Float, zero_f, one_f, le_float, lt_float, is_nan}
use rtc_framework.VehicleProtocol.Types.{
  DriveDirection, SteeringDirection, VehicleErrorCode, DriveCommand,
}
use rtc_framework.Dog.Types.{
  standstill, Frame, velocity_frame, goal_frame, boot_up_frame, velocity_task, behavior_task, Json,
  Impl, new_impl,
}
use rtc_framework.Dog.Connection.{
  notify_dog_action_completion, complete_behavior_goal, notify_all, fail_pending_behavior_goals,
  finish_shutdown, drop_connection, handle_connection_failure, do_connect, start_write,
  replace_back, queued, queue_frame_on_io, on_connected, on_handshake, on_stop_written, on_written,
  on_operation_timeout, on_reconnect_timeout, on_goal_timeout, begin_shutdown,
}
use rtc_framework.Dog.Incoming.{
  got, read_frame_payload, read_extended, read_frame, on_behavior_result, handle_incoming_text,
  handle_frame, on_reading, begin_read_frame, on_bytes, on_connection_stop_written,
}
use rtc_framework.Dog.Tasks.{
  Event, runs_task, ends_setup, asks_behavior, asks_stop, fails_read, joins, times_out_goal,
  enqueue_velocity_frame, enqueue_behavior_frame, start_io, stop_io, joined, run_task, run_from,
  run_next, end_setup, happen, run_events,
}
use rtc_framework.Dog.StopFirst.{still_first, has_frames}
use rtc_framework.Dog.StopFirstRun.{zero_velocity_first}
use rtc_framework.Dog.Accounts.{answered, waiting, posted}
use rtc_framework.Dog.AccountsRun.{
  started, RunsNewGoals, accepted_asks, dropped_asks, requests_accounted,
}
use rtc_framework.Dog.Priority.{velocity_drops_goal}
use rtc_framework.Dog.Framing.{build_ws_frame, server_frame, server_reads}
use rtc_framework.Dog.FramingLaws.{read_frame-server_frame, server_reads-build_ws_frame}
use rtc_framework.Dog.Forward.{Forwarder, drive_velocity, send_drive_command}
use rtc_framework.Dog.ForwardLaws.{IsFiniteVelocity, Posts, finite_or_refused}
use rtc_framework.Dog.Braking.{runs_and_writes, brake_is_written}
use rtc_framework.Dog.Chunks.{seen, pieces_do_not_matter}

abbrev no_results : Json
no_results = record { behavior_result = λ payload. none; to_string = λ n. "" }

abbrev goal : Frame
goal = goal_frame 1 "[]" 1 0

-- The connection is set up, and a goal is asked for, sent, and not answered. A second goal is asked for,
-- and before its task runs the forwarder is stopped and the connection fails.
abbrev goal_events : List Event
goal_events =
    runs_task
    ∷ ends_setup true
    ∷ ends_setup true
    ∷ ends_setup true
    ∷ asks_behavior goal 1 7
    ∷ runs_task
    ∷ times_out_goal 1
    ∷ asks_behavior goal 2 8
    ∷ asks_stop
    ∷ fails_read 1
    ∷ joins
    ∷ []

zero_velocity_first_example :
    let s = run_events no_results goal_events (start_io new_impl) in
    (still_first s.wire ≡ true)
    × (s.connected ≡ true → (has_frames s.wire ≡ true) × (s.socket_open ≡ true))
zero_velocity_first_example = zero_velocity_first no_results goal_events

goal_is_new : RunsNewGoals no_results goal_events started
unfolding notify_dog_action_completion complete_behavior_goal notify_all fail_pending_behavior_goals
    finish_shutdown drop_connection handle_connection_failure do_connect start_write replace_back
    queued queue_frame_on_io on_connected on_handshake on_stop_written on_written
    on_operation_timeout on_reconnect_timeout on_goal_timeout begin_shutdown read_frame_payload
    read_extended read_frame on_behavior_result handle_incoming_text handle_frame on_reading
    begin_read_frame on_bytes on_connection_stop_written enqueue_velocity_frame
    enqueue_behavior_frame start_io stop_io joined run_task run_from run_next end_setup happen
    run_events lookup insert erase started
goal_is_new = (tt, (tt, (tt, (tt, (tt, (refl, (tt, (tt, (tt, (tt, (tt, tt)))))))))))

-- The second request is dropped without an answer.
second_dropped :
    (dropped_asks no_results 8 goal_events started ≡ 1)
    × (answered 8 (run_events no_results goal_events started).completions ≡ 0)
unfolding notify_dog_action_completion complete_behavior_goal notify_all fail_pending_behavior_goals
    finish_shutdown drop_connection handle_connection_failure do_connect start_write replace_back
    queued queue_frame_on_io on_connected on_handshake on_stop_written on_written
    on_operation_timeout on_reconnect_timeout on_goal_timeout begin_shutdown read_frame_payload
    read_extended read_frame on_behavior_result handle_incoming_text handle_frame on_reading
    begin_read_frame on_bytes on_connection_stop_written enqueue_velocity_frame
    enqueue_behavior_frame start_io stop_io joined run_task run_from run_next end_setup happen
    run_events lookup insert erase started
second_dropped = (refl, refl)

requests_accounted_example :
    let s = run_events no_results goal_events started in
    answered 7 s.completions
      + (waiting 7 s.pending_behavior_goals + posted 7 s.tasks)
      + dropped_asks no_results 7 goal_events started
    ≡ accepted_asks no_results 7 goal_events started
requests_accounted_example = requests_accounted no_results 7 goal_events goal_is_new

-- A connected forwarder that is writing.
abbrev writing : Impl
writing = record new_impl {
  has_io = true;
  running = true;
  connected = true;
  connection_generation = 1;
  socket_open = true;
  active_write = some boot_up_frame;
}

velocity_drops_goal_example :
    let t =
      run_task
        (velocity_task (velocity_frame standstill) false)
        (run_task (behavior_task goal 1 7) writing) in
    (t.pending_writes ≡ velocity_frame standstill ∷ [])
    × ((t.wire ≡ []) × (lookup 1 t.pending_behavior_goals ≡ some 7))
velocity_drops_goal_example =
    velocity_drops_goal writing refl refl refl refl goal (velocity_frame standstill) boot_up_frame 1
      7 refl

abbrev forwarder : Forwarder
forwarder = record {
  config = record {
    max_forward_speed = one_f;
    max_angular_speed = one_f;
    max_lateral_speed = one_f;
    reconnect_interval_ms = 3000;
    connect_timeout_ms = 3000;
    shutdown_timeout_ms = 250;
    behavior_result_timeout_ms = 15000;
  };
  last = standstill;
  last_sent_at = 0;
  behavior_seq = 0;
  impl = writing;
}

-- Multiplication by one.
abbrev times : Float → Float → Float
times a b = if ltb b one_f then b else a

abbrev braking : DriveCommand
braking = record {
  drive_direction = DriveDirection.forward;
  steering_direction = SteeringDirection.center;
  throttle = one_f;
  brake = one_f;
}

one_brakes : le_float one_f zero_f ≡ false
unfolding le_float lt_float is_nan
one_brakes = refl

brake_is_written_example :
    let s = runs_and_writes no_results (send_drive_command times 5 braking forwarder).0.impl in
    (s.wire ≡ velocity_frame standstill ∷ []) × (s.pending_writes ≡ [])
brake_is_written_example =
    brake_is_written no_results times 5 braking forwarder one_brakes (refl, (refl, refl)) refl refl
      refl refl

finite_or_refused_example :
    let r = send_drive_command times 5 braking forwarder in
    let v = drive_velocity times braking forwarder.config in
    ((r.1.accepted ≡ false)
      × ((r.0 ≡ forwarder)
          × ((r.1.error_code ≡ VehicleErrorCode.invalid_argument)
              ⊎ (r.1.error_code ≡ VehicleErrorCode.invalid_state))))
    ⊎ ((r.1.accepted ≡ true)
        × ((r.1.error_code ≡ VehicleErrorCode.no_error)
            × (IsFiniteVelocity v × Posts v forwarder r.0)))
finite_or_refused_example = finite_or_refused times 5 braking forwarder

read_frame-server_frame_example :
    read_frame (server_frame 1 (72 ∷ 105 ∷ []) ++ 9 ∷ []) ≡ got 1 (72 ∷ 105 ∷ []) (9 ∷ [])
read_frame-server_frame_example =
    read_frame-server_frame 1 (72 ∷ 105 ∷ []) (9 ∷ []) (omega arith) (omega arith)

server_reads-build_ws_frame_example :
    server_reads
      (build_ws_frame 1 (record { m0 = 1; m1 = 2; m2 = 3; m3 = 4 }) (72 ∷ 105 ∷ []) ++ [])
    ≡ some (1, (72 ∷ 105 ∷ [], []))
server_reads-build_ws_frame_example =
    server_reads-build_ws_frame 1 (record { m0 = 1; m1 = 2; m2 = 3; m3 = 4 }) (72 ∷ 105 ∷ []) []
      (omega arith) (omega arith) (omega arith, (omega arith, tt))

abbrev expecting : Impl
expecting = record writing { reading = true }

-- A frame of five bytes that is cut after the third.
pieces_do_not_matter_example :
    seen 1
      (on_bytes no_results 1 (66 ∷ 67 ∷ []) (on_bytes no_results 1 (129 ∷ 3 ∷ 65 ∷ []) expecting))
    ≡ seen 1 (on_bytes no_results 1 (129 ∷ 3 ∷ 65 ∷ 66 ∷ 67 ∷ []) expecting)
pieces_do_not_matter_example =
    pieces_do_not_matter no_results 1 (129 ∷ 3 ∷ 65 ∷ []) (66 ∷ 67 ∷ []) expecting
