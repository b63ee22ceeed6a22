-- ===== src/Dog/Tasks.antt =====
-- dog_command_forwarder.cpp: what the caller's thread posts, and the order of events on the io thread.
use rtc_framework.Base.{
  ℕ, Bool, true, false, not, ◌&&◌, ◌||◌, List, [], ◌∷◌, ◌++◌, none, some, if◌then◌else◌,
}
use rtc_framework.Base.Assoc.{insert}
use rtc_framework.VehicleProtocol.Types.{VehicleErrorCode}
use rtc_framework.Dog.Types.{
  Frame, Task, do_connect_task, begin_shutdown_task, velocity_task, behavior_task, Stage, no_setup,
  connecting, handshaking, stop_writing, Json, Impl,
}
use rtc_framework.Dog.Connection.{
  failed, notify_dog_action_completion, finish_shutdown, handle_connection_failure, do_connect,
  queue_frame_on_io, on_connected, on_handshake, on_written, on_operation_timeout,
  on_reconnect_timeout, on_goal_timeout, begin_shutdown,
}
use rtc_framework.Dog.Incoming.{on_bytes, on_connection_stop_written}

unfoldable pub enqueue_velocity_frame : Frame → Bool → Impl → Impl × Bool
enqueue_velocity_frame frame is_stop s =
    if not s.running || (not s.connected || not s.has_io)
    then (s, false)
    else (record s { tasks = s.tasks ++ velocity_task frame is_stop ∷ [] }, true)

unfoldable pub enqueue_behavior_frame : Frame → ℕ → ℕ → Impl → Impl × Bool
enqueue_behavior_frame frame goal request_id s =
    if not s.running || (not s.connected || not s.has_io)
    then (s, false)
    else (record s { tasks = s.tasks ++ behavior_task frame goal request_id ∷ [] }, true)

-- `Start` up to its wait, once the configuration was accepted.
unfoldable pub start_io : Impl → Impl
start_io s = record s {
  has_io = true;
  io_stopped = false;
  initial_finished = false;
  initial_connected = false;
  stopping = false;
  shutdown_finished = false;
  running = true;
  tasks = do_connect_task ∷ [];
}

-- `Stop`: what is asked of the io thread, and what is left when that thread has ended.
unfoldable pub stop_io : Impl → Impl
stop_io s =
    if s.running && s.has_io
    then record s { running = false; tasks = s.tasks ++ begin_shutdown_task ∷ [] }
    else record s { running = false; io_stopped = s.io_stopped || s.has_io }

unfoldable pub joined : Impl → Impl
joined s = record s {
  socket_open = false;
  reading = false;
  stage = no_setup;
  has_io = false;
  connected = false;
  tasks = [];
}

unfoldable pub run_task : Task → Impl → Impl
run_task do_connect_task s = do_connect s
run_task begin_shutdown_task s = begin_shutdown s
run_task (velocity_task frame is_stop) s =
    if not s.running || (not s.connected || s.stopping)
    then s
    else queue_frame_on_io frame (not is_stop) is_stop false s
run_task (behavior_task frame goal request_id) s =
    if not s.running || (not s.connected || (s.stopping || not s.socket_open))
    then notify_dog_action_completion request_id
        (failed VehicleErrorCode.invalid_state "rosbridge WebSocket is not connected") s
    else queue_frame_on_io frame false false false
        (record s { pending_behavior_goals = insert goal request_id s.pending_behavior_goals })

unfoldable pub run_from : List Task → Impl → Impl
unfolding run_task
run_from [] s = s
run_from (task ∷ rest) s = if s.io_stopped then s else run_task task (record s { tasks = rest })

unfoldable pub run_next : Impl → Impl
unfolding run_from
run_next s = run_from s.tasks s

-- What can happen while the forwarder runs, in any order.
pub data Event : Type 0 where
  -- The caller's thread.
  asks_velocity : Frame → Bool → Event
  asks_behavior : Frame → ℕ → ℕ → Event
  asks_stop : Event
  -- `Stop` has waited for the io thread, whose loop has ended.
  joins : Event
  -- The io thread runs the oldest task, or an operation ends, or a timer fires.
  runs_task : Event
  ends_setup ends_write : Bool → Event
  receives : ℕ → List ℕ → Event
  fails_read times_out : ℕ → Event
  times_out_goal : ℕ → Event
  reconnects ends_wait : Event

module _ (json : Json) where
  unfoldable pub end_setup : Stage → Bool → Impl → Impl
  end_setup no_setup ok s = s
  end_setup (connecting generation) ok s = on_connected generation (not ok) s
  end_setup (handshaking generation) ok s = on_handshake generation ok s
  end_setup (stop_writing generation) ok s = on_connection_stop_written json generation (not ok) s

  -- Only an operation that is under way ends. A write is dropped whenever the generation changes, so
  -- the one that is active has the current one.
  unfoldable pub happen : Event → Impl → Impl
  happen (asks_velocity frame is_stop) s = (enqueue_velocity_frame frame is_stop s).0
  happen (asks_behavior frame goal id) s = (enqueue_behavior_frame frame goal id s).0
  happen asks_stop s = stop_io s
  happen joins s = if s.io_stopped && not s.running then joined s else s
  happen runs_task s = run_next s
  happen (ends_setup ok) s = end_setup s.stage ok (record s { stage = no_setup })
  happen (ends_write ok) s = elim s.active_write [
    | none ↦ s
    | some frame ↦ on_written s.connection_generation (not ok) s
  ]
  happen (receives generation bytes) s = on_bytes json generation bytes s
  happen (fails_read generation) s = handle_connection_failure generation s
  happen (times_out generation) s = on_operation_timeout generation s
  happen (times_out_goal goal) s = on_goal_timeout goal s
  happen reconnects s = on_reconnect_timeout s
  happen ends_wait s = finish_shutdown s

  unfoldable pub run_events : List Event → Impl → Impl
  run_events [] s = s
  run_events (e ∷ es) s = run_events es (happen e s)
