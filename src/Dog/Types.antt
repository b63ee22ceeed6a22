-- ===== src/Dog/Types.antt =====
-- client/modules/dog/src/dog_command_forwarder.cpp: the data of `DogCommandForwarder::Impl`. A frame is
-- the message that it carries: its bytes are built once and are opaque to the queue. Goal ids are only
-- compared, and are numbers here; the goals stand in the order of their registration, not in that of
-- their texts, and fail in this order. A timer is whether it may fire.
use rtc_framework.Base.{ℕ, Bool, false, String, List, [], Option, none}
use rtc_framework.Base.Float32.{Float, zero_f}
use rtc_framework.VehicleModule.State.{VehicleCommandResult}

pub record DogVelocity : Type 0 where
  pub vx : Float
  pub vy : Float
  pub wz : Float

abbrev pub standstill : DogVelocity
standstill = record { vx = zero_f; vy = zero_f; wz = zero_f }

pub data Frame : Type 0 where
  -- `BuildRosbridgeVelocityMessage`
  velocity_frame : DogVelocity → Frame
  -- `BuildRosbridgeDogBehaviorGoalMessage`: the goal id, the arguments, the sequence number and the time.
  goal_frame : ℕ → String → ℕ → ℕ → Frame
  boot_up_frame : Frame
  subscription_frame : Frame
  -- The answer to a ping, with its payload.
  pong_frame : List ℕ → Frame

-- What other threads post to the io thread.
pub data Task : Type 0 where
  do_connect_task begin_shutdown_task : Task
  velocity_task : Frame → Bool → Task
  behavior_task : Frame → ℕ → ℕ → Task

-- A call of the completion callback.
pub record Completion : Type 0 where
  pub request_id : ℕ
  pub result : VehicleCommandResult

-- What is read of a behaviour result: the goal id and the status, if the text is such a message. The
-- JSON library reads it, and `std::to_string` prints the status, which is unsigned in the action's
-- protocol: a negative one is not represented.
pub record Json : Type 0 where
  pub behavior_result : List ℕ → Option (ℕ × ℕ)
  pub to_string : ℕ → String

-- The operation that sets the connection up, with the generation that it was started with. Closing
-- the socket cancels it, and its handler then finds another generation and returns.
pub data Stage : Type 0 where
  no_setup : Stage
  connecting handshaking stop_writing : ℕ → Stage

pub record Impl : Type 0 where
  pub has_io : Bool
  pub io_stopped : Bool
  pub running : Bool
  pub connected : Bool
  pub stopping : Bool
  pub shutdown_finished : Bool
  pub connection_generation : ℕ
  -- The socket is there and open.
  pub socket_open : Bool
  pub stage : Stage
  pub incoming_buffer : List ℕ
  -- A frame is being read: what comes of it is handled.
  pub reading : Bool
  pub pending_writes : List Frame
  pub active_write : Option Frame
  pub initial_finished : Bool
  pub initial_connected : Bool
  pub pending_behavior_goals : List (ℕ × ℕ)
  pub has_completion : Bool
  -- The tasks that were posted and have not run, oldest first.
  pub tasks : List Task
  -- What was handed to the socket since it was opened, and the calls of the callback, newest first.
  pub wire : List Frame
  pub completions : List Completion

abbrev pub new_impl : Impl
new_impl = record {
  has_io = false;
  io_stopped = false;
  running = false;
  connected = false;
  stopping = false;
  shutdown_finished = false;
  connection_generation = 0;
  socket_open = false;
  stage = no_setup;
  incoming_buffer = [];
  reading = false;
  pending_writes = [];
  active_write = none;
  initial_finished = false;
  initial_connected = false;
  pending_behavior_goals = [];
  has_completion = false;
  tasks = [];
  wire = [];
  completions = [];
}
