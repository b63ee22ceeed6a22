-- ===== src/Dog/Buffer.antt =====
-- dog_command_forwarder.cpp: the bytes that wait to be read are not touched by what a frame does.
use rtc_framework.Base.{
  ℕ, ◌≡◌, refl, ap, ◌∙◌, Bool, true, false, String, List, [], ◌∷◌, Option, none, some, arith,
}
use rtc_framework.VehicleProtocol.Types.{VehicleErrorCode}
use rtc_framework.VehicleModule.State.{VehicleCommandResult}
use rtc_framework.Dog.Types.{Frame, pong_frame, Json, Impl}
use rtc_framework.Dog.Connection.{
  failed, notify_dog_action_completion, complete_behavior_goal, notify_all,
  fail_pending_behavior_goals, finish_shutdown, disconnected, drop_connection,
  handle_connection_failure, start_write, queued, queue_frame_on_io,
}
use rtc_framework.Dog.Incoming.{
  behavior_outcome, on_behavior_result, handle_incoming_text, handle_frame,
}

-- The forwarder with other bytes in its buffer.
abbrev pub with_buffer : List ℕ → Impl → Impl
with_buffer bytes s = record s { incoming_buffer = bytes }

module _ (bytes : List ℕ) where
  notify-with_buffer :
      (id : ℕ) (r : VehicleCommandResult) (s : Impl)
      → notify_dog_action_completion id r (with_buffer bytes s)
        ≡ with_buffer bytes (notify_dog_action_completion id r s)
  unfolding notify_dog_action_completion
  notify-with_buffer id r s = ground arith

  notify_all-with_buffer :
      (goals : List (ℕ × ℕ)) (r : VehicleCommandResult) (s : Impl)
      → notify_all goals r (with_buffer bytes s) ≡ with_buffer bytes (notify_all goals r s)
  unfolding notify_all
  notify_all-with_buffer [] r s = refl
  notify_all-with_buffer ((goal, id) ∷ goals) r s =
      ap (notify_all goals r) (notify-with_buffer id r s)
      ∙ notify_all-with_buffer goals r (notify_dog_action_completion id r s)

  fail_pending-with_buffer :
      (code : VehicleErrorCode) (text : String) (s : Impl)
      → fail_pending_behavior_goals code text (with_buffer bytes s)
        ≡ with_buffer bytes (fail_pending_behavior_goals code text s)
  unfolding fail_pending_behavior_goals
  fail_pending-with_buffer code text s =
      notify_all-with_buffer s.pending_behavior_goals (failed code text)
        (record s { pending_behavior_goals = [] })

  finish_shutdown-with_buffer :
      (s : Impl) → finish_shutdown (with_buffer bytes s) ≡ with_buffer bytes (finish_shutdown s)
  unfolding finish_shutdown
  finish_shutdown-with_buffer s = ground (
    arith,
    fail_pending-with_buffer VehicleErrorCode.invalid_state
        "dog command forwarder stopped before action completed"
        (record (disconnected s) { shutdown_finished = true }),
  )

  drop_connection-with_buffer :
      (s : Impl) → drop_connection (with_buffer bytes s) ≡ with_buffer bytes (drop_connection s)
  unfolding drop_connection
  drop_connection-with_buffer s = ground (
    arith,
    fail_pending-with_buffer VehicleErrorCode.invalid_state
        "rosbridge connection lost before dog action completed" (disconnected s),
  )

  pub failure-with_buffer :
      (generation : ℕ) (s : Impl)
      → handle_connection_failure generation (with_buffer bytes s)
        ≡ with_buffer bytes (handle_connection_failure generation s)
  unfolding handle_connection_failure
  failure-with_buffer generation s =
      ground (arith, drop_connection-with_buffer s, finish_shutdown-with_buffer (drop_connection s))

  start_write-with_buffer :
      (s : Impl) → start_write (with_buffer bytes s) ≡ with_buffer bytes (start_write s)
  unfolding start_write
  start_write-with_buffer s = ground arith

  queue_frame-with_buffer :
      (f : Frame) (replace discard high : Bool) (s : Impl)
      → queue_frame_on_io f replace discard high (with_buffer bytes s)
        ≡ with_buffer bytes (queue_frame_on_io f replace discard high s)
  unfolding queue_frame_on_io
  queue_frame-with_buffer f replace discard high s = ground (
    arith,
    start_write-with_buffer
        (record s { pending_writes = queued f replace discard high s.pending_writes }),
  )

  complete-with_buffer :
      (goal : ℕ) (r : VehicleCommandResult) (s : Impl)
      → complete_behavior_goal goal r (with_buffer bytes s)
        ≡ with_buffer bytes (complete_behavior_goal goal r s)
  unfolding complete_behavior_goal
  complete-with_buffer goal r s = ground arith

  result-with_buffer :
      (json : Json) (r : Option (ℕ × ℕ)) (s : Impl)
      → on_behavior_result json r (with_buffer bytes s)
        ≡ with_buffer bytes (on_behavior_result json r s)
  unfolding on_behavior_result
  result-with_buffer json none s = refl
  result-with_buffer json (some (goal, status)) s =
      complete-with_buffer goal (behavior_outcome json status) s

  pub handle_frame-with_buffer :
      (json : Json) (generation opcode : ℕ) (payload : List ℕ) (s : Impl)
      → handle_frame json generation opcode payload (with_buffer bytes s)
        ≡ with_buffer bytes (handle_frame json generation opcode payload s)
  unfolding handle_frame handle_incoming_text
  handle_frame-with_buffer json generation opcode payload s = ground (
    arith,
    failure-with_buffer generation s,
    queue_frame-with_buffer (pong_frame payload) false false true s,
    result-with_buffer json (json.behavior_result payload) s,
  )
