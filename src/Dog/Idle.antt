-- ===== src/Dog/Idle.antt =====
-- dog_command_forwarder.cpp: whether a frame is being read, in what a frame does.
use rtc_framework.Base.{
  ℕ, ◌≡◌, refl, ap, Bool, true, false, List, [], ◌∷◌, Option, none, some, ◌==◌, arith,
}
use rtc_framework.VehicleProtocol.Types.{VehicleErrorCode}
use rtc_framework.VehicleModule.State.{VehicleCommandResult}
use rtc_framework.Dog.Types.{Frame, pong_frame, Json, Impl}
use rtc_framework.Dog.Connection.{
  failed, notify_dog_action_completion, notify_all, fail_pending_behavior_goals,
  notify_initial_connection, finish_shutdown, disconnected, closed, drop_connection,
  handle_connection_failure, start_write, queue_frame_on_io,
}
use rtc_framework.Dog.Incoming.{on_behavior_result, handle_incoming_text, handle_frame}
use rtc_framework.Dog.Notices.{complete_keeps}

abbrev pub with_reading : Bool → Impl → Impl
with_reading b s = record s { reading = b }

module _ (b : Bool) where
  notify_all-with_reading :
      (goals : List (ℕ × ℕ)) (r : VehicleCommandResult) (s : Impl)
      → notify_all goals r (with_reading b s) ≡ with_reading b (notify_all goals r s)
  unfolding notify_all notify_dog_action_completion
  notify_all-with_reading [] r s = refl
  notify_all-with_reading ((goal, id) ∷ goals) r s = ground (
    arith,
    notify_all-with_reading goals r (notify_dog_action_completion id r s),
    notify_all-with_reading goals r s,
  )

  drop_connection-with_reading : (s : Impl) → drop_connection (with_reading b s) ≡ drop_connection s
  unfolding drop_connection fail_pending_behavior_goals
  drop_connection-with_reading s =
      let lost =
        notify_all-with_reading s.pending_behavior_goals
          (failed VehicleErrorCode.invalid_state
            "rosbridge connection lost before dog action completed")
          (record (disconnected s) { pending_behavior_goals = [] }) in
      ap (λ (t : Impl). notify_initial_connection false (closed t)) lost

  -- A failure closes the socket, and nothing is being read then.
  pub failure-with_reading :
      (generation : ℕ) (s : Impl)
      → (generation == s.connection_generation) ≡ true
      → handle_connection_failure generation (with_reading b s)
        ≡ handle_connection_failure generation s
  unfolding handle_connection_failure
  failure-with_reading generation s e = rw (drop_connection-with_reading s, e) refl

abbrev pub IsIdle : Impl → Type 0
IsIdle s = s.reading ≡ false

finish_shutdown-IsIdle : (s : Impl) → IsIdle s → IsIdle (finish_shutdown s)
unfolding finish_shutdown
finish_shutdown-IsIdle s v = ground arith

drop_connection-IsIdle : (s : Impl) → IsIdle (drop_connection s)
unfolding drop_connection
drop_connection-IsIdle s = ground arith

failure-IsIdle :
    (generation : ℕ) (s : Impl) → IsIdle s → IsIdle (handle_connection_failure generation s)
unfolding handle_connection_failure
failure-IsIdle generation s v =
    ground (arith, drop_connection-IsIdle s, finish_shutdown-IsIdle (drop_connection s))

queue_frame-IsIdle :
    (f : Frame) (replace discard high : Bool) (s : Impl)
    → IsIdle s
    → IsIdle (queue_frame_on_io f replace discard high s)
unfolding queue_frame_on_io start_write
queue_frame-IsIdle f replace discard high s v = ground arith

result-IsIdle :
    (json : Json) (r : Option (ℕ × ℕ)) (s : Impl) → IsIdle s → IsIdle (on_behavior_result json r s)
unfolding on_behavior_result
result-IsIdle json none s v = v
result-IsIdle json (some (goal, status)) s v = complete_keeps IsIdle goal _ s (λ c goals. v)

pub handle_frame-IsIdle :
    (json : Json) (generation opcode : ℕ) (payload : List ℕ) (s : Impl)
    → IsIdle s
    → IsIdle (handle_frame json generation opcode payload s)
unfolding handle_frame handle_incoming_text
handle_frame-IsIdle json generation opcode payload s v = ground (
  arith,
  failure-IsIdle generation s v,
  queue_frame-IsIdle (pong_frame payload) false false true s v,
  result-IsIdle json (json.behavior_result payload) s v,
)
