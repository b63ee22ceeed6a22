-- ===== src/Dog/AccountsSteps.antt =====
-- dog_command_forwarder.cpp: what each step of the io thread does with the requests.
use rtc_framework.Base.{
  ℕ, ◌+◌, ◌≡◌, Bool, true, false, not, ◌||◌, List, [], ◌∷◌, none, String, ◌==◌, arith, if_elim,
  Option-cases, inl, inr,
}
use rtc_framework.Base.Assoc.{lookup}
use rtc_framework.VehicleProtocol.Types.{VehicleErrorCode}
use rtc_framework.VehicleModule.State.{VehicleCommandResult}
use rtc_framework.Dog.Types.{
  Frame, velocity_frame, standstill, boot_up_frame, subscription_frame, Impl,
}
use rtc_framework.Dog.Connection.{
  failed, notify_dog_action_completion, complete_behavior_goal, notify_all,
  fail_pending_behavior_goals, notify_initial_connection, finish_shutdown, disconnected, closed,
  drop_connection, handle_connection_failure, do_connect, start_write, queued, queue_frame_on_io,
  on_connected, on_handshake, on_stop_written, on_written, begin_shutdown,
}
use rtc_framework.Dog.Accounts.{
  answered, waiting, posted, AreDistinct, IsAccounted, erase-AreDistinct, waiting-erase,
}

module _ (x n : ℕ) where
  pub complete-IsAccounted :
      (goal : ℕ) (r : VehicleCommandResult) (s : Impl)
      → IsAccounted x n s
      → IsAccounted x n (complete_behavior_goal goal r s)
  unfolding complete_behavior_goal
  complete-IsAccounted goal r s v = elim (Option-cases (lookup goal s.pending_behavior_goals)) [
    | inl e ↦ rw (e, complete_behavior_goal) v
    | inr (id, e) ↦ ground (
      arith,
      erase-AreDistinct goal s.pending_behavior_goals,
      waiting-erase x goal id s.pending_behavior_goals v.distinct e,
    )
  ]

  notify_all-IsAccounted :
      (goals : List (ℕ × ℕ)) (r : VehicleCommandResult) (s : Impl)
      → s.has_completion ≡ true
      → AreDistinct s.pending_behavior_goals
      → answered x s.completions
          + (waiting x s.pending_behavior_goals + posted x s.tasks)
          + waiting x goals
        ≡ n
      → IsAccounted x n (notify_all goals r s)
  unfolding notify_all
  notify_all-IsAccounted [] r s h d t = ground arith
  notify_all-IsAccounted ((goal, id) ∷ goals) r s h d t =
      notify_all-IsAccounted goals r (notify_dog_action_completion id r s) (ground arith)
        (ground arith) (ground arith)

  fail_pending-IsAccounted :
      (code : VehicleErrorCode) (text : String) (s : Impl)
      → IsAccounted x n s
      → IsAccounted x n (fail_pending_behavior_goals code text s)
  unfolding fail_pending_behavior_goals
  fail_pending-IsAccounted code text s v =
      notify_all-IsAccounted s.pending_behavior_goals (failed code text)
        (record s { pending_behavior_goals = [] }) v.heard tt (omega (arith, v.total))

  pub finish_shutdown-IsAccounted :
      (s : Impl) → IsAccounted x n s → IsAccounted x n (finish_shutdown s)
  unfolding finish_shutdown
  finish_shutdown-IsAccounted s v =
      let w =
        fail_pending-IsAccounted VehicleErrorCode.invalid_state
          "dog command forwarder stopped before action completed"
          (record (disconnected s) { shutdown_finished = true }) (ground arith) in
      if_elim (IsAccounted x n) s.shutdown_finished _ _ (λ _. v)
        (λ _. record { heard = w.heard; distinct = w.distinct; total = w.total })

  initial-IsAccounted :
      (success : Bool) (s : Impl)
      → IsAccounted x n s
      → IsAccounted x n (notify_initial_connection success s)
  initial-IsAccounted success s v = ground arith

  drop_connection-IsAccounted : (s : Impl) → IsAccounted x n s → IsAccounted x n (drop_connection s)
  unfolding drop_connection
  drop_connection-IsAccounted s v =
      let t : Impl =
        fail_pending_behavior_goals VehicleErrorCode.invalid_state
          "rosbridge connection lost before dog action completed" (disconnected s) in
      let w : IsAccounted x n t = fail_pending-IsAccounted _ _ (disconnected s) (ground arith) in
      initial-IsAccounted false (closed t)
        (record { heard = w.heard; distinct = w.distinct; total = w.total })

  pub failure-IsAccounted :
      (generation : ℕ) (s : Impl)
      → IsAccounted x n s
      → IsAccounted x n (handle_connection_failure generation s)
  unfolding handle_connection_failure
  failure-IsAccounted generation s v =
      let w = drop_connection-IsAccounted s v in
      if_elim (IsAccounted x n) (not (generation == s.connection_generation)) _ _ (λ _. v)
        (λ _.
          if_elim (IsAccounted x n) (not s.running || s.stopping) _ _
            (λ _. finish_shutdown-IsAccounted (drop_connection s) w) (λ _. w))

  start_write-IsAccounted : (s : Impl) → IsAccounted x n s → IsAccounted x n (start_write s)
  unfolding start_write
  start_write-IsAccounted s v = ground arith

  pub queue_frame-IsAccounted :
      (f : Frame) (replace discard high : Bool) (s : Impl)
      → IsAccounted x n s
      → IsAccounted x n (queue_frame_on_io f replace discard high s)
  unfolding queue_frame_on_io
  queue_frame-IsAccounted f replace discard high s v =
      if_elim (IsAccounted x n) (not s.socket_open) _ _ (λ _. v)
        (λ _.
          start_write-IsAccounted
            (record s { pending_writes = queued f replace discard high s.pending_writes })
            (ground arith))

  pub do_connect-IsAccounted : (s : Impl) → IsAccounted x n s → IsAccounted x n (do_connect s)
  unfolding do_connect
  do_connect-IsAccounted s v = ground arith

  pub on_connected-IsAccounted :
      (generation : ℕ) (error : Bool) (s : Impl)
      → IsAccounted x n s
      → IsAccounted x n (on_connected generation error s)
  unfolding on_connected
  on_connected-IsAccounted generation error s v = ground (arith, failure-IsAccounted generation s v)

  pub on_handshake-IsAccounted :
      (generation : ℕ) (valid : Bool) (s : Impl)
      → IsAccounted x n s
      → IsAccounted x n (on_handshake generation valid s)
  unfolding on_handshake
  on_handshake-IsAccounted generation valid s v = ground (arith, failure-IsAccounted generation s v)

  pub on_written-IsAccounted :
      (generation : ℕ) (error : Bool) (s : Impl)
      → IsAccounted x n s
      → IsAccounted x n (on_written generation error s)
  unfolding on_written
  on_written-IsAccounted generation error s v =
      let t : Impl = record s { active_write = none } in
      let w : IsAccounted x n t = ground arith in
      ground (
        arith,
        failure-IsAccounted generation s v,
        start_write-IsAccounted t w,
        finish_shutdown-IsAccounted t w,
      )

  pub begin_shutdown-IsAccounted :
      (s : Impl) → IsAccounted x n s → IsAccounted x n (begin_shutdown s)
  unfolding begin_shutdown
  begin_shutdown-IsAccounted s v =
      let t : Impl = record s { stopping = true } in
      let w : IsAccounted x n t = ground arith in
      let u : Impl = record t { pending_writes = velocity_frame standstill ∷ [] } in
      let z : IsAccounted x n u = ground arith in
      ground (arith, finish_shutdown-IsAccounted t w, start_write-IsAccounted u z)

  pub on_stop_written-IsAccounted :
      (generation : ℕ) (error : Bool) (s : Impl)
      → IsAccounted x n s
      → IsAccounted x n (on_stop_written generation error s)
  unfolding on_stop_written
  on_stop_written-IsAccounted generation error s v =
      let t : Impl = record s { connected = true } in
      let w : IsAccounted x n t = ground arith in
      let t1 : Impl = queue_frame_on_io subscription_frame false false false t in
      let w1 = queue_frame-IsAccounted subscription_frame false false false t w in
      let w2 = queue_frame-IsAccounted boot_up_frame false false false t1 w1 in
      if_elim (IsAccounted x n) (not (generation == s.connection_generation)) _ _ (λ _. v)
        (λ _.
          if_elim (IsAccounted x n) error _ _ (λ _. failure-IsAccounted generation s v)
            (λ _.
              initial-IsAccounted true (queue_frame_on_io boot_up_frame false false false t1) w2))
