-- ===== src/Dog/AccountsEvents.antt =====
-- dog_command_forwarder.cpp: what a frame, a task or the set-up does with the requests.
use rtc_framework.Base.{
  ℕ, zero, suc, ◌≡◌, Bool, true, false, not, ◌||◌, List, [], ◌∷◌, Option, none, some, ◌==◌, length,
  arith, if_elim, if◌then◌else◌,
}
use rtc_framework.Base.Assoc.{lookup, insert}
use rtc_framework.Dog.Types.{
  pong_frame, Stage, no_setup, connecting, handshaking, stop_writing, Task, do_connect_task,
  begin_shutdown_task, velocity_task, behavior_task, Json, Impl,
}
use rtc_framework.Dog.Connection.{notify_dog_action_completion}
use rtc_framework.Dog.Incoming.{
  Reading, need_more, broken, got, read_frame, on_behavior_result, on_reading, handle_incoming_text,
  behavior_outcome, handle_frame, begin_read_frame, on_connection_stop_written,
}
use rtc_framework.Dog.Tasks.{run_task, run_from, end_setup}
use rtc_framework.Dog.Accounts.{IsAccounted, insert-AreDistinct, waiting-insert}
use rtc_framework.Dog.AccountsSteps.{
  complete-IsAccounted, queue_frame-IsAccounted, failure-IsAccounted, do_connect-IsAccounted,
  on_connected-IsAccounted, on_handshake-IsAccounted, begin_shutdown-IsAccounted,
  on_stop_written-IsAccounted,
}

-- The goal of a task that is run is not already pending.
abbrev pub IsNewTask : List Task → Impl → Type 0
IsNewTask (behavior_task frame goal id ∷ tasks) s = lookup goal s.pending_behavior_goals ≡ none
IsNewTask _ s = Unit {0}

module _ (json : Json) (x n : ℕ) where
  result-IsAccounted :
      (r : Option (ℕ × ℕ)) (s : Impl)
      → IsAccounted x n s
      → IsAccounted x n (on_behavior_result json r s)
  unfolding on_behavior_result
  result-IsAccounted none s v = v
  result-IsAccounted (some (goal, status)) s v =
      complete-IsAccounted x n goal (behavior_outcome json status) s v

  handle_frame-IsAccounted :
      (generation opcode : ℕ) (payload : List ℕ) (s : Impl)
      → IsAccounted x n s
      → IsAccounted x n (handle_frame json generation opcode payload s)
  unfolding handle_frame handle_incoming_text
  handle_frame-IsAccounted generation opcode payload s v =
      if_elim (IsAccounted x n) (opcode == 8) _ _ (λ _. failure-IsAccounted x n generation s v)
        (λ _.
          if_elim (IsAccounted x n) (opcode == 9) _ _
            (λ _. queue_frame-IsAccounted x n (pong_frame payload) false false true s v)
            (λ _.
              if_elim (IsAccounted x n) (opcode == 1) _ _
                (λ _. result-IsAccounted (json.behavior_result payload) s v) (λ _. v)))

  reading-IsAccounted :
      (next : Impl → Impl) (generation : ℕ) (r : Reading) (s : Impl)
      → ((t : Impl) → IsAccounted x n t → IsAccounted x n (next t))
      → IsAccounted x n s
      → IsAccounted x n (on_reading json next generation r s)
  unfolding on_reading
  reading-IsAccounted next generation need_more s h v = ground arith
  reading-IsAccounted next generation broken s h v = failure-IsAccounted x n generation s v
  reading-IsAccounted next generation (got opcode payload rest) s h v = h _ (
      handle_frame-IsAccounted generation opcode payload
        (record s { incoming_buffer = rest; reading = false }) (ground arith))

  pub begin_read-IsAccounted :
      (fuel generation : ℕ) (s : Impl)
      → IsAccounted x n s
      → IsAccounted x n (begin_read_frame json fuel generation s)
  unfolding begin_read_frame
  begin_read-IsAccounted zero generation s v = v
  begin_read-IsAccounted (suc fuel) generation s v =
      if_elim (IsAccounted x n)
        (not (generation == s.connection_generation) || (not s.connected || s.stopping)) _ _
        (λ _. v)
        (λ on.
          if_elim (IsAccounted x n) (not s.socket_open) _ _
            (λ _. failure-IsAccounted x n generation s v)
            (λ _.
              reading-IsAccounted (begin_read_frame json fuel generation) generation
                (read_frame s.incoming_buffer) s (begin_read-IsAccounted fuel generation) v))

  -- More bytes are in the buffer.
  pub waiting-IsAccounted :
      (generation : ℕ) (bytes : List ℕ) (s : Impl)
      → IsAccounted x n s
      → let t : Impl = record s { incoming_buffer = bytes } in
        IsAccounted x n (
          if not s.reading
          then t
          else on_reading json
              (begin_read_frame json (suc (length bytes)) generation)
              generation
              (read_frame bytes)
              t)
  waiting-IsAccounted generation bytes s v =
      let t : Impl = record s { incoming_buffer = bytes } in
      let w : IsAccounted x n t = ground arith in
      if_elim (IsAccounted x n) (not s.reading) _ _ (λ _. w)
        (λ _.
          reading-IsAccounted (begin_read_frame json (suc (length bytes)) generation) generation
            (read_frame bytes) t (begin_read-IsAccounted (suc (length bytes)) generation) w)

  -- The task has been taken from the queue.
  task-IsAccounted :
      (task : Task) (rest : List Task) (s : Impl)
      → IsNewTask (task ∷ rest) s
      → s.tasks ≡ task ∷ rest
      → IsAccounted x n s
      → IsAccounted x n (run_task task (record s { tasks = rest }))
  unfolding run_task notify_dog_action_completion
  task-IsAccounted do_connect_task rest s f e v =
      do_connect-IsAccounted x n (record s { tasks = rest }) (ground arith)
  task-IsAccounted begin_shutdown_task rest s f e v =
      begin_shutdown-IsAccounted x n (record s { tasks = rest }) (ground arith)
  task-IsAccounted (velocity_task frame is_stop) rest s f e v =
      let t : Impl = record s { tasks = rest } in
      let w : IsAccounted x n t = ground arith in
      if_elim (IsAccounted x n) (not s.running || (not s.connected || s.stopping)) _ _ (λ _. w)
        (λ on. queue_frame-IsAccounted x n frame (not is_stop) is_stop false t w)
  task-IsAccounted (behavior_task frame goal id) rest s f e v =
      if_elim (IsAccounted x n)
        (not s.running || (not s.connected || (s.stopping || not s.socket_open))) _ _
        (λ on. ground arith)
        (λ on.
          queue_frame-IsAccounted x n frame false false false
            (record s {
              tasks = rest;
              pending_behavior_goals = insert goal id s.pending_behavior_goals;
            })
            (ground (
              arith,
              insert-AreDistinct goal id s.pending_behavior_goals,
              waiting-insert x goal id s.pending_behavior_goals,
            )))

  pub run_from-IsAccounted :
      (tasks : List Task) (s : Impl)
      → IsNewTask tasks s
      → s.tasks ≡ tasks
      → IsAccounted x n s
      → IsAccounted x n (run_from tasks s)
  unfolding run_from
  run_from-IsAccounted [] s f e v = v
  run_from-IsAccounted (task ∷ rest) s f e v =
      if_elim (IsAccounted x n) s.io_stopped _ _ (λ _. v) (λ _. task-IsAccounted task rest s f e v)

  pub setup-IsAccounted :
      (stage : Stage) (ok : Bool) (s : Impl)
      → IsAccounted x n s
      → IsAccounted x n (end_setup json stage ok s)
  unfolding end_setup on_connection_stop_written
  setup-IsAccounted no_setup ok s v = v
  setup-IsAccounted (connecting generation) ok s v =
      on_connected-IsAccounted x n generation (not ok) s v
  setup-IsAccounted (handshaking generation) ok s v = on_handshake-IsAccounted x n generation ok s v
  setup-IsAccounted (stop_writing generation) ok s v =
      begin_read-IsAccounted (suc (length s.incoming_buffer)) generation _
        (on_stop_written-IsAccounted x n generation (not ok) s v)
