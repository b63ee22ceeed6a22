-- ===== src/Dog/StopFirstRun.antt =====
-- dog_command_forwarder.cpp: the order of what is written, over any sequence of events.
use rtc_framework.Base.{
  ℕ, zero, suc, ◌≡◌, refl, Bool, true, false, not, ◌&&◌, ◌||◌, List, [], ◌∷◌, ◌++◌, Option, none,
  some, ◌==◌, length, arith, if_elim, if◌then◌else◌,
}
use rtc_framework.Base.Assoc.{insert}
use rtc_framework.Dog.Types.{
  pong_frame, Stage, no_setup, connecting, handshaking, stop_writing, Task, do_connect_task,
  begin_shutdown_task, velocity_task, behavior_task, Json, Impl, new_impl,
}
use rtc_framework.Dog.Connection.{on_operation_timeout, on_reconnect_timeout, on_goal_timeout}
use rtc_framework.Dog.Incoming.{
  Reading, need_more, broken, got, read_frame, on_behavior_result, on_reading, handle_incoming_text,
  handle_frame, begin_read_frame, on_bytes, on_connection_stop_written,
}
use rtc_framework.Dog.Tasks.{
  enqueue_velocity_frame, enqueue_behavior_frame, stop_io, joined, start_io, run_task, run_from,
  run_next, Event, asks_velocity, asks_behavior, asks_stop, joins, runs_task, ends_setup,
  ends_write, receives, fails_read, times_out, times_out_goal, reconnects, ends_wait, end_setup,
  happen, run_events,
}
use rtc_framework.Dog.Notices.{notify_keeps, complete_keeps}
use rtc_framework.Dog.StopFirst.{
  has_frames, still_first, IsStopFirst, queue_frame-IsStopFirst, finish_shutdown-IsStopFirst,
  failure-IsStopFirst, do_connect-IsStopFirst, on_connected-IsStopFirst, on_handshake-IsStopFirst,
  on_written-IsStopFirst, begin_shutdown-IsStopFirst, on_stop_written-IsStopFirst,
}

start-IsStopFirst : IsStopFirst (start_io new_impl)
unfolding start_io still_first
start-IsStopFirst = ground arith

module _ (json : Json) where
  result-IsStopFirst :
      (r : Option (ℕ × ℕ)) (s : Impl) → IsStopFirst s → IsStopFirst (on_behavior_result json r s)
  unfolding on_behavior_result
  result-IsStopFirst none s v = v
  result-IsStopFirst (some (goal, status)) s v =
      complete_keeps IsStopFirst goal _ s (λ c goals. ground arith)

  handle_frame-IsStopFirst :
      (generation opcode : ℕ) (payload : List ℕ) (s : Impl)
      → s.connected ≡ true
      → IsStopFirst s
      → IsStopFirst (handle_frame json generation opcode payload s)
  unfolding handle_frame handle_incoming_text
  handle_frame-IsStopFirst generation opcode payload s c v =
      if_elim IsStopFirst (opcode == 8) _ _ (λ _. failure-IsStopFirst generation s v)
        (λ _.
          if_elim IsStopFirst (opcode == 9) _ _
            (λ _.
              queue_frame-IsStopFirst (pong_frame payload) false false true s (v.connected_wrote c)
                v)
            (λ _.
              if_elim IsStopFirst (opcode == 1) _ _
                (λ _. result-IsStopFirst (json.behavior_result payload) s v) (λ _. v)))

  reading-IsStopFirst :
      (next : Impl → Impl) (generation : ℕ) (r : Reading) (s : Impl)
      → ((t : Impl) → IsStopFirst t → IsStopFirst (next t))
      → s.connected ≡ true
      → IsStopFirst s
      → IsStopFirst (on_reading json next generation r s)
  unfolding on_reading
  reading-IsStopFirst next generation need_more s h c v = ground arith
  reading-IsStopFirst next generation broken s h c v = failure-IsStopFirst generation s v
  reading-IsStopFirst next generation (got opcode payload rest) s h c v = h _ (
      handle_frame-IsStopFirst generation opcode payload
        (record s { incoming_buffer = rest; reading = false }) c (ground arith))

  begin_read-IsStopFirst :
      (fuel generation : ℕ) (s : Impl)
      → IsStopFirst s
      → IsStopFirst (begin_read_frame json fuel generation s)
  unfolding begin_read_frame
  begin_read-IsStopFirst zero generation s v = v
  begin_read-IsStopFirst (suc fuel) generation s v =
      if_elim IsStopFirst
        (not (generation == s.connection_generation) || (not s.connected || s.stopping)) _ _
        (λ _. v)
        (λ on.
          if_elim IsStopFirst (not s.socket_open) _ _ (λ _. failure-IsStopFirst generation s v)
            (λ _.
              reading-IsStopFirst (begin_read_frame json fuel generation) generation
                (read_frame s.incoming_buffer) s (begin_read-IsStopFirst fuel generation)
                (ground arith) v))

  -- More bytes are in the buffer.
  waiting-IsStopFirst :
      (generation : ℕ) (bytes : List ℕ) (s : Impl)
      → IsStopFirst s
      → let t : Impl = record s { incoming_buffer = bytes } in
        IsStopFirst (
          if not s.reading
          then t
          else on_reading json
              (begin_read_frame json (suc (length bytes)) generation)
              generation
              (read_frame bytes)
              t)
  waiting-IsStopFirst generation bytes s v =
      let t : Impl = record s { incoming_buffer = bytes } in
      let w : IsStopFirst t = ground arith in
      if_elim IsStopFirst (not s.reading) _ _ (λ _. w)
        (λ on.
          reading-IsStopFirst (begin_read_frame json (suc (length bytes)) generation) generation
            (read_frame bytes) t (begin_read-IsStopFirst (suc (length bytes)) generation)
            (v.reading_connected (ground arith)) w)

  task-IsStopFirst : (task : Task) (s : Impl) → IsStopFirst s → IsStopFirst (run_task task s)
  unfolding run_task
  task-IsStopFirst do_connect_task s v = do_connect-IsStopFirst s v
  task-IsStopFirst begin_shutdown_task s v = begin_shutdown-IsStopFirst s v
  task-IsStopFirst (velocity_task frame is_stop) s v =
      if_elim IsStopFirst (not s.running || (not s.connected || s.stopping)) _ _ (λ _. v)
        (λ on. queue_frame-IsStopFirst frame (not is_stop) is_stop false s (ground arith) v)
  task-IsStopFirst (behavior_task frame goal id) s v =
      if_elim IsStopFirst (not s.running || (not s.connected || (s.stopping || not s.socket_open)))
        _ _ (λ _. notify_keeps IsStopFirst id _ s (λ c. ground arith))
        (λ on.
          queue_frame-IsStopFirst frame false false false
            (record s { pending_behavior_goals = insert goal id s.pending_behavior_goals })
            (ground arith) (ground arith))

  run_from-IsStopFirst :
      (tasks : List Task) (s : Impl) → IsStopFirst s → IsStopFirst (run_from tasks s)
  unfolding run_from
  run_from-IsStopFirst [] s v = v
  run_from-IsStopFirst (task ∷ rest) s v =
      if_elim IsStopFirst s.io_stopped _ _ (λ _. v)
        (λ _. task-IsStopFirst task (record s { tasks = rest }) (ground arith))

  setup-IsStopFirst :
      (stage : Stage) (ok : Bool) (s : Impl)
      → s.stage ≡ stage
      → IsStopFirst s
      → IsStopFirst (end_setup json stage ok (record s { stage = no_setup }))
  unfolding end_setup on_connection_stop_written
  setup-IsStopFirst no_setup ok s e v = ground arith
  setup-IsStopFirst (connecting generation) ok s e v =
      on_connected-IsStopFirst generation (not ok) (record s { stage = no_setup }) (ground arith)
        (ground arith)
  setup-IsStopFirst (handshaking generation) ok s e v =
      on_handshake-IsStopFirst generation ok (record s { stage = no_setup }) (ground arith)
        (ground arith)
  setup-IsStopFirst (stop_writing generation) ok s e v =
      begin_read-IsStopFirst (suc (length s.incoming_buffer)) generation _ (
        on_stop_written-IsStopFirst generation (not ok) (record s { stage = no_setup })
          (ground arith) (ground arith) (ground arith))

  pub happen-IsStopFirst : (e : Event) (s : Impl) → IsStopFirst s → IsStopFirst (happen json e s)
  unfolding happen enqueue_velocity_frame enqueue_behavior_frame stop_io joined run_next on_bytes
      on_operation_timeout on_goal_timeout on_reconnect_timeout
  happen-IsStopFirst (asks_velocity frame is_stop) s v = ground arith
  happen-IsStopFirst (asks_behavior frame goal id) s v = ground arith
  happen-IsStopFirst asks_stop s v = ground arith
  happen-IsStopFirst joins s v = ground arith
  happen-IsStopFirst runs_task s v = run_from-IsStopFirst s.tasks s v
  happen-IsStopFirst (ends_setup ok) s v = setup-IsStopFirst s.stage ok s refl v
  happen-IsStopFirst (ends_write ok) s v =
      ground (arith, on_written-IsStopFirst s.connection_generation (not ok) s v)
  happen-IsStopFirst (receives generation bytes) s v =
      if_elim IsStopFirst (not (generation == s.connection_generation)) _ _ (λ _. v)
        (λ _. waiting-IsStopFirst generation (s.incoming_buffer ++ bytes) s v)
  happen-IsStopFirst (fails_read generation) s v = failure-IsStopFirst generation s v
  happen-IsStopFirst (times_out generation) s v =
      if_elim IsStopFirst (generation == s.connection_generation) _ _
        (λ _. failure-IsStopFirst generation s v) (λ _. v)
  happen-IsStopFirst (times_out_goal goal) s v =
      complete_keeps IsStopFirst goal _ s (λ c goals. ground arith)
  happen-IsStopFirst reconnects s v =
      if_elim IsStopFirst (s.running && not s.stopping) _ _ (λ _. do_connect-IsStopFirst s v)
        (λ _. v)
  happen-IsStopFirst ends_wait s v = finish_shutdown-IsStopFirst s v

  run_events-IsStopFirst :
      (es : List Event) (s : Impl) → IsStopFirst s → IsStopFirst (run_events json es s)
  unfolding run_events
  run_events-IsStopFirst [] s v = v
  run_events-IsStopFirst (e ∷ es) s v =
      run_events-IsStopFirst es (happen json e s) (happen-IsStopFirst e s v)

  -- Whatever happens after `Start`, the first frame that is written on a connection is the zero
  -- velocity, and a forwarder that is connected has written it on a socket that is open.
  pub zero_velocity_first :
      (es : List Event)
      → let s = run_events json es (start_io new_impl) in
        (still_first s.wire ≡ true)
        × (s.connected ≡ true → (has_frames s.wire ≡ true) × (s.socket_open ≡ true))
  zero_velocity_first es =
      ground (arith, run_events-IsStopFirst es (start_io new_impl) start-IsStopFirst)
