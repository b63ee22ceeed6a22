-- ===== src/Dog/AccountsRun.antt =====
-- dog_command_forwarder.cpp: the requests that were accepted, over any sequence of events.
use rtc_framework.Base.{
  ℕ, ◌+◌, ◌≡◌, refl, true, not, ◌&&◌, List, [], ◌∷◌, ◌++◌, ◌==◌, arith, if_elim, if◌then◌else◌,
  Bool-cases, inl, inr,
}
use rtc_framework.VehicleProtocol.Types.{VehicleErrorCode}
use rtc_framework.Dog.Types.{
  no_setup, begin_shutdown_task, velocity_task, behavior_task, Json, Impl, new_impl,
}
use rtc_framework.Dog.Connection.{
  failed, on_operation_timeout, on_reconnect_timeout, on_goal_timeout,
}
use rtc_framework.Dog.Incoming.{on_bytes}
use rtc_framework.Dog.Tasks.{
  enqueue_velocity_frame, enqueue_behavior_frame, stop_io, joined, start_io, run_next, Event,
  asks_velocity, asks_behavior, asks_stop, joins, runs_task, ends_setup, ends_write, receives,
  fails_read, times_out, times_out_goal, reconnects, ends_wait, happen, run_events,
}
use rtc_framework.Dog.Accounts.{one_if, answered, waiting, posted, IsAccounted, posted-append}
use rtc_framework.Dog.AccountsSteps.{
  complete-IsAccounted, finish_shutdown-IsAccounted, failure-IsAccounted, do_connect-IsAccounted,
  on_written-IsAccounted,
}
use rtc_framework.Dog.AccountsEvents.{
  IsNewTask, waiting-IsAccounted, run_from-IsAccounted, setup-IsAccounted,
}

-- A request that is accepted with the event.
abbrev pub newly_asked : ℕ → Event → Impl → ℕ
newly_asked x (asks_behavior frame goal id) s =
    one_if ((id == x) && (enqueue_behavior_frame frame goal id s).1)
newly_asked x _ s = 0

-- A request whose task is dropped with the event, since `Stop` is left with the task not run.
abbrev pub newly_dropped : ℕ → Event → Impl → ℕ
newly_dropped x joins s = if s.io_stopped && not s.running then posted x s.tasks else 0
newly_dropped x _ s = 0

-- A forwarder that has a callback and was started.
unfoldable pub started : Impl
unfolding start_io
started = start_io (record new_impl { has_completion = true })

-- The goal of a task that is run is not already pending.
abbrev pub IsNewGoal : Event → Impl → Type 0
IsNewGoal runs_task s = IsNewTask s.tasks s
IsNewGoal _ s = Unit {0}

module _ (json : Json) where
  abbrev pub accepted_asks : ℕ → List Event → Impl → ℕ
  accepted_asks x [] s = 0
  accepted_asks x (e ∷ es) s = newly_asked x e s + accepted_asks x es (happen json e s)

  abbrev pub dropped_asks : ℕ → List Event → Impl → ℕ
  dropped_asks x [] s = 0
  dropped_asks x (e ∷ es) s = newly_dropped x e s + dropped_asks x es (happen json e s)

  abbrev pub RunsNewGoals : List Event → Impl → Type 0
  RunsNewGoals [] s = Unit {0}
  RunsNewGoals (e ∷ es) s = IsNewGoal e s × RunsNewGoals es (happen json e s)

  -- So many requests are accounted for, but for those that are dropped.
  abbrev Counted : ℕ → ℕ → ℕ → Impl → Type 0
  Counted x n dropped s = (m : ℕ) × IsAccounted x m s × (m + dropped ≡ n)

  nothing_dropped : (x n : ℕ) (s : Impl) → IsAccounted x n s → Counted x n 0 s
  nothing_dropped x n s v = (n, v, omega arith)

  nothing_new : (x n : ℕ) (s : Impl) → IsAccounted x n s → Counted x (n + 0) 0 s
  nothing_new x n s v = nothing_dropped x (n + 0) s (ground arith)

  dropped_by_join :
      (x n : ℕ) (s : Impl)
      → IsAccounted x n s
      → Counted x (n + 0) (newly_dropped x joins s) (happen json joins s)
  unfolding happen joined
  dropped_by_join x n s v = elim (Bool-cases (s.io_stopped && not s.running)) [
    | inl ended ↦
        (answered x s.completions + waiting x s.pending_behavior_goals, ground arith, ground arith)
    | inr runs ↦ (n, ground arith, ground arith)
  ]

  -- What an event adds to the requests, and drops of them.
  happen-IsAccounted :
      (x n : ℕ) (e : Event) (s : Impl)
      → IsNewGoal e s
      → IsAccounted x n s
      → Counted x (n + newly_asked x e s) (newly_dropped x e s) (happen json e s)
  unfolding happen enqueue_velocity_frame enqueue_behavior_frame stop_io run_next on_bytes
      on_operation_timeout on_goal_timeout on_reconnect_timeout
  happen-IsAccounted x n (asks_velocity frame is_stop) s f v =
      nothing_dropped x _ _ (ground (arith, posted-append x s.tasks (velocity_task frame is_stop)))
  happen-IsAccounted x n (asks_behavior frame goal id) s f v =
      nothing_dropped x _ _ (ground (arith, posted-append x s.tasks (behavior_task frame goal id)))
  happen-IsAccounted x n asks_stop s f v =
      nothing_dropped x _ _ (ground (arith, posted-append x s.tasks begin_shutdown_task))
  happen-IsAccounted x n joins s f v = dropped_by_join x n s v
  happen-IsAccounted x n runs_task s f v =
      nothing_new x n _ (run_from-IsAccounted json x n s.tasks s f refl v)
  happen-IsAccounted x n (ends_setup ok) s f v =
      nothing_new x n _
        (setup-IsAccounted json x n s.stage ok (record s { stage = no_setup }) (ground arith))
  happen-IsAccounted x n (ends_write ok) s f v =
      nothing_dropped x _ _
        (ground (arith, on_written-IsAccounted x n s.connection_generation (not ok) s v))
  happen-IsAccounted x n (receives generation bytes) s f v = nothing_new x n _ (
      if_elim (IsAccounted x n) (not (generation == s.connection_generation)) _ _ (λ _. v)
        (λ _. waiting-IsAccounted json x n generation (s.incoming_buffer ++ bytes) s v))
  happen-IsAccounted x n (fails_read generation) s f v =
      nothing_new x n _ (failure-IsAccounted x n generation s v)
  happen-IsAccounted x n (times_out generation) s f v = nothing_new x n _ (
      if_elim (IsAccounted x n) (generation == s.connection_generation) _ _
        (λ _. failure-IsAccounted x n generation s v) (λ _. v))
  happen-IsAccounted x n (times_out_goal goal) s f v = nothing_new x n _ (
      complete-IsAccounted x n goal
        (failed VehicleErrorCode.internal "dog behavior result timed out") s v)
  happen-IsAccounted x n reconnects s f v = nothing_new x n _ (
      if_elim (IsAccounted x n) (s.running && not s.stopping) _ _
        (λ _. do_connect-IsAccounted x n s v) (λ _. v))
  happen-IsAccounted x n ends_wait s f v = nothing_new x n _ (finish_shutdown-IsAccounted x n s v)

  run_events-IsAccounted :
      (x n : ℕ) (es : List Event) (s : Impl)
      → RunsNewGoals es s
      → IsAccounted x n s
      → Counted x (n + accepted_asks x es s) (dropped_asks x es s) (run_events json es s)
  unfolding run_events
  run_events-IsAccounted x n [] s f v = nothing_new x n s v
  run_events-IsAccounted x n (e ∷ es) s f v =
      let (k, now, sum) = happen-IsAccounted x n e s f.0 v in
      let (m, last, sums) = run_events-IsAccounted x k es (happen json e s) f.1 now in
      (m, last, omega (arith, sum, sums))

  start-IsAccounted : (x : ℕ) → IsAccounted x 0 started
  unfolding start_io started
  start-IsAccounted x = record { heard = refl; distinct = tt; total = refl }

  -- From `Start` with a callback set, over any events in which no goal is registered while a goal of
  -- its id is pending: the calls of the callback for a request, the pending goals of it, the tasks that
  -- wait for it, and its tasks that were dropped because `Stop` was left before they ran, are together as
  -- many as the times it was accepted. So a request that is accepted once is answered at most once,
  -- and a request is lost only with a task that `Stop` drops.
  pub requests_accounted :
      (x : ℕ) (es : List Event)
      → RunsNewGoals es started
      → let s = run_events json es started in
        answered x s.completions
          + (waiting x s.pending_behavior_goals + posted x s.tasks)
          + dropped_asks x es started
        ≡ accepted_asks x es started
  requests_accounted x es f =
      let (m, last, sums) = run_events-IsAccounted x 0 es started f (start-IsAccounted x) in
      omega (arith, last.total, sums)
