-- ===== src/Dog/Priority.antt =====
-- dog_command_forwarder.cpp: which frame is written next, and which frames leave the queue.
use rtc_framework.Base.{
  ℕ, ◌≡◌, refl, true, false, List, [], ◌∷◌, ◌++◌, none, some, arith, if◌then◌else◌,
}
use rtc_framework.Base.Assoc.{lookup, insert, lookup-insert}
use rtc_framework.Dog.Types.{Frame, velocity_task, behavior_task, Json, Impl}
use rtc_framework.Dog.Connection.{start_write, replace_back, queued, queue_frame_on_io, on_written}
use rtc_framework.Dog.Tasks.{run_task, ends_write, happen}

replace_back-append :
    (f g : Frame) (frames : List Frame) → replace_back f (frames ++ g ∷ []) ≡ frames ++ f ∷ []
unfolding replace_back
replace_back-append f g [] = refl
replace_back-append f g (x ∷ []) = refl
replace_back-append f g (x ∷ y ∷ frames) = cc (replace_back-append f g (y ∷ frames))

module _ (s : Impl) (runs : s.running ≡ true) (on : s.connected ≡ true) (keeps : s.stopping ≡ false)
    (opens : s.socket_open ≡ true) where
  -- A goal that is registered is queued at the back and waits for its result.
  goal_queued :
      (goal_text : Frame) (goal id : ℕ) (active : Frame)
      → s.active_write ≡ some active
      → run_task (behavior_task goal_text goal id) s ≡ record s {
        pending_behavior_goals = insert goal id s.pending_behavior_goals;
        pending_writes = s.pending_writes ++ goal_text ∷ [];
      }
  unfolding run_task queue_frame_on_io start_write queued
  goal_queued goal_text goal id active a = ground arith

  -- While a frame is being written, a velocity that is not a stop takes the place of the behaviour
  -- goal that was queued before it: the goal is not written, and its request stays pending.
  pub velocity_drops_goal :
      (goal_text frame active : Frame) (goal id : ℕ)
      → s.active_write ≡ some active
      → let t =
          run_task (velocity_task frame false) (run_task (behavior_task goal_text goal id) s) in
        (t.pending_writes ≡ s.pending_writes ++ frame ∷ [])
        × ((t.wire ≡ s.wire) × (lookup goal t.pending_behavior_goals ≡ some id))
  unfolding run_task queue_frame_on_io start_write queued
  velocity_drops_goal goal_text frame active goal id a =
      rw (goal_queued goal_text goal id active a) (
        ground (
          arith,
          replace_back-append frame goal_text s.pending_writes,
          lookup-insert goal goal id s.pending_behavior_goals,
        ))

  -- A stop throws away what waits to be written. It is written at once if nothing is being written,
  -- and else as soon as the frame that is being written has been.
  pub stop_is_next :
      (json : Json) (frame : Frame)
      → let t = run_task (velocity_task frame true) s in
        let u =
          if elim s.active_write [ none ↦ true | some _ ↦ false ]
          then t
          else happen json (ends_write true) t in
        (u.wire ≡ frame ∷ s.wire) × (u.pending_writes ≡ [])
  unfolding run_task queue_frame_on_io start_write queued happen on_written
  stop_is_next json frame = ground arith
