-- ===== src/Dog/Braking.antt =====
-- dog_command_forwarder.cpp: a brake, from the caller to the socket.
use rtc_framework.Base.{
  ℕ, ◌≡◌, Bool, true, false, [], ◌∷◌, Option, none, some, arith, if◌then◌else◌,
}
use rtc_framework.Base.Float32.{Float, zero_f, le_float}
use rtc_framework.VehicleProtocol.Types.{DriveCommand}
use rtc_framework.Dog.Types.{standstill, Frame, velocity_frame, Task, velocity_task, Json, Impl}
use rtc_framework.Dog.Tasks.{run_from, run_next, runs_task, ends_write, happen}
use rtc_framework.Dog.Priority.{stop_is_next}
use rtc_framework.Dog.Forward.{Forwarder, send_drive_command}
use rtc_framework.Dog.ForwardLaws.{IsOpen, brake_stops}

-- The io thread runs the next task, and the frame that is then being written, if one was, has been.
abbrev pub is_writing : Option Frame → Bool
is_writing none = false
is_writing (some frame) = true

unfoldable pub runs_and_writes : Json → Impl → Impl
unfolding happen
runs_and_writes json s =
    let t = happen json runs_task s in
    if is_writing s.active_write then happen json (ends_write true) t else t

-- On an open forwarder that is not being stopped and has no task to run, a command that brakes has put
-- the zero velocity on the socket, and nothing but what was being written before it, once its task has
-- run and that write has ended. Nothing is then left to write.
pub brake_is_written :
    (json : Json) (mul : Float → Float → Float) (now : ℕ) (c : DriveCommand) (f : Forwarder)
    → le_float c.brake zero_f ≡ false
    → IsOpen f
    → f.impl.socket_open ≡ true
    → f.impl.stopping ≡ false
    → f.impl.io_stopped ≡ false
    → f.impl.tasks ≡ []
    → let s = runs_and_writes json (send_drive_command mul now c f).0.impl in
      (s.wire ≡ velocity_frame standstill ∷ f.impl.wire) × (s.pending_writes ≡ [])
unfolding runs_and_writes happen run_next run_from
brake_is_written json mul now c f b o opens keeps runs none_left =
    let sent = brake_stops mul now c f b o in
    let stop : Task = velocity_task (velocity_frame standstill) true in
    let written =
      stop_is_next (record f.impl { tasks = [] }) o.0 o.1.0 keeps opens json
        (velocity_frame standstill) in
    rw (sent.1, none_left) (ground (arith, written))
