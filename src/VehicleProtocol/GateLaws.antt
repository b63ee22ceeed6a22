-- ===== src/VehicleProtocol/GateLaws.antt =====
-- vehicle_control_protocol.cpp: what the methods of `DriveCommandGate` accept, and its flags.
use rtc_framework.Base.{
  ℕ, ◌+◌, ◌<◌, ◌≡◌, ◌↔◌, ◌⊎◌, Bool, true, false, not, List, [], ◌∷◌, Option, none, some,
  if◌then◌else◌, arith,
}
use rtc_framework.VehicleProtocol.Types.{DriveCommand, DriveReceiveStatus}
use rtc_framework.VehicleProtocol.Validate.{validate_drive_command}
use rtc_framework.VehicleProtocol.Gate.{
  DriveCommandGate, new_gate, start_gate, stop_gate, poll_watchdog, accept_drive, recover_drive,
}

-- The gate is waiting or running, never both, and its watchdog has a period.
pub record GateIsValid (g : DriveCommandGate) : Type 0 where
  pub stopped_iff : g.watchdog_stopped ≡ not g.started
  pub period : 0 < g.watchdog_ms

-- `seq` was not seen: nothing was received, or it is past the last number.
abbrev pub IsFresh : ℕ → DriveCommandGate → Type 0
IsFresh seq g = (g.has_received_drive ≡ false) ⊎ (g.last_received_seq < seq)

-- The watchdog has not run out at `now` (nor has it where the clock went back).
abbrev pub IsTimely : ℕ → DriveCommandGate → Type 0
IsTimely now g = (now < g.last_valid_command_ms) ⊎ (now < g.last_valid_command_ms + g.watchdog_ms)

-- A running gate accepts a command exactly when the watchdog has not run out, the number is fresh
-- and the command is valid.
pub accept_drive_iff :
    (seq : ℕ) (c : DriveCommand) (now : ℕ) (g : DriveCommandGate)
    → ((accept_drive seq c now g).1.status ≡ DriveReceiveStatus.accepted) ↔ (
        (g.started ≡ true)
        × IsTimely now g
        × IsFresh seq g
        × ((validate_drive_command c).valid ≡ true))
unfolding accept_drive
accept_drive_iff seq c now g = ground arith

-- A stopped gate recovers exactly on a fresh number with a valid command.
pub recover_drive_iff :
    (seq : ℕ) (c : DriveCommand) (now : ℕ) (g : DriveCommandGate)
    → ((recover_drive seq c now g).1.status ≡ DriveReceiveStatus.accepted) ↔ (
        (g.started ≡ false)
        × (g.watchdog_stopped ≡ true)
        × IsFresh seq g
        × ((validate_drive_command c).valid ≡ true))
unfolding recover_drive
recover_drive_iff seq c now g = ground arith

-- After a poll a running gate is timely, and a gate that was running and is not was out of time.
pub poll_watchdog-IsTimely :
    (now : ℕ) (g : DriveCommandGate)
    → ((poll_watchdog now g).0.started ≡ true) ↔ ((g.started ≡ true) × IsTimely now g)
unfolding poll_watchdog
poll_watchdog-IsTimely now g = ground arith

-- The calls that a session makes of the gate after `Start`.
pub data GateCall : Type 0 where
  accepts recovers : ℕ → DriveCommand → ℕ → GateCall
  polls : ℕ → GateCall
  stops : GateCall

abbrev is_accepted : DriveReceiveStatus → Bool
is_accepted DriveReceiveStatus.accepted = true
is_accepted _ = false

-- The gate after a call, and the number that the call accepted.
call : GateCall → DriveCommandGate → DriveCommandGate × Option ℕ
call (accepts seq c now) g =
    let (g', r) = accept_drive seq c now g in (g', if is_accepted r.status then some seq else none)
call (recovers seq c now) g =
    let (g', r) = recover_drive seq c now g in (g', if is_accepted r.status then some seq else none)
call (polls now) g = ((poll_watchdog now g).0, none)
call stops g = (stop_gate g, none)

abbrev prepend : Option ℕ → List ℕ → List ℕ
prepend none ns = ns
prepend (some n) ns = n ∷ ns

-- The numbers that a list of calls accepted, oldest first.
pub accepted_seqs : List GateCall → DriveCommandGate → List ℕ
accepted_seqs [] g = []
accepted_seqs (c ∷ cs) g = let (g', n) = call c g in prepend n (accepted_seqs cs g')

pub run_gate : List GateCall → DriveCommandGate → DriveCommandGate
run_gate [] g = g
run_gate (c ∷ cs) g = run_gate cs (call c g).0

-- The numbers rise strictly, and the first is past what the gate has seen.
abbrev Rising : ℕ → List ℕ → Type 0
Rising n [] = Unit {0}
Rising n (m ∷ ms) = (n < m) × Rising m ms

abbrev pub RisingFrom : DriveCommandGate → List ℕ → Type 0
RisingFrom g [] = Unit {0}
RisingFrom g (m ∷ ms) = IsFresh m g × Rising m ms

call-GateIsValid : (c : GateCall) (g : DriveCommandGate) → GateIsValid g → GateIsValid (call c g).0
unfolding call accept_drive recover_drive poll_watchdog stop_gate
call-GateIsValid (accepts seq c now) g v = ground arith
call-GateIsValid (recovers seq c now) g v = ground arith
call-GateIsValid (polls now) g v = ground arith
call-GateIsValid stops g v = ground arith

-- What a call does to the memory of the gate: nothing, or one more number that was fresh.
abbrev Moves : DriveCommandGate → DriveCommandGate → Option ℕ → Type 0
Moves g g' none =
    (g'.has_received_drive ≡ g.has_received_drive) × (g'.last_received_seq ≡ g.last_received_seq)
Moves g g' (some n) = IsFresh n g × (g'.has_received_drive ≡ true) × (g'.last_received_seq ≡ n)

call-Moves : (c : GateCall) (g : DriveCommandGate) → Moves g (call c g).0 (call c g).1
unfolding call accept_drive recover_drive poll_watchdog stop_gate
call-Moves (accepts seq c now) g = ground arith
call-Moves (recovers seq c now) g = ground arith
call-Moves (polls now) g = ground arith
call-Moves stops g = ground arith

prepend-RisingFrom :
    (g g' : DriveCommandGate) (n : Option ℕ) (ns : List ℕ)
    → Moves g g' n
    → RisingFrom g' ns
    → RisingFrom g (prepend n ns)
prepend-RisingFrom g g' none [] m r = tt
prepend-RisingFrom g g' none (k ∷ ns) m r = ground arith
prepend-RisingFrom g g' (some n) [] m r = (m.0, tt)
prepend-RisingFrom g g' (some n) (k ∷ ns) m r = ground arith

-- Whatever a session calls, the numbers that it accepts rise strictly, from past what was received
-- before: no command is accepted twice or out of order, across watchdog stops and recoveries too.
pub accepted_seqs-RisingFrom :
    (cs : List GateCall) (g : DriveCommandGate) → RisingFrom g (accepted_seqs cs g)
unfolding accepted_seqs
accepted_seqs-RisingFrom [] g = tt
accepted_seqs-RisingFrom (c ∷ cs) g =
    prepend-RisingFrom g (call c g).0 (call c g).1 (accepted_seqs cs (call c g).0) (call-Moves c g)
      (accepted_seqs-RisingFrom cs (call c g).0)

new_gate-GateIsValid : (ms : ℕ) → GateIsValid (new_gate ms)
unfolding new_gate
new_gate-GateIsValid ms = ground arith

pub start_gate-GateIsValid :
    (now : ℕ) (g : DriveCommandGate) → GateIsValid g → GateIsValid (start_gate now g)
unfolding start_gate
start_gate-GateIsValid now g v = ground arith

run_gate-GateIsValid :
    (cs : List GateCall) (g : DriveCommandGate) → GateIsValid g → GateIsValid (run_gate cs g)
unfolding run_gate
run_gate-GateIsValid [] g v = v
run_gate-GateIsValid (c ∷ cs) g v = run_gate-GateIsValid cs (call c g).0 (call-GateIsValid c g v)

-- A gate that was started and then used in any way is stopped or running, with the flag that
-- `Recover` reads saying which, and keeps a positive watchdog period.
pub session-GateIsValid :
    (ms now : ℕ) (cs : List GateCall) → GateIsValid (run_gate cs (start_gate now (new_gate ms)))
session-GateIsValid ms now cs =
    run_gate-GateIsValid cs _ (start_gate-GateIsValid now _ (new_gate-GateIsValid ms))
