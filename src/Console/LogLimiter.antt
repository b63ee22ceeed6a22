-- ===== src/Console/LogLimiter.antt =====
-- client/apps/rtc_console/vehicle_state_log_limiter.cpp. A point of time is a number.
use rtc_framework.Base.{
  ℕ, ◌+◌, ◌≤◌, ◌≡◌, Bool, true, false, not, ◌||◌, List, Option, none, some, ltb, leb, ◌==◌, arith,
  if◌then◌else◌,
}
use rtc_framework.Base.Assoc.{lookup, insert, lookup-insert}

pub record SessionState : Type 0 where
  pub active_gear : ℕ
  pub watchdog_stopped : Bool
  pub last_logged_at : ℕ

pub record VehicleStateLogLimiter : Type 0 where
  pub interval : ℕ
  pub session_states : List (ℕ × SessionState)

abbrev pub same_bool : Bool → Bool → Bool
same_bool true b = b
same_bool false b = not b

-- A state that is due at the time of the new one: it differs, or was logged too long ago.
abbrev pub is_due : ℕ → SessionState → SessionState → Bool
is_due interval old now =
    (not (old.active_gear == now.active_gear)
      || not (same_bool old.watchdog_stopped now.watchdog_stopped))
    || (ltb now.last_logged_at old.last_logged_at
        || leb (old.last_logged_at + interval) now.last_logged_at)

unfoldable pub due : ℕ → Option SessionState → SessionState → Bool
due interval none now = true
due interval (some old) now = is_due interval old now

-- `ShouldLog`, for a state that is received now.
unfoldable pub should_log :
    ℕ → SessionState → VehicleStateLogLimiter → VehicleStateLogLimiter × Bool
unfolding due
should_log session now l =
    let due_now = due l.interval (lookup session l.session_states) now in
    (
      if due_now then record l { session_states = insert session now l.session_states } else l,
      due_now,
    )

-- A state that was just logged is not logged again unchanged before the interval has passed, and is
-- logged when it has.
pub logged_again :
    (session later : ℕ) (now : SessionState) (l : VehicleStateLogLimiter)
    → now.last_logged_at ≤ later
    → (should_log session now l).1 ≡ true
    → (should_log session (record now { last_logged_at = later }) (should_log session now l).0).1
      ≡ leb (now.last_logged_at + l.interval) later
unfolding should_log due
logged_again session later now l h k =
    ground (arith, lookup-insert session session now l.session_states)
