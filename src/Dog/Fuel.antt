-- ===== src/Dog/Fuel.antt =====
-- dog_command_forwarder.cpp: reading frames until the buffer holds none, with any fuel.
use rtc_framework.Base.{
  ℕ, zero, suc, ◌<◌, ◌≡◌, refl, Bool, true, false, not, ◌||◌, String, ◌==◌, length, arith,
}
use rtc_framework.VehicleProtocol.Types.{VehicleErrorCode}
use rtc_framework.Dog.Types.{Json, Impl}
use rtc_framework.Dog.Connection.{
  fail_pending_behavior_goals, finish_shutdown, disconnected, drop_connection,
  handle_connection_failure,
}
use rtc_framework.Dog.Incoming.{
  Reading, need_more, broken, got, read_frame, on_reading, begin_read_frame,
}
use rtc_framework.Dog.Notices.{fail_pending_keeps}
use rtc_framework.Dog.Buffer.{handle_frame-with_buffer}
use rtc_framework.Dog.Readings.{Shortens, read_frame-Shortens}

fail_pending_generation :
    (code : VehicleErrorCode) (text : String) (s : Impl)
    → (fail_pending_behavior_goals code text s).connection_generation ≡ s.connection_generation
fail_pending_generation code text s =
    fail_pending_keeps (λ t. t.connection_generation ≡ s.connection_generation) code text s
      (λ c. refl)

-- A failure of the current connection makes another one current.
pub failure_stale :
    (generation : ℕ) (s : Impl)
    → (generation == s.connection_generation) ≡ true
    → (generation == (handle_connection_failure generation s).connection_generation) ≡ false
unfolding handle_connection_failure drop_connection finish_shutdown
failure_stale generation s e =
    let text : String = "rosbridge connection lost before dog action completed" in
    ground (
      arith,
      fail_pending_generation VehicleErrorCode.invalid_state text (disconnected s),
      fail_pending_generation VehicleErrorCode.invalid_state
          "dog command forwarder stopped before action completed"
          (record (disconnected (drop_connection s)) { shutdown_finished = true }),
    )

module _ (json : Json) (generation : ℕ) where
  -- Reading goes on: not this, and on an open socket.
  abbrev pub pauses : Impl → Bool
  pauses s = not (generation == s.connection_generation) || (not s.connected || s.stopping)

  pub begin_paused :
      (fuel : ℕ) (s : Impl) → pauses s ≡ true → begin_read_frame json fuel generation s ≡ s
  unfolding begin_read_frame
  begin_paused zero s e = refl
  begin_paused (suc fuel) s e = rw e refl

  pub begin_closed :
      (fuel : ℕ) (s : Impl)
      → pauses s ≡ false
      → s.socket_open ≡ false
      → begin_read_frame json (suc fuel) generation s ≡ handle_connection_failure generation s
  unfolding begin_read_frame
  begin_closed fuel s e c = rw (e, c) refl

  pub begin_reading :
      (fuel : ℕ) (s : Impl)
      → pauses s ≡ false
      → s.socket_open ≡ true
      → begin_read_frame json (suc fuel) generation s
        ≡ on_reading json
            (begin_read_frame json fuel generation)
            generation
            (read_frame s.incoming_buffer)
            s
  unfolding begin_read_frame
  begin_reading fuel s e c = rw (e, c) refl

  pub reading_agree :
      (next other : Impl → Impl) (r : Reading) (s : Impl) (n : ℕ)
      → Shortens n r
      → ((t : Impl) → length t.incoming_buffer < n → next t ≡ other t)
      → on_reading json next generation r s ≡ on_reading json other generation r s
  unfolding on_reading
  reading_agree next other need_more s n h k = refl
  reading_agree next other broken s n h k = refl
  reading_agree next other (got opcode payload rest) s n h k =
      rw
        (handle_frame-with_buffer rest json generation opcode payload
          (record s { reading = false }))
        (k _ h)

  -- Any fuel above the length of the buffer gives the same.
  pub fuel_enough :
      (f g : ℕ) (s : Impl)
      → length s.incoming_buffer < f
      → length s.incoming_buffer < g
      → begin_read_frame json f generation s ≡ begin_read_frame json g generation s
  unfolding begin_read_frame
  fuel_enough zero g s h k = absurd (omega (arith, h))
  fuel_enough (suc f) zero s h k = absurd (omega (arith, k))
  fuel_enough (suc f) (suc g) s h k =
      let rest =
        reading_agree (begin_read_frame json f generation) (begin_read_frame json g generation)
          (read_frame s.incoming_buffer) s (length s.incoming_buffer)
          (read_frame-Shortens s.incoming_buffer)
          (λ t l. fuel_enough f g t (omega (arith, l, h)) (omega (arith, l, k))) in
      rw rest refl
