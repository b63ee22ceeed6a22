-- ===== src/Dog/Incoming.antt =====
-- dog_command_forwarder.cpp: the frames that come in. The bytes that have arrived and are not yet read
-- are the buffer; a read that asks for more waits.
use Prim.Native.String.{◌++◌ as str_append}
use rtc_framework.Base.{
  ℕ, zero, suc, ◌+◌, ◌*◌, ◌/◌, ◌%◌, Bool, true, false, not, ◌||◌, List, [], ◌∷◌, ◌++◌, Option, none,
  some, length, take, drop, ltb, leb, ◌==◌, if◌then◌else◌,
}
use rtc_framework.VehicleProtocol.Types.{VehicleErrorCode}
use rtc_framework.VehicleModule.State.{VehicleCommandResult}
use rtc_framework.Dog.Types.{pong_frame, Json, Impl}
use rtc_framework.Dog.Connection.{
  handle_connection_failure, complete_behavior_goal, queue_frame_on_io, on_stop_written,
}

abbrev pub max_incoming_frame_size : ℕ
max_incoming_frame_size = 65536

-- What the bytes in the buffer are: not yet a frame, no frame that is accepted, or an opcode and a
-- payload with the bytes after them.
pub data Reading : Type 0 where
  need_more broken : Reading
  got : ℕ → List ℕ → List ℕ → Reading

unfoldable pub read_frame_payload : ℕ → ℕ → List ℕ → Reading
read_frame_payload opcode size bytes =
    if ltb max_incoming_frame_size size
    then broken
    else if ltb (length bytes) size
    then need_more
    else got opcode (take size bytes) (drop size bytes)

abbrev pub big_endian : ℕ → List ℕ → ℕ
big_endian acc [] = acc
big_endian acc (b ∷ bytes) = big_endian (acc * 256 + b) bytes

unfoldable pub read_extended : ℕ → ℕ → List ℕ → Reading
unfolding read_frame_payload
read_extended count opcode bytes =
    if ltb (length bytes) count
    then need_more
    else if ltb max_incoming_frame_size (big_endian 0 (take count bytes))
    then broken
    else read_frame_payload opcode (big_endian 0 (take count bytes)) (drop count bytes)

unfoldable pub read_frame : List ℕ → Reading
unfolding read_frame_payload read_extended
read_frame (b0 ∷ b1 ∷ bytes) =
    if b1 / 128 % 2 == 1
    then broken
    else if leb (b1 % 128) 125
    then read_frame_payload (b0 % 16) (b1 % 128) bytes
    else read_extended (if b1 % 128 == 126 then 2 else 8) (b0 % 16) bytes
read_frame _ = need_more

module _ (json : Json) where
  -- The status 3 is success.
  abbrev pub behavior_outcome : ℕ → VehicleCommandResult
  behavior_outcome status = record {
    accepted = status == 3;
    completion_pending = false;
    error_code = if status == 3 then VehicleErrorCode.no_error else VehicleErrorCode.internal;
    detail =
        if status == 3
        then ""
        else str_append "dog behavior action failed with status " (json.to_string status);
  }

  unfoldable pub on_behavior_result : Option (ℕ × ℕ) → Impl → Impl
  on_behavior_result none s = s
  on_behavior_result (some (goal, status)) s =
      complete_behavior_goal goal (behavior_outcome status) s

  unfoldable pub handle_incoming_text : List ℕ → Impl → Impl
  unfolding on_behavior_result
  handle_incoming_text payload s = on_behavior_result (json.behavior_result payload) s

  unfoldable pub handle_frame : ℕ → ℕ → List ℕ → Impl → Impl
  unfolding handle_incoming_text
  handle_frame generation opcode payload s =
      if opcode == 8
      then handle_connection_failure generation s
      else if opcode == 9
      then queue_frame_on_io (pong_frame payload) false false true s
      else if opcode == 1
      then handle_incoming_text payload s
      else s

  -- What a reading does, once `BeginReadFrame` has begun it: it waits for more bytes, whatever happens
  -- meanwhile, or ends; `next` is `BeginReadFrame` again.
  unfoldable pub on_reading : (Impl → Impl) → ℕ → Reading → Impl → Impl
  unfolding handle_frame
  on_reading next generation need_more s = record s { reading = true }
  on_reading next generation broken s = handle_connection_failure generation s
  on_reading next generation (got opcode payload rest) s = next (
      handle_frame generation opcode payload (record s { incoming_buffer = rest; reading = false }))

  -- `BeginReadFrame`, again after each frame, with fuel: the length of the buffer, which falls.
  unfoldable pub begin_read_frame : ℕ → ℕ → Impl → Impl
  unfolding on_reading
  begin_read_frame zero generation s = s
  begin_read_frame (suc fuel) generation s =
      let reading = read_frame s.incoming_buffer in
      if not (generation == s.connection_generation) || (not s.connected || s.stopping)
      then s
      else if not s.socket_open
      then handle_connection_failure generation s
      else on_reading (begin_read_frame fuel generation) generation reading s

  -- Bytes that come while nothing is being read stay where they are.
  unfoldable pub on_bytes : ℕ → List ℕ → Impl → Impl
  unfolding begin_read_frame
  on_bytes generation bytes s =
      let t = record s { incoming_buffer = s.incoming_buffer ++ bytes } in
      if not (generation == s.connection_generation)
      then s
      else if not s.reading
      then t
      else on_reading (begin_read_frame (suc (length t.incoming_buffer)) generation) generation
          (read_frame t.incoming_buffer) t

  -- The connection is set up, and reading begins.
  unfoldable pub on_connection_stop_written : ℕ → Bool → Impl → Impl
  unfolding on_stop_written begin_read_frame
  on_connection_stop_written generation error s =
      begin_read_frame (suc (length s.incoming_buffer)) generation
        (on_stop_written generation error s)
