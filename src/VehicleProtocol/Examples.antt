-- ===== src/VehicleProtocol/Examples.antt =====
-- A nanopb of numbers for the tests: a field is one number, and is cut to its width when read. It
-- meets the laws of `Nanopb`, so the theorems of the protocol apply to it.
use rtc_framework.Base.{
  ℕ, zero, suc, ◌≡◌, refl, subst, Bool, true, false, List, [], ◌∷◌, arith, u32, u64,
}
use rtc_framework.VehicleProtocol.Pb.{
  PbPayload, PbEnvelope, PbResult, Nanopb, NanopbLaws, HeaderIsFull, IsFull, PayloadFits, Fits64,
}

abbrev nth : List ℕ → ℕ → ℕ
nth [] i = 0
nth (x ∷ xs) zero = x
nth (x ∷ xs) (suc i) = nth xs i

abbrev bit : Bool → ℕ
bit true = 1
bit false = 0

abbrev flag : ℕ → Bool
flag zero = false
flag (suc n) = true

abbrev write_payload : PbPayload → List ℕ
write_payload PbPayload.no_payload = 0 ∷ []
write_payload (PbPayload.drive_command p) =
    1
    ∷ bit p.has_drive_direction
    ∷ p.drive_direction
    ∷ bit p.has_steering_direction
    ∷ p.steering_direction
    ∷ bit p.has_throttle
    ∷ p.throttle
    ∷ bit p.has_brake
    ∷ p.brake
    ∷ []
write_payload (PbPayload.set_gear p) =
    2 ∷ bit p.has_request_id ∷ p.request_id ∷ bit p.has_gear ∷ p.gear ∷ []
write_payload (PbPayload.event_ack p) =
    3
    ∷ bit p.has_request_id
    ∷ p.request_id
    ∷ bit p.has_accepted
    ∷ bit p.accepted
    ∷ bit p.has_error_code
    ∷ p.error_code
    ∷ bit p.has_active_gear
    ∷ p.active_gear
    ∷ []
write_payload (PbPayload.vehicle_state p) =
    4
    ∷ bit p.has_active_gear
    ∷ p.active_gear
    ∷ bit p.has_last_received_drive_seq
    ∷ p.last_received_drive_seq
    ∷ bit p.has_watchdog_stopped
    ∷ bit p.watchdog_stopped
    ∷ []
write_payload (PbPayload.dog_action p) =
    5
    ∷ bit p.has_request_id
    ∷ p.request_id
    ∷ bit p.has_action
    ∷ p.action
    ∷ bit p.has_speed
    ∷ p.speed
    ∷ []

abbrev read_payload : ℕ → List ℕ → PbPayload
read_payload (suc zero) l = PbPayload.drive_command (record {
  has_drive_direction = flag (nth l 0);
  drive_direction = u32 (nth l 1);
  has_steering_direction = flag (nth l 2);
  steering_direction = u32 (nth l 3);
  has_throttle = flag (nth l 4);
  throttle = u32 (nth l 5);
  has_brake = flag (nth l 6);
  brake = u32 (nth l 7);
})
read_payload (suc (suc zero)) l = PbPayload.set_gear (record {
  has_request_id = flag (nth l 0);
  request_id = u64 (nth l 1);
  has_gear = flag (nth l 2);
  gear = u32 (nth l 3);
})
read_payload (suc (suc (suc zero))) l = PbPayload.event_ack (record {
  has_request_id = flag (nth l 0);
  request_id = u64 (nth l 1);
  has_accepted = flag (nth l 2);
  accepted = flag (nth l 3);
  has_error_code = flag (nth l 4);
  error_code = u32 (nth l 5);
  has_active_gear = flag (nth l 6);
  active_gear = u32 (nth l 7);
})
read_payload (suc (suc (suc (suc zero)))) l = PbPayload.vehicle_state (record {
  has_active_gear = flag (nth l 0);
  active_gear = u32 (nth l 1);
  has_last_received_drive_seq = flag (nth l 2);
  last_received_drive_seq = u64 (nth l 3);
  has_watchdog_stopped = flag (nth l 4);
  watchdog_stopped = flag (nth l 5);
})
read_payload (suc (suc (suc (suc (suc zero))))) l = PbPayload.dog_action (record {
  has_request_id = flag (nth l 0);
  request_id = u64 (nth l 1);
  has_action = flag (nth l 2);
  action = u32 (nth l 3);
  has_speed = flag (nth l 4);
  speed = u32 (nth l 5);
})
read_payload _ l = PbPayload.no_payload

abbrev rest : ℕ → List ℕ → List ℕ
rest zero xs = xs
rest (suc n) [] = []
rest (suc n) (x ∷ xs) = rest n xs

abbrev write_envelope : PbEnvelope → List ℕ
write_envelope e =
    bit e.has_magic
    ∷ e.magic
    ∷ bit e.has_protocol_major
    ∷ e.protocol_major
    ∷ bit e.has_protocol_minor
    ∷ e.protocol_minor
    ∷ bit e.has_type
    ∷ e.type
    ∷ bit e.has_seq
    ∷ e.seq
    ∷ write_payload e.payload

abbrev read_envelope : List ℕ → PbEnvelope
read_envelope l = record {
  has_magic = flag (nth l 0);
  magic = u32 (nth l 1);
  has_protocol_major = flag (nth l 2);
  protocol_major = u32 (nth l 3);
  has_protocol_minor = flag (nth l 4);
  protocol_minor = u32 (nth l 5);
  has_type = flag (nth l 6);
  type = u32 (nth l 7);
  has_seq = flag (nth l 8);
  seq = u64 (nth l 9);
  payload = read_payload (nth l 10) (rest 11 l);
}

abbrev pub numbers : Nanopb
numbers = record {
  encode = λ e. PbResult.done (write_envelope e);
  decode = λ l. PbResult.done (read_envelope l);
}

read-write_payload :
    (p : PbPayload)
    → IsFull p
    → read_payload (nth (write_payload p) 0) (rest 1 (write_payload p)) ≡ p
read-write_payload PbPayload.no_payload f = refl
read-write_payload (PbPayload.drive_command p) f = ground arith
read-write_payload (PbPayload.set_gear p) f = ground arith
read-write_payload (PbPayload.event_ack p) f = ground arith
read-write_payload (PbPayload.vehicle_state p) f = ground arith
read-write_payload (PbPayload.dog_action p) f = ground arith

read-write_envelope :
    (e : PbEnvelope) → HeaderIsFull e → IsFull e.payload → read_envelope (write_envelope e) ≡ e
read-write_envelope e h f = ground (arith, read-write_payload e.payload f)

read_payload-PayloadFits : (n : ℕ) (l : List ℕ) → PayloadFits (read_payload n l)
read_payload-PayloadFits zero l = tt
read_payload-PayloadFits (suc zero) l = (omega arith, omega arith)
read_payload-PayloadFits (suc (suc zero)) l = omega arith
read_payload-PayloadFits (suc (suc (suc zero))) l = omega arith
read_payload-PayloadFits (suc (suc (suc (suc zero)))) l = omega arith
read_payload-PayloadFits (suc (suc (suc (suc (suc zero))))) l = (omega arith, omega arith)
read_payload-PayloadFits (suc (suc (suc (suc (suc (suc n)))))) l = tt

pub numbers-NanopbLaws : NanopbLaws numbers
numbers-NanopbLaws = record {
  decode-encode = λ e bytes h f q. cc (q, read-write_envelope e h f);
  encode-ne-nil = λ e bytes h q n. cc;
  encode_error_text = λ e text q. cc;
  decode_fits = λ bytes e q. subst Fits (read_is bytes q) (fits bytes);
}
  where
    Fits : PbEnvelope → Type 0
    Fits e = Fits64 e.seq × PayloadFits e.payload

    read_is :
        (bytes : List ℕ) {e : PbEnvelope}
        → numbers.decode bytes ≡ PbResult.done e
        → read_envelope bytes ≡ e
    read_is bytes q = cc

    fits : (bytes : List ℕ) → Fits (read_envelope bytes)
    fits bytes = (omega arith, read_payload-PayloadFits (nth bytes 10) (rest 11 bytes))
