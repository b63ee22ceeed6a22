-- ===== src/VehicleProtocol/Pb.antt =====
-- client/protocols/vehicle/generated/rtc_vehicle.pb.h: the structs that nanopb fills. An enum of C
-- is a number here, since a decoded field may hold any. A union with its tag `which_payload` is one
-- data type. `pb_encode` and `pb_decode` belong to nanopb: they are the interface `Nanopb`.
use rtc_framework.Base.{
  ℕ, Bool, true, false, String, List, [], ◌<◌, ◌≡◌, ◌≢◌, refl, ◌⊎◌, inl, inr, is_empty,
}
use rtc_framework.Base.Float32.{Float}

pub record PbDriveCommand : Type 0 where
  pub has_drive_direction : Bool
  pub drive_direction : ℕ
  pub has_steering_direction : Bool
  pub steering_direction : ℕ
  pub has_throttle : Bool
  pub throttle : Float
  pub has_brake : Bool
  pub brake : Float

pub record PbSetGear : Type 0 where
  pub has_request_id : Bool
  pub request_id : ℕ
  pub has_gear : Bool
  pub gear : ℕ

pub record PbDogAction : Type 0 where
  pub has_request_id : Bool
  pub request_id : ℕ
  pub has_action : Bool
  pub action : ℕ
  pub has_speed : Bool
  pub speed : Float

pub record PbEventAck : Type 0 where
  pub has_request_id : Bool
  pub request_id : ℕ
  pub has_accepted : Bool
  pub accepted : Bool
  pub has_error_code : Bool
  pub error_code : ℕ
  pub has_active_gear : Bool
  pub active_gear : ℕ

pub record PbState : Type 0 where
  pub has_active_gear : Bool
  pub active_gear : ℕ
  pub has_last_received_drive_seq : Bool
  pub last_received_drive_seq : ℕ
  pub has_watchdog_stopped : Bool
  pub watchdog_stopped : Bool

pub data PbPayload : Type 0 where
  no_payload : PbPayload
  drive_command : PbDriveCommand → PbPayload
  set_gear : PbSetGear → PbPayload
  event_ack : PbEventAck → PbPayload
  vehicle_state : PbState → PbPayload
  dog_action : PbDogAction → PbPayload

pub record PbEnvelope : Type 0 where
  pub has_magic : Bool
  pub magic : ℕ
  pub has_protocol_major : Bool
  pub protocol_major : ℕ
  pub has_protocol_minor : Bool
  pub protocol_minor : ℕ
  pub has_type : Bool
  pub type : ℕ
  pub has_seq : Bool
  pub seq : ℕ
  pub payload : PbPayload

-- What a call of nanopb gives: its result, or the text of `PB_GET_ERROR`.
pub data PbResult (A : Type 0) : Type 0 where
  done : A → PbResult A
  failed : String → PbResult A

pub PbResult-cases :
    {A : Type 0} (r : PbResult A)
    → ((a : A) × (r ≡ PbResult.done a)) ⊎ ((text : String) × (r ≡ PbResult.failed text))
PbResult-cases (PbResult.done a) = inl (a, refl)
PbResult-cases (PbResult.failed text) = inr (text, refl)

pub record Nanopb : Type 0 where
  pub encode : PbEnvelope → PbResult (List ℕ)
  pub decode : List ℕ → PbResult PbEnvelope

-- The widths of the C types: `uint32_t`, the enums and `float`; `uint64_t`.
abbrev pub Fits32 : ℕ → Type 0
Fits32 n = n < 4294967296

abbrev pub Fits64 : ℕ → Type 0
Fits64 n = n < 18446744073709551616

-- Every optional field of the message is present, and every value is one of its C type.
abbrev pub IsFull : PbPayload → Type 0
IsFull PbPayload.no_payload = Unit {0}
IsFull (PbPayload.drive_command p) =
    (p.has_drive_direction ≡ true)
    × (p.has_steering_direction ≡ true)
    × (p.has_throttle ≡ true)
    × (p.has_brake ≡ true)
    × Fits32 p.drive_direction
    × Fits32 p.steering_direction
    × Fits32 p.throttle
    × Fits32 p.brake
IsFull (PbPayload.set_gear p) =
    (p.has_request_id ≡ true) × (p.has_gear ≡ true) × Fits64 p.request_id × Fits32 p.gear
IsFull (PbPayload.event_ack p) =
    (p.has_request_id ≡ true)
    × (p.has_accepted ≡ true)
    × (p.has_error_code ≡ true)
    × (p.has_active_gear ≡ true)
    × Fits64 p.request_id
    × Fits32 p.error_code
    × Fits32 p.active_gear
IsFull (PbPayload.vehicle_state p) =
    (p.has_active_gear ≡ true)
    × (p.has_last_received_drive_seq ≡ true)
    × (p.has_watchdog_stopped ≡ true)
    × Fits32 p.active_gear
    × Fits64 p.last_received_drive_seq
IsFull (PbPayload.dog_action p) =
    (p.has_request_id ≡ true)
    × (p.has_action ≡ true)
    × (p.has_speed ≡ true)
    × Fits64 p.request_id
    × Fits32 p.action
    × Fits32 p.speed

pub record HeaderIsFull (e : PbEnvelope) : Type 0 where
  pub magic_present : e.has_magic ≡ true
  pub major_present : e.has_protocol_major ≡ true
  pub minor_present : e.has_protocol_minor ≡ true
  pub type_present : e.has_type ≡ true
  pub seq_present : e.has_seq ≡ true
  pub magic_fits : Fits32 e.magic
  pub major_fits : Fits32 e.protocol_major
  pub minor_fits : Fits32 e.protocol_minor
  pub type_fits : Fits32 e.type
  pub seq_fits : Fits64 e.seq

-- The values that a decoded payload holds are of their C types.
abbrev pub PayloadFits : PbPayload → Type 0
PayloadFits PbPayload.no_payload = Unit {0}
PayloadFits (PbPayload.drive_command p) = Fits32 p.throttle × Fits32 p.brake
PayloadFits (PbPayload.set_gear p) = Fits64 p.request_id
PayloadFits (PbPayload.event_ack p) = Fits64 p.request_id
PayloadFits (PbPayload.vehicle_state p) = Fits64 p.last_received_drive_seq
PayloadFits (PbPayload.dog_action p) = Fits64 p.request_id × Fits32 p.speed

-- What nanopb documents and the codec relies on: a message whose fields are all present is written
-- to at least one byte and read back as it was, an error has a text, and a
-- decoded value is one of its C type.
pub record NanopbLaws (pb : Nanopb) : Type 0 where
  pub decode-encode :
      (e : PbEnvelope) (bytes : List ℕ)
      → HeaderIsFull e
      → IsFull e.payload
      → pb.encode e ≡ PbResult.done bytes
      → pb.decode bytes ≡ PbResult.done e
  pub encode-ne-nil :
      (e : PbEnvelope) (bytes : List ℕ)
      → HeaderIsFull e
      → pb.encode e ≡ PbResult.done bytes
      → bytes ≢ []
  pub encode_error_text :
      (e : PbEnvelope) (text : String) → pb.encode e ≡ PbResult.failed text → is_empty text ≡ false
  pub decode_fits :
      (bytes : List ℕ) (e : PbEnvelope)
      → pb.decode bytes ≡ PbResult.done e
      → Fits64 e.seq × PayloadFits e.payload
