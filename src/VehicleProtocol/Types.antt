-- ===== src/VehicleProtocol/Types.antt =====
-- client/protocols/vehicle/include/rtc_vehicle_protocol/vehicle_control_protocol.h: the data.
-- An `enum class` over uint32_t may hold a value that no enumerator names: `unlisted`.
use rtc_framework.Base.{ℕ, Bool, true, false, String, List, is_empty}
use rtc_framework.Base.Float32.{Float, zero_f}

abbrev pub vehicle_control_channel_label : String
vehicle_control_channel_label = "vehicle.control.v1"

abbrev pub vehicle_event_channel_label : String
vehicle_event_channel_label = "vehicle.event.v1"

abbrev pub vehicle_state_channel_label : String
vehicle_state_channel_label = "vehicle.state.v1"

abbrev pub vehicle_control_magic : ℕ
vehicle_control_magic = 0x314c4356

abbrev pub protocol_major_version : ℕ
protocol_major_version = 1

abbrev pub protocol_minor_version : ℕ
protocol_minor_version = 0

abbrev pub default_drive_watchdog_ms : ℕ
default_drive_watchdog_ms = 300

pub data MessageType : Type 0 where
  unknown drive_command set_gear event_ack vehicle_state dog_action : MessageType

pub data DriveDirection : Type 0 where
  stop forward reverse : DriveDirection
  unlisted : ℕ → DriveDirection

pub data SteeringDirection : Type 0 where
  center left right : SteeringDirection
  unlisted : ℕ → SteeringDirection

pub data VehicleGear : Type 0 where
  neutral forward reverse : VehicleGear
  unlisted : ℕ → VehicleGear

pub data VehicleErrorCode : Type 0 where
  no_error invalid_argument invalid_state internal : VehicleErrorCode
  unlisted : ℕ → VehicleErrorCode

pub data DogActionType : Type 0 where
  unknown lateral_left lateral_right lateral_stop stand lie_down : DogActionType
  unlisted : ℕ → DogActionType

pub data DecodeStatus : Type 0 where
  decode_ok empty_payload decode_failed invalid_envelope : DecodeStatus
  unsupported_protocol unexpected_payload invalid_field : DecodeStatus

pub record DriveCommand : Type 0 where
  pub drive_direction : DriveDirection
  pub steering_direction : SteeringDirection
  pub throttle : Float
  pub brake : Float

pub record SetGear : Type 0 where
  pub request_id : ℕ
  pub gear : VehicleGear

pub record DogAction : Type 0 where
  pub request_id : ℕ
  pub action : DogActionType
  pub speed : Float

pub record EventAck : Type 0 where
  pub request_id : ℕ
  pub accepted : Bool
  pub error_code : VehicleErrorCode
  pub active_gear : VehicleGear

pub record VehicleState : Type 0 where
  pub active_gear : VehicleGear
  pub last_received_drive_seq : ℕ
  pub watchdog_stopped : Bool

pub record Envelope : Type 0 where
  pub seq : ℕ
  pub type : MessageType
  pub drive_command : DriveCommand
  pub set_gear : SetGear
  pub dog_action : DogAction
  pub event_ack : EventAck
  pub vehicle_state : VehicleState

-- The member initialisers of the structs.
abbrev pub default_envelope : Envelope
default_envelope = record {
  seq = 0;
  type = MessageType.unknown;
  drive_command = record {
    drive_direction = DriveDirection.stop;
    steering_direction = SteeringDirection.center;
    throttle = zero_f;
    brake = zero_f;
  };
  set_gear = record { request_id = 0; gear = VehicleGear.neutral };
  dog_action = record { request_id = 0; action = DogActionType.unknown; speed = zero_f };
  event_ack = record {
    request_id = 0;
    accepted = false;
    error_code = VehicleErrorCode.no_error;
    active_gear = VehicleGear.neutral;
  };
  vehicle_state = record {
    active_gear = VehicleGear.neutral;
    last_received_drive_seq = 0;
    watchdog_stopped = false;
  };
}

pub record EncodeResult : Type 0 where
  pub payload : List ℕ
  pub error_message : String

-- `explicit operator bool` of the result types.
abbrev pub encoded_ok : EncodeResult → Bool
encoded_ok r = is_empty r.error_message

pub record DecodeResult : Type 0 where
  pub status : DecodeStatus
  pub envelope : Envelope
  pub error_message : String

abbrev pub status_ok : DecodeStatus → Bool
status_ok DecodeStatus.decode_ok = true
status_ok _ = false

abbrev pub decoded_ok : DecodeResult → Bool
decoded_ok r = status_ok r.status

pub record ValidationResult : Type 0 where
  pub valid : Bool
  pub error_message : String

pub data DriveReceiveStatus : Type 0 where
  accepted not_started duplicate_or_out_of_order invalid_command watchdog_expired :
      DriveReceiveStatus

pub record DriveReceiveResult : Type 0 where
  pub status : DriveReceiveStatus
  pub should_stop : Bool
  pub error_message : String
