-- ===== src/Packet/Depacketizer.antt =====
-- vtsrtc/src/packet/depacketizer.h and depacketizer.cpp. A read past the end of a packet, of a slot
-- that is not there, a copy past the end of the message, or an end of it that no slot fills is a
-- `fault`, where C++ has no defined behaviour; so is the test of the pointer of an error's buffer,
-- which the constructor leaves unset.
use rtc_framework.Base.{
  ℕ, ◌+◌, ◌-◌, ◌*◌, ◌/◌, ◌%◌, not, List, [], ◌∷◌, ◌++◌, Option, none, some, length, take, ltb, ◌==◌,
  if◌then◌else◌,
}
use rtc_framework.Base.Assoc.{lookup, insert, erase}
use rtc_framework.Packet.Types.{
  PackStatus, PackUserParams, Buffer, SafeQueue, empty_queue, push, pop_front, max_data_len,
}

-- The slots of one message: `std::map` from sub packet numbers to payloads, in the order of the keys.
abbrev pub Slots : Type 0
Slots = List (ℕ × List ℕ)

unfoldable pub put_slot : ℕ → List ℕ → Slots → Slots
put_slot k v [] = (k, v) ∷ []
put_slot k v ((j, w) ∷ m) =
    let rest = put_slot k v m in
    if j == k then (k, v) ∷ m else if ltb k j then (k, v) ∷ (j, w) ∷ m else (j, w) ∷ rest

pub record Depacketizer : Type 0 where
  pub version : ℕ
  pub main_packet_seq : ℕ
  pub total_sub_packet_numb : ℕ
  pub sub_packet_seq : ℕ
  pub payload_size : ℕ
  pub incomplete_packet : List (ℕ × Slots)
  pub depacketizer_queue : SafeQueue

abbrev pub new_depacketizer : Depacketizer
new_depacketizer = record {
  version = 1;
  main_packet_seq = 0;
  total_sub_packet_numb = 0;
  sub_packet_seq = 0;
  payload_size = 0;
  incomplete_packet = [];
  depacketizer_queue = empty_queue;
}

unfoldable pub combine : List ℕ → PackUserParams → Depacketizer → Depacketizer × PackStatus
unfolding push
combine bytes params p = (
  record p {
    depacketizer_queue = push (record { bytes = bytes; user_params = params }) p.depacketizer_queue;
  },
  PackStatus.pack_ok,
)

-- What `DoDepacketize` gives: the members it sets and the payload, an error buffer (the version is
-- set all the same), or a read past the end.
pub data Parsed : Type 0 where
  parsed : Depacketizer → List ℕ → Parsed
  refused : Depacketizer → Parsed
  overrun : Parsed

-- The payload is copied by the size that the header states.
abbrev pub take_payload : Depacketizer → List ℕ → Parsed
take_payload p body =
    if ltb (length body) p.payload_size then overrun else parsed p (take p.payload_size body)

-- The rest of the header, once the version is right.
unfoldable pub read_header : Depacketizer → ℕ → List ℕ → Parsed
read_header q size (b2 ∷ b3 ∷ b4 ∷ b5 ∷ b6 ∷ b7 ∷ body) =
    take_payload
      (record q {
        payload_size = size;
        total_sub_packet_numb = b2 * 256 + b3;
        main_packet_seq = b4 * 256 + b5;
        sub_packet_seq = b6 * 256 + b7;
      })
      body
read_header q size _ = overrun

unfoldable pub do_depacketize : List ℕ → Depacketizer → Parsed
unfolding read_header
do_depacketize [] p = refused p
do_depacketize (b0 ∷ []) p = overrun
do_depacketize (b0 ∷ b1 ∷ rest) p =
    let first_bit = b0 * 256 + b1 in
    let q = record p { version = first_bit / 16384 } in
    if not (first_bit / 16384 == 1) then refused q else read_header q (first_bit % 16384) rest

abbrev pub slots_of : ℕ → List (ℕ × Slots) → Slots
slots_of k m = elim (lookup k m) [ none ↦ [] | some slots ↦ slots ]

-- The payloads in the order of their numbers, one after the other.
unfoldable pub join : Slots → List ℕ
join [] = []
join ((k, v) ∷ m) = v ++ join m

-- A round of `Process`: it went on, with the message that it delivered, or it waits, or it faults.
pub data Round : Type 0 where
  went_on : Depacketizer → Option (List ℕ) → Round
  waits : Round
  faults : Round

-- The slots of a message are as many as its header announces: it is delivered and forgotten. Its
-- length is worked out from the number of sub packets and the payload of the last.
unfoldable pub complete : PackUserParams → Slots → Depacketizer → Round
complete params slots p = elim (lookup (length slots - 1) slots) [
  | none ↦ faults
  | some last ↦
      let total = p.total_sub_packet_numb * max_data_len - max_data_len + length last in
      let forgotten = record p {
        incomplete_packet = erase p.main_packet_seq p.incomplete_packet;
      } in
      if not (length (join slots) == total)
      then faults
      else went_on forgotten (if params.has_data_cb then some (join slots) else none)
]

-- What a payload that was parsed does: it is stored, and the message is delivered if that was the
-- last one missing.
unfoldable pub store : PackUserParams → List ℕ → Depacketizer → Round
unfolding complete
store params payload p =
    let slots =
      put_slot p.sub_packet_seq payload (slots_of p.main_packet_seq p.incomplete_packet) in
    let q = record p { incomplete_packet = insert p.main_packet_seq slots p.incomplete_packet } in
    if length slots == p.total_sub_packet_numb then complete params slots q else went_on q none

-- The pointer of an error's buffer is compared with null, and was never set.
unfoldable pub process_buffer : Buffer → SafeQueue → Depacketizer → Round
process_buffer b rest p = elim (do_depacketize b.bytes p) [
  | overrun ↦ faults
  | refused q ↦ faults
  | parsed q payload ↦ elim (store b.user_params payload q) [
    | went_on r delivered ↦ went_on (record r { depacketizer_queue = rest }) delivered
    | waits ↦ waits
    | faults ↦ faults
  ]
]

unfoldable pub process_round : Depacketizer → Round
unfolding process_buffer
process_round p = elim (pop_front p.depacketizer_queue) [
  | none ↦ waits
  | some (b, rest) ↦ process_buffer b rest p
]
