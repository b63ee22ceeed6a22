-- ===== src/Packet/Packetizer.antt =====
-- vtsrtc/src/packet/packetizer.h and packetizer.cpp. A call of `packet_cb` is an item of the list of
-- packets that an operation gives, oldest first. `Process` is one step of its loop at a time, run by
-- its thread between the calls of others.
use Prim.Native.Nat.{bit_or}
use rtc_framework.Base.{
  ℕ, zero, suc, ◌+◌, ◌*◌, ◌/◌, ◌%◌, not, ◌||◌, List, [], ◌∷◌, Option, none, some, length, take,
  drop, ltb, ◌==◌, u16, if◌then◌else◌,
}
use rtc_framework.Packet.Types.{
  PackStatus, PackUserParams, Buffer, SafeQueue, buffer_size, empty_queue, push, pop_front, be16,
  max_data_len, max_send_queue_capacity,
}

pub record Packetizer : Type 0 where
  pub version : ℕ
  pub payload_size : ℕ
  pub total_sub_packet_numb : ℕ
  pub main_packet_seq : ℕ
  pub sub_packet_seq : ℕ
  pub total_payload_size : ℕ
  pub packetizer_queue : SafeQueue
  pub resend_queue : SafeQueue

abbrev pub new_packetizer : Packetizer
new_packetizer = record {
  version = 1;
  payload_size = 0;
  total_sub_packet_numb = 0;
  main_packet_seq = 0;
  sub_packet_seq = 0;
  total_payload_size = 0;
  packetizer_queue = empty_queue;
  resend_queue = empty_queue;
}

unfoldable pub split : List ℕ → PackUserParams → Packetizer → Packetizer × PackStatus
unfolding push
split bytes params p =
    if ltb p.packetizer_queue.capacity max_send_queue_capacity
    then (
      record p {
        packetizer_queue = push (record { bytes = bytes; user_params = params }) p.packetizer_queue;
      },
      PackStatus.pack_ok,
    )
    else (p, PackStatus.pack_send_queue_full)

unfoldable pub resend : List ℕ → PackUserParams → Packetizer → Packetizer × PackStatus
unfolding push
resend bytes params p =
    if ltb p.resend_queue.capacity max_send_queue_capacity
    then (
      record p {
        resend_queue = push (record { bytes = bytes; user_params = params }) p.resend_queue;
      },
      PackStatus.pack_ok,
    )
    else (p, PackStatus.pack_send_queue_full)

-- The packet of a slice, or `none` for the result -1.
unfoldable pub do_packetize : Packetizer → List ℕ → Option (List ℕ)
do_packetize p slice =
    if ltb max_data_len (length slice) || length slice == 0
    then none
    else some (
        be16 (u16 (bit_or (p.version * 16384) (length slice)))
          (be16 p.total_sub_packet_numb (be16 p.main_packet_seq (be16 p.sub_packet_seq slice))))

-- The packet of a slice goes to the callback, if there is one.
abbrev pub emit : PackUserParams → Packetizer → List ℕ → List (List ℕ) → List (List ℕ)
emit params p slice rest = elim (do_packetize p slice) [
  | none ↦ rest
  | some packet ↦ if params.has_packet_cb then packet ∷ rest else rest
]

-- What a round of the loop does to the members.
abbrev pub next_sub : ℕ → Packetizer → Packetizer
next_sub size p = record p { payload_size = size; sub_packet_seq = u16 (p.sub_packet_seq + 1) }

-- `while (len > 0)`, with fuel: the length of the data, which falls in each round.
unfoldable pub send_slices : ℕ → PackUserParams → List ℕ → Packetizer → Packetizer × List (List ℕ)
send_slices zero params bytes p = (p, [])
send_slices (suc fuel) params bytes p =
    let slice = take max_data_len bytes in
    let sized = record p { payload_size = max_data_len } in
    let later = send_slices fuel params (drop max_data_len bytes) (next_sub max_data_len p) in
    let (q, packets) = later in
    if length bytes == 0
    then (p, [])
    else if ltb (length bytes) max_data_len
    then (next_sub (length bytes) p, emit params p bytes [])
    else (q, emit params sized slice packets)

-- The number of sub packets of a message of this length.
unfoldable pub sub_packet_numb : ℕ → ℕ
sub_packet_numb len =
    u16 (if not (len % max_data_len == 0) then len / max_data_len + 1 else len / max_data_len)

-- `SendPacket` on the buffer that was taken from the queue.
unfoldable pub send_buffer : Buffer → Packetizer → Packetizer × List (List ℕ)
send_buffer b p =
    let (q, packets) = send_slices (buffer_size b) b.user_params b.bytes (record p {
      total_sub_packet_numb = sub_packet_numb (buffer_size b);
      total_payload_size = buffer_size b;
    }) in
    (
      record q {
        payload_size = 0;
        sub_packet_seq = 0;
        main_packet_seq = u16 (q.main_packet_seq + 1);
      },
      packets,
    )

unfoldable pub send_packet : Packetizer → Packetizer × List (List ℕ)
send_packet p = elim (pop_front p.packetizer_queue) [
  | none ↦ (p, [])
  | some (b, rest) ↦ send_buffer b (record p { packetizer_queue = rest })
]

-- A resent packet goes out as it is.
unfoldable pub resend_packet : Packetizer → Packetizer × List (List ℕ)
resend_packet p = elim (pop_front p.resend_queue) [
  | none ↦ (p, [])
  | some (b, rest) ↦
      (record p { resend_queue = rest }, if b.user_params.has_packet_cb then b.bytes ∷ [] else [])
]

-- One round of `Process`: the resend queue comes first; with both empty it waits.
unfoldable pub process_round : Packetizer → Packetizer × List (List ℕ)
unfolding resend_packet send_packet
process_round p = elim p.resend_queue.items [ _ ∷ _ ↦ resend_packet p | [] ↦ send_packet p ]
