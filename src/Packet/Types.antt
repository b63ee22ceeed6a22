-- ===== src/Packet/Types.antt =====
-- vtsrtc/src/packet: packtype.h, buffer.h and squeue.h. Bytes are numbers below 256. A `malloc` is
-- taken to succeed; the members that the constructors leave unset are not modelled.
use rtc_framework.Base.{
  ℕ, ◌+◌, ◌-◌, ◌/◌, ◌%◌, Bool, List, [], ◌∷◌, ◌++◌, Option, none, some, length,
}

abbrev pub max_packet_size : ℕ
max_packet_size = 1170

abbrev pub protocol_header_len : ℕ
protocol_header_len = 8

abbrev pub max_data_len : ℕ
max_data_len = 1162

-- 64 * 1024 * 1024
abbrev pub max_send_queue_capacity : ℕ
max_send_queue_capacity = 67108864

pub data PackStatus : Type 0 where
  pack_ok pack_send_queue_full pack_input_empty_buffer pack_empty_buffer : PackStatus

-- The callbacks are set or null; `user` stands for the two pointers that are passed through.
pub record PackUserParams : Type 0 where
  pub has_packet_cb : Bool
  pub has_data_cb : Bool
  pub user : ℕ

pub record Buffer : Type 0 where
  pub bytes : List ℕ
  pub user_params : PackUserParams

abbrev pub buffer_size : Buffer → ℕ
buffer_size b = length b.bytes

pub record SafeQueue : Type 0 where
  pub items : List Buffer
  pub size : ℕ
  pub capacity : ℕ

abbrev pub empty_queue : SafeQueue
empty_queue = record { items = []; size = 0; capacity = 0 }

unfoldable pub push : Buffer → SafeQueue → SafeQueue
push b q = record {
  items = q.items ++ b ∷ [];
  size = q.size + 1;
  capacity = q.capacity + buffer_size b;
}

-- `Front` and then `Pop`: the oldest buffer and the queue without it.
unfoldable pub pop_front : SafeQueue → Option (Buffer × SafeQueue)
pop_front q = elim q.items [
  | [] ↦ none
  | b ∷ rest ↦
      some (b, record { items = rest; size = q.size - 1; capacity = q.capacity - buffer_size b })
]

-- The two bytes of an `unsigned short` as they are sent: the high one first.
abbrev pub be16 : ℕ → List ℕ → List ℕ
be16 n rest = n / 256 ∷ n % 256 ∷ rest
