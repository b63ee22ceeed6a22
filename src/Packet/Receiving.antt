-- ===== src/Packet/Receiving.antt =====
-- What the thread of the depacketizer does with the packet of a slice: the packet is passed to
-- `Combine`, and one round of `Process` follows.
use rtc_framework.Base.{
  ℕ, ◌+◌, ◌-◌, ◌*◌, ◌≤◌, ◌≡◌, refl, ◌∙◌, true, false, List, [], ◌∷◌, Option, none, some, length,
  ◌==◌, arith,
}
use rtc_framework.Base.Assoc.{lookup, insert, erase}
use rtc_framework.Packet.Types.{PackUserParams, Buffer, SafeQueue, push, pop_front, max_data_len}
use rtc_framework.Packet.Packetizer.{Packetizer}
use rtc_framework.Packet.Depacketizer.{
  Depacketizer, Slots, Round, went_on, waits, faults, slots_of, join, put_slot, combine, complete,
  store, process_buffer, process_round, do_depacketize, parsed,
}
use rtc_framework.Packet.Header.{packet_of, with_header, do_depacketize-packet_of}

-- A packet comes in and is processed.
unfoldable pub take_in : PackUserParams → List ℕ → Depacketizer → Round
unfolding combine process_round
take_in params packet q = process_round (combine packet params q).0

abbrev pub Outcome : Type 0
Outcome = Option (Depacketizer × List (List ℕ))

abbrev pub add_message : Option (List ℕ) → Outcome → Outcome
add_message none out = out
add_message (some message) none = none
add_message (some message) (some (last, later)) = some (last, message ∷ later)

abbrev pub go_on : (Depacketizer → Outcome) → Round → Outcome
go_on f (went_on r delivered) = add_message delivered (f r)
go_on f waits = none
go_on f faults = none

-- The packets come in one after the other: the messages that are delivered, oldest first, or
-- `none` when a round faults or waits.
unfoldable pub receive : PackUserParams → List (List ℕ) → Depacketizer → Outcome
receive params [] q = some (q, [])
receive params (packet ∷ packets) q = go_on (receive params packets) (take_in params packet q)

pub receive-stored :
    (params : PackUserParams) (packet : List ℕ) (packets : List (List ℕ)) (q r last : Depacketizer)
    (messages : List (List ℕ))
    → take_in params packet q ≡ went_on r none
    → receive params packets r ≡ some (last, messages)
    → receive params (packet ∷ packets) q ≡ some (last, messages)
unfolding receive
receive-stored params packet packets q r last messages e h = ground arith

pub receive_complete :
    (params : PackUserParams) (packet : List ℕ) (q r : Depacketizer) (message : List ℕ)
    → take_in params packet q ≡ went_on r (some message)
    → receive params (packet ∷ []) q ≡ some (r, message ∷ [])
unfolding receive
receive_complete params packet q r message e = ground arith

-- What the slots of the message become.
abbrev pub slots_after : Packetizer → List ℕ → Depacketizer → Slots
slots_after p slice q =
    put_slot p.sub_packet_seq slice (slots_of p.main_packet_seq q.incomplete_packet)

-- The queue once the packet is taken off it again.
abbrev pub queue_after : List ℕ → SafeQueue → SafeQueue
queue_after packet queue = record {
  items = [];
  size = queue.size + 1 - 1;
  capacity = queue.capacity + length packet - length packet;
}

abbrev pub after : Packetizer → List ℕ → List (ℕ × Slots) → Depacketizer → Depacketizer
after p slice incomplete q = record (with_header p slice q) {
  incomplete_packet = incomplete;
  depacketizer_queue = queue_after (packet_of p slice) q.depacketizer_queue;
}

abbrev pub with_slots : Packetizer → List ℕ → Depacketizer → List (ℕ × Slots)
with_slots p slice q = insert p.main_packet_seq (slots_after p slice q) q.incomplete_packet

abbrev queued : PackUserParams → List ℕ → Depacketizer → Depacketizer
queued params packet q = (combine packet params q).0

abbrev stored :
    PackUserParams → Packetizer → List ℕ → List (ℕ × Slots) → Depacketizer → Depacketizer
stored params p slice incomplete q =
    record (with_header p slice (queued params (packet_of p slice) q)) {
      incomplete_packet = incomplete;
    }

take_in-eq :
    (params : PackUserParams) (packet : List ℕ) (q : Depacketizer)
    → q.depacketizer_queue.items ≡ []
    → take_in params packet q
      ≡ process_buffer
          (record { bytes = packet; user_params = params })
          (queue_after packet q.depacketizer_queue)
          (queued params packet q)
unfolding take_in combine process_round push pop_front
take_in-eq params packet q e = rw e refl

process_buffer-eq :
    (b : Buffer) (rest : SafeQueue) (q r t : Depacketizer) (payload : List ℕ)
    (delivered : Option (List ℕ))
    → do_depacketize b.bytes q ≡ parsed r payload
    → store b.user_params payload r ≡ went_on t delivered
    → process_buffer b rest q ≡ went_on (record t { depacketizer_queue = rest }) delivered
unfolding process_buffer
process_buffer-eq b rest q r t payload delivered e h = ground arith

-- A sub packet that does not complete its message.
pub take_in-stored :
    (params : PackUserParams) (p : Packetizer) (slice : List ℕ) (q : Depacketizer)
    → length slice ≤ max_data_len
    → q.depacketizer_queue.items ≡ []
    → (length (slots_after p slice q) == p.total_sub_packet_numb) ≡ false
    → take_in params (packet_of p slice) q ≡ went_on (after p slice (with_slots p slice q) q) none
unfolding store combine
take_in-stored params p slice q l e n =
    take_in-eq params (packet_of p slice) q e
    ∙ process_buffer-eq _ _ _ _ (stored params p slice (with_slots p slice q) q) slice none
        (do_depacketize-packet_of p slice (queued params (packet_of p slice) q) l) (rw n refl)

-- The sub packet that completes it.
pub take_in_complete :
    (params : PackUserParams) (p : Packetizer) (slice : List ℕ) (q : Depacketizer)
    → params.has_data_cb ≡ true
    → length slice ≤ max_data_len
    → q.depacketizer_queue.items ≡ []
    → (length (slots_after p slice q) == p.total_sub_packet_numb) ≡ true
    → lookup (length (slots_after p slice q) - 1) (slots_after p slice q) ≡ some slice
    → (length (join (slots_after p slice q))
        == p.total_sub_packet_numb * max_data_len - max_data_len + length slice)
      ≡ true
    → take_in params (packet_of p slice) q
      ≡ went_on
          (after p slice (erase p.main_packet_seq (with_slots p slice q)) q)
          (some (join (slots_after p slice q)))
unfolding store complete combine lookup erase join put_slot insert
take_in_complete params p slice q c l e n k j =
    take_in-eq params (packet_of p slice) q e
    ∙ process_buffer-eq _ _ _ _
        (stored params p slice (erase p.main_packet_seq (with_slots p slice q)) q) slice
        (some (join (slots_after p slice q)))
        (do_depacketize-packet_of p slice (queued params (packet_of p slice) q) l)
        (rw n (rw k (rw j (rw c refl))))
