-- ===== src/Packet/Accounts.antt =====
-- packetizer.cpp and squeue.h: the counters of the queues, `Split`, and a round that resends.
use rtc_framework.Base.{
  ℕ, ◌+◌, ◌≤◌, ◌<◌, ◌≡◌, refl, List, [], ◌∷◌, ◌++◌, length, ◌⊎◌, inl, inr, if◌then◌else◌, if_elim,
  ltb, arith,
}
use rtc_framework.Packet.Types.{
  PackStatus, PackUserParams, Buffer, SafeQueue, buffer_size, push, pop_front,
  max_send_queue_capacity,
}
use rtc_framework.Packet.Packetizer.{Packetizer, split, resend_packet, process_round}

-- The bytes of the buffers.
abbrev pub byte_count : List Buffer → ℕ
byte_count [] = 0
byte_count (b ∷ bs) = buffer_size b + byte_count bs

byte_count-append :
    (xs : List Buffer) (b : Buffer) → byte_count (xs ++ b ∷ []) ≡ byte_count xs + buffer_size b
byte_count-append [] b = omega arith
byte_count-append (x ∷ xs) b = omega (arith, byte_count-append xs b)

length-snoc : (xs : List Buffer) (b : Buffer) → length (xs ++ b ∷ []) ≡ length xs + 1
length-snoc [] b = refl
length-snoc (x ∷ xs) b = omega (arith, length-snoc xs b)

-- The counters are the number of the buffers and of their bytes.
abbrev pub QueueIsValid : SafeQueue → Type 0
QueueIsValid queue = (queue.size ≡ length queue.items) × (queue.capacity ≡ byte_count queue.items)

abbrev pub QueuesAreValid : Packetizer → Type 0
QueuesAreValid p = QueueIsValid p.packetizer_queue × QueueIsValid p.resend_queue

pub push-QueueIsValid :
    (b : Buffer) (queue : SafeQueue) → QueueIsValid queue → QueueIsValid (push b queue)
unfolding push
push-QueueIsValid b queue (n, c) =
    (omega (arith, n, length-snoc queue.items b), omega (arith, c, byte_count-append queue.items b))

-- `Split` accepts exactly when the buffers that wait have less than 64 MiB together, whatever the
-- size of the new one: then it comes last; otherwise the packetizer stays as it is.
pub split_iff :
    (bytes : List ℕ) (params : PackUserParams) (p : Packetizer)
    → QueuesAreValid p
    → ((byte_count p.packetizer_queue.items < max_send_queue_capacity)
          × ((split bytes params p).1 ≡ PackStatus.pack_ok)
          × ((split bytes params p).0.packetizer_queue.items
              ≡ p.packetizer_queue.items ++ record { bytes = bytes; user_params = params } ∷ [])
        ⊎ (max_send_queue_capacity ≤ byte_count p.packetizer_queue.items)
          × ((split bytes params p).1 ≡ PackStatus.pack_send_queue_full)
          × ((split bytes params p).0 ≡ p))
      × QueuesAreValid (split bytes params p).0
unfolding split push
split_iff bytes params p v =
    if_elim
      (λ (r : Packetizer × PackStatus).
        ((byte_count p.packetizer_queue.items < max_send_queue_capacity)
            × (r.1 ≡ PackStatus.pack_ok)
            × (r.0.packetizer_queue.items
                ≡ p.packetizer_queue.items ++ record { bytes = bytes; user_params = params } ∷ [])
          ⊎ (max_send_queue_capacity ≤ byte_count p.packetizer_queue.items)
            × (r.1 ≡ PackStatus.pack_send_queue_full)
            × (r.0 ≡ p))
        × QueuesAreValid r.0)
      (ltb p.packetizer_queue.capacity max_send_queue_capacity) _ _
      (λ e.
        (inl (ground (arith, v), refl, refl), (push-QueueIsValid _ p.packetizer_queue v.0, v.1)))
      (λ e. (inr (ground (arith, v), refl, refl), (v.0, v.1)))

-- A round of the sender's `Process` takes the oldest buffer to be resent and emits it as it is, if
-- there is one, and leaves the queue of the messages and the sequence numbers as they are.
pub process_round-resend :
    (b : Buffer) (rest : List Buffer) (p : Packetizer)
    → p.resend_queue.items ≡ b ∷ rest
    → ((process_round p).0.resend_queue.items ≡ rest)
      × ((process_round p).0.packetizer_queue ≡ p.packetizer_queue)
      × ((process_round p).0.main_packet_seq ≡ p.main_packet_seq)
      × ((process_round p).0.sub_packet_seq ≡ p.sub_packet_seq)
      × ((process_round p).1 ≡ (if b.user_params.has_packet_cb then b.bytes ∷ [] else []))
unfolding process_round resend_packet pop_front
process_round-resend b rest p e = ground arith
