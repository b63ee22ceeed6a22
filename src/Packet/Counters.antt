-- ===== src/Packet/Counters.antt =====
-- The counters of the packetizer's queues, through all calls.
use rtc_framework.Base.{
  ℕ, ◌-◌, ◌≡◌, refl, ap, sym, subst, List, [], ◌∷◌, length, ◌⊎◌, inl, inr, if_elim, ltb, arith,
}
use rtc_framework.Packet.Types.{
  PackStatus, PackUserParams, Buffer, SafeQueue, buffer_size, pop_front, max_send_queue_capacity,
}
use rtc_framework.Packet.Packetizer.{
  Packetizer, split, resend, send_packet, resend_packet, process_round,
}
use rtc_framework.Packet.Accounts.{
  byte_count, QueueIsValid, QueuesAreValid, push-QueueIsValid, split_iff,
}
use rtc_framework.Packet.Channel.{taken_from, process_round-send, send_buffer-Keeps}

resend-QueuesAreValid :
    (bytes : List ℕ) (params : PackUserParams) (p : Packetizer)
    → QueuesAreValid p
    → QueuesAreValid (resend bytes params p).0
unfolding resend
resend-QueuesAreValid bytes params p v =
    if_elim (λ (r : Packetizer × PackStatus). QueuesAreValid r.0)
      (ltb p.resend_queue.capacity max_send_queue_capacity) _ _
      (λ _. (
        v.0,
        push-QueueIsValid (record { bytes = bytes; user_params = params }) p.resend_queue v.1,
      ))
      (λ _. (v.0, v.1))

List-cases :
    (xs : List Buffer) → (xs ≡ []) ⊎ ((b : Buffer) × (rest : List Buffer) × (xs ≡ b ∷ rest))
List-cases [] = inl refl
List-cases (b ∷ rest) = inr (b, rest, refl)

popped-QueueIsValid :
    (b : Buffer) (rest : List Buffer) (queue : SafeQueue)
    → queue.items ≡ b ∷ rest
    → QueueIsValid queue
    → QueueIsValid
        (record { items = rest; size = queue.size - 1; capacity = queue.capacity - buffer_size b })
popped-QueueIsValid b rest queue e (n, c) =
    (ground (arith, e, n, ap length e), ground (arith, e, c, ap byte_count e))

process_round-idle :
    (p : Packetizer)
    → p.resend_queue.items ≡ []
    → p.packetizer_queue.items ≡ []
    → process_round p ≡ (p, [])
unfolding process_round send_packet pop_front
process_round-idle p r e = ground arith

process_round-resent :
    (b : Buffer) (rest : List Buffer) (p : Packetizer)
    → p.resend_queue.items ≡ b ∷ rest
    → QueuesAreValid p
    → QueuesAreValid (process_round p).0
unfolding process_round resend_packet pop_front
process_round-resent b rest p e v = rw e (v.0, popped-QueueIsValid b rest p.resend_queue e v.1)

process_round-QueuesAreValid :
    (p : Packetizer) → QueuesAreValid p → QueuesAreValid (process_round p).0
process_round-QueuesAreValid p v = elim (List-cases p.resend_queue.items) [
  | inr (b, rest, e) ↦ process_round-resent b rest p e v
  | inl r ↦ elim (List-cases p.packetizer_queue.items) [
    | inl e ↦
        subst (λ (t : Packetizer × List (List ℕ)). QueuesAreValid t.0)
          (sym (process_round-idle p r e)) v
    | inr (b, rest, e) ↦
        let k = send_buffer-Keeps b (taken_from b rest p) in
        subst (λ (t : Packetizer × List (List ℕ)). QueuesAreValid t.0)
          (sym (process_round-send b rest p r e))
          (
            subst QueueIsValid (sym k.0) (popped-QueueIsValid b rest p.packetizer_queue e v.0),
            subst QueueIsValid (sym k.1) v.1,
          )
  ]
]

-- What is called on a packetizer, and the rounds of its own thread.
pub data PackCall : Type 0 where
  splits resends : List ℕ → PackUserParams → PackCall
  rounds : PackCall

unfoldable pub run_calls : List PackCall → Packetizer → Packetizer
run_calls [] p = p
run_calls (splits bytes params ∷ calls) p = run_calls calls (split bytes params p).0
run_calls (resends bytes params ∷ calls) p = run_calls calls (resend bytes params p).0
run_calls (rounds ∷ calls) p = run_calls calls (process_round p).0

-- After any calls of `Split` and `Resend` and any rounds of `Process`, from counters that are right,
-- the size and the capacity of both queues are the number and the bytes of the buffers in them.
pub run_calls-QueuesAreValid :
    (calls : List PackCall) (p : Packetizer) → QueuesAreValid p → QueuesAreValid (run_calls calls p)
unfolding run_calls
run_calls-QueuesAreValid [] p v = v
run_calls-QueuesAreValid (splits bytes params ∷ calls) p v =
    run_calls-QueuesAreValid calls _ (split_iff bytes params p v).1
run_calls-QueuesAreValid (resends bytes params ∷ calls) p v =
    run_calls-QueuesAreValid calls _ (resend-QueuesAreValid bytes params p v)
run_calls-QueuesAreValid (rounds ∷ calls) p v =
    run_calls-QueuesAreValid calls _ (process_round-QueuesAreValid p v)
