-- ===== src/Packet/Channel.antt =====
-- A packetizer and a depacketizer joined by a link that keeps the packets in order.
use rtc_framework.Base.{
  ℕ, zero, suc, ◌*◌, ◌-◌, ◌≤◌, ◌<◌, ◌≡◌, refl, ap, sym, ◌∙◌, true, List, [], ◌∷◌, ◌++◌, map, Option,
  none, some, length, drop, ltb, ◌==◌, if_elim, Bool-cases, ==_iff, inl, inr, ◌≢◌, All, subst,
  arith,
}
use rtc_framework.Base.Assoc.{lookup}
use rtc_framework.Packet.Types.{
  PackUserParams, Buffer, SafeQueue, buffer_size, max_data_len, pop_front,
}
use rtc_framework.Packet.Packetizer.{
  Packetizer, process_round, send_packet, send_buffer, send_slices, sub_packet_numb, next_sub,
}
use rtc_framework.Packet.Depacketizer.{Depacketizer, Round, went_on, waits, faults}
use rtc_framework.Packet.Receiving.{Outcome, add_message, go_on, take_in, receive}
use rtc_framework.Packet.Roundtrip.{receive-send_buffer}

-- The packets that some rounds of the sender's `Process` emit, oldest first.
unfoldable pub drain : ℕ → Packetizer → List (List ℕ)
drain zero p = []
drain (suc n) p = (process_round p).1 ++ drain n (process_round p).0

abbrev and_then : PackUserParams → List (List ℕ) → Outcome → Outcome
and_then params ys none = none
and_then params ys (some (r, ms)) = elim (receive params ys r) [
  | none ↦ none
  | some (s, ns) ↦ some (s, ms ++ ns)
]

add_message-and_then :
    (params : PackUserParams) (ys : List (List ℕ)) (d : Option (List ℕ)) (out : Outcome)
    → add_message d (and_then params ys out) ≡ and_then params ys (add_message d out)
add_message-and_then params ys none out = refl
add_message-and_then params ys (some m) none = refl
add_message-and_then params ys (some m) (some (r, ms)) = ground arith

go_on-and_then :
    (params : PackUserParams) (ys : List (List ℕ)) (f g : Depacketizer → Outcome) (t : Round)
    → ((r : Depacketizer) → g r ≡ and_then params ys (f r))
    → go_on g t ≡ and_then params ys (go_on f t)
go_on-and_then params ys f g (went_on r d) h =
    ap (add_message d) (h r) ∙ add_message-and_then params ys d (f r)
go_on-and_then params ys f g waits h = refl
go_on-and_then params ys f g faults h = refl

receive-append :
    (params : PackUserParams) (xs ys : List (List ℕ)) (q : Depacketizer)
    → receive params (xs ++ ys) q ≡ and_then params ys (receive params xs q)
unfolding receive
receive-append params [] ys q = ground arith
receive-append params (x ∷ xs) ys q =
    go_on-and_then params ys (receive params xs) (receive params (xs ++ ys)) (take_in params x q)
      (receive-append params xs ys)

-- The sender's members between messages.
pub record Ready (p : Packetizer) : Type 0 where
  pub version_one : p.version ≡ 1
  pub sub_zero : p.sub_packet_seq ≡ 0
  pub no_resend : p.resend_queue.items ≡ []

abbrev pub Sendable : Buffer → Type 0
Sendable b =
    (b.user_params.has_packet_cb ≡ true)
    × (0 < length b.bytes)
    × (length b.bytes ≤ 65535 * max_data_len)

abbrev Keeps : Packetizer → Packetizer → Type 0
Keeps p r =
    (r.version ≡ p.version)
    × (r.resend_queue ≡ p.resend_queue)
    × (r.packetizer_queue ≡ p.packetizer_queue)
    × (r.main_packet_seq ≡ p.main_packet_seq)

send_slices-Keeps :
    (fuel : ℕ) (params : PackUserParams) (bytes : List ℕ) (p : Packetizer)
    → Keeps p (send_slices fuel params bytes p).0
unfolding send_slices
send_slices-Keeps zero params bytes p = (refl, refl, refl, refl)
send_slices-Keeps (suc fuel) params bytes p =
    if_elim (λ (r : Packetizer × List (List ℕ)). Keeps p r.0) (length bytes == 0) _ _
      (λ _. (refl, refl, refl, refl))
      (λ _.
        if_elim (λ (r : Packetizer × List (List ℕ)). Keeps p r.0) (ltb (length bytes) max_data_len)
          _ _ (λ _. (refl, refl, refl, refl))
          (λ _. send_slices-Keeps fuel params (drop max_data_len bytes) (next_sub max_data_len p)))

abbrev pub taken_from : Buffer → List Buffer → Packetizer → Packetizer
taken_from b rest p = record p {
  packetizer_queue = record {
    items = rest;
    size = p.packetizer_queue.size - 1;
    capacity = p.packetizer_queue.capacity - buffer_size b;
  };
}

pub process_round-send :
    (b : Buffer) (rest : List Buffer) (p : Packetizer)
    → p.resend_queue.items ≡ []
    → p.packetizer_queue.items ≡ b ∷ rest
    → process_round p ≡ send_buffer b (taken_from b rest p)
unfolding process_round send_packet pop_front
process_round-send b rest p n e = ground arith

send_buffer-Ready : (b : Buffer) (p : Packetizer) → Ready p → Ready (send_buffer b p).0
unfolding send_buffer
send_buffer-Ready b p g =
    let (v, n, _, _) = send_slices-Keeps (buffer_size b) b.user_params b.bytes (record p {
      total_sub_packet_numb = sub_packet_numb (buffer_size b);
      total_payload_size = buffer_size b;
    }) in
    record {
      version_one = v ∙ g.version_one;
      sub_zero = refl;
      no_resend = ap (λ (queue : SafeQueue). queue.items) n ∙ g.no_resend;
    }

receive-one :
    (params : PackUserParams) (xs ys : List (List ℕ)) (q r s : Depacketizer) (m : List ℕ)
    (ms : List (List ℕ))
    → receive params xs q ≡ some (r, m ∷ [])
    → receive params ys r ≡ some (s, ms)
    → receive params (xs ++ ys) q ≡ some (s, m ∷ ms)
receive-one params xs ys q r s m ms h k =
    receive-append params xs ys q ∙ ap (and_then params ys) h ∙ ground (arith, k)

pub send_buffer-Keeps :
    (b : Buffer) (p : Packetizer)
    → ((send_buffer b p).0.packetizer_queue ≡ p.packetizer_queue)
      × ((send_buffer b p).0.resend_queue ≡ p.resend_queue)
unfolding send_buffer
send_buffer-Keeps b p =
    let (_, r, k, _) = send_slices-Keeps (buffer_size b) b.user_params b.bytes (record p {
      total_sub_packet_numb = sub_packet_numb (buffer_size b);
      total_payload_size = buffer_size b;
    }) in
    (k, r)

-- The receiver holds no slots and its queue is empty.
abbrev pub Clear : Depacketizer → Type 0
Clear q = ((k : ℕ) → lookup k q.incomplete_packet ≡ none) × (q.depacketizer_queue.items ≡ [])

Clear-after :
    (q r : Depacketizer) (main : ℕ)
    → Clear q
    → lookup main r.incomplete_packet ≡ none
    → ((k : ℕ) → k ≢ main → lookup k r.incomplete_packet ≡ lookup k q.incomplete_packet)
    → r.depacketizer_queue.items ≡ []
    → Clear r
Clear-after q r main (c, _) gone others e = (
  λ k. elim (Bool-cases (k == main)) [
    | inl same ↦
        subst (λ j. lookup j r.incomplete_packet ≡ none) (sym ((==_iff k main).0 same)) gone
    | inr other ↦ others k (λ same. absurd (ground (arith, same))) ∙ c k
  ],
  e,
)

-- The messages wait in the sender's queue, each of at least one byte and at most 65535 full sub
-- packets, and no packet waits to be resent; the sender does as many rounds of `Process` as there are
-- messages and the receiver, which holds no slots, gets the packets in the order in which they are
-- emitted. Then the receiver delivers exactly the messages, in order, and holds no slots again.
pub receive-drain :
    (params : PackUserParams) (messages : List Buffer) (p : Packetizer) (q : Depacketizer)
    → params.has_data_cb ≡ true
    → p.packetizer_queue.items ≡ messages
    → All Sendable messages
    → Ready p
    → Clear q
    → (r : Depacketizer) × (receive params (drain (length messages) p) q
        ≡ some (r, map (λ (b : Buffer). b.bytes) messages))
      × Clear r
unfolding drain receive
receive-drain params [] p q d e s g c = (q, refl, c)
receive-drain params (b ∷ messages) p q d e ((o, z, l), s) g c =
    let p1 = taken_from b messages p in
    let g1 : Ready p1 = record {
      version_one = g.version_one;
      sub_zero = g.sub_zero;
      no_resend = g.no_resend;
    } in
    let (r, h, gone, others, idle) =
      receive-send_buffer params b p1 q o d z l g.version_one g.sub_zero (c.0 p.main_packet_seq)
        c.1 in
    let (last, k, cleared) =
      receive-drain params messages (send_buffer b p1).0 r d
        (ap (λ (queue : SafeQueue). queue.items) (send_buffer-Keeps b p1).0) s
        (send_buffer-Ready b p1 g1) (Clear-after q r p.main_packet_seq c gone others idle) in
    (
      last,
      subst
          (λ (step : Packetizer × List (List ℕ)).
            receive params (step.1 ++ drain (length messages) step.0) q
            ≡ some (last, b.bytes ∷ map (λ (m : Buffer). m.bytes) messages))
          (sym (process_round-send b messages p g.no_resend e))
          (receive-one params (send_buffer b p1).1 (drain (length messages) (send_buffer b p1).0) q
            r last b.bytes _ h k),
      cleared,
    )
