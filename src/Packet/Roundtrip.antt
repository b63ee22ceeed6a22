-- ===== src/Packet/Roundtrip.antt =====
-- One message from `SendPacket` to the data callback of the receiver.
use rtc_framework.Base.{
  ℕ, zero, suc, ◌+◌, ◌-◌, ◌*◌, ◌/◌, ◌≤◌, ◌<◌, ◌≡◌, ◌≢◌, refl, ap, sym, ◌∙◌, true, List, [], ◌∷◌,
  ◌++◌, none, some, length, take, drop, length-append, length-take, length-drop, take-append-drop,
  ltb, ==_iff, arith, Bool-cases, ltb→lt, subst, inl, inr,
}
use rtc_framework.Base.Assoc.{lookup, erase, lookup-insert, lookup-erase}
use rtc_framework.Packet.Types.{PackUserParams, Buffer, max_data_len}
use rtc_framework.Packet.Packetizer.{
  Packetizer, next_sub, send_slices, send_buffer, sub_packet_numb,
}
use rtc_framework.Packet.Depacketizer.{Depacketizer, went_on, slots_of, join, put_slot}
use rtc_framework.Packet.Header.{packet_of}
use rtc_framework.Packet.Slots.{
  numbered, length-numbered, put_slot-numbered, lookup-numbered, join-numbered, join-cut,
}
use rtc_framework.Packet.Sending.{send_slices-last, send_slices-more}
use rtc_framework.Packet.Receiving.{
  receive, slots_after, with_slots, after, receive-stored, receive_complete, take_in-stored,
  take_in_complete,
}

-- The packets deliver just this message, its slots are forgotten, those of the other messages are
-- as they were, and the queue is empty again.
abbrev pub Delivers : PackUserParams → List (List ℕ) → Depacketizer → ℕ → List ℕ → Type 0
Delivers params packets q main message =
    (r : Depacketizer) × (receive params packets q ≡ some (r, message ∷ []))
    × (lookup main r.incomplete_packet ≡ none)
    × ((k : ℕ) → k ≢ main → lookup k r.incomplete_packet ≡ lookup k q.incomplete_packet)
    × (r.depacketizer_queue.items ≡ [])

-- Full slices of the message have been sent and are waiting in their slots.
record Progress (p : Packetizer) (q : Depacketizer) (vs : List (List ℕ)) : Type 0 where
  version_one : p.version ≡ 1
  next_seq : p.sub_packet_seq ≡ length vs
  total_fits : p.total_sub_packet_numb < 65536
  waiting : slots_of p.main_packet_seq q.incomplete_packet ≡ numbered 0 vs
  full : length (join (numbered 0 vs)) ≡ length vs * max_data_len
  idle : q.depacketizer_queue.items ≡ []

slots_after-eq :
    (p : Packetizer) (q : Depacketizer) (vs : List (List ℕ)) (slice : List ℕ)
    → Progress p q vs
    → slots_after p slice q ≡ numbered 0 (vs ++ slice ∷ [])
slots_after-eq p q vs slice g =
    ap (put_slot p.sub_packet_seq slice) g.waiting
    ∙ put_slot-numbered 0 p.sub_packet_seq slice vs (omega (arith, g.next_seq))

length-slots :
    (vs : List (List ℕ)) (v : List ℕ) → length (numbered 0 (vs ++ v ∷ [])) ≡ length vs + 1
length-slots vs v = length-numbered 0 (vs ++ v ∷ []) ∙ length-append vs (v ∷ [])

length-join :
    (vs : List (List ℕ)) (v : List ℕ)
    → length (join (numbered 0 (vs ++ v ∷ []))) ≡ length (join (numbered 0 vs)) + length v
length-join vs v = ap length (join-numbered 0 v vs) ∙ length-append (join (numbered 0 vs)) v

-- The last slice.
receive-last :
    (params : PackUserParams) (p : Packetizer) (q : Depacketizer) (vs : List (List ℕ))
    (slice : List ℕ)
    → params.has_data_cb ≡ true
    → Progress p q vs
    → length slice ≤ max_data_len
    → p.total_sub_packet_numb ≡ length vs + 1
    → Delivers params (packet_of p slice ∷ []) q p.main_packet_seq (join (numbered 0 vs) ++ slice)
receive-last params p q vs slice c g l t =
    let e = slots_after-eq p q vs slice g in
    let forgotten : Depacketizer =
      after p slice (erase p.main_packet_seq (with_slots p slice q)) q in
    (
      forgotten,
      receive_complete params (packet_of p slice) q _ _ (
          take_in_complete params p slice q c l g.idle
            ((==_iff _ _).1 (ap length e ∙ length-slots vs slice ∙ sym t))
            (ap (λ m. lookup (length m - 1) m) e
              ∙ lookup-numbered 0 _ slice vs (omega (arith, length-slots vs slice)))
            ((==_iff _ _).1 (
              ap (λ m. length (join m)) e
              ∙ omega (arith, length-join vs slice, g.full, t, ap (λ n. n * max_data_len) t)))
          ∙ ap (went_on forgotten) (ap some (ap join e ∙ join-numbered 0 slice vs))),
      ground (arith, lookup-erase p.main_packet_seq p.main_packet_seq (with_slots p slice q)),
      λ k n. ground (
        arith,
        lookup-erase p.main_packet_seq k (with_slots p slice q),
        lookup-insert p.main_packet_seq k (slots_after p slice q) q.incomplete_packet,
      ),
      refl,
    )

receive-step :
    (params : PackUserParams) (p : Packetizer) (q : Depacketizer) (vs : List (List ℕ))
    (slice : List ℕ) (packets : List (List ℕ)) (message : List ℕ)
    → Progress p q vs
    → length slice ≤ max_data_len
    → length vs + 1 < p.total_sub_packet_numb
    → Delivers params packets (after p slice (with_slots p slice q) q) p.main_packet_seq message
    → Delivers params (packet_of p slice ∷ packets) q p.main_packet_seq message
receive-step params p q vs slice packets message g l t (r, delivered, gone, others, idle) = (
  r,
  receive-stored params (packet_of p slice) packets q _ r (message ∷ [])
      (take_in-stored params p slice q l g.idle
        (ground (arith, ap length (slots_after-eq p q vs slice g), length-slots vs slice)))
      delivered,
  gone,
  λ k n.
      others k n
      ∙ ground
          (arith, lookup-insert p.main_packet_seq k (slots_after p slice q) q.incomplete_packet),
  idle,
)

Progress-step :
    (p : Packetizer) (q : Depacketizer) (vs : List (List ℕ)) (slice : List ℕ)
    → Progress p q vs
    → length slice ≡ max_data_len
    → length vs + 1 < p.total_sub_packet_numb
    → Progress (next_sub max_data_len p) (after p slice (with_slots p slice q) q) (vs ++ slice ∷ [])
Progress-step p q vs slice g l t = record {
  version_one = g.version_one;
  next_seq = omega (arith, g.next_seq, g.total_fits, length-append vs (slice ∷ []));
  total_fits = g.total_fits;
  waiting = ground (
    arith,
    slots_after-eq p q vs slice g,
    lookup-insert p.main_packet_seq p.main_packet_seq (slots_after p slice q) q.incomplete_packet,
  );
  full = omega (arith, length-join vs slice, g.full, l, length-append vs (slice ∷ []));
  idle = refl;
}

-- The number of slices of this many bytes.
abbrev slice_count : ℕ → ℕ
slice_count n = (n + 1161) / max_data_len

receive-send_slices :
    (fuel : ℕ) (out params : PackUserParams) (bytes : List ℕ) (p : Packetizer) (q : Depacketizer)
    (vs : List (List ℕ))
    → out.has_packet_cb ≡ true
    → params.has_data_cb ≡ true
    → 0 < length bytes
    → length bytes ≤ fuel
    → Progress p q vs
    → p.total_sub_packet_numb ≡ length vs + slice_count (length bytes)
    → Delivers params
        (send_slices fuel out bytes p).1
        q
        p.main_packet_seq
        (join (numbered 0 vs) ++ bytes)
receive-send_slices zero out params bytes p q vs c d h f g t = absurd (omega arith)
receive-send_slices (suc fuel) out params bytes p q vs c d h f g t =
    elim (Bool-cases (ltb max_data_len (length bytes))) [
      | inl e ↦
          let more = ltb→lt _ _ e in
          let slice = take max_data_len bytes in
          let rest = drop max_data_len bytes in
          let full : length slice ≡ max_data_len = omega (arith, length-take max_data_len bytes) in
          let left = length-drop max_data_len bytes in
          let room : length vs + 1 < p.total_sub_packet_numb = omega arith in
          subst (λ ps. Delivers params ps q p.main_packet_seq (join (numbered 0 vs) ++ bytes))
            (sym (send_slices-more fuel out bytes p c g.version_one more))
            (receive-step params p q vs slice _ _ g (omega arith) room (
              subst
                (λ m.
                  Delivers params (send_slices fuel out rest (next_sub max_data_len p)).1
                    (after p slice (with_slots p slice q) q) p.main_packet_seq m)
                (join-cut 0 slice rest vs
                  ∙ ap (◌++◌ (join (numbered 0 vs))) (take-append-drop max_data_len bytes))
                (receive-send_slices fuel out params rest (next_sub max_data_len p)
                  (after p slice (with_slots p slice q) q) (vs ++ slice ∷ []) c d (omega arith)
                  (omega arith) (Progress-step p q vs slice g full room)
                  (omega (arith, length-append vs (slice ∷ []))))))
      | inr e ↦
          let short : length bytes ≤ max_data_len = ground arith in
          subst (λ ps. Delivers params ps q p.main_packet_seq (join (numbered 0 vs) ++ bytes))
            (sym (send_slices-last fuel out bytes p c g.version_one h short))
            (receive-last params p q vs bytes d g short (omega arith))
    ]

sub_packet_numb-eq : (n : ℕ) → n ≤ 65535 * max_data_len → sub_packet_numb n ≡ slice_count n
unfolding sub_packet_numb
sub_packet_numb-eq n l = ground arith

-- One message: it has at least one byte and at most 65535 full sub packets, its packets are received
-- in the order in which `SendPacket` emits them, and the receiver holds no slots of that number yet.
-- Then the receiver delivers the bytes of the message, once, forgets its slots, and leaves those of
-- the other messages as they were.
pub receive-send_buffer :
    (params : PackUserParams) (b : Buffer) (p : Packetizer) (q : Depacketizer)
    → b.user_params.has_packet_cb ≡ true
    → params.has_data_cb ≡ true
    → 0 < length b.bytes
    → length b.bytes ≤ 65535 * max_data_len
    → p.version ≡ 1
    → p.sub_packet_seq ≡ 0
    → lookup p.main_packet_seq q.incomplete_packet ≡ none
    → q.depacketizer_queue.items ≡ []
    → Delivers params (send_buffer b p).1 q p.main_packet_seq b.bytes
unfolding send_buffer numbered join
receive-send_buffer params b p q c d h l v z n e =
    receive-send_slices (length b.bytes) b.user_params params b.bytes
      (record p {
        total_sub_packet_numb = sub_packet_numb (length b.bytes);
        total_payload_size = length b.bytes;
      })
      q [] c d h (omega arith)
      (record {
        version_one = v;
        next_seq = z;
        total_fits = omega (arith, sub_packet_numb-eq (length b.bytes) l);
        waiting = ground (arith, n);
        full = refl;
        idle = e;
      })
      (omega (arith, sub_packet_numb-eq (length b.bytes) l))
