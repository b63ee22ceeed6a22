-- ===== src/Packet/Sending.antt =====
-- What `SendPacket` emits: the packets of the slices, oldest first.
use rtc_framework.Base.{
  ℕ, zero, suc, ◌≤◌, ◌<◌, ◌≡◌, refl, ap, true, List, [], ◌∷◌, length, take, drop, length-take,
  length-drop, arith, if_elim, ltb, ◌==◌,
}
use rtc_framework.Packet.Types.{PackUserParams, max_data_len}
use rtc_framework.Packet.Packetizer.{Packetizer, emit, next_sub, send_slices}
use rtc_framework.Packet.Header.{packet_of, do_packetize-eq}

pub emit-eq :
    (params : PackUserParams) (p : Packetizer) (slice : List ℕ) (rest : List (List ℕ))
    → params.has_packet_cb ≡ true
    → p.version ≡ 1
    → 0 < length slice
    → length slice ≤ max_data_len
    → emit params p slice rest ≡ packet_of p slice ∷ rest
emit-eq params p slice rest c v h l = ground (arith, do_packetize-eq p slice v h l)

take-all : {A : Type 0} (n : ℕ) (xs : List A) → length xs ≤ n → take n xs ≡ xs
take-all zero [] h = refl
take-all zero (x ∷ xs) h = absurd (omega arith)
take-all (suc n) [] h = refl
take-all (suc n) (x ∷ xs) h = ap (◌∷◌ x) (take-all n xs (omega arith))

abbrev sized : Packetizer → Packetizer
sized p = record p { payload_size = max_data_len }

-- Nothing is left.
send_slices-none :
    (fuel : ℕ) (params : PackUserParams) (bytes : List ℕ) (p : Packetizer)
    → length bytes ≡ 0
    → (send_slices fuel params bytes p).1 ≡ []
unfolding send_slices
send_slices-none zero params bytes p e = refl
send_slices-none (suc fuel) params bytes p e = ground arith

-- The last slice, full or not.
pub send_slices-last :
    (fuel : ℕ) (params : PackUserParams) (bytes : List ℕ) (p : Packetizer)
    → params.has_packet_cb ≡ true
    → p.version ≡ 1
    → 0 < length bytes
    → length bytes ≤ max_data_len
    → (send_slices (suc fuel) params bytes p).1 ≡ packet_of p bytes ∷ []
unfolding send_slices
send_slices-last fuel params bytes p c v h l =
    if_elim (λ (r : Packetizer × List (List ℕ)). r.1 ≡ packet_of p bytes ∷ []) (length bytes == 0) _
      _ (λ z. absurd (ground arith))
      (λ _.
        if_elim (λ (r : Packetizer × List (List ℕ)). r.1 ≡ packet_of p bytes ∷ [])
          (ltb (length bytes) max_data_len) _ _ (λ _. emit-eq params p bytes [] c v h l)
          (λ _.
            rw
              (
                take-all max_data_len bytes l,
                send_slices-none fuel params (drop max_data_len bytes) (next_sub max_data_len p)
                    (omega (arith, length-drop max_data_len bytes)),
              )
              (emit-eq params (sized p) bytes [] c v h l)))

abbrev pub first_and_later : ℕ → PackUserParams → List ℕ → Packetizer → List (List ℕ)
first_and_later fuel params bytes p =
    packet_of p (take max_data_len bytes)
    ∷ (send_slices fuel params (drop max_data_len bytes) (next_sub max_data_len p)).1

-- A slice with more to come.
pub send_slices-more :
    (fuel : ℕ) (params : PackUserParams) (bytes : List ℕ) (p : Packetizer)
    → params.has_packet_cb ≡ true
    → p.version ≡ 1
    → max_data_len < length bytes
    → (send_slices (suc fuel) params bytes p).1 ≡ first_and_later fuel params bytes p
unfolding send_slices
send_slices-more fuel params bytes p c v h =
    if_elim (λ (r : Packetizer × List (List ℕ)). r.1 ≡ first_and_later fuel params bytes p)
      (length bytes == 0) _ _ (λ z. absurd (ground arith))
      (λ _.
        if_elim (λ (r : Packetizer × List (List ℕ)). r.1 ≡ first_and_later fuel params bytes p)
          (ltb (length bytes) max_data_len) _ _ (λ z. absurd (ground arith))
          (λ _.
            emit-eq params (sized p) (take max_data_len bytes) _ c v
              (omega (arith, length-take max_data_len bytes))
              (omega (arith, length-take max_data_len bytes))))
