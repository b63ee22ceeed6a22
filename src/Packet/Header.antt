-- ===== src/Packet/Header.antt =====
-- packetizer.cpp and depacketizer.cpp: the header of a packet, as it is written and read.
use Prim.Native.Nat.{bit_or}
use rtc_framework.Base.{
  ℕ, zero, suc, ◌+◌, ◌*◌, ◌/◌, ◌%◌, ◌≤◌, ◌<◌, ◌≡◌, refl, ap, Bool, true, ◌&&◌, List, [], ◌∷◌, some,
  length, take, ◌==◌, ==_iff, arith,
}
use rtc_framework.Packet.Types.{be16, max_data_len}
use rtc_framework.Packet.Packetizer.{Packetizer, do_packetize}
use rtc_framework.Packet.Depacketizer.{Depacketizer, parsed, do_depacketize, read_header}

all_below : ℕ → (ℕ → Bool) → Bool
all_below zero test = true
all_below (suc n) test = test n && all_below n test

all_below_sound :
    (n : ℕ) (test : ℕ → Bool) (x : ℕ) → all_below n test ≡ true → x < n → test x ≡ true
unfolding all_below
all_below_sound zero test x h l = absurd (omega arith)
all_below_sound (suc n) test x h l = ground (arith, all_below_sound n test x)

version_table : all_below 1163 (λ n. bit_or 16384 n == 16384 + n) ≡ true
unfolding all_below
version_table = refl

-- Version and size do not overlap in the first two bytes.
version_or_size : (n : ℕ) → n ≤ max_data_len → bit_or 16384 n ≡ 16384 + n
version_or_size n h = (==_iff _ _).0 (all_below_sound 1163 _ n version_table (omega arith))

pub take-length : {A : Type 0} (xs : List A) → take (length xs) xs ≡ xs
take-length [] = refl
take-length (x ∷ xs) = ap (◌∷◌ x) (take-length xs)

-- What a depacketizer has read of the header of the slice.
abbrev pub with_header : Packetizer → List ℕ → Depacketizer → Depacketizer
with_header p slice q = record q {
  version = 1;
  payload_size = length slice;
  total_sub_packet_numb = p.total_sub_packet_numb;
  main_packet_seq = p.main_packet_seq;
  sub_packet_seq = p.sub_packet_seq;
}

-- The packet of a slice.
abbrev pub packet_of : Packetizer → List ℕ → List ℕ
packet_of p slice =
    be16 (16384 + length slice)
      (be16 p.total_sub_packet_numb (be16 p.main_packet_seq (be16 p.sub_packet_seq slice)))

pub do_packetize-eq :
    (p : Packetizer) (slice : List ℕ)
    → p.version ≡ 1
    → 0 < length slice
    → length slice ≤ max_data_len
    → do_packetize p slice ≡ some (packet_of p slice)
unfolding do_packetize
do_packetize-eq p slice v h l =
    ground (arith, version_or_size (length slice) l, ap (λ n. bit_or (n * 16384) (length slice)) v)

be16-val : (n : ℕ) → n / 256 * 256 + n % 256 ≡ n
be16-val n = omega arith

pub do_depacketize-packet_of :
    (p : Packetizer) (slice : List ℕ) (q : Depacketizer)
    → length slice ≤ max_data_len
    → do_depacketize (packet_of p slice) q ≡ parsed (with_header p slice q) slice
unfolding do_depacketize read_header
do_depacketize-packet_of p slice q l = ground (
  arith,
  be16-val p.total_sub_packet_numb,
  be16-val p.main_packet_seq,
  be16-val p.sub_packet_seq,
  be16-val (16384 + length slice),
  take-length slice,
)
