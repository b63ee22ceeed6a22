-- ===== src/Dog/FramingLaws.antt =====
-- dog_command_forwarder.cpp: frames that are written and read back.
use mathlib.Core.List.{append_assoc}
use rtc_framework.Base.{
  ℕ, zero, suc, ◌+◌, ◌*◌, ◌/◌, ◌%◌, ◌^◌, ◌<◌, ◌≡◌, refl, ap, sym, ◌∙◌, subst, List, [], ◌∷◌, ◌++◌,
  some, All, length, take, drop, ltb, length-append, arith, if◌then◌else◌,
}
use rtc_framework.Dog.Incoming.{
  broken, got, read_frame_payload, read_extended, read_frame, big_endian, max_incoming_frame_size,
}
use rtc_framework.Dog.Framing.{
  xor_bits, xor_byte, Mask, turned, masked, bytes_of, length_bytes, build_ws_frame, server_frame,
  server_unmasks, server_reads, exclusive_or, key_byte, unmasked,
}

xor_bits_twice : (n a b : ℕ) → a < 2 ^ n → xor_bits n (xor_bits n a b) b ≡ a
xor_bits_twice zero a b h = omega arith
xor_bits_twice (suc n) a b h =
    let r = xor_bits n (a / 2) (b / 2) in
    let halves : ((a % 2 + b % 2) % 2 + 2 * r) / 2 ≡ r = omega arith in
    let rest : a / 2 < 2 ^ n = omega (arith, h) in
    let again : xor_bits n (((a % 2 + b % 2) % 2 + 2 * r) / 2) (b / 2) ≡ a / 2 =
      rw halves (xor_bits_twice n (a / 2) (b / 2) rest) in
    let goal : (((a % 2 + b % 2) % 2 + 2 * r) % 2 + b % 2) % 2
          + 2 * xor_bits n (((a % 2 + b % 2) % 2 + 2 * r) / 2) (b / 2)
        ≡ a =
      rw again (omega arith) in
    goal

xor_bits-exclusive_or : (n a b : ℕ) → exclusive_or n a b ≡ xor_bits n a b
unfolding exclusive_or
xor_bits-exclusive_or zero a b = refl
xor_bits-exclusive_or (suc n) a b = ground (arith, xor_bits-exclusive_or n (a / 2) (b / 2))

unmasked_byte : (a b : ℕ) → a < 256 → exclusive_or 8 (xor_byte a b) b ≡ a
unfolding xor_byte
unmasked_byte a b h = rw (xor_bits-exclusive_or 8 (xor_bits 8 a b) b) (xor_bits_twice 8 a b h)

-- The mask that was turned so often that it starts at the index.
abbrev StartsAt : Mask → ℕ → Mask → Type 0
StartsAt m i t =
    (t.m0 ≡ key_byte m (i % 4))
    × (t.m1 ≡ key_byte m ((i + 1) % 4))
    × (t.m2 ≡ key_byte m ((i + 2) % 4))
    × (t.m3 ≡ key_byte m ((i + 3) % 4))

turned-StartsAt : (m : Mask) (i : ℕ) (t : Mask) → StartsAt m i t → StartsAt m (suc i) (turned t)
turned-StartsAt m i t h =
    let s1 : suc i ≡ i + 1 = omega arith in
    let s2 : suc i + 1 ≡ i + 2 = omega arith in
    let s3 : suc i + 2 ≡ i + 3 = omega arith in
    let s4 : (suc i + 3) % 4 ≡ i % 4 = omega arith in
    (
      subst (λ j. t.m1 ≡ key_byte m (j % 4)) (sym s1) h.1,
      subst (λ j. t.m2 ≡ key_byte m (j % 4)) (sym s2) h.2,
      subst (λ j. t.m3 ≡ key_byte m (j % 4)) (sym s3) h.3,
      subst (λ j. t.m0 ≡ key_byte m j) (sym s4) h.0,
    )

unmasked-masked :
    (m : Mask) (i : ℕ) (t : Mask) (bytes : List ℕ)
    → StartsAt m i t
    → All (λ b. b < 256) bytes
    → unmasked m i (masked t bytes) ≡ bytes
unfolding masked unmasked
unmasked-masked m i t [] v h = refl
unmasked-masked m i t (b ∷ bytes) v h =
    rw
      (
        sym v.0,
        unmasked_byte b t.m0 h.0,
        unmasked-masked m (suc i) (turned t) bytes (turned-StartsAt m i t v) h.1,
      )
      refl

length-masked : (m : Mask) (bytes : List ℕ) → length (masked m bytes) ≡ length bytes
unfolding masked
length-masked m [] = refl
length-masked m (b ∷ bytes) = ap suc (length-masked (turned m) bytes)

take-length-append : (xs ys : List ℕ) → take (length xs) (xs ++ ys) ≡ xs
take-length-append [] ys = refl
take-length-append (x ∷ xs) ys = ap (◌∷◌ x) (take-length-append xs ys)

drop-length-append : (xs ys : List ℕ) → drop (length xs) (xs ++ ys) ≡ ys
drop-length-append [] ys = refl
drop-length-append (x ∷ xs) ys = drop-length-append xs ys

big_endian-two :
    (n : ℕ) (bytes : List ℕ) → n < 65536 → big_endian 0 (take 2 (bytes_of 2 n ++ bytes)) ≡ n
unfolding bytes_of
big_endian-two n bytes h = omega (arith, h)

big_endian-eight :
    (n : ℕ) (bytes : List ℕ)
    → n < 18446744073709551616
    → big_endian 0 (take 8 (bytes_of 8 n ++ bytes)) ≡ n
unfolding bytes_of
big_endian-eight n bytes h = omega (arith, h)

-- A frame of a server with a payload of at most 65,536 bytes is read as it was sent, with whatever
-- follows it left for the next reading; one with a longer payload is refused.
pub read_frame-server_frame :
    (opcode : ℕ) (payload rest : List ℕ)
    → opcode < 16
    → length payload < 18446744073709551616
    → read_frame (server_frame opcode payload ++ rest)
      ≡ (if ltb max_incoming_frame_size (length payload) then broken else got opcode payload rest)
unfolding read_frame server_frame length_bytes read_extended read_frame_payload bytes_of
read_frame-server_frame opcode payload rest h k = ground (
  arith,
  take-length-append payload rest,
  drop-length-append payload rest,
  length-append payload rest,
  big_endian-two (length payload) (payload ++ rest),
  big_endian-eight (length payload) (payload ++ rest),
)

unmasks-masked :
    (opcode : ℕ) (m : Mask) (payload rest : List ℕ)
    → All (λ b. b < 256) payload
    → server_unmasks opcode (length payload) (m.m0 ∷ m.m1 ∷ m.m2 ∷ m.m3 ∷ masked m payload ++ rest)
      ≡ some (opcode, (payload, rest))
unfolding server_unmasks
unmasks-masked opcode m payload rest h =
    let same : length (masked m payload) ≡ length payload = length-masked m payload in
    let front : take (length payload) (masked m payload ++ rest) ≡ masked m payload =
      subst (λ n. take n (masked m payload ++ rest) ≡ masked m payload) same
        (take-length-append (masked m payload) rest) in
    let back : drop (length payload) (masked m payload ++ rest) ≡ rest =
      subst (λ n. drop n (masked m payload ++ rest) ≡ rest) same
        (drop-length-append (masked m payload) rest) in
    ground (
      arith,
      front,
      back,
      same,
      unmasked-masked m 0 m payload (refl, refl, refl, refl) h,
      length-append (masked m payload) rest,
    )

reads_header :
    (opcode n : ℕ) (bytes : List ℕ)
    → opcode < 16
    → n < 18446744073709551616
    → server_reads ((128 + opcode % 16) ∷ (length_bytes 128 n ++ bytes))
      ≡ server_unmasks opcode n bytes
unfolding server_reads length_bytes bytes_of
reads_header opcode n bytes h k = ground (arith, big_endian-two n bytes, big_endian-eight n bytes)

-- Whatever mask is drawn, a server reads from a built frame, with any bytes after it, the opcode, the
-- payload and those bytes.
pub server_reads-build_ws_frame :
    (opcode : ℕ) (m : Mask) (payload rest : List ℕ)
    → opcode < 16
    → length payload < 18446744073709551616
    → All (λ b. b < 256) payload
    → server_reads (build_ws_frame opcode m payload ++ rest) ≡ some (opcode, (payload, rest))
unfolding build_ws_frame
server_reads-build_ws_frame opcode m payload rest h k bytes =
    let tail : List ℕ = m.m0 ∷ m.m1 ∷ m.m2 ∷ m.m3 ∷ masked m payload in
    rw (append_assoc (length_bytes 128 (length payload)) tail rest) (
      reads_header opcode (length payload) (tail ++ rest) h k
      ∙ unmasks-masked opcode m payload rest bytes)
