-- ===== src/Dog/Framing.antt =====
-- dog_command_forwarder.cpp: `BuildWsFrame`, over the four bytes that it draws; and the two ends of a
-- connection that the code does not hold: the frames of a server, and a server's reading of a frame
-- of the client (RFC 6455, 5.2).
use rtc_framework.Base.{
  ℕ, zero, suc, ◌+◌, ◌*◌, ◌/◌, ◌%◌, ◌^◌, List, [], ◌∷◌, ◌++◌, Option, none, some, length, take,
  drop, ltb, leb, ◌==◌, if◌then◌else◌,
}
use rtc_framework.Dog.Incoming.{big_endian}

-- `a ^ b` on the lowest bits.
abbrev pub xor_bits : ℕ → ℕ → ℕ → ℕ
xor_bits zero a b = 0
xor_bits (suc n) a b = (a % 2 + b % 2) % 2 + 2 * xor_bits n (a / 2) (b / 2)

unfoldable pub xor_byte : ℕ → ℕ → ℕ
xor_byte a b = xor_bits 8 a b

pub record Mask : Type 0 where
  pub m0 : ℕ
  pub m1 : ℕ
  pub m2 : ℕ
  pub m3 : ℕ

-- The next byte of the mask comes first.
abbrev pub turned : Mask → Mask
turned m = record { m0 = m.m1; m1 = m.m2; m2 = m.m3; m3 = m.m0 }

unfoldable pub masked : Mask → List ℕ → List ℕ
masked m [] = []
masked m (b ∷ bytes) = xor_byte b m.m0 ∷ masked (turned m) bytes

-- The bytes of a number, the highest first.
unfoldable pub bytes_of : ℕ → ℕ → List ℕ
bytes_of zero n = []
bytes_of (suc count) n = n / 256 ^ count % 256 ∷ bytes_of count n

-- The second byte, with the bit of the mask, and the extended length.
unfoldable pub length_bytes : ℕ → ℕ → List ℕ
unfolding bytes_of
length_bytes mask_bit n =
    if leb n 125
    then (mask_bit + n) ∷ []
    else if leb n 65535
    then (mask_bit + 126) ∷ bytes_of 2 n
    else (mask_bit + 127) ∷ bytes_of 8 n

unfoldable pub build_ws_frame : ℕ → Mask → List ℕ → List ℕ
unfolding length_bytes masked
build_ws_frame opcode m payload =
    (128 + opcode % 16)
    ∷ (length_bytes 128 (length payload) ++ (m.m0 ∷ m.m1 ∷ m.m2 ∷ m.m3 ∷ masked m payload))

-- What a server sends.
unfoldable pub server_frame : ℕ → List ℕ → List ℕ
unfolding length_bytes
server_frame opcode payload = (128 + opcode) ∷ (length_bytes 0 (length payload) ++ payload)

-- The exclusive or of bytes, bit by bit: a bit is set where the two differ.
unfoldable pub exclusive_or : ℕ → ℕ → ℕ → ℕ
exclusive_or zero a b = 0
exclusive_or (suc n) a b = (if a % 2 == b % 2 then 0 else 1) + 2 * exclusive_or n (a / 2) (b / 2)

-- The byte of the key at an index below 4.
abbrev pub key_byte : Mask → ℕ → ℕ
key_byte m zero = m.m0
key_byte m (suc zero) = m.m1
key_byte m (suc (suc zero)) = m.m2
key_byte m _ = m.m3

-- The byte at index `i` is unmasked by the byte of the key at index `i` modulo 4.
unfoldable pub unmasked : Mask → ℕ → List ℕ → List ℕ
unfolding exclusive_or
unmasked m i [] = []
unmasked m i (b ∷ bytes) = exclusive_or 8 b (key_byte m (i % 4)) ∷ unmasked m (suc i) bytes

-- What a server reads: the opcode, the payload, and the bytes after the frame.
unfoldable pub server_unmasks : ℕ → ℕ → List ℕ → Option (ℕ × (List ℕ × List ℕ))
unfolding unmasked
server_unmasks opcode n (a ∷ b ∷ c ∷ d ∷ bytes) =
    if ltb (length bytes) n
    then none
    else some (
      opcode,
      (unmasked (record { m0 = a; m1 = b; m2 = c; m3 = d }) 0 (take n bytes), drop n bytes),
    )
server_unmasks opcode n _ = none

unfoldable pub server_reads : List ℕ → Option (ℕ × (List ℕ × List ℕ))
unfolding server_unmasks
server_reads (b0 ∷ b1 ∷ bytes) =
    if ltb b1 128
    then none
    else if leb (b1 % 128) 125
    then server_unmasks (b0 % 16) (b1 % 128) bytes
    else if b1 % 128 == 126
    then server_unmasks (b0 % 16) (big_endian 0 (take 2 bytes)) (drop 2 bytes)
    else server_unmasks (b0 % 16) (big_endian 0 (take 8 bytes)) (drop 8 bytes)
server_reads _ = none
