-- ===== src/Dog/Readings.antt =====
-- dog_command_forwarder.cpp: what a reading of the buffer makes of bytes that come later.
use rtc_framework.Base.{
  ℕ, zero, suc, ◌%◌, ◌≤◌, ◌<◌, ◌≡◌, refl, ap, List, [], ◌∷◌, ◌++◌, length, take, drop,
  length-append, length-drop, arith,
}
use rtc_framework.Dog.Incoming.{
  Reading, need_more, broken, got, read_frame_payload, read_extended, read_frame, big_endian,
}

take-append : (n : ℕ) (xs ys : List ℕ) → n ≤ length xs → take n (xs ++ ys) ≡ take n xs
take-append zero xs ys h = refl
take-append (suc n) [] ys h = ground arith
take-append (suc n) (x ∷ xs) ys h = ap (◌∷◌ x) (take-append n xs ys (omega (arith, h)))

drop-append : (n : ℕ) (xs ys : List ℕ) → n ≤ length xs → drop n (xs ++ ys) ≡ drop n xs ++ ys
drop-append zero xs ys h = refl
drop-append (suc n) [] ys h = ground arith
drop-append (suc n) (x ∷ xs) ys h = drop-append n xs ys (omega (arith, h))

-- Later bytes stay behind the frame that was read.
abbrev pub Extends : List ℕ → Reading → Reading → Type 0
Extends ys need_more r = Unit {0}
Extends ys broken r = r ≡ broken
Extends ys (got opcode payload rest) r = r ≡ got opcode payload (rest ++ ys)

payload-Extends :
    (ys : List ℕ) (opcode size : ℕ) (xs : List ℕ)
    → Extends ys (read_frame_payload opcode size xs) (read_frame_payload opcode size (xs ++ ys))
unfolding read_frame_payload
payload-Extends ys opcode size xs =
    ground (arith, take-append size xs ys, drop-append size xs ys, length-append xs ys)

extended-Extends :
    (ys : List ℕ) (count opcode : ℕ) (xs : List ℕ)
    → Extends ys (read_extended count opcode xs) (read_extended count opcode (xs ++ ys))
unfolding read_extended
extended-Extends ys count opcode xs = ground (
  arith,
  take-append count xs ys,
  drop-append count xs ys,
  length-append xs ys,
  payload-Extends ys opcode (big_endian 0 (take count xs)) (drop count xs),
)

pub read_frame-Extends : (ys xs : List ℕ) → Extends ys (read_frame xs) (read_frame (xs ++ ys))
unfolding read_frame
read_frame-Extends ys [] = tt
read_frame-Extends ys (b0 ∷ []) = tt
read_frame-Extends ys (b0 ∷ b1 ∷ xs) = ground (
  arith,
  payload-Extends ys (b0 % 16) (b1 % 128) xs,
  extended-Extends ys 2 (b0 % 16) xs,
  extended-Extends ys 8 (b0 % 16) xs,
)

-- A frame takes bytes away.
abbrev pub Shortens : ℕ → Reading → Type 0
Shortens n (got opcode payload rest) = length rest < n
Shortens n _ = Unit {0}

payload-Shortens :
    (opcode size n : ℕ) (xs : List ℕ)
    → length xs < n
    → Shortens n (read_frame_payload opcode size xs)
unfolding read_frame_payload
payload-Shortens opcode size n xs h = ground (arith, length-drop size xs)

extended-Shortens :
    (count opcode n : ℕ) (xs : List ℕ) → length xs < n → Shortens n (read_extended count opcode xs)
unfolding read_extended
extended-Shortens count opcode n xs h = ground (
  arith,
  length-drop count xs,
  payload-Shortens opcode (big_endian 0 (take count xs)) n (drop count xs),
)

pub read_frame-Shortens : (xs : List ℕ) → Shortens (length xs) (read_frame xs)
unfolding read_frame
read_frame-Shortens [] = tt
read_frame-Shortens (b0 ∷ []) = tt
read_frame-Shortens (b0 ∷ b1 ∷ xs) = ground (
  arith,
  payload-Shortens (b0 % 16) (b1 % 128) (length (b0 ∷ b1 ∷ xs)) xs,
  extended-Shortens 2 (b0 % 16) (length (b0 ∷ b1 ∷ xs)) xs,
  extended-Shortens 8 (b0 % 16) (length (b0 ∷ b1 ∷ xs)) xs,
)
