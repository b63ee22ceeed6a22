-- ===== src/Manager/Senders.antt =====
-- vtsrtc/src/rtc_connection_manager.cpp: `SetRtpSendersPriority`, for each sender with its first encoding. A
-- `bitrate_priority` is a number of halves. `unsigned int` is 32 bits, `int` has them to 2147483647.
use rtc_framework.Base.{
  ℕ, ◌≡◌, refl, Bool, true, false, List, [], ◌∷◌, Option, none, some, ltb, leb, arith,
  if◌then◌else◌, All, Bool-cases, inl, inr,
}

pub data PriorityType : Type 0 where
  very_low low medium high : PriorityType

pub record Encoding : Type 0 where
  pub bitrate_priority : ℕ
  pub network_priority : PriorityType
  pub min_bitrate_bps : Option ℕ
  pub max_bitrate_bps : Option ℕ

pub record Limits : Type 0 where
  pub bitrate_minmum : ℕ
  pub bitrate_maxmum : ℕ

abbrev pub min : ℕ → ℕ → ℕ
min a b = if ltb b a then b else a

abbrev pub max_int : ℕ
max_int = 2147483647

abbrev pub very_low_priority_max_bitrate_bps : ℕ
very_low_priority_max_bitrate_bps = 300000

abbrev pub halves : PriorityType → ℕ
halves very_low = 1
halves low = 2
halves medium = 4
halves high = 8

abbrev pub is_very_low : PriorityType → Bool
is_very_low very_low = true
is_very_low _ = false

unfoldable pub sender_max : Limits → PriorityType → ℕ
sender_max c p =
    let configured = min c.bitrate_maxmum max_int in
    if is_very_low p
    then (if ltb 0 configured
        then min configured very_low_priority_max_bitrate_bps
        else very_low_priority_max_bitrate_bps)
    else configured

unfoldable pub sender_min : Limits → PriorityType → ℕ
unfolding sender_max
sender_min c p =
    let configured = min c.bitrate_minmum max_int in
    if ltb 0 (sender_max c p) then min configured (sender_max c p) else configured

abbrev pub or_kept : ℕ → Option ℕ → Option ℕ
or_kept bps old = if ltb 0 bps then some bps else old

unfoldable pub set_encoding : Limits → PriorityType → Encoding → Encoding
unfolding sender_min sender_max
set_encoding c p e = record {
  bitrate_priority = halves p;
  network_priority = p;
  min_bitrate_bps = or_kept (sender_min c p) e.min_bitrate_bps;
  max_bitrate_bps = or_kept (sender_max c p) e.max_bitrate_bps;
}

-- A sender: its id, its priority in the table, and its first encoding if it has one.
pub record Sender : Type 0 where
  pub id : ℕ
  pub priority : PriorityType
  pub encoding : Option Encoding

-- `SetParameters` of WebRTC: whether the sender of the id takes the parameters.
abbrev pub SetParameters : Type 0
SetParameters = ℕ → Encoding → Bool

-- With a warning, a sender without encodings is left alone, and so is one that refuses.
abbrev pub set_found : SetParameters → Limits → Sender → Option Encoding → Sender
set_found takes c s none = s
set_found takes c s (some e) =
    let new = set_encoding c s.priority e in
    if takes s.id new then record s { encoding = some new } else s

abbrev pub set_sender : SetParameters → Limits → Sender → Sender
set_sender takes c s = set_found takes c s s.encoding

unfoldable pub set_rtp_senders_priority : SetParameters → Limits → List Sender → List Sender
unfolding set_encoding
set_rtp_senders_priority takes c [] = []
set_rtp_senders_priority takes c (s ∷ others) =
    set_sender takes c s ∷ set_rtp_senders_priority takes c others

abbrev pub below : Option ℕ → Option ℕ → Bool
below (some a) (some b) = leb a b
below none _ = true
below (some a) none = true

abbrev pub capped : PriorityType → Option ℕ → Bool
capped very_low (some b) = leb b very_low_priority_max_bitrate_bps
capped very_low none = false
capped _ _ = true

-- The least bitrate is not above the greatest, one of very low priority has its own cap, and the
-- priority is that of the table.
abbrev pub IsOrdered : PriorityType → Encoding → Type 0
IsOrdered p e =
    (below e.min_bitrate_bps e.max_bitrate_bps ≡ true)
    × (capped p e.max_bitrate_bps ≡ true)
    × (e.network_priority ≡ p)

-- What became of a sender: without encodings it is as before; otherwise ordered parameters were tried,
-- and it has them if it took them, and is as before if it refused.
abbrev pub Outcome : SetParameters → Sender → Option Encoding → Sender → Type 0
Outcome takes s none t = t ≡ s
Outcome takes s (some e) t =
    (new : Encoding) × IsOrdered s.priority new
    × (t ≡ (if takes s.id new then record s { encoding = some new } else s))

abbrev pub Outcomes : SetParameters → List Sender → List Sender → Type 0
Outcomes takes [] [] = Unit {0}
Outcomes takes (s ∷ ss) (t ∷ ts) = Outcome takes s s.encoding t × Outcomes takes ss ts
Outcomes takes _ _ = ⊥

-- No limit has been set before.
abbrev pub IsFresh : Option Encoding → Type 0
IsFresh none = Unit {0}
IsFresh (some e) = (e.min_bitrate_bps ≡ none) × (e.max_bitrate_bps ≡ none)

encoding-IsOrdered :
    (c : Limits) (p : PriorityType) (e : Encoding)
    → IsFresh (some e)
    → IsOrdered p (set_encoding c p e)
      × (set_encoding c p (set_encoding c p e) ≡ set_encoding c p e)
unfolding set_encoding
encoding-IsOrdered c very_low e h = ground arith
encoding-IsOrdered c p e h = ground arith

found-Outcome :
    (takes : SetParameters) (c : Limits) (s : Sender) (old : Option Encoding)
    → IsFresh old
    → s.encoding ≡ old
    → Outcome takes s old (set_found takes c s old)
      × (set_sender takes c (set_found takes c s old) ≡ set_found takes c s old)
found-Outcome takes c s none h e = (refl, rw e refl)
found-Outcome takes c s (some old) h e =
    let new = set_encoding c s.priority old in
    let (ordered, same) = encoding-IsOrdered c s.priority old h in
    (
      (new, ordered, refl),
      elim (Bool-cases (takes s.id new)) [
        | inl taken ↦ rw (taken, same, taken) refl
        | inr kept ↦ rw (kept, e, kept) refl
      ],
    )

-- Over senders that have no limits yet: a sender without encodings is left as it was. For any other
-- there are parameters with its priority, whose least bitrate is not above the greatest, and which at very
-- low priority are capped: it has these if it takes them, and is as it was if it refuses them. A second
-- call that is answered in the same way changes nothing.
pub senders-Outcomes :
    (takes : SetParameters) (c : Limits) (ss : List Sender)
    → All (λ s. IsFresh s.encoding) ss
    → let once = set_rtp_senders_priority takes c ss in
      Outcomes takes ss once × (set_rtp_senders_priority takes c once ≡ once)
unfolding set_rtp_senders_priority
senders-Outcomes takes c [] h = (tt, refl)
senders-Outcomes takes c (s ∷ ss) h =
    let (outcome, again) = found-Outcome takes c s s.encoding h.0 refl in
    let (outcomes, all) = senders-Outcomes takes c ss h.1 in
    ((outcome, outcomes), rw (again, all) refl)
