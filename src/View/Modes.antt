-- ===== src/View/Modes.antt =====
-- client/apps/rtc_console/video_view_state.cpp, whose methods hold the mutex, and
-- client/apps/rtc_edge/video_send_planner.cpp, which does not read its clock.
use rtc_framework.Base.{
  ℕ, ◌<◌, ◌≡◌, ◌∙◌, ◌+◌, refl, Bool, true, false, not, ◌||◌, List, [], ◌∷◌, Option, none, some,
  ◌==◌, arith, if◌then◌else◌,
}
use rtc_framework.Base.Assoc.{lookup, insert, erase, lookup-insert, lookup-erase}
use rtc_framework.View.Types.{ViewMode, ViewControlDecodeStatus, is_known_view_mode, encoded_ok}
use rtc_framework.View.Codec.{encode_view_control, decode_view_control}
use rtc_framework.View.CodecLaws.{decode-encode}

abbrev pub Modes : Type 0
Modes = List (ℕ × ViewMode)

abbrev pub or_binocular : Option ViewMode → ViewMode
or_binocular none = ViewMode.binocular
or_binocular (some mode) = mode

abbrev pub get_mode : ℕ → Modes → ViewMode
get_mode sessionid modes = or_binocular (lookup sessionid modes)

unfoldable pub set_mode : ℕ → ViewMode → Modes → Modes
set_mode sessionid mode modes =
    if (sessionid == 0) || not (is_known_view_mode mode) then modes else insert sessionid mode modes

abbrev pub erase_mode : ℕ → Modes → Modes
erase_mode sessionid modes = erase sessionid modes

-- Of each camera, whether it is sent continuously; `send_once` is never set.
pub record VideoSendPlan : Type 0 where
  pub stereo : Bool
  pub front : Bool
  pub rear : Bool
  pub left : Bool
  pub right : Bool
  pub grid : Bool

abbrev pub is_mode : ViewMode → ViewMode → Bool
is_mode ViewMode.binocular ViewMode.binocular = true
is_mode ViewMode.surround ViewMode.surround = true
is_mode ViewMode.surround_front ViewMode.surround_front = true
is_mode ViewMode.surround_rear ViewMode.surround_rear = true
is_mode ViewMode.surround_left ViewMode.surround_left = true
is_mode ViewMode.surround_right ViewMode.surround_right = true
is_mode _ _ = false

unfoldable pub next_plan : ViewMode → VideoSendPlan
next_plan mode = record {
  stereo = is_mode mode ViewMode.binocular;
  grid = is_mode mode ViewMode.binocular || is_mode mode ViewMode.surround;
  front = is_mode mode ViewMode.surround_front;
  rear = is_mode mode ViewMode.surround_rear;
  left = is_mode mode ViewMode.surround_left;
  right = is_mode mode ViewMode.surround_right;
}

pub data Call : Type 0 where
  sets : ℕ → ViewMode → Call
  erases : ℕ → Call
  clears : Call

unfoldable pub do_calls : List Call → Modes → Modes
unfolding set_mode
do_calls [] modes = modes
do_calls (sets sessionid mode ∷ cs) modes = do_calls cs (set_mode sessionid mode modes)
do_calls (erases sessionid ∷ cs) modes = do_calls cs (erase_mode sessionid modes)
do_calls (clears ∷ cs) modes = do_calls cs []

known_after :
    (cs : List Call) (modes : Modes)
    → ((x : ℕ) → is_known_view_mode (get_mode x modes) ≡ true)
    → (x : ℕ) → is_known_view_mode (get_mode x (do_calls cs modes)) ≡ true
unfolding do_calls set_mode lookup
known_after [] modes h x = h x
known_after (sets sessionid mode ∷ cs) modes h x =
    known_after cs (set_mode sessionid mode modes)
      (λ y. ground (arith, h y, lookup-insert sessionid y mode modes)) x
known_after (erases sessionid ∷ cs) modes h x =
    known_after cs (erase_mode sessionid modes)
      (λ y. ground (arith, h y, lookup-erase sessionid y modes)) x
known_after (clears ∷ cs) modes h x = known_after cs [] (λ y. refl) x

abbrev pub one_if : Bool → ℕ
one_if b = if b then 1 else 0

abbrev pub streams : VideoSendPlan → ℕ
streams p =
    one_if p.stereo
    + (one_if p.grid + (one_if p.front + (one_if p.rear + (one_if p.left + one_if p.right))))

plan_streams :
    (mode : ViewMode)
    → is_known_view_mode mode ≡ true
    → streams (next_plan mode) ≡ (if is_mode mode ViewMode.binocular then 2 else 1)
unfolding next_plan
plan_streams mode h = ground arith

-- After any calls, the mode of a session can be encoded, and what the edge decodes from its bytes is
-- that mode; the edge's plan for it sends two streams if it is binocular, and one if not.
pub chosen_view_is_sent :
    (cs : List Call) (x seq : ℕ)
    → seq < 18446744073709551616
    → let mode = get_mode x (do_calls cs []) in
      let e = encode_view_control seq mode in
      let d = decode_view_control (some e.payload) in
      (encoded_ok e ≡ true)
      × ((d.status ≡ ViewControlDecodeStatus.decode_ok)
          × ((d.envelope.enable_view ≡ mode)
              × (streams (next_plan d.envelope.enable_view)
                  ≡ (if is_mode mode ViewMode.binocular then 2 else 1))))
unfolding lookup
chosen_view_is_sent cs x seq h =
    let mode = get_mode x (do_calls cs []) in
    let known = known_after cs [] (λ y. refl) x in
    let read = decode-encode seq mode h in
    (read.0 ∙ known, rw (read.1, known) (refl, (refl, plan_streams mode known)))
