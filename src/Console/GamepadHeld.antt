-- ===== src/Console/GamepadHeld.antt =====
-- vehicle_control_sender.cpp: a button that is held.
use rtc_framework.Base.{
  ℕ, ◌+◌, ◌≡◌, Bool, true, false, ◌&&◌, List, [], ◌∷◌, some, All, arith, if◌then◌else◌,
}
use rtc_framework.Base.Float32.{Float}
use rtc_framework.VehicleProtocol.Types.{DogActionType}
use rtc_framework.Console.Gamepad.{
  GamepadDogActionState, Pad, update_lateral, update_button, update,
}
use rtc_framework.Console.GamepadLaws.{Sent, log_send}

abbrev pub is_stand : DogActionType → Bool
is_stand DogActionType.stand = true
is_stand _ = false

-- How many times `Stand` was accepted.
abbrev pub stands : List Sent → ℕ
stands [] = 0
stands (x ∷ xs) = (if x.ok && is_stand x.action then 1 else 0) + stands xs

abbrev pub one_if : Bool → ℕ
one_if b = if b then 1 else 0

module _ (accepts : List Sent → DogActionType → Float → Bool → Bool) where
  unfoldable pub do_updates :
      List Pad → GamepadDogActionState × List Sent → GamepadDogActionState × List Sent
  unfolding update
  do_updates [] s = s
  do_updates (p ∷ ps) s = do_updates ps (update (some (log_send accepts)) p s)

  -- What was accepted and what is remembered, against another number.
  abbrev pub Balances : ℕ → GamepadDogActionState × List Sent → Type 0
  Balances n s = stands s.1 ≡ n + one_if s.0.stand

  lateral-Balances :
      (n : ℕ) (p : Pad) (s : GamepadDogActionState × List Sent)
      → Balances n s
      → Balances n (update_lateral (log_send accepts) p s)
  unfolding update_lateral
  lateral-Balances n p (g, w) v = ground arith

  stand-balances :
      (n : ℕ) (was_sent : Bool) (w : List Sent)
      → stands w ≡ n + one_if was_sent
      → let r = update_button (log_send accepts) DogActionType.stand true was_sent w in
        stands r.1 ≡ n + one_if r.0
  unfolding update_button
  stand-balances n was_sent w v = ground arith

  lie_down-stands :
      (held was_sent : Bool) (w : List Sent)
      → stands (update_button (log_send accepts) DogActionType.lie_down held was_sent w).1
        ≡ stands w
  unfolding update_button
  lie_down-stands held was_sent w = ground arith

  update-Balances :
      (n : ℕ) (p : Pad) (s : GamepadDogActionState × List Sent)
      → p.stand ≡ true
      → Balances n s
      → Balances n (update (some (log_send accepts)) p s)
  unfolding update
  update-Balances n p (g, w) h v =
      let r = update_lateral (log_send accepts) p (g, w) in
      let first = lateral-Balances n p (g, w) v in
      let b = update_button (log_send accepts) DogActionType.stand true r.0.stand r.1 in
      let second = stand-balances n r.0.stand r.1 first in
      rw (h, lie_down-stands p.lie_down r.0.lie_down b.1) second

  updates-Balances :
      (n : ℕ) (ps : List Pad) (s : GamepadDogActionState × List Sent)
      → All (λ p. p.stand ≡ true) ps
      → Balances n s
      → Balances n (do_updates ps s)
  unfolding do_updates
  updates-Balances n [] s h v = v
  updates-Balances n (p ∷ ps) s h v =
      updates-Balances n ps (update (some (log_send accepts)) p s) h.1 (update-Balances n p s h.0 v)

  -- While the button to stand is held, from a state that has not sent it, however often the pad is
  -- read and whatever is accepted: the command is accepted at most once, and once exactly if the state
  -- remembers it.
  pub held_sent_once :
      (ps : List Pad) (g : GamepadDogActionState) (w : List Sent)
      → All (λ p. p.stand ≡ true) ps
      → g.stand ≡ false
      → let s = do_updates ps (g, w) in stands s.1 ≡ stands w + one_if s.0.stand
  held_sent_once ps g w h e = updates-Balances (stands w) ps (g, w) h (rw e (omega arith))
