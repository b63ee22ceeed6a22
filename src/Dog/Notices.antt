-- ===== src/Dog/Notices.antt =====
-- The callbacks change nothing but the list of the calls.
use rtc_framework.Base.{ℕ, List, [], ◌∷◌, String, if_elim, Option-cases, inl, inr}
use rtc_framework.Base.Assoc.{lookup}
use rtc_framework.VehicleProtocol.Types.{VehicleErrorCode}
use rtc_framework.VehicleModule.State.{VehicleCommandResult}
use rtc_framework.Dog.Types.{Completion, Impl}
use rtc_framework.Dog.Connection.{
  notify_dog_action_completion, complete_behavior_goal, notify_all, fail_pending_behavior_goals,
}

-- What holds of the members whatever the calls, holds after the notices.
pub notify_keeps {ℓ} :
    (P : Impl → Type ℓ) (id : ℕ) (r : VehicleCommandResult) (s : Impl)
    → ((c : List Completion) → P (record s { completions = c }))
    → P (notify_dog_action_completion id r s)
unfolding notify_dog_action_completion
notify_keeps P id r s h = if_elim P s.has_completion _ _ (λ _. h _) (λ _. h s.completions)

pub notify_all_keeps {ℓ} :
    (P : Impl → Type ℓ) (goals : List (ℕ × ℕ)) (r : VehicleCommandResult) (s : Impl)
    → ((c : List Completion) → P (record s { completions = c }))
    → P (notify_all goals r s)
unfolding notify_all
notify_all_keeps P [] r s h = h s.completions
notify_all_keeps P ((goal, id) ∷ goals) r s h =
    notify_all_keeps P goals r (notify_dog_action_completion id r s)
      (λ c. notify_keeps (λ t. P (record t { completions = c })) id r s (λ _. h c))

pub fail_pending_keeps {ℓ} :
    (P : Impl → Type ℓ) (code : VehicleErrorCode) (text : String) (s : Impl)
    → ((c : List Completion) → P (record s { pending_behavior_goals = []; completions = c }))
    → P (fail_pending_behavior_goals code text s)
unfolding fail_pending_behavior_goals
fail_pending_keeps P code text s h = notify_all_keeps P s.pending_behavior_goals _ _ h

pub complete_keeps {ℓ} :
    (P : Impl → Type ℓ) (goal : ℕ) (r : VehicleCommandResult) (s : Impl)
    → ((c : List Completion) (goals : List (ℕ × ℕ))
        → P (record s { pending_behavior_goals = goals; completions = c }))
    → P (complete_behavior_goal goal r s)
unfolding complete_behavior_goal
complete_keeps P goal r s h = elim (Option-cases (lookup goal s.pending_behavior_goals)) [
  | inl e ↦ rw (e, complete_behavior_goal) (h s.completions s.pending_behavior_goals)
  | inr (id, e) ↦ rw (e, complete_behavior_goal) (notify_keeps P id r _ (λ c. h c _))
]
