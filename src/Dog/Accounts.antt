-- ===== src/Dog/Accounts.antt =====
-- dog_command_forwarder.cpp: where the requests are that were accepted with a behaviour goal.
use rtc_framework.Base.{
  ℕ, ◌+◌, ◌≡◌, refl, Bool, true, List, [], ◌∷◌, ◌++◌, none, some, ◌==◌, arith, if◌then◌else◌,
}
use rtc_framework.Base.Assoc.{lookup, insert, erase, lookup-insert, lookup-erase}
use rtc_framework.Dog.Types.{Task, behavior_task, Completion, Impl}

abbrev pub one_if : Bool → ℕ
one_if b = if b then 1 else 0

-- How often the request is among the calls of the callback, the goals that wait, and the tasks.
abbrev pub answered : ℕ → List Completion → ℕ
answered x [] = 0
answered x (c ∷ cs) = one_if (c.request_id == x) + answered x cs

abbrev pub waiting : ℕ → List (ℕ × ℕ) → ℕ
waiting x [] = 0
waiting x ((goal, id) ∷ goals) = one_if (id == x) + waiting x goals

abbrev pub asks_for : ℕ → Task → ℕ
asks_for x (behavior_task frame goal id) = one_if (id == x)
asks_for x _ = 0

abbrev pub posted : ℕ → List Task → ℕ
posted x [] = 0
posted x (task ∷ tasks) = asks_for x task + posted x tasks

-- No goal id stands twice.
abbrev pub AreDistinct : List (ℕ × ℕ) → Type 0
AreDistinct [] = Unit {0}
AreDistinct ((goal, id) ∷ goals) = (lookup goal goals ≡ none) × AreDistinct goals

pub record IsAccounted (x n : ℕ) (s : Impl) : Type 0 where
  pub heard : s.has_completion ≡ true
  pub distinct : AreDistinct s.pending_behavior_goals
  pub total : answered x s.completions + (waiting x s.pending_behavior_goals + posted x s.tasks) ≡ n

pub posted-append :
    (x : ℕ) (ts : List Task) (t : Task) → posted x (ts ++ t ∷ []) ≡ posted x ts + asks_for x t
posted-append x [] t = omega arith
posted-append x (u ∷ ts) t = omega (arith, posted-append x ts t)

pub insert-AreDistinct :
    (goal id : ℕ) (goals : List (ℕ × ℕ))
    → lookup goal goals ≡ none
    → AreDistinct goals
    → AreDistinct (insert goal id goals)
unfolding insert lookup
insert-AreDistinct goal id [] h v = (refl, tt)
insert-AreDistinct goal id ((g, i) ∷ goals) h v =
    ground (arith, insert-AreDistinct goal id goals, lookup-insert goal g id goals)

pub waiting-insert :
    (x goal id : ℕ) (goals : List (ℕ × ℕ))
    → lookup goal goals ≡ none
    → waiting x (insert goal id goals) ≡ one_if (id == x) + waiting x goals
unfolding insert lookup
waiting-insert x goal id [] h = refl
waiting-insert x goal id ((g, i) ∷ goals) h = ground (arith, waiting-insert x goal id goals)

erase_absent :
    (x goal : ℕ) (goals : List (ℕ × ℕ))
    → lookup goal goals ≡ none
    → waiting x (erase goal goals) ≡ waiting x goals
unfolding erase lookup
erase_absent x goal [] h = refl
erase_absent x goal ((g, i) ∷ goals) h = ground (arith, erase_absent x goal goals)

pub erase-AreDistinct :
    (goal : ℕ) (goals : List (ℕ × ℕ)) → AreDistinct goals → AreDistinct (erase goal goals)
unfolding erase
erase-AreDistinct goal [] v = tt
erase-AreDistinct goal ((g, i) ∷ goals) v =
    ground (arith, erase-AreDistinct goal goals v.1, lookup-erase goal g goals)

pub waiting-erase :
    (x goal id : ℕ) (goals : List (ℕ × ℕ))
    → AreDistinct goals
    → lookup goal goals ≡ some id
    → one_if (id == x) + waiting x (erase goal goals) ≡ waiting x goals
unfolding erase lookup
waiting-erase x goal id [] v h = cc
waiting-erase x goal id ((g, i) ∷ goals) v h =
    ground (arith, waiting-erase x goal id goals v.1, erase_absent x goal goals)
