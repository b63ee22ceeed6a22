-- ===== src/Manager/Held.antt =====
-- rtc_connection_manager.cpp: how often a peer connection stands in the table, and in the list of those
-- that were closed.
use rtc_framework.Base.{
  ℕ, ◌+◌, ◌≡◌, refl, List, [], ◌∷◌, Option, none, some, ◌==◌, arith, if◌then◌else◌,
}
use rtc_framework.Base.Assoc.{lookup, erase}
use rtc_framework.Base.Sorted.{put, IsAscending, ascending, absent_below}
use rtc_framework.Manager.Peers.{close_all}

abbrev pub count : ℕ → List ℕ → ℕ
count p [] = 0
count p (q ∷ qs) = (if q == p then 1 else 0) + count p qs

abbrev pub held : ℕ → List (ℕ × ℕ) → ℕ
held p [] = 0
held p ((remote, q) ∷ others) = (if q == p then 1 else 0) + held p others

abbrev pub held_by : ℕ → Option ℕ → ℕ
held_by p none = 0
held_by p (some q) = if q == p then 1 else 0

held-erase_absent : (p k : ℕ) (m : List (ℕ × ℕ)) → lookup k m ≡ none → held p (erase k m) ≡ held p m
unfolding lookup erase
held-erase_absent p k [] h = refl
held-erase_absent p k ((i, q) ∷ m) h = ground (arith, held-erase_absent p k m)

pub held-erase :
    (p k : ℕ) (m : List (ℕ × ℕ))
    → IsAscending m
    → held p (erase k m) + held_by p (lookup k m) ≡ held p m
unfolding lookup erase
held-erase p k [] h = refl
held-erase p k ((i, q) ∷ m) h =
    ground
      (arith, held-erase p k m (ascending i m h), held-erase_absent p k m, absent_below i k m h)

pub held-put :
    (p k q : ℕ) (m : List (ℕ × ℕ))
    → IsAscending m
    → held p (put k q m) + held_by p (lookup k m) ≡ held p m + (if q == p then 1 else 0)
unfolding lookup put
held-put p k q [] h = ground arith
held-put p k q ((i, r) ∷ m) h =
    ground (arith, held-put p k q m (ascending i m h), absent_below i k m h)

pub count-close_all :
    (p : ℕ) (m : List (ℕ × ℕ)) (closed : List ℕ)
    → count p (close_all m closed) ≡ held p m + count p closed
count-close_all p [] closed = omega arith
count-close_all p ((i, q) ∷ m) closed = ground (arith, count-close_all p m (q ∷ closed))
