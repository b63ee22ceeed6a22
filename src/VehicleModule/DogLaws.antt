-- ===== src/VehicleModule/DogLaws.antt =====
-- vehicle_control_module.cpp: the search for a free completion id of a dog action.
use rtc_framework.Base.{
  ℕ, zero, suc, ◌+◌, ◌≤◌, ◌<◌, ◌≡◌, ◌≢◌, refl, sym, Bool, true, false, ◌||◌, List, [], ◌∷◌, none,
  ◌==◌, length, u64, if◌then◌else◌, if_elim, subst, ◌∙◌, arith,
}
use rtc_framework.Base.Assoc.{lookup}
use rtc_framework.VehicleModule.State.{PendingDogAction, VehicleControlModule}
use rtc_framework.VehicleModule.Dog.{is_taken, next_free, allocate_dog_action_completion_id}

-- Membership of a number in a list, as a test, and the list without one occurrence.
has : ℕ → List ℕ → Bool
has k [] = false
has k (x ∷ xs) = x == k || has k xs

without : ℕ → List ℕ → List ℕ
without k [] = []
without k (x ∷ xs) = if x == k then xs else x ∷ without k xs

length-without : (k : ℕ) (xs : List ℕ) → has k xs ≡ true → suc (length (without k xs)) ≡ length xs
unfolding has without
length-without k [] h = cc
length-without k (x ∷ xs) h = ground (arith, length-without k xs)

has-without : (k j : ℕ) (xs : List ℕ) → j ≢ k → has j xs ≡ true → has j (without k xs) ≡ true
unfolding has without
has-without k j [] n h = cc
has-without k j (x ∷ xs) n h = ground (arith, has-without k j xs n)

-- The numbers that are not free: 0 and the keys.
taken : List (ℕ × PendingDogAction) → List ℕ
taken [] = 0 ∷ []
taken ((id, p) ∷ m) = id ∷ taken m

length-taken : (m : List (ℕ × PendingDogAction)) → length (taken m) ≡ suc (length m)
unfolding taken
length-taken [] = refl
length-taken ((id, p) ∷ m) = omega (arith, length-taken m)

has-taken : (id : ℕ) (m : List (ℕ × PendingDogAction)) → has id (taken m) ≡ is_taken id m
unfolding has taken lookup
has-taken id [] = ground arith
has-taken id ((j, p) ∷ m) = ground (arith, has-taken id m)

-- The numbers that the next `n` rounds from `id` try are `id + i`, cut to 64 bits.
abbrev try : ℕ → ℕ → ℕ
try id i = u64 (id + i)

try-zero : (id : ℕ) → id < 18446744073709551616 → try id 0 ≡ id
try-zero id b = omega arith

try-next : (id i : ℕ) → try (u64 (id + 1)) i ≡ try id (suc i)
try-next id i = omega arith

try-ne : (id i : ℕ) → id < 18446744073709551616 → suc i < 18446744073709551616 → try id (suc i) ≢ id
try-ne id i b f = omega arith

-- As long as `xs` holds every taken number that is still to be tried, and is shorter than the
-- rounds left, a free number is found.
next_free-free :
    (fuel id : ℕ) (m : List (ℕ × PendingDogAction)) (xs : List ℕ)
    → id < 18446744073709551616
    → fuel ≤ 18446744073709551616
    → length xs < fuel
    → ((i : ℕ) → i < fuel → is_taken (try id i) m ≡ true → has (try id i) xs ≡ true)
    → is_taken (next_free fuel id m) m ≡ false
unfolding next_free
next_free-free zero id m xs b f l h = absurd (omega arith)
next_free-free (suc fuel) id m xs b f l h =
    if_elim (λ k. is_taken k m ≡ false) (is_taken id m) _ id
      (λ used.
        let held : has id xs ≡ true =
          subst (λ k. has k xs ≡ true) (try-zero id b)
            (h 0 (omega arith) (subst (λ k. is_taken k m ≡ true) (sym (try-zero id b)) used)) in
        next_free-free fuel (u64 (id + 1)) m (without id xs) (omega arith) (omega arith)
          (omega (arith, length-without id xs held))
          (λ i lt t. rw (try-next id i) (
            has-without id (try id (suc i)) xs (try-ne id i b (omega arith))
              (h (suc i) (omega arith) (rw (try-next id i) at t)))))
      (λ free. free)

-- With fewer entries than 64-bit numbers, the search ends at an id that is not 0 and under which
-- nothing is pending.
pub allocate_fresh :
    {S : Type 0} (s : VehicleControlModule S)
    → s.next_dog_action_completion_id < 18446744073709551616
    → length s.pending_dog_actions + 2 ≤ 18446744073709551616
    → (allocate_dog_action_completion_id s ≢ 0)
      × (lookup (allocate_dog_action_completion_id s) s.pending_dog_actions ≡ none)
unfolding allocate_dog_action_completion_id
allocate_fresh s b l = ground (
  arith,
  next_free-free (suc (suc (length s.pending_dog_actions))) s.next_dog_action_completion_id
      s.pending_dog_actions (taken s.pending_dog_actions) b (omega arith)
      (omega (arith, length-taken s.pending_dog_actions))
      (λ i lt t. has-taken _ s.pending_dog_actions ∙ t),
)
