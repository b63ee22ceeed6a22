-- ===== src/Packet/Slots.antt =====
-- The slots of a message whose sub packets came in order: numbered from 0.
use rtc_framework.Base.{
  ℕ, suc, ◌+◌, ◌≡◌, refl, ap, sym, ◌∙◌, List, [], ◌∷◌, ◌++◌, some, length, arith,
}
use rtc_framework.Base.Assoc.{lookup}
use rtc_framework.Packet.Depacketizer.{Slots, put_slot, join}

unfoldable pub numbered : ℕ → List (List ℕ) → Slots
numbered n [] = []
numbered n (v ∷ vs) = (n, v) ∷ numbered (suc n) vs

pub length-numbered : (n : ℕ) (vs : List (List ℕ)) → length (numbered n vs) ≡ length vs
unfolding numbered
length-numbered n [] = refl
length-numbered n (v ∷ vs) = ap suc (length-numbered (suc n) vs)

-- A slot with the next number comes last.
pub put_slot-numbered :
    (n k : ℕ) (v : List ℕ) (vs : List (List ℕ))
    → k ≡ n + length vs
    → put_slot k v (numbered n vs) ≡ numbered n (vs ++ v ∷ [])
unfolding numbered put_slot
put_slot-numbered n k v [] e = ground arith
put_slot-numbered n k v (w ∷ vs) e = ground (arith, put_slot-numbered (suc n) k v vs)

pub lookup-numbered :
    (n k : ℕ) (v : List ℕ) (vs : List (List ℕ))
    → k ≡ n + length vs
    → lookup k (numbered n (vs ++ v ∷ [])) ≡ some v
unfolding numbered lookup
lookup-numbered n k v [] e = ground arith
lookup-numbered n k v (w ∷ vs) e = ground (arith, lookup-numbered (suc n) k v vs)

append_assoc : (xs ys zs : List ℕ) → (xs ++ ys) ++ zs ≡ xs ++ (ys ++ zs)
append_assoc [] ys zs = refl
append_assoc (x ∷ xs) ys zs = ap (◌∷◌ x) (append_assoc xs ys zs)

append_nil : (xs : List ℕ) → xs ++ [] ≡ xs
append_nil [] = refl
append_nil (x ∷ xs) = ap (◌∷◌ x) (append_nil xs)

pub join-numbered :
    (n : ℕ) (v : List ℕ) (vs : List (List ℕ))
    → join (numbered n (vs ++ v ∷ [])) ≡ join (numbered n vs) ++ v
unfolding numbered join
join-numbered n v [] = append_nil v
join-numbered n v (w ∷ vs) =
    ap (λ u. w ++ u) (join-numbered (suc n) v vs)
    ∙ sym (append_assoc w (join (numbered (suc n) vs)) v)

pub join-cut :
    (n : ℕ) (v u : List ℕ) (vs : List (List ℕ))
    → join (numbered n (vs ++ v ∷ [])) ++ u ≡ join (numbered n vs) ++ (v ++ u)
join-cut n v u vs =
    ap (λ w. w ++ u) (join-numbered n v vs) ∙ append_assoc (join (numbered n vs)) v u
