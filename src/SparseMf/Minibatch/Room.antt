-- ===== src/SparseMf/Minibatch/Room.antt =====
-- How many items `minibatch_grad` of src/SparseMFModel.cpp can have seen.
use cirrus.Prelude.{
  ℕ, zero, suc, ◌+◌, ◌<◌, ◌≤◌, ◌≡◌, refl, false, ◌||◌, List, [], ◌∷◌, length, has, arith, ◌==◌,
  if◌then◌else◌, Bool-cases, inl, inr,
}
use cirrus.SparseMf.Minibatch.Keys.{add_key}

-- The number of ids below `n` that are not in the list.
pub free : ℕ → List ℕ → ℕ
free zero ids = 0
free (suc n) ids = free n ids + (if has ids n then 0 else 1)

has-add_key : (k j : ℕ) (ids : List ℕ) → has (add_key k ids) j ≡ (has ids j || k == j)
unfolding add_key
has-add_key k j [] = refl
has-add_key k j (i ∷ ids) = ground (arith, has-add_key k j ids)

length-add_key :
    (k : ℕ) (ids : List ℕ) → length (add_key k ids) ≡ length ids + (if has ids k then 0 else 1)
unfolding add_key
length-add_key k [] = omega arith
length-add_key k (i ∷ ids) = ground (arith, length-add_key k ids)

free-above : (n k : ℕ) (ids : List ℕ) → n ≤ k → free n (add_key k ids) ≡ free n ids
unfolding free
free-above zero k ids h = refl
free-above (suc n) k ids h =
    let other : (k == n) ≡ false = ground arith in
    ground (arith, has-add_key k n ids, free-above n k ids (omega arith))

free-below :
    (n k : ℕ) (ids : List ℕ)
    → k < n
    → free n (add_key k ids) + (if has ids k then 0 else 1) ≡ free n ids
unfolding free
free-below zero k ids h = absurd (omega arith)
free-below (suc n) k ids h = elim (Bool-cases (k == n)) [
  | inl last ↦
      let e : k ≡ n = ground arith in
      ground (arith, has-add_key k n ids, free-above n k ids (ground arith))
  | inr before ↦ ground (arith, has-add_key k n ids, free-below n k ids (ground arith))
]

pub room-kept :
    (n k : ℕ) (ids : List ℕ)
    → k < n
    → length (add_key k ids) + free n (add_key k ids) ≡ length ids + free n ids
room-kept n k ids h = ground (arith, length-add_key k ids, free-below n k ids h)

pub room-empty : (n : ℕ) → free n [] ≡ n
unfolding free
room-empty zero = refl
room-empty (suc n) = omega (arith, room-empty n)
