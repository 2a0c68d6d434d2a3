-- ===== src/Bytes/Laws.antt =====
-- Loads after stores of src/Utils.h, and the number of bytes that a store takes.
use cirrus.Prelude.{
  ℕ, ◌+◌, ◌*◌, ◌/◌, ◌%◌, ◌^◌, ◌<◌, ◌≡◌, refl, ap, ◌∙◌, List, [], ◌∷◌, ◌++◌, arith, length, All,
}
use cirrus.Prelude.Result.{Result, ok}
use cirrus.Floats.{Floats, IsExact}
use cirrus.Bytes.{
  u32_word, word_u32, store_u32, load_u32, store_u64, load_u64, store_float, load_float, store_list,
  load_list, store_pair, load_pair,
}

pub word_u32-u32_word : (n : ℕ) → n < 2 ^ 32 → word_u32 (u32_word n) ≡ n
word_u32-u32_word n h = omega arith

pub load_u32-store_u32 :
    (n : ℕ) (rest : List ℕ) → n < 2 ^ 32 → load_u32 (store_u32 n rest) ≡ ok (n, rest)
unfolding load_u32 store_u32
load_u32-store_u32 n rest h = rw (word_u32-u32_word n h)

-- Of a wider value the low 32 bits come back.
pub load_u32-store_u32_mod :
    (n : ℕ) (rest : List ℕ) → load_u32 (store_u32 n rest) ≡ ok (n % 2 ^ 32, rest)
unfolding load_u32 store_u32
load_u32-store_u32_mod n rest = let low : word_u32 (u32_word n) ≡ n % 2 ^ 32 = omega arith in rw low

pub load_u64-store_u64 :
    (n : ℕ) (rest : List ℕ) → n < 2 ^ 64 → load_u64 (store_u64 n rest) ≡ ok (n, rest)
unfolding load_u64 store_u64
load_u64-store_u64 n rest h =
    let whole : n % 2 ^ 32 + 2 ^ 32 * (n / 2 ^ 32 % 2 ^ 32) ≡ n = omega arith in
    rw
      (
        load_u32-store_u32_mod n (store_u32 (n / 2 ^ 32) rest),
        load_u32-store_u32_mod (n / 2 ^ 32) rest,
        whole,
      )
      refl

All-Unit : {A : Type 0} (xs : List A) → All (λ _. Unit {0}) xs
All-Unit [] = tt
All-Unit (x ∷ xs) = (tt, All-Unit xs)

pub length-store_u32 : (n : ℕ) (rest : List ℕ) → length (store_u32 n rest) ≡ 4 + length rest
unfolding store_u32
length-store_u32 n rest = omega arith

pub length-store_u64 : (n : ℕ) (rest : List ℕ) → length (store_u64 n rest) ≡ 8 + length rest
unfolding store_u64
length-store_u64 n rest =
    omega
      (arith, length-store_u32 n (store_u32 (n / 2 ^ 32) rest), length-store_u32 (n / 2 ^ 32) rest)

-- A vector is loaded back if each of its elements is.
pub load_list-store_list {ℓ} :
    {A : Type 0} (P : A → Type ℓ) (store : A → List ℕ → List ℕ)
    (load : List ℕ → Result (A × List ℕ))
    → ((x : A) (rest : List ℕ) → P x → load (store x rest) ≡ ok (x, rest))
    → (xs : List A) (rest : List ℕ) → All P xs
    → load_list load (length xs) (store_list store xs rest) ≡ ok (xs, rest)
unfolding load_list store_list
load_list-store_list P store load back [] rest h = refl
load_list-store_list P store load back (x ∷ xs) rest (p, ps) =
    rw (back x (store_list store xs rest) p, load_list-store_list P store load back xs rest ps) refl

pub store_list-append :
    {A : Type 0} (store : A → List ℕ → List ℕ) (xs ys : List A) (rest : List ℕ)
    → store_list store (xs ++ ys) rest ≡ store_list store xs (store_list store ys rest)
unfolding store_list
store_list-append store [] ys rest = refl
store_list-append store (x ∷ xs) ys rest = ap (store x) (store_list-append store xs ys rest)

-- What is stored first stays in front of all that follows.
pub store_u32-append : (n : ℕ) (a b : List ℕ) → store_u32 n a ++ b ≡ store_u32 n (a ++ b)
unfolding store_u32
store_u32-append n a b = refl

pub store_list-in_front :
    {A : Type 0} (store : A → List ℕ → List ℕ)
    → ((x : A) (a b : List ℕ) → store x a ++ b ≡ store x (a ++ b))
    → (xs : List A) (a b : List ℕ) → store_list store xs a ++ b ≡ store_list store xs (a ++ b)
unfolding store_list
store_list-in_front store each [] a b = refl
store_list-in_front store each (x ∷ xs) a b =
    each x (store_list store xs a) b ∙ ap (store x) (store_list-in_front store each xs a b)

-- Elements of `k` bytes each.
pub length-store_list :
    {A : Type 0} (k : ℕ) (store : A → List ℕ → List ℕ)
    → ((x : A) (rest : List ℕ) → length (store x rest) ≡ k + length rest)
    → (xs : List A) (rest : List ℕ)
    → length (store_list store xs rest) ≡ length xs * k + length rest
unfolding store_list
length-store_list k store each [] rest = omega arith
length-store_list k store each (x ∷ xs) rest =
    grind (arith, each x (store_list store xs rest), length-store_list k store each xs rest)

module _ {F D : Type 0} (fl : Floats F D) where
  pub length-store_float :
      (x : F) (rest : List ℕ) → length (store_float fl x rest) ≡ 4 + length rest
  unfolding store_float
  length-store_float x rest = omega arith

  pub length-store_pair :
      (p : ℕ × F) (rest : List ℕ) → length (store_pair fl p rest) ≡ 8 + length rest
  unfolding store_pair
  length-store_pair (i, x) rest =
      omega (arith, length-store_u32 i (store_float fl x rest), length-store_float x rest)

  pub store_float-append :
      (x : F) (a b : List ℕ) → store_float fl x a ++ b ≡ store_float fl x (a ++ b)
  unfolding store_float
  store_float-append x a b = refl

  pub store_pair-append :
      (p : ℕ × F) (a b : List ℕ) → store_pair fl p a ++ b ≡ store_pair fl p (a ++ b)
  unfolding store_pair store_u32 store_float
  store_pair-append (i, x) a b = refl

  module _ (exact : IsExact fl) where
    pub load_float-store_float :
        (x : F) (rest : List ℕ) → load_float fl (store_float fl x rest) ≡ ok (x, rest)
    unfolding load_float store_float
    load_float-store_float x rest = rw (exact.of_word-word x)

    pub load_pair-store_pair :
        (p : ℕ × F) (rest : List ℕ)
        → p.0 < 2 ^ 32
        → load_pair fl (store_pair fl p rest) ≡ ok (p, rest)
    unfolding load_pair store_pair
    load_pair-store_pair (i, x) rest h =
        rw (load_u32-store_u32 i (store_float fl x rest) h, load_float-store_float x rest) refl

    pub load_floats-store_floats :
        (xs : List F) (rest : List ℕ)
        → load_list (load_float fl) (length xs) (store_list (store_float fl) xs rest)
          ≡ ok (xs, rest)
    load_floats-store_floats xs rest =
        load_list-store_list (λ _. Unit {0}) (store_float fl) (load_float fl)
          (λ x rest' _. load_float-store_float x rest') xs rest (All-Unit xs)
