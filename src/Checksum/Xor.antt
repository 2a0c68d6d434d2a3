-- ===== src/Checksum/Xor.antt =====
-- The exclusive or of src/Checksum.cpp on the digits of a number.
use Prim.Native.Nat.{bit_and, bit_xor, digits, differ, bit_and-bitwise, bit_xor-bitwise}
use cirrus.Prelude.{
  ℕ, zero, suc, ◌+◌, ◌*◌, ◌/◌, ◌%◌, ◌≤◌, ◌<◌, min, ◌≡◌, refl, sym, ap, ◌∙◌, ◌⊎◌, inl, inr, arith,
}

-- The count of digits may be any that is large enough.
count_free :
    (z : ℕ → ℕ) (f : ℕ → ℕ → ℕ) (n m a b : ℕ) → a ≤ n → a ≤ m → digits z f n a b ≡ digits z f m a b
count_free z f zero zero a b p q = refl
count_free z f zero (suc m) zero b p q = refl
count_free z f zero (suc m) (suc a) b p q = absurd (omega arith)
count_free z f (suc n) zero zero b p q = refl
count_free z f (suc n) zero (suc a) b p q = absurd (omega arith)
count_free z f (suc n) (suc m) zero b p q = refl
count_free z f (suc n) (suc m) (suc a) b p q =
    ap (λ x. x * 2 + f (suc a % 2) (b % 2))
      (count_free z f n m (suc a / 2) (b / 2) (omega arith) (omega arith))

pub zero-xor : (b : ℕ) → bit_xor 0 b ≡ b
zero-xor b = bit_xor-bitwise 0 b

-- The lowest digit and the others.
pub xor_parts : (a b : ℕ) → bit_xor a b ≡ bit_xor (a / 2) (b / 2) * 2 + differ (a % 2) (b % 2)
xor_parts zero b = omega (arith, zero-xor b, zero-xor (b / 2))
xor_parts (suc a) b = omega (
  arith,
  bit_xor-bitwise (suc a) b,
  bit_xor-bitwise (suc a / 2) (b / 2),
  count_free (λ x. x) differ a (suc a / 2) (suc a / 2) (b / 2) (omega arith) (omega arith),
)

pub digit_cases : (r : ℕ) → r < 2 → (r ≡ 0) ⊎ (r ≡ 1)
digit_cases zero h = inl refl
digit_cases (suc zero) h = inr refl
digit_cases (suc (suc r)) h = absurd (omega arith)

differ_small : (r s : ℕ) → r < 2 → s < 2 → differ r s < 2
differ_small zero s p q = q
differ_small (suc zero) zero p q = omega arith
differ_small (suc zero) (suc s) p q = omega arith
differ_small (suc (suc r)) s p q = absurd (omega arith)

pub differ-zero : (r : ℕ) → differ r 0 ≡ r
differ-zero zero = refl
differ-zero (suc r) = refl

differ_comm : (r s : ℕ) → differ r s ≡ differ s r
differ_comm zero zero = refl
differ_comm zero (suc s) = refl
differ_comm (suc r) zero = refl
differ_comm (suc r) (suc s) = differ_comm r s

differ_assoc : (r s t : ℕ) → r < 2 → s < 2 → t < 2 → differ (differ r s) t ≡ differ r (differ s t)
differ_assoc zero s t p q h = refl
differ_assoc (suc zero) zero t p q h = refl
differ_assoc (suc zero) (suc zero) zero p q h = refl
differ_assoc (suc zero) (suc zero) (suc zero) p q h = refl
differ_assoc (suc zero) (suc zero) (suc (suc t)) p q h = absurd (omega arith)
differ_assoc (suc zero) (suc (suc s)) t p q h = absurd (omega arith)
differ_assoc (suc (suc r)) s t p q h = absurd (omega arith)

pub xor-half : (a b : ℕ) → bit_xor a b / 2 ≡ bit_xor (a / 2) (b / 2)
xor-half a b =
    omega (arith, xor_parts a b, differ_small (a % 2) (b % 2) (omega arith) (omega arith))

pub xor-digit : (a b : ℕ) → bit_xor a b % 2 ≡ differ (a % 2) (b % 2)
xor-digit a b =
    omega (arith, xor_parts a b, differ_small (a % 2) (b % 2) (omega arith) (omega arith))

comm_upto : (n a b : ℕ) → a ≤ n → b ≤ n → bit_xor a b ≡ bit_xor b a
comm_upto zero zero zero p q = refl
comm_upto zero zero (suc b) p q = absurd (omega arith)
comm_upto zero (suc a) b p q = absurd (omega arith)
comm_upto (suc n) a b p q = omega (
  arith,
  xor_parts a b,
  xor_parts b a,
  comm_upto n (a / 2) (b / 2) (omega arith) (omega arith),
  differ_comm (a % 2) (b % 2),
)

pub xor_comm : (a b : ℕ) → bit_xor a b ≡ bit_xor b a
xor_comm a b = comm_upto (a + b) a b (omega arith) (omega arith)

pub xor-zero : (a : ℕ) → bit_xor a 0 ≡ a
xor-zero a = xor_comm a 0 ∙ zero-xor a

assoc_upto :
    (n a b c : ℕ) → a ≤ n → b ≤ n → c ≤ n → bit_xor (bit_xor a b) c ≡ bit_xor a (bit_xor b c)
assoc_upto zero zero b c p q h = ap (λ x. bit_xor x c) (zero-xor b) ∙ sym (zero-xor (bit_xor b c))
assoc_upto zero (suc a) b c p q h = absurd (omega arith)
assoc_upto (suc n) a b c p q h = omega (
  arith,
  xor_parts (bit_xor a b) c,
  xor_parts a (bit_xor b c),
  ap (λ x. bit_xor x (c / 2)) (xor-half a b),
  ap (λ x. bit_xor (a / 2) x) (xor-half b c),
  ap (λ x. differ x (c % 2)) (xor-digit a b),
  ap (λ x. differ (a % 2) x) (xor-digit b c),
  assoc_upto n (a / 2) (b / 2) (c / 2) (omega arith) (omega arith) (omega arith),
  differ_assoc (a % 2) (b % 2) (c % 2) (omega arith) (omega arith) (omega arith),
)

pub xor_assoc : (a b c : ℕ) → bit_xor (bit_xor a b) c ≡ bit_xor a (bit_xor b c)
xor_assoc a b c = assoc_upto (a + b + c) a b c (omega arith) (omega arith) (omega arith)

pub xor_swap :
    (a b c d : ℕ) → bit_xor (bit_xor a b) (bit_xor c d) ≡ bit_xor (bit_xor a c) (bit_xor b d)
xor_swap a b c d =
    xor_assoc a b (bit_xor c d)
    ∙ ap (bit_xor a)
        (sym (xor_assoc b c d) ∙ ap (λ x. bit_xor x d) (xor_comm b c) ∙ xor_assoc c b d)
    ∙ sym (xor_assoc a c (bit_xor b d))

-- A mask of `n` ones keeps the remainder by 2 ^ n.
abbrev pub ones : ℕ → ℕ
ones zero = 0
ones (suc n) = ones n * 2 + 1

abbrev pub rest_of : ℕ → ℕ → ℕ
rest_of zero a = 0
rest_of (suc n) a = rest_of n (a / 2) * 2 + a % 2

and_parts : (a b : ℕ) → bit_and a b ≡ bit_and (a / 2) (b / 2) * 2 + min (a % 2) (b % 2)
and_parts zero b = omega (arith, bit_and-bitwise 0 b, bit_and-bitwise 0 (b / 2))
and_parts (suc a) b = omega (
  arith,
  bit_and-bitwise (suc a) b,
  bit_and-bitwise (suc a / 2) (b / 2),
  count_free (λ x. zero) min a (suc a / 2) (suc a / 2) (b / 2) (omega arith) (omega arith),
)

and_nothing : (n a : ℕ) → a ≤ n → bit_and a 0 ≡ 0
and_nothing zero zero h = refl
and_nothing zero (suc a) h = absurd (omega arith)
and_nothing (suc n) a h = omega (arith, and_parts a 0, and_nothing n (a / 2) (omega arith))

and-ones : (n a : ℕ) → bit_and a (ones n) ≡ rest_of n a
and-ones zero a = and_nothing a a (omega arith)
and-ones (suc n) a =
    let half : (ones n * 2 + 1) / 2 ≡ ones n = omega arith in
    omega
      (arith, and_parts a (ones n * 2 + 1), ap (λ x. bit_and (a / 2) x) half, and-ones n (a / 2))

pub and_byte : (a : ℕ) → bit_and a 0xFF ≡ a % 256
and_byte a = and-ones 8 a ∙ omega arith
