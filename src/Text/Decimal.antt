-- ===== src/Text/Decimal.antt =====
-- Numbers written by `to_string` of src/Utils.h and read by an extraction.
use cirrus.Prelude.{
  ℕ, zero, suc, ◌+◌, ◌-◌, ◌*◌, ◌/◌, ◌%◌, ◌^◌, ◌<◌, ◌≡◌, refl, true, false, List, [], ◌∷◌, none,
  some, arith, ◌==◌, ◌∙◌, subst, inl, inr, Bool-cases, ltb,
}
use cirrus.Text.{
  is_space, is_digit, scan_digits, scan_u64, print_digits, to_string, extract, fit, skip_space,
}

digit-is_digit : (d : ℕ) → d < 10 → is_digit (b'0' + d) ≡ true
unfolding is_digit
digit-is_digit d h = ground arith

scan_digits-digit :
    (d : ℕ) (cs : List ℕ) (v : ℕ)
    → d < 10
    → scan_digits ((b'0' + d) ∷ cs) (some v) ≡ scan_digits cs (some (v * 10 + d))
unfolding scan_digits
scan_digits-digit d cs v h =
    let e : b'0' + d - b'0' ≡ d = omega arith in rw (digit-is_digit d h, e) refl

scan_digits-first :
    (d : ℕ) (cs : List ℕ) → d < 10 → scan_digits ((b'0' + d) ∷ cs) none ≡ scan_digits cs (some d)
unfolding scan_digits
scan_digits-first d cs h =
    let e : b'0' + d - b'0' ≡ d = omega arith in rw (digit-is_digit d h, e) refl

pub scan_digits-print_digits :
    (fuel n : ℕ) (rest : List ℕ)
    → n < fuel
    → scan_digits (print_digits fuel n rest) none ≡ scan_digits rest (some n)
unfolding print_digits
scan_digits-print_digits zero n rest h = absurd (omega arith)
scan_digits-print_digits (suc fuel) n rest h = elim (Bool-cases (ltb n 10)) [
  | inl small ↦ rw small (scan_digits-first n rest (ground arith))
  | inr large ↦
      let e : n / 10 * 10 + n % 10 ≡ n = omega arith in
      rw large (
        scan_digits-print_digits fuel (n / 10) ((b'0' + n % 10) ∷ rest) (ground arith)
        ∙ scan_digits-digit (n % 10) rest (n / 10) (omega arith)
        ∙ rw e refl)
]

-- The first character is a digit, so that there is no sign and nothing to skip.
print_digits-front :
    (fuel n : ℕ) (rest : List ℕ)
    → n < fuel
    → (d : ℕ) × (cs : List ℕ) × (d < 10) × (print_digits fuel n rest ≡ (b'0' + d) ∷ cs)
unfolding print_digits
print_digits-front zero n rest h = absurd (omega arith)
print_digits-front (suc fuel) n rest h = elim (Bool-cases (ltb n 10)) [
  | inl small ↦ (n, rest, ground arith, rw small refl)
  | inr large ↦ rw large (print_digits-front fuel (n / 10) ((b'0' + n % 10) ∷ rest) (ground arith))
]

scan_u64-digit :
    (d : ℕ) (cs : List ℕ) (v : ℕ)
    → d < 10
    → scan_digits ((b'0' + d) ∷ cs) none ≡ some v
    → v < 2 ^ 64
    → scan_u64 ((b'0' + d) ∷ cs) ≡ (v, false)
unfolding scan_u64 fit
scan_u64-digit d cs v h e small =
    let plus : (b'0' + d == b'+') ≡ false = ground arith in
    let minus : (b'0' + d == b'-') ≡ false = ground arith in rw (minus, plus, e) (ground arith)

not_space : (d : ℕ) → d < 10 → is_space (b'0' + d) ≡ false
unfolding is_space
not_space d h = ground arith

skip_space-digit :
    (d : ℕ) (cs : List ℕ) → d < 10 → skip_space (b' ' ∷ (b'0' + d) ∷ cs) ≡ (b'0' + d) ∷ cs
unfolding skip_space is_space
skip_space-digit d cs h = ground (arith, not_space d h)

extract-digit :
    (d old : ℕ) (cs : List ℕ)
    → d < 10
    → extract scan_u64 old (b' ' ∷ (b'0' + d) ∷ cs) ≡ scan_u64 ((b'0' + d) ∷ cs)
unfolding extract
extract-digit d old cs h = rw (skip_space-digit d cs h, extract) refl

pub extract-to_string :
    (n old : ℕ) → n < 2 ^ 64 → extract scan_u64 old (b' ' ∷ to_string n) ≡ (n, false)
unfolding to_string
extract-to_string n old small =
    let (d, cs, h, front) = print_digits-front (n + 1) n [] (omega arith) in
    let value : scan_digits (print_digits (n + 1) n []) none ≡ some n =
      scan_digits-print_digits (n + 1) n [] (omega arith) ∙ unfold scan_digits in refl in
    let first : scan_digits ((b'0' + d) ∷ cs) none ≡ some n =
      subst (λ t. scan_digits t none ≡ some n) front value in
    rw front (extract-digit d old cs h ∙ scan_u64-digit d cs n h first small)
