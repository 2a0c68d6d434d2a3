-- ===== src/Checksum/Bitwise.antt =====
-- `crc32` of src/Checksum.cpp, against the checksum that takes one bit at a time.
use Prim.Native.Nat.{bit_and, bit_xor, differ}
use cirrus.Prelude.{
  ℕ, zero, suc, ◌+◌, ◌-◌, ◌*◌, ◌/◌, ◌%◌, ◌^◌, ◌<◌, ◌≡◌, refl, sym, ap, ap₂, ◌∙◌, Bool, true, ◌&&◌,
  List, [], ◌∷◌, All, arith, get_or, ◌==◌,
}
use cirrus.Prelude.Result.{ok}
use cirrus.Vector.{at, at-in}
use cirrus.Checksum.{crc32_tab, crc_loop, crc32}
use cirrus.Checksum.Xor.{
  differ-zero, xor_parts, xor-half, xor-digit, xor-zero, zero-xor, xor_swap, and_byte,
}

-- The polynomial of the checksum, its bits in the other order.
abbrev pub polynomial : ℕ
polynomial = 0xEDB88320

abbrev pub pick : ℕ → ℕ
pick zero = 0
pick (suc r) = polynomial

-- One bit leaves the register.
abbrev pub shift : ℕ → ℕ
shift c = bit_xor (c / 2) (pick (c % 2))

abbrev pub shifts : ℕ → ℕ → ℕ
shifts zero c = c
shifts (suc n) c = shifts n (shift c)

pub crc_bits : ℕ → List ℕ → ℕ
crc_bits crc [] = crc
crc_bits crc (byte ∷ bytes) = crc_bits (shifts 8 (bit_xor crc byte)) bytes

pub crc32_bits : List ℕ → ℕ
crc32_bits bytes = bit_xor (crc_bits (2 ^ 32 - 1) bytes) (2 ^ 32 - 1)

pick-differ : (r s : ℕ) → r < 2 → s < 2 → pick (differ r s) ≡ bit_xor (pick r) (pick s)
pick-differ zero zero p q = refl
pick-differ zero (suc zero) p q = refl
pick-differ (suc zero) zero p q = refl
pick-differ (suc zero) (suc zero) p q = refl
pick-differ zero (suc (suc s)) p q = absurd (omega arith)
pick-differ (suc zero) (suc (suc s)) p q = absurd (omega arith)
pick-differ (suc (suc r)) s p q = absurd (omega arith)

shift-xor : (a b : ℕ) → shift (bit_xor a b) ≡ bit_xor (shift a) (shift b)
shift-xor a b =
    ap₂ (λ x y. bit_xor x (pick y)) (xor-half a b) (xor-digit a b)
    ∙ ap (bit_xor (bit_xor (a / 2) (b / 2)))
        (pick-differ (a % 2) (b % 2) (omega arith) (omega arith))
    ∙ xor_swap (a / 2) (b / 2) (pick (a % 2)) (pick (b % 2))

shifts-xor : (n a b : ℕ) → shifts n (bit_xor a b) ≡ bit_xor (shifts n a) (shifts n b)
shifts-xor zero a b = refl
shifts-xor (suc n) a b = ap (shifts n) (shift-xor a b) ∙ shifts-xor n (shift a) (shift b)

abbrev doubled : ℕ → ℕ → ℕ
doubled zero q = q
doubled (suc n) q = doubled n q * 2

abbrev halves : ℕ → ℕ → ℕ
halves zero a = a
halves (suc n) a = halves n (a / 2)

-- Digits that are 0 only shift.
shifts-doubled : (n q : ℕ) → shifts n (doubled n q) ≡ q
shifts-doubled zero q = refl
shifts-doubled (suc n) q =
    let d = doubled n q in
    let half : d * 2 / 2 ≡ d = omega arith in
    let even : d * 2 % 2 ≡ 0 = omega arith in
    ap (shifts n) (ap₂ (λ x y. bit_xor x (pick y)) half even ∙ xor-zero d) ∙ shifts-doubled n q

-- Low digits and high digits do not meet.
xor-doubled : (n r q : ℕ) → halves n r ≡ 0 → bit_xor r (doubled n q) ≡ r + doubled n q
xor-doubled zero r q h = ap (λ x. bit_xor x q) h ∙ omega (arith, zero-xor q)
xor-doubled (suc n) r q h =
    let d = doubled n q in
    let half : d * 2 / 2 ≡ d = omega arith in
    let even : d * 2 % 2 ≡ 0 = omega arith in
    omega (
      arith,
      xor_parts r (d * 2),
      ap (bit_xor (r / 2)) half,
      ap (differ (r % 2)) even,
      differ-zero (r % 2),
      xor-doubled n (r / 2) q h,
    )

halves-xor : (n a b : ℕ) → halves n (bit_xor a b) ≡ bit_xor (halves n a) (halves n b)
halves-xor zero a b = refl
halves-xor (suc n) a b = ap (halves n) (xor-half a b) ∙ halves-xor n (a / 2) (b / 2)

-- Eight bits of the register leave as the table does it with the low byte.
shifts_byte : (c : ℕ) → shifts 8 c ≡ bit_xor (shifts 8 (c % 256)) (c / 256)
shifts_byte c =
    let low : halves 8 (c % 256) ≡ 0 = omega arith in
    let parts : c ≡ bit_xor (c % 256) (doubled 8 (c / 256)) =
      omega (arith, xor-doubled 8 (c % 256) (c / 256) low) in
    ap (shifts 8) parts
    ∙ shifts-xor 8 (c % 256) (doubled 8 (c / 256))
    ∙ ap (bit_xor (shifts 8 (c % 256))) (shifts-doubled 8 (c / 256))

-- The table, entry by entry.
abbrev holds_below : ℕ → (ℕ → Bool) → Bool
holds_below zero test = true
holds_below (suc n) test = test n && holds_below n test

holds_at : (n : ℕ) (test : ℕ → Bool) (i : ℕ) → holds_below n test ≡ true → i < n → test i ≡ true
holds_at zero test i h small = absurd (omega arith)
holds_at (suc n) test i h small = ground (arith, holds_at n test i)

entries : holds_below 256 (λ i. get_or crc32_tab i 0 == shifts 8 i) ≡ true
entries = refl

equal : (a b : ℕ) → (a == b) ≡ true → a ≡ b
equal a b e = ground arith

entry : (i : ℕ) → i < 256 → at crc32_tab i ≡ ok (shifts 8 i)
entry i small =
    let same : get_or crc32_tab i 0 ≡ shifts 8 i =
      equal (get_or crc32_tab i 0) (shifts 8 i)
        (holds_at 256 (λ i. get_or crc32_tab i 0 == shifts 8 i) i entries small) in
    at-in crc32_tab i 0 small ∙ ap ok same

high_byte : (crc byte : ℕ) → byte < 256 → bit_xor crc byte / 256 ≡ crc / 256
high_byte crc byte small =
    let none_left : halves 8 byte ≡ 0 = omega arith in
    let all : bit_xor (halves 8 crc) (halves 8 byte) ≡ halves 8 crc =
      ap (bit_xor (halves 8 crc)) none_left ∙ xor-zero (halves 8 crc) in
    omega (arith, halves-xor 8 crc byte, all)

crc_loop-eq-crc_bits :
    (crc : ℕ) (bytes : List ℕ)
    → All (λ byte. byte < 256) bytes
    → crc_loop crc bytes ≡ ok (crc_bits crc bytes)
unfolding crc_loop crc_bits
crc_loop-eq-crc_bits crc [] small = refl
crc_loop-eq-crc_bits crc (byte ∷ bytes) (h, hs) =
    let x = bit_xor crc byte in
    let low : at crc32_tab (bit_and x 0xFF) ≡ ok (shifts 8 (x % 256)) =
      ap (at crc32_tab) (and_byte x) ∙ entry (x % 256) (omega arith) in
    let next : bit_xor (shifts 8 (x % 256)) (crc / 2 ^ 8) ≡ shifts 8 x =
      ap (bit_xor (shifts 8 (x % 256))) (sym (high_byte crc byte h)) ∙ sym (shifts_byte x) in
    rw low (ap (λ c. crc_loop c bytes) next ∙ crc_loop-eq-crc_bits (shifts 8 x) bytes hs)

-- crc32 of bytes reads only entries of its table and returns what the register returns that
-- takes the bytes bit by bit, with the reflected polynomial 0xEDB88320, from all ones and with
-- all bits turned at the end.
pub crc32-eq-crc32_bits :
    (bytes : List ℕ) → All (λ byte. byte < 256) bytes → crc32 bytes ≡ ok (crc32_bits bytes)
unfolding crc32 crc32_bits
crc32-eq-crc32_bits bytes small = rw (crc_loop-eq-crc_bits (2 ^ 32 - 1) bytes small) refl
