-- ===== src/Checksum/Tests.antt =====
-- The checksum of "123456789" that is published for this polynomial.
use cirrus.Prelude.{ℕ, ◌<◌, ◌≡◌, refl, List, [], ◌∷◌, All, arith}
use cirrus.Prelude.Result.{ok}
use cirrus.Vector.{at}
use cirrus.Checksum.{crc32, crc_loop}
use cirrus.Checksum.Bitwise.{crc32_bits, crc32-eq-crc32_bits}

abbrev digits : List ℕ
digits = 0x31 ∷ 0x32 ∷ 0x33 ∷ 0x34 ∷ 0x35 ∷ 0x36 ∷ 0x37 ∷ 0x38 ∷ 0x39 ∷ []

digits_small : All (λ byte. byte < 256) digits
digits_small = ground arith

published : crc32 digits ≡ ok 0xCBF43926
unfolding crc32 crc_loop at
published = refl

crc32-eq-crc32_bits_example : crc32 digits ≡ ok (crc32_bits digits)
crc32-eq-crc32_bits_example = crc32-eq-crc32_bits digits digits_small
