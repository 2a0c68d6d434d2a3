-- ===== src/Bytes.antt =====
-- `store_value` and `load_value` of src/Utils.h. A pointer into a buffer is the list of the bytes
-- from it on, so a store is written in front of what the later stores write.
pub mod Laws
use cirrus.Prelude.{
  ℕ, zero, suc, ◌+◌, ◌-◌, ◌*◌, ◌/◌, ◌%◌, ◌^◌, List, [], ◌∷◌, leb, Bool, if◌then◌else◌,
}
use cirrus.Prelude.Result.{Result, ok, err, undefined, ◌>>=◌}
use cirrus.Floats.{Word, Floats}

-- The little-endian bytes of a 32-bit word; a wider value is cut off, as by the conversion in C++.
-- An `int` is its bit pattern.
abbrev pub u32_word : ℕ → Word
u32_word n = (n % 256, n / 256 % 256, n / 65_536 % 256, n / 16_777_216 % 256)

abbrev pub word_u32 : Word → ℕ
word_u32 (a, b, c, d) = a + 256 * b + 65_536 * c + 16_777_216 * d

-- The sign of an `int` given by its bit pattern.
abbrev pub is_negative : ℕ → Bool
is_negative n = leb (2 ^ 31) n

unfoldable pub store_value : Word → List ℕ → List ℕ
store_value (a, b, c, d) rest = a ∷ b ∷ c ∷ d ∷ rest

unfoldable pub load_value : List ℕ → Result (Word × List ℕ)
load_value (a ∷ b ∷ c ∷ d ∷ rest) = ok ((a, b, c, d), rest)
load_value rest = err undefined

unfoldable pub store_u32 : ℕ → List ℕ → List ℕ
unfolding store_value
store_u32 n rest = store_value (u32_word n) rest

unfoldable pub load_u32 : List ℕ → Result (ℕ × List ℕ)
unfolding load_value
load_u32 bytes = do (w, rest) ← load_value bytes; ok (word_u32 w, rest)

-- A `uint64_t`.
unfoldable pub store_u64 : ℕ → List ℕ → List ℕ
store_u64 n rest = store_u32 n (store_u32 (n / 2 ^ 32) rest)

unfoldable pub load_u64 : List ℕ → Result (ℕ × List ℕ)
load_u64 bytes = do
  (low, bytes') ← load_u32 bytes
  (high, rest) ← load_u32 bytes'
  ok (low + 2 ^ 32 * high, rest)

module _ {F D : Type 0} (fl : Floats F D) where
  unfoldable pub store_float : F → List ℕ → List ℕ
  unfolding store_value
  store_float x rest = store_value (fl.word x) rest

  unfoldable pub load_float : List ℕ → Result (F × List ℕ)
  unfolding load_value
  load_float bytes = do (w, rest) ← load_value bytes; ok (fl.of_word w, rest)

-- A loop that stores the elements of a vector one after another.
unfoldable pub store_list : {A : Type 0} → (A → List ℕ → List ℕ) → List A → List ℕ → List ℕ
store_list store [] rest = rest
store_list store (x ∷ xs) rest = store x (store_list store xs rest)

-- A loop that loads a number of elements and appends each to a vector.
unfoldable pub load_list :
    {A : Type 0} → (List ℕ → Result (A × List ℕ)) → ℕ → List ℕ → Result (List A × List ℕ)
load_list load zero bytes = ok ([], bytes)
load_list load (suc n) bytes = do
  (x, bytes') ← load bytes
  (xs, rest) ← load_list load n bytes'
  ok (x ∷ xs, rest)

-- The value of an `int` as a `uint64_t`.
abbrev pub sign_extend : ℕ → ℕ
sign_extend n = if is_negative n then n + (2 ^ 64 - 2 ^ 32) else n

module _ {F D : Type 0} (fl : Floats F D) where
  -- An index (int) with its value (FEATURE_TYPE).
  unfoldable pub store_pair : ℕ × F → List ℕ → List ℕ
  store_pair (index, x) rest = store_u32 index (store_float fl x rest)

  unfoldable pub load_pair : List ℕ → Result ((ℕ × F) × List ℕ)
  load_pair bytes = do
    (index, bytes') ← load_u32 bytes
    (x, rest) ← load_float fl bytes'
    ok ((index, x), rest)
