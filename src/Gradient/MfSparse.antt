-- ===== src/Gradient/MfSparse.antt =====
-- `MFSparseGradient` of src/ModelGradient.cpp: biases and factor weights of users and items.
pub mod RoundTrip
use cirrus.Prelude.{
  ℕ, zero, suc, ◌+◌, ◌*◌, ◌^◌, ◌<◌, ◌≡◌, refl, sym, ◌∙◌, ap, Bool, true, false, ◌&&◌, List, [], ◌∷◌,
  ◌++◌, append_assoc, arith, length, All, ltb, ◌==◌, if◌then◌else◌, none, Key, number_key,
  append-nil,
}
use cirrus.Prelude.Result.{Result, ok, err, assert_failed, runtime_error, ◌>>=◌, ◌>>◌, guard}
use cirrus.Prelude.Table.{lookup, insert}
use cirrus.Floats.{Floats, IsExact}
use cirrus.Bytes.{
  store_u32, load_u32, store_float, load_float, store_list, load_list, store_pair, load_pair,
  is_negative,
}
use cirrus.Bytes.Laws.{
  load_u32-store_u32, length-store_u32, load_list-store_list, length-store_list,
  load_floats-store_floats, length-store_float, length-store_pair, load_pair-store_pair,
}

abbrev pub num_factors : ℕ
num_factors = 10

abbrev pub magic_number : ℕ
magic_number = 0x1337

abbrev pub end_magic : ℕ
end_magic = 0x1338

-- The biases are `unordered_map`s; ids are `int`s, given by their bit patterns.
pub record MfSparseGradient (F : Type 0) : Type 0 where
  pub users_bias : List (ℕ × F)
  pub items_bias : List (ℕ × F)
  pub users_weights : List (ℕ × List F)
  pub items_weights : List (ℕ × List F)

-- Rows of an id and its weights.
abbrev pub Row : Type 0 → Type 0
Row F = ℕ × List F

module _ {F D : Type 0} (fl : Floats F D) where
  -- The constructor leaves every container empty.
  pub construct : MfSparseGradient F
  construct = record { users_bias = []; items_bias = []; users_weights = []; items_weights = [] }

  pub serialized_size : MfSparseGradient F → ℕ
  serialized_size g =
      4 * (2 + 2)
      + length g.users_bias * (4 + 4)
      + length g.items_bias * (4 + 4)
      + length g.users_weights * (4 + num_factors * 4)
      + length g.items_weights * (4 + num_factors * 4)

  store_row : Row F → List ℕ → List ℕ
  store_row (id, weights) rest = store_u32 id (store_list (store_float fl) weights rest)

  load_row : List ℕ → Result (Row F × List ℕ)
  load_row bytes = do
    (id, bytes') ← load_u32 bytes
    (weights, rest) ← load_list (load_float fl) num_factors bytes'
    ok ((id, weights), rest)

  all_full : List (Row F) → Bool
  all_full [] = true
  all_full ((id, weights) ∷ rows) = (length weights == num_factors) && all_full rows

  body : MfSparseGradient F → List ℕ → List ℕ
  body g rest = store_u32 magic_number (
      store_u32 (length g.users_bias) (
        store_u32 (length g.items_bias) (
          store_list (store_pair fl) g.users_bias (
            store_list (store_pair fl) g.items_bias (
              store_list store_row g.users_weights
                (store_list store_row g.items_weights (store_u32 end_magic rest)))))))

  -- What is written before a failed assertion is never read.
  pub serialize : MfSparseGradient F → List ℕ → Result (List ℕ)
  serialize g rest = do
    guard (length g.users_weights == length g.users_bias) assert_failed
    guard (all_full g.users_weights) assert_failed
    guard (length g.items_weights == length g.items_bias) assert_failed
    guard (all_full g.items_weights) assert_failed
    ok (body g rest)

  -- `bias[id] = value` for each pair that is read.
  load_biases : ℕ → List (ℕ × F) → List ℕ → Result (List (ℕ × F) × List ℕ)
  load_biases zero biases bytes = ok (biases, bytes)
  load_biases (suc n) biases bytes = do
    ((id, value), bytes') ← load_pair fl bytes
    load_biases n (insert id value biases) bytes'

  -- The containers that are there are added to.
  pub load_serialized : MfSparseGradient F → List ℕ → Result (MfSparseGradient F)
  load_serialized g bytes = do
    (magic, bytes₁) ← load_u32 bytes
    guard (magic == magic_number) assert_failed
    (users, bytes₂) ← load_u32 bytes₁
    (items, bytes₃) ← load_u32 bytes₂
    (users_bias, bytes₄) ← load_biases users g.users_bias bytes₃
    (items_bias, bytes₅) ← load_biases items g.items_bias bytes₄
    (users_rows, bytes₆) ← load_list load_row users bytes₅
    (items_rows, bytes₇) ← load_list load_row items bytes₆
    (magic', rest) ← load_u32 bytes₇
    guard (magic' == end_magic) assert_failed
    ok (record {
      users_bias = users_bias;
      items_bias = items_bias;
      users_weights = g.users_weights ++ users_rows;
      items_weights = g.items_weights ++ items_rows;
    })

  check_ids : List (Row F) → Result (Unit {0})
  check_ids [] = ok tt
  check_ids ((id, weights) ∷ rows) = if is_negative id then err runtime_error else check_ids rows

  pub check_values : MfSparseGradient F → Result (Unit {0})
  check_values g = check_ids g.users_weights >> check_ids g.items_weights
