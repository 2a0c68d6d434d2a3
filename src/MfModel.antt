-- ===== src/MfModel.antt =====
-- `MFModel` of src/MFModel.cpp, a dense matrix factorization of ratings by users and items.
pub mod RoundTrip
pub mod Access
pub mod Sums
pub mod Update
pub mod Training
mod Tests
use cirrus.Prelude.{
  ℕ, zero, suc, ◌+◌, ◌*◌, ◌%◌, ◌^◌, List, [], ◌∷◌, ◌++◌, length, replicate, ltb, ◌==◌,
  if◌then◌else◌,
}
use cirrus.Prelude.Result.{
  Result, ok, err, undefined, assert_failed, runtime_error, guard, ◌>>=◌, ◌>>◌,
}
use cirrus.Floats.{Floats}
use cirrus.Bytes.{store_u64, load_u64, store_float, load_float, store_list, load_list, sign_extend}
use cirrus.Vector.{at, update, at_checked, update_checked}
use cirrus.Gradient.MfSparse.{MfSparseGradient, Row, num_factors}

-- The weights of user `u` stand at `u * factors` and on.
pub record MfModel (F : Type 0) : Type 0 where
  pub users : ℕ
  pub items : ℕ
  pub factors : ℕ
  pub user_weights : List F
  pub item_weights : List F
  pub user_bias : List F
  pub item_bias : List F
  pub global_bias : F

-- The index of a weight, a `uint64_t`.
abbrev pub weight_index : ℕ → ℕ → ℕ → ℕ
weight_index factors id k = (id * factors + k) % 2 ^ 64

-- A loop with a counter of 32 bits: for a larger bound it never ends, and reads behind the memory.
pub counted : {A : Type 0} → ℕ → Result A → Result A
counted n loop = if ltb n (2 ^ 32) then loop else err undefined

module _ {F D : Type 0} (fl : Floats F D) where
  abbrev pub default_bias : F
  default_bias = fl.narrow (fl.decimal 3604 1000)

  -- Before `randomize`; the number of weights is below 2 ^ 64.
  pub initialize_data : ℕ → ℕ → ℕ → MfModel F
  initialize_data users items factors = record {
    users = users;
    items = items;
    factors = factors;
    user_weights = replicate (users * factors) (fl.narrow fl.nought);
    item_weights = replicate (items * factors) (fl.narrow fl.nought);
    user_bias = replicate users (fl.narrow fl.nought);
    item_bias = replicate items (fl.narrow fl.nought);
    global_bias = default_bias;
  }

  pub serialized_size : MfModel F → ℕ
  serialized_size m =
      8 * 3
      + length m.user_bias * 4
      + length m.item_bias * 4
      + length m.user_weights * 4
      + length m.item_weights * 4

  pub serialize_to : MfModel F → List ℕ → List ℕ
  serialize_to m rest =
      let floats = store_list (store_float fl) in
      store_u64 m.users (
        store_u64 m.items (
          store_u64 m.factors (
            floats m.user_bias
              (floats m.item_bias (floats m.user_weights (floats m.item_weights rest))))))

  -- The two nested loops fill the weights from the front.
  pub load_weights : ℕ → ℕ → List ℕ → Result (List F × List ℕ)
  load_weights zero factors bytes = ok ([], bytes)
  load_weights (suc n) factors bytes = do
    (row, bytes') ← counted factors (load_list (load_float fl) factors bytes)
    (rows, rest) ← load_weights n factors bytes'
    ok (row ++ rows, rest)

  pub load_serialized : List ℕ → Result (MfModel F)
  load_serialized bytes = do
    (users, bytes₁) ← load_u64 bytes
    (items, bytes₂) ← load_u64 bytes₁
    (factors, bytes₃) ← load_u64 bytes₂
    (user_bias, bytes₄) ← counted users (load_list (load_float fl) users bytes₃)
    (item_bias, bytes₅) ← counted items (load_list (load_float fl) items bytes₄)
    (user_weights, bytes₆) ← counted users (load_weights users factors bytes₅)
    (item_weights, rest) ← counted items (load_weights items factors bytes₆)
    ok (record {
      users = users;
      items = items;
      factors = factors;
      user_weights = user_weights;
      item_weights = item_weights;
      user_bias = user_bias;
      item_bias = item_bias;
      global_bias = default_bias;
    })

  -- `bias[v.first] += v.second` for each pair; a key is an `int`, made a `size_t`.
  pub add_biases : List (ℕ × F) → List F → Result (List F)
  add_biases [] bias = ok bias
  add_biases ((id, change) ∷ g) bias = do
    bias' ← update bias (sign_extend id) (λ b. fl.add_float b change)
    add_biases g bias'

  -- The loop over one row, from factor `k` on.
  pub add_row : ℕ → ℕ → ℕ → List F → List F → Result (List F)
  add_row factors id k [] weights = ok weights
  add_row factors id k (change ∷ row) weights = do
    weights' ← update_checked weights (weight_index factors id k) (λ w. fl.add_float w change)
    add_row factors id (suc k) row weights'

  pub add_rows : ℕ → List (Row F) → List F → Result (List F)
  add_rows factors [] weights = ok weights
  add_rows factors ((id, row) ∷ rows) weights = do
    guard (length row == num_factors) assert_failed
    weights' ← add_row factors (sign_extend id) 0 row weights
    add_rows factors rows weights'

  -- The learning rate is not used: the gradient has it in it.
  pub sgd_update : D → MfSparseGradient F → MfModel F → Result (MfModel F)
  sgd_update rate g m = do
    user_bias ← add_biases g.users_bias m.user_bias
    item_bias ← add_biases g.items_bias m.item_bias
    user_weights ← add_rows m.factors g.users_weights m.user_weights
    item_weights ← add_rows m.factors g.items_weights m.item_weights
    ok (record m {
      user_weights = user_weights;
      item_weights = item_weights;
      user_bias = user_bias;
      item_bias = item_bias;
    })

  pub get_user_weights : MfModel F → ℕ → ℕ → Result F
  get_user_weights m id k = at_checked m.user_weights (weight_index m.factors id k)

  pub get_item_weights : MfModel F → ℕ → ℕ → Result F
  get_item_weights m id k = at_checked m.item_weights (weight_index m.factors id k)

  pub get_user_bias : MfModel F → ℕ → Result F
  get_user_bias m id = do
    guard (ltb id (length m.user_bias)) runtime_error
    at_checked m.user_bias id

  pub get_item_bias : MfModel F → ℕ → Result F
  get_item_bias m id = do
    guard (ltb id (length m.item_bias)) runtime_error
    at_checked m.item_bias id

  -- `n` factors are to go, from `k` on.
  pub predict_loop : MfModel F → ℕ → ℕ → ℕ → ℕ → F → Result F
  predict_loop m user item k zero res = ok res
  predict_loop m user item k (suc n) res = do
    u ← get_user_weights m user k
    i ← get_item_weights m item k
    predict_loop m user item (suc k) n (fl.add_float res (fl.mul_float u i))

  pub predict : MfModel F → ℕ → ℕ → Result F
  predict m user item = do
    u ← at m.user_bias user
    i ← at m.item_bias item
    predict_loop m user item 0 m.factors (fl.add_float (fl.add_float m.global_bias u) i)
