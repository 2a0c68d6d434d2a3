-- ===== src/SparseMf.antt =====
-- `SparseMFModel` of src/SparseMFModel.cpp: the rows of the users and items of a minibatch.
pub mod FromDense
pub mod Minibatch
mod Tests
use cirrus.Prelude.{
  ℕ, zero, suc, ◌+◌, ◌-◌, ◌%◌, ◌^◌, Option, none, some, List, [], ◌∷◌, ◌++◌, ltb, number_key,
}
use cirrus.Prelude.Result.{Result, ok, undefined, guard, ◌>>=◌, ◌>>◌}
use cirrus.Prelude.Table.{lookup, insert}
use cirrus.Floats.{Floats}
use cirrus.Bytes.{store_u32, load_u32, store_float, load_float, store_list, load_list}
use cirrus.Vector.{at}
use cirrus.Gradient.MfSparse.{num_factors}
use cirrus.MfModel.{
  MfModel, get_user_bias, get_item_bias, get_user_weights, get_item_weights, default_bias,
}

-- `item_models` is an array of this size.
abbrev pub max_items : ℕ
max_items = 17_770

-- A user has an id, a bias and weights; an item that is not in the table has a bias of 0 and no
-- weights.
pub record SparseMf (F : Type 0) : Type 0 where
  pub users : List (ℕ × F × List F)
  pub items : List (ℕ × (F × List F))
  pub factors : ℕ
  pub global_bias : F

module _ {F D : Type 0} (fl : Floats F D) where
  abbrev pub construct : ℕ → SparseMf F
  construct factors = record {
    users = [];
    items = [];
    factors = factors;
    global_bias = default_bias fl;
  }

  -- `n` weights of one row, from factor `k` on.
  pub dense_row : (ℕ → Result F) → ℕ → ℕ → Result (List F)
  dense_row weight k zero = ok []
  dense_row weight k (suc n) = do w ← weight k; ws ← dense_row weight (suc k) n; ok (w ∷ ws)

  pub store_dense : ℕ → F → List F → List ℕ → List ℕ
  store_dense id bias weights rest =
      store_u32 id (store_float fl bias (store_list (store_float fl) weights rest))

  -- The loop over `n` users from `i` on; `rest` is what is done behind it.
  pub store_users : MfModel F → ℕ → ℕ → Result (List ℕ) → Result (List ℕ)
  store_users m i zero rest = rest
  store_users m i (suc n) rest = do
    bias ← get_user_bias fl m i
    weights ← dense_row (get_user_weights fl m i) 0 num_factors
    rest' ← store_users m (suc i) n rest
    ok (store_dense i bias weights rest')

  -- The loop over `n` items, whose ids are loaded from `ids`.
  pub store_items : MfModel F → ℕ → List ℕ → List ℕ → Result (List ℕ)
  store_items m zero ids rest = ok rest
  store_items m (suc n) ids rest = do
    (id, ids') ← load_u32 ids
    bias ← get_item_bias fl m id
    weights ← dense_row (get_item_weights fl m id) 0 num_factors
    rest' ← store_items m n ids' rest
    ok (store_dense id bias weights rest')

  -- The end `base_user_id + minibatch_size` of the loop is a `uint32_t`.
  pub serialize_from_dense : MfModel F → ℕ → ℕ → ℕ → List ℕ → List ℕ → Result (List ℕ)
  serialize_from_dense m base minibatch items ids rest =
      store_users m base ((base + minibatch) % 2 ^ 32 - base) (store_items m items ids rest)

  pub load_row : List ℕ → Result ((ℕ × F × List F) × List ℕ)
  load_row bytes = do
    (id, bytes₁) ← load_u32 bytes
    (bias, bytes₂) ← load_float fl bytes₁
    (weights, rest) ← load_list (load_float fl) num_factors bytes₂
    ok ((id, bias, weights), rest)

  pub load_items : ℕ → List (ℕ × (F × List F)) → List ℕ → Result (List (ℕ × (F × List F)))
  load_items zero items bytes = ok items
  load_items (suc n) items bytes = do
    ((id, bias, weights), bytes') ← load_row bytes
    guard (ltb id max_items) undefined
    load_items n (insert id (bias, weights) items) bytes'

  pub load_serialized : ℕ → ℕ → SparseMf F → List ℕ → Result (SparseMf F)
  load_serialized minibatch item_count m bytes = do
    (users, bytes') ← load_list load_row minibatch bytes
    items ← load_items item_count m.items bytes'
    ok (record {
      users = m.users ++ users;
      items = items;
      factors = num_factors;
      global_bias = default_bias fl;
    })

  pub item_or_empty : Option (F × List F) → F × List F
  item_or_empty none = (fl.narrow fl.nought, [])
  item_or_empty (some item) = item

  -- `item_models[id]`
  pub item_model : SparseMf F → ℕ → Result (F × List F)
  item_model m id = do guard (ltb id max_items) undefined; ok (item_or_empty (lookup id m.items))

  pub get_user_weight : SparseMf F → ℕ → ℕ → Result F
  get_user_weight m user k = do (id, bias, weights) ← at m.users user; at weights k

  pub get_item_weight : SparseMf F → ℕ → ℕ → Result F
  get_item_weight m item k = do (bias, weights) ← item_model m item; at weights k

  -- `n` factors are to go, from `k` on.
  pub predict_loop : SparseMf F → ℕ → ℕ → ℕ → ℕ → F → Result F
  predict_loop m user item k zero res = ok res
  predict_loop m user item k (suc n) res = do
    u ← get_user_weight m user k
    i ← get_item_weight m item k
    predict_loop m user item (suc k) n (fl.add_float res (fl.mul_float u i))

  pub predict : SparseMf F → ℕ → ℕ → Result F
  predict m user item = do
    (id, user_bias, user_weights) ← at m.users user
    (item_bias, item_weights) ← item_model m item
    predict_loop m user item 0 m.factors
        (fl.add_float (fl.add_float m.global_bias user_bias) item_bias)
