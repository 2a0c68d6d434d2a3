-- ===== src/SparseMf/Minibatch.antt =====
-- `minibatch_grad` of src/SparseMFModel.cpp, which also trains the rows of its model.
pub mod Keys
pub mod Room
pub mod Steps
pub mod Rows
pub mod Gradient
pub mod Served
mod Tests
use cirrus.Prelude.{
  ℕ, zero, suc, ◌+◌, ◌%◌, ◌^◌, Option, none, some, List, [], ◌∷◌, ◌++◌, length, replicate, set, ltb,
  number_key,
}
use cirrus.Prelude.Result.{Result, ok, guard, undefined, ◌>>=◌, ◌>>◌}
use cirrus.Prelude.Table.{lookup, insert}
use cirrus.Floats.{Floats}
use cirrus.Bytes.{sign_extend}
use cirrus.Vector.{at, update}
use cirrus.Configuration.{Configuration}
use cirrus.Configuration.Getters.{get_learning_rate}
use cirrus.Gradient.MfSparse.{MfSparseGradient, num_factors}
use cirrus.SparseMf.{SparseMf, max_items, item_model, get_user_weight, get_item_weight, predict}

abbrev pub or_else : {A : Type 0} → A → Option A → A
or_else default none = default
or_else default (some value) = value

-- `item_grads` is the array `item_weights_grad_map`, in the order of `item_weights_lst`: an item is in
-- it once its vector is not empty.
pub record Training (F : Type 0) : Type 0 where
  pub model : SparseMf F
  pub users_bias : List (ℕ × F)
  pub items_bias : List (ℕ × F)
  pub item_grads : List (ℕ × List F)

module _ {F D : Type 0} (fl : Floats F D) where
  abbrev pub zero_float : F
  zero_float = fl.narrow fl.nought

  -- The four constants of `initialize_weights`, all 0.05.
  abbrev pub reg : F
  reg = fl.narrow (fl.decimal 5 100)

  -- `learning_rate * (error * other - reg * own)`
  pub change : F → F → F → F → F
  change rate error other own =
      fl.mul_float rate (fl.sub_float (fl.mul_float error other) (fl.mul_float reg own))

  -- The changes of the biases: `learning_rate * (error - reg * bias)`.
  pub bias_change : F → F → F → F
  bias_change rate error bias = fl.mul_float rate (fl.sub_float error (fl.mul_float reg bias))

  -- `map[id] += delta`
  pub add_bias : ℕ → F → List (ℕ × F) → List (ℕ × F)
  add_bias id delta biases =
      insert id (fl.add_float (or_else zero_float (lookup id biases)) delta) biases

  pub set_user : ℕ → ℕ × F × List F → SparseMf F → SparseMf F
  set_user user row m = record m { users = set m.users user row }

  pub set_item : ℕ → F × List F → SparseMf F → SparseMf F
  set_item item row m = record m { items = insert item row m.items }

  -- The loop over the user's factors, `n` of them from `k` on, with the user's sums.
  pub user_loop : F → F → ℕ → ℕ → ℕ → ℕ → SparseMf F → List F → Result (SparseMf F × List F)
  user_loop rate error user item k zero m sums = ok (m, sums)
  user_loop rate error user item k (suc n) m sums = do
    i ← get_item_weight fl m item k
    u ← get_user_weight fl m user k
    let delta = change rate error i u
    sums' ← update sums k (λ s. fl.add_float s delta)
    (id, bias, weights) ← at m.users user
    weights' ← update weights k (λ w. fl.add_float w delta)
    user_loop rate error user item (suc k) n (set_user user (id, bias, weights') m) sums'

  -- The loop over the item's factors, with the sums of all items.
  pub item_loop :
      F
      → F
      → ℕ
      → ℕ
      → ℕ
      → ℕ
      → SparseMf F
      → List (ℕ × List F)
      → Result (SparseMf F × List (ℕ × List F))
  item_loop rate error user item k zero m grads = ok (m, grads)
  item_loop rate error user item k (suc n) m grads = do
    u ← get_user_weight fl m user k
    i ← get_item_weight fl m item k
    let delta = change rate error u i
    (bias, weights) ← item_model fl m item
    weights' ← update weights k (λ w. fl.add_float w delta)
    guard (ltb item max_items) undefined
    let sums = or_else (replicate num_factors zero_float) (lookup item grads)
    sums' ← update sums k (λ s. fl.add_float s delta)
    item_loop rate error user item (suc k) n (set_item item (bias, weights') m)
        (insert item sums' grads)

  -- A rating; `id` is the real id of the user.
  pub rate_item : F → ℕ → ℕ → ℕ × F → List F → Training F → Result (List F × Training F)
  rate_item rate id user (index, rating) sums t = do
    let item = sign_extend index
    pred ← predict fl t.model (user % 2 ^ 32) (item % 2 ^ 32)
    let error = fl.sub_float rating pred
    (user_id, user_bias, user_weights) ← at t.model.users user
    let delta = bias_change rate error user_bias
    let m₁ = set_user user (user_id, fl.add_float user_bias delta, user_weights) t.model
    (item_bias, item_weights) ← item_model fl m₁ item
    let delta' = bias_change rate error item_bias
    let m₂ = set_item item (fl.add_float item_bias delta', item_weights) m₁
    (m₃, sums') ← user_loop rate error user item 0 m₂.factors m₂ sums
    (m₄, grads) ← item_loop rate error user item 0 m₃.factors m₃ t.item_grads
    ok (
      sums',
      record {
        model = m₄;
        users_bias = add_bias id delta t.users_bias;
        items_bias = add_bias (item % 2 ^ 32) delta' t.items_bias;
        item_grads = grads;
      },
    )

  pub rate_items : F → ℕ → ℕ → List (ℕ × F) → List F → Training F → Result (List F × Training F)
  rate_items rate id user [] sums t = ok (sums, t)
  rate_items rate id user (pair ∷ row) sums t = do
    (sums', t') ← rate_item rate id user pair sums t
    rate_items rate id user row sums' t'

  -- The loop over the samples, from `user` on, with the rows of the users so far.
  pub rate_users :
      F
      → ℕ
      → ℕ
      → List (List (ℕ × F))
      → List (ℕ × List F)
      → Training F
      → Result (List (ℕ × List F) × Training F)
  rate_users rate base user [] done t = ok (done, t)
  rate_users rate base user (row ∷ rows) done t = do
    let id = (base + user) % 2 ^ 32
    let start = record t { users_bias = insert id zero_float t.users_bias }
    (sums, t') ← rate_items rate id user row (replicate num_factors zero_float) start
    rate_users rate base (suc user) rows (done ++ ((id, sums) ∷ [])) t'

  pub minibatch_grad :
      Configuration D
      → ℕ
      → List (List (ℕ × F))
      → SparseMf F
      → Result (MfSparseGradient F × SparseMf F)
  minibatch_grad config base rows m = do
    rate ← get_learning_rate fl config
    let fresh : Training F = record { model = m; users_bias = []; items_bias = []; item_grads = [] }
    (users, t) ← rate_users (fl.narrow rate) base 0 rows [] fresh
    ok (
      record {
        users_bias = t.users_bias;
        items_bias = t.items_bias;
        users_weights = users;
        items_weights = t.item_grads;
      },
      t.model,
    )
