-- ===== src/MfModel/Training.antt =====
-- The training of a dense `MFModel` on a dataset, and `calc_loss` (src/MFModel.cpp).
pub mod Returns
pub mod Runs
mod Tests
use cirrus.Prelude.{ℕ, zero, suc, ◌+◌, ◌%◌, ◌^◌, not, ◌&&◌, ◌||◌, List, [], ◌∷◌, ltb}
use cirrus.Prelude.Result.{Result, ok, runtime_error, guard, ◌>>=◌, ◌>>◌}
use cirrus.Floats.{Floats}
use cirrus.Bytes.{sign_extend}
use cirrus.Vector.{update, update_checked}
use cirrus.MfModel.{MfModel, weight_index, get_user_weights, get_item_weights, predict}

module _ {F D : Type 0} (fl : Floats F D) where
  -- The four constants of `initialize_reg_params`, all 0.01.
  abbrev pub reg : F
  reg = fl.narrow (fl.decimal 1 100)

  -- `learning_rate * (error * other - reg * own)`
  pub change : D → F → F → F → F
  change rate error other own =
      fl.narrow
        (fl.mul rate (fl.widen (fl.sub_float (fl.mul_float error other) (fl.mul_float reg own))))

  -- `bias += learning_rate * (error - reg * bias)`
  pub new_bias : D → F → F → F
  new_bias rate error bias =
      fl.narrow (
        fl.add (fl.widen bias)
          (fl.mul rate (fl.widen (fl.sub_float error (fl.mul_float reg bias)))))

  pub add_to_user : MfModel F → ℕ → ℕ → F → Result (MfModel F)
  add_to_user m user k delta = do
    weights ←
        update_checked m.user_weights (weight_index m.factors user k) (λ w. fl.add_float w delta)
    ok (record m { user_weights = weights })

  pub add_to_item : MfModel F → ℕ → ℕ → F → Result (MfModel F)
  add_to_item m item k delta = do
    weights ←
        update_checked m.item_weights (weight_index m.factors item k) (λ w. fl.add_float w delta)
    ok (record m { item_weights = weights })

  -- The loop over the user's factors, `n` of them from `k` on.
  pub user_loop : D → F → ℕ → ℕ → ℕ → ℕ → MfModel F → Result (MfModel F)
  user_loop rate error user item k zero m = ok m
  user_loop rate error user item k (suc n) m = do
    i ← get_item_weights fl m item k
    u ← get_user_weights fl m user k
    m' ← add_to_user m user k (change rate error i u)
    user_loop rate error user item (suc k) n m'

  pub item_loop : D → F → ℕ → ℕ → ℕ → ℕ → MfModel F → Result (MfModel F)
  item_loop rate error user item k zero m = ok m
  item_loop rate error user item k (suc n) m = do
    u ← get_user_weights fl m user k
    i ← get_item_weights fl m item k
    m' ← add_to_item m item k (change rate error u i)
    item_loop rate error user item (suc k) n m'

  -- A rating. The prediction is made before the ids are tested.
  pub rate_item : D → ℕ → ℕ × F → MfModel F → Result (MfModel F)
  rate_item rate user (index, rating) m = do
    let item = sign_extend index
    pred ← predict fl m (user % 2 ^ 32) (item % 2 ^ 32)
    let error = fl.sub_float rating pred
    guard (ltb item m.items && ltb user m.users) runtime_error
    user_bias ← update m.user_bias user (new_bias rate error)
    item_bias ← update m.item_bias item (new_bias rate error)
    let m₁ = record m { user_bias = user_bias; item_bias = item_bias }
    m₂ ← user_loop rate error user item 0 m.factors m₁
    item_loop rate error user item 0 m.factors m₂

  pub rate_items : D → ℕ → List (ℕ × F) → MfModel F → Result (MfModel F)
  rate_items rate user [] m = ok m
  rate_items rate user (pair ∷ row) m = do
    m' ← rate_item rate user pair m
    rate_items rate user row m'

  -- The samples, from `user` on.
  pub train : D → ℕ → List (List (ℕ × F)) → MfModel F → Result (MfModel F)
  train rate user [] m = ok m
  train rate user (row ∷ rows) m = do
    m' ← rate_items rate (user % 2 ^ 64) row m
    train rate (suc user) rows m'

  -- The loop of `calc_loss` over a row. A square has at most 48 digits, so that `pow` is exact.
  pub loss_row : MfModel F → ℕ → List (ℕ × F) → D × ℕ → Result (D × ℕ)
  loss_row m user [] sum = ok sum
  loss_row m user ((index, rating) ∷ row) (error, count) = do
    pred ← predict fl m (user % 2 ^ 32) (sign_extend index % 2 ^ 32)
    let e = fl.sub_float rating pred
    let error' = fl.add error (fl.widen (fl.narrow (fl.mul (fl.widen e) (fl.widen e))))
    guard (not (fl.is_nan e || fl.is_nan_double error')) runtime_error
    loss_row m user row (error', (count + 1) % 2 ^ 64)

  pub loss_rows : MfModel F → ℕ → List (List (ℕ × F)) → D × ℕ → Result (D × ℕ)
  loss_rows m user [] sum = ok sum
  loss_rows m user (row ∷ rows) sum = do
    sum' ← loss_row m user row sum
    loss_rows m (suc user) rows sum'

  pub calc_loss : MfModel F → List (List (ℕ × F)) → ℕ → Result (D × D)
  calc_loss m rows start_index = do
    (error, count) ← loss_rows m start_index rows (fl.nought, 0)
    guard (not (fl.is_nan_double error)) runtime_error
    ok (error, fl.of_count count)
