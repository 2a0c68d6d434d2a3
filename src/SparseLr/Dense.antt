-- ===== src/SparseLr/Dense.antt =====
-- The dense side of src/SparseLRModel.cpp: `dot_product`, `minibatch_grad`, `calc_loss` and the three
-- updates that the model has of its own.
pub mod Names
pub mod Served
pub mod Loss
pub mod Updates
mod Tests
use cirrus.Prelude.{
  ℕ, zero, suc, ◌+◌, ◌%◌, ◌^◌, Bool, true, false, not, ◌&&◌, ◌||◌, List, [], ◌∷◌, length, ltb, leb,
  ◌==◌, Option, none, some, if◌then◌else◌, number_key,
}
use cirrus.Prelude.Result.{Result, ok, err, runtime_error, assert_failed, guard, ◌>>=◌, ◌>>◌}
use cirrus.Prelude.Table.{lookup, insert}
use cirrus.Floats.{Floats}
use cirrus.Bytes.{sign_extend, is_negative}
use cirrus.Vector.{at, update}
use cirrus.MlUtils.{s_1, log_aux}
use cirrus.Configuration.{Configuration}
use cirrus.Configuration.Getters.{get_epsilon}
use cirrus.SparseLr.{SparseLr}

-- `part3[index]`, which makes an entry of the value 0.
abbrev pub entry_or : {F : Type 0} → F → Option F → F
entry_or default none = default
entry_or default (some value) = value

-- The sums of `part3` by index.
abbrev pub Sums : Type 0 → Type 0
Sums F = List (ℕ × F)

module _ {F D : Type 0} (fl : Floats F D) where
  pub dot_product : List (ℕ × F) → List F → D → Result D
  dot_product [] weights res = ok res
  dot_product ((index, value) ∷ row) weights res = do
    guard (not (leb (length weights) (sign_extend index))) runtime_error
    guard (not (is_negative index) && ltb (sign_extend index) (length weights)) assert_failed
    weight ← at weights (sign_extend index)
    dot_product row weights (fl.add res (fl.widen (fl.mul_float value weight)))

  -- The first loop of `minibatch_grad`, from sample `i` on.
  pub errors : List F → List F → ℕ → List (List (ℕ × F)) → Result (List F)
  errors weights labels i [] = ok []
  errors weights labels i (row ∷ rows) = do
    part1 ← dot_product row weights fl.nought
    label ← at labels i
    sigmoid ← s_1 fl part1
    part2 ← errors weights labels (suc i) rows
    ok (fl.narrow (fl.sub (fl.widen label) sigmoid) ∷ part2)

  pub sum_row : F → List (ℕ × F) → Sums F → Sums F
  sum_row error [] part3 = part3
  sum_row error ((index, value) ∷ row) part3 =
      let i = sign_extend index in
      let old = entry_or (fl.narrow fl.nought) (lookup i part3) in
      sum_row error row (insert i (fl.add_float old (fl.mul_float value error)) part3)

  -- The second loop.
  pub sum_rows : List F → ℕ → List (List (ℕ × F)) → Sums F → Result (Sums F)
  sum_rows part2 i [] part3 = ok part3
  sum_rows part2 i (row ∷ rows) part3 = do
    error ← at part2 i
    sum_rows part2 (suc i) rows (sum_row error row part3)

  -- The third loop. An index becomes an `int` again.
  pub regularize : Configuration D → List F → Sums F → Result (List (ℕ × F))
  regularize config weights [] = ok []
  regularize config weights ((index, value) ∷ part3) = do
    weight ← at weights index
    epsilon ← get_epsilon fl config
    let twice = fl.widen (fl.mul_float weight (fl.narrow (fl.decimal 2 1)))
    res ← regularize config weights part3
    ok ((index % 2 ^ 32, fl.narrow (fl.add (fl.widen value) (fl.mul twice epsilon))) ∷ res)

  -- `is_sparse` is the flag of a model that was loaded by loadSerializedSparse.
  pub minibatch_grad :
      Configuration D → Bool → SparseLr F → List (List (ℕ × F)) → List F → Result (List (ℕ × F))
  minibatch_grad config is_sparse m rows labels = do
    guard (not is_sparse) runtime_error
    part2 ← errors m.weights labels 0 rows
    part3 ← sum_rows part2 0 rows []
    regularize config m.weights part3

  -- The product in `calc_loss`, which does not test the index.
  pub loss_product : List (ℕ × F) → List F → D → Result D
  loss_product [] weights r1 = ok r1
  loss_product ((index, value) ∷ row) weights r1 = do
    weight ← at weights (sign_extend index)
    loss_product row weights (fl.add r1 (fl.widen (fl.mul_float weight value)))

  abbrev pub predicted_class : D → D
  predicted_class s1 = if fl.less fl.half s1 then fl.one else fl.nought

  abbrev pub is_wrong : D → F → Bool
  is_wrong s1 class = not (fl.same (predicted_class s1) (fl.widen class))

  -- The value of a sample: `class * log_aux(s1) + (1 - class) * log_aux(1 - s1)`. The class and
  -- `1 - class` are floats.
  pub sample_value : D → F → Result D
  sample_value s1 class = do
    left ← log_aux fl s1
    right ← log_aux fl (fl.sub fl.one s1)
    let other = fl.widen (fl.sub_float (fl.narrow fl.one) class)
    ok (fl.add (fl.mul (fl.widen class) left) (fl.mul other right))

  pub loss_loop : List F → List F → ℕ → List (List (ℕ × F)) → D → ℕ → Result (D × ℕ)
  loss_loop weights labels i [] total wrong = ok (total, wrong)
  loss_loop weights labels i (row ∷ rows) total wrong = do
    class ← at labels i
    r1 ← loss_product row weights fl.nought
    s1 ← s_1 fl r1
    value ← sample_value s1 class
    guard (not (fl.less fl.nought value)) runtime_error
    loss_loop weights labels (suc i) rows (fl.sub total value)
        (if is_wrong s1 class then suc wrong else wrong)

  pub accuracy : ℕ → ℕ → F
  accuracy wrong samples =
      fl.narrow (fl.sub fl.one (fl.div (fl.mul fl.one (fl.of_count wrong)) (fl.of_count samples)))

  pub calc_loss : SparseLr F → List (List (ℕ × F)) → List F → Result (D × F)
  calc_loss m rows labels = do
    (total, wrong) ← loss_loop m.weights labels 0 rows fl.nought 0
    guard (not (fl.less total fl.nought)) runtime_error
    guard (not (fl.is_nan_double total || fl.is_inf_double total)) runtime_error
    ok (total, accuracy wrong (length rows))

  pub sgd_update : D → List (ℕ × F) → SparseLr F → Result (SparseLr F)
  sgd_update rate [] m = ok m
  sgd_update rate ((index, value) ∷ g) m = do
    let change = fl.mul rate (fl.widen value)
    ws ← update m.weights (sign_extend index) (λ w. fl.narrow (fl.add (fl.widen w) change))
    sgd_update rate g (record m { weights = ws })

  pub sgd_update_adagrad : D → List (ℕ × F) → SparseLr F → Result (SparseLr F)
  sgd_update_adagrad rate [] m = ok m
  sgd_update_adagrad rate ((index, value) ∷ g) m = do
    let i = sign_extend index
    hist ← update m.weights_hist i (λ h. fl.add_float h (fl.mul_float value value))
    h ← at hist i
    let root = fl.add fl.adagrad_floor (fl.widen (fl.sqrt_float h))
    let change = fl.div (fl.mul rate (fl.widen value)) root
    ws ← update m.weights i (λ w. fl.narrow (fl.add (fl.widen w) change))
    sgd_update_adagrad rate g (record m { weights = ws; weights_hist = hist })

  -- The average is a float of the model.
  pub sgd_update_momentum : D → D → List (ℕ × F) → SparseLr F → Result (SparseLr F)
  sgd_update_momentum rate beta [] m = ok m
  sgd_update_momentum rate beta ((index, value) ∷ g) m = do
    let next =
        fl.add (fl.mul beta (fl.widen m.momentum_avg))
          (fl.mul (fl.mul (fl.sub fl.one beta) rate) (fl.widen value))
    let average = if fl.same (fl.widen m.momentum_avg) fl.nought then value else fl.narrow next
    ws ← update m.weights (sign_extend index) (fl.add_float average)
    sgd_update_momentum rate beta g (record m { weights = ws; momentum_avg = average })
