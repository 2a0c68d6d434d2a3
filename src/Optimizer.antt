-- ===== src/Optimizer.antt =====
-- The optimization methods of src/SGD.cpp, src/AdaGrad.cpp, src/Momentum.cpp and src/Nesterov.cpp.
pub mod Frame
pub mod Steps
mod Tests
use cirrus.Prelude.{ℕ, List, [], ◌∷◌, if◌then◌else◌}
use cirrus.Prelude.Result.{Result, ok, ◌>>=◌}
use cirrus.Floats.{Floats}
use cirrus.Bytes.{sign_extend}
use cirrus.Vector.{at, update}
use cirrus.SparseLr.{SparseLr}

-- The subclasses of `OptimizationMethod`, with their fields.
pub data Method (D : Type 0) : Type 0 where
  sgd : D → Method D
  ada_grad : D → D → Method D
  momentum : D → D → D → Method D
  nesterov : D → D → D → Method D

module _ {F D : Type 0} (fl : Floats F D) where
  -- The running average that `Momentum` and `Nesterov` keep.
  pub next_average : D → D → D → F → D
  next_average rate beta average value =
      if fl.same average fl.nought
      then fl.widen value
      else fl.add (fl.mul beta average) (fl.mul (fl.mul (fl.sub fl.one beta) rate) (fl.widen value))

  -- `weight += change`, where the sum is one of doubles.
  abbrev pub add_to : D → F → F
  add_to change weight = fl.narrow (fl.add (fl.widen weight) change)

  -- The loop of `SGD::sgd_update`. An index is an `int`, made a `size_t` by `operator[]`.
  unfoldable pub sgd_loop : D → List (ℕ × F) → SparseLr F → Result (SparseLr F)
  sgd_loop rate [] m = ok m
  sgd_loop rate ((index, value) ∷ g) m = do
    ws ← update m.weights (sign_extend index) (add_to (fl.mul rate (fl.widen value)))
    sgd_loop rate g (record m { weights = ws })

  -- The loop of `AdaGrad::sgd_update`. The history is summed in single precision.
  unfoldable pub ada_grad_loop : D → D → List (ℕ × F) → SparseLr F → Result (SparseLr F)
  ada_grad_loop rate epsilon [] m = ok m
  ada_grad_loop rate epsilon ((index, value) ∷ g) m = do
    let i = sign_extend index
    hist ← update m.weights_hist i (λ h. fl.add_float h (fl.mul_float value value))
    h ← at hist i
    let change = fl.div (fl.mul rate (fl.widen value)) (fl.add epsilon (fl.widen (fl.sqrt_float h)))
    ws ← update m.weights i (add_to change)
    ada_grad_loop rate epsilon g (record m { weights = ws; weights_hist = hist })

  -- The loop of `Momentum::sgd_update` and of `Nesterov::sgd_update`, with the average.
  pub momentum_loop : D → D → D → List (ℕ × F) → SparseLr F → Result (D × SparseLr F)
  momentum_loop rate beta average [] m = ok (average, m)
  momentum_loop rate beta average ((index, value) ∷ g) m = do
    let average' = next_average rate beta average value
    ws ← update m.weights (sign_extend index) (add_to average')
    momentum_loop rate beta average' g (record m { weights = ws })

  unfoldable pub sgd_update : Method D → List (ℕ × F) → SparseLr F → Result (Method D × SparseLr F)
  sgd_update (sgd rate) g m = do m' ← sgd_loop rate g m; ok (sgd rate, m')
  sgd_update (ada_grad rate epsilon) g m = do
    m' ← ada_grad_loop rate epsilon g m
    ok (ada_grad rate epsilon, m')
  sgd_update (momentum rate beta average) g m = do
    (average', m') ← momentum_loop rate beta average g m
    ok (momentum rate beta average', m')
  sgd_update (nesterov rate beta average) g m = do
    (average', m') ← momentum_loop rate beta average g m
    ok (nesterov rate beta average', m')

  -- Only Nesterov's method changes the weight that is sent out.
  pub edit_weight : Method D → D → D
  edit_weight (sgd rate) weight = weight
  edit_weight (ada_grad rate epsilon) weight = weight
  edit_weight (momentum rate beta average) weight = weight
  edit_weight (nesterov rate beta average) weight = fl.add weight (fl.mul beta average)
