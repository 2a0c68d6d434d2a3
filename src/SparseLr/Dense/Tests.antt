-- ===== src/SparseLr/Dense/Tests.antt =====
-- A gradient, a loss and an update of src/SparseLRModel.cpp over whole numbers.
use cirrus.Prelude.{ℕ, ◌+◌, ◌/◌, ◌≡◌, refl, false, List, [], ◌∷◌, arith, get_or, has}
use cirrus.Prelude.Result.{ok, ◌>>=◌}
use cirrus.Floats.{whole}
use cirrus.MlUtils.{s_1, finite, log_aux}
use cirrus.Vector.{at}
use cirrus.Configuration.{Configuration, construct}
use cirrus.Configuration.Getters.{get_epsilon}
use cirrus.SparseLr.{SparseLr}
use cirrus.SparseLr.Minibatch.{unique_indices}
use cirrus.SparseLr.Dense.{
  minibatch_grad, calc_loss, accuracy, loss_loop, loss_product, sample_value,
}
use cirrus.SparseLr.Dense.Served.{minibatch_grad-sgd_update}
use cirrus.SparseLr.Dense.Loss.{Score, Scored, none_left, one_more, calc_loss-Scored}
use cirrus.SparseLr.Dense
use cirrus.SparseLr.Dense.Updates.{sgd_update-eq-methods}
use cirrus.Optimizer.{Method, sgd, ada_grad, sgd_update}
use cirrus.Optimizer.Frame.{Touches}

abbrev model : SparseLr ℕ
model = record { weights = 2 ∷ 3 ∷ 5 ∷ []; weights_hist = 0 ∷ 0 ∷ 0 ∷ []; momentum_avg = 0 }

abbrev config : Configuration ℕ
config = record (construct whole) { epsilon = 4 }

abbrev rows : List (List (ℕ × ℕ))
rows = ((0, 2) ∷ (2, 1) ∷ []) ∷ ((2, 3) ∷ []) ∷ []

abbrev labels : List ℕ
labels = 1 ∷ 0 ∷ []

epsilon-config : get_epsilon whole config ≡ ok 4
unfolding get_epsilon
epsilon-config = refl

minibatch_grad-sgd_update_example :
    (g : List (ℕ × ℕ)) × (method' : Method ℕ) × (m' : SparseLr ℕ) × (minibatch_grad whole config
        false model rows labels
      ≡ ok g)
    × (sgd_update whole (sgd 1) g model ≡ ok (method', m'))
    × Touches 0 g model m'
    × (has (unique_indices rows) 1 ≡ false → get_or m'.weights 1 0 ≡ get_or model.weights 1 0)
unfolding s_1 finite
minibatch_grad-sgd_update_example =
    minibatch_grad-sgd_update whole 0 config 4 (sgd 1) model rows labels 1
      ((λ x e. (1 / (1 + x), refl)), ((λ x e. (1 / (1 + x), refl)), tt)) epsilon-config
      (omega arith) (omega arith) (omega arith)

-- Samples of class 0 have the value 0.
abbrev zeros : List ℕ
zeros = 0 ∷ 0 ∷ []

abbrev untrained : SparseLr ℕ
untrained = record model { weights = 0 ∷ 0 ∷ 0 ∷ [] }

abbrev scores : List (Score ℕ ℕ)
scores =
    (record { s1 = 1; class = 0; left = 1; right = 0 })
    ∷ (record { s1 = 1; class = 0; left = 1; right = 0 })
    ∷ []

zeros-Scored : Scored whole untrained.weights zeros 0 rows scores
unfolding loss_product at s_1 log_aux finite
zeros-Scored =
    one_more (record { s1 = 1; class = 0; left = 1; right = 0 }) 0 refl refl refl refl refl
      (one_more (record { s1 = 1; class = 0; left = 1; right = 0 }) 0 refl refl refl refl refl
        none_left)

-- No sample is missed: 1 is not above one half, which is 1 here.
calc_loss-Scored_example : calc_loss whole untrained rows zeros ≡ ok (0, 1)
calc_loss-Scored_example = calc_loss-Scored whole untrained rows zeros scores zeros-Scored

sgd_update-eq-methods_example :
    (sgd_update whole (sgd 1) ((2, 4) ∷ []) model
      ≡ (Dense.sgd_update whole 1 ((2, 4) ∷ []) model >>= λ m'. ok (sgd 1, m')))
    × (sgd_update whole (ada_grad 1 1) ((2, 4) ∷ []) model
        ≡ (Dense.sgd_update_adagrad whole 1 ((2, 4) ∷ []) model >>= λ m'. ok (ada_grad 1 1, m')))
sgd_update-eq-methods_example = sgd_update-eq-methods whole 1 ((2, 4) ∷ []) model
