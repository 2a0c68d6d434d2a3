-- ===== src/Optimizer/Tests.antt =====
-- Updates of a model of four weights, over whole numbers.
use cirrus.Prelude.{ℕ, ◌≡◌, refl, List, [], ◌∷◌, ◌++◌, arith, get_or}
use cirrus.Prelude.Result.{ok, err, undefined}
use cirrus.Floats.{whole}
use cirrus.SparseLr.{SparseLr}
use cirrus.Optimizer.{Method, sgd, ada_grad, momentum, nesterov, sgd_update, edit_weight}
use cirrus.Optimizer.Frame.{Touches, sgd_update-Touches}
use cirrus.Optimizer.Steps.{sgd_update-out, sgd_moves}

abbrev model : SparseLr ℕ
model = record { weights = 1 ∷ 2 ∷ 3 ∷ 4 ∷ []; weights_hist = 0 ∷ 0 ∷ 0 ∷ 0 ∷ []; momentum_avg = 0 }

abbrev gradient : List (ℕ × ℕ)
gradient = (2, 5) ∷ (0, 6) ∷ []

edit_weight_nesterov : edit_weight whole (nesterov 2 3 10) 7 ≡ 37
unfolding edit_weight
edit_weight_nesterov = refl

sgd_update-Touches_example :
    (method : Method ℕ) × (m : SparseLr ℕ) × (sgd_update whole (ada_grad 10 1) gradient model
      ≡ ok (method, m))
    × Touches 0 gradient model m
sgd_update-Touches_example =
    sgd_update-Touches whole 0 (ada_grad 10 1) gradient model refl (omega arith)

sgd_update-out_example :
    sgd_update whole (momentum 1 1 0) (gradient ++ ((4, 9) ∷ [])) model ≡ err undefined
sgd_update-out_example =
    sgd_update-out whole 0 (momentum 1 1 0) gradient [] 4 9 model refl (omega arith) (omega arith)

sgd_moves_example :
    (m : SparseLr ℕ) × (sgd_update whole (sgd 10) ((2, 5) ∷ (0, 6) ∷ []) model ≡ ok (sgd 10, m))
    × (get_or m.weights 0 0 ≡ 61)
sgd_moves_example = sgd_moves whole 0 10 ((2, 5) ∷ []) [] 0 6 model (omega arith) (omega arith) tt
