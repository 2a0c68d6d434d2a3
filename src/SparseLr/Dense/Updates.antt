-- ===== src/SparseLr/Dense/Updates.antt =====
-- The updates of src/SparseLRModel.cpp beside those of src/SGD.cpp and src/AdaGrad.cpp.
use cirrus.Prelude.{ℕ, ◌≡◌, refl, List, [], ◌∷◌}
use cirrus.Prelude.Result.{Result, ok, err, ◌>>=◌}
use cirrus.Floats.{Floats}
use cirrus.Bytes.{sign_extend}
use cirrus.Vector.{at, update}
use cirrus.SparseLr.{SparseLr}
use cirrus.SparseLr.Dense
use cirrus.Optimizer.{sgd, ada_grad, sgd_loop, ada_grad_loop, sgd_update, add_to}

-- Equal ends of a chain whose start is the same.
>>=-same :
    {V W : Type 0} (first : Result V) (f g : V → Result W)
    → ((v : V) → f v ≡ g v)
    → (first >>= f) ≡ (first >>= g)
>>=-same (ok v) f g same = same v
>>=-same (err why) f g same = refl

module _ {F D : Type 0} (fl : Floats F D) where
  sgd_update-eq-loop :
      (rate : D) (g : List (ℕ × F)) (m : SparseLr F)
      → Dense.sgd_update fl rate g m ≡ sgd_loop fl rate g m
  unfolding Dense.sgd_update sgd_loop
  sgd_update-eq-loop rate [] m = refl
  sgd_update-eq-loop rate ((index, value) ∷ g) m =
      >>=-same (update m.weights (sign_extend index) (add_to fl (fl.mul rate (fl.widen value)))) _ _
        (λ ws. sgd_update-eq-loop rate g (record m { weights = ws }))

  adagrad-eq-loop :
      (rate : D) (g : List (ℕ × F)) (m : SparseLr F)
      → Dense.sgd_update_adagrad fl rate g m ≡ ada_grad_loop fl rate fl.adagrad_floor g m
  unfolding Dense.sgd_update_adagrad ada_grad_loop
  adagrad-eq-loop rate [] m = refl
  adagrad-eq-loop rate ((index, value) ∷ g) m =
      >>=-same (update m.weights_hist (sign_extend index) _) _ _ λ hist.
        >>=-same (at hist (sign_extend index)) _ _ λ h.
          >>=-same (update m.weights (sign_extend index) _) _ _
            λ ws. adagrad-eq-loop rate g (record m { weights = ws; weights_hist = hist })

  -- The updates sgd_update and sgd_update_adagrad of the model do to it what the methods SGD
  -- and AdaGrad do, the second with 10e-8 for epsilon; errors included.
  pub sgd_update-eq-methods :
      (rate : D) (g : List (ℕ × F)) (m : SparseLr F)
      → (sgd_update fl (sgd rate) g m ≡ (Dense.sgd_update fl rate g m >>= λ m'. ok (sgd rate, m')))
        × (sgd_update fl (ada_grad rate fl.adagrad_floor) g m ≡ (
            Dense.sgd_update_adagrad fl rate g m >>= λ m'. ok (ada_grad rate fl.adagrad_floor, m')))
  unfolding sgd_update
  sgd_update-eq-methods rate g m =
      (rw (sgd_update-eq-loop rate g m) refl, rw (adagrad-eq-loop rate g m) refl)
