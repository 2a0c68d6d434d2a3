-- ===== src/SparseMf/Minibatch/Tests.antt =====
-- A minibatch of one user and one item, from the gradient to the server's model.
use cirrus.Prelude.{ℕ, ◌≡◌, refl, List, [], ◌∷◌, ◌++◌, arith, replicate}
use cirrus.Prelude.Result.{ok}
use cirrus.Floats.{whole, whole-IsExact}
use cirrus.Configuration.{Configuration, construct}
use cirrus.Configuration.Getters.{get_learning_rate}
use cirrus.Gradient.MfSparse
use cirrus.Gradient.MfSparse.{MfSparseGradient}
use cirrus.MfModel.{MfModel, sgd_update}
use cirrus.MfModel.Update.{IsApplied}
use cirrus.MfModel.RoundTrip.{IsSized}
use cirrus.SparseMf.{SparseMf, item_or_empty}
use cirrus.Prelude.Table.{lookup}
use cirrus.SparseMf.Minibatch.{minibatch_grad}
use cirrus.SparseMf.Minibatch.Steps.{IsWhole, IsKnown}
use cirrus.SparseMf.Minibatch.Served.{minibatch_grad-mf_sgd_update}

abbrev server : MfModel ℕ
server = record {
  users = 2;
  items = 2;
  factors = 10;
  user_weights = replicate 10 1 ++ replicate 10 2;
  item_weights = replicate 10 3 ++ replicate 10 4;
  user_bias = 5 ∷ 6 ∷ [];
  item_bias = 7 ∷ 8 ∷ [];
  global_bias = 4;
}

server-IsSized : IsSized server
server-IsSized = record {
  user_bias_length = refl;
  item_bias_length = refl;
  user_weights_length = refl;
  item_weights_length = refl;
  users_small = omega arith;
  items_small = omega arith;
  factors_small = omega arith;
}

-- User 1 and item 1 as the worker has them.
abbrev rows : SparseMf ℕ
rows = record {
  users = (1, 6, replicate 10 2) ∷ [];
  items = (1, (8, replicate 10 4)) ∷ [];
  factors = 10;
  global_bias = 4;
}

rows-IsWhole : IsWhole whole rows
rows-IsWhole = record { ten = refl; rows = (refl, tt) }

rows-IsKnown : IsKnown whole rows 1
unfolding lookup item_or_empty
rows-IsKnown = (omega arith, refl)

abbrev config : Configuration ℕ
config = record (construct whole) { learning_rate = 2 }

rate-config : get_learning_rate whole config ≡ ok 2
unfolding get_learning_rate
rate-config = refl

minibatch_grad-mf_sgd_update_example :
    (g : MfSparseGradient ℕ) × (m' : SparseMf ℕ) × (bytes : List ℕ) × (server' : MfModel ℕ)
    × (minibatch_grad whole config 1 (((1, 200) ∷ []) ∷ []) rows ≡ ok (g, m'))
    × (MfSparse.serialize whole g [] ≡ ok bytes)
    × (MfSparse.load_serialized whole (MfSparse.construct whole) bytes ≡ ok g)
    × (sgd_update whole 3 g server ≡ ok server')
    × IsApplied whole 0 g server server'
minibatch_grad-mf_sgd_update_example =
    minibatch_grad-mf_sgd_update whole whole-IsExact 0 config 2 3 1 (((1, 200) ∷ []) ∷ []) rows
      server rate-config rows-IsWhole (omega arith) (omega arith) server-IsSized refl (omega arith)
      (omega arith) (omega arith) (((rows-IsKnown, omega arith), tt), tt)
