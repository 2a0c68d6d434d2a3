-- ===== src/MfModel/Tests.antt =====
-- A model of two users and an item, over whole numbers.
use cirrus.Prelude.{ℕ, ◌≡◌, refl, [], ◌∷◌, ◌++◌, arith, replicate}
use cirrus.Prelude.Result.{ok, err, runtime_error}
use cirrus.Floats.{whole, whole-IsExact}
use cirrus.Gradient.MfSparse.{MfSparseGradient}
use cirrus.MfModel.{
  MfModel, default_bias, serialize_to, load_serialized, sgd_update, predict, get_user_weights,
  get_item_weights, get_user_bias, predict_loop,
}
use cirrus.Vector.{at, at_checked}
use cirrus.MfModel.RoundTrip.{IsSized, mf_model_round_trip}
use cirrus.MfModel.Update.{IsFitting, IsApplied, mf_sgd_update-IsApplied}

abbrev ratings : MfModel ℕ
ratings = record {
  users = 2;
  items = 1;
  factors = 10;
  user_weights = replicate 10 1 ++ replicate 10 2;
  item_weights = replicate 10 3;
  user_bias = 5 ∷ 6 ∷ [];
  item_bias = 7 ∷ [];
  global_bias = 4;
}

ratings-IsSized : IsSized ratings
ratings-IsSized = record {
  user_bias_length = refl;
  item_bias_length = refl;
  user_weights_length = refl;
  item_weights_length = refl;
  users_small = omega arith;
  items_small = omega arith;
  factors_small = omega arith;
}

abbrev changes : MfSparseGradient ℕ
changes = record {
  users_bias = (1, 20) ∷ [];
  items_bias = (0, 30) ∷ [];
  users_weights = (1, replicate 10 40) ∷ [];
  items_weights = (0, replicate 10 50) ∷ [];
}

changes-IsFitting : IsFitting whole ratings changes
changes-IsFitting = record {
  users_known = (omega arith, tt);
  items_known = (omega arith, tt);
  user_rows = ((omega arith, refl), tt);
  item_rows = ((omega arith, refl), tt);
}

-- 4 + 6 + 7 and ten times 2 * 3
predict-ratings : predict whole ratings 1 0 ≡ ok 77
unfolding predict predict_loop get_user_weights get_item_weights at at_checked
predict-ratings = refl

no_third_user : get_user_bias whole ratings 2 ≡ err runtime_error
unfolding get_user_bias
no_third_user = refl

mf_model_round_trip_example :
    load_serialized whole (serialize_to whole ratings (9 ∷ []))
    ≡ ok (record ratings { global_bias = default_bias whole })
mf_model_round_trip_example =
    mf_model_round_trip whole whole-IsExact ratings (9 ∷ []) ratings-IsSized (omega arith)
      (omega arith) (omega arith)

mf_sgd_update-IsApplied_example :
    (m' : MfModel ℕ) × (sgd_update whole 1 changes ratings ≡ ok m')
    × IsApplied whole 0 changes ratings m'
mf_sgd_update-IsApplied_example =
    mf_sgd_update-IsApplied whole 0 1 changes ratings ratings-IsSized refl (omega arith)
      (omega arith) changes-IsFitting
