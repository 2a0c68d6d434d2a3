-- ===== src/MfModel/Training/Tests.antt =====
-- A run of the training of src/MFModel.cpp, over whole numbers.
use cirrus.Prelude.{ℕ, ◌≡◌, refl, [], ◌∷◌}
use cirrus.Prelude.Result.{ok, err, undefined}
use cirrus.Floats.{whole}
use cirrus.Vector.{at, at_checked}
use cirrus.MfModel.{MfModel, predict, predict_loop, get_user_weights, get_item_weights}
use cirrus.MfModel.Training.{loss_row, loss_rows, calc_loss, rate_item, rate_items, train}

abbrev ratings : MfModel ℕ
ratings = record {
  users = 1;
  items = 1;
  factors = 1;
  user_weights = 2 ∷ [];
  item_weights = 3 ∷ [];
  user_bias = 5 ∷ [];
  item_bias = 7 ∷ [];
  global_bias = 4;
}

-- 24 is predicted as 4 + 5 + 7 + 2 * 3.
loss_of_two : calc_loss whole ratings (((0, 24) ∷ []) ∷ []) 0 ≡ ok (4, 1)
unfolding calc_loss loss_rows loss_row predict predict_loop get_user_weights get_item_weights at
    at_checked
loss_of_two = refl

-- An item that the model has not is read by the prediction, before it is tested.
unknown_item : train whole 1 0 (((1, 24) ∷ []) ∷ []) ratings ≡ err undefined
unfolding train rate_items rate_item predict at
unknown_item = refl
