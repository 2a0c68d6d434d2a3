-- ===== src/MfModel/Access.antt =====
-- Reads of an `MFModel` (src/MFModel.cpp) of ten factors, within its users and items.
use cirrus.Prelude.{
  ℕ, ◌+◌, ◌*◌, ◌^◌, ◌≤◌, ◌<◌, ◌≡◌, refl, true, ◌∙◌, ap, arith, length, ltb, get_or,
}
use cirrus.Prelude.Result.{ok}
use cirrus.Floats.{Floats}
use cirrus.Vector.{at_checked-in}
use cirrus.Gradient.MfSparse.{num_factors}
use cirrus.MfModel.{
  MfModel, get_user_weights, get_item_weights, get_user_bias, get_item_bias, weight_index,
}
use cirrus.MfModel.RoundTrip.{IsSized}

-- A model as the server has it.
pub record IsServed {F : Type 0} (m : MfModel F) : Type 0 where
  pub sized : IsSized m
  pub ten_factors : m.factors ≡ num_factors
  pub users_few : m.users ≤ 2 ^ 31
  pub items_few : m.items ≤ 2 ^ 31

module _ {F D : Type 0} (fl : Floats F D) (d : F) (m : MfModel F) (s : IsServed m) where
  open s use {sized, ten_factors, users_few, items_few}

  pub index_exact :
      (id k n : ℕ)
      → id < n
      → n ≤ 2 ^ 31
      → k < num_factors
      → weight_index m.factors id k ≡ id * num_factors + k
  index_exact id k n h small h' =
      let plain : weight_index num_factors id k ≡ id * num_factors + k = omega arith in
      ap (λ f. weight_index f id k) ten_factors ∙ plain

  pub get_user_weights-in :
      (id k : ℕ)
      → id < m.users
      → k < num_factors
      → get_user_weights fl m id k ≡ ok (get_or m.user_weights (id * num_factors + k) d)
  unfolding get_user_weights
  get_user_weights-in id k h h' =
      let long : length m.user_weights ≡ m.users * num_factors =
        sized.user_weights_length ∙ ap (λ f. m.users * f) ten_factors in
      rw
        (
          index_exact id k m.users h users_few h',
          at_checked-in m.user_weights (id * num_factors + k) d (omega arith),
        )
        refl

  pub get_item_weights-in :
      (id k : ℕ)
      → id < m.items
      → k < num_factors
      → get_item_weights fl m id k ≡ ok (get_or m.item_weights (id * num_factors + k) d)
  unfolding get_item_weights
  get_item_weights-in id k h h' =
      let long : length m.item_weights ≡ m.items * num_factors =
        sized.item_weights_length ∙ ap (λ f. m.items * f) ten_factors in
      rw
        (
          index_exact id k m.items h items_few h',
          at_checked-in m.item_weights (id * num_factors + k) d (omega arith),
        )
        refl

  pub get_user_bias-in :
      (id : ℕ) → id < m.users → get_user_bias fl m id ≡ ok (get_or m.user_bias id d)
  unfolding get_user_bias
  get_user_bias-in id h =
      let long = sized.user_bias_length in
      let inside : ltb id (length m.user_bias) ≡ true = ground arith in
      rw (inside, at_checked-in m.user_bias id d (omega arith)) refl

  pub get_item_bias-in :
      (id : ℕ) → id < m.items → get_item_bias fl m id ≡ ok (get_or m.item_bias id d)
  unfolding get_item_bias
  get_item_bias-in id h =
      let long = sized.item_bias_length in
      let inside : ltb id (length m.item_bias) ≡ true = ground arith in
      rw (inside, at_checked-in m.item_bias id d (omega arith)) refl
