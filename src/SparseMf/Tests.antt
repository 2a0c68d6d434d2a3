-- ===== src/SparseMf/Tests.antt =====
-- A minibatch of one user and one item, over whole numbers.
use cirrus.Prelude.{◌+◌, ◌*◌, ℕ, ◌≡◌, refl, List, [], ◌∷◌, arith, replicate, length, ◌++◌}
use cirrus.Prelude.Result.{ok, err, undefined}
use cirrus.Floats.{whole, whole-IsExact}
use cirrus.Bytes.{store_u32, store_list}
use cirrus.Gradient.MfSparse.{num_factors}
use cirrus.MfModel.{MfModel, default_bias}
use cirrus.MfModel.Access.{IsServed}
use cirrus.SparseMf.{SparseMf, serialize_from_dense, load_serialized, predict}
use cirrus.SparseMf.FromDense.{users_of, items_of, row_size, load_serialized-from_dense}
use cirrus.Vector.{at}

abbrev dense : MfModel ℕ
dense = record {
  users = 2;
  items = 2;
  factors = 10;
  user_weights = replicate 10 1 ++ replicate 10 2;
  item_weights = replicate 10 3 ++ replicate 10 4;
  user_bias = 5 ∷ 6 ∷ [];
  item_bias = 7 ∷ 8 ∷ [];
  global_bias = 4;
}

dense-IsServed : IsServed dense
dense-IsServed = record {
  sized = record {
    user_bias_length = refl;
    item_bias_length = refl;
    user_weights_length = refl;
    item_weights_length = refl;
    users_small = omega arith;
    items_small = omega arith;
    factors_small = omega arith;
  };
  ten_factors = refl;
  users_few = omega arith;
  items_few = omega arith;
}

abbrev empty : SparseMf ℕ
empty = record { users = []; items = []; factors = 0; global_bias = 3 }

no_users : predict whole empty 0 0 ≡ err undefined
unfolding predict at
no_users = refl

load_serialized-from_dense_example :
    (bytes : List ℕ) × (serialize_from_dense whole dense 1 1 1 (store_list store_u32 (1 ∷ []) []) []
      ≡ ok bytes)
    × (load_serialized whole 1 1 empty bytes
        ≡ ok (record {
          users = users_of whole 0 dense 1 1;
          items = items_of whole 0 dense (1 ∷ []) [];
          factors = num_factors;
          global_bias = default_bias whole;
        }))
    × (length bytes ≡ 2 * row_size + 0)
load_serialized-from_dense_example =
    load_serialized-from_dense whole 0 whole-IsExact dense dense-IsServed 1 1 (1 ∷ []) [] [] empty
      (omega arith) ((omega arith, omega arith), tt)
