-- ===== src/Gradient/Tests.antt =====
-- The wire formats at small gradients, over whole numbers.
use cirrus.Prelude.{ℕ, ◌+◌, ◌≡◌, refl, List, [], ◌∷◌, arith, length, replicate, number_key}
use cirrus.Prelude.Result.{ok, err, assert_failed}
use cirrus.Prelude.Table.{lookup}
use cirrus.Floats.{whole, whole-IsExact}
use cirrus.Gradient.Lr
use cirrus.Gradient.Lr.{LrGradient}
use cirrus.Gradient.Softmax
use cirrus.Gradient.Softmax.{SoftmaxGradient}
use cirrus.Gradient.LrSparse
use cirrus.Gradient.LrSparse.{LrSparseGradient}
use cirrus.Gradient.MfSparse
use cirrus.Gradient.MfSparse.{MfSparseGradient}
use cirrus.Gradient.MfSparse.RoundTrip

abbrev dense : LrGradient ℕ
dense = record { weights = 5 ∷ 6 ∷ []; version = 7 }

abbrev zeros : LrGradient ℕ
zeros = record { weights = 0 ∷ 0 ∷ []; version = 0 }

lr_round_trip_example : Lr.load_serialized whole zeros (Lr.serialize whole dense []) ≡ ok dense
lr_round_trip_example = Lr.lr_round_trip whole whole-IsExact dense zeros [] refl

abbrev matrix : SoftmaxGradient ℕ
matrix = record { weights = (1 ∷ 2 ∷ []) ∷ (3 ∷ 4 ∷ []) ∷ []; version = 2 }

abbrev blank : SoftmaxGradient ℕ
blank = record { weights = (0 ∷ 0 ∷ []) ∷ (0 ∷ 0 ∷ []) ∷ []; version = 0 }

softmax_round_trip_example :
    Softmax.load_serialized whole blank (Softmax.serialize whole matrix []) ≡ ok matrix
softmax_round_trip_example =
    Softmax.softmax_round_trip whole whole-IsExact matrix blank [] (omega arith)

abbrev sparse : LrSparseGradient ℕ
sparse = record { weights = (3, 10) ∷ (900, 20) ∷ []; version = 1 }

lr_sparse_round_trip_example :
    LrSparse.load_serialized whole (LrSparse.serialize whole sparse []) ≡ ok sparse
lr_sparse_round_trip_example =
    LrSparse.lr_sparse_round_trip whole whole-IsExact sparse [] (omega arith)

load_serialized_empty_example :
    LrSparse.load_serialized whole
      (LrSparse.serialize whole (record { weights = []; version = 4 }) [])
    ≡ err assert_failed
load_serialized_empty_example = LrSparse.load_serialized_empty whole 4 [] (omega arith)

abbrev factors : MfSparseGradient ℕ
factors = record {
  users_bias = (1, 11) ∷ (2, 12) ∷ [];
  items_bias = (5, 3) ∷ [];
  users_weights = (1, replicate 10 4) ∷ (2, replicate 10 5) ∷ [];
  items_weights = (5, replicate 10 6) ∷ [];
}

factors-IsWellFormed : RoundTrip.IsWellFormed whole factors
unfolding lookup
factors-IsWellFormed = ground arith

mf_sparse_round_trip_example :
    (bytes : List ℕ) × (MfSparse.serialize whole factors [] ≡ ok bytes)
    × (length bytes ≡ MfSparse.serialized_size whole factors + 0)
    × (MfSparse.load_serialized whole (MfSparse.construct whole) bytes ≡ ok factors)
mf_sparse_round_trip_example =
    RoundTrip.mf_sparse_round_trip whole whole-IsExact factors [] factors-IsWellFormed
