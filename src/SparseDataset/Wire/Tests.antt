-- ===== src/SparseDataset/Wire/Tests.antt =====
-- A dataset of two samples, over whole numbers.
use cirrus.Prelude.{ℕ, ◌+◌, ◌≡◌, true, List, [], ◌∷◌, arith, length}
use cirrus.Prelude.Result.{ok}
use cirrus.Floats.{whole, whole-IsExact}
use cirrus.SparseDataset.{SparseDataset}
use cirrus.SparseDataset.Wire.{build_serialized_s3_obj, from_s3}
use cirrus.SparseDataset.Wire.RoundTrip.{IsValid, from_s3-build}

abbrev dataset : SparseDataset ℕ
dataset = record {
  samples = ((1, 5) ∷ (2, 6) ∷ []) ∷ [] ∷ ((9, 7) ∷ []) ∷ [];
  labels = 0 ∷ 1 ∷ 1 ∷ [];
}

dataset-IsValid : IsValid whole dataset true 3
dataset-IsValid = ground arith

from_s3-build_example :
    (bytes : List ℕ) × (size : ℕ) × (build_serialized_s3_obj whole dataset 1 3 true []
      ≡ ok (bytes, size))
    × (length bytes ≡ size + 0)
    × (from_s3 whole bytes true true
        ≡ ok (record { samples = [] ∷ ((9, 7) ∷ []) ∷ []; labels = 1 ∷ 1 ∷ [] }))
from_s3-build_example =
    from_s3-build whole whole-IsExact dataset 1 3 true [] dataset-IsValid (omega arith)
      (omega arith)
