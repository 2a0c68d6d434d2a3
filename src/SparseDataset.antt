-- ===== src/SparseDataset.antt =====
-- `SparseDataset` of src/SparseDataset.cpp: samples of index-value pairs, with labels.
pub mod Wire
use cirrus.Prelude.{
  ℕ, zero, suc, ◌+◌, ◌-◌, ◌%◌, ◌^◌, Bool, true, false, not, ◌||◌, ◌&&◌, List, [], ◌∷◌, length,
  get_elem?, if◌then◌else◌, ltb, leb, none, some,
}
use cirrus.Prelude.Result.{
  Result, ok, err, undefined, assert_failed, runtime_error, ◌>>=◌, ◌>>◌, guard,
}
use cirrus.Floats.{Floats}
use cirrus.Bytes.{is_negative}

pub record SparseDataset (F : Type 0) : Type 0 where
  pub samples : List (List (ℕ × F))
  pub labels : List F

-- `xs[i]` of a vector, outside of which it is undefined.
unfoldable pub at {ℓ} : {A : Type ℓ} → List A → ℕ → Result A
at xs i = elim (get_elem? xs i) [ none ↦ err undefined | some x ↦ ok x ]

-- The elements at `n` indices from `i` on.
unfoldable pub gather {ℓ} : {A : Type ℓ} → List A → ℕ → ℕ → Result (List A)
gather xs zero i = ok []
gather xs (suc n) i = do x ← at xs i; rest ← gather xs n (i + 1); ok (x ∷ rest)

module _ {F : Type 0} where
  pub num_samples : SparseDataset F → ℕ
  num_samples ds = length ds.samples

  pub num_features : SparseDataset F → ℕ
  num_features ds = count ds.samples
    where
      count : List (List (ℕ × F)) → ℕ
      count [] = 0
      count (row ∷ rows) = length row + count rows

  pub get_row : SparseDataset F → ℕ → Result (List (ℕ × F))
  get_row ds n = if leb (length ds.samples) n then err runtime_error else at ds.samples n

  -- The sum in the test and in the loop's bound is one of `uint64_t`. The new dataset has no labels.
  pub sample_from : SparseDataset F → ℕ → ℕ → Result (SparseDataset F)
  sample_from ds start n =
      let stop = (start + n) % 2 ^ 64 in
      if ltb (length ds.samples) stop then err runtime_error else do
        rows ← gather ds.samples (stop - start) start
        ok (record { samples = rows; labels = [] })

module _ {F D : Type 0} (fl : Floats F D) where
  check_row : List (ℕ × F) → Result (Unit {0})
  check_row [] = ok tt
  check_row ((index, value) ∷ row) =
      if is_negative index || (fl.is_nan value || fl.is_inf value)
      then err runtime_error
      else check_row row

  check_rows : List (List (ℕ × F)) → Result (Unit {0})
  check_rows [] = ok tt
  check_rows (row ∷ rows) = check_row row >> check_rows rows

  pub check : SparseDataset F → Result (Unit {0})
  check ds = check_rows ds.samples

  abbrev pub is_zero_or_one : F → Bool
  is_zero_or_one x = fl.same (fl.widen x) fl.nought || fl.same (fl.widen x) fl.one

  labels_ok : List F → Result (Unit {0})
  labels_ok [] = ok tt
  labels_ok (l ∷ ls) =
      if (fl.is_nan l || fl.is_inf l) || not (is_zero_or_one l)
      then err runtime_error
      else labels_ok ls

  pub check_labels : SparseDataset F → Result (Unit {0})
  check_labels ds = labels_ok ds.labels
