-- ===== src/SparseDataset/Wire/Batch.antt =====
-- The constructor of `SparseDataset` (src/SparseDataset.cpp) from the memory of a minibatch.
use cirrus.Prelude.{
  ℕ, ◌^◌, ◌<◌, ◌≡◌, refl, Bool, true, false, ◌||◌, none, some, List, length, All, arith, ltb,
}
use cirrus.Prelude.Result.{ok}
use cirrus.Floats.{Floats, IsExact}
use cirrus.Bytes.{store_u32, store_list, store_pair, load_pair, is_negative}
use cirrus.Bytes.Laws.{
  load_u32-store_u32, load_list-store_list, load_float-store_float, load_pair-store_pair,
}
use cirrus.SparseDataset.{is_zero_or_one}
use cirrus.SparseDataset.Wire.{
  Sample, rows_of, labels_of, store_sample, load_batch_row, load_batch_sample, from_memory, is_near,
}

module _ {F D : Type 0} (fl : Floats F D) where
  -- A row of fewer than a million pairs.
  abbrev pub IsShort : List (ℕ × F) → Type 0
  IsShort row = (length row < 1_000_000) × All (λ p. p.0 < 2 ^ 32) row

  -- A label of 0 or 1, also by the test with a tolerance.
  abbrev pub IsClass : F → Type 0
  IsClass l =
      (is_zero_or_one fl l ≡ true) × ((is_near fl l fl.nought || is_near fl l fl.one) ≡ true)

  abbrev pub IsBatchSample : Bool → Sample F → Type 0
  IsBatchSample false (none, row) = IsShort row
  IsBatchSample false (some l, row) = ⊥
  IsBatchSample true (none, row) = ⊥
  IsBatchSample true (some l, row) = IsClass l × IsShort row

  load_batch_row-store :
      (exact : IsExact fl) (row : List (ℕ × F)) (rest : List ℕ)
      → IsShort row
      → load_batch_row fl (length row) (store_list (store_pair fl) row rest) ≡ ok (row, rest)
  unfolding load_batch_row
  load_batch_row-store exact row rest (few, small) =
      let positive : is_negative (length row) ≡ false = ground arith in
      let under : ltb (length row) 1_000_000 ≡ true = ground arith in
      rw (positive, under)
        (load_list-store_list (λ p. p.0 < 2 ^ 32) (store_pair fl) (load_pair fl)
          (load_pair-store_pair fl exact) row rest small)

  load_batch_sample-store_sample :
      (exact : IsExact fl) (b : Bool) (s : Sample F) (rest : List ℕ)
      → IsBatchSample b s
      → load_batch_sample fl b (store_sample fl s rest) ≡ ok (s, rest)
  unfolding load_batch_sample store_sample
  load_batch_sample-store_sample exact false (none, row) rest h =
      rw
        (
          load_u32-store_u32 (length row) (store_list (store_pair fl) row rest)
              (omega (arith, h.0)),
          load_batch_row-store exact row rest h,
        )
        refl
  load_batch_sample-store_sample exact false (some l, row) rest h = absurd h
  load_batch_sample-store_sample exact true (none, row) rest h = absurd h
  load_batch_sample-store_sample exact true (some l, row) rest (label, h) =
      rw
        (
          load_float-store_float fl exact l
              (store_u32 (length row) (store_list (store_pair fl) row rest)),
          load_u32-store_u32 (length row) (store_list (store_pair fl) row rest)
              (omega (arith, h.0)),
          label.1,
          load_batch_row-store exact row rest h,
        )
        refl

  -- The samples of a minibatch are read back.
  pub from_memory-store_samples :
      (exact : IsExact fl) (b : Bool) (ss : List (Sample F)) (rest : List ℕ)
      → All (IsBatchSample b) ss
      → from_memory fl (store_list (store_sample fl) ss rest) (length ss) b
        ≡ ok (record { samples = rows_of ss; labels = labels_of ss }, rest)
  unfolding from_memory
  from_memory-store_samples exact b ss rest all =
      rw
        (load_list-store_list (IsBatchSample b) (store_sample fl) (load_batch_sample fl b)
          (load_batch_sample-store_sample exact b) ss rest all)
        refl
