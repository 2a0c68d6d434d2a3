-- ===== src/SparseDataset/Wire.antt =====
-- The S3 object of a range of samples, and the two constructors that read samples from memory.
pub mod RoundTrip
pub mod Batch
mod Tests
use cirrus.Prelude.{
  ℕ, zero, suc, ◌+◌, ◌-◌, ◌*◌, Bool, true, false, not, ◌||◌, ◌&&◌, Option, none, some, List, [],
  ◌∷◌, length, map, if◌then◌else◌, ltb, leb,
}
use cirrus.Prelude.Result.{Result, ok, err, assert_failed, runtime_error, ◌>>=◌, ◌>>◌, guard}
use cirrus.Floats.{Floats}
use cirrus.Bytes.{
  store_u32, load_u32, store_float, load_float, store_list, load_list, store_pair, load_pair,
  is_negative,
}
use cirrus.SparseDataset.{SparseDataset, at, is_zero_or_one}

-- A sample as it is stored: its label, if labels are stored, and its pairs.
abbrev pub Sample : Type 0 → Type 0
Sample F = Option F × List (ℕ × F)

abbrev pub labels_of : {F : Type 0} → List (Sample F) → List F
labels_of [] = []
labels_of ((none, row) ∷ ss) = labels_of ss
labels_of ((some l, row) ∷ ss) = l ∷ labels_of ss

abbrev pub rows_of : {F : Type 0} → List (Sample F) → List (List (ℕ × F))
rows_of [] = []
rows_of ((label, row) ∷ ss) = row ∷ rows_of ss

abbrev pub entries : {F : Type 0} → List (Sample F) → ℕ
entries [] = 0
entries ((label, row) ∷ ss) = length row + entries ss

module _ {F : Type 0} where
  -- `n` samples from index `i` on.
  pub collect : SparseDataset F → Bool → ℕ → ℕ → Result (List (Sample F))
  collect ds store_labels zero i = ok []
  collect ds false (suc n) i = do
    row ← at ds.samples i
    ss ← collect ds false n (i + 1)
    ok ((none, row) ∷ ss)
  collect ds true (suc n) i = do
    row ← at ds.samples i
    label ← at ds.labels i
    ss ← collect ds true n (i + 1)
    ok ((some label, row) ∷ ss)

  -- The size that is allocated for `n` samples.
  pub object_size : Bool → ℕ → List (Sample F) → ℕ
  object_size store_labels n ss =
      entries ss * (4 + 4) + n * ((if store_labels then 4 else 0) + 4) + 4 * 2

module _ {F D : Type 0} (fl : Floats F D) where
  unfoldable pub store_sample : Sample F → List ℕ → List ℕ
  store_sample (none, row) rest = store_u32 (length row) (store_list (store_pair fl) row rest)
  store_sample (some label, row) rest =
      store_float fl label (store_u32 (length row) (store_list (store_pair fl) row rest))

  -- The object and its size. `rest` is the memory behind the object, which is left alone.
  pub build_serialized_s3_obj : SparseDataset F → ℕ → ℕ → Bool → List ℕ → Result (List ℕ × ℕ)
  build_serialized_s3_obj ds l r store_labels rest = do
    guard (ltb l r) assert_failed
    ss ← collect ds store_labels (r - l) l
    let size = object_size store_labels (r - l) ss
    ok (store_u32 size (store_u32 (r - l) (store_list store_sample ss rest)), size)

  -- The number of pairs (int), and the pairs.
  load_row : List ℕ → Result (List (ℕ × F) × List ℕ)
  load_row bytes = do
    (n, bytes') ← load_u32 bytes
    guard (not (is_negative n || ltb 1_000_000 n)) runtime_error
    load_list (load_pair fl) n bytes'

  pub load_sample : Bool → List ℕ → Result (Sample F × List ℕ)
  load_sample false bytes = do (row, rest) ← load_row bytes; ok ((none, row), rest)
  load_sample true bytes = do
    (label, bytes') ← load_float fl bytes
    guard (is_zero_or_one fl label) assert_failed
    (row, rest) ← load_row bytes'
    ok ((some label, row), rest)

  -- `SparseDataset(data, from_s3, has_labels)`
  pub from_s3 : List ℕ → Bool → Bool → Result (SparseDataset F)
  from_s3 bytes false has_labels = err runtime_error
  from_s3 bytes true has_labels = do
    (size, bytes') ← load_u32 bytes
    (n, bytes'') ← load_u32 bytes'
    guard (ltb 0 n && ltb n 1_000_000) assert_failed
    (ss, rest) ← load_list (load_sample has_labels) n bytes''
    ok (record { samples = rows_of ss; labels = labels_of ss })

  -- `FLOAT_EQ`
  abbrev pub is_near : F → D → Bool
  is_near x y = fl.less (fl.abs (fl.sub (fl.widen x) y)) fl.tiny

  load_batch_row : ℕ → List ℕ → Result (List (ℕ × F) × List ℕ)
  load_batch_row n bytes = do
    guard (not (is_negative n) && ltb n 1_000_000) assert_failed
    load_list (load_pair fl) n bytes

  pub load_batch_sample : Bool → List ℕ → Result (Sample F × List ℕ)
  load_batch_sample false bytes = do
    (n, bytes') ← load_u32 bytes
    (row, rest) ← load_batch_row n bytes'
    ok ((none, row), rest)
  load_batch_sample true bytes = do
    (label, bytes') ← load_float fl bytes
    (n, bytes'') ← load_u32 bytes'
    guard (is_near label fl.nought || is_near label fl.one) assert_failed
    (row, rest) ← load_batch_row n bytes''
    ok ((some label, row), rest)

  -- `SparseDataset(data, n_samples, has_labels)`, with what is left of the memory.
  pub from_memory : List ℕ → ℕ → Bool → Result (SparseDataset F × List ℕ)
  from_memory bytes n has_labels = do
    (ss, rest) ← load_list (load_batch_sample has_labels) n bytes
    ok (record { samples = rows_of ss; labels = labels_of ss }, rest)
