-- ===== src/InputReader.antt =====
-- Lines, labels and ratings of src/InputReader.cpp.
pub mod Labels
pub mod Rows
pub mod Lines
use cirrus.Prelude.{
  ℕ, zero, suc, ◌+◌, ◌-◌, ◌%◌, ◌^◌, Bool, true, false, not, ◌&&◌, ◌||◌, List, [], ◌∷◌, ◌++◌, map,
  length, take, drop, ltb, leb, ◌==◌, if◌then◌else◌,
}
use cirrus.Prelude.Result.{
  Result, ok, err, undefined, runtime_error, assert_failed, guard, ◌>>=◌, ◌>>◌,
}
use cirrus.Floats.{Floats, Word}
use cirrus.Text.{is_digit}
use cirrus.Server.Values.{c_string}
use cirrus.Vector.{at}

abbrev pub max_str_size : ℕ
max_str_size = 10_000

pub is_one_of : ℕ → List ℕ → Bool
is_one_of c [] = false
is_one_of c (d ∷ ds) = c == d || is_one_of c ds

-- What the calls of `strsep` return, empty fields included.
to_field : ℕ → List (List ℕ) → List (List ℕ)
to_field c [] = (c ∷ []) ∷ []
to_field c (field ∷ fields) = (c ∷ field) ∷ fields

pub split_fields : List ℕ → List ℕ → List (List ℕ)
split_fields delimiter [] = [] ∷ []
split_fields delimiter (c ∷ cs) =
    let fields = split_fields delimiter cs in
    if is_one_of c delimiter then [] ∷ fields else to_field c fields

-- `strncpy` to the buffer: a text of `MAX_STR_SIZE - 1` characters has no zero behind it.
pub copy_line : List ℕ → Result (List ℕ)
copy_line line = do let text = c_string line; guard (ltb (length text) 9_999) undefined; ok text

pub is_definitely_categorical : List ℕ → Bool
is_definitely_categorical [] = false
is_definitely_categorical (c ∷ cs) =
    not (is_digit c) && not (c == b'-') || is_definitely_categorical cs

-- `features[hash]++`, in a map that is in order.
pub count_feature : ℕ → List (ℕ × ℕ) → List (ℕ × ℕ)
count_feature hash [] = (hash, 1) ∷ []
count_feature hash ((key, n) ∷ features) =
    let rest = count_feature hash features in
    if hash == key
    then (key, n + 1) ∷ features
    else if ltb hash key
    then (hash, 1) ∷ (key, n) ∷ features
    else (key, n) ∷ rest

-- A row without its column `label_col`, and that column; the iterators of a shorter row are undefined.
pub split_row : {F : Type 0} → ℕ → List F → Result (List F × F)
split_row label_col row = do
  label ← at row label_col
  ok (take label_col row ++ drop (suc label_col) row, label)

pub split_rows : {F : Type 0} → ℕ → List (List F) → Result (List (List F) × List F)
split_rows label_col [] = ok ([], [])
split_rows label_col (row ∷ rows) = do
  (left, label) ← split_row label_col row
  (lefts, labels) ← split_rows label_col rows
  ok (left ∷ lefts, label ∷ labels)

pub split_data_labels : {F : Type 0} → List (List F) → ℕ → Result (List (List F) × List F)
split_data_labels [] label_col = err runtime_error
split_data_labels (row ∷ rows) label_col = do
  guard (not (ltb (length row) label_col)) runtime_error
  split_rows label_col (row ∷ rows)

-- The classes are `char`s in the bytes of a float.
pub class_at : List ℕ → ℕ → ℕ
class_at [] i = 0
class_at (class ∷ classes) zero = class % 256
class_at (class ∷ classes) (suc i) = class_at classes i

-- A byte as an `int`.
pub char_to_int : ℕ → ℕ
char_to_int c = if ltb c 128 then c else c + (2 ^ 32 - 256)

pub until_zero : List ℕ → List ℕ
until_zero [] = []
until_zero (c ∷ cs) = let rest = until_zero cs in if c == 0 then [] else char_to_int c ∷ rest

-- `to_float` is `string_to<FEATURE_TYPE>`.
pub process_columns : {F : Type 0} → (List ℕ → F) → ℕ → List (List ℕ) → List F
process_columns to_float left [] = []
process_columns to_float zero (field ∷ fields) =
    to_float field ∷ process_columns to_float zero fields
process_columns to_float (suc zero) (field ∷ fields) = to_float field ∷ []
process_columns to_float (suc (suc left)) (field ∷ fields) =
    to_float field ∷ process_columns to_float (suc left) fields

-- The columns of a line, from `col` on.
pub criteo_columns :
    {F : Type 0}
    → (List ℕ → F)
    → (List ℕ → ℕ)
    → ℕ
    → ℕ
    → List (List ℕ)
    → F × List (ℕ × ℕ)
    → F × List (ℕ × ℕ)
criteo_columns to_float hash_f hash_size col [] found = found
criteo_columns to_float hash_f hash_size zero (field ∷ fields) (label, features) =
    criteo_columns to_float hash_f hash_size 1 fields (to_float field, features)
criteo_columns to_float hash_f hash_size (suc col) (field ∷ fields) (label, features) =
    criteo_columns to_float hash_f hash_size (suc (suc col)) fields (
      label,
      (if leb 14 (suc col) then count_feature (hash_f field % hash_size) features else features),
    )

module _ {F D : Type 0} (fl : Floats F D) where
  -- The label and the other columns of a line, at most `limit_cols` unless it is 0.
  pub process_line : (List ℕ → F) → List ℕ → ℕ → List ℕ → Result (F × List F)
  process_line to_float delimiter limit_cols line = do
    guard (ltb (length line) max_str_size) assert_failed
    text ← copy_line line
    elim (process_columns to_float limit_cols (split_fields delimiter text)) [
      | [] ↦ err undefined
      | label ∷ sample ↦ ok (label, sample)
    ]

  pub parse_criteo_sparse_line :
      (List ℕ → F) → (List ℕ → ℕ) → ℕ → List ℕ → F → List ℕ → Result (F × List (ℕ × F))
  parse_criteo_sparse_line to_float hash_f model_bits delimiter label line = do
    guard (not (ltb max_str_size (length line))) runtime_error
    text ← copy_line line
    guard (ltb model_bits 64) undefined
    let (label', features) =
        criteo_columns to_float hash_f (2 ^ model_bits) 0 (split_fields delimiter text) (label, [])
    ok (label', map (λ f. (f.0 % 2 ^ 32, fl.narrow (fl.of_count f.1))) features)

  pub pack_label : List ℕ → F
  pack_label classes =
      fl.of_word (class_at classes 0, class_at classes 1, class_at classes 2, class_at classes 3)

  pub unpack_label : F → List ℕ
  unpack_label label = let (a, b, c, d) = fl.word label in until_zero (a ∷ b ∷ c ∷ d ∷ [])

  pub sum_ratings : D → List (ℕ × F) → D
  sum_ratings sum [] = sum
  sum_ratings sum ((item, rating) ∷ row) = sum_ratings (fl.add sum (fl.widen rating)) row

  pub compute_mean : List (ℕ × F) → D
  compute_mean row = fl.div (sum_ratings fl.nought row) (fl.of_count (length row))

  pub sum_squares : D → D → List (ℕ × F) → D
  sum_squares mean sum [] = sum
  sum_squares mean sum ((item, rating) ∷ row) =
      let off = fl.sub mean (fl.widen rating) in sum_squares mean (fl.add sum (fl.mul off off)) row

  -- `sqrt` is that of a double.
  pub compute_stddev : (D → D) → D → List (ℕ × F) → D
  compute_stddev sqrt mean row =
      sqrt (fl.div (sum_squares mean fl.nought row) (fl.of_count (length row)))

  pub standardize_row : (D → D) → List (ℕ × F) → List (ℕ × F)
  standardize_row sqrt [] = []
  standardize_row sqrt (r ∷ row) =
      let mean = compute_mean (r ∷ row) in
      let stddev = compute_stddev sqrt mean (r ∷ row) in
      if fl.same stddev fl.nought
      then []
      else map (λ v. (v.0, fl.narrow (fl.div (fl.sub (fl.widen v.1) mean) stddev))) (r ∷ row)

  pub standardize_sparse_dataset : (D → D) → List (List (ℕ × F)) → List (List (ℕ × F))
  standardize_sparse_dataset sqrt rows = map (standardize_row sqrt) rows
