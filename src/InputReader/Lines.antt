-- ===== src/InputReader/Lines.antt =====
-- The line parsers of src/InputReader.cpp for the data of kaggle and of rcv1.
use cirrus.Prelude.{
  ℕ, zero, suc, ◌+◌, ◌-◌, ◌%◌, ◌^◌, ◌≤◌, ◌≡◌, refl, Bool, not, List, [], ◌∷◌, map, length, take,
  ltb, ◌==◌, if◌then◌else◌, arith,
}
use cirrus.Prelude.Result.{Result, ok, undefined, runtime_error, assert_failed, guard, ◌>>=◌, ◌>>◌}
use cirrus.Floats.{Floats}
use cirrus.SparseDataset.{is_zero_or_one}
use cirrus.Text.{codes, string_to, scan_int, scan_u64}
use cirrus.Server.Values.{c_string}
use cirrus.InputReader.{max_str_size, split_fields, copy_line, count_feature, pack_label}
use cirrus.InputReader.Rows.{counted, counted-count_feature, Ascends, count_feature-Ascends}

abbrev pub rcv1_str_size : ℕ
rcv1_str_size = 20_000

-- The index and the value of a feature; without a colon both are all of it.
pub before_colon : List ℕ → List ℕ
before_colon [] = []
before_colon (c ∷ cs) = let rest = before_colon cs in if c == b':' then [] else c ∷ rest

pub behind_colon : List ℕ → List ℕ → List ℕ
behind_colon all [] = all
behind_colon all (c ∷ cs) = let rest = behind_colon all cs in if c == b':' then cs else rest

-- `cat_features[hash] += value`, in a map of `int`s that is in order.
pub add_feature : ℕ → ℕ → List (ℕ × ℕ) → List (ℕ × ℕ)
add_feature hash value [] = (hash, value % 2 ^ 32) ∷ []
add_feature hash value ((key, n) ∷ features) =
    let rest = add_feature hash value features in
    if hash == key
    then (key, (n + value) % 2 ^ 32) ∷ features
    else if ltb hash key
    then (hash, value % 2 ^ 32) ∷ (key, n) ∷ features
    else (key, n) ∷ rest

-- The classes of a label, each one higher; `int` arithmetic does not go beyond its range.
pub read_classes : List (List ℕ) → Result (List ℕ)
read_classes [] = ok []
read_classes (field ∷ fields) = do
  let class = string_to scan_int 0 field
  guard (not (class == 2 ^ 31 - 1)) undefined
  classes ← read_classes fields
  ok ((class + 1) % 2 ^ 32 ∷ classes)

module _ {F D : Type 0} (fl : Floats F D) where
  pub kaggle_columns :
      (List ℕ → F)
      → (List ℕ → ℕ)
      → ℕ
      → ℕ
      → List (List ℕ)
      → F × List (ℕ × ℕ)
      → Result (F × List (ℕ × ℕ))
  kaggle_columns to_float hash_f size col [] found = ok found
  kaggle_columns to_float hash_f size zero (field ∷ fields) found =
      kaggle_columns to_float hash_f size 1 fields found
  kaggle_columns to_float hash_f size (suc zero) (field ∷ fields) (label, features) = do
    guard (is_zero_or_one fl (to_float field)) assert_failed
    kaggle_columns to_float hash_f size 2 fields (to_float field, features)
  kaggle_columns to_float hash_f size (suc (suc col)) (field ∷ fields) (label, features) =
      kaggle_columns to_float hash_f size (suc (suc (suc col))) fields
        (label, count_feature (hash_f field % size) features)

  pub parse_criteo_kaggle_sparse_line :
      (List ℕ → F) → (List ℕ → ℕ) → ℕ → Bool → List ℕ → F → List ℕ → Result (F × List (ℕ × F))
  parse_criteo_kaggle_sparse_line to_float hash_f model_bits use_bias delimiter label line = do
    guard (not (ltb max_str_size (length line))) runtime_error
    text ← copy_line line
    guard (ltb model_bits 64) undefined
    (label', features) ←
        kaggle_columns to_float hash_f (2 ^ model_bits) 0 (split_fields delimiter text) (label, [])
    let bias = hash_f (codes "bias") % 2 ^ model_bits
    let all = if use_bias then count_feature bias features else features
    ok (label', map (λ f. (f.0 % 2 ^ 32, fl.narrow (fl.of_count f.1))) all)

  pub rcv1_columns : ℕ → List (List ℕ) → F × List (ℕ × ℕ) → Result (F × List (ℕ × ℕ))
  rcv1_columns col [] found = ok found
  rcv1_columns zero (field ∷ fields) (label, features) = do
    guard (ltb (length field) 19_999) undefined
    classes ← read_classes (split_fields (b',' ∷ []) field)
    rcv1_columns 1 fields (pack_label fl classes, features)
  rcv1_columns (suc zero) (field ∷ fields) found = rcv1_columns 2 fields found
  rcv1_columns (suc (suc col)) (field ∷ fields) (label, features) =
      let hash = string_to scan_u64 0 (before_colon field) in
      let value = string_to scan_u64 0 (behind_colon field field) in
      rcv1_columns (suc (suc (suc col))) fields (label, add_feature hash value features)

  -- `of_int` makes an `int` a float. The buffer is a global, with a zero in its last cell.
  pub parse_rcv1_vw_sparse_line : (ℕ → F) → List ℕ → F → List ℕ → Result (F × List (ℕ × F))
  parse_rcv1_vw_sparse_line of_int delimiter label line = do
    guard (not (ltb rcv1_str_size (length line))) runtime_error
    let text = take 19_999 (c_string line)
    (label', features) ← rcv1_columns 0 (split_fields delimiter text) (label, [])
    ok (label', map (λ f. (f.0 % 2 ^ 32, of_int f.1)) features)

  -- The categorical columns are counted, each once, and the hashes are in order.
  pub kaggle_columns-counted :
      (to_float : List ℕ → F) (hash_f : List ℕ → ℕ) (size col : ℕ) (fields : List (List ℕ))
      (label : F) (features : List (ℕ × ℕ))
      → 2 ≤ col
      → Ascends 0 features
      → (found : List (ℕ × ℕ)) × (kaggle_columns to_float hash_f size col fields (label, features)
          ≡ ok (label, found))
        × (counted found ≡ counted features + length fields)
        × Ascends 0 found
  unfolding kaggle_columns
  kaggle_columns-counted to_float hash_f size zero fields label features late a =
      absurd (omega arith)
  kaggle_columns-counted to_float hash_f size (suc zero) fields label features late a =
      absurd (omega arith)
  kaggle_columns-counted to_float hash_f size (suc (suc col)) [] label features late a =
      (features, refl, omega arith, a)
  kaggle_columns-counted to_float hash_f size (suc (suc col)) (field ∷ fields) label features late
        a =
      let hash = hash_f field % size in
      let one_more = counted-count_feature hash features in
      let (found, run, all, sorted) =
        kaggle_columns-counted to_float hash_f size (suc (suc (suc col))) fields label
          (count_feature hash features) (omega arith)
          (count_feature-Ascends hash 0 features (omega arith) a) in
      (found, run, omega (arith, all, one_more), sorted)
