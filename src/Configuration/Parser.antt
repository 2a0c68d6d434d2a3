-- ===== src/Configuration/Parser.antt =====
-- `parse_line` and `read` of src/Configuration.cpp.
pub mod Checked
pub mod Lines
pub mod Tests
use cirrus.Prelude.{
  ℕ, zero, suc, ◌+◌, ◌%◌, Bool, true, false, not, ◌&&◌, ◌||◌, List, [], ◌∷◌, ◌==◌, Option, none,
  some, drop, if◌then◌else◌, text_key,
}
use cirrus.Prelude.Result.{Result, ok, err, undefined, runtime_error, guard, ◌>>=◌, ◌>>◌}
use cirrus.Prelude.Table.{lookup}
use cirrus.Floats.{Floats}
use cirrus.Text.{
  codes, skip_space, split_word, scan_u64, scan_int, scan_bool, scan_word, extract, string_to,
  split_lines, Scanned,
}
use cirrus.Configuration.{
  Configuration, ModelType, logistic_regression, softmax, collaborative_filtering, nonzero, is_word,
  check,
}
use cirrus.Configuration.Getters.{print}

-- The branches of `parse_line`.
pub data Setting : Type 0 where
  minibatch_size s3_size num_features load_input_path samples_path labels_path : Setting
  n_workers opt_method epsilon load_input_type learning_rate num_classes : Setting
  limit_cols limit_samples momentum_beta s3_bucket dataset_format : Setting
  s3_dataset_key use_bias num_users num_items model_bits netflix_workers : Setting
  checkpoint_frequency checkpoint_s3_bucket checkpoint_s3_keyname : Setting
  normalize model_type train_set test_set use_grad_threshold grad_threshold : Setting

-- The word that each branch compares with, in the order of the branches.
pub settings : List (List ℕ × Setting)
settings =
    (codes "minibatch_size:", minibatch_size)
    ∷ (codes "s3_size:", s3_size)
    ∷ (codes "num_features:", num_features)
    ∷ (codes "load_input_path:", load_input_path)
    ∷ (codes "samples_path:", samples_path)
    ∷ (codes "labels_path:", labels_path)
    ∷ (codes "n_workers:", n_workers)
    ∷ (codes "opt_method:", opt_method)
    ∷ (codes "epsilon:", epsilon)
    ∷ (codes "load_input_type:", load_input_type)
    ∷ (codes "learning_rate:", learning_rate)
    ∷ (codes "num_classes:", num_classes)
    ∷ (codes "limit_cols:", limit_cols)
    ∷ (codes "limit_samples:", limit_samples)
    ∷ (codes "momentum_beta:", momentum_beta)
    ∷ (codes "s3_bucket:", s3_bucket)
    ∷ (codes "dataset_format:", dataset_format)
    ∷ (codes "s3_dataset_key:", s3_dataset_key)
    ∷ (codes "use_bias:", use_bias)
    ∷ (codes "num_users:", num_users)
    ∷ (codes "num_items:", num_items)
    ∷ (codes "model_bits:", model_bits)
    ∷ (codes "netflix_workers:", netflix_workers)
    ∷ (codes "checkpoint_frequency:", checkpoint_frequency)
    ∷ (codes "checkpoint_s3_bucket:", checkpoint_s3_bucket)
    ∷ (codes "checkpoint_s3_keyname:", checkpoint_s3_keyname)
    ∷ (codes "normalize:", normalize)
    ∷ (codes "model_type:", model_type)
    ∷ (codes "train_set:", train_set)
    ∷ (codes "test_set:", test_set)
    ∷ (codes "use_grad_threshold:", use_grad_threshold)
    ∷ (codes "grad_threshold:", grad_threshold)
    ∷ []

-- `left % right != 0`, where a remainder by zero is undefined.
pub has_remainder : ℕ → ℕ → Result Bool
has_remainder left zero = err undefined
has_remainder left (suc right) = ok (nonzero (left % suc right))

-- `if (guarded && left % right != 0) throw`
pub check_multiple : ℕ → ℕ → ℕ → Result (Unit {0})
check_multiple zero left right = ok tt
check_multiple (suc guarded) left right = do
  odd ← has_remainder left right
  guard (not odd) runtime_error

-- The text before and behind the first '-'; `none` if there is no '-'.
pub split_range : List ℕ → Option (List ℕ × List ℕ)
split_range [] = none
split_range (c ∷ cs) =
    let later : Option (List ℕ × List ℕ) = elim (split_range cs) [
      | none ↦ none
      | some (left, right) ↦ some (c ∷ left, right)
    ] in
    if c == b'-' then some ([], cs) else later

pub range_of : List ℕ → Result (ℕ × ℕ)
range_of word = elim (split_range word) [
  | none ↦ err runtime_error
  | some (left, right) ↦ ok (string_to scan_int 0 left, string_to scan_int 0 right)
]

pub model_of : List ℕ → Result ModelType
model_of word =
    if is_word word (codes "LogisticRegression")
    then ok logistic_regression
    else if is_word word (codes "Softmax")
    then ok softmax
    else if is_word word (codes "CollaborativeFiltering")
    then ok collaborative_filtering
    else err runtime_error

-- The test of `iss.fail()` behind the branches.
pub finish : {C : Type 0} → Bool → C → Result C
finish failed c = do guard (not failed) runtime_error; ok c

-- `line.size() && line[0] == '#'`
abbrev pub is_comment : List ℕ → Bool
is_comment [] = false
is_comment (c ∷ cs) = c == b'#'

module _ {F D : Type 0} (fl : Floats F D) (scan_double : List ℕ → Scanned D) where
  -- A branch of `parse_line`, on what is left of the stream.
  pub set : Setting → List ℕ → Configuration D → Result (Configuration D)
  set minibatch_size cs c = do
    let (v, failed) = extract scan_u64 c.minibatch_size cs
    check_multiple c.s3_size c.s3_size v
    finish failed (record c { minibatch_size = v })
  set s3_size cs c = do
    let (v, failed) = extract scan_u64 c.s3_size cs
    check_multiple c.minibatch_size v c.minibatch_size
    finish failed (record c { s3_size = v })
  set num_features cs c =
      let (v, failed) = extract scan_u64 c.num_features cs in
      finish failed (record c { num_features = v })
  set load_input_path cs c =
      let (v, failed) = extract scan_word c.load_input_path cs in
      finish failed (record c { load_input_path = v })
  set samples_path cs c =
      let (v, failed) = extract scan_word c.samples_path cs in
      finish failed (record c { samples_path = v })
  set labels_path cs c =
      let (v, failed) = extract scan_word c.labels_path cs in
      finish failed (record c { labels_path = v })
  set n_workers cs c =
      let (v, failed) = extract scan_u64 c.n_workers cs in
      finish failed (record c { n_workers = v })
  set opt_method cs c =
      let (v, failed) = extract scan_word c.opt_method cs in
      finish failed (record c { opt_method = v })
  set epsilon cs c =
      let (v, failed) = extract scan_double c.epsilon cs in finish failed (record c { epsilon = v })
  set load_input_type cs c =
      let (v, failed) = extract scan_word c.load_input_type cs in
      finish failed (record c { load_input_type = v })
  set learning_rate cs c =
      let (v, failed) = extract scan_double c.learning_rate cs in
      finish failed (record c { learning_rate = v })
  set num_classes cs c =
      let (v, failed) = extract scan_u64 c.num_classes cs in
      finish failed (record c { num_classes = v })
  set limit_cols cs c =
      let (v, failed) = extract scan_u64 c.limit_cols cs in
      finish failed (record c { limit_cols = v })
  set limit_samples cs c =
      let (v, failed) = extract scan_u64 c.limit_samples cs in
      finish failed (record c { limit_samples = v })
  set momentum_beta cs c =
      let (v, failed) = extract scan_double c.momentum_beta cs in
      finish failed (record c { momentum_beta = v })
  set s3_bucket cs c =
      let (v, failed) = extract scan_word c.s3_bucket_name cs in
      finish failed (record c { s3_bucket_name = v })
  set dataset_format cs c =
      let (v, failed) = extract scan_word c.dataset_format cs in
      finish failed (record c { dataset_format = v })
  set s3_dataset_key cs c =
      let (v, failed) = extract scan_word c.s3_dataset_key cs in
      finish failed (record c { s3_dataset_key = v })
  set use_bias cs c =
      let (v, failed) = extract scan_bool c.use_bias cs in finish failed (record c { use_bias = v })
  set num_users cs c =
      let (v, failed) = extract scan_int c.nusers cs in finish failed (record c { nusers = v })
  set num_items cs c =
      let (v, failed) = extract scan_int c.nitems cs in finish failed (record c { nitems = v })
  set model_bits cs c =
      let (v, failed) = extract scan_u64 c.model_bits cs in
      finish failed (record c { model_bits = v })
  set netflix_workers cs c =
      let (v, failed) = extract scan_u64 c.netflix_workers cs in
      finish failed (record c { netflix_workers = v })
  set checkpoint_frequency cs c =
      let (v, failed) = extract scan_u64 c.checkpoint_frequency cs in
      finish failed (record c { checkpoint_frequency = v })
  set checkpoint_s3_bucket cs c =
      let (v, failed) = extract scan_word c.checkpoint_s3_bucket cs in
      finish failed (record c { checkpoint_s3_bucket = v })
  set checkpoint_s3_keyname cs c =
      let (v, failed) = extract scan_word c.checkpoint_s3_keyname cs in
      finish failed (record c { checkpoint_s3_keyname = v })
  set normalize cs c =
      let (n, failed) = extract scan_int 0 cs in finish failed (record c { normalize = n == 1 })
  set model_type cs c = do
    let (word, failed) = extract scan_word [] cs
    model ← model_of word
    finish failed (record c { model_type = model })
  set train_set cs c = do
    let (word, failed) = extract scan_word [] cs
    range ← range_of word
    finish failed (record c { train_set_range = range })
  set test_set cs c = do
    let (word, failed) = extract scan_word [] cs
    range ← range_of word
    finish failed (record c { test_set_range = range })
  set use_grad_threshold cs c = do
    let (word, failed) = extract scan_word [] cs
    guard (is_word word (codes "0") || is_word word (codes "1")) runtime_error
    finish failed (record c { use_grad_threshold = string_to scan_bool false word })
  set grad_threshold cs c =
      let (v, failed) = extract scan_double c.grad_threshold cs in
      finish failed (record c { grad_threshold = v })

  -- The choice of the branch. A line with no word on it is ignored.
  pub run_setting : Option Setting → List ℕ → List ℕ → Configuration D → Result (Configuration D)
  run_setting (some setting) word cs c = set setting cs c
  run_setting none word cs c = if is_word word [] then ok c else err runtime_error

  pub parse_line : List ℕ → Configuration D → Result (Configuration D)
  parse_line line c =
      let (word, cs) = split_word (skip_space line) in run_setting (lookup word settings) word cs c

  pub read_lines : List (List ℕ) → Configuration D → Result (Configuration D)
  read_lines [] c = ok c
  read_lines (line ∷ lines) c = do
    c' ← if is_comment line then ok c else parse_line line c
    read_lines lines c'

  -- `none` is a file that cannot be opened.
  pub read : Option (List ℕ) → Configuration D → Result (Configuration D)
  read none c = err runtime_error
  read (some text) c = do c' ← read_lines (split_lines text) c; print fl c'; check fl c'; ok c'
