-- ===== src/Configuration.antt =====
-- The configuration of src/Configuration.h: its fields, the names of its settings, and what
-- `check` and `print` of src/Configuration.cpp want of it.
pub mod Parser
pub mod Getters
use cirrus.Prelude.{
  ℕ, ◌%◌, Bool, true, false, not, ◌&&◌, ◌||◌, List, [], ◌∷◌, ◌==◌, ltb, words_same,
}
use cirrus.Prelude.Result.{Result, ok, err, undefined, runtime_error, guard, ◌>>=◌, ◌>>◌}
use cirrus.Floats.{Floats}
use cirrus.Text.{codes}

pub data ModelType : Type 0 where
  unknown_model logistic_regression softmax collaborative_filtering : ModelType

-- A `std::string` is the list of its characters, and an `int` its bit pattern.
pub record Configuration (D : Type 0) : Type 0 where
  pub n_workers : ℕ
  pub minibatch_size : ℕ
  pub s3_size : ℕ
  pub learning_rate : D
  pub epsilon : D
  pub num_classes : ℕ
  pub load_input_path : List ℕ
  pub load_input_type : List ℕ
  pub samples_path : List ℕ
  pub labels_path : List ℕ
  pub model_type : ModelType
  pub limit_cols : ℕ
  pub normalize : Bool
  pub limit_samples : ℕ
  pub num_features : ℕ
  pub dataset_format : List ℕ
  pub s3_dataset_key : List ℕ
  pub s3_bucket_name : List ℕ
  pub train_set_range : ℕ × ℕ
  pub test_set_range : ℕ × ℕ
  pub use_bias : Bool
  pub nusers : ℕ
  pub nitems : ℕ
  pub use_grad_threshold : Bool
  pub grad_threshold : D
  pub opt_method : List ℕ
  pub model_bits : ℕ
  pub netflix_workers : ℕ
  pub checkpoint_frequency : ℕ
  pub checkpoint_s3_bucket : List ℕ
  pub checkpoint_s3_keyname : List ℕ
  pub momentum_beta : D

abbrev pub is_collaborative : ModelType → Bool
is_collaborative collaborative_filtering = true
is_collaborative logistic_regression = false
is_collaborative softmax = false
is_collaborative unknown_model = false

-- `a != 0 && ...` of the code, on a number.
abbrev pub nonzero : ℕ → Bool
nonzero n = not (n == 0)

abbrev pub is_word : List ℕ → List ℕ → Bool
is_word s t = words_same s t

module _ {D : Type 0} (c : Configuration D) where
  abbrev pub known_format : Bool
  known_format =
      is_word c.dataset_format (codes "csv")
      || (is_word c.dataset_format (codes "libsvm")
          || (is_word c.dataset_format (codes "svmlight")
              || is_word c.dataset_format (codes "binary")))

  abbrev pub known_method : Bool
  known_method =
      is_word c.opt_method (codes "adagrad")
      || (is_word c.opt_method (codes "nesterov")
          || (is_word c.opt_method (codes "momentum") || is_word c.opt_method (codes "sgd")))

  abbrev pub checkpoint_is_set : Bool
  checkpoint_is_set = not (
      ltb 0 c.checkpoint_frequency
      && (is_word c.checkpoint_s3_bucket [] || is_word c.checkpoint_s3_keyname []))

module _ {F D : Type 0} (fl : Floats F D) where
  -- `Configuration()`
  pub construct : Configuration D
  construct = record {
    n_workers = 0;
    minibatch_size = 0;
    s3_size = 0;
    learning_rate = fl.neg fl.one;
    epsilon = fl.neg fl.one;
    num_classes = 0;
    load_input_path = [];
    load_input_type = [];
    samples_path = [];
    labels_path = [];
    model_type = unknown_model;
    limit_cols = 0;
    normalize = false;
    limit_samples = 0;
    num_features = 0;
    dataset_format = [];
    s3_dataset_key = [];
    s3_bucket_name = [];
    train_set_range = (0, 0);
    test_set_range = (0, 0);
    use_bias = false;
    nusers = 0;
    nitems = 0;
    use_grad_threshold = false;
    grad_threshold = fl.nought;
    opt_method = codes "adagrad";
    model_bits = 20;
    netflix_workers = 0;
    checkpoint_frequency = 0;
    checkpoint_s3_bucket = [];
    checkpoint_s3_keyname = [];
    momentum_beta = fl.nought;
  }

  pub check : Configuration D → Result (Unit {0})
  check c = do
    guard (not (is_word c.s3_bucket_name [])) runtime_error
    guard (known_format c) runtime_error
    guard (not (nonzero c.test_set_range.0 && is_collaborative c.model_type)) runtime_error
    guard (not (c.use_grad_threshold && fl.same c.grad_threshold fl.nought)) runtime_error
    guard (nonzero c.model_bits) runtime_error
    guard (known_method c) runtime_error
    guard (checkpoint_is_set c) runtime_error
