-- ===== src/Configuration/Getters.antt =====
-- The getters of src/Configuration.cpp that can fail, and `print`, which calls some of them.
use cirrus.Prelude.{ℕ, not, List, []}
use cirrus.Prelude.Result.{Result, ok, err, runtime_error, guard, ◌>>=◌, ◌>>◌}
use cirrus.Floats.{Floats}
use cirrus.Text.{codes}
use cirrus.Configuration.{
  Configuration, ModelType, unknown_model, logistic_regression, softmax, collaborative_filtering,
  nonzero, is_word,
}

-- `path` of a data set in binary format.
unfoldable pub binary_path : {D : Type 0} → Configuration D → List ℕ → Result (List ℕ)
binary_path c path = do
  guard (not (is_word path [])) runtime_error
  guard (is_word c.load_input_type (codes "double_binary")) runtime_error
  ok path

unfoldable pub known_model : ModelType → Result ModelType
known_model unknown_model = err runtime_error
known_model logistic_regression = ok logistic_regression
known_model softmax = ok softmax
known_model collaborative_filtering = ok collaborative_filtering

module _ {D : Type 0} (c : Configuration D) where
  unfoldable pub get_load_input_path : Result (List ℕ)
  get_load_input_path = do
    guard (not (is_word c.load_input_path [])) runtime_error
    ok c.load_input_path

  unfoldable pub get_samples_path : Result (List ℕ)
  get_samples_path = binary_path c c.samples_path

  unfoldable pub get_labels_path : Result (List ℕ)
  get_labels_path = binary_path c c.labels_path

  unfoldable pub get_minibatch_size : Result ℕ
  get_minibatch_size = do guard (nonzero c.minibatch_size) runtime_error; ok c.minibatch_size

  unfoldable pub get_s3_size : Result ℕ
  get_s3_size = do guard (nonzero c.s3_size) runtime_error; ok c.s3_size

  unfoldable pub get_load_input_type : Result (List ℕ)
  get_load_input_type = do
    guard (not (is_word c.load_input_type [])) runtime_error
    ok c.load_input_type

  unfoldable pub get_model_type : Result ModelType
  get_model_type = known_model c.model_type

  unfoldable pub get_num_classes : Result ℕ
  get_num_classes = do guard (nonzero c.num_classes) runtime_error; ok c.num_classes

module _ {F D : Type 0} (fl : Floats F D) (c : Configuration D) where
  unfoldable pub get_learning_rate : Result D
  get_learning_rate = do
    guard (not (fl.same c.learning_rate (fl.neg fl.one))) runtime_error
    ok c.learning_rate

  unfoldable pub get_epsilon : Result D
  get_epsilon = do guard (not (fl.same c.epsilon (fl.neg fl.one))) runtime_error; ok c.epsilon

  -- What `print` wants; all else that it prints is read from the fields.
  unfoldable pub print : Result (Unit {0})
  unfolding get_load_input_path get_minibatch_size get_s3_size get_learning_rate
  print = do
    path ← get_load_input_path c
    minibatch ← get_minibatch_size c
    size ← get_s3_size c
    rate ← get_learning_rate
    ok tt
