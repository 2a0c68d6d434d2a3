-- ===== src/Configuration/Parser/Tests.antt =====
-- Configuration files for `read` of src/Configuration.cpp.
use cirrus.Prelude.{ℕ, ◌≡◌, refl, List, [], ◌++◌, some, arith, inr, words_same}
use cirrus.Prelude.Result.{ok, err, runtime_error, undefined}
use cirrus.Prelude.Table.{lookup}
use cirrus.Text.{
  codes, scan_u64, skip_space, split_word, is_space, is_digit, scan_digits, fit, extract, scan_word,
  split_lines, string_to, scan_int,
}
use cirrus.Configuration.{Configuration, construct, check, softmax}
use cirrus.Configuration.Getters.{
  print, get_load_input_path, get_minibatch_size, get_s3_size, get_learning_rate,
}
use cirrus.Configuration.Parser.{
  settings, set, finish, run_setting, parse_line, read_lines, read, check_multiple, has_remainder,
  model_of, range_of, split_range,
}
use cirrus.Configuration.Parser.Checked.{IsChecked, read-IsChecked}
use cirrus.Configuration.Parser.Lines.{
  parse_line-to_string, parse_line-sizes, parse_line-rejects, number_line,
}
use cirrus.Floats.{whole}

abbrev pub file : List ℕ
file =
    codes "# a comment\n\nload_input_path: a.csv\nminibatch_size: 20\n"
    ++ codes "s3_size: 100\nlearning_rate: 3\nepsilon: 4\n"
    ++ codes
        "s3_bucket: b\ndataset_format: libsvm\nopt_method: sgd\ntrain_set: 1-7\nmodel_type: Softmax\n"

abbrev pub loaded : Configuration ℕ
loaded = record (construct whole) {
  load_input_path = codes "a.csv";
  minibatch_size = 20;
  s3_size = 100;
  learning_rate = 3;
  epsilon = 4;
  s3_bucket_name = codes "b";
  dataset_format = codes "libsvm";
  opt_method = codes "sgd";
  train_set_range = (1, 7);
  model_type = softmax;
}

pub file_is_read : read whole scan_u64 (some file) (construct whole) ≡ ok loaded
unfolding read read_lines parse_line run_setting set settings finish lookup split_word skip_space
    is_space words_same scan_u64 is_digit scan_digits fit extract scan_word split_lines check print
    get_load_input_path get_minibatch_size get_s3_size get_learning_rate construct check_multiple
    has_remainder model_of range_of split_range string_to scan_int
file_is_read = refl

-- A size of a minibatch of 0 behind a size of objects.
abbrev sized : Configuration ℕ
sized = record (construct whole) { s3_size = 100 }

zero_minibatch : parse_line whole scan_u64 (codes "minibatch_size: 0") sized ≡ err undefined
unfolding parse_line run_setting set settings finish lookup split_word skip_space is_space
    words_same scan_u64 is_digit scan_digits fit extract check_multiple has_remainder
zero_minibatch = refl

read-IsChecked_example : IsChecked whole loaded
read-IsChecked_example = read-IsChecked whole scan_u64 (some file) loaded file_is_read

parse_line-to_string_example :
    (parse_line whole scan_u64 (number_line "num_features:" 12) sized
      ≡ ok (record sized { num_features = 12 }))
    × (parse_line whole scan_u64 (number_line "n_workers:" 12) sized
        ≡ ok (record sized { n_workers = 12 }))
    × (parse_line whole scan_u64 (number_line "num_classes:" 12) sized
        ≡ ok (record sized { num_classes = 12 }))
    × (parse_line whole scan_u64 (number_line "limit_cols:" 12) sized
        ≡ ok (record sized { limit_cols = 12 }))
    × (parse_line whole scan_u64 (number_line "limit_samples:" 12) sized
        ≡ ok (record sized { limit_samples = 12 }))
    × (parse_line whole scan_u64 (number_line "model_bits:" 12) sized
        ≡ ok (record sized { model_bits = 12 }))
    × (parse_line whole scan_u64 (number_line "netflix_workers:" 12) sized
        ≡ ok (record sized { netflix_workers = 12 }))
    × (parse_line whole scan_u64 (number_line "checkpoint_frequency:" 12) sized
        ≡ ok (record sized { checkpoint_frequency = 12 }))
parse_line-to_string_example = parse_line-to_string whole scan_u64 12 sized (omega arith)

parse_line-sizes_example :
    (parse_line whole scan_u64 (number_line "minibatch_size:" 30) sized ≡ err runtime_error)
    × (parse_line whole scan_u64 (number_line "s3_size:" 30) sized
        ≡ ok (record sized { s3_size = 30 }))
unfolding construct
parse_line-sizes_example = parse_line-sizes whole scan_u64 30 sized (omega arith)

word_alone : split_word (skip_space (codes "n_workers:")) ≡ (codes "n_workers:", [])
unfolding split_word skip_space is_space
word_alone = refl

nothing_left : skip_space [] ≡ []
unfolding skip_space
nothing_left = refl

parse_line-rejects_example :
    parse_line whole scan_u64 (codes "n_workers:") (construct whole) ≡ err runtime_error
unfolding construct
parse_line-rejects_example =
    parse_line-rejects whole scan_u64 (codes "n_workers:") (codes "n_workers:") [] (construct whole)
      word_alone (ground arith) (inr (nothing_left, λ e. refl))
