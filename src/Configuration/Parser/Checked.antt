-- ===== src/Configuration/Parser/Checked.antt =====
-- What holds of a configuration that `read` of src/Configuration.cpp returns.
use cirrus.Prelude.{
  ℕ, zero, suc, ◌%◌, ◌≡◌, ◌≢◌, refl, Bool, true, false, not, ◌&&◌, ◌||◌, List, [], ◌∷◌, Option,
  none, some, arith, subst, ◌⊎◌, inl, inr, Bool-cases, words_same_iff,
}
use cirrus.Prelude.Result.{ok, runtime_error, guard, ◌>>◌, >>-eq-ok, >>=-eq-ok}
use cirrus.Floats.{Floats}
use cirrus.Text.{Scanned, codes, split_lines}
use cirrus.Configuration.{
  Configuration, construct, nonzero, is_collaborative, known_format, known_method,
  checkpoint_is_set, is_word, check,
}
use cirrus.Configuration.Getters.{
  print, get_load_input_path, get_minibatch_size, get_s3_size, get_learning_rate,
}
use cirrus.Configuration.Parser.{
  Setting, check_multiple, has_remainder, finish, set, run_setting, parse_line, read_lines, read,
  is_comment,
}

-- The size of an object is a multiple of the size of a minibatch, once both are known.
abbrev pub IsDivided : {D : Type 0} → Configuration D → Type 0
IsDivided c = c.s3_size ≢ 0 → c.minibatch_size ≢ 0 → c.s3_size % c.minibatch_size ≡ 0

check_multiple-divides :
    (guarded left right : ℕ)
    → check_multiple guarded left right ≡ ok tt
    → guarded ≢ 0
    → left % right ≡ 0
unfolding check_multiple has_remainder
check_multiple-divides zero left right done h = absurd (h refl)
check_multiple-divides (suc guarded) left zero done h = cc
check_multiple-divides (suc guarded) left (suc right) done h = ground arith

module _ {F D : Type 0} (fl : Floats F D) (scan_double : List ℕ → Scanned D) where
  set_minibatch_size-IsDivided :
      (v : ℕ) (failed : Bool) (c c' : Configuration D)
      → (check_multiple c.s3_size c.s3_size v >> finish failed (record c { minibatch_size = v }))
        ≡ ok c'
      → IsDivided c'
  unfolding finish
  set_minibatch_size-IsDivided v failed c c' done =
      let (checked, stored) = >>-eq-ok (check_multiple c.s3_size c.s3_size v) _ done in
      λ h _. ground (arith, check_multiple-divides c.s3_size c.s3_size v checked)

  set_s3_size-IsDivided :
      (v : ℕ) (failed : Bool) (c c' : Configuration D)
      → (check_multiple c.minibatch_size v c.minibatch_size
          >> finish failed (record c { s3_size = v }))
        ≡ ok c'
      → IsDivided c'
  unfolding finish
  set_s3_size-IsDivided v failed c c' done =
      let (checked, stored) =
        >>-eq-ok (check_multiple c.minibatch_size v c.minibatch_size) _ done in
      λ _ h. ground (arith, check_multiple-divides c.minibatch_size v c.minibatch_size checked)

  set-IsDivided :
      (s : Setting) (cs : List ℕ) (c c' : Configuration D)
      → set fl scan_double s cs c ≡ ok c'
      → IsDivided c
      → IsDivided c'
  unfolding set finish
  set-IsDivided Setting.minibatch_size cs c c' done h = set_minibatch_size-IsDivided _ _ c c' done
  set-IsDivided Setting.s3_size cs c c' done h = set_s3_size-IsDivided _ _ c c' done
  set-IsDivided s cs c c' done h = ground arith

  parse_word-IsDivided :
      (found : Option Setting) (word cs : List ℕ) (c c' : Configuration D)
      → run_setting fl scan_double found word cs c ≡ ok c'
      → IsDivided c
      → IsDivided c'
  unfolding run_setting
  parse_word-IsDivided (some s) word cs c c' done h = set-IsDivided s cs c c' done h
  parse_word-IsDivided none word cs c c' done h = ground arith

  pub parse_line-IsDivided :
      (line : List ℕ) (c c' : Configuration D)
      → parse_line fl scan_double line c ≡ ok c'
      → IsDivided c
      → IsDivided c'
  unfolding parse_line
  parse_line-IsDivided line c c' done h = parse_word-IsDivided _ _ _ c c' done h

  read_lines-IsDivided :
      (lines : List (List ℕ)) (c c' : Configuration D)
      → read_lines fl scan_double lines c ≡ ok c'
      → IsDivided c
      → IsDivided c'
  unfolding read_lines
  read_lines-IsDivided [] c c' done h = ground arith
  read_lines-IsDivided (line ∷ lines) c c' done h = elim (Bool-cases (is_comment line)) [
    | inl skipped ↦ read_lines-IsDivided lines c c' (rw skipped at done) h
    | inr used ↦
        let (middle, first, rest) =
          >>=-eq-ok (parse_line fl scan_double line c) _ (rw used at done) in
        read_lines-IsDivided lines middle c' rest (parse_line-IsDivided line c middle first h)
  ]

-- One of four words.
abbrev pub IsOneOf : (a b c d word : List ℕ) → Type 0
IsOneOf a b c d word = (word ≡ a) ⊎ ((word ≡ b) ⊎ ((word ≡ c) ⊎ (word ≡ d)))

abbrev pub HasMethod : {D : Type 0} → Configuration D → Type 0
HasMethod c =
    IsOneOf (codes "adagrad") (codes "nesterov") (codes "momentum") (codes "sgd") c.opt_method

abbrev pub HasFormat : {D : Type 0} → Configuration D → Type 0
HasFormat c =
    IsOneOf (codes "csv") (codes "libsvm") (codes "svmlight") (codes "binary") c.dataset_format

-- What the getters and the server rely on.
pub record IsChecked {F D : Type 0} (fl : Floats F D) (c : Configuration D) : Type 0 where
  pub has_minibatch_size : c.minibatch_size ≢ 0
  pub has_s3_size : c.s3_size ≢ 0
  pub divides : c.s3_size % c.minibatch_size ≡ 0
  pub has_rate : fl.same c.learning_rate (fl.neg fl.one) ≡ false
  pub has_model_bits : c.model_bits ≢ 0
  pub has_path : c.load_input_path ≢ []
  pub has_bucket : c.s3_bucket_name ≢ []
  pub has_method : HasMethod c
  pub has_format : HasFormat c

-- One of the four names of `check`.
one_of :
    (a b c d word : List ℕ)
    → (is_word word a || (is_word word b || (is_word word c || is_word word d))) ≡ true
    → IsOneOf a b c d word
one_of a b c d word h = elim (Bool-cases (is_word word a)) [
  | inl same ↦ inl ((words_same_iff word a).0 same)
  | inr other ↦ elim (Bool-cases (is_word word b)) [
    | inl same ↦ inr (inl ((words_same_iff word b).0 same))
    | inr other' ↦ elim (Bool-cases (is_word word c)) [
      | inl same ↦ inr (inr (inl ((words_same_iff word c).0 same)))
      | inr other'' ↦ inr (inr (inr ((words_same_iff word d).0 (rw (other, other', other'') at h))))
    ]
  ]
]

not_word : (word : List ℕ) → not (is_word word []) ≡ true → word ≢ []
not_word word h = ground (arith, words_same_iff word [])

nonzero_ne : (n : ℕ) → nonzero n ≡ true → n ≢ 0
nonzero_ne n h = ground arith

not-false : (b : Bool) → not b ≡ true → b ≡ false
not-false b h = ground arith

guarded :
    {V : Type 0} {v : V} (holds : Bool) (value : V)
    → (guard holds runtime_error >> ok value) ≡ ok v
    → holds ≡ true
guarded true value done = refl
guarded false value done = cc

-- The tests of `check` and of `print`.
guards :
    (a b c d e f g : Bool)
    → (guard a runtime_error
        >> (guard b runtime_error
            >> (guard c runtime_error
                >> (guard d runtime_error
                    >> (guard e runtime_error
                        >> (guard f runtime_error >> guard g runtime_error))))))
      ≡ ok tt
    → (a ≡ true) × (b ≡ true) × (e ≡ true) × (f ≡ true)
guards a b c d e f g done = ground arith

module _ {F D : Type 0} (fl : Floats F D) where
  check-parts :
      (c : Configuration D)
      → check fl c ≡ ok tt
      → (c.s3_bucket_name ≢ []) × (c.model_bits ≢ 0) × HasMethod c × HasFormat c
  unfolding check
  check-parts c done =
      let (bucket, format, bits, method) =
        guards (not (is_word c.s3_bucket_name [])) (known_format c)
          (not (nonzero c.test_set_range.0 && is_collaborative c.model_type))
          (not (c.use_grad_threshold && fl.same c.grad_threshold fl.nought)) (nonzero c.model_bits)
          (known_method c) (checkpoint_is_set c) done in
      (
        not_word c.s3_bucket_name bucket,
        ground arith,
        one_of _ _ _ _ c.opt_method method,
        one_of _ _ _ _ c.dataset_format format,
      )

  print-parts :
      (c : Configuration D)
      → print fl c ≡ ok tt
      → (c.load_input_path ≢ [])
        × (c.minibatch_size ≢ 0)
        × (c.s3_size ≢ 0)
        × (fl.same c.learning_rate (fl.neg fl.one) ≡ false)
  unfolding print get_load_input_path get_minibatch_size get_s3_size get_learning_rate
  print-parts c done =
      let (path, found, rest) = >>=-eq-ok (get_load_input_path c) _ done in
      let (minibatch, known, rest') = >>=-eq-ok (get_minibatch_size c) _ rest in
      let (size, known', rest'') = >>=-eq-ok (get_s3_size c) _ rest' in
      let (rate, known'', rest''') = >>=-eq-ok (get_learning_rate fl c) _ rest'' in
      (
        not_word c.load_input_path (guarded _ _ found),
        nonzero_ne _ (guarded _ _ known),
        nonzero_ne _ (guarded _ _ known'),
        not-false _ (guarded _ _ known''),
      )

  construct-IsDivided : IsDivided (construct fl)
  unfolding construct
  construct-IsDivided h minibatch = absurd (h refl)

  -- A configuration that is read from a file has a size of minibatches and of objects, the
  -- second a multiple of the first, a learning rate that is not -1, model bits, a path, a
  -- bucket, a known method and a known format.
  pub read-IsChecked :
      (scan_double : List ℕ → Scanned D) (file : Option (List ℕ)) (c' : Configuration D)
      → read fl scan_double file (construct fl) ≡ ok c'
      → IsChecked fl c'
  unfolding read
  read-IsChecked scan_double none c' done = cc
  read-IsChecked scan_double (some text) c' done =
      let (c, parsed, rest) =
        >>=-eq-ok (read_lines fl scan_double (split_lines text) (construct fl)) _ done in
      let (printed, rest') = >>-eq-ok (print fl c) _ rest in
      let (checked, same) = >>-eq-ok (check fl c) _ rest' in
      let e : c ≡ c' = cc in
      let (path, minibatch, size, rate) = print-parts c printed in
      let (bucket, bits, method, format) = check-parts c checked in
      subst (IsChecked fl) e (record {
        has_minibatch_size = minibatch;
        has_s3_size = size;
        divides =
            read_lines-IsDivided fl scan_double (split_lines text) (construct fl) c parsed
              construct-IsDivided size minibatch;
        has_rate = rate;
        has_model_bits = bits;
        has_path = path;
        has_bucket = bucket;
        has_method = method;
        has_format = format;
      })
