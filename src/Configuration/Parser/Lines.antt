-- ===== src/Configuration/Parser/Lines.antt =====
-- Lines of a configuration file, as `parse_line` of src/Configuration.cpp takes them.
use Prim.Native.String.{String}
use cirrus.Prelude.{
  ℕ, zero, suc, ◌%◌, ◌^◌, ◌<◌, ◌≡◌, ◌≢◌, refl, true, List, [], ◌∷◌, ◌++◌, ◌==◌, Option, none, some,
  arith, if◌then◌else◌, words_same, text_key, ◌⊎◌, inl, inr,
}
use cirrus.Prelude.Result.{Result, ok, err, runtime_error, undefined, ◌>>◌}
use cirrus.Prelude.Table.{lookup}
use cirrus.Floats.{Floats}
use cirrus.Text.{Scanned, codes, to_string, is_space, skip_space, split_word, extract}
use cirrus.Text.Decimal.{extract-to_string}
use cirrus.Configuration.{Configuration}
use cirrus.Configuration.Parser.{
  Setting, settings, set, finish, run_setting, parse_line, check_multiple, has_remainder, model_of,
  range_of, split_range,
}

-- A line with a number.
abbrev pub number_line : String → ℕ → List ℕ
number_line name v = codes name ++ b' ' ∷ to_string v

-- The check of one size against the other, when `v` becomes the minibatch's.
abbrev pub divided : {V : Type 0} → ℕ → ℕ → V → Result V
divided zero v result = ok result
divided (suc n) zero result = err undefined
divided (suc n) (suc v) result = if suc n % suc v == 0 then ok result else err runtime_error

module _ {F D : Type 0} (fl : Floats F D) (scan_double : List ℕ → Scanned D) where
  -- A line with the name of a 64-bit setting and a number sets the field of that name to the
  -- number, and nothing else.
  pub parse_line-to_string :
      (v : ℕ) (c : Configuration D)
      → v < 2 ^ 64
      → (parse_line fl scan_double (number_line "num_features:" v) c
          ≡ ok (record c { num_features = v }))
        × (parse_line fl scan_double (number_line "n_workers:" v) c
            ≡ ok (record c { n_workers = v }))
        × (parse_line fl scan_double (number_line "num_classes:" v) c
            ≡ ok (record c { num_classes = v }))
        × (parse_line fl scan_double (number_line "limit_cols:" v) c
            ≡ ok (record c { limit_cols = v }))
        × (parse_line fl scan_double (number_line "limit_samples:" v) c
            ≡ ok (record c { limit_samples = v }))
        × (parse_line fl scan_double (number_line "model_bits:" v) c
            ≡ ok (record c { model_bits = v }))
        × (parse_line fl scan_double (number_line "netflix_workers:" v) c
            ≡ ok (record c { netflix_workers = v }))
        × (parse_line fl scan_double (number_line "checkpoint_frequency:" v) c
            ≡ ok (record c { checkpoint_frequency = v }))
  unfolding parse_line run_setting set settings finish lookup split_word skip_space is_space
      words_same
  parse_line-to_string v c small = (
    rw (extract-to_string v c.num_features small) refl,
    rw (extract-to_string v c.n_workers small) refl,
    rw (extract-to_string v c.num_classes small) refl,
    rw (extract-to_string v c.limit_cols small) refl,
    rw (extract-to_string v c.limit_samples small) refl,
    rw (extract-to_string v c.model_bits small) refl,
    rw (extract-to_string v c.netflix_workers small) refl,
    rw (extract-to_string v c.checkpoint_frequency small) refl,
  )

  store_minibatch :
      (size v : ℕ) (c : Configuration D)
      → (check_multiple size size v >> ok (record c { minibatch_size = v }))
        ≡ divided size v (record c { minibatch_size = v })
  unfolding check_multiple has_remainder
  store_minibatch zero v c = refl
  store_minibatch (suc size) zero c = refl
  store_minibatch (suc size) (suc v) c = ground arith

  store_size :
      (minibatch v : ℕ) (c : Configuration D)
      → (check_multiple minibatch v minibatch >> ok (record c { s3_size = v })) ≡ (
          if minibatch == 0
          then ok (record c { s3_size = v })
          else if v % minibatch == 0
          then ok (record c { s3_size = v })
          else err runtime_error)
  unfolding check_multiple has_remainder
  store_size zero v c = refl
  store_size (suc minibatch) v c = ground arith

  -- A line with one of the two sizes stores it if the other size is 0 or the two divide, and is an
  -- error otherwise; a minibatch of 0 is undefined once there is a size of objects.
  pub parse_line-sizes :
      (v : ℕ) (c : Configuration D)
      → v < 2 ^ 64
      → (parse_line fl scan_double (number_line "minibatch_size:" v) c
          ≡ divided c.s3_size v (record c { minibatch_size = v }))
        × (parse_line fl scan_double (number_line "s3_size:" v) c ≡ (
            if c.minibatch_size == 0
            then ok (record c { s3_size = v })
            else if v % c.minibatch_size == 0
            then ok (record c { s3_size = v })
            else err runtime_error))
  unfolding parse_line run_setting set settings finish lookup split_word skip_space is_space
      words_same
  parse_line-sizes v c small = (
    rw (extract-to_string v c.minibatch_size small) (store_minibatch c.s3_size v c),
    rw (extract-to_string v c.s3_size small) (store_size c.minibatch_size v c),
  )

  -- Two sizes of which the other one is no divisor by zero.
  abbrev pub AreSizes : Configuration D → Type 0
  AreSizes c = c.minibatch_size ≡ 0 → c.s3_size ≡ 0

  -- A size with nothing behind its name.
  check_fails :
      (guarded left right : ℕ) (c : Configuration D)
      → (right ≡ 0 → guarded ≡ 0)
      → (check_multiple guarded left right >> finish true c) ≡ err runtime_error
  unfolding check_multiple has_remainder finish
  check_fails zero left right c fine = refl
  check_fails (suc guarded) left zero c fine = absurd (let e = fine refl in omega arith)
  check_fails (suc guarded) left (suc right) c fine = ground arith

  set_missing :
      (s : Setting) (cs : List ℕ) (c : Configuration D)
      → skip_space cs ≡ []
      → AreSizes c
      → set fl scan_double s cs c ≡ err runtime_error
  unfolding set finish extract model_of range_of split_range words_same
  set_missing Setting.minibatch_size cs c h sizes =
      rw (h, extract) (check_fails c.s3_size c.s3_size c.minibatch_size c sizes)
  set_missing Setting.s3_size cs c h sizes =
      rw (h, extract) (check_fails c.minibatch_size c.s3_size c.minibatch_size c (λ e. e))
  set_missing s cs c h sizes = rw (h, extract) refl

  run_unknown :
      (word cs : List ℕ) (c : Configuration D)
      → word ≢ []
      → run_setting fl scan_double none word cs c ≡ err runtime_error
  unfolding run_setting words_same
  run_unknown [] cs c some_word = absurd (some_word refl)
  run_unknown (d ∷ word) cs c some_word = refl

  run_missing :
      (found : Option Setting) (word cs : List ℕ) (c : Configuration D)
      → word ≢ []
      → skip_space cs ≡ []
      → AreSizes c
      → run_setting fl scan_double found word cs c ≡ err runtime_error
  unfolding run_setting
  run_missing (some s) word cs c some_word h sizes = set_missing s cs c h sizes
  run_missing none word cs c some_word h sizes = run_unknown word cs c some_word

  -- A line is refused with an exception if its first word is no option, or if nothing but
  -- white space stands behind the word, unless in the second case there is a size of objects
  -- and no size of minibatches.
  pub parse_line-rejects :
      (line word cs : List ℕ) (c : Configuration D)
      → split_word (skip_space line) ≡ (word, cs)
      → word ≢ []
      → (lookup word settings ≡ none) ⊎ ((skip_space cs ≡ []) × AreSizes c)
      → parse_line fl scan_double line c ≡ err runtime_error
  unfolding parse_line
  parse_line-rejects line word cs c split some_word (inl unknown) =
      rw (split, parse_line) (rw unknown (run_unknown word cs c some_word))
  parse_line-rejects line word cs c split some_word (inr (nothing, sizes)) =
      rw (split, parse_line) (run_missing (lookup word settings) word cs c some_word nothing sizes)
