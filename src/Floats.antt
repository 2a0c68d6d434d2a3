-- ===== src/Floats.antt =====
-- The arithmetic of `float` (FEATURE_TYPE of src/config.h) and `double`, which the compiler gives.
use cirrus.Prelude.{ℕ, ◌≡◌, refl, Bool, ltb, ◌==◌, ◌+◌, ◌-◌, ◌*◌, ◌/◌, false}

-- The four bytes of a machine word, in the order of their addresses.
abbrev pub Word : Type 0
Word = ℕ × ℕ × ℕ × ℕ

-- `F` is `float` and `D` is `double`; `word` is the memory of a `float`. The constants are FLOAT_EPS
-- of src/Utils.h, 0.5, the -10e-50 of `log_aux` and the 10e-8 of `sgd_update_adagrad`; `decimal m n`
-- is the literal with the value m / n.
pub record Floats (F D : Type 0) : Type 0 where
  pub word : F → Word
  pub of_word : Word → F
  pub widen : F → D
  pub narrow : D → F
  pub nought : D
  pub one : D
  pub add : D → D → D
  pub sub : D → D → D
  pub mul : D → D → D
  pub div : D → D → D
  pub abs : D → D
  pub tiny : D
  pub neg : D → D
  pub exp : D → D
  pub log : D → D
  pub half : D
  pub log_floor : D
  pub adagrad_floor : D
  pub less : D → D → Bool
  pub same : D → D → Bool
  pub add_float : F → F → F
  pub mul_float : F → F → F
  pub sqrt_float : F → F
  pub is_nan : F → Bool
  pub is_inf : F → Bool
  pub is_nan_double : D → Bool
  pub is_inf_double : D → Bool
  pub of_count : ℕ → D
  pub sub_float : F → F → F
  pub decimal : ℕ → ℕ → D

-- A `float` is determined by its bytes, and a `double` holds every `float`.
pub record IsExact {F D : Type 0} (fl : Floats F D) : Type 0 where
  pub of_word-word : (x : F) → fl.of_word (fl.word x) ≡ x
  pub narrow-widen : (x : F) → fl.narrow (fl.widen x) ≡ x

-- Whole numbers, on which the code can be run.
abbrev pub whole : Floats ℕ ℕ
whole = record {
  word = λ x. (x, 0, 0, 0);
  of_word = λ w. w.0;
  widen = λ x. x;
  narrow = λ x. x;
  nought = 0;
  one = 1;
  add = ◌+◌;
  sub = ◌-◌;
  mul = ◌*◌;
  div = ◌/◌;
  abs = λ x. x;
  tiny = 1;
  neg = λ x. x;
  exp = λ x. x;
  log = λ x. x;
  half = 1;
  log_floor = 0;
  adagrad_floor = 1;
  less = ltb;
  same = ◌==◌;
  add_float = ◌+◌;
  mul_float = ◌*◌;
  sqrt_float = λ x. x;
  is_nan = λ x. false;
  is_inf = λ x. false;
  is_nan_double = λ x. false;
  is_inf_double = λ x. false;
  of_count = λ n. n;
  sub_float = ◌-◌;
  decimal = ◌/◌;
}

pub whole-IsExact : IsExact whole
whole-IsExact = record { of_word-word = λ x. refl; narrow-widen = λ x. refl }
