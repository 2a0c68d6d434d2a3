-- ===== src/MlUtils.antt =====
-- src/MlUtils.h and src/MlUtils.cpp: the guarded sigmoid and logarithm.
use cirrus.Prelude.{◌||◌, if◌then◌else◌}
use cirrus.Prelude.Result.{Result, ok, err, runtime_error}
use cirrus.Floats.{Floats}

module _ {F D : Type 0} (fl : Floats F D) where
  -- A result that is no number or is infinite is thrown.
  unfoldable pub finite : D → Result D
  finite x = if fl.is_nan_double x || fl.is_inf_double x then err runtime_error else ok x

  unfoldable pub s_1 : D → Result D
  unfolding finite
  s_1 x = finite (fl.div fl.one (fl.add fl.one (fl.exp (fl.neg x))))

  unfoldable pub log_aux : D → Result D
  unfolding finite
  log_aux v = if fl.same v fl.nought then ok fl.log_floor else finite (fl.log v)
