-- ===== src/Gradient.antt =====
-- The gradients of src/ModelGradient.cpp and their wire formats.
pub mod Lr
pub mod Softmax
pub mod LrSparse
pub mod MfSparse
mod Tests
use cirrus.Prelude.{Bool, ◌||◌, List, [], ◌∷◌, if◌then◌else◌}
use cirrus.Prelude.Result.{Result, ok, err, runtime_error}
use cirrus.Floats.{Floats}

-- A `check_values` loop throws at the first value that is no number or is infinite.
unfoldable pub check_floats : {F D : Type 0} → Floats F D → List F → Result (Unit {0})
check_floats fl [] = ok tt
check_floats fl (w ∷ ws) =
    if fl.is_nan w || fl.is_inf w then err runtime_error else check_floats fl ws
