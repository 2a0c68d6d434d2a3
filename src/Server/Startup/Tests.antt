-- ===== src/Server/Startup/Tests.antt =====
-- A start of the server of src/PSSparseServerTask.cpp from a configuration file.
use cirrus.Prelude.{ℕ, ◌≡◌, refl, some}
use cirrus.Prelude.Result.{ok}
use cirrus.Floats.{whole}
use cirrus.Text.{scan_u64}
use cirrus.Optimizer.{Method}
use cirrus.Configuration.Parser.Tests.{file, loaded, file_is_read}
use cirrus.Server.Startup.{choose_method, Follows, read-choose_method}

read-choose_method_example :
    (m : Method ℕ) × (choose_method whole loaded ≡ ok m) × Follows whole loaded m
read-choose_method_example = read-choose_method whole scan_u64 (some file) loaded file_is_read refl
