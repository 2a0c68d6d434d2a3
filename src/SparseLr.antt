-- ===== src/SparseLr.antt =====
-- `SparseLRModel` of src/SparseLRModel.cpp, dense and sparse logistic regression.
pub mod Minibatch
pub mod Dense
use cirrus.Prelude.{ℕ, ◌+◌, ◌*◌, ◌&&◌, List, length, replicate, ltb, ◌<◌, ◌≡◌, get_or}
use cirrus.Prelude.Result.{Result, ok, assert_failed, ◌>>=◌, ◌>>◌, guard}
use cirrus.Floats.{Floats}
use cirrus.Bytes.{store_u32, load_u32, store_float, load_float, store_list, load_list}
use cirrus.Vector.{at, at-in}

-- The model's own weights; `momentum_avg` serves `sgd_update_momentum`.
pub record SparseLr (F : Type 0) : Type 0 where
  pub weights : List F
  pub weights_hist : List F
  pub momentum_avg : F

module _ {F D : Type 0} (fl : Floats F D) where
  -- `resize` fills the vectors with zeros.
  pub construct : F → ℕ → SparseLr F
  construct nought d = record {
    weights = replicate d nought;
    weights_hist = replicate d nought;
    momentum_avg = nought;
  }

  pub size : SparseLr F → ℕ
  size m = length m.weights

  pub get_nth_weight : SparseLr F → ℕ → Result F
  get_nth_weight m n = at m.weights n

  pub get_nth_weight-in :
      (m : SparseLr F) (n : ℕ) (d : F)
      → n < length m.weights
      → get_nth_weight m n ≡ ok (get_or m.weights n d)
  unfolding get_nth_weight
  get_nth_weight-in m n d h = at-in m.weights n d h

  pub serialize_to : SparseLr F → List ℕ → List ℕ
  serialize_to m rest = store_u32 (length m.weights) (store_list (store_float fl) m.weights rest)

  pub serialized_size : SparseLr F → ℕ
  serialized_size m = length m.weights * 4 + 4

  pub load_serialized : SparseLr F → List ℕ → Result (SparseLr F)
  load_serialized m bytes = do
    (n, bytes') ← load_u32 bytes
    guard (ltb 0 n && ltb n 10_000_000) assert_failed
    (weights, rest) ← load_list (load_float fl) n bytes'
    ok (record m { weights = weights })
