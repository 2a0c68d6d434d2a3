-- ===== src/Gradient/Lr.antt =====
-- `LRGradient` of src/ModelGradient.cpp: a version and dense weights.
use cirrus.Prelude.{ℕ, ◌+◌, ◌*◌, ◌%◌, ◌^◌, ◌≡◌, refl, List, arith, length, replicate}
use cirrus.Prelude.Result.{Result, ok, ◌>>=◌}
use cirrus.Floats.{Floats, IsExact}
use cirrus.Gradient.{check_floats}
use cirrus.Bytes.{store_u32, load_u32, store_float, load_float, store_list, load_list}
use cirrus.Bytes.Laws.{
  load_u32-store_u32_mod, length-store_u32, load_floats-store_floats, length-store_list,
  length-store_float,
}

pub record LrGradient (F : Type 0) : Type 0 where
  pub weights : List F
  pub version : ℕ

module _ {F D : Type 0} (fl : Floats F D) where
  -- `resize` fills the vector with the given zero.
  pub construct : F → ℕ → LrGradient F
  construct nought d = record { weights = replicate d nought; version = 0 }

  pub serialize : LrGradient F → List ℕ → List ℕ
  serialize g rest = store_u32 g.version (store_list (store_float fl) g.weights rest)

  pub serialized_size : LrGradient F → ℕ
  serialized_size g = length g.weights * 4 + 4

  -- The number of weights that are there says how many are read.
  pub load_serialized : LrGradient F → List ℕ → Result (LrGradient F)
  load_serialized g bytes = do
    (version, bytes') ← load_u32 bytes
    (weights, rest) ← load_list (load_float fl) (length g.weights) bytes'
    ok (record { weights = weights; version = version })

  pub check_values : LrGradient F → Result (Unit {0})
  check_values g = check_floats fl g.weights

  -- The size that is announced is the number of bytes that are written.
  pub length-serialize :
      (g : LrGradient F) (rest : List ℕ)
      → length (serialize g rest) ≡ serialized_size g + length rest
  unfolding serialize serialized_size
  length-serialize g rest = omega (
    arith,
    length-store_u32 g.version (store_list (store_float fl) g.weights rest),
    length-store_list 4 (store_float fl) (length-store_float fl) g.weights rest,
  )

  -- A gradient of the same length loads what was serialized; of the version the low 32 bits
  -- arrive.
  pub lr_round_trip :
      (exact : IsExact fl) (g g' : LrGradient F) (rest : List ℕ)
      → length g'.weights ≡ length g.weights
      → load_serialized g' (serialize g rest) ≡ ok (record g { version = g.version % 2 ^ 32 })
  unfolding load_serialized serialize
  lr_round_trip exact g g' rest h =
      rw
        (
          load_u32-store_u32_mod g.version (store_list (store_float fl) g.weights rest),
          h,
          load_floats-store_floats fl exact g.weights rest,
        )
        refl
