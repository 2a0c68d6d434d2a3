-- ===== src/Gradient/Softmax.antt =====
-- `SoftmaxGradient` of src/ModelGradient.cpp: a version and a matrix of weights.
use cirrus.Prelude.{ℕ, ◌+◌, ◌*◌, ◌%◌, ◌^◌, ◌≡◌, refl, List, [], ◌∷◌, length, replicate}
use cirrus.Prelude.Result.{Result, ok, err, undefined, ◌>>=◌, ◌>>◌}
use cirrus.Floats.{Floats, IsExact}
use cirrus.Gradient.{check_floats}
use cirrus.Bytes.{store_u32, load_u32, store_float, load_float, store_list, load_list}
use cirrus.Bytes.Laws.{load_u32-store_u32_mod, load_floats-store_floats}

pub record SoftmaxGradient (F : Type 0) : Type 0 where
  pub weights : List (List F)
  pub version : ℕ

module _ {F D : Type 0} (fl : Floats F D) where
  pub construct : F → ℕ → ℕ → SoftmaxGradient F
  construct nought nclasses d = record {
    weights = replicate d (replicate nclasses nought);
    version = 0;
  }

  abbrev store_row : List F → List ℕ → List ℕ
  store_row row rest = store_list (store_float fl) row rest

  pub serialize : SoftmaxGradient F → List ℕ → List ℕ
  serialize g rest = store_u32 g.version (store_list store_row g.weights rest)

  -- `weights[0]` of an empty matrix is undefined.
  pub serialized_size : SoftmaxGradient F → Result ℕ
  serialized_size g = elim g.weights [
    | [] ↦ err undefined
    | row ∷ rows ↦ ok (length (row ∷ rows) * length row * 4 + 4)
  ]

  -- Each row is read over, and keeps its length.
  pub load_rows : List (List F) → List ℕ → Result (List (List F))
  load_rows [] bytes = ok []
  load_rows (row ∷ rows) bytes = do
    (row', bytes') ← load_list (load_float fl) (length row) bytes
    rows' ← load_rows rows bytes'
    ok (row' ∷ rows')

  pub load_serialized : SoftmaxGradient F → List ℕ → Result (SoftmaxGradient F)
  unfolding load_rows
  load_serialized g bytes = do
    (version, bytes') ← load_u32 bytes
    rows ← load_rows g.weights bytes'
    ok (record { weights = rows; version = version })

  pub check_values : SoftmaxGradient F → Result (Unit {0})
  check_values g = check_rows g.weights
    where
      check_rows : List (List F) → Result (Unit {0})
      check_rows [] = ok tt
      check_rows (row ∷ rows) = check_floats fl row >> check_rows rows

  -- Two matrices with rows of the same lengths.
  abbrev pub SameShape : List (List F) → List (List F) → Type 0
  SameShape [] [] = Unit
  SameShape [] (y ∷ ys) = ⊥
  SameShape (x ∷ xs) [] = ⊥
  SameShape (x ∷ xs) (y ∷ ys) = (length x ≡ length y) × SameShape xs ys

  load_rows-store_rows :
      (exact : IsExact fl) (rows shape : List (List F)) (rest : List ℕ)
      → SameShape shape rows
      → load_rows shape (store_list store_row rows rest) ≡ ok rows
  unfolding load_rows store_list
  load_rows-store_rows exact [] [] rest h = refl
  load_rows-store_rows exact [] (y ∷ ys) rest h = absurd h
  load_rows-store_rows exact (x ∷ xs) [] rest h = absurd h
  load_rows-store_rows exact (x ∷ xs) (y ∷ ys) rest (h, hs) =
      rw
        (
          h,
          load_floats-store_floats fl exact x (store_list store_row xs rest),
          load_rows-store_rows exact xs ys rest hs,
        )
        refl

  -- A gradient of the same shape loads what was serialized; of the version the low 32 bits
  -- arrive.
  pub softmax_round_trip :
      (exact : IsExact fl) (g g' : SoftmaxGradient F) (rest : List ℕ)
      → SameShape g'.weights g.weights
      → load_serialized g' (serialize g rest) ≡ ok (record g { version = g.version % 2 ^ 32 })
  unfolding load_serialized serialize
  softmax_round_trip exact g g' rest h =
      rw
        (
          load_u32-store_u32_mod g.version (store_list store_row g.weights rest),
          load_rows-store_rows exact g.weights g'.weights rest h,
        )
        refl
