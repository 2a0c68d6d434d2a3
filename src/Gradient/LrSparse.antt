-- ===== src/Gradient/LrSparse.antt =====
-- `LRSparseGradient` of src/ModelGradient.cpp: a version and pairs of an index and a weight.
use cirrus.Prelude.{
  ℕ, zero, suc, ◌+◌, ◌*◌, ◌^◌, ◌<◌, ◌≡◌, refl, ap, ◌∙◌, ◌++◌, ◌&&◌, true, false, List, [], ◌∷◌,
  arith, length, All, replicate, ltb, map,
}
use cirrus.Prelude.Result.{Result, ok, err, assert_failed, ◌>>=◌, ◌>>◌, guard}
use cirrus.Floats.{Floats, IsExact}
use cirrus.Gradient.{check_floats}
use cirrus.Bytes.{store_u32, load_u32, store_list, store_pair, load_pair, sign_extend, is_negative}
use cirrus.Bytes.Laws.{
  load_u32-store_u32, length-store_u32, length-store_list, length-store_pair, load_pair-store_pair,
  store_u32-append, store_list-in_front, store_pair-append,
}

-- An index is an `int`, given by its bit pattern.
pub record LrSparseGradient (F : Type 0) : Type 0 where
  pub weights : List (ℕ × F)
  pub version : ℕ

abbrev pub max_weights : ℕ
max_weights = 10_000_000

module _ {F D : Type 0} (fl : Floats F D) where
  pub construct : F → ℕ → LrSparseGradient F
  construct nought d = record { weights = replicate d (0, nought); version = 0 }

  pub serialize : LrSparseGradient F → List ℕ → List ℕ
  serialize g rest =
      store_u32 g.version (store_u32 (length g.weights) (store_list (store_pair fl) g.weights rest))

  unfoldable pub serialized_size : LrSparseGradient F → ℕ
  serialized_size g = length g.weights * (4 + 4) + 4 * 2

  -- `n` pairs are to go, and `offset` bytes of `size` are read; the loop asserts `offset < size`.
  load_pairs : ℕ → ℕ → ℕ → List ℕ → Result (List (ℕ × F))
  load_pairs size zero offset bytes = ok []
  load_pairs size (suc n) offset bytes = do
    guard (ltb offset size) assert_failed
    (p, bytes') ← load_pair fl bytes
    ps ← load_pairs size n (offset + 8) bytes'
    ok (p ∷ ps)

  -- The pattern of a negative count is no less than `max_weights`.
  pub load_serialized : List ℕ → Result (LrSparseGradient F)
  unfolding load_pairs
  load_serialized bytes = do
    (version, bytes') ← load_u32 bytes
    (count, bytes'') ← load_u32 bytes'
    guard (ltb 0 count && ltb count max_weights) assert_failed
    weights ← load_pairs (count * (4 + 4) + 2 * 4) count 0 bytes''
    ok (record { weights = weights; version = sign_extend version })

  pub check_values : LrSparseGradient F → Result (Unit {0})
  check_values g = check_floats fl (map (λ p. p.1) g.weights)

  -- The size that is announced is the number of bytes that are written.
  pub length-serialize :
      (g : LrSparseGradient F) (rest : List ℕ)
      → length (serialize g rest) ≡ serialized_size g + length rest
  unfolding serialize serialized_size
  length-serialize g rest =
      let pairs = store_list (store_pair fl) g.weights rest in
      omega (
        arith,
        length-store_u32 g.version (store_u32 (length g.weights) pairs),
        length-store_u32 (length g.weights) pairs,
        length-store_list 8 (store_pair fl) (length-store_pair fl) g.weights rest,
      )

  pub serialized_size-positive : (g : LrSparseGradient F) → 0 < serialized_size g
  unfolding serialized_size
  serialized_size-positive g = omega arith

  pub serialized_size-small :
      (g : LrSparseGradient F) → length g.weights < max_weights → serialized_size g < 2 ^ 32
  unfolding serialized_size
  serialized_size-small g h = omega arith

  pub serialize-append :
      (g : LrSparseGradient F) (a b : List ℕ) → serialize g a ++ b ≡ serialize g (a ++ b)
  unfolding serialize
  serialize-append g a b =
      let n = length g.weights in
      let pairs = store_list (store_pair fl) g.weights a in
      store_u32-append g.version (store_u32 n pairs) b
      ∙ ap (store_u32 g.version) (
          store_u32-append n pairs b
          ∙ ap (store_u32 n)
              (store_list-in_front (store_pair fl) (store_pair-append fl) g.weights a b))

  abbrev pub IsIndexed : ℕ × F → Type 0
  IsIndexed p = p.0 < 2 ^ 32

  -- The assertion of the loop holds in every round.
  load_pairs-store_pairs :
      (exact : IsExact fl) (size offset : ℕ) (ps : List (ℕ × F)) (rest : List ℕ)
      → offset + length ps * 8 < size
      → All IsIndexed ps
      → load_pairs size (length ps) offset (store_list (store_pair fl) ps rest) ≡ ok ps
  unfolding load_pairs store_list
  load_pairs-store_pairs exact size offset [] rest room h = refl
  load_pairs-store_pairs exact size offset (p ∷ ps) rest room (h, hs) =
      let inside : ltb offset size ≡ true = ground arith in
      rw
        (
          inside,
          load_pair-store_pair fl exact p (store_list (store_pair fl) ps rest) h,
          load_pairs-store_pairs exact size (offset + 8) ps rest (omega arith) hs,
        )
        refl

  pub record IsSendable (g : LrSparseGradient F) : Type 0 where
    pub some_weights : 0 < length g.weights
    pub few_weights : length g.weights < max_weights
    pub indexed : All IsIndexed g.weights
    pub version_small : g.version < 2 ^ 31

  -- A gradient with at least one weight, fewer than ten million, and a version below 2 ^ 31
  -- is loaded as it was serialized.
  pub lr_sparse_round_trip :
      (exact : IsExact fl) (g : LrSparseGradient F) (rest : List ℕ)
      → IsSendable g
      → load_serialized (serialize g rest) ≡ ok g
  unfolding load_serialized serialize
  lr_sparse_round_trip exact g rest s =
      let n = length g.weights in
      let pairs = store_list (store_pair fl) g.weights rest in
      let some_weights : ltb 0 n ≡ true = ground arith in
      let few_weights : ltb n max_weights ≡ true = ground arith in
      let positive : is_negative g.version ≡ false = ground arith in
      rw
        (
          load_u32-store_u32 g.version (store_u32 n pairs) (omega arith),
          load_u32-store_u32 n pairs (omega arith),
          some_weights,
          few_weights,
          load_pairs-store_pairs exact (n * 8 + 8) 0 g.weights rest (omega arith) s.indexed,
          positive,
        )
        refl

  -- A gradient without weights is serialized, and fails an assertion when it is loaded.
  pub load_serialized_empty :
      (version : ℕ) (rest : List ℕ)
      → version < 2 ^ 32
      → load_serialized (serialize (record { weights = []; version = version }) rest)
        ≡ err assert_failed
  unfolding load_serialized serialize
  load_serialized_empty version rest h =
      rw
        (
          load_u32-store_u32 version (store_u32 0 (store_list (store_pair fl) [] rest)) h,
          load_u32-store_u32 0 (store_list (store_pair fl) [] rest) (omega arith),
        )
        refl
