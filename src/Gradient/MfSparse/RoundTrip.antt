-- ===== src/Gradient/MfSparse/RoundTrip.antt =====
-- `MFSparseGradient` of src/ModelGradient.cpp: serialization and loading.
use cirrus.Prelude.{
  ℕ, ◌+◌, ◌*◌, ◌^◌, ◌<◌, ◌≡◌, refl, true, List, [], ◌∷◌, ◌++◌, append_assoc, arith, length, All,
  ==_refl, none, number_key, append-nil,
}
use cirrus.Prelude.Result.{ok}
use cirrus.Prelude.Table.{lookup, insert}
use cirrus.Floats.{Floats, IsExact}
use cirrus.Bytes.{store_u32, store_float, store_list, load_list, store_pair}
use cirrus.Bytes.Laws.{
  load_u32-store_u32, length-store_u32, load_list-store_list, length-store_list,
  load_floats-store_floats, length-store_float, length-store_pair, load_pair-store_pair,
}
use cirrus.Gradient.MfSparse.{
  num_factors, magic_number, end_magic, MfSparseGradient, Row, construct, serialized_size,
  store_row, load_row, all_full, body, serialize, load_biases, load_serialized,
}

-- No key stands twice, nor in `m`.
abbrev pub Distinct : {F : Type 0} → List (ℕ × F) → List (ℕ × F) → Type 0
Distinct m [] = Unit
Distinct m ((k, v) ∷ ps) = (lookup k m ≡ none) × Distinct (m ++ ((k, v) ∷ [])) ps

module _ {F D : Type 0} (fl : Floats F D) where
  insert_fresh :
      (k : ℕ) (v : F) (m : List (ℕ × F)) → lookup k m ≡ none → insert k v m ≡ m ++ ((k, v) ∷ [])
  unfolding insert lookup
  insert_fresh k v [] h = refl
  insert_fresh k v ((j, w) ∷ m) h = ground (arith, insert_fresh k v m)

  abbrev pub IsPair : ℕ × F → Type 0
  IsPair p = p.0 < 2 ^ 32

  load_biases-store_pairs :
      (exact : IsExact fl) (ps m : List (ℕ × F)) (rest : List ℕ)
      → All IsPair ps
      → Distinct m ps
      → load_biases fl (length ps) m (store_list (store_pair fl) ps rest) ≡ ok (m ++ ps, rest)
  unfolding load_biases store_list
  load_biases-store_pairs exact [] m rest h d = rw append-nil refl
  load_biases-store_pairs exact ((k, v) ∷ ps) m rest (h, hs) (d, ds) =
      rw
        (
          load_pair-store_pair fl exact (k, v) (store_list (store_pair fl) ps rest) h,
          insert_fresh k v m d,
          load_biases-store_pairs exact ps (m ++ ((k, v) ∷ [])) rest hs ds,
          append_assoc,
        )
        refl

  abbrev pub IsRow : Row F → Type 0
  IsRow row = (row.0 < 2 ^ 32) × (length row.1 ≡ num_factors)

  load_row-store_row :
      (exact : IsExact fl) (row : Row F) (rest : List ℕ)
      → IsRow row
      → load_row fl (store_row fl row rest) ≡ ok (row, rest)
  unfolding load_row store_row
  load_row-store_row exact (id, ws) rest (small, full) =
      rw
        (
          load_u32-store_u32 id (store_list (store_float fl) ws rest) small,
          ← full,
          load_floats-store_floats fl exact ws rest,
        )
        refl

  all_full_of_rows : (rows : List (Row F)) → All IsRow rows → all_full fl rows ≡ true
  unfolding all_full
  all_full_of_rows [] h = refl
  all_full_of_rows ((id, ws) ∷ rows) (h, hs) = ground (arith, all_full_of_rows rows hs)

  -- A gradient as `minibatch_grad` of the factor model leaves it.
  pub record IsWellFormed (g : MfSparseGradient F) : Type 0 where
    pub users_match : length g.users_weights ≡ length g.users_bias
    pub items_match : length g.items_weights ≡ length g.items_bias
    pub users_few : length g.users_bias < 2 ^ 32
    pub items_few : length g.items_bias < 2 ^ 32
    pub users_pairs : All IsPair g.users_bias
    pub items_pairs : All IsPair g.items_bias
    pub users_distinct : Distinct [] g.users_bias
    pub items_distinct : Distinct [] g.items_bias
    pub users_rows : All IsRow g.users_weights
    pub items_rows : All IsRow g.items_weights

  serialize-eq-body :
      (g : MfSparseGradient F) (rest : List ℕ)
      → IsWellFormed g
      → serialize fl g rest ≡ ok (body fl g rest)
  unfolding serialize
  serialize-eq-body g rest w =
      rw
        (
          w.users_match,
          ==_refl (length g.users_bias),
          w.items_match,
          ==_refl (length g.items_bias),
          all_full_of_rows g.users_weights w.users_rows,
          all_full_of_rows g.items_weights w.items_rows,
        )
        refl

  load_rows-store_rows :
      (exact : IsExact fl) (n : ℕ) (rows : List (Row F)) (rest : List ℕ)
      → length rows ≡ n
      → All IsRow rows
      → load_list (load_row fl) n (store_list (store_row fl) rows rest) ≡ ok (rows, rest)
  load_rows-store_rows exact n rows rest e h = rw (← e) (
      load_list-store_list IsRow (store_row fl) (load_row fl) (load_row-store_row exact) rows rest
        h)

  load_serialized-body :
      (exact : IsExact fl) (g : MfSparseGradient F) (rest : List ℕ)
      → IsWellFormed g
      → load_serialized fl (construct fl) (body fl g rest) ≡ ok g
  unfolding load_serialized body construct
  load_serialized-body exact g rest w =
      let end = store_u32 end_magic rest in
      let item_rows = store_list (store_row fl) g.items_weights end in
      let user_rows = store_list (store_row fl) g.users_weights item_rows in
      let item_pairs = store_list (store_pair fl) g.items_bias user_rows in
      let user_pairs = store_list (store_pair fl) g.users_bias item_pairs in
      let counted = store_u32 (length g.items_bias) user_pairs in
      rw
        (
          load_u32-store_u32 magic_number (store_u32 (length g.users_bias) counted) (omega arith),
          load_u32-store_u32 (length g.users_bias) counted w.users_few,
          load_u32-store_u32 (length g.items_bias) user_pairs w.items_few,
          load_biases-store_pairs exact g.users_bias [] item_pairs w.users_pairs w.users_distinct,
          load_biases-store_pairs exact g.items_bias [] user_rows w.items_pairs w.items_distinct,
          load_rows-store_rows exact (length g.users_bias) g.users_weights item_rows w.users_match
              w.users_rows,
          load_rows-store_rows exact (length g.items_bias) g.items_weights end w.items_match
              w.items_rows,
          load_u32-store_u32 end_magic rest (omega arith),
        )
        refl

  length-store_row :
      (row : Row F) (rest : List ℕ) → IsRow row → length (store_row fl row rest) ≡ 44 + length rest
  unfolding store_row
  length-store_row (id, ws) rest (small, full) = omega (
    arith,
    length-store_u32 id (store_list (store_float fl) ws rest),
    length-store_list 4 (store_float fl) (length-store_float fl) ws rest,
  )

  length-store_rows :
      (rows : List (Row F)) (rest : List ℕ)
      → All IsRow rows
      → length (store_list (store_row fl) rows rest) ≡ length rows * 44 + length rest
  unfolding store_list
  length-store_rows [] rest h = omega arith
  length-store_rows (row ∷ rows) rest (h, hs) = omega (
    arith,
    length-store_row row (store_list (store_row fl) rows rest) h,
    length-store_rows rows rest hs,
  )

  length-body :
      (g : MfSparseGradient F) (rest : List ℕ)
      → IsWellFormed g
      → length (body fl g rest) ≡ serialized_size fl g + length rest
  unfolding body serialized_size
  length-body g rest w =
      let end = store_u32 end_magic rest in
      let item_rows = store_list (store_row fl) g.items_weights end in
      let user_rows = store_list (store_row fl) g.users_weights item_rows in
      let item_pairs = store_list (store_pair fl) g.items_bias user_rows in
      let user_pairs = store_list (store_pair fl) g.users_bias item_pairs in
      let counted = store_u32 (length g.items_bias) user_pairs in
      let both_counted = store_u32 (length g.users_bias) counted in
      omega (
        arith,
        length-store_u32 magic_number both_counted,
        length-store_u32 (length g.users_bias) counted,
        length-store_u32 (length g.items_bias) user_pairs,
        length-store_list 8 (store_pair fl) (length-store_pair fl) g.users_bias item_pairs,
        length-store_list 8 (store_pair fl) (length-store_pair fl) g.items_bias user_rows,
        length-store_rows g.users_weights item_rows w.users_rows,
        length-store_rows g.items_weights end w.items_rows,
        length-store_u32 end_magic rest,
      )

  -- A well-formed gradient is serialized, in as many bytes as its size says, and a new
  -- gradient that loads those bytes is the same.
  pub mf_sparse_round_trip :
      (exact : IsExact fl) (g : MfSparseGradient F) (rest : List ℕ)
      → IsWellFormed g
      → (bytes : List ℕ) × (serialize fl g rest ≡ ok bytes)
        × (length bytes ≡ serialized_size fl g + length rest)
        × (load_serialized fl (construct fl) bytes ≡ ok g)
  mf_sparse_round_trip exact g rest w = (
    body fl g rest,
    serialize-eq-body g rest w,
    length-body g rest w,
    load_serialized-body exact g rest w,
  )
