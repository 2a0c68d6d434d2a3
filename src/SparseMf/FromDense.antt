-- ===== src/SparseMf/FromDense.antt =====
-- `serializeFromDense` and `loadSerialized` of src/SparseMFModel.cpp, against the rows of the
-- dense model.
use cirrus.Prelude.{
  ℕ, zero, suc, ◌+◌, ◌-◌, ◌*◌, ◌%◌, ◌^◌, ◌≤◌, ◌<◌, ◌≡◌, refl, sym, ap, ◌∙◌, true, List, [], ◌∷◌,
  ◌++◌, arith, length, All, ltb, ◌==◌, get_or, has, number_key, if◌then◌else◌, some, Bool-cases,
  inl, inr,
}
use cirrus.Prelude.Result.{Result, ok}
use cirrus.Prelude.Table.{lookup, insert, lookup-insert}
use cirrus.Floats.{Floats, IsExact}
use cirrus.Bytes.{store_u32, store_float, load_float, store_list, load_list}
use cirrus.Bytes.Laws.{
  load_u32-store_u32, load_floats-store_floats, load_float-store_float, length-store_u32,
  length-store_float, length-store_list,
}
use cirrus.Gradient.MfSparse.{num_factors}
use cirrus.MfModel.{MfModel, get_user_weights, get_item_weights, default_bias}
use cirrus.MfModel.Access.{
  IsServed, get_user_weights-in, get_item_weights-in, get_user_bias-in, get_item_bias-in,
}
use cirrus.SparseMf.{
  SparseMf, max_items, dense_row, store_dense, store_users, store_items, serialize_from_dense,
  load_row, load_items, load_serialized,
}

-- The bytes of a row: an id, a bias and the weights.
abbrev pub row_size : ℕ
row_size = 48

module _ {F D : Type 0} (fl : Floats F D) (d : F) where
  -- `n` weights of row `id` from factor `k` on.
  pub row_of : List F → ℕ → ℕ → ℕ → List F
  row_of weights id k zero = []
  row_of weights id k (suc n) =
      get_or weights (id * num_factors + k) d ∷ row_of weights id (suc k) n

  pub length-row_of : (weights : List F) (id k n : ℕ) → length (row_of weights id k n) ≡ n
  unfolding row_of
  length-row_of weights id k zero = refl
  length-row_of weights id k (suc n) = ap suc (length-row_of weights id (suc k) n)

  -- The rows of `n` users from `i` on.
  pub users_of : MfModel F → ℕ → ℕ → List (ℕ × F × List F)
  users_of m i zero = []
  users_of m i (suc n) =
      (i, get_or m.user_bias i d, row_of m.user_weights i 0 num_factors) ∷ users_of m (suc i) n

  pub item_of : MfModel F → ℕ → F × List F
  item_of m id = (get_or m.item_bias id d, row_of m.item_weights id 0 num_factors)

  -- The table after the rows of the items have been stored in it.
  pub items_of : MfModel F → List ℕ → List (ℕ × (F × List F)) → List (ℕ × (F × List F))
  items_of m [] items = items
  items_of m (id ∷ ids) items = items_of m ids (insert id (item_of m id) items)

  -- Every item that is asked for has its dense row, however often it is named.
  pub lookup-items_of :
      (m : MfModel F) (ids : List ℕ) (items : List (ℕ × (F × List F))) (id : ℕ)
      → lookup id (items_of m ids items)
        ≡ (if has ids id then some (item_of m id) else lookup id items)
  unfolding items_of
  lookup-items_of m [] items id = refl
  lookup-items_of m (j ∷ ids) items id = elim (Bool-cases (j == id)) [
    | inl same ↦
        let e : j ≡ id = ground arith in
        lookup-items_of m ids (insert j (item_of m j) items) id
        ∙ ground (arith, same, e, lookup-insert j id (item_of m j) items)
    | inr other ↦
        lookup-items_of m ids (insert j (item_of m j) items) id
        ∙ ground (arith, other, lookup-insert j id (item_of m j) items)
  ]

  dense_row-eq-row_of :
      (weight : ℕ → Result F) (weights : List F) (id k n : ℕ)
      → ((j : ℕ) → j < num_factors → weight j ≡ ok (get_or weights (id * num_factors + j) d))
      → k + n ≤ num_factors
      → dense_row fl weight k n ≡ ok (row_of weights id k n)
  unfolding dense_row row_of
  dense_row-eq-row_of weight weights id k zero is h = refl
  dense_row-eq-row_of weight weights id k (suc n) is h =
      rw (is k (omega arith), dense_row-eq-row_of weight weights id (suc k) n is (omega arith)) refl

  module _ (exact : IsExact fl) (m : MfModel F) (served : IsServed m) where
    load_row-store_dense :
        (id : ℕ) (bias : F) (weights : List F) (rest : List ℕ)
        → id < 2 ^ 32
        → length weights ≡ num_factors
        → load_row fl (store_dense fl id bias weights rest) ≡ ok ((id, bias, weights), rest)
    unfolding load_row store_dense
    load_row-store_dense id bias weights rest small full =
        let floats = store_list (store_float fl) in
        let loaded : load_list (load_float fl) num_factors (floats weights rest)
            ≡ ok (weights, rest) =
          ap (λ n. load_list (load_float fl) n (floats weights rest)) (sym full)
          ∙ load_floats-store_floats fl exact weights rest in
        rw
          (
            load_u32-store_u32 id (store_float fl bias (floats weights rest)) small,
            load_float-store_float fl exact bias (floats weights rest),
            loaded,
          )
          refl

    length-store_dense :
        (id : ℕ) (bias : F) (weights : List F) (rest : List ℕ)
        → length weights ≡ num_factors
        → length (store_dense fl id bias weights rest) ≡ row_size + length rest
    unfolding store_dense
    length-store_dense id bias weights rest full =
        let floats = store_list (store_float fl) weights rest in
        omega (
          arith,
          length-store_u32 id (store_float fl bias floats),
          length-store_float fl bias floats,
          length-store_list 4 (store_float fl) (length-store_float fl) weights rest,
        )

    store_users-load :
        (i n : ℕ) (rest : List ℕ)
        → i + n ≤ m.users
        → (bytes : List ℕ) × (store_users fl m i n (ok rest) ≡ ok bytes)
          × (load_list (load_row fl) n bytes ≡ ok (users_of m i n, rest))
          × (length bytes ≡ n * row_size + length rest)
    unfolding store_users users_of load_list
    store_users-load i zero rest h = (rest, refl, refl, omega arith)
    store_users-load i (suc n) rest h =
        let (bytes, stored, loaded, size) = store_users-load (suc i) n rest (omega arith) in
        let row = row_of m.user_weights i 0 num_factors in
        let few = served.users_few in
        (
          store_dense fl i (get_or m.user_bias i d) row bytes,
          rw
              (
                get_user_bias-in fl d m served i (omega arith),
                dense_row-eq-row_of (get_user_weights fl m i) m.user_weights i 0 num_factors
                    (λ k h'. get_user_weights-in fl d m served i k (omega arith) h') (omega arith),
                stored,
              )
              refl,
          rw
              (
                load_row-store_dense i (get_or m.user_bias i d) row bytes (omega arith)
                    (length-row_of m.user_weights i 0 num_factors),
                loaded,
              )
              refl,
          omega (
            arith,
            size,
            length-store_dense i (get_or m.user_bias i d) row bytes
                (length-row_of m.user_weights i 0 num_factors),
          ),
        )

    abbrev pub IsKnown : ℕ → Type 0
    IsKnown id = (id < m.items) × (id < max_items)

    store_items-load :
        (ids tail rest : List ℕ)
        → All IsKnown ids
        → (bytes : List ℕ) × (store_items fl m (length ids) (store_list store_u32 ids tail) rest
            ≡ ok bytes)
          × ((items : List (ℕ × (F × List F)))
              → load_items fl (length ids) items bytes ≡ ok (items_of m ids items))
          × (length bytes ≡ length ids * row_size + length rest)
    unfolding store_items items_of load_items store_list item_of
    store_items-load [] tail rest h = (rest, refl, (λ items. refl), omega arith)
    store_items-load (id ∷ ids) tail rest ((h, small), hs) =
        let (bytes, stored, loaded, size) = store_items-load ids tail rest hs in
        let row = row_of m.item_weights id 0 num_factors in
        let inside : ltb id max_items ≡ true = ground arith in
        (
          store_dense fl id (get_or m.item_bias id d) row bytes,
          rw
              (
                load_u32-store_u32 id (store_list store_u32 ids tail) (omega arith),
                get_item_bias-in fl d m served id h,
                dense_row-eq-row_of (get_item_weights fl m id) m.item_weights id 0 num_factors
                    (λ k h'. get_item_weights-in fl d m served id k h h') (omega arith),
                stored,
              )
              refl,
          (λ items.
              rw
                (
                  load_row-store_dense id (get_or m.item_bias id d) row bytes (omega arith)
                      (length-row_of m.item_weights id 0 num_factors),
                  inside,
                  loaded (insert id (item_of m id) items),
                )
                refl),
          omega (
            arith,
            size,
            length-store_dense id (get_or m.item_bias id d) row bytes
                (length-row_of m.item_weights id 0 num_factors),
          ),
        )

    from_dense-parts :
        (base minibatch : ℕ) (ids tail rest bytes bytes' : List ℕ) (s : SparseMf F)
        → base + minibatch < 2 ^ 32
        → store_items fl m (length ids) (store_list store_u32 ids tail) rest ≡ ok bytes
        → store_users fl m base minibatch (ok bytes) ≡ ok bytes'
        → load_list (load_row fl) minibatch bytes' ≡ ok (users_of m base minibatch, bytes)
        → load_items fl (length ids) s.items bytes ≡ ok (items_of m ids s.items)
        → (serialize_from_dense fl m base minibatch
              (length ids)
              (store_list store_u32 ids tail)
              rest
            ≡ ok bytes')
          × (load_serialized fl minibatch (length ids) s bytes'
              ≡ ok (record {
                users = s.users ++ users_of m base minibatch;
                items = items_of m ids s.items;
                factors = num_factors;
                global_bias = default_bias fl;
              }))
    unfolding serialize_from_dense load_serialized
    from_dense-parts base minibatch ids tail rest bytes bytes' s small a b c e =
        let count : (base + minibatch) % 2 ^ 32 - base ≡ minibatch = omega arith in
        (rw (count, a, b) refl, rw (c, e) refl)

    -- For users and items of the model, the server's bytes exist, 48 for each row, and a
    -- worker that loads them has the rows of those users, and the rows of those items in
    -- its table.
    pub load_serialized-from_dense :
        (base minibatch : ℕ) (ids tail rest : List ℕ) (s : SparseMf F)
        → base + minibatch ≤ m.users
        → All IsKnown ids
        → (bytes : List ℕ) × (serialize_from_dense fl m base minibatch
              (length ids)
              (store_list store_u32 ids tail)
              rest
            ≡ ok bytes)
          × (load_serialized fl minibatch (length ids) s bytes
              ≡ ok (record {
                users = s.users ++ users_of m base minibatch;
                items = items_of m ids s.items;
                factors = num_factors;
                global_bias = default_bias fl;
              }))
          × (length bytes ≡ (minibatch + length ids) * row_size + length rest)
    load_serialized-from_dense base minibatch ids tail rest s known items =
        let (bytes, stored, loaded, size) = store_items-load ids tail rest items in
        let (bytes', stored', loaded', size') = store_users-load base minibatch bytes known in
        let few = served.users_few in
        let (a, b) =
          from_dense-parts base minibatch ids tail rest bytes bytes' s (omega arith) stored stored'
            loaded' (loaded s.items) in
        (bytes', a, b, omega (arith, size, size'))
