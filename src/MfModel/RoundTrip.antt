-- ===== src/MfModel/RoundTrip.antt =====
-- Serialization of `MFModel` (src/MFModel.cpp) and loading.
use cirrus.Prelude.{
  ℕ, zero, suc, ◌+◌, ◌*◌, ◌^◌, ◌<◌, ◌≡◌, refl, sym, ap, ◌∙◌, List, [], ◌∷◌, arith, length, take,
  drop, take-append-drop, length-take, length-drop,
}
use cirrus.Prelude.Result.{Result, ok}
use cirrus.Floats.{Floats, IsExact}
use cirrus.Bytes.{store_u64, store_float, load_float, store_list, load_list}
use cirrus.Bytes.Laws.{
  load_u64-store_u64, length-store_u64, length-store_list, length-store_float,
  load_floats-store_floats, store_list-append,
}
use cirrus.MfModel.{
  MfModel, counted, serialize_to, serialized_size, load_weights, load_serialized, default_bias,
}

-- The vectors have the lengths that the three numbers say, which are those of a `uint64_t`.
pub record IsSized {F : Type 0} (m : MfModel F) : Type 0 where
  pub user_bias_length : length m.user_bias ≡ m.users
  pub item_bias_length : length m.item_bias ≡ m.items
  pub user_weights_length : length m.user_weights ≡ m.users * m.factors
  pub item_weights_length : length m.item_weights ≡ m.items * m.factors
  pub users_small : m.users < 2 ^ 64
  pub items_small : m.items < 2 ^ 64
  pub factors_small : m.factors < 2 ^ 64

counted-few : {A : Type 0} (n : ℕ) (loop : Result A) → n < 2 ^ 32 → counted n loop ≡ loop
unfolding counted
counted-few n loop few = ground arith

module _ {F D : Type 0} (fl : Floats F D) where
  -- The size that is announced is the number of bytes that are written.
  pub length-serialize_to :
      (m : MfModel F) (rest : List ℕ)
      → length (serialize_to fl m rest) ≡ serialized_size fl m + length rest
  unfolding serialize_to serialized_size
  length-serialize_to m rest =
      let floats = store_list (store_float fl) in
      let size = length-store_list 4 (store_float fl) (length-store_float fl) in
      let b₄ = floats m.item_weights rest in
      let b₃ = floats m.user_weights b₄ in
      let b₂ = floats m.item_bias b₃ in
      let b₁ = floats m.user_bias b₂ in
      omega (
        arith,
        length-store_u64 m.users (store_u64 m.items (store_u64 m.factors b₁)),
        length-store_u64 m.items (store_u64 m.factors b₁),
        length-store_u64 m.factors b₁,
        size m.user_bias b₂,
        size m.item_bias b₃,
        size m.user_weights b₄,
        size m.item_weights rest,
      )

  module _ (exact : IsExact fl) where
    load_floats_of :
        (n : ℕ) (xs : List F) (rest : List ℕ)
        → length xs ≡ n
        → load_list (load_float fl) n (store_list (store_float fl) xs rest) ≡ ok (xs, rest)
    load_floats_of n xs rest e = rw (sym e) (load_floats-store_floats fl exact xs rest)

    load_weights-store_list :
        (n factors : ℕ) (xs : List F) (rest : List ℕ)
        → factors < 2 ^ 32
        → length xs ≡ n * factors
        → load_weights fl n factors (store_list (store_float fl) xs rest) ≡ ok (xs, rest)
    unfolding load_weights store_list
    load_weights-store_list zero factors [] rest few e = refl
    load_weights-store_list zero factors (x ∷ xs) rest few e = absurd (omega arith)
    load_weights-store_list (suc n) factors xs rest few e =
        let row = take factors xs in
        let rows = drop factors xs in
        let split = take-append-drop factors xs in
        let row_length : length row ≡ factors = omega (arith, length-take factors xs) in
        let rows_length : length rows ≡ n * factors = grind (arith, length-drop factors xs) in
        ap (λ ys. load_weights fl (suc n) factors (store_list (store_float fl) ys rest)) (sym split)
        ∙ rw
            (
              store_list-append (store_float fl) row rows rest,
              counted-few factors
                  (load_list (load_float fl) factors
                    (store_list (store_float fl) row (store_list (store_float fl) rows rest)))
                  few,
              load_floats_of factors row (store_list (store_float fl) rows rest) row_length,
              load_weights-store_list n factors rows rest few rows_length,
            )
            refl
        ∙ ap (λ ys. ok (ys, rest)) split

    -- A model of fewer than 2 ^ 32 users, items and factors, with vectors of the right
    -- lengths, is loaded as it was serialized, except that the global bias is the default.
    pub mf_model_round_trip :
        (m : MfModel F) (rest : List ℕ)
        → IsSized m
        → m.users < 2 ^ 32
        → m.items < 2 ^ 32
        → m.factors < 2 ^ 32
        → load_serialized fl (serialize_to fl m rest)
          ≡ ok (record m { global_bias = default_bias fl })
    unfolding load_serialized serialize_to
    mf_model_round_trip m rest sized users_few items_few factors_few =
        let floats = store_list (store_float fl) in
        let b₄ = floats m.item_weights rest in
        let b₃ = floats m.user_weights b₄ in
        let b₂ = floats m.item_bias b₃ in
        let b₁ = floats m.user_bias b₂ in
        rw
          (
            load_u64-store_u64 m.users (store_u64 m.items (store_u64 m.factors b₁))
                sized.users_small,
            load_u64-store_u64 m.items (store_u64 m.factors b₁) sized.items_small,
            load_u64-store_u64 m.factors b₁ sized.factors_small,
            counted-few m.users (load_list (load_float fl) m.users (floats m.user_bias b₂))
                users_few,
            load_floats_of m.users m.user_bias b₂ sized.user_bias_length,
            counted-few m.items (load_list (load_float fl) m.items (floats m.item_bias b₃))
                items_few,
            load_floats_of m.items m.item_bias b₃ sized.item_bias_length,
            counted-few m.users (load_weights fl m.users m.factors (floats m.user_weights b₄))
                users_few,
            load_weights-store_list m.users m.factors m.user_weights b₄ factors_few
                sized.user_weights_length,
            counted-few m.items (load_weights fl m.items m.factors (floats m.item_weights rest))
                items_few,
            load_weights-store_list m.items m.factors m.item_weights rest factors_few
                sized.item_weights_length,
          )
          refl
