-- ===== src/SparseMf/Minibatch/Rows.antt =====
-- The ratings of `minibatch_grad` (src/SparseMFModel.cpp): what they leave in the maps.
use cirrus.Prelude.{
  ℕ, zero, suc, ◌+◌, ◌%◌, ◌^◌, ◌<◌, ◌≤◌, ◌≡◌, ◌≢◌, refl, ◌∙◌, sym, ap, none, List, [], ◌∷◌, length,
  replicate, set, get_or, All, length-set, length-replicate, arith, ltb, true, number_key,
}
use cirrus.Prelude.Result.{ok}
use cirrus.Prelude.Table.{lookup, insert}
use cirrus.Floats.{Floats}
use cirrus.Bytes.{sign_extend}
use cirrus.Vector.{at, at-in, update-in}
use cirrus.Gradient.MfSparse.{num_factors}
use cirrus.Gradient.MfSparse.RoundTrip.{Distinct}
use cirrus.SparseMf.{SparseMf, max_items, item_or_empty, item_model, predict}
use cirrus.SparseMf.Minibatch.{
  or_else, zero_float, Training, change, bias_change, add_bias, set_user, set_item, user_loop,
  item_loop, rate_item,
}
use cirrus.SparseMf.Minibatch.Keys.{
  keys, add_key, keys-insert, add_key_idem, insert-All, get_or-All, insert-Distinct,
}
use cirrus.SparseMf.Minibatch.Room.{free, room-kept}
use cirrus.SparseMf.Minibatch.Steps.{
  IsWhole, IsKnown, Keeps, Keeps-trans, Keeps-refl, set_user-Keeps, set_item-Keeps,
  item_model-known, get_item_weight-known, get_user_weight-whole, predict-returns,
  user_loop-returns, no_user,
}

-- A row of ten sums, of an id that has the property.
abbrev pub IsSummed : {F : Type 0} → (ℕ → Type 0) → ℕ × List F → Type 0
IsSummed P row = P row.0 × (length row.1 ≡ 10)

lookup-summed :
    {F : Type 0} (P : ℕ → Type 0) (default : List F) (id : ℕ) (grads : List (ℕ × List F))
    → length default ≡ 10
    → All (IsSummed P) grads
    → length (or_else default (lookup id grads)) ≡ 10
unfolding lookup
lookup-summed P default id [] ten h = ten
lookup-summed P default id ((j, row) ∷ grads) ten (h, hs) =
    ground (arith, lookup-summed P default id grads ten hs)

module _ {F D : Type 0} (fl : Floats F D) (d : F) (P : ℕ → Type 0) where
  item_loop-returns :
      (rate error : F) (user item k n : ℕ) (m : SparseMf F) (grads : List (ℕ × List F))
      → IsWhole fl m
      → user < length m.users
      → IsKnown fl m item
      → P item
      → All (IsSummed P) grads
      → k + n ≤ 10
      → (m' : SparseMf F) × (grads' : List (ℕ × List F)) × (item_loop fl rate error user item k n m
            grads
          ≡ ok (m', grads'))
        × Keeps fl m m'
        × All (IsSummed P) grads'
        × ((ids : List ℕ) → keys grads ≡ add_key item ids → keys grads' ≡ add_key item ids)
        × (n ≢ 0 → keys grads' ≡ add_key item (keys grads))
  unfolding item_loop
  item_loop-returns rate error user item k zero m grads w inside h p ps small =
      (m, grads, refl, Keeps-refl fl w, ps, (λ ids e. e), λ some_left. absurd (some_left refl))
  item_loop-returns rate error user item k (suc n) m grads w inside h p ps small =
      let (u, e) = get_user_weight-whole fl d m user k w inside (omega arith) in
      let (i, e') = get_item_weight-known fl d m item k h (omega arith) in
      let delta = change fl rate error u i in
      let add : F → F = λ s. fl.add_float s delta in
      let row = item_or_empty fl (lookup item m.items) in
      let weights = set row.1 k (add (get_or row.1 k d)) in
      let row' : F × List F = (row.0, weights) in
      let l : length weights ≡ 10 = length-set row.1 k _ ∙ h.1 in
      let sums = or_else (replicate num_factors (zero_float fl)) (lookup item grads) in
      let ten : length sums ≡ 10 =
        lookup-summed P _ item grads (length-replicate 10 (zero_float fl)) ps in
      let sums' = set sums k (add (get_or sums k d)) in
      let kept = set_item-Keeps fl m item row' w l in
      let grads' = insert item sums' grads in
      let ps' : All (IsSummed P) grads' =
        insert-All (IsSummed P) item sums' grads (p, length-set sums k _ ∙ ten) ps in
      let more = kept.as_many in
      let in_array : ltb item max_items ≡ true = ground (arith, h.0) in
      let first = keys-insert item sums' grads in
      let (m', grads'', same, kept', ps'', again, rest) =
        item_loop-returns rate error user item (suc k) n (set_item fl item row' m) grads' kept.whole
          (omega arith) (kept.known item h) p ps' (omega arith) in
      (
        m',
        grads'',
        rw
            (
              e,
              e',
              item_model-known fl m item h,
              update-in row.1 k add d (omega (arith, h.1)),
              in_array,
              update-in sums k add d (omega arith),
            )
            same,
        Keeps-trans fl kept kept',
        ps'',
        (λ ids e''. again ids (first ∙ ap (add_key item) e'' ∙ add_key_idem item ids)),
        λ some_left. again (keys grads) first,
      )

  -- What the maps keep.
  pub record IsTrained (t : Training F) : Type 0 where
    pub whole : IsWhole fl t.model
    pub item_keys : keys t.items_bias ≡ keys t.item_grads
    pub summed : All (IsSummed P) t.item_grads
    pub items_named : All (λ p. P p.0) t.items_bias
    pub items_distinct : Distinct [] t.items_bias
    pub users_distinct : Distinct [] t.users_bias
    pub room : length (keys t.items_bias) + free max_items (keys t.items_bias) ≡ max_items

  pub nothing_before : (k : ℕ) → lookup {V = F} k [] ≡ none
  unfolding lookup
  nothing_before k = refl

  -- The result of a rating, from those of its calls.
  rate_item-parts :
      (rate : F) (id user index : ℕ) (rating : F) (sums : List F) (t : Training F) (pred : F)
      (row : ℕ × F × List F) (item_row : F × List F) (m₃ : SparseMf F) (sums' : List F)
      (m₄ : SparseMf F) (grads : List (ℕ × List F))
      → let error = fl.sub_float rating pred in
        let delta = bias_change fl rate error row.1 in
        let delta' = bias_change fl rate error item_row.0 in
        let m₁ = set_user fl user (row.0, fl.add_float row.1 delta, row.2) t.model in
        let m₂ = set_item fl index (fl.add_float item_row.0 delta', item_row.1) m₁ in
        sign_extend index ≡ index
        → index % 2 ^ 32 ≡ index
        → user % 2 ^ 32 ≡ user
        → predict fl t.model user index ≡ ok pred
        → at t.model.users user ≡ ok row
        → item_model fl m₁ index ≡ ok item_row
        → user_loop fl rate error user index 0 m₂.factors m₂ sums ≡ ok (m₃, sums')
        → item_loop fl rate error user index 0 m₃.factors m₃ t.item_grads ≡ ok (m₄, grads)
        → rate_item fl rate id user (index, rating) sums t
          ≡ ok (
            sums',
            record {
              model = m₄;
              users_bias = add_bias fl id delta t.users_bias;
              items_bias = add_bias fl index delta' t.items_bias;
              item_grads = grads;
            },
          )
  unfolding rate_item
  rate_item-parts rate id user index rating sums t pred row item_row m₃ sums' m₄ grads same small
        same_user e e' e'' run run' =
      rw (same, small, same_user, e, e', e'', run, run') refl

  pub rate_item-returns :
      (rate : F) (id user index : ℕ) (rating : F) (sums : List F) (t : Training F)
      → IsTrained t
      → user < length t.model.users
      → length t.model.users < 2 ^ 31
      → IsKnown fl t.model index
      → P index
      → length sums ≡ 10
      → (sums' : List F) × (t' : Training F) × (rate_item fl rate id user (index, rating) sums t
          ≡ ok (sums', t'))
        × IsTrained t'
        × Keeps fl t.model t'.model
        × (length sums' ≡ 10)
        × (keys t'.users_bias ≡ add_key id (keys t.users_bias))
  unfolding add_bias
  rate_item-returns rate id user index rating sums t h inside few known p ten =
      let m = t.model in
      let same_user : user % 2 ^ 32 ≡ user = omega arith in
      let same_item : sign_extend index ≡ index = ground (arith, known.0) in
      let small_item : index % 2 ^ 32 ≡ index = omega (arith, known.0) in
      let (pred, e) = predict-returns fl d m user index h.whole inside known in
      let error = fl.sub_float rating pred in
      let row = get_or m.users user (no_user fl d) in
      let full : length row.2 ≡ 10 =
        get_or-All (λ u. length u.2 ≡ 10) m.users user (no_user fl d) inside h.whole.rows in
      let delta = bias_change fl rate error row.1 in
      let row' : ℕ × F × List F = (row.0, fl.add_float row.1 delta, row.2) in
      let m₁ = set_user fl user row' m in
      let k₁ = set_user-Keeps fl m user row' h.whole full in
      let known₁ = k₁.known index known in
      let item_row = item_or_empty fl (lookup index m₁.items) in
      let delta' = bias_change fl rate error item_row.0 in
      let item_row' : F × List F = (fl.add_float item_row.0 delta', item_row.1) in
      let m₂ = set_item fl index item_row' m₁ in
      let k₂ = set_item-Keeps fl m₁ index item_row' k₁.whole known₁.1 in
      let k₁₂ = Keeps-trans fl k₁ k₂ in
      let known₂ = k₁₂.known index known in
      let users₂ = k₁₂.as_many in
      let ten₂ = k₂.whole.ten in
      let (m₃, sums', e₃, k₃, ten₃) =
        user_loop-returns fl d rate error user index 0 m₂.factors m₂ sums k₂.whole (omega arith)
          known₂ ten (omega arith) in
      let users₃ = k₃.as_many in
      let ten₄ = k₃.whole.ten in
      let (m₄, grads, e₄, k₄, ps, again, first) =
        item_loop-returns rate error user index 0 m₃.factors m₃ t.item_grads k₃.whole (omega arith)
          (k₃.known index known₂) p h.summed (omega arith) in
      let grads_keys : keys grads ≡ add_key index (keys t.item_grads) =
        first (λ none_left. absurd (omega arith)) in
      let user_value = fl.add_float (or_else (zero_float fl) (lookup id t.users_bias)) delta in
      let item_value = fl.add_float (or_else (zero_float fl) (lookup index t.items_bias)) delta' in
      (
        sums',
        record {
          model = m₄;
          users_bias = insert id user_value t.users_bias;
          items_bias = insert index item_value t.items_bias;
          item_grads = grads;
        },
        rate_item-parts rate id user index rating sums t pred row item_row m₃ sums' m₄ grads
            same_item small_item same_user e (at-in m.users user (no_user fl d) inside)
            (item_model-known fl m₁ index known₁) e₃ e₄,
        record {
          whole = k₄.whole;
          item_keys =
              keys-insert index item_value t.items_bias
              ∙ ap (add_key index) h.item_keys
              ∙ sym grads_keys;
          summed = ps;
          items_named = insert-All (λ q. P q.0) index item_value t.items_bias p h.items_named;
          items_distinct =
              insert-Distinct index item_value [] t.items_bias (nothing_before index)
                h.items_distinct;
          users_distinct =
              insert-Distinct id user_value [] t.users_bias (nothing_before id) h.users_distinct;
          room =
              rw (keys-insert index item_value t.items_bias)
                (room-kept max_items index (keys t.items_bias) known.0 ∙ h.room);
        },
        Keeps-trans fl k₁₂ (Keeps-trans fl k₃ k₄),
        ten₃,
        keys-insert id user_value t.users_bias,
      )
