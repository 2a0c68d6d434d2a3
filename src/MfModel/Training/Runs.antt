-- ===== src/MfModel/Training/Runs.antt =====
-- The training and the loss of an `MFModel` (src/MFModel.cpp) over a whole dataset.
use cirrus.Prelude.{
  ℕ, suc, ◌+◌, ◌%◌, ◌^◌, ◌<◌, ◌≤◌, ◌≡◌, refl, ◌∙◌, sym, ap, subst, true, false, not, ◌&&◌, ◌||◌,
  List, [], ◌∷◌, length, set, get_or, All, length-set, arith, ltb, Bool-cases, ◌⊎◌, inl, inr,
}
use cirrus.Prelude.Result.{Result, ok, err, runtime_error, ◌>>=◌}
use cirrus.Floats.{Floats}
use cirrus.Bytes.{sign_extend}
use cirrus.Vector.{update-in}
use cirrus.MfModel.{MfModel}
use cirrus.MfModel.Access.{IsServed}
use cirrus.MfModel.Training.{new_bias, rate_item, rate_items, train, loss_row, loss_rows, calc_loss}
use cirrus.MfModel.Training.Returns.{
  Keeps, Keeps-trans, resized, IsAt, moved, user_loop-Keeps, item_loop-Keeps, predict-in,
}

-- Ratings of items below `n`.
abbrev pub IsRow : {F : Type 0} → ℕ → List (ℕ × F) → Type 0
IsRow n row = All (λ p. p.0 < n) row

abbrev pub ratings_in : {F : Type 0} → List (List (ℕ × F)) → ℕ
ratings_in [] = 0
ratings_in (row ∷ rows) = length row + ratings_in rows

module _ {F D : Type 0} (fl : Floats F D) (d : F) where
  rate_item-Keeps :
      (rate : D) (user index : ℕ) (rating : F) (m : MfModel F)
      → IsServed m
      → user < m.users
      → index < m.items
      → (m' : MfModel F) × (rate_item fl rate user (index, rating) m ≡ ok m') × Keeps m m'
  unfolding rate_item
  rate_item-Keeps rate user index rating m s user_in item_in =
      let few = s.users_few in
      let few' = s.items_few in
      let exact : sign_extend index ≡ index = ground arith in
      let user32 : user % 2 ^ 32 ≡ user = omega arith in
      let item32 : index % 2 ^ 32 ≡ index = omega arith in
      let inside : (ltb index m.items && ltb user m.users) ≡ true = ground arith in
      let at : IsAt user index m = record { served = s; user_in = user_in; item_in = item_in } in
      let (pred, e) = predict-in fl d user index m at in
      let error = fl.sub_float rating pred in
      let ub = set m.user_bias user (new_bias fl rate error (get_or m.user_bias user d)) in
      let ib = set m.item_bias index (new_bias fl rate error (get_or m.item_bias index d)) in
      let m₁ : MfModel F = record m { user_bias = ub; item_bias = ib } in
      let kept₁ : Keeps m m₁ =
        resized m m₁ s refl refl refl (length-set m.user_bias user _)
          (length-set m.item_bias index _) refl refl in
      let ten = s.ten_factors in
      let (m₂, run₂, kept₂) =
        user_loop-Keeps fl d user index rate error 0 m.factors m₁ (moved user index at kept₁)
          (omega arith) in
      let (m₃, run₃, kept₃) =
        item_loop-Keeps fl d user index rate error 0 m.factors m₂
          (moved user index (moved user index at kept₁) kept₂) (omega arith) in
      (
        m₃,
        rw
            (
              exact,
              user32,
              item32,
              e,
              inside,
              update-in m.user_bias user (new_bias fl rate error) d
                  (omega (arith, s.sized.user_bias_length)),
              update-in m.item_bias index (new_bias fl rate error) d
                  (omega (arith, s.sized.item_bias_length)),
              run₂,
            )
            run₃,
        Keeps-trans kept₁ (Keeps-trans kept₂ kept₃),
      )

  rate_items-Keeps :
      (rate : D) (user : ℕ) (row : List (ℕ × F)) (m : MfModel F)
      → IsServed m
      → user < m.users
      → IsRow m.items row
      → (m' : MfModel F) × (rate_items fl rate user row m ≡ ok m') × Keeps m m'
  unfolding rate_items
  rate_items-Keeps rate user [] m s user_in items_in =
      (m, refl, record { served = s; same_users = refl; same_items = refl })
  rate_items-Keeps rate user ((index, rating) ∷ row) m s user_in (h, hs) =
      let (m', run, kept) = rate_item-Keeps rate user index rating m s user_in h in
      let (m'', rest, kept') =
        rate_items-Keeps rate user row m' kept.served (omega (arith, kept.same_users))
          (subst (λ n. IsRow n row) (sym kept.same_items) hs) in
      (m'', rw run rest, Keeps-trans kept kept')

  -- Training within the users and items of a served model returns a served model of the same users
  -- and items.
  pub train-Keeps :
      (rate : D) (user : ℕ) (rows : List (List (ℕ × F))) (m : MfModel F)
      → IsServed m
      → user + length rows ≤ m.users
      → All (IsRow m.items) rows
      → (m' : MfModel F) × (train fl rate user rows m ≡ ok m') × Keeps m m'
  unfolding train
  train-Keeps rate user [] m s users_in items_in =
      (m, refl, record { served = s; same_users = refl; same_items = refl })
  train-Keeps rate user (row ∷ rows) m s users_in (h, hs) =
      let few = s.users_few in
      let user64 : user % 2 ^ 64 ≡ user = omega arith in
      let (m', run, kept) = rate_items-Keeps rate user row m s (omega arith) h in
      let (m'', rest, kept') =
        train-Keeps rate (suc user) rows m' kept.served (omega (arith, kept.same_users))
          (subst (λ n. All (IsRow n) rows) (sym kept.same_items) hs) in
      (
        m'',
        ap (λ u. rate_items fl rate u row m >>= λ next. train fl rate (suc user) rows next) user64
            ∙ rw run rest,
        Keeps-trans kept kept',
      )

  -- A sum of `n` more squares, or the exception.
  abbrev Sums : Result (D × ℕ) → ℕ → Type 0
  Sums run n = (run ≡ err runtime_error) ⊎ ((error : D) × (run ≡ ok (error, n)))

  loss_row-Sums :
      (m : MfModel F) (user : ℕ) (row : List (ℕ × F)) (error : D) (count : ℕ)
      → IsServed m
      → user < m.users
      → IsRow m.items row
      → count + length row < 2 ^ 64
      → Sums (loss_row fl m user row (error, count)) (count + length row)
  unfolding loss_row
  loss_row-Sums m user [] error count s user_in items_in small =
      inr (error, ap (λ n. ok (error, n)) (omega arith))
  loss_row-Sums m user ((index, rating) ∷ row) error count s user_in (h, hs) small =
      let few = s.users_few in
      let few' = s.items_few in
      let exact : sign_extend index ≡ index = ground arith in
      let user32 : user % 2 ^ 32 ≡ user = omega arith in
      let item32 : index % 2 ^ 32 ≡ index = omega arith in
      let next : (count + 1) % 2 ^ 64 ≡ suc count = omega arith in
      let (pred, found) =
        predict-in fl d user index m (record { served = s; user_in = user_in; item_in = h }) in
      let e = fl.sub_float rating pred in
      let error' = fl.add error (fl.widen (fl.narrow (fl.mul (fl.widen e) (fl.widen e)))) in
      let rest = loss_row-Sums m user row error' (suc count) s user_in hs (omega arith) in
      let same : suc count + length row ≡ count + suc (length row) = omega arith in
      elim (Bool-cases (not (fl.is_nan e || fl.is_nan_double error'))) [
        | inl number ↦
            rw (exact, user32, item32, found, number, next)
              (subst (Sums (loss_row fl m user row (error', suc count))) same rest)
        | inr not_number ↦ inl (rw (exact, user32, item32, found, not_number) refl)
      ]

  loss_rows-Sums :
      (m : MfModel F) (user : ℕ) (rows : List (List (ℕ × F))) (error : D) (count : ℕ)
      → IsServed m
      → user + length rows ≤ m.users
      → All (IsRow m.items) rows
      → count + ratings_in rows < 2 ^ 64
      → Sums (loss_rows fl m user rows (error, count)) (count + ratings_in rows)
  unfolding loss_rows
  loss_rows-Sums m user [] error count s users_in items_in small =
      inr (error, ap (λ n. ok (error, n)) (omega arith))
  loss_rows-Sums m user (row ∷ rows) error count s users_in (h, hs) small =
      elim (loss_row-Sums m user row error count s (omega arith) h (omega arith)) [
        | inl thrown ↦ inl (rw thrown refl)
        | inr (error', run) ↦
            let rest =
              loss_rows-Sums m (suc user) rows error' (count + length row) s (omega arith) hs
                (omega arith) in
            let same : count + length row + ratings_in rows
                ≡ count + (length row + ratings_in rows) =
              omega arith in
            rw run
              (subst (Sums (loss_rows fl m (suc user) rows (error', count + length row))) same rest)
      ]

  -- The loss of a served model is a number, with the number of ratings, or the exception for one that
  -- is none; no rating is skipped and none is read outside the model.
  pub calc_loss-cases :
      (m : MfModel F) (rows : List (List (ℕ × F))) (start_index : ℕ)
      → IsServed m
      → start_index + length rows ≤ m.users
      → All (IsRow m.items) rows
      → ratings_in rows < 2 ^ 64
      → (calc_loss fl m rows start_index ≡ err runtime_error)
        ⊎ ((error : D) × (calc_loss fl m rows start_index
              ≡ ok (error, fl.of_count (ratings_in rows)))
            × (fl.is_nan_double error ≡ false))
  unfolding calc_loss
  calc_loss-cases m rows start_index s users_in items_in small =
      elim (loss_rows-Sums m start_index rows fl.nought 0 s users_in items_in (omega arith)) [
        | inl thrown ↦ inl (rw thrown refl)
        | inr (error, run) ↦ elim (Bool-cases (fl.is_nan_double error)) [
          | inl nan ↦ inl (rw (run, nan) refl)
          | inr number ↦
              let all : 0 + ratings_in rows ≡ ratings_in rows = omega arith in
              inr (error, rw (run, number, all) refl, number)
        ]
      ]
