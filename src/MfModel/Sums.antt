-- ===== src/MfModel/Sums.antt =====
-- The loops of `MFModel::sgd_update` (src/MFModel.cpp), against the sums of the changes of each
-- id.
use cirrus.Prelude.{
  ℕ, suc, ◌+◌, ◌*◌, ◌^◌, ◌-◌, ◌≤◌, ◌<◌, ◌≡◌, refl, ap, ◌∙◌, true, false, List, [], ◌∷◌, arith,
  length, All, ◌==◌, if◌then◌else◌, set, get_or, get_or-set, length-set, Bool-cases, inl, inr,
}
use cirrus.Prelude.Result.{ok}
use cirrus.Floats.{Floats}
use cirrus.Bytes.{is_negative}
use cirrus.Vector.{update-in, update_checked-in}
use cirrus.Gradient.MfSparse.{Row, num_factors}
use cirrus.MfModel.{add_biases, add_row, add_rows, weight_index}

abbrev pub IsBelow : {A : Type 0} → ℕ → ℕ × A → Type 0
IsBelow n p = p.0 < n

module _ {F D : Type 0} (fl : Floats F D) where
  -- A bias, after all the changes of its id.
  pub sum_biases : List (ℕ × F) → ℕ → F → F
  sum_biases [] id b = b
  sum_biases ((j, change) ∷ g) id b = sum_biases g id (if j == id then fl.add_float b change else b)

  -- A weight for factor `k`, after all the changes of its id.
  pub sum_rows : F → List (Row F) → ℕ → ℕ → F → F
  sum_rows d [] id k w = w
  sum_rows d ((j, row) ∷ rows) id k w =
      sum_rows d rows id k (if j == id then fl.add_float w (get_or row k d) else w)

  abbrev pub IsFull : ℕ → Row F → Type 0
  IsFull n row = (row.0 < n) × (length row.1 ≡ num_factors)

  module _ (d : F) where
    get_or-set_change :
        (xs : List F) (i j : ℕ) (f : F → F)
        → i < length xs
        → get_or (set xs i (f (get_or xs i d))) j d
          ≡ (if i == j then f (get_or xs j d) else get_or xs j d)
    get_or-set_change xs i j f h = elim (Bool-cases (i == j)) [
      | inl same ↦
          let e : i ≡ j = ground arith in
          rw (get_or-set xs i j (f (get_or xs i d)) d h, same, e) refl
      | inr other ↦ rw (get_or-set xs i j (f (get_or xs i d)) d h, other) refl
    ]

    pub add_biases-sums :
        (n : ℕ) (g : List (ℕ × F)) (bias : List F)
        → length bias ≡ n
        → n ≤ 2 ^ 31
        → All (IsBelow n) g
        → (bias' : List F) × (add_biases fl g bias ≡ ok bias')
          × (length bias' ≡ n)
          × ((id : ℕ) → get_or bias' id d ≡ sum_biases g id (get_or bias id d))
    unfolding add_biases sum_biases
    add_biases-sums n [] bias e small h = (bias, refl, e, λ id. refl)
    add_biases-sums n ((j, change) ∷ g) bias e small (h, hs) =
        let f : F → F = λ b. fl.add_float b change in
        let next = set bias j (f (get_or bias j d)) in
        let positive : is_negative j ≡ false = ground arith in
        let inside : j < length bias = omega arith in
        let (bias', same, l, sums) = add_biases-sums n g next (length-set bias j _ ∙ e) small hs in
        (
          bias',
          rw (positive, update-in bias j f d inside) same,
          l,
          λ id. sums id ∙ ap (sum_biases g id) (get_or-set_change bias j id f inside),
        )

    -- A weight, after the changes of one row from factor `k` on.
    sum_row : ℕ → ℕ → List F → ℕ → ℕ → F → F
    sum_row id k [] u i w = w
    sum_row id k (change ∷ row) u i w =
        sum_row id (suc k) row u i (if id * 10 + k == u * 10 + i then fl.add_float w change else w)

    sum_row-other :
        (id k : ℕ) (row : List F) (u i : ℕ) (w : F)
        → ((j : ℕ) → k ≤ j → j < k + length row → (id * 10 + j == u * 10 + i) ≡ false)
        → sum_row id k row u i w ≡ w
    unfolding sum_row
    sum_row-other id k [] u i w h = refl
    sum_row-other id k (change ∷ row) u i w h =
        rw (h k (omega arith) (omega arith))
          (sum_row-other id (suc k) row u i w (λ j a b. h j (omega arith) (omega arith)))

    sum_row-here :
        (k : ℕ) (row : List F) (u i : ℕ) (w : F)
        → k ≤ i
        → i < k + length row
        → sum_row u k row u i w ≡ fl.add_float w (get_or row (i - k) d)
    unfolding sum_row
    sum_row-here k [] u i w a b = absurd (omega arith)
    sum_row-here k (change ∷ row) u i w a b = elim (Bool-cases (i == k)) [
      | inl same ↦
          let here : (u * 10 + k == u * 10 + i) ≡ true = ground arith in
          let first : i - k ≡ 0 = ground arith in
          rw (here, first)
            (sum_row-other u (suc k) row u i (fl.add_float w change) (λ j a' b'. ground arith))
      | inr other ↦
          let apart : (u * 10 + k == u * 10 + i) ≡ false = ground arith in
          let later : i - k ≡ suc (i - suc k) = ground arith in
          rw (apart, later) (sum_row-here (suc k) row u i w (ground arith) (ground arith))
    ]

    add_row-step :
        (n id k : ℕ) (change : F) (row ws : List F)
        → length ws ≡ n * 10
        → id < n
        → n ≤ 2 ^ 31
        → k < 10
        → add_row fl 10 id k (change ∷ row) ws
          ≡ add_row fl 10 id
              (suc k)
              row
              (set ws (id * 10 + k) (fl.add_float (get_or ws (id * 10 + k) d) change))
    unfolding add_row
    add_row-step n id k change row ws e h small fits =
        let exact_index : weight_index 10 id k ≡ id * 10 + k = omega arith in
        rw
          (
            exact_index,
            update_checked-in ws (id * 10 + k) (λ w. fl.add_float w change) d (omega arith),
          )
          refl

    add_row-sums :
        (n id k : ℕ) (row ws : List F)
        → length ws ≡ n * 10
        → id < n
        → n ≤ 2 ^ 31
        → k + length row ≤ 10
        → (ws' : List F) × (add_row fl 10 id k row ws ≡ ok ws')
          × (length ws' ≡ n * 10)
          × ((u i : ℕ)
              → get_or ws' (u * 10 + i) d ≡ sum_row id k row u i (get_or ws (u * 10 + i) d))
    unfolding add_row sum_row
    add_row-sums n id k [] ws e h small fits = (ws, refl, e, λ u i. refl)
    add_row-sums n id k (change ∷ row) ws e h small fits =
        let f : F → F = λ w. fl.add_float w change in
        let index = id * 10 + k in
        let next = set ws index (f (get_or ws index d)) in
        let inside : index < length ws = omega arith in
        let (ws', same, l, sums) =
          add_row-sums n id (suc k) row next (length-set ws index _ ∙ e) h small (omega arith) in
        (
          ws',
          add_row-step n id k change row ws e h small (omega arith) ∙ same,
          l,
          λ u i.
              sums u i
              ∙ ap (sum_row id (suc k) row u i) (get_or-set_change ws index (u * 10 + i) f inside),
        )

    -- A row of ten changes.
    sum_row-full :
        (id : ℕ) (row : List F) (u i : ℕ) (w : F)
        → length row ≡ 10
        → i < 10
        → sum_row id 0 row u i w ≡ (if id == u then fl.add_float w (get_or row i d) else w)
    sum_row-full id row u i w full h = elim (Bool-cases (id == u)) [
      | inl same ↦
          let e : id ≡ u = ground arith in
          rw (same, e)
            (sum_row-here 0 row u i w (omega arith) (omega arith)
              ∙ ap (λ j. fl.add_float w (get_or row j d)) (omega arith))
      | inr other ↦ rw other (sum_row-other id 0 row u i w (λ j a b. ground arith))
    ]

    pub add_rows-sums :
        (n : ℕ) (rows : List (Row F)) (ws : List F)
        → length ws ≡ n * 10
        → n ≤ 2 ^ 31
        → All (IsFull n) rows
        → (ws' : List F) × (add_rows fl 10 rows ws ≡ ok ws')
          × (length ws' ≡ n * 10)
          × ((u i : ℕ)
              → i < 10
              → get_or ws' (u * 10 + i) d ≡ sum_rows d rows u i (get_or ws (u * 10 + i) d))
    unfolding add_rows sum_rows
    add_rows-sums n [] ws e small h = (ws, refl, e, λ u i i<10. refl)
    add_rows-sums n ((id, row) ∷ rows) ws e small ((h, full), hs) =
        let positive : is_negative id ≡ false = ground arith in
        let test : (length row == num_factors) ≡ true = ground arith in
        let (next, same, l, sums) = add_row-sums n id 0 row ws e h small (omega arith) in
        let (ws', same', l', sums') = add_rows-sums n rows next l small hs in
        (
          ws',
          rw (test, positive, same) same',
          l',
          λ u i i<10.
              sums' u i i<10
              ∙ ap (sum_rows d rows u i)
                  (sums u i ∙ sum_row-full id row u i (get_or ws (u * 10 + i) d) full i<10),
        )
