-- ===== src/SparseLr/Minibatch/Collect.antt =====
-- The third loop of `minibatch_grad_sparse` (src/SparseLRModel.cpp).
use cirrus.Prelude.{
  ℕ, ◌^◌, ◌<◌, ◌≡◌, refl, sym, ap, ◌∙◌, Bool, true, false, Option, List, [], ◌∷◌, length,
  length-set, get_or, get_or-set, set, has, All, subst, arith, ◌==◌, if◌then◌else◌, Bool-cases, ◌⊎◌,
  inl, inr,
}
use cirrus.Prelude.Result.{ok}
use cirrus.Floats.{Floats}
use cirrus.Bytes.{is_negative}
use cirrus.Vector.{at-in}
use cirrus.Configuration.{Configuration}
use cirrus.Configuration.Getters.{get_epsilon}
use cirrus.SparseLr.Minibatch.{
  zero_float, is_zero, sparse_weight, row_indices, unique_indices, final_grad, is_sent, collect,
}
use cirrus.SparseLr.Minibatch.Loops.{IsReady, IsReadyRow}

module _ {F D : Type 0} (fl : Floats F D) (cells : List (Option F)) where
  module _ (d : F) where
    -- Each cell is zero, or its index is still to come.
    abbrev pub IsCovered : List ℕ → List F → Type 0
    IsCovered ids part3 = (j : ℕ) → (is_zero fl (get_or part3 j d) ≡ true) ⊎ (has ids j ≡ true)

    -- What the third loop leaves, and what it makes of the indices.
    abbrev pub IsCollected : ℕ → List ℕ → List (ℕ × F) → List F → Type 0
    IsCollected n ids pairs part3 =
        (length part3 ≡ n)
        × ((j : ℕ) → is_zero fl (get_or part3 j d) ≡ true)
        × All (λ p. has ids p.0 ≡ true) pairs

    module _ (zero_is_zero : is_zero fl (zero_float fl) ≡ true) where
      IsCovered-next :
          (n index : ℕ) (ids : List ℕ) (part3 : List F)
          → index < length part3
          → IsCovered (index ∷ ids) part3
          → IsCovered ids
              (if is_zero fl (get_or part3 index d) then part3 else set part3 index (zero_float fl))
      IsCovered-next n index ids part3 inside covered j =
          elim (Bool-cases (is_zero fl (get_or part3 index d))) [
            | inl is_zero_there ↦ rw is_zero_there (elim (covered j) [
              | inl z ↦ inl z
              | inr later ↦ elim (Bool-cases (index == j)) [
                | inl same ↦
                    let e : index ≡ j = ground arith in
                    inl (ap (λ k. is_zero fl (get_or part3 k d)) (sym e) ∙ is_zero_there)
                | inr other ↦ let rest : has ids j ≡ true = ground arith in inr rest
              ]
            ])
            | inr not_zero ↦ rw not_zero (elim (Bool-cases (index == j)) [
              | inl same ↦
                  inl (rw (get_or-set part3 index j (zero_float fl) d inside, same) zero_is_zero)
              | inr other ↦ elim (covered j) [
                | inl z ↦ inl (rw (get_or-set part3 index j (zero_float fl) d inside, other) z)
                | inr later ↦ let rest : has ids j ≡ true = ground arith in inr rest
              ]
            ])
          ]

      has_later :
          (index : ℕ) (ids : List ℕ) (pairs : List (ℕ × F))
          → All (λ p. has ids p.0 ≡ true) pairs
          → All (λ p. has (index ∷ ids) p.0 ≡ true) pairs
      has_later index ids [] h = tt
      has_later index ids (p ∷ pairs) (h, hs) = (ground arith, has_later index ids pairs hs)

      length_next :
          (n index : ℕ) (part3 : List F)
          → length part3 ≡ n
          → length
              (if is_zero fl (get_or part3 index d) then part3 else set part3 index (zero_float fl))
            ≡ n
      length_next n index part3 e = elim (Bool-cases (is_zero fl (get_or part3 index d))) [
        | inl z ↦ rw z e
        | inr nz ↦ rw nz (length-set part3 index (zero_float fl) ∙ e)
      ]

      named :
          (index : ℕ) (ids : List ℕ) (pairs pairs' : List (ℕ × F))
          → All (λ p. has ids p.0 ≡ true) pairs
          → (pairs' ≡ pairs) ⊎ ((x : F) × (pairs' ≡ (index, x) ∷ pairs))
          → All (λ p. has (index ∷ ids) p.0 ≡ true) pairs'
      named index ids pairs pairs' known (inl e) =
          subst (All (λ p. has (index ∷ ids) p.0 ≡ true)) (sym e) (has_later index ids pairs known)
      named index ids pairs pairs' known (inr (x, e)) =
          subst (All (λ p. has (index ∷ ids) p.0 ≡ true)) (sym e)
            (ground arith, has_later index ids pairs known)

      collect-step :
          (config : Configuration D) (index : ℕ) (ids : List ℕ) (part3 part3' : List F)
          (pairs : List (ℕ × F)) (w : F) (epsilon : D)
          → get_epsilon fl config ≡ ok epsilon
          → index < 2 ^ 31
          → index < length part3
          → sparse_weight fl cells index ≡ ok w
          → collect fl config cells ids
              (if is_zero fl (get_or part3 index d) then part3 else set part3 index (zero_float fl))
            ≡ ok (pairs, part3')
          → (pairs' : List (ℕ × F)) × (collect fl config cells (index ∷ ids) part3
              ≡ ok (pairs', part3'))
            × ((pairs' ≡ pairs) ⊎ ((x : F) × (pairs' ≡ (index, x) ∷ pairs)))
      unfolding collect
      collect-step config index ids part3 part3' pairs w epsilon loaded small inside e next =
          let v = get_or part3 index d in
          let positive : is_negative index ≡ false = ground arith in
          let reset : List F = set part3 index (zero_float fl) in
          let grad : D = final_grad fl epsilon v w in
          let Done : Bool → Type 0 =
            λ b. collect fl config cells ids (if b then part3 else reset) ≡ ok (pairs, part3') in
          elim (Bool-cases (is_zero fl v)) [
            | inl z ↦
                let next' : collect fl config cells ids part3 ≡ ok (pairs, part3') =
                  subst Done z next in
                (pairs, rw (positive, at-in part3 index d inside, z, next') refl, inl refl)
            | inr nz ↦
                let next' : collect fl config cells ids reset ≡ ok (pairs, part3') =
                  subst Done nz next in
                elim (Bool-cases (is_sent fl config grad)) [
                  | inl sent ↦ (
                    (index, fl.narrow grad) ∷ pairs,
                    rw (positive, at-in part3 index d inside, nz, e, loaded, next', sent) refl,
                    inr (fl.narrow grad, refl),
                  )
                  | inr held ↦ (
                    pairs,
                    rw (positive, at-in part3 index d inside, nz, e, loaded, next', held) refl,
                    inl refl,
                  )
                ]
          ]

      collect-nil :
          (config : Configuration D) (part3 : List F)
          → collect fl config cells [] part3 ≡ ok ([], part3)
      unfolding collect
      collect-nil config part3 = refl

      pub collect-collects :
          (n : ℕ) (config : Configuration D) (epsilon : D) (ids : List ℕ) (part3 : List F)
          → get_epsilon fl config ≡ ok epsilon
          → All (IsReady fl cells n) ids
          → length part3 ≡ n
          → IsCovered ids part3
          → (pairs : List (ℕ × F)) × (part3' : List F) × (collect fl config cells ids part3
              ≡ ok (pairs, part3'))
            × IsCollected n ids pairs part3'
      collect-collects n config epsilon [] part3 loaded h e covered =
          ([], part3, collect-nil config part3, (e, all_zero, tt))
        where
          all_zero : (j : ℕ) → is_zero fl (get_or part3 j d) ≡ true
          all_zero j = elim (covered j) [ inl z ↦ z | inr later ↦ absurd (ground arith) ]
      collect-collects n config epsilon (index ∷ ids) part3 loaded
            ((small, inside, (w, weight)), hs) e covered =
          let next =
            if is_zero fl (get_or part3 index d) then part3 else set part3 index (zero_float fl) in
          let in_range : index < length part3 = omega arith in
          let (pairs, part3', same, (l, zeros, known)) =
            collect-collects n config epsilon ids next loaded hs (length_next n index part3 e)
              (IsCovered-next n index ids part3 in_range covered) in
          let (pairs', same', made) =
            collect-step config index ids part3 part3' pairs w epsilon loaded small in_range weight
              same in
          (pairs', part3', same', (l, zeros, named index ids pairs pairs' known made))

      IsReady-row :
          (n : ℕ) (row : List (ℕ × F)) (ids : List ℕ)
          → IsReadyRow fl cells n row
          → All (IsReady fl cells n) ids
          → All (IsReady fl cells n) (row_indices row ids)
      IsReady-row n [] ids h rest = rest
      IsReady-row n ((index, value) ∷ row) ids (h, hs) rest = (h, IsReady-row n row ids hs rest)

      pub IsReady-rows :
          (n : ℕ) (rows : List (List (ℕ × F)))
          → All (IsReadyRow fl cells n) rows
          → All (IsReady fl cells n) (unique_indices rows)
      IsReady-rows n [] h = tt
      IsReady-rows n (row ∷ rows) (h, hs) =
          IsReady-row n row (unique_indices rows) h (IsReady-rows n rows hs)
