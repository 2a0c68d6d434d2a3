-- ===== src/SparseLr/Minibatch/Loops.antt =====
-- The first two loops of `minibatch_grad_sparse` (src/SparseLRModel.cpp).
use cirrus.Prelude.{
  ℕ, suc, ◌+◌, ◌^◌, ◌≤◌, ◌<◌, ◌≡◌, refl, ◌∙◌, false, Option, List, [], ◌∷◌, length, length-set,
  get_or, get_or-set, set, has, All, arith, ◌==◌,
}
use cirrus.Prelude.Result.{ok}
use cirrus.Floats.{Floats}
use cirrus.Bytes.{is_negative}
use cirrus.Vector.{at-in, update-in}
use cirrus.MlUtils.{s_1}
use cirrus.SparseLr.Minibatch.{
  sparse_weight, dot, errors_loop, add_row, add_rows, row_indices, unique_indices,
}

module _ {F D : Type 0} (fl : Floats F D) (cells : List (Option F)) where
  -- An index that has a cell in a vector of `n` cells, and a weight.
  abbrev pub IsReady : ℕ → ℕ → Type 0
  IsReady n index =
      (index < 2 ^ 31) × (index < n) × ((w : F) × (sparse_weight fl cells index ≡ ok w))

  abbrev pub IsReadyRow : ℕ → List (ℕ × F) → Type 0
  IsReadyRow n row = All (λ p. IsReady n p.0) row

  dot-returns :
      (n : ℕ) (row : List (ℕ × F)) (part1 : D)
      → IsReadyRow n row
      → (x : D) × (dot fl cells row part1 ≡ ok x)
  unfolding dot
  dot-returns n [] part1 h = (part1, refl)
  dot-returns n ((index, value) ∷ row) part1 ((small, inside, (w, e)), hs) =
      let (x, same) = dot-returns n row (fl.add part1 (fl.widen (fl.mul_float value w))) hs in
      (x, rw e same)

  -- The sigmoid of the sample's product is not thrown.
  abbrev pub IsSquashed : List (ℕ × F) → Type 0
  IsSquashed row = (x : D) → dot fl cells row fl.nought ≡ ok x → (y : D) × (s_1 fl x ≡ ok y)

  module _ (d : F) where
    pub errors_loop-returns :
        (n i : ℕ) (labels : List F) (rows : List (List (ℕ × F))) (part2 : List F)
        → All (IsReadyRow n) rows
        → All IsSquashed rows
        → i + length rows ≤ length labels
        → i + length rows ≤ length part2
        → (part2' : List F) × (errors_loop fl cells labels i rows part2 ≡ ok part2')
          × (length part2' ≡ length part2)
    unfolding errors_loop
    errors_loop-returns n i labels [] part2 h squashed fits fits' = (part2, refl, refl)
    errors_loop-returns n i labels (row ∷ rows) part2 (h, hs) (squashed, rest) fits fits' =
        let (x, e) = dot-returns n row fl.nought h in
        let (y, finite) = squashed x e in
        let error : F = fl.narrow (fl.sub (fl.widen (get_or labels i d)) y) in
        let longer = length-set part2 i error in
        let (part2', same, l) =
          errors_loop-returns n (suc i) labels rows (set part2 i error) hs rest (omega arith)
            (omega arith) in
        (
          part2',
          rw
              (
                e,
                finite,
                at-in labels i d (omega arith),
                update-in part2 i (λ _. error) d (omega arith),
              )
              same,
          l ∙ longer,
        )

  module _ (d : F) where
    -- A cell that no pair of the row names is kept.
    add_row-keeps :
        (n : ℕ) (error : F) (row : List (ℕ × F)) (part3 : List F)
        → IsReadyRow n row
        → length part3 ≡ n
        → (part3' : List F) × (add_row fl error row part3 ≡ ok part3')
          × (length part3' ≡ n)
          × ((ids : List ℕ) (j : ℕ)
              → has (row_indices row ids) j ≡ false
              → (get_or part3' j d ≡ get_or part3 j d) × (has ids j ≡ false))
    unfolding add_row
    add_row-keeps n error [] part3 h e = (part3, refl, e, λ ids j out. (refl, out))
    add_row-keeps n error ((index, value) ∷ row) part3 ((small, inside, weight), hs) e =
        let f : F → F = λ p. fl.add_float p (fl.mul_float value error) in
        let positive : is_negative index ≡ false = ground arith in
        let in_range : index < length part3 = omega arith in
        let next = set part3 index (f (get_or part3 index d)) in
        let (part3', same, l, kept) =
          add_row-keeps n error row next hs (length-set part3 index _ ∙ e) in
        (
          part3',
          rw (positive, update-in part3 index f d in_range) same,
          l,
          λ ids j out.
              let out' : has (row_indices row ids) j ≡ false = ground arith in
              let apart : (index == j) ≡ false = ground arith in
              (
                (kept ids j out').0
                    ∙ get_or-set part3 index j (f (get_or part3 index d)) d in_range
                    ∙ rw apart refl,
                (kept ids j out').1,
              ),
        )

    pub add_rows-keeps :
        (n i : ℕ) (part2 : List F) (rows : List (List (ℕ × F))) (part3 : List F)
        → All (IsReadyRow n) rows
        → i + length rows ≤ length part2
        → length part3 ≡ n
        → (part3' : List F) × (add_rows fl part2 i rows part3 ≡ ok part3')
          × (length part3' ≡ n)
          × ((j : ℕ) → has (unique_indices rows) j ≡ false → get_or part3' j d ≡ get_or part3 j d)
    unfolding add_rows
    add_rows-keeps n i part2 [] part3 h fits e = (part3, refl, e, λ j out. refl)
    add_rows-keeps n i part2 (row ∷ rows) part3 (h, hs) fits e =
        let (next, same, l, kept) = add_row-keeps n (get_or part2 i d) row part3 h e in
        let (part3', same', l', kept') =
          add_rows-keeps n (suc i) part2 rows next hs (omega arith) l in
        (
          part3',
          rw (at-in part2 i d (omega arith), same) same',
          l',
          λ j out.
              kept' j (kept (unique_indices rows) j out).1 ∙ (kept (unique_indices rows) j out).0,
        )
