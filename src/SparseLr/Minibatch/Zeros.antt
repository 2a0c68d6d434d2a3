-- ===== src/SparseLr/Minibatch/Zeros.antt =====
-- `minibatch_grad_sparse` (src/SparseLRModel.cpp) and the vector `part3` that it keeps.
use cirrus.Prelude.{
  ℕ, ◌≤◌, ◌≡◌, refl, ap, ◌∙◌, true, false, List, length, get_or, has, All, arith, Bool-cases, inl,
  inr,
}
use cirrus.Prelude.Result.{ok}
use cirrus.Floats.{Floats}
use cirrus.Configuration.{Configuration}
use cirrus.Configuration.Getters.{get_epsilon}
use cirrus.SparseLr.Minibatch.{
  Cache, zero_float, is_zero, errors_loop, add_rows, unique_indices, collect, minibatch_grad_sparse,
  ensure_preallocated_vectors,
}
use cirrus.SparseLr.Minibatch.Loops.{IsReadyRow, IsSquashed, errors_loop-returns, add_rows-keeps}
use cirrus.SparseLr.Minibatch.Collect.{IsCovered, IsCollected, collect-collects, IsReady-rows}

-- A call that can be made on the vectors `before`: every index of the samples has a cell in `part3`
-- and a weight, no sigmoid is thrown, there are enough labels and cells in `part2`, and `part3` is
-- all zeros.
pub record IsCallable {F D : Type 0} (fl : Floats F D) (d : F) (rows : List (List (ℕ × F)))
    (labels : List F) (before : Cache F) : Type 0 where
  pub ready : All (IsReadyRow fl before.weights_sparse (length before.part3)) rows
  pub squashed : All (IsSquashed fl before.weights_sparse) rows
  pub enough_labels : length rows ≤ length labels
  pub enough_cells : length rows ≤ length before.part2
  pub zeros : (j : ℕ) → is_zero fl (get_or before.part3 j d) ≡ true

module _ {F D : Type 0} (fl : Floats F D) (d : F) where
  minibatch-parts :
      (config : Configuration D) (rows : List (List (ℕ × F))) (labels part2 part3 part3' : List F)
      (pairs : List (ℕ × F)) (cache before : Cache F)
      → ensure_preallocated_vectors fl config cache ≡ ok before
      → errors_loop fl before.weights_sparse labels 0 rows before.part2 ≡ ok part2
      → add_rows fl part2 0 rows before.part3 ≡ ok part3
      → collect fl config before.weights_sparse (unique_indices rows) part3 ≡ ok (pairs, part3')
      → minibatch_grad_sparse fl config rows labels cache
        ≡ ok (pairs, record before { part2 = part2; part3 = part3' })
  unfolding minibatch_grad_sparse
  minibatch-parts config rows labels part2 part3 part3' pairs cache before e a b c =
      rw (e, a, b, c) refl

  -- If zero is zero, epsilon is loaded, the vectors get their sizes, no sample's sigmoid is
  -- thrown, indices are known and cells and labels suffice, a call on an all-zero `part3`
  -- returns a gradient whose indices are those of the samples, and leaves `part3` all zeros
  -- and of the same size.
  pub minibatch_grad_sparse-returns :
      (config : Configuration D) (epsilon : D) (rows : List (List (ℕ × F))) (labels : List F)
      (cache before : Cache F)
      → is_zero fl (zero_float fl) ≡ true
      → get_epsilon fl config ≡ ok epsilon
      → ensure_preallocated_vectors fl config cache ≡ ok before
      → IsCallable fl d rows labels before
      → (pairs : List (ℕ × F)) × (cache' : Cache F) × (minibatch_grad_sparse fl config rows labels
            cache
          ≡ ok (pairs, cache'))
        × IsCollected fl before.weights_sparse d
            (length before.part3)
            (unique_indices rows)
            pairs
            cache'.part3
  minibatch_grad_sparse-returns config epsilon rows labels cache before zero_is_zero loaded made
        call =
      let cells = before.weights_sparse in
      let n = length before.part3 in
      let (part2, errors, size) =
        errors_loop-returns fl cells d n 0 labels rows before.part2 call.ready call.squashed
          (omega (arith, call.enough_labels)) (omega (arith, call.enough_cells)) in
      let (part3, sums, size', kept) =
        add_rows-keeps fl cells d n 0 part2 rows before.part3 call.ready
          (omega (arith, enough part2 size)) refl in
      let (pairs, part3', pairs_made, collected) =
        collect-collects fl cells d zero_is_zero n config epsilon (unique_indices rows) part3 loaded
          (IsReady-rows fl cells d zero_is_zero n rows call.ready) size' (covered part3 kept) in
      (
        pairs,
        record before { part2 = part2; part3 = part3' },
        minibatch-parts config rows labels part2 part3 part3' pairs cache before made errors sums
            pairs_made,
        collected,
      )
    where
      enough : (part2 : List F) → length part2 ≡ length before.part2 → length rows ≤ length part2
      enough part2 size = let cells = call.enough_cells in omega arith

      covered :
          (part3 : List F)
          → ((j : ℕ)
              → has (unique_indices rows) j ≡ false
              → get_or part3 j d ≡ get_or before.part3 j d)
          → IsCovered fl before.weights_sparse d (unique_indices rows) part3
      covered part3 kept j = elim (Bool-cases (has (unique_indices rows) j)) [
        | inl named' ↦ inr named'
        | inr other ↦ inl (ap (is_zero fl) (kept j other) ∙ call.zeros j)
      ]
