-- ===== src/SparseLr/Dense/Served.antt =====
-- The gradient of `minibatch_grad` (src/SparseLRModel.cpp) and the update that the server makes of it.
use cirrus.Prelude.{
  ℕ, suc, ◌+◌, ◌%◌, ◌^◌, ◌<◌, ◌≤◌, ◌≡◌, ◌≢◌, refl, subst, sym, All, has, true, false, List, [], ◌∷◌,
  length, ltb, leb, get_or, arith, ◌==◌, Bool-cases, inl, inr, number_key,
}
use cirrus.Prelude.Result.{ok}
use cirrus.Prelude.Table.{insert}
use cirrus.Floats.{Floats}
use cirrus.Bytes.{sign_extend, is_negative}
use cirrus.Vector.{at-in}
use cirrus.MlUtils.{s_1}
use cirrus.Configuration.{Configuration}
use cirrus.Configuration.Getters.{get_epsilon}
use cirrus.SparseLr.{SparseLr}
use cirrus.SparseLr.Dense.Names.{
  IsIndex, Names, NamesAll, index_extend, rows_avoid, rows_under, rows_both, firsts,
  gradient-Avoids,
}
use cirrus.SparseLr.Dense.{dot_product, errors, sum_row, sum_rows, regularize, minibatch_grad}
use cirrus.SparseLr.Minibatch.{unique_indices}
use cirrus.Optimizer.{Method, sgd_update}
use cirrus.Optimizer.Frame.{InRange, IsPaired, Touches, sgd_update-Touches}

module _ {F D : Type 0} (fl : Floats F D) where
  -- The sigmoid of the sample's product is not thrown.
  abbrev pub IsSquashed : List F → List (ℕ × F) → Type 0
  IsSquashed weights row =
      (x : D) → dot_product fl row weights fl.nought ≡ ok x → (y : D) × (s_1 fl x ≡ ok y)

module _ {F D : Type 0} (fl : Floats F D) (d : F) where
  dot_product-returns :
      (row : List (ℕ × F)) (weights : List F) (res : D)
      → Names (IsIndex (length weights)) row
      → (x : D) × (dot_product fl row weights res ≡ ok x)
  unfolding dot_product
  dot_product-returns [] weights res h = (res, refl)
  dot_product-returns ((index, value) ∷ row) weights res (h, hs) =
      let (x, e) =
        dot_product-returns row weights
          (fl.add res (fl.widen (fl.mul_float value (get_or weights index d)))) hs in
      let small : is_negative index ≡ false = ground arith in
      let inside : leb (length weights) index ≡ false = ground arith in
      let inside' : ltb index (length weights) ≡ true = ground arith in
      (x, rw (small, inside, inside', at-in weights index d h.1) e)

  -- Every index that `insert` leaves has the property.
  insert-Names :
      (P : ℕ → Type 0) (index : ℕ) (value : F) (sums : List (ℕ × F))
      → P index
      → Names P sums
      → Names P (insert index value sums)
  unfolding insert
  insert-Names P index value [] p ps = (p, tt)
  insert-Names P index value (entry ∷ sums) p ps = elim (Bool-cases (entry.0 == index)) [
    | inl same ↦ rw same (p, ps.1)
    | inr other ↦ rw other (ps.0, insert-Names P index value sums p ps.1)
  ]

  sum_row-Names :
      (n : ℕ) (P : ℕ → Type 0) (error : F) (row sums : List (ℕ × F))
      → Names (IsIndex n) row
      → Names P row
      → Names P sums
      → Names P (sum_row fl error row sums)
  unfolding sum_row
  sum_row-Names n P error [] sums h p ps = ps
  sum_row-Names n P error ((index, value) ∷ row) sums (h, hs) (p, p') ps =
      rw (index_extend n index h)
        (sum_row-Names n P error row _ hs p' (insert-Names P index _ sums p ps))

  errors-returns :
      (weights labels : List F) (i : ℕ) (rows : List (List (ℕ × F)))
      → NamesAll (IsIndex (length weights)) rows
      → All (IsSquashed fl weights) rows
      → i + length rows ≤ length labels
      → (part2 : List F) × (errors fl weights labels i rows ≡ ok part2)
        × (length part2 ≡ length rows)
  unfolding errors
  errors-returns weights labels i [] h squashed fits = ([], refl, refl)
  errors-returns weights labels i (row ∷ rows) (h, hs) (squashed, rest) fits =
      let (x, e) = dot_product-returns row weights fl.nought h in
      let (y, finite) = squashed x e in
      let (part2, same, l) = errors-returns weights labels (suc i) rows hs rest (omega arith) in
      (
        fl.narrow (fl.sub (fl.widen (get_or labels i d)) y) ∷ part2,
        rw (e, at-in labels i d (omega arith), finite, same) refl,
        omega arith,
      )

  sum_rows-returns :
      (n : ℕ) (P : ℕ → Type 0) (part2 : List F) (i : ℕ) (rows : List (List (ℕ × F)))
      (sums : List (ℕ × F))
      → NamesAll (IsIndex n) rows
      → i + length rows ≤ length part2
      → NamesAll P rows
      → Names P sums
      → (sums' : List (ℕ × F)) × (sum_rows fl part2 i rows sums ≡ ok sums') × Names P sums'
  unfolding sum_rows
  sum_rows-returns n P part2 i [] sums h fits p ps = (sums, refl, ps)
  sum_rows-returns n P part2 i (row ∷ rows) sums (h, hs) fits (p, p') ps =
      let error = get_or part2 i d in
      let (sums', e, q) =
        sum_rows-returns n P part2 (suc i) rows (sum_row fl error row sums) hs (omega arith) p'
          (sum_row-Names n P error row sums h p ps) in
      (sums', rw (at-in part2 i d (omega arith)) e, q)

  regularize-returns :
      (P : ℕ → Type 0) (config : Configuration D) (epsilon : D) (weights : List F)
      (sums : List (ℕ × F))
      → get_epsilon fl config ≡ ok epsilon
      → Names (IsIndex (length weights)) sums
      → Names P sums
      → (g : List (ℕ × F)) × (regularize fl config weights sums ≡ ok g)
        × InRange (length weights) g
        × Names P g
  unfolding regularize
  regularize-returns P config epsilon weights [] known h ps = ([], refl, tt, tt)
  regularize-returns P config epsilon weights ((index, value) ∷ sums) known (h, hs) (p, ps) =
      let (g, e, inside, q) = regularize-returns P config epsilon weights sums known hs ps in
      let twice = fl.widen (fl.mul_float (get_or weights index d) (fl.narrow (fl.decimal 2 1))) in
      let same : index % 2 ^ 32 ≡ index = omega arith in
      let fits : sign_extend (index % 2 ^ 32) < length weights = ground arith in
      (
        (index % 2 ^ 32, fl.narrow (fl.add (fl.widen value) (fl.mul twice epsilon))) ∷ g,
        rw (at-in weights index d h.1, known, e) refl,
        (fits, inside),
        (subst P (sym same) p, q),
      )

module _ {F D : Type 0} (fl : Floats F D) (d : F) where
  -- If no sample's sigmoid is thrown, epsilon is loaded, every index lies in the model and
  -- labels suffice, minibatch_grad returns a gradient that each method of the server applies
  -- without an error; the update keeps the sizes of the model, and any weight whose index is
  -- in no sample.
  pub minibatch_grad-sgd_update :
      (config : Configuration D) (epsilon : D) (method : Method D) (m : SparseLr F)
      (rows : List (List (ℕ × F))) (labels : List F) (j : ℕ)
      → All (IsSquashed fl m.weights) rows
      → get_epsilon fl config ≡ ok epsilon
      → IsPaired m
      → NamesAll (IsIndex (length m.weights)) rows
      → length rows ≤ length labels
      → (g : List (ℕ × F)) × (method' : Method D) × (m' : SparseLr F) × (minibatch_grad fl config
            false m rows labels
          ≡ ok g)
        × (sgd_update fl method g m ≡ ok (method', m'))
        × Touches d g m m'
        × (has (unique_indices rows) j ≡ false → get_or m'.weights j d ≡ get_or m.weights j d)
  unfolding minibatch_grad
  minibatch_grad-sgd_update config epsilon method m rows labels j squashed known paired h fits =
      let n = length m.weights in
      let H : Type 0 = has (unique_indices rows) j ≡ false in
      let P : ℕ → Type 0 = λ i. IsIndex n i × (H → i ≢ j) in
      let ps : NamesAll P rows =
        rows_both (IsIndex n) (λ i. H → i ≢ j) rows h
          (rows_under H (λ i. i ≢ j) rows (rows_avoid rows j)) in
      let (part2, e, l) = errors-returns fl d m.weights labels 0 rows h squashed (omega arith) in
      let (sums, e', q) = sum_rows-returns fl d n P part2 0 rows [] h (omega arith) ps tt in
      let (g, e'', inside, gs) =
        regularize-returns fl d P config epsilon m.weights sums known
          (firsts n (λ i. H → i ≢ j) sums q) q in
      let (method', m', run, t) = sgd_update-Touches fl d method g m paired inside in
      (
        g,
        method',
        m',
        rw (e, e', e'') refl,
        run,
        t,
        λ out. t.weights_kept j (gradient-Avoids n j H g gs out),
      )
