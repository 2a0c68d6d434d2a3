-- ===== src/SparseLr/Minibatch.antt =====
-- `minibatch_grad_sparse` of src/SparseLRModel.cpp, with the vectors that the model keeps between calls.
-- The code writes the memory that `weights_sparse_` has reserved; a cell that is not written is `none`.
pub mod Loops
pub mod Collect
pub mod Zeros
mod Tests
use cirrus.Prelude.{
  ℕ, zero, suc, ◌+◌, ◌*◌, ◌^◌, Bool, true, false, not, ◌&&◌, ◌||◌, Option, none, some, List, [],
  ◌∷◌, length, replicate, set, ltb, ◌==◌, if◌then◌else◌,
}
use cirrus.Prelude.Result.{
  Result, ok, err, undefined, runtime_error, assert_failed, guard, ◌>>=◌, ◌>>◌,
}
use cirrus.Floats.{Floats}
use cirrus.Bytes.{sign_extend}
use cirrus.Vector.{at, update}
use cirrus.MlUtils.{s_1}
use cirrus.Configuration.{Configuration}
use cirrus.Configuration.Getters.{get_minibatch_size, get_epsilon}

pub record Cache (F : Type 0) : Type 0 where
  pub weights_sparse : List (Option F)
  pub part2 : List F
  pub part3 : List F

-- `1 << bits` as a size: 2 ^ 31 is no `int`, and the size that it becomes is thrown.
pub shift_one : ℕ → Result ℕ
shift_one bits =
    if ltb bits 31 then ok (2 ^ bits) else if bits == 31 then err runtime_error else err undefined

pub written {ℓ} : {A : Type ℓ} → Option A → Result A
written none = err undefined
written (some x) = ok x

-- What `unique_indices` holds after the second loop: the index of each feature, in order.
module _ {F : Type 0} where
  abbrev pub row_indices : List (ℕ × F) → List ℕ → List ℕ
  row_indices [] ids = ids
  row_indices ((index, value) ∷ row) ids = index ∷ row_indices row ids

  abbrev pub unique_indices : List (List (ℕ × F)) → List ℕ
  unique_indices [] = []
  unique_indices (row ∷ rows) = row_indices row (unique_indices rows)

module _ {F D : Type 0} (fl : Floats F D) where
  abbrev pub zero_float : F
  zero_float = fl.narrow fl.nought

  abbrev pub is_zero : F → Bool
  is_zero x = fl.same (fl.widen x) fl.nought

  -- `reserve` keeps no element, since the vector has none.
  pub reserve : ℕ → List (Option F) → List (Option F)
  reserve n cells = if ltb (length cells) n then replicate n none else cells

  pub store_weights : List (ℕ × F) → List (Option F) → Result (List (Option F))
  store_weights [] cells = ok cells
  store_weights ((index, value) ∷ pairs) cells = do
    cells' ← update cells index (λ _. some value)
    store_weights pairs cells'

  -- The two arrays that are read side by side are a list of pairs.
  pub load_serialized_sparse : Configuration D → List (ℕ × F) → Cache F → Result (Cache F)
  load_serialized_sparse config pairs cache = do
    guard (ltb 0 (length pairs) && ltb (length pairs) 10_000_000) assert_failed
    n ← shift_one config.model_bits
    cells ← store_weights pairs (reserve n cache.weights_sparse)
    ok (record cache { weights_sparse = cells })

  -- An empty vector gets its size.
  pub preallocated : Result ℕ → List F → Result (List F)
  preallocated size [] = do n ← size; ok (replicate n zero_float)
  preallocated size (x ∷ xs) = ok (x ∷ xs)

  pub ensure_preallocated_vectors : Configuration D → Cache F → Result (Cache F)
  ensure_preallocated_vectors config cache = do
    part3 ← preallocated (shift_one config.model_bits) cache.part3
    part2 ← preallocated (get_minibatch_size config) cache.part2
    ok (record cache { part2 = part2; part3 = part3 })

  pub sparse_weight : List (Option F) → ℕ → Result F
  sparse_weight cells index = do cell ← at cells (sign_extend index); written cell

  pub dot : List (Option F) → List (ℕ × F) → D → Result D
  dot cells [] part1 = ok part1
  dot cells ((index, value) ∷ row) part1 = do
    weight ← sparse_weight cells index
    dot cells row (fl.add part1 (fl.widen (fl.mul_float value weight)))

  -- The first loop, from sample `i` on.
  pub errors_loop : List (Option F) → List F → ℕ → List (List (ℕ × F)) → List F → Result (List F)
  errors_loop cells labels i [] part2 = ok part2
  errors_loop cells labels i (row ∷ rows) part2 = do
    part1 ← dot cells row fl.nought
    sigmoid ← s_1 fl part1
    label ← at labels i
    part2' ← update part2 i (λ _. fl.narrow (fl.sub (fl.widen label) sigmoid))
    errors_loop cells labels (suc i) rows part2'

  -- The second loop.
  pub add_row : F → List (ℕ × F) → List F → Result (List F)
  add_row error [] part3 = ok part3
  add_row error ((index, value) ∷ row) part3 = do
    part3' ← update part3 (sign_extend index) (λ p. fl.add_float p (fl.mul_float value error))
    add_row error row part3'

  pub add_rows : List F → ℕ → List (List (ℕ × F)) → List F → Result (List F)
  add_rows part2 i [] part3 = ok part3
  add_rows part2 i (row ∷ rows) part3 = do
    error ← at part2 i
    part3' ← add_row error row part3
    add_rows part2 (suc i) rows part3'

  pub final_grad : D → F → F → D
  final_grad epsilon value weight =
      fl.add (fl.widen value)
        (fl.mul (fl.widen (fl.mul_float weight (fl.narrow (fl.decimal 2 1)))) epsilon)

  pub is_sent : Configuration D → D → Bool
  is_sent config grad = not config.use_grad_threshold || fl.less config.grad_threshold (fl.abs grad)

  -- The third loop: it takes the sums out of `part3`, and leaves zeros.
  pub collect : Configuration D → List (Option F) → List ℕ → List F → Result (List (ℕ × F) × List F)
  collect config cells [] part3 = ok ([], part3)
  collect config cells (index ∷ ids) part3 = do
    value ← at part3 (sign_extend index)
    let part3' = if is_zero value then part3 else set part3 (sign_extend index) zero_float
    let rest = collect config cells ids part3'
    if is_zero value then rest else do
      weight ← sparse_weight cells index
      epsilon ← get_epsilon fl config
      let grad = final_grad epsilon value weight
      (pairs, part3'') ← rest
      ok ((if is_sent config grad then (index, fl.narrow grad) ∷ pairs else pairs), part3'')

  pub minibatch_grad_sparse :
      Configuration D → List (List (ℕ × F)) → List F → Cache F → Result (List (ℕ × F) × Cache F)
  minibatch_grad_sparse config rows labels cache = do
    cache' ← ensure_preallocated_vectors config cache
    part2 ← errors_loop cache'.weights_sparse labels 0 rows cache'.part2
    part3 ← add_rows part2 0 rows cache'.part3
    (pairs, part3') ← collect config cache'.weights_sparse (unique_indices rows) part3
    ok (pairs, record cache' { part2 = part2; part3 = part3' })
