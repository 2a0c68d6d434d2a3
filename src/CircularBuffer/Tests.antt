-- ===== src/CircularBuffer/Tests.antt =====
-- The buffer at small inputs.
use cirrus.Prelude.{ℕ, suc, ◌≡◌, refl, ◌++◌, ◌⊎◌, List, [], ◌∷◌, arith}
use cirrus.Prelude.Result.{ok, err, runtime_error}
use cirrus.CircularBuffer.{CircularBuffer, size, read_cell, pop, peek, add, Op, put, get, run}
use cirrus.CircularBuffer.Window.{IsValid, contents}
use cirrus.CircularBuffer.Refine.{
  contents-add, add_loses_all, contents-pop, run-eq-queue_run, queue_run,
}

-- 8, then 9, round the end.
abbrev wrapped : CircularBuffer ℕ
wrapped = record { buffer = 9 ∷ 7 ∷ 5 ∷ 8 ∷ []; capacity = 4; front = 3; tail = 1 }

abbrev script : List (Op ℕ)
script = put 1 ∷ get ∷ get ∷ put 2 ∷ get ∷ get ∷ get ∷ []

wrapped-IsValid : IsValid wrapped
wrapped-IsValid = omega arith

peek-wrapped : peek wrapped ≡ ok 8
unfolding peek size read_cell
peek-wrapped = refl

run-wrapped : run wrapped (put 1 ∷ get ∷ get ∷ []) ≡ ok (8 ∷ 9 ∷ [])
unfolding run pop add size read_cell
run-wrapped = refl

contents-add_example :
    (b : CircularBuffer ℕ) × (add 1 wrapped ≡ ok b)
    × IsValid b
    × (b.capacity ≡ 4)
    × (contents 0 b ≡ contents 0 wrapped ++ (1 ∷ []))
unfolding size
contents-add_example = contents-add 0 1 wrapped wrapped-IsValid (omega arith)

abbrev nearly_full : CircularBuffer ℕ
nearly_full = record { buffer = 9 ∷ 7 ∷ 5 ∷ 8 ∷ []; capacity = 4; front = 1; tail = 0 }

add_loses_all_example :
    (b : CircularBuffer ℕ) × (add 1 nearly_full ≡ ok b) × (size b ≡ 0) × (pop b ≡ err runtime_error)
unfolding size
add_loses_all_example = add_loses_all 1 nearly_full (omega arith) refl

contents-pop_example :
    ((size wrapped ≡ 0) × (contents 0 wrapped ≡ []) × (pop wrapped ≡ err runtime_error))
    ⊎ ((x : ℕ) × (b : CircularBuffer ℕ) × (pop wrapped ≡ ok (x, b))
        × IsValid b
        × (b.capacity ≡ 4)
        × (size wrapped ≡ suc (size b))
        × (contents 0 wrapped ≡ x ∷ contents 0 b))
contents-pop_example = contents-pop 0 wrapped wrapped-IsValid

run-eq-queue_run_example : run wrapped script ≡ queue_run (8 ∷ 9 ∷ []) script
unfolding size
run-eq-queue_run_example = run-eq-queue_run 0 script wrapped wrapped-IsValid (omega arith)
