-- ===== src/CircularBuffer/Refine.antt =====
-- `add`, `pop` and `peek` of src/CircularBuffer.h, against those of an unbounded queue.
use mathlib.Core.Path.{subst₂}
use native.Mathlib.Nat.{mod-eq_of_lt, mod_self}
use native.Mathlib.Decide.{dec_lt}
use cirrus.Prelude.{
  ℕ, zero, suc, ◌+◌, ◌-◌, ◌%◌, ◌^◌, ◌<◌, ◌≡◌, ◌≢◌, ◌⊎◌, inl, inr, refl, sym, ap, ◌∙◌, List, [], ◌∷◌,
  ◌++◌, arith, length, set, get_or, length-set, replicate, length-replicate, ◌==◌, Bool-cases,
}
use cirrus.Prelude.Result.{Result, ok, err, runtime_error, ◌>>=◌, >>=-eq-ok, ok_inj, ok_ne_err}
use cirrus.CircularBuffer.{
  CircularBuffer, construct, size, read_cell, pop, peek, add, Op, put, get, run,
}
use cirrus.CircularBuffer.Window.{
  after, window-set, IsValid, size-eq-gap, contents, get_elem?-eq-get_or,
}

mod-eq-after : (cap i : ℕ) → i < cap → cap < 2 ^ 64 → (i + 1) % 2 ^ 64 % cap ≡ after cap i
mod-eq-after cap i h small =
    let exact : (i + 1) % 2 ^ 64 ≡ i + 1 = omega arith in
    rw exact (elim (dec_lt (i + 1) cap) [
      | yes p ↦ rw (mod-eq_of_lt p) (ground arith)
      | no p ↦ let last : i + 1 ≡ cap = omega arith in rw (last, mod_self) (ground arith)
    ])

module _ {T : Type 0} where
  -- What `add` leaves in the buffer.
  abbrev pub added : T → CircularBuffer T → CircularBuffer T
  added x b = record b { buffer = set b.buffer b.tail x; tail = after b.capacity b.tail }

  add-eq-added : (x : T) (b : CircularBuffer T) → IsValid b → add x b ≡ ok (added x b)
  unfolding add
  add-eq-added x b v = ground arith

  added-IsValid : (x : T) (b : CircularBuffer T) → IsValid b → IsValid (added x b)
  added-IsValid x b v = ground (arith, length-set b.buffer b.tail x)

  size-added :
      (x : T) (b : CircularBuffer T)
      → IsValid b
      → suc (size b) < b.capacity
      → size (added x b) ≡ suc (size b)
  size-added x b v room =
      ground (arith, size-eq-gap b v, size-eq-gap (added x b) (added-IsValid x b v))

  contents-added :
      (junk x : T) (b : CircularBuffer T)
      → IsValid b
      → suc (size b) < b.capacity
      → contents junk (added x b) ≡ contents junk b ++ (x ∷ [])
  contents-added junk x b v room = rw (size-added x b v room) (
      window-set b.buffer b.capacity junk x (size b) b.front b.tail (omega (arith, v.filled))
        v.front_in v.tail_in (sym (size-eq-gap b v)))

  -- While fewer than `capacity - 1` elements are held, `add` succeeds, appends its element to the
  -- contents, and keeps the buffer valid.
  pub contents-add :
      (junk x : T) (b : CircularBuffer T)
      → IsValid b
      → suc (size b) < b.capacity
      → (b' : CircularBuffer T) × (add x b ≡ ok b')
        × IsValid b'
        × (b'.capacity ≡ b.capacity)
        × (contents junk b' ≡ contents junk b ++ (x ∷ []))
  contents-add junk x b v room =
      (added x b, add-eq-added x b v, added-IsValid x b v, refl, contents-added junk x b v room)

  pop-empty : (b : CircularBuffer T) → size b ≡ 0 → pop b ≡ err runtime_error
  unfolding pop
  pop-empty b e = ground arith

  -- An `add` to a buffer that holds `capacity - 1` elements makes it look empty: its size is
  -- 0 and `pop` throws.
  pub add_loses_all :
      (x : T) (b : CircularBuffer T)
      → IsValid b
      → suc (size b) ≡ b.capacity
      → (b' : CircularBuffer T) × (add x b ≡ ok b') × (size b' ≡ 0) × (pop b' ≡ err runtime_error)
  add_loses_all x b v full =
      let empty : size (added x b) ≡ 0 =
        ground (arith, size-eq-gap b v, size-eq-gap (added x b) (added-IsValid x b v)) in
      (added x b, add-eq-added x b v, empty, pop-empty (added x b) empty)

  -- What `pop` leaves in the buffer.
  abbrev popped : CircularBuffer T → CircularBuffer T
  popped b = record b { front = after b.capacity b.front }

  popped-IsValid : (b : CircularBuffer T) → IsValid b → IsValid (popped b)
  popped-IsValid b v = ground arith

  read_cell-eq-get_or :
      (junk : T) (cells : List T) (i : ℕ)
      → i < length cells
      → read_cell cells i ≡ ok (get_or cells i junk)
  unfolding read_cell
  read_cell-eq-get_or junk cells i h = rw (get_elem?-eq-get_or cells i junk h, read_cell) refl

  pop-eq-popped :
      (junk : T) (b : CircularBuffer T)
      → IsValid b
      → size b ≢ 0
      → pop b ≡ ok (get_or b.buffer b.front junk, popped b)
  unfolding pop
  pop-eq-popped junk b v ne = ground (
    arith,
    read_cell-eq-get_or junk b.buffer b.front (omega (arith, v.filled)),
    mod-eq-after b.capacity b.front v.front_in v.small,
  )

  size-popped : (b : CircularBuffer T) (n : ℕ) → IsValid b → size b ≡ suc n → size (popped b) ≡ n
  size-popped b n v e = ground (arith, size-eq-gap b v, size-eq-gap (popped b) (popped-IsValid b v))

  -- `pop` returns the oldest element and leaves the others; on an empty buffer it throws.
  pub contents-pop :
      (junk : T) (b : CircularBuffer T)
      → IsValid b
      → ((size b ≡ 0) × (contents junk b ≡ []) × (pop b ≡ err runtime_error))
        ⊎ ((x : T) × (b' : CircularBuffer T) × (pop b ≡ ok (x, b'))
            × IsValid b'
            × (b'.capacity ≡ b.capacity)
            × (size b ≡ suc (size b'))
            × (contents junk b ≡ x ∷ contents junk b'))
  contents-pop junk b v = split (size b) refl
    where
      split :
          (n : ℕ)
          → size b ≡ n
          → ((size b ≡ 0) × (contents junk b ≡ []) × (pop b ≡ err runtime_error))
            ⊎ ((x : T) × (b' : CircularBuffer T) × (pop b ≡ ok (x, b'))
                × IsValid b'
                × (b'.capacity ≡ b.capacity)
                × (size b ≡ suc (size b'))
                × (contents junk b ≡ x ∷ contents junk b'))
      split zero e = inl (e, rw e refl, pop-empty b e)
      split (suc n) e = inr (
        get_or b.buffer b.front junk,
        popped b,
        pop-eq-popped junk b v (omega arith),
        popped-IsValid b v,
        refl,
        omega (arith, size-popped b n v e),
        rw (e, size-popped b n v e) refl,
      )

-- The queue that the buffer stands for, with the elements that a sequence of calls pops.
pub queue_run : {T : Type 0} → List T → List (Op T) → Result (List T)
queue_run q [] = ok []
queue_run q (put x ∷ ops) = queue_run (q ++ (x ∷ [])) ops
queue_run [] (get ∷ ops) = err runtime_error
queue_run (x ∷ q) (get ∷ ops) = do xs ← queue_run q ops; ok (x ∷ xs)

-- Every `add` finds fewer than `cap - 1` elements, when the calls start with `n`.
abbrev pub Fits : {T : Type 0} → ℕ → ℕ → List (Op T) → Type 0
Fits cap n [] = Unit
Fits cap n (put x ∷ ops) = (suc n < cap) × Fits cap (suc n) ops
Fits cap n (get ∷ ops) = Fits cap (n - 1) ops

module _ {T : Type 0} where
  -- No sequence of calls that never adds to `capacity - 1` elements tells a valid buffer from
  -- the unbounded queue of its contents, the exception of `pop` included.
  pub run-eq-queue_run :
      (junk : T) (ops : List (Op T)) (b : CircularBuffer T)
      → IsValid b
      → Fits b.capacity (size b) ops
      → run b ops ≡ queue_run (contents junk b) ops
  unfolding run queue_run
  run-eq-queue_run junk [] b v f = refl
  run-eq-queue_run junk (put x ∷ ops) b v f =
      let fits : Fits b.capacity (size (added x b)) ops = rw (size-added x b v f.0) f.1 in
      rw (add-eq-added x b v) (
        run-eq-queue_run junk ops (added x b) (added-IsValid x b v) fits
        ∙ ap (λ q. queue_run q ops) (contents-added junk x b v f.0))
  run-eq-queue_run junk (get ∷ ops) b v f = elim (contents-pop junk b v) [
    | inl (e, nothing, threw) ↦ rw (threw, nothing) refl
    | inr (x, b', popped_x, v', same_cap, one_less, held) ↦
        let fits : Fits b'.capacity (size b') ops =
          subst₂ (λ c n. Fits c n ops) (sym same_cap) (omega arith) f in
        rw (popped_x, held)
          (ap (λ r. r >>= λ xs. ok (x ∷ xs)) (run-eq-queue_run junk ops b' v' fits))
  ]

  -- A buffer of at least one cell is made valid and empty; for capacity 0 the constructor throws.
  pub construct-IsValid :
      (junk : T) (cap : ℕ)
      → cap < 2 ^ 64
      → ((cap ≡ 0) × (construct junk cap ≡ err runtime_error))
        ⊎ ((b : CircularBuffer T) × (construct junk cap ≡ ok b)
            × IsValid b
            × (b.capacity ≡ cap)
            × (contents junk b ≡ []))
  unfolding construct size
  construct-IsValid junk zero h = inl (refl, refl)
  construct-IsValid junk (suc c) h = inr (
    record { buffer = replicate (suc c) junk; capacity = suc c; front = 0; tail = 0 },
    ground arith,
    ground (arith, length-replicate (suc c) junk),
    refl,
    refl,
  )

module _ {T : Type 0} where
  -- `front` is what `pop` returns, its exception included.
  pub peek-pop :
      (b : CircularBuffer T) (x : T) (b' : CircularBuffer T) → pop b ≡ ok (x, b') → peek b ≡ ok x
  unfolding peek pop
  peek-pop b x b' e = elim (Bool-cases (size b == 0)) [
    | inl empty ↦ absurd (ok_ne_err (rw empty at e))
    | inr some_left ↦
        let (y, found, rest) = >>=-eq-ok (read_cell b.buffer b.front) _ (rw some_left at e) in
        let same : y ≡ x = ap (λ p. p.0) (ok_inj rest) in rw (some_left, found, same) refl
  ]
