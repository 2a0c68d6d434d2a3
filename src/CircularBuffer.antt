-- ===== src/CircularBuffer.antt =====
-- `CircularBuffer<T>` of src/CircularBuffer.h.
pub mod Window
pub mod Refine
mod Tests
use cirrus.Prelude.{
  ℕ, ◌+◌, ◌-◌, ◌%◌, ◌^◌, Option, none, some, List, [], ◌∷◌, ltb, ◌==◌, if◌then◌else◌, get_elem?,
  set, length, replicate,
}
use cirrus.Prelude.Result.{Result, ok, err, undefined, runtime_error, ◌>>=◌}

pub record CircularBuffer (T : Type 0) : Type 0 where
  pub buffer : List T
  pub capacity : ℕ
  pub front : ℕ
  pub tail : ℕ

-- A call of `add` or of `pop`.
pub data Op (T : Type 0) : Type 0 where
  put : T → Op T
  get : Op T

module _ {T : Type 0} where
  -- `junk` is what `new T[capacity]` leaves in the cells.
  pub construct : T → ℕ → Result (CircularBuffer T)
  construct junk capacity =
      if ltb capacity 1
      then err runtime_error
      else ok
          (record { buffer = replicate capacity junk; capacity = capacity; front = 0; tail = 0 })

  -- `uint64_t` arithmetic wraps.
  unfoldable pub size : CircularBuffer T → ℕ
  size b =
      if ltb b.tail b.front
      then (2 ^ 64 + b.capacity - b.front + b.tail) % 2 ^ 64
      else b.tail - b.front

  -- A cell outside the buffer is undefined behaviour.
  pub read_cell : List T → ℕ → Result T
  read_cell cells i = elim (get_elem? cells i) [ none ↦ err undefined | some x ↦ ok x ]

  pub pop : CircularBuffer T → Result (T × CircularBuffer T)
  pop b = if size b == 0 then err runtime_error else do
    x ← read_cell b.buffer b.front
    ok (x, record b { front = (b.front + 1) % 2 ^ 64 % b.capacity })

  pub peek : CircularBuffer T → Result T
  peek b = if size b == 0 then err runtime_error else read_cell b.buffer b.front

  -- `_buffer[_tail++] = item`, and back to the start at the end of the buffer.
  pub add : T → CircularBuffer T → Result (CircularBuffer T)
  add x b =
      if ltb b.tail (length b.buffer)
      then ok (record b {
        buffer = set b.buffer b.tail x;
        tail = (let next = (b.tail + 1) % 2 ^ 64 in if next == b.capacity then 0 else next);
      })
      else err undefined

  -- The elements that a sequence of calls pops, in order.
  pub run : CircularBuffer T → List (Op T) → Result (List T)
  run b [] = ok []
  run b (put x ∷ ops) = do b' ← add x b; run b' ops
  run b (get ∷ ops) = do (x, b') ← pop b; xs ← run b' ops; ok (x ∷ xs)
