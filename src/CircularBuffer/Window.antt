-- ===== src/CircularBuffer/Window.antt =====
-- The elements from one index of a buffer to another, going round at its end.
use cirrus.Prelude.{
  ℕ, zero, suc, ◌+◌, ◌-◌, ◌^◌, ◌≤◌, ◌<◌, ◌≡◌, refl, ap₂, List, [], ◌∷◌, ◌++◌, arith, length, set,
  get_or, get_or-set_self, get_or-set_ne, ltb, if◌then◌else◌, some, get_elem?,
}
use cirrus.CircularBuffer.{CircularBuffer, size}

-- The index after `i` in a buffer of `cap` cells.
abbrev pub after : ℕ → ℕ → ℕ
after cap i = if ltb (i + 1) cap then i + 1 else 0

module _ {T : Type 0} (cells : List T) (cap : ℕ) (junk : T) where
  -- `n` elements from index `i` on.
  abbrev pub window : ℕ → ℕ → List T
  window i zero = []
  window i (suc n) = get_or cells i junk ∷ window (after cap i) n

pub get_elem?-eq-get_or {ℓ} :
    {A : Type ℓ} (xs : List A) (i : ℕ) (d : A)
    → i < length xs
    → get_elem? xs i ≡ some (get_or xs i d)
get_elem?-eq-get_or [] i d h = absurd (omega arith)
get_elem?-eq-get_or (x ∷ xs) zero d h = refl
get_elem?-eq-get_or (x ∷ xs) (suc i) d h = get_elem?-eq-get_or xs i d (omega arith)

-- The number of steps from index `i` round to index `j`.
abbrev pub gap : ℕ → ℕ → ℕ → ℕ
gap cap i j = if ltb j i then cap - i + j else j - i

-- A write at the end of a window that is not full extends it by the element.
pub window-set :
    {T : Type 0} (cells : List T) (cap : ℕ) (junk x : T) (n i j : ℕ)
    → cap ≤ length cells
    → i < cap
    → j < cap
    → gap cap i j ≡ n
    → window (set cells j x) cap junk i (suc n) ≡ window cells cap junk i n ++ (x ∷ [])
window-set cells cap junk x zero i j hc hi hj e =
    let same : i ≡ j = ground arith in rw (same, get_or-set_self cells j x junk (omega arith)) refl
window-set cells cap junk x (suc n) i j hc hi hj e =
    ap₂ ◌∷◌ (get_or-set_ne cells j i x junk (ground arith))
      (window-set cells cap junk x n (after cap i) j hc (ground arith) hj (ground arith))

pub record IsValid {T : Type 0} (b : CircularBuffer T) : Type 0 where
  pub filled : length b.buffer ≡ b.capacity
  pub small : b.capacity < 2 ^ 64
  pub front_in : b.front < b.capacity
  pub tail_in : b.tail < b.capacity

module _ {T : Type 0} where
  -- In a valid buffer the machine arithmetic of `size` does not wrap.
  pub size-eq-gap : (b : CircularBuffer T) → IsValid b → size b ≡ gap b.capacity b.front b.tail
  unfolding size
  size-eq-gap b v = ground arith

  -- What the buffer holds, oldest first; `junk` is never seen.
  abbrev pub contents : T → CircularBuffer T → List T
  contents junk b = window b.buffer b.capacity junk b.front (size b)
