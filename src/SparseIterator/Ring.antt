-- ===== src/SparseIterator/Ring.antt =====
-- The ring of queues of src/S3SparseIterator.cpp as the list of its minibatches.
use cirrus.Prelude.{
  ℕ, zero, suc, ◌<◌, ◌≤◌, ◌≡◌, ◌≢◌, refl, sym, ap, ◌∙◌, List, [], ◌∷◌, ◌++◌, append_assoc, set,
  get_or, arith, length-set, get_or-set_self, get_or-set_ne, inl, inr,
}
use cirrus.Prelude.Result.{ok}
use cirrus.CircularBuffer
use cirrus.CircularBuffer.{CircularBuffer}
use cirrus.CircularBuffer.Window.{after, gap, window, IsValid, contents, size-eq-gap}
use cirrus.CircularBuffer.Refine.{contents-pop, peek-pop}
use cirrus.SparseIterator.{Minibatch, discard_empty}

cons_ne_nil : {A : Type 0} {x : A} {xs : List A} → x ∷ xs ≡ [] → ⊥
cons_ne_nil e = cc

nil_ne_cons : {A : Type 0} {x : A} {xs : List A} → [] ≡ x ∷ xs → ⊥
nil_ne_cons e = cc

cons_head : {A : Type 0} {x y : A} {xs ys : List A} → x ∷ xs ≡ y ∷ ys → x ≡ y
cons_head e = cc

cons_tail : {A : Type 0} {x y : A} {xs ys : List A} → x ∷ xs ≡ y ∷ ys → xs ≡ ys
cons_tail e = cc

-- All elements of all queues, in order.
abbrev pub flat : {A : Type 0} → List (List A) → List A
flat [] = []
flat (xs ∷ xss) = xs ++ flat xss

pub flat-append : {A : Type 0} (xss yss : List (List A)) → flat (xss ++ yss) ≡ flat xss ++ flat yss
flat-append [] yss = refl
flat-append (xs ∷ xss) yss =
    ap (◌++◌ xs) (flat-append xss yss) ∙ sym (append_assoc xs (flat xss) (flat yss))

-- A write to a cell that the window does not reach.
window-keeps :
    {T : Type 0} (cells : List T) (cap : ℕ) (junk x : T) (n i j : ℕ)
    → i < cap
    → j < cap
    → n ≤ gap cap i j
    → window (set cells j x) cap junk i n ≡ window cells cap junk i n
window-keeps cells cap junk x zero i j hi hj h = refl
window-keeps cells cap junk x (suc n) i j hi hj h =
    let differ : j ≢ i = λ e. absurd (ground arith) in
    rw
      (
        get_or-set_ne cells j i x junk differ,
        window-keeps cells cap junk x n (after cap i) j (ground arith) hj (ground arith),
      )
      refl

module _ {T : Type 0} (junk : T) (ring : CircularBuffer T) (v : IsValid ring) where
  -- The front cell is replaced.
  abbrev pub with_front : T → CircularBuffer T
  with_front y = record ring { buffer = set ring.buffer ring.front y }

  pub with_front-IsValid : (y : T) → IsValid (with_front y)
  with_front-IsValid y = record {
    filled = length-set ring.buffer ring.front y ∙ v.filled;
    small = v.small;
    front_in = v.front_in;
    tail_in = v.tail_in;
  }

  size-with_front : (y : T) → CircularBuffer.size (with_front y) ≡ CircularBuffer.size ring
  size-with_front y = size-eq-gap (with_front y) (with_front-IsValid y) ∙ sym (size-eq-gap ring v)

  pub contents-with_front :
      (x y : T) (xs : List T) → contents junk ring ≡ x ∷ xs → contents junk (with_front y) ≡ y ∷ xs
  contents-with_front x y xs e = split (CircularBuffer.size ring) refl
    where
      split : (n : ℕ) → CircularBuffer.size ring ≡ n → contents junk (with_front y) ≡ y ∷ xs
      split zero empty = absurd (cons_ne_nil (sym e ∙ rw empty refl))
      split (suc n) some_left =
          let full = size-eq-gap ring v in
          let few : n ≤ gap ring.capacity (after ring.capacity ring.front) ring.front =
            ground (arith, v.front_in, v.tail_in) in
          let next_in : after ring.capacity ring.front < ring.capacity =
            ground (arith, v.front_in) in
          let kept =
            window-keeps ring.buffer ring.capacity junk y n (after ring.capacity ring.front)
              ring.front next_in v.front_in few in
          let e' : contents junk ring
              ≡ get_or ring.buffer ring.front junk
                ∷ window ring.buffer ring.capacity junk (after ring.capacity ring.front) n =
            rw some_left refl in
          rw
            (
              size-with_front y,
              some_left,
              get_or-set_self ring.buffer ring.front y junk (omega (arith, v.filled, v.front_in)),
              kept,
            )
            (ap (◌∷◌ y) (cons_tail (sym e' ∙ e)))

-- What the loop over empty queues finds: the first minibatch `m`, in front of the others.
abbrev pub Finds :
    List Minibatch → ℕ → CircularBuffer (List Minibatch) → Minibatch → List Minibatch → Type 0
Finds junk fuel ring m ms =
    (q : List Minibatch) × (qs : List (List Minibatch)) × (ring' : CircularBuffer (List Minibatch))
    × (discard_empty fuel ring ≡ ok (m, q, ring'))
    × IsValid ring'
    × (ring'.capacity ≡ ring.capacity)
    × (CircularBuffer.size ring' ≤ CircularBuffer.size ring)
    × (contents junk ring' ≡ (m ∷ q) ∷ qs)
    × (q ++ flat qs ≡ ms)

module _ (junk : List Minibatch) where
  discard_empty-first :
      (fuel : ℕ) (ring ring' : CircularBuffer (List Minibatch)) (m : Minibatch)
      (ms queue : List Minibatch)
      → IsValid ring
      → CircularBuffer.pop ring ≡ ok (queue, ring')
      → ring'.capacity ≡ ring.capacity
      → CircularBuffer.size ring ≡ suc (CircularBuffer.size ring')
      → contents junk ring ≡ queue ∷ contents junk ring'
      → flat (contents junk ring) ≡ m ∷ ms
      → (flat (contents junk ring') ≡ m ∷ ms → Finds junk fuel ring' m ms)
      → Finds junk (suc fuel) ring m ms
  unfolding discard_empty
  discard_empty-first fuel ring ring' m ms (m' ∷ q) v popped same count here e later =
      let seen = peek-pop ring (m' ∷ q) ring' popped in
      let all : m' ∷ (q ++ flat (contents junk ring')) ≡ m ∷ ms = ap flat (sym here) ∙ e in
      let first : m' ≡ m = cons_head all in
      (
        q,
        contents junk ring',
        ring,
        rw seen (rw first refl),
        v,
        refl,
        omega arith,
        here ∙ ap (λ x. (x ∷ q) ∷ contents junk ring') first,
        cons_tail all,
      )
  discard_empty-first fuel ring ring' m ms [] v popped same count here e later =
      let seen = peek-pop ring [] ring' popped in
      let (q, qs, ring'', found, v', same', fewer, front, rest) = later (ap flat (sym here) ∙ e) in
      (q, qs, ring'', rw (seen, popped) found, v', same' ∙ same, omega arith, front, rest)

  pub discard_empty-Finds :
      (fuel : ℕ) (ring : CircularBuffer (List Minibatch)) (m : Minibatch) (ms : List Minibatch)
      → IsValid ring
      → CircularBuffer.size ring < fuel
      → flat (contents junk ring) ≡ m ∷ ms
      → Finds junk fuel ring m ms
  discard_empty-Finds zero ring m ms v short e = absurd (omega arith)
  discard_empty-Finds (suc fuel) ring m ms v short e = elim (contents-pop junk ring v) [
    | inl (none_left, nothing, fails) ↦ absurd (nil_ne_cons (ap flat (sym nothing) ∙ e))
    | inr (queue, ring', popped, v', same, count, here) ↦
        discard_empty-first fuel ring ring' m ms queue v popped same count here e
          (discard_empty-Finds fuel ring' m ms v' (omega arith))
  ]
