-- ===== src/Vector.antt =====
-- `std::vector` under `operator[]`: an access outside the vector is undefined.
use cirrus.Prelude.{
  ℕ, zero, suc, ◌<◌, ◌≡◌, refl, none, some, List, [], ◌∷◌, arith, length, get_elem?, set, get_or,
}
use cirrus.Prelude.Result.{Result, ok, err, undefined, runtime_error, ◌>>=◌}

module _ {ℓ} {A : Type ℓ} where
  unfoldable pub at : List A → ℕ → Result A
  at xs i = elim (get_elem? xs i) [ none ↦ err undefined | some x ↦ ok x ]

  -- `xs[i] = f(xs[i])`
  pub update : List A → ℕ → (A → A) → Result (List A)
  update xs i f = do x ← at xs i; ok (set xs i (f x))

  -- `xs.at(i)`, which throws outside the vector.
  unfoldable pub at_checked : List A → ℕ → Result A
  at_checked xs i = elim (get_elem? xs i) [ none ↦ err runtime_error | some x ↦ ok x ]

  pub update_checked : List A → ℕ → (A → A) → Result (List A)
  update_checked xs i f = do x ← at_checked xs i; ok (set xs i (f x))

  pub at_checked-in :
      (xs : List A) (i : ℕ) (d : A) → i < length xs → at_checked xs i ≡ ok (get_or xs i d)
  unfolding at_checked
  at_checked-in [] i d h = absurd (omega arith)
  at_checked-in (x ∷ xs) zero d h = refl
  at_checked-in (x ∷ xs) (suc i) d h = at_checked-in xs i d (omega arith)

  pub update_checked-in :
      (xs : List A) (i : ℕ) (f : A → A) (d : A)
      → i < length xs
      → update_checked xs i f ≡ ok (set xs i (f (get_or xs i d)))
  unfolding update_checked
  update_checked-in xs i f d h = rw (at_checked-in xs i d h)

  pub at-in : (xs : List A) (i : ℕ) (d : A) → i < length xs → at xs i ≡ ok (get_or xs i d)
  unfolding at
  at-in [] i d h = absurd (omega arith)
  at-in (x ∷ xs) zero d h = refl
  at-in (x ∷ xs) (suc i) d h = at-in xs i d (omega arith)

  pub at-out : (xs : List A) (i : ℕ) → ¬ (i < length xs) → at xs i ≡ err undefined
  unfolding at
  at-out [] i h = refl
  at-out (x ∷ xs) zero h = absurd (omega arith)
  at-out (x ∷ xs) (suc i) h = at-out xs i (omega arith)

  pub update-in :
      (xs : List A) (i : ℕ) (f : A → A) (d : A)
      → i < length xs
      → update xs i f ≡ ok (set xs i (f (get_or xs i d)))
  unfolding update
  update-in xs i f d h = rw (at-in xs i d h)

  pub update-out :
      (xs : List A) (i : ℕ) (f : A → A) → ¬ (i < length xs) → update xs i f ≡ err undefined
  unfolding update
  update-out xs i f h = rw (at-out xs i h)
