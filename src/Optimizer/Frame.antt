-- ===== src/Optimizer/Frame.antt =====
-- Which weights an update changes, and when it stays inside the model.
use cirrus.Prelude.{
  ℕ, ◌<◌, ◌≡◌, ◌≢◌, refl, ◌∙◌, sym, List, [], ◌∷◌, length, get_or, set, All, length-set,
  get_or-set_ne, get_or-set_self,
}
use cirrus.Prelude.Result.{ok}
use cirrus.Floats.{Floats}
use cirrus.Bytes.{sign_extend}
use cirrus.Vector.{at-in, update-in}
use cirrus.SparseLr.{SparseLr}
use cirrus.Optimizer.{
  Method, sgd, ada_grad, momentum, nesterov, next_average, add_to, sgd_loop, ada_grad_loop,
  momentum_loop, sgd_update,
}

-- Every index of the gradient lies in a vector of `n` cells.
abbrev pub InRange : {F : Type 0} → ℕ → List (ℕ × F) → Type 0
InRange n g = All (λ p. sign_extend p.0 < n) g

-- The gradient has no entry for cell `j`.
abbrev pub Avoids : {F : Type 0} → ℕ → List (ℕ × F) → Type 0
Avoids j g = All (λ p. sign_extend p.0 ≢ j) g

-- The history has a cell for each weight.
abbrev pub IsPaired : {F : Type 0} → SparseLr F → Type 0
IsPaired m = length m.weights_hist ≡ length m.weights

-- `m'` has the vectors of `m`, but for the cells that the gradient names.
pub record Touches {F : Type 0} (d : F) (g : List (ℕ × F)) (m m' : SparseLr F) : Type 0 where
  pub weights_length : length m'.weights ≡ length m.weights
  pub hist_length : length m'.weights_hist ≡ length m.weights_hist
  pub weights_kept : (j : ℕ) → Avoids j g → get_or m'.weights j d ≡ get_or m.weights j d
  pub hist_kept : (j : ℕ) → Avoids j g → get_or m'.weights_hist j d ≡ get_or m.weights_hist j d
  pub average_kept : m'.momentum_avg ≡ m.momentum_avg

module _ {F : Type 0} (d : F) where
  Touches-nil : (m : SparseLr F) → Touches d [] m m
  Touches-nil m = record {
    weights_length = refl;
    hist_length = refl;
    weights_kept = λ j a. refl;
    hist_kept = λ j a. refl;
    average_kept = refl;
  }

  -- A round that writes cell `i` of both vectors, and the later rounds.
  Touches-cons :
      (index : ℕ) (v x y : F) (g : List (ℕ × F)) (m m' : SparseLr F)
      → let i = sign_extend index in
        Touches d g
          (record m { weights = set m.weights i x; weights_hist = set m.weights_hist i y })
          m'
        → Touches d ((index, v) ∷ g) m m'
  Touches-cons index v x y g m m' t =
      let i = sign_extend index in
      record {
        weights_length = t.weights_length ∙ length-set m.weights i x;
        hist_length = t.hist_length ∙ length-set m.weights_hist i y;
        weights_kept = λ j a. t.weights_kept j a.1 ∙ get_or-set_ne m.weights i j x d a.0;
        hist_kept = λ j a. t.hist_kept j a.1 ∙ get_or-set_ne m.weights_hist i j y d a.0;
        average_kept = t.average_kept;
      }

  -- A round that writes cell `i` of the weights alone.
  Touches-cons_weight :
      (index : ℕ) (v x : F) (g : List (ℕ × F)) (m m' : SparseLr F)
      → Touches d g (record m { weights = set m.weights (sign_extend index) x }) m'
      → Touches d ((index, v) ∷ g) m m'
  Touches-cons_weight index v x g m m' t =
      let i = sign_extend index in
      record {
        weights_length = t.weights_length ∙ length-set m.weights i x;
        hist_length = t.hist_length;
        weights_kept = λ j a. t.weights_kept j a.1 ∙ get_or-set_ne m.weights i j x d a.0;
        hist_kept = λ j a. t.hist_kept j a.1;
        average_kept = t.average_kept;
      }

module _ {F D : Type 0} (fl : Floats F D) (d : F) where
  pub sgd_loop-Touches :
      (rate : D) (g : List (ℕ × F)) (m : SparseLr F)
      → InRange (length m.weights) g
      → (m' : SparseLr F) × (sgd_loop fl rate g m ≡ ok m') × Touches d g m m'
  unfolding sgd_loop
  sgd_loop-Touches rate [] m h = (m, refl, Touches-nil d m)
  sgd_loop-Touches rate ((index, v) ∷ g) m (h, hs) =
      let i = sign_extend index in
      let f = add_to fl (fl.mul rate (fl.widen v)) in
      let x = f (get_or m.weights i d) in
      let (m', run, t) =
        sgd_loop-Touches rate g (record m { weights = set m.weights i x })
          (rw (length-set m.weights i x) hs) in
      (m', rw (update-in m.weights i f d h, run) refl, Touches-cons_weight d index v x g m m' t)

  momentum_loop-Touches :
      (rate beta average : D) (g : List (ℕ × F)) (m : SparseLr F)
      → InRange (length m.weights) g
      → (average' : D) × (m' : SparseLr F) × (momentum_loop fl rate beta average g m
          ≡ ok (average', m'))
        × Touches d g m m'
  unfolding momentum_loop
  momentum_loop-Touches rate beta average [] m h = (average, m, refl, Touches-nil d m)
  momentum_loop-Touches rate beta average ((index, v) ∷ g) m (h, hs) =
      let i = sign_extend index in
      let average' = next_average fl rate beta average v in
      let f = add_to fl average' in
      let x = f (get_or m.weights i d) in
      let (last, m', run, t) =
        momentum_loop-Touches rate beta average' g (record m { weights = set m.weights i x })
          (rw (length-set m.weights i x) hs) in
      (
        last,
        m',
        rw (update-in m.weights i f d h, run) refl,
        Touches-cons_weight d index v x g m m' t,
      )

  ada_grad_loop-Touches :
      (rate epsilon : D) (g : List (ℕ × F)) (m : SparseLr F)
      → IsPaired m
      → InRange (length m.weights) g
      → (m' : SparseLr F) × (ada_grad_loop fl rate epsilon g m ≡ ok m') × Touches d g m m'
  unfolding ada_grad_loop
  ada_grad_loop-Touches rate epsilon [] m p h = (m, refl, Touches-nil d m)
  ada_grad_loop-Touches rate epsilon ((index, v) ∷ g) m p (h, hs) =
      let i = sign_extend index in
      let grow : F → F = λ old. fl.add_float old (fl.mul_float v v) in
      let y = grow (get_or m.weights_hist i d) in
      let f =
        add_to fl
          (fl.div (fl.mul rate (fl.widen v)) (fl.add epsilon (fl.widen (fl.sqrt_float y)))) in
      let x = f (get_or m.weights i d) in
      let in_hist : i < length m.weights_hist = rw p h in
      let in_set : i < length (set m.weights_hist i y) =
        rw (length-set m.weights_hist i y) in_hist in
      let (m', run, t) =
        ada_grad_loop-Touches rate epsilon g
          (record m { weights = set m.weights i x; weights_hist = set m.weights_hist i y })
          (length-set m.weights_hist i y ∙ p ∙ sym (length-set m.weights i x))
          (rw (length-set m.weights i x) hs) in
      (
        m',
        rw
            (
              update-in m.weights_hist i grow d in_hist,
              at-in (set m.weights_hist i y) i d in_set,
              get_or-set_self m.weights_hist i y d in_hist,
              update-in m.weights i f d h,
              run,
            )
            refl,
        Touches-cons d index v x y g m m' t,
      )

  -- If every index of the gradient lies in the model, each of the four methods ends, keeps
  -- the sizes of both vectors and the average of the model, and changes no weight and no
  -- history of an index that is not in the gradient.
  pub sgd_update-Touches :
      (method : Method D) (g : List (ℕ × F)) (m : SparseLr F)
      → IsPaired m
      → InRange (length m.weights) g
      → (method' : Method D) × (m' : SparseLr F) × (sgd_update fl method g m ≡ ok (method', m'))
        × Touches d g m m'
  unfolding sgd_update
  sgd_update-Touches (sgd rate) g m p h =
      let (m', run, t) = sgd_loop-Touches rate g m h in (sgd rate, m', rw run refl, t)
  sgd_update-Touches (ada_grad rate epsilon) g m p h =
      let (m', run, t) = ada_grad_loop-Touches rate epsilon g m p h in
      (ada_grad rate epsilon, m', rw run refl, t)
  sgd_update-Touches (momentum rate beta average) g m p h =
      let (last, m', run, t) = momentum_loop-Touches rate beta average g m h in
      (momentum rate beta last, m', rw run refl, t)
  sgd_update-Touches (nesterov rate beta average) g m p h =
      let (last, m', run, t) = momentum_loop-Touches rate beta average g m h in
      (nesterov rate beta last, m', rw run refl, t)
