-- ===== src/Optimizer/Steps.antt =====
-- What an update does to a weight that the gradient names, and to an index outside the model.
use cirrus.Prelude.{
  ℕ, ◌<◌, ◌≡◌, refl, ◌∙◌, sym, List, [], ◌∷◌, ◌++◌, length, get_or, set, length-set,
  get_or-set_self, get_or-set_ne, ap,
}
use cirrus.Prelude.Result.{ok, err, undefined}
use cirrus.Floats.{Floats}
use cirrus.Bytes.{sign_extend}
use cirrus.Vector.{at-in, update-in, update-out}
use cirrus.SparseLr.{SparseLr}
use cirrus.Optimizer.{
  Method, sgd, ada_grad, momentum, nesterov, next_average, add_to, sgd_loop, ada_grad_loop,
  momentum_loop, sgd_update,
}
use cirrus.Optimizer.Frame.{InRange, Avoids, IsPaired, sgd_loop-Touches}

module _ {F D : Type 0} (fl : Floats F D) (d : F) where
  sgd_loop-out :
      (rate : D) (g g' : List (ℕ × F)) (index : ℕ) (v : F) (m : SparseLr F)
      → InRange (length m.weights) g
      → ¬ (sign_extend index < length m.weights)
      → sgd_loop fl rate (g ++ ((index, v) ∷ g')) m ≡ err undefined
  unfolding sgd_loop
  sgd_loop-out rate [] g' index v m h out =
      rw (update-out m.weights (sign_extend index) (add_to fl (fl.mul rate (fl.widen v))) out) refl
  sgd_loop-out rate ((j, w) ∷ g) g' index v m (h, hs) out =
      let i = sign_extend j in
      let f = add_to fl (fl.mul rate (fl.widen w)) in
      let x = f (get_or m.weights i d) in
      rw (update-in m.weights i f d h) (
        sgd_loop-out rate g g' index v (record m { weights = set m.weights i x })
          (rw (length-set m.weights i x) hs) (rw (length-set m.weights i x) out))

  momentum_loop-out :
      (rate beta average : D) (g g' : List (ℕ × F)) (index : ℕ) (v : F) (m : SparseLr F)
      → InRange (length m.weights) g
      → ¬ (sign_extend index < length m.weights)
      → momentum_loop fl rate beta average (g ++ ((index, v) ∷ g')) m ≡ err undefined
  unfolding momentum_loop
  momentum_loop-out rate beta average [] g' index v m h out =
      rw
        (update-out m.weights (sign_extend index) (add_to fl (next_average fl rate beta average v))
          out)
        refl
  momentum_loop-out rate beta average ((j, w) ∷ g) g' index v m (h, hs) out =
      let i = sign_extend j in
      let average' = next_average fl rate beta average w in
      let f = add_to fl average' in
      let x = f (get_or m.weights i d) in
      rw (update-in m.weights i f d h) (
        momentum_loop-out rate beta average' g g' index v (record m { weights = set m.weights i x })
          (rw (length-set m.weights i x) hs) (rw (length-set m.weights i x) out))

  ada_grad_loop-out :
      (rate epsilon : D) (g g' : List (ℕ × F)) (index : ℕ) (v : F) (m : SparseLr F)
      → IsPaired m
      → InRange (length m.weights) g
      → ¬ (sign_extend index < length m.weights)
      → ada_grad_loop fl rate epsilon (g ++ ((index, v) ∷ g')) m ≡ err undefined
  unfolding ada_grad_loop
  ada_grad_loop-out rate epsilon [] g' index v m p h out =
      rw
        (update-out m.weights_hist (sign_extend index) (λ old. fl.add_float old (fl.mul_float v v))
          (rw p out))
        refl
  ada_grad_loop-out rate epsilon ((j, w) ∷ g) g' index v m p (h, hs) out =
      let i = sign_extend j in
      let grow : F → F = λ old. fl.add_float old (fl.mul_float w w) in
      let y = grow (get_or m.weights_hist i d) in
      let f =
        add_to fl
          (fl.div (fl.mul rate (fl.widen w)) (fl.add epsilon (fl.widen (fl.sqrt_float y)))) in
      let x = f (get_or m.weights i d) in
      let in_hist : i < length m.weights_hist = rw p h in
      let in_set : i < length (set m.weights_hist i y) =
        rw (length-set m.weights_hist i y) in_hist in
      rw
        (
          update-in m.weights_hist i grow d in_hist,
          at-in (set m.weights_hist i y) i d in_set,
          get_or-set_self m.weights_hist i y d in_hist,
          update-in m.weights i f d h,
        )
        (ada_grad_loop-out rate epsilon g g' index v
          (record m { weights = set m.weights i x; weights_hist = set m.weights_hist i y })
          (length-set m.weights_hist i y ∙ p ∙ sym (length-set m.weights i x))
          (rw (length-set m.weights i x) hs) (rw (length-set m.weights i x) out))

  -- A gradient with an index outside the model makes each of the four methods access memory
  -- outside a vector: no method tests the index.
  pub sgd_update-out :
      (method : Method D) (g g' : List (ℕ × F)) (index : ℕ) (v : F) (m : SparseLr F)
      → IsPaired m
      → InRange (length m.weights) g
      → ¬ (sign_extend index < length m.weights)
      → sgd_update fl method (g ++ ((index, v) ∷ g')) m ≡ err undefined
  unfolding sgd_update
  sgd_update-out (sgd rate) g g' index v m p h out =
      rw (sgd_loop-out rate g g' index v m h out) refl
  sgd_update-out (ada_grad rate epsilon) g g' index v m p h out =
      rw (ada_grad_loop-out rate epsilon g g' index v m p h out) refl
  sgd_update-out (momentum rate beta average) g g' index v m p h out =
      rw (momentum_loop-out rate beta average g g' index v m h out) refl
  sgd_update-out (nesterov rate beta average) g g' index v m p h out =
      rw (momentum_loop-out rate beta average g g' index v m h out) refl

  sgd_loop_moves :
      (rate : D) (g g' : List (ℕ × F)) (index : ℕ) (v : F) (m : SparseLr F)
      → let i = sign_extend index in
        InRange (length m.weights) (g ++ ((index, v) ∷ g'))
        → Avoids i g
        → Avoids i g'
        → (m' : SparseLr F) × (sgd_loop fl rate (g ++ ((index, v) ∷ g')) m ≡ ok m')
          × (get_or m'.weights i d ≡ add_to fl (fl.mul rate (fl.widen v)) (get_or m.weights i d))
  unfolding sgd_loop
  sgd_loop_moves rate [] g' index v m (h, hs) before behind =
      let i = sign_extend index in
      let f = add_to fl (fl.mul rate (fl.widen v)) in
      let x = f (get_or m.weights i d) in
      let (m', run, t) =
        sgd_loop-Touches fl d rate g' (record m { weights = set m.weights i x })
          (rw (length-set m.weights i x) hs) in
      (
        m',
        rw (update-in m.weights i f d h, run) refl,
        t.weights_kept i behind ∙ get_or-set_self m.weights i x d h,
      )
  sgd_loop_moves rate ((j, w) ∷ g) g' index v m (h, hs) (ne, before) behind =
      let i = sign_extend index in
      let k = sign_extend j in
      let f = add_to fl (fl.mul rate (fl.widen w)) in
      let x = f (get_or m.weights k d) in
      let (m', run, moved) =
        sgd_loop_moves rate g g' index v (record m { weights = set m.weights k x })
          (rw (length-set m.weights k x) hs) before behind in
      (
        m',
        rw (update-in m.weights k f d h, run) refl,
        moved ∙ ap (add_to fl (fl.mul rate (fl.widen v))) (get_or-set_ne m.weights k i x d ne),
      )

  -- `SGD` moves a weight that the gradient names once by the learning rate times the
  -- gradient's value, wherever the entry stands in the gradient.
  pub sgd_moves :
      (rate : D) (g g' : List (ℕ × F)) (index : ℕ) (v : F) (m : SparseLr F)
      → let i = sign_extend index in
        InRange (length m.weights) (g ++ ((index, v) ∷ g'))
        → Avoids i g
        → Avoids i g'
        → (m' : SparseLr F) × (sgd_update fl (sgd rate) (g ++ ((index, v) ∷ g')) m
            ≡ ok (sgd rate, m'))
          × (get_or m'.weights i d
              ≡ fl.narrow (fl.add (fl.widen (get_or m.weights i d)) (fl.mul rate (fl.widen v))))
  unfolding sgd_update
  sgd_moves rate g g' index v m h before behind =
      let (m', run, moved) = sgd_loop_moves rate g g' index v m h before behind in
      (m', rw run refl, moved)
