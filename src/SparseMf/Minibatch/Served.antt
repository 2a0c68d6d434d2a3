-- ===== src/SparseMf/Minibatch/Served.antt =====
-- The gradient of `minibatch_grad` (src/SparseMFModel.cpp) sent to the model of src/MFModel.cpp.
use cirrus.Prelude.{ℕ, ◌+◌, ◌^◌, ◌<◌, ◌≤◌, ◌≡◌, ◌∙◌, sym, ap, subst, List, [], length, All, arith}
use cirrus.Prelude.Result.{ok}
use cirrus.Floats.{Floats, IsExact}
use cirrus.Configuration.{Configuration}
use cirrus.Configuration.Getters.{get_learning_rate}
use cirrus.Gradient.MfSparse.{MfSparseGradient, num_factors, serialize, load_serialized, construct}
use cirrus.Gradient.MfSparse.RoundTrip.{Distinct, IsWellFormed, mf_sparse_round_trip}
use cirrus.MfModel.{MfModel, sgd_update}
use cirrus.MfModel.RoundTrip.{IsSized}
use cirrus.MfModel.Update.{IsFitting, IsApplied, mf_sgd_update-IsApplied}
use cirrus.SparseLr.Dense.Names.{NamesAll}
use cirrus.SparseMf.{SparseMf, max_items}
use cirrus.SparseMf.Minibatch.{minibatch_grad}
use cirrus.SparseMf.Minibatch.Keys.{keys, length-keys}
use cirrus.SparseMf.Minibatch.Steps.{IsWhole, IsKnown}
use cirrus.SparseMf.Minibatch.Rows.{IsSummed}
use cirrus.SparseMf.Minibatch.Gradient.{minibatch_grad-returns, map-All, keys-All, All-keys}

-- Two maps with the same keys: a property of the one's keys is one of the other's.
named_alike :
    {V W : Type 0} (P : ℕ → Type 0) (t : List (ℕ × V)) (u : List (ℕ × List W))
    → keys t ≡ keys u
    → All (IsSummed P) u
    → All (λ p. P p.0) t
named_alike P t u e ps =
    All-keys P t
      (subst (All P) (sym e) (keys-All P u (map-All (IsSummed P) (λ p. P p.0) u (λ x p. p.0) ps)))

length_alike :
    {V W : Type 0} (t : List (ℕ × V)) (u : List (ℕ × W)) → keys t ≡ keys u → length u ≡ length t
length_alike t u e = sym (length-keys u) ∙ sym (ap length e) ∙ length-keys t

module _ {F D : Type 0} (fl : Floats F D) where
  gradient-IsWellFormed :
      (g : MfSparseGradient F) (n items : ℕ)
      → n < 2 ^ 32
      → items ≤ 2 ^ 31
      → keys g.users_bias ≡ keys g.users_weights
      → keys g.items_bias ≡ keys g.items_weights
      → length g.users_weights ≤ n
      → length g.items_bias ≤ max_items
      → All (IsSummed (λ j. j < n)) g.users_weights
      → All (IsSummed (λ j. j < items)) g.items_weights
      → Distinct [] g.users_bias
      → Distinct [] g.items_bias
      → IsWellFormed fl g
  gradient-IsWellFormed g n items few few_items e e' l l' ps qs distinct distinct' =
      let same = length_alike g.users_bias g.users_weights e in
      record {
        users_match = same;
        items_match = length_alike g.items_bias g.items_weights e';
        users_few = omega arith;
        items_few = omega arith;
        users_pairs =
            map-All (λ p. p.0 < n) (λ p. p.0 < 2 ^ 32) g.users_bias (λ x p. omega arith)
              (named_alike (λ j. j < n) g.users_bias g.users_weights e ps);
        items_pairs =
            map-All (λ p. p.0 < items) (λ p. p.0 < 2 ^ 32) g.items_bias (λ x p. omega arith)
              (named_alike (λ j. j < items) g.items_bias g.items_weights e' qs);
        users_distinct = distinct;
        items_distinct = distinct';
        users_rows =
            map-All (IsSummed (λ j. j < n)) (λ r. (r.0 < 2 ^ 32) × (length r.1 ≡ num_factors))
              g.users_weights (λ x p. (omega (arith, p.0), p.1)) ps;
        items_rows =
            map-All (IsSummed (λ j. j < items)) (λ r. (r.0 < 2 ^ 32) × (length r.1 ≡ num_factors))
              g.items_weights (λ x p. (omega (arith, p.0), p.1)) qs;
      }

  -- If floats are exact, a rate is loaded, users and items have ten factors at worker and
  -- server, and the users and items of a minibatch are known to both, with ids below 2 ^ 31,
  -- minibatch_grad returns a gradient that is serialized, loaded back as it was, and applied
  -- by the server.
  pub minibatch_grad-mf_sgd_update :
      (exact : IsExact fl) (d : F) (config : Configuration D) (rate server_rate : D) (base : ℕ)
      (rows : List (List (ℕ × F))) (m : SparseMf F) (server : MfModel F)
      → get_learning_rate fl config ≡ ok rate
      → IsWhole fl m
      → length rows ≤ length m.users
      → base + length m.users < 2 ^ 31
      → IsSized server
      → server.factors ≡ num_factors
      → server.users ≤ 2 ^ 31
      → server.items ≤ 2 ^ 31
      → base + length rows ≤ server.users
      → NamesAll (λ i. IsKnown fl m i × (i < server.items)) rows
      → (g : MfSparseGradient F) × (m' : SparseMf F) × (bytes : List ℕ) × (server' : MfModel F)
        × (minibatch_grad fl config base rows m ≡ ok (g, m'))
        × (serialize fl g [] ≡ ok bytes)
        × (load_serialized fl (construct fl) bytes ≡ ok g)
        × (sgd_update fl server_rate g server ≡ ok server')
        × IsApplied fl d g server server'
  minibatch_grad-mf_sgd_update exact d config rate server_rate base rows m server known w fits few
        sized ten users items inside named =
      let P : ℕ → Type 0 = λ i. i < server.items in
      let n = base + length rows in
      let (g, m', run, e, e', l, l', ps, qs, distinct, distinct') =
        minibatch_grad-returns fl d P config rate base rows m known w fits few named in
      let formed =
        gradient-IsWellFormed g n server.items (omega arith) items e e' (omega arith) l' ps qs
          distinct distinct' in
      let (bytes, stored, length_, loaded) = mf_sparse_round_trip fl exact g [] formed in
      let fitting : IsFitting fl server g = record {
        users_known =
            map-All (λ p. p.0 < n) (λ p. p.0 < server.users) g.users_bias (λ x p. omega arith)
              (named_alike (λ j. j < n) g.users_bias g.users_weights e ps);
        items_known = named_alike P g.items_bias g.items_weights e' qs;
        user_rows =
            map-All (IsSummed (λ j. j < n)) (IsSummed (λ j. j < server.users)) g.users_weights
              (λ x p. (omega (arith, p.0), p.1)) ps;
        item_rows = qs;
      } in
      let (server', applied, same) =
        mf_sgd_update-IsApplied fl d server_rate g server sized ten users items fitting in
      (g, m', bytes, server', run, stored, loaded, applied, same)
