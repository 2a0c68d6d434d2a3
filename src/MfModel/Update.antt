-- ===== src/MfModel/Update.antt =====
-- `MFModel::sgd_update` (src/MFModel.cpp), against the sums of the changes of each id.
use cirrus.Prelude.{ℕ, ◌+◌, ◌*◌, ◌^◌, ◌≤◌, ◌<◌, ◌≡◌, refl, sym, ap, ◌∙◌, List, All, get_or}
use cirrus.Prelude.Result.{ok}
use cirrus.Floats.{Floats}
use cirrus.Gradient.MfSparse.{MfSparseGradient, num_factors}
use cirrus.MfModel.{MfModel, add_biases, add_rows, sgd_update}
use cirrus.MfModel.RoundTrip.{IsSized}
use cirrus.MfModel.Sums.{IsBelow, IsFull, sum_biases, sum_rows, add_biases-sums, add_rows-sums}

module _ {F D : Type 0} (fl : Floats F D) where
  -- A gradient for a model: its ids are those of users and items, and its rows are full.
  pub record IsFitting (m : MfModel F) (g : MfSparseGradient F) : Type 0 where
    pub users_known : All (IsBelow m.users) g.users_bias
    pub items_known : All (IsBelow m.items) g.items_bias
    pub user_rows : All (IsFull fl m.users) g.users_weights
    pub item_rows : All (IsFull fl m.items) g.items_weights

  -- The model after an update: of the same size, and every bias and weight has the changes of its id.
  pub record IsApplied (d : F) (g : MfSparseGradient F) (m m' : MfModel F) : Type 0 where
    pub sized : IsSized m'
    pub same_users : m'.users ≡ m.users
    pub same_items : m'.items ≡ m.items
    pub user_bias :
        (u : ℕ) → get_or m'.user_bias u d ≡ sum_biases fl g.users_bias u (get_or m.user_bias u d)
    pub item_bias :
        (i : ℕ) → get_or m'.item_bias i d ≡ sum_biases fl g.items_bias i (get_or m.item_bias i d)
    pub user_weights :
        (u k : ℕ)
        → k < num_factors
        → get_or m'.user_weights (u * num_factors + k) d
          ≡ sum_rows fl d g.users_weights u k (get_or m.user_weights (u * num_factors + k) d)
    pub item_weights :
        (i k : ℕ)
        → k < num_factors
        → get_or m'.item_weights (i * num_factors + k) d
          ≡ sum_rows fl d g.items_weights i k (get_or m.item_weights (i * num_factors + k) d)

  sgd_update-parts :
      (rate : D) (g : MfSparseGradient F) (m : MfModel F) (ub ib uw iw : List F)
      → add_biases fl g.users_bias m.user_bias ≡ ok ub
      → add_biases fl g.items_bias m.item_bias ≡ ok ib
      → add_rows fl m.factors g.users_weights m.user_weights ≡ ok uw
      → add_rows fl m.factors g.items_weights m.item_weights ≡ ok iw
      → sgd_update fl rate g m
        ≡ ok (record m { user_weights = uw; item_weights = iw; user_bias = ub; item_bias = ib })
  unfolding sgd_update
  sgd_update-parts rate g m ub ib uw iw a b c e = rw (a, b, c, e) refl

  -- In a sized model of ten factors and at most 2 ^ 31 users and items, a fitting gradient is
  -- applied: the update ends, and every bias and weight has become what the changes of its id
  -- sum to.
  pub mf_sgd_update-IsApplied :
      (d : F) (rate : D) (g : MfSparseGradient F) (m : MfModel F)
      → IsSized m
      → m.factors ≡ num_factors
      → m.users ≤ 2 ^ 31
      → m.items ≤ 2 ^ 31
      → IsFitting m g
      → (m' : MfModel F) × (sgd_update fl rate g m ≡ ok m') × IsApplied d g m m'
  mf_sgd_update-IsApplied d rate g m s ten users items fits =
      let ub =
        add_biases-sums fl d m.users g.users_bias m.user_bias s.user_bias_length users
          fits.users_known in
      let ib =
        add_biases-sums fl d m.items g.items_bias m.item_bias s.item_bias_length items
          fits.items_known in
      let uw =
        add_rows-sums fl d m.users g.users_weights m.user_weights
          (s.user_weights_length ∙ ap (λ f. m.users * f) ten) users fits.user_rows in
      let iw =
        add_rows-sums fl d m.items g.items_weights m.item_weights
          (s.item_weights_length ∙ ap (λ f. m.items * f) ten) items fits.item_rows in
      (
        record m { user_weights = uw.0; item_weights = iw.0; user_bias = ub.0; item_bias = ib.0 },
        sgd_update-parts rate g m ub.0 ib.0 uw.0 iw.0 ub.1 ib.1
            (ap (λ f. add_rows fl f g.users_weights m.user_weights) ten ∙ uw.1)
            (ap (λ f. add_rows fl f g.items_weights m.item_weights) ten ∙ iw.1),
        record {
          sized = record {
            user_bias_length = ub.2;
            item_bias_length = ib.2;
            user_weights_length = uw.2 ∙ ap (λ f. m.users * f) (sym ten);
            item_weights_length = iw.2 ∙ ap (λ f. m.items * f) (sym ten);
            users_small = s.users_small;
            items_small = s.items_small;
            factors_small = s.factors_small;
          };
          same_users = refl;
          same_items = refl;
          user_bias = ub.3;
          item_bias = ib.3;
          user_weights = uw.3;
          item_weights = iw.3;
        },
      )
