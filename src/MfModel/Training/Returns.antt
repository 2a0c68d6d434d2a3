-- ===== src/MfModel/Training/Returns.antt =====
-- The training of an `MFModel` (src/MFModel.cpp) within its users and items.
use cirrus.Prelude.{
  ℕ, zero, suc, ◌+◌, ◌*◌, ◌<◌, ◌≤◌, ◌≡◌, refl, ◌∙◌, sym, ap, length, set, get_or, length-set, arith,
}
use cirrus.Prelude.Result.{ok}
use cirrus.Floats.{Floats}
use cirrus.Vector.{at-in, update_checked-in}
use cirrus.Gradient.MfSparse.{num_factors}
use cirrus.MfModel.{MfModel, predict_loop, predict}
use cirrus.MfModel.Access.{IsServed, index_exact, get_user_weights-in, get_item_weights-in}
use cirrus.MfModel.Training.{change, add_to_user, add_to_item, user_loop, item_loop}

-- A served model with the same users and items.
pub record Keeps {F : Type 0} (m m' : MfModel F) : Type 0 where
  pub served : IsServed m'
  pub same_users : m'.users ≡ m.users
  pub same_items : m'.items ≡ m.items

pub Keeps-trans : {F : Type 0} {m m' m'' : MfModel F} → Keeps m m' → Keeps m' m'' → Keeps m m''
Keeps-trans k k' = record {
  served = k'.served;
  same_users = k'.same_users ∙ k.same_users;
  same_items = k'.same_items ∙ k.same_items;
}

-- New vectors of the same lengths.
pub resized :
    {F : Type 0} (m m' : MfModel F)
    → IsServed m
    → m'.users ≡ m.users
    → m'.items ≡ m.items
    → m'.factors ≡ m.factors
    → length m'.user_bias ≡ length m.user_bias
    → length m'.item_bias ≡ length m.item_bias
    → length m'.user_weights ≡ length m.user_weights
    → length m'.item_weights ≡ length m.item_weights
    → Keeps m m'
resized m m' s u i f ub ib uw iw = record {
  served = record {
    sized = record {
      user_bias_length = ub ∙ s.sized.user_bias_length ∙ sym u;
      item_bias_length = ib ∙ s.sized.item_bias_length ∙ sym i;
      user_weights_length =
          uw
          ∙ s.sized.user_weights_length
          ∙ sym (ap (λ n. n * m.factors) u ∙ refl)
          ∙ sym (ap (λ n. m'.users * n) f);
      item_weights_length =
          iw
          ∙ s.sized.item_weights_length
          ∙ sym (ap (λ n. n * m.factors) i)
          ∙ sym (ap (λ n. m'.items * n) f);
      users_small = omega (arith, u, s.sized.users_small);
      items_small = omega (arith, i, s.sized.items_small);
      factors_small = omega (arith, f, s.sized.factors_small);
    };
    ten_factors = f ∙ s.ten_factors;
    users_few = omega (arith, u, s.users_few);
    items_few = omega (arith, i, s.items_few);
  };
  same_users = u;
  same_items = i;
}

module _ {F : Type 0} (user item : ℕ) where
  -- A model that has the user and the item.
  pub record IsAt (m : MfModel F) : Type 0 where
    pub served : IsServed m
    pub user_in : user < m.users
    pub item_in : item < m.items

  pub moved : {m m' : MfModel F} → IsAt m → Keeps m m' → IsAt m'
  moved a k = record {
    served = k.served;
    user_in = omega (arith, a.user_in, k.same_users);
    item_in = omega (arith, a.item_in, k.same_items);
  }

module _ {F D : Type 0} (fl : Floats F D) (d : F) where
  add_to_user-in :
      (m : MfModel F) (user k : ℕ) (delta : F)
      → IsServed m
      → user < m.users
      → k < 10
      → (m' : MfModel F) × (add_to_user fl m user k delta ≡ ok m') × Keeps m m'
  unfolding add_to_user
  add_to_user-in m user k delta s h small =
      let long : length m.user_weights ≡ m.users * 10 =
        s.sized.user_weights_length ∙ ap (λ f. m.users * f) s.ten_factors in
      let i = user * 10 + k in
      let weights = set m.user_weights i (fl.add_float (get_or m.user_weights i d) delta) in
      (
        record m { user_weights = weights },
        rw
            (
              index_exact fl d m s user k m.users h s.users_few small,
              update_checked-in m.user_weights i (λ w. fl.add_float w delta) d (omega arith),
            )
            refl,
        resized m (record m { user_weights = weights }) s refl refl refl refl refl
            (length-set m.user_weights i _) refl,
      )

  add_to_item-in :
      (m : MfModel F) (item k : ℕ) (delta : F)
      → IsServed m
      → item < m.items
      → k < 10
      → (m' : MfModel F) × (add_to_item fl m item k delta ≡ ok m') × Keeps m m'
  unfolding add_to_item
  add_to_item-in m item k delta s h small =
      let long : length m.item_weights ≡ m.items * 10 =
        s.sized.item_weights_length ∙ ap (λ f. m.items * f) s.ten_factors in
      let i = item * 10 + k in
      let weights = set m.item_weights i (fl.add_float (get_or m.item_weights i d) delta) in
      (
        record m { item_weights = weights },
        rw
            (
              index_exact fl d m s item k m.items h s.items_few small,
              update_checked-in m.item_weights i (λ w. fl.add_float w delta) d (omega arith),
            )
            refl,
        resized m (record m { item_weights = weights }) s refl refl refl refl refl refl
            (length-set m.item_weights i _),
      )

  module _ (user item : ℕ) where
    pub user_loop-Keeps :
        (rate : D) (error : F) (k n : ℕ) (m : MfModel F)
        → IsAt user item m
        → k + n ≤ 10
        → (m' : MfModel F) × (user_loop fl rate error user item k n m ≡ ok m') × Keeps m m'
    unfolding user_loop
    user_loop-Keeps rate error k zero m a small =
        (m, refl, record { served = a.served; same_users = refl; same_items = refl })
    user_loop-Keeps rate error k (suc n) m a small =
        let e = get_item_weights-in fl d m a.served item k a.item_in (omega arith) in
        let e' = get_user_weights-in fl d m a.served user k a.user_in (omega arith) in
        let (m', run, kept) =
          add_to_user-in m user k
            (change fl rate error (get_or m.item_weights (item * num_factors + k) d)
              (get_or m.user_weights (user * num_factors + k) d))
            a.served a.user_in (omega arith) in
        let (m'', rest, kept') =
          user_loop-Keeps rate error (suc k) n m' (moved user item a kept) (omega arith) in
        (m'', rw (e, e', run) rest, Keeps-trans kept kept')

    pub item_loop-Keeps :
        (rate : D) (error : F) (k n : ℕ) (m : MfModel F)
        → IsAt user item m
        → k + n ≤ 10
        → (m' : MfModel F) × (item_loop fl rate error user item k n m ≡ ok m') × Keeps m m'
    unfolding item_loop
    item_loop-Keeps rate error k zero m a small =
        (m, refl, record { served = a.served; same_users = refl; same_items = refl })
    item_loop-Keeps rate error k (suc n) m a small =
        let e = get_user_weights-in fl d m a.served user k a.user_in (omega arith) in
        let e' = get_item_weights-in fl d m a.served item k a.item_in (omega arith) in
        let (m', run, kept) =
          add_to_item-in m item k
            (change fl rate error (get_or m.user_weights (user * num_factors + k) d)
              (get_or m.item_weights (item * num_factors + k) d))
            a.served a.item_in (omega arith) in
        let (m'', rest, kept') =
          item_loop-Keeps rate error (suc k) n m' (moved user item a kept) (omega arith) in
        (m'', rw (e, e', run) rest, Keeps-trans kept kept')

    predict_loop-in :
        (m : MfModel F) (k n : ℕ) (res : F)
        → IsAt user item m
        → k + n ≤ 10
        → (x : F) × (predict_loop fl m user item k n res ≡ ok x)
    unfolding predict_loop
    predict_loop-in m k zero res a small = (res, refl)
    predict_loop-in m k (suc n) res a small =
        let u = get_or m.user_weights (user * num_factors + k) d in
        let i = get_or m.item_weights (item * num_factors + k) d in
        let (x, rest) =
          predict_loop-in m (suc k) n (fl.add_float res (fl.mul_float u i)) a (omega arith) in
        (
          x,
          rw
              (
                get_user_weights-in fl d m a.served user k a.user_in (omega arith),
                get_item_weights-in fl d m a.served item k a.item_in (omega arith),
              )
              rest,
        )

    pub predict-in : (m : MfModel F) → IsAt user item m → (x : F) × (predict fl m user item ≡ ok x)
    unfolding predict
    predict-in m a =
        let u = get_or m.user_bias user d in
        let i = get_or m.item_bias item d in
        let (x, rest) =
          predict_loop-in m 0 m.factors (fl.add_float (fl.add_float m.global_bias u) i) a
            (omega (arith, a.served.ten_factors)) in
        (
          x,
          rw
              (
                at-in m.user_bias user d
                    (omega (arith, a.user_in, a.served.sized.user_bias_length)),
                at-in m.item_bias item d
                    (omega (arith, a.item_in, a.served.sized.item_bias_length)),
              )
              rest,
        )
