-- ===== src/SparseMf/Minibatch/Steps.antt =====
-- The loops over factors of `minibatch_grad` (src/SparseMFModel.cpp) return, and keep the rows whole.
use cirrus.Prelude.{
  ℕ, zero, suc, ◌+◌, ◌<◌, ◌≤◌, ◌≡◌, refl, ◌∙◌, List, [], length, set, get_or, All, length-set,
  arith, ◌==◌, Bool-cases, inl, inr, ltb, true, number_key,
}
use cirrus.Prelude.Result.{ok}
use cirrus.Prelude.Table.{lookup, lookup-insert}
use cirrus.Floats.{Floats}
use cirrus.Vector.{at-in, update-in}
use cirrus.SparseMf.{
  SparseMf, max_items, item_or_empty, item_model, get_user_weight, get_item_weight, predict_loop,
  predict,
}
use cirrus.SparseMf.Minibatch.{change, set_user, set_item, user_loop}
use cirrus.SparseMf.Minibatch.Keys.{get_or-All, set-All}

module _ {F D : Type 0} (fl : Floats F D) where
  -- Each user of the minibatch has all factors.
  pub record IsWhole (m : SparseMf F) : Type 0 where
    pub ten : m.factors ≡ 10
    pub rows : All (λ (u : ℕ × F × List F). length u.2 ≡ 10) m.users

  -- An item whose row is there, with all factors.
  abbrev pub IsKnown : SparseMf F → ℕ → Type 0
  IsKnown m item = (item < max_items) × (length (item_or_empty fl (lookup item m.items)).1 ≡ 10)

  -- The users are as many as before, and no row is lost.
  pub record Keeps (m m' : SparseMf F) : Type 0 where
    pub whole : IsWhole m'
    pub as_many : length m'.users ≡ length m.users
    pub known : (item : ℕ) → IsKnown m item → IsKnown m' item

  pub Keeps-trans : {m m' m'' : SparseMf F} → Keeps m m' → Keeps m' m'' → Keeps m m''
  Keeps-trans k k' = record {
    whole = k'.whole;
    as_many = k'.as_many ∙ k.as_many;
    known = λ item h. k'.known item (k.known item h);
  }

  pub Keeps-refl : {m : SparseMf F} → IsWhole m → Keeps m m
  Keeps-refl w = record { whole = w; as_many = refl; known = λ item h. h }

  pub set_user-Keeps :
      (m : SparseMf F) (user : ℕ) (row : ℕ × F × List F)
      → IsWhole m
      → length row.2 ≡ 10
      → Keeps m (set_user fl user row m)
  unfolding set_user
  set_user-Keeps m user row w full = record {
    whole = record {
      ten = w.ten;
      rows = set-All (λ u. length u.2 ≡ 10) m.users user row full w.rows;
    };
    as_many = length-set m.users user row;
    known = λ item h. h;
  }

  pub set_item-Keeps :
      (m : SparseMf F) (item : ℕ) (row : F × List F)
      → IsWhole m
      → length row.1 ≡ 10
      → Keeps m (set_item fl item row m)
  unfolding set_item item_or_empty
  set_item-Keeps m item row w full = record {
    whole = record { ten = w.ten; rows = w.rows };
    as_many = refl;
    known = λ other h. (
      h.0,
      elim (Bool-cases (item == other)) [
        | inl same ↦ rw (lookup-insert item other row m.items, same) full
        | inr different ↦ rw (lookup-insert item other row m.items, different) h.1
      ],
    );
  }

  pub item_model-known :
      (m : SparseMf F) (item : ℕ)
      → IsKnown m item
      → item_model fl m item ≡ ok (item_or_empty fl (lookup item m.items))
  unfolding item_model
  item_model-known m item h =
      let inside : ltb item max_items ≡ true = ground arith in rw inside refl

  module _ (d : F) where
    abbrev pub no_user : ℕ × F × List F
    no_user = (0, d, [])

    pub get_item_weight-known :
        (m : SparseMf F) (item k : ℕ)
        → IsKnown m item
        → k < 10
        → (w : F) × (get_item_weight fl m item k ≡ ok w)
    unfolding get_item_weight
    get_item_weight-known m item k h small =
        let row = item_or_empty fl (lookup item m.items) in
        (get_or row.1 k d, rw (item_model-known m item h) (at-in row.1 k d (omega (arith, h.1))))

    pub get_user_weight-whole :
        (m : SparseMf F) (user k : ℕ)
        → IsWhole m
        → user < length m.users
        → k < 10
        → (w : F) × (get_user_weight fl m user k ≡ ok w)
    unfolding get_user_weight
    get_user_weight-whole m user k w inside small =
        let row = get_or m.users user no_user in
        let full : length row.2 ≡ 10 =
          get_or-All (λ u. length u.2 ≡ 10) m.users user no_user inside w.rows in
        (get_or row.2 k d, rw (at-in m.users user no_user inside) (at-in row.2 k d (omega arith)))

    predict_loop-returns :
        (m : SparseMf F) (user item k n : ℕ) (res : F)
        → IsWhole m
        → user < length m.users
        → IsKnown m item
        → k + n ≤ 10
        → (x : F) × (predict_loop fl m user item k n res ≡ ok x)
    unfolding predict_loop
    predict_loop-returns m user item k zero res w inside h small = (res, refl)
    predict_loop-returns m user item k (suc n) res w inside h small =
        let (u, e) = get_user_weight-whole m user k w inside (omega arith) in
        let (i, e') = get_item_weight-known m item k h (omega arith) in
        let (x, same) =
          predict_loop-returns m user item (suc k) n (fl.add_float res (fl.mul_float u i)) w inside
            h (omega arith) in
        (x, rw (e, e') same)

    pub predict-returns :
        (m : SparseMf F) (user item : ℕ)
        → IsWhole m
        → user < length m.users
        → IsKnown m item
        → (x : F) × (predict fl m user item ≡ ok x)
    unfolding predict
    predict-returns m user item w inside h =
        let row = get_or m.users user no_user in
        let item_row = item_or_empty fl (lookup item m.items) in
        let start = fl.add_float (fl.add_float m.global_bias row.1) item_row.0 in
        let (x, e) =
          predict_loop-returns m user item 0 m.factors start w inside h (omega (arith, w.ten)) in
        (x, rw (at-in m.users user no_user inside, item_model-known m item h) e)

    pub user_loop-returns :
        (rate error : F) (user item k n : ℕ) (m : SparseMf F) (sums : List F)
        → IsWhole m
        → user < length m.users
        → IsKnown m item
        → length sums ≡ 10
        → k + n ≤ 10
        → (m' : SparseMf F) × (sums' : List F) × (user_loop fl rate error user item k n m sums
            ≡ ok (m', sums'))
          × Keeps m m'
          × (length sums' ≡ 10)
    unfolding user_loop
    user_loop-returns rate error user item k zero m sums w inside h ten small =
        (m, sums, refl, Keeps-refl w, ten)
    user_loop-returns rate error user item k (suc n) m sums w inside h ten small =
        let (i, e) = get_item_weight-known m item k h (omega arith) in
        let (u, e') = get_user_weight-whole m user k w inside (omega arith) in
        let delta = change fl rate error i u in
        let add : F → F = λ s. fl.add_float s delta in
        let sums' = set sums k (add (get_or sums k d)) in
        let row = get_or m.users user no_user in
        let full : length row.2 ≡ 10 =
          get_or-All (λ u. length u.2 ≡ 10) m.users user no_user inside w.rows in
        let weights = set row.2 k (add (get_or row.2 k d)) in
        let row' : ℕ × F × List F = (row.0, row.1, weights) in
        let l : length weights ≡ 10 = length-set row.2 k _ ∙ full in
        let kept = set_user-Keeps m user row' w l in
        let more = kept.as_many in
        let (m', sums'', same, kept', ten') =
          user_loop-returns rate error user item (suc k) n (set_user fl user row' m) sums'
            kept.whole (omega arith) (kept.known item h) (length-set sums k _ ∙ ten)
            (omega arith) in
        (
          m',
          sums'',
          rw
              (
                e,
                e',
                update-in sums k add d (omega arith),
                at-in m.users user no_user inside,
                update-in row.2 k add d (omega arith),
              )
              same,
          Keeps-trans kept kept',
          ten',
        )
