-- ===== src/SparseMf/Minibatch/Gradient.antt =====
-- The gradient of `minibatch_grad` (src/SparseMFModel.cpp), as its serialization wants it.
use cirrus.Prelude.{
  ℕ, suc, ◌+◌, ◌%◌, ◌^◌, ◌<◌, ◌≤◌, ◌≡◌, refl, ◌∙◌, sym, ap, List, [], ◌∷◌, ◌++◌, length, replicate,
  All, length-replicate, length-append, arith, number_key,
}
use cirrus.Prelude.Result.{ok}
use cirrus.Prelude.Table.{insert}
use cirrus.Floats.{Floats}
use cirrus.Configuration.{Configuration}
use cirrus.Configuration.Getters.{get_learning_rate}
use cirrus.Gradient.MfSparse.{MfSparseGradient, num_factors}
use cirrus.Gradient.MfSparse.RoundTrip.{Distinct}
use cirrus.SparseMf.{SparseMf, max_items}
use cirrus.SparseLr.Dense.Names.{Names, NamesAll, Names-map, NamesAll-map}
use cirrus.SparseMf.Minibatch.{zero_float, Training, rate_items, rate_users, minibatch_grad}
use cirrus.SparseMf.Minibatch.Keys.{
  keys, add_key, keys-insert, add_key_idem, add_key-above, length-keys, insert-Distinct,
}
use cirrus.SparseMf.Minibatch.Room.{room-empty}
use cirrus.SparseMf.Minibatch.Steps.{IsWhole, IsKnown, Keeps, Keeps-trans, Keeps-refl}
use cirrus.SparseMf.Minibatch.Rows.{IsSummed, IsTrained, rate_item-returns, nothing_before}

append-All : {A : Type 0} (P : A → Type 0) (xs ys : List A) → All P xs → All P ys → All P (xs ++ ys)
append-All P [] ys ps qs = qs
append-All P (x ∷ xs) ys (p, ps) qs = (p, append-All P xs ys ps qs)

pub map-All :
    {A : Type 0} (P Q : A → Type 0) (xs : List A) → ((x : A) → P x → Q x) → All P xs → All Q xs
map-All P Q [] f ps = tt
map-All P Q (x ∷ xs) f (p, ps) = (f x p, map-All P Q xs f ps)

keys-append :
    {V : Type 0} (t : List (ℕ × V)) (k : ℕ) (v : V) → keys (t ++ ((k, v) ∷ [])) ≡ keys t ++ (k ∷ [])
keys-append [] k v = refl
keys-append ((j, w) ∷ t) k v = ap (◌∷◌ j) (keys-append t k v)

pub keys-All :
    {V : Type 0} (P : ℕ → Type 0) (t : List (ℕ × V)) → All (λ p. P p.0) t → All P (keys t)
keys-All P [] ps = tt
keys-All P ((k, v) ∷ t) (p, ps) = (p, keys-All P t ps)

pub All-keys :
    {V : Type 0} (P : ℕ → Type 0) (t : List (ℕ × V)) → All P (keys t) → All (λ p. P p.0) t
All-keys P [] ps = tt
All-keys P ((k, v) ∷ t) (p, ps) = (p, All-keys P t ps)

module _ {F D : Type 0} (fl : Floats F D) (d : F) (P : ℕ → Type 0) where
  -- An item that the model has, and that has the property.
  abbrev pub IsRated : SparseMf F → ℕ → Type 0
  IsRated m item = IsKnown fl m item × P item

  rate_items-returns :
      (rate : F) (id user : ℕ) (ids : List ℕ) (row : List (ℕ × F)) (sums : List F) (t : Training F)
      → IsTrained fl d P t
      → user < length t.model.users
      → length t.model.users < 2 ^ 31
      → Names (IsRated t.model) row
      → length sums ≡ 10
      → keys t.users_bias ≡ add_key id ids
      → (sums' : List F) × (t' : Training F) × (rate_items fl rate id user row sums t
          ≡ ok (sums', t'))
        × IsTrained fl d P t'
        × Keeps fl t.model t'.model
        × (length sums' ≡ 10)
        × (keys t'.users_bias ≡ add_key id ids)
  unfolding rate_items
  rate_items-returns rate id user ids [] sums t h inside few named ten e =
      (sums, t, refl, h, Keeps-refl fl h.whole, ten, e)
  rate_items-returns rate id user ids ((index, rating) ∷ row) sums t h inside few (known, named) ten
        e =
      let (sums₁, t₁, run, h₁, kept, ten₁, e₁) =
        rate_item-returns fl d P rate id user index rating sums t h inside few known.0 known.1
          ten in
      let users = kept.as_many in
      let named₁ : Names (IsRated t₁.model) row =
        Names-map (IsRated t.model) (IsRated t₁.model) row (λ i k. (kept.known i k.0, k.1)) named in
      let (sums₂, t₂, run₂, h₂, kept₂, ten₂, e₂) =
        rate_items-returns rate id user ids row sums₁ t₁ h₁ (omega arith) (omega arith) named₁ ten₁
          (e₁ ∙ ap (add_key id) e ∙ add_key_idem id ids) in
      (sums₂, t₂, rw run run₂, h₂, Keeps-trans fl kept kept₂, ten₂, e₂)

  -- The round of one user, from what its ratings do.
  rate_users-parts :
      (rate : F) (base user id : ℕ) (row : List (ℕ × F)) (rows : List (List (ℕ × F)))
      (done : List (ℕ × List F)) (t : Training F) (sums : List F) (t₁ : Training F)
      (result : List (ℕ × List F) × Training F)
      → (base + user) % 2 ^ 32 ≡ id
      → rate_items fl rate id user row
          (replicate num_factors (zero_float fl))
          (record t { users_bias = insert id (zero_float fl) t.users_bias })
        ≡ ok (sums, t₁)
      → rate_users fl rate base (suc user) rows (done ++ ((id, sums) ∷ [])) t₁ ≡ ok result
      → rate_users fl rate base user (row ∷ rows) done t ≡ ok result
  unfolding rate_users
  rate_users-parts rate base user id row rows done t sums t₁ result e run rest = rw (e, run) rest

  rate_users-returns :
      (rate : F) (base user : ℕ) (rows : List (List (ℕ × F))) (done : List (ℕ × List F))
      (t : Training F)
      → IsTrained fl d P t
      → user + length rows ≤ length t.model.users
      → base + length t.model.users < 2 ^ 31
      → NamesAll (IsRated t.model) rows
      → keys t.users_bias ≡ keys done
      → All (IsSummed (λ j. j < base + user)) done
      → (done' : List (ℕ × List F)) × (t' : Training F) × (rate_users fl rate base user rows done t
          ≡ ok (done', t'))
        × IsTrained fl d P t'
        × (keys t'.users_bias ≡ keys done')
        × (length done' ≡ length done + length rows)
        × All (IsSummed (λ j. j < base + user + length rows)) done'
  unfolding rate_users
  rate_users-returns rate base user [] done t h fits few named e ps = (
    done,
    t,
    refl,
    h,
    e,
    omega arith,
    map-All (IsSummed (λ j. j < base + user)) (IsSummed (λ j. j < base + user + 0)) done
        (λ x p. (omega (arith, p.0), p.1)) ps,
  )
  rate_users-returns rate base user (row ∷ rows) done t h fits few (named, rest) e ps =
      let id = base + user in
      let same : (base + user) % 2 ^ 32 ≡ id = omega arith in
      let start : Training F = record t { users_bias = insert id (zero_float fl) t.users_bias } in
      let h₀ : IsTrained fl d P start = record {
        whole = h.whole;
        item_keys = h.item_keys;
        summed = h.summed;
        items_named = h.items_named;
        items_distinct = h.items_distinct;
        users_distinct =
            insert-Distinct id (zero_float fl) [] t.users_bias (nothing_before fl d P id)
              h.users_distinct;
        room = h.room;
      } in
      let (sums, t₁, run, h₁, kept, ten, e₁) =
        rate_items-returns rate id user (keys done) row (replicate num_factors (zero_float fl))
          start h₀ (omega arith) (omega arith) named (length-replicate 10 (zero_float fl))
          (keys-insert id (zero_float fl) t.users_bias ∙ ap (add_key id) e) in
      let below : All (λ j. j < id) (keys done) =
        keys-All (λ j. j < id) done
          (map-All (IsSummed (λ j. j < id)) (λ p. p.0 < id) done (λ x p. p.0) ps) in
      let e₂ : keys t₁.users_bias ≡ keys (done ++ ((id, sums) ∷ [])) =
        e₁ ∙ add_key-above id (keys done) below ∙ sym (keys-append done id sums) in
      let users = kept.as_many in
      let rest₁ : NamesAll (IsRated t₁.model) rows =
        NamesAll-map (IsRated t.model) (IsRated t₁.model) rows (λ i k. (kept.known i k.0, k.1))
          rest in
      let ps₁ : All (IsSummed (λ j. j < base + suc user)) (done ++ ((id, sums) ∷ [])) =
        append-All (IsSummed (λ j. j < base + suc user)) done ((id, sums) ∷ [])
          (map-All (IsSummed (λ j. j < base + user)) (IsSummed (λ j. j < base + suc user)) done
            (λ x p. (omega (arith, p.0), p.1)) ps)
          ((omega arith, ten), tt) in
      let (done', t', run', h', e', l, ps') =
        rate_users-returns rate base (suc user) rows (done ++ ((id, sums) ∷ [])) t₁ h₁ (omega arith)
          (omega arith) rest₁ e₂ ps₁ in
      let longer = length-append done ((id, sums) ∷ []) in
      (
        done',
        t',
        rate_users-parts rate base user id row rows done t sums t₁ (done', t') same run run',
        h',
        e',
        omega arith,
        map-All (IsSummed (λ j. j < base + suc user + length rows))
            (IsSummed (λ j. j < base + user + suc (length rows))) done'
            (λ x p. (omega (arith, p.0), p.1)) ps',
      )

  fresh-IsTrained :
      (m : SparseMf F)
      → IsWhole fl m
      → IsTrained fl d P (record { model = m; users_bias = []; items_bias = []; item_grads = [] })
  fresh-IsTrained m w = record {
    whole = w;
    item_keys = refl;
    summed = tt;
    items_named = tt;
    items_distinct = tt;
    users_distinct = tt;
    room = omega (arith, room-empty max_items);
  }

  -- What minibatch_grad returns, with what is known of it.
  pub minibatch_grad-returns :
      (config : Configuration D) (rate : D) (base : ℕ) (rows : List (List (ℕ × F))) (m : SparseMf F)
      → get_learning_rate fl config ≡ ok rate
      → IsWhole fl m
      → length rows ≤ length m.users
      → base + length m.users < 2 ^ 31
      → NamesAll (IsRated m) rows
      → (g : MfSparseGradient F) × (m' : SparseMf F) × (minibatch_grad fl config base rows m
          ≡ ok (g, m'))
        × (keys g.users_bias ≡ keys g.users_weights)
        × (keys g.items_bias ≡ keys g.items_weights)
        × (length g.users_weights ≡ length rows)
        × (length g.items_bias ≤ max_items)
        × All (IsSummed (λ j. j < base + length rows)) g.users_weights
        × All (IsSummed P) g.items_weights
        × Distinct [] g.users_bias
        × Distinct [] g.items_bias
  unfolding minibatch_grad
  minibatch_grad-returns config rate base rows m known w fits few named =
      let fresh : Training F = record {
        model = m;
        users_bias = [];
        items_bias = [];
        item_grads = [];
      } in
      let (users, t, run, h, e, l, ps) =
        rate_users-returns (fl.narrow rate) base 0 rows [] fresh (fresh-IsTrained m w) (omega arith)
          few named refl tt in
      let same = length-keys t.items_bias in
      let room = h.room in
      (
        record {
          users_bias = t.users_bias;
          items_bias = t.items_bias;
          users_weights = users;
          items_weights = t.item_grads;
        },
        t.model,
        rw (known, run) refl,
        e,
        h.item_keys,
        omega arith,
        omega arith,
        map-All (IsSummed (λ j. j < base + 0 + length rows))
            (IsSummed (λ j. j < base + length rows)) users (λ x p. (omega (arith, p.0), p.1)) ps,
        h.summed,
        h.users_distinct,
        h.items_distinct,
      )
