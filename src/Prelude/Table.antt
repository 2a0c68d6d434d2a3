-- ===== src/Prelude/Table.antt =====
-- Maps (`std::map`, `std::unordered_map`) as association lists with one entry for each key.
use mathlib.Core.Path.{◌≡◌, refl, ◌∙◌}
use mathlib.Core.Bool.{true}
use mathlib.Core.Option.{Option, none, some}
use mathlib.Core.List.{List, [], ◌∷◌}
use native.Mathlib.Omega.{arith}
use cirrus.Prelude.Tests.{Key, if◌then◌else◌}

pub same_key_refl {κ} : {K : Type κ} ⦃key : Key K⦄ (k : K) → key.same_key k k ≡ true
same_key_refl ⦃key⦄ k = (key.same_key_iff k k).1 refl

module _ {K V : Type 0} ⦃key : Key K⦄ where
  unfoldable pub lookup : (want : K) → (entries : List (K × V)) → Option V
  lookup want [] = none
  lookup want (entry ∷ rest) = if key.same_key entry.0 want then some entry.1 else lookup want rest

  -- `m[k] = v`
  unfoldable pub insert : (new : K) → (value : V) → (entries : List (K × V)) → List (K × V)
  insert new value [] = (new, value) ∷ []
  insert new value (entry ∷ rest) =
      if key.same_key entry.0 new then (new, value) ∷ rest else entry ∷ insert new value rest

  unfoldable pub erase : (old : K) → (entries : List (K × V)) → List (K × V)
  erase old [] = []
  erase old (entry ∷ rest) =
      if key.same_key entry.0 old then erase old rest else entry ∷ erase old rest

  pub lookup-insert :
      (new want : K) (value : V) (entries : List (K × V))
      → lookup want (insert new value entries)
        ≡ (if key.same_key new want then some value else lookup want entries)
  unfolding lookup insert
  lookup-insert new want value [] = refl
  lookup-insert new want value (entry ∷ rest) = ground (
    arith,
    lookup-insert new want value rest,
    key.same_key_iff new want,
    key.same_key_iff entry.0 new,
    key.same_key_iff entry.0 want,
  )

  pub lookup-erase :
      (old want : K) (entries : List (K × V))
      → lookup want (erase old entries)
        ≡ (if key.same_key old want then none else lookup want entries)
  unfolding lookup erase
  lookup-erase old want [] = ground arith
  lookup-erase old want (entry ∷ rest) = ground (
    arith,
    lookup-erase old want rest,
    key.same_key_iff old want,
    key.same_key_iff entry.0 old,
    key.same_key_iff entry.0 want,
  )

  -- The value that is there already.
  pub lookup-insert_same :
      (old want : K) (value : V) (entries : List (K × V))
      → lookup old entries ≡ some value
      → lookup want (insert old value entries) ≡ lookup want entries
  lookup-insert_same old want value entries there =
      lookup-insert old want value entries ∙ ground (arith, key.same_key_iff old want, there)
