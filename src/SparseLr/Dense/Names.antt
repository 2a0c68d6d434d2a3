-- ===== src/SparseLr/Dense/Names.antt =====
-- Rows of index-value pairs of src/SparseLRModel.cpp by the indices that they name.
use cirrus.Prelude.{ℕ, ◌^◌, ◌<◌, ◌≡◌, ◌≢◌, false, List, [], ◌∷◌, All, has, arith}
use cirrus.Bytes.{sign_extend}
use cirrus.SparseLr.Minibatch.{row_indices, unique_indices}
use cirrus.Optimizer.Frame.{Avoids}

-- An index of a model of `n` weights.
abbrev pub IsIndex : ℕ → ℕ → Type 0
IsIndex n index = (index < 2 ^ 31) × (index < n)

abbrev pub Names : {F : Type 0} → (ℕ → Type 0) → List (ℕ × F) → Type 0
Names P row = All (λ p. P p.0) row

abbrev pub NamesAll : {F : Type 0} → (ℕ → Type 0) → List (List (ℕ × F)) → Type 0
NamesAll P rows = All (Names P) rows

pub index_extend : (n index : ℕ) → IsIndex n index → sign_extend index ≡ index
index_extend n index h = ground arith

-- A sample that is not to name `j`.
pub row_avoids :
    {F : Type 0} (row : List (ℕ × F)) (ids : List ℕ) (j : ℕ)
    → has (row_indices row ids) j ≡ false
    → Names (λ i. i ≢ j) row × (has ids j ≡ false)
row_avoids [] ids j h = (tt, h)
row_avoids ((index, value) ∷ row) ids j h =
    let (rest, out) = row_avoids row ids j (ground arith) in ((ground arith, rest), out)

pub rows_avoid :
    {F : Type 0} (rows : List (List (ℕ × F))) (j : ℕ)
    → has (unique_indices rows) j ≡ false
    → NamesAll (λ i. i ≢ j) rows
rows_avoid [] j h = tt
rows_avoid (row ∷ rows) j h =
    let (here, out) = row_avoids row (unique_indices rows) j h in (here, rows_avoid rows j out)

-- What holds under a hypothesis holds of each index under it.
pub row_under :
    {F : Type 0} (H : Type 0) (Q : ℕ → Type 0) (row : List (ℕ × F))
    → (H → Names Q row)
    → Names (λ i. H → Q i) row
row_under H Q [] given = tt
row_under H Q (p ∷ row) given = (λ h. (given h).0, row_under H Q row (λ h. (given h).1))

pub rows_under :
    {F : Type 0} (H : Type 0) (Q : ℕ → Type 0) (rows : List (List (ℕ × F)))
    → (H → NamesAll Q rows)
    → NamesAll (λ i. H → Q i) rows
rows_under H Q [] given = tt
rows_under H Q (row ∷ rows) given =
    (row_under H Q row (λ h. (given h).0), rows_under H Q rows (λ h. (given h).1))

pub row_both :
    {F : Type 0} (P Q : ℕ → Type 0) (row : List (ℕ × F))
    → Names P row
    → Names Q row
    → Names (λ i. P i × Q i) row
row_both P Q [] ps qs = tt
row_both P Q (p ∷ row) (h, hs) (k, ks) = ((h, k), row_both P Q row hs ks)

pub rows_both :
    {F : Type 0} (P Q : ℕ → Type 0) (rows : List (List (ℕ × F)))
    → NamesAll P rows
    → NamesAll Q rows
    → NamesAll (λ i. P i × Q i) rows
rows_both P Q [] ps qs = tt
rows_both P Q (row ∷ rows) (h, hs) (k, ks) = (row_both P Q row h k, rows_both P Q rows hs ks)

pub firsts :
    {F : Type 0} (n : ℕ) (Q : ℕ → Type 0) (row : List (ℕ × F))
    → Names (λ i. IsIndex n i × Q i) row
    → Names (IsIndex n) row
firsts n Q [] ps = tt
firsts n Q (p ∷ row) (h, hs) = (h.0, firsts n Q row hs)

pub gradient-Avoids :
    {F : Type 0} (n j : ℕ) (H : Type 0) (g : List (ℕ × F))
    → Names (λ i. IsIndex n i × (H → i ≢ j)) g
    → H
    → Avoids j g
gradient-Avoids n j H [] ps h = tt
gradient-Avoids n j H ((index, value) ∷ g) ((p, avoid), ps) h =
    (rw (index_extend n index p) (avoid h), gradient-Avoids n j H g ps h)

pub Names-map :
    {F : Type 0} (P Q : ℕ → Type 0) (row : List (ℕ × F))
    → ((i : ℕ) → P i → Q i)
    → Names P row
    → Names Q row
Names-map P Q [] f ps = tt
Names-map P Q ((index, value) ∷ row) f (p, ps) = (f index p, Names-map P Q row f ps)

pub NamesAll-map :
    {F : Type 0} (P Q : ℕ → Type 0) (rows : List (List (ℕ × F)))
    → ((i : ℕ) → P i → Q i)
    → NamesAll P rows
    → NamesAll Q rows
NamesAll-map P Q [] f ps = tt
NamesAll-map P Q (row ∷ rows) f (p, ps) = (Names-map P Q row f p, NamesAll-map P Q rows f ps)
