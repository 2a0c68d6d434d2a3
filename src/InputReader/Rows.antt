-- ===== src/InputReader/Rows.antt =====
-- The features that src/InputReader.cpp counts on a line, and the ratings that it standardizes.
use cirrus.Prelude.{
  ℕ, zero, suc, ◌+◌, ◌%◌, ◌≤◌, ◌≡◌, refl, ap, true, List, [], ◌∷◌, map, length, arith, ltb, leb,
  ◌==◌, Bool-cases, ◌⊎◌, inl, inr,
}
use cirrus.Floats.{Floats}
use cirrus.InputReader.{
  count_feature, criteo_columns, compute_mean, compute_stddev, standardize_row,
}

abbrev pub counted : List (ℕ × ℕ) → ℕ
counted [] = 0
counted ((key, n) ∷ features) = n + counted features

pub counted-count_feature :
    (hash : ℕ) (features : List (ℕ × ℕ))
    → counted (count_feature hash features) ≡ suc (counted features)
unfolding count_feature
counted-count_feature hash [] = refl
counted-count_feature hash ((key, n) ∷ features) =
    ground (arith, counted-count_feature hash features)

-- Keys in order, each of them above `low`.
abbrev pub Ascends : ℕ → List (ℕ × ℕ) → Type 0
Ascends low [] = Unit {0}
Ascends low ((key, n) ∷ features) = (low ≤ key) × Ascends (suc key) features

pub count_feature-Ascends :
    (hash low : ℕ) (features : List (ℕ × ℕ))
    → low ≤ hash
    → Ascends low features
    → Ascends low (count_feature hash features)
unfolding count_feature
count_feature-Ascends hash low [] h a = (h, tt)
count_feature-Ascends hash low ((key, n) ∷ features) h (first, rest) =
    elim (Bool-cases (hash == key)) [
      | inl same ↦ rw same (first, rest)
      | inr differ ↦ elim (Bool-cases (ltb hash key)) [
        | inl below ↦
            let under : suc hash ≤ key = ground arith in rw (differ, below) (h, (under, rest))
        | inr above ↦
            let over : suc key ≤ hash = ground arith in
            rw (differ, above) (first, count_feature-Ascends hash (suc key) features over rest)
      ]
    ]

-- The categorical columns from `col` on are counted, each once, and the hashes are in order.
pub criteo_columns-counted :
    {F : Type 0} (to_float : List ℕ → F) (hash_f : List ℕ → ℕ) (size col : ℕ)
    (fields : List (List ℕ)) (label : F) (features : List (ℕ × ℕ))
    → 14 ≤ col
    → Ascends 0 features
    → let found = criteo_columns to_float hash_f size col fields (label, features) in
      (found.0 ≡ label) × (counted found.1 ≡ counted features + length fields) × Ascends 0 found.1
unfolding criteo_columns
criteo_columns-counted to_float hash_f size zero fields label features late a = absurd (omega arith)
criteo_columns-counted to_float hash_f size (suc col) [] label features late a =
    (refl, omega arith, a)
criteo_columns-counted to_float hash_f size (suc col) (field ∷ fields) label features late a =
    let categorical : leb 14 (suc col) ≡ true = ground arith in
    let hash = hash_f field % size in
    let one_more = counted-count_feature hash features in
    let (same, all, sorted) =
      criteo_columns-counted to_float hash_f size (suc (suc col)) fields label
        (count_feature hash features) (omega arith)
        (count_feature-Ascends hash 0 features (omega arith) a) in
    rw (categorical, criteo_columns) (same, omega (arith, all, one_more), sorted)

module _ {F D : Type 0} (fl : Floats F D) (sqrt : D → D) where
  -- A user keeps all items, or loses all when the deviation is 0.
  pub standardize_row-items :
      (r : ℕ × F) (row : List (ℕ × F))
      → let deviation = compute_stddev fl sqrt (compute_mean fl (r ∷ row)) (r ∷ row) in
        ((fl.same deviation fl.nought ≡ true) × (standardize_row fl sqrt (r ∷ row) ≡ []))
        ⊎ (map (λ (p : ℕ × F). p.0) (standardize_row fl sqrt (r ∷ row))
            ≡ map (λ (p : ℕ × F). p.0) (r ∷ row))
  unfolding standardize_row
  standardize_row-items r row =
      let mean = compute_mean fl (r ∷ row) in
      let deviation = compute_stddev fl sqrt mean (r ∷ row) in
      elim (Bool-cases (fl.same deviation fl.nought)) [
        | inl same ↦ inl (same, rw same refl)
        | inr differ ↦ inr (
            rw differ (
              ap (λ xs. r.0 ∷ xs)
                (items (λ v. fl.narrow (fl.div (fl.sub (fl.widen v.1) mean) deviation)) row)))
      ]
    where
      items :
          (f : ℕ × F → F) (ps : List (ℕ × F))
          → map (λ (p : ℕ × F). p.0) (map (λ (v : ℕ × F). (v.0, f v)) ps)
            ≡ map (λ (p : ℕ × F). p.0) ps
      items f [] = refl
      items f (p ∷ ps) = ap (λ xs. p.0 ∷ xs) (items f ps)
