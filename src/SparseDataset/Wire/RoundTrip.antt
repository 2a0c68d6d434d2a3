-- ===== src/SparseDataset/Wire/RoundTrip.antt =====
-- The S3 object of a range of samples (src/SparseDataset.cpp): building and reading.
use native.Mathlib.Numerals.{add-one}
use cirrus.Prelude.{
  ℕ, zero, suc, ◌+◌, ◌-◌, ◌*◌, ◌^◌, ◌≤◌, ◌<◌, ◌≡◌, refl, Bool, true, false, none, some, List, [],
  ◌∷◌, arith, ap, ap₂, ◌∙◌, length, take, drop, All, if◌then◌else◌, ltb,
}
use cirrus.Prelude.Result.{ok}
use cirrus.Floats.{Floats, IsExact}
use cirrus.Bytes.{store_u32, store_list, store_pair, load_pair, is_negative}
use cirrus.Bytes.Laws.{
  load_u32-store_u32, load_u32-store_u32_mod, length-store_u32, load_list-store_list,
  length-store_list, length-store_float, length-store_pair, load_pair-store_pair,
  load_float-store_float,
}
use cirrus.SparseDataset.{SparseDataset, at, is_zero_or_one}
use cirrus.SparseDataset.Wire.{
  Sample, labels_of, rows_of, entries, collect, object_size, store_sample, build_serialized_s3_obj,
  load_row, load_sample, from_s3,
}

-- Inside a vector, `at` gives the element at which the rest of the vector begins.
at-drop {ℓ κ} :
    {A : Type ℓ} (P : A → Type κ) (xs : List A) (i : ℕ)
    → All P xs
    → i < length xs
    → (x : A) × (at xs i ≡ ok x) × P x × (drop i xs ≡ x ∷ drop (suc i) xs)
unfolding at
at-drop P [] i h lt = absurd (omega arith)
at-drop P (x ∷ xs) zero (h, hs) lt = (x, refl, h, refl)
at-drop P (x ∷ xs) (suc i) (h, hs) lt = at-drop P xs i hs (omega arith)

module _ {F D : Type 0} (fl : Floats F D) where
  abbrev pub IsRow : List (ℕ × F) → Type 0
  IsRow row = (length row ≤ 1_000_000) × All (λ p. p.0 < 2 ^ 32) row

  abbrev pub IsLabel : F → Type 0
  IsLabel l = is_zero_or_one fl l ≡ true

  abbrev IsStorable : Bool → Sample F → Type 0
  IsStorable false (none, row) = IsRow row
  IsStorable false (some l, row) = ⊥
  IsStorable true (none, row) = ⊥
  IsStorable true (some l, row) = IsLabel l × IsRow row

  load_row-store_row :
      (exact : IsExact fl) (row : List (ℕ × F)) (rest : List ℕ)
      → IsRow row
      → load_row fl (store_u32 (length row) (store_list (store_pair fl) row rest)) ≡ ok (row, rest)
  unfolding load_row
  load_row-store_row exact row rest (few, small) =
      let positive : is_negative (length row) ≡ false = ground arith in
      let under : ltb 1_000_000 (length row) ≡ false = ground arith in
      rw
        (
          load_u32-store_u32 (length row) (store_list (store_pair fl) row rest) (omega arith),
          positive,
          under,
        )
        (load_list-store_list (λ p. p.0 < 2 ^ 32) (store_pair fl) (load_pair fl)
          (load_pair-store_pair fl exact) row rest small)

  load_sample-store_sample :
      (exact : IsExact fl) (b : Bool) (s : Sample F) (rest : List ℕ)
      → IsStorable b s
      → load_sample fl b (store_sample fl s rest) ≡ ok (s, rest)
  unfolding load_sample store_sample
  load_sample-store_sample exact false (none, row) rest h =
      rw (load_row-store_row exact row rest h) refl
  load_sample-store_sample exact false (some l, row) rest h = absurd h
  load_sample-store_sample exact true (none, row) rest h = absurd h
  load_sample-store_sample exact true (some l, row) rest (label, h) =
      rw
        (
          load_float-store_float fl exact l
              (store_u32 (length row) (store_list (store_pair fl) row rest)),
          label,
          load_row-store_row exact row rest h,
        )
        refl

  length-store_samples :
      (b : Bool) (ss : List (Sample F)) (rest : List ℕ)
      → All (IsStorable b) ss
      → length (store_list (store_sample fl) ss rest)
        ≡ entries ss * 8 + length ss * ((if b then 4 else 0) + 4) + length rest
  unfolding store_list store_sample
  length-store_samples b [] rest h = omega arith
  length-store_samples false ((none, row) ∷ ss) rest (h, hs) =
      let tail = store_list (store_sample fl) ss rest in
      omega (
        arith,
        length-store_u32 (length row) (store_list (store_pair fl) row tail),
        length-store_list 8 (store_pair fl) (length-store_pair fl) row tail,
        length-store_samples false ss rest hs,
      )
  length-store_samples false ((some l, row) ∷ ss) rest (h, hs) = absurd h
  length-store_samples true ((none, row) ∷ ss) rest (h, hs) = absurd h
  length-store_samples true ((some l, row) ∷ ss) rest (h, hs) =
      let tail = store_list (store_sample fl) ss rest in
      omega (
        arith,
        length-store_float fl l (store_u32 (length row) (store_list (store_pair fl) row tail)),
        length-store_u32 (length row) (store_list (store_pair fl) row tail),
        length-store_list 8 (store_pair fl) (length-store_pair fl) row tail,
        length-store_samples true ss rest hs,
      )

  -- What is read back: the samples, and the labels if they are stored.
  abbrev pub slice : SparseDataset F → Bool → ℕ → ℕ → SparseDataset F
  slice ds b n i = record {
    samples = take n (drop i ds.samples);
    labels = (if b then take n (drop i ds.labels) else []);
  }

  pub record IsValid (ds : SparseDataset F) (b : Bool) (r : ℕ) : Type 0 where
    pub rows : All IsRow ds.samples
    pub enough : r ≤ length ds.samples
    pub labels : b ≡ true → All IsLabel ds.labels × (r ≤ length ds.labels)

  collect-slice :
      (ds : SparseDataset F) (b : Bool) (r n i : ℕ)
      → IsValid ds b r
      → i + n ≤ r
      → (ss : List (Sample F)) × (collect ds b n i ≡ ok ss)
        × All (IsStorable b) ss
        × (length ss ≡ n)
        × (rows_of ss ≡ take n (drop i ds.samples))
        × (labels_of ss ≡ (if b then take n (drop i ds.labels) else []))
  unfolding collect
  collect-slice ds false r zero i v h = ([], refl, tt, refl, refl, refl)
  collect-slice ds true r zero i v h = ([], refl, tt, refl, refl, refl)
  collect-slice ds false r (suc n) i v h =
      let (row, found, good, here) = at-drop IsRow ds.samples i v.rows (omega (arith, v.enough)) in
      let (ss, got, all, count, rows, labels) =
        collect-slice ds false r n (i + 1) v (omega arith) in
      (
        (none, row) ∷ ss,
        rw (found, got) refl,
        (good, all),
        ap suc count,
        rw (here, rows, add-one i) refl,
        labels,
      )
  collect-slice ds true r (suc n) i v h =
      let (good_labels, enough) = v.labels refl in
      let (row, found, good, here) = at-drop IsRow ds.samples i v.rows (omega (arith, v.enough)) in
      let (label, found', good', here') = at-drop IsLabel ds.labels i good_labels (omega arith) in
      let (ss, got, all, count, rows, labels) = collect-slice ds true r n (i + 1) v (omega arith) in
      (
        (some label, row) ∷ ss,
        rw (found, found', got) refl,
        ((good', good), all),
        ap suc count,
        rw (here, rows, add-one i) refl,
        rw (here', labels, add-one i) refl,
      )

  abbrev object : ℕ → ℕ → List (Sample F) → List ℕ → List ℕ
  object size n ss rest = store_u32 size (store_u32 n (store_list (store_sample fl) ss rest))

  length-object :
      (b : Bool) (n : ℕ) (ss : List (Sample F)) (rest : List ℕ)
      → length ss ≡ n
      → All (IsStorable b) ss
      → length (object (object_size b n ss) n ss rest) ≡ object_size b n ss + length rest
  unfolding object_size
  length-object b n ss rest count all =
      let body = store_list (store_sample fl) ss rest in
      rw (← count) (
        omega (
          arith,
          length-store_u32 (object_size b (length ss) ss) (store_u32 (length ss) body),
          length-store_u32 (length ss) body,
          length-store_samples b ss rest all,
        ))

  from_s3-object :
      (exact : IsExact fl) (size n : ℕ) (b : Bool) (ss : List (Sample F)) (rest : List ℕ)
      → length ss ≡ n
      → All (IsStorable b) ss
      → 0 < n
      → n < 1_000_000
      → from_s3 fl (object size n ss rest) true b
        ≡ ok (record { samples = rows_of ss; labels = labels_of ss })
  unfolding from_s3
  from_s3-object exact size n b ss rest count all pos few =
      let body = store_list (store_sample fl) ss rest in
      let some_samples : ltb 0 n ≡ true = ground arith in
      let few_samples : ltb n 1_000_000 ≡ true = ground arith in
      let back =
        load_list-store_list (IsStorable b) (store_sample fl) (load_sample fl b)
          (load_sample-store_sample exact b) ss rest all in
      rw
        (
          load_u32-store_u32_mod size (store_u32 n body),
          load_u32-store_u32 n body (omega arith),
          some_samples,
          few_samples,
          rw count at back,
        )
        refl

  -- For a range of fewer than a million samples with labels 0 or 1 (if labels are stored) and
  -- rows of at most a million pairs, the object is built, fills exactly the memory allocated
  -- for it, and is read as the samples of the range with their labels.
  pub from_s3-build :
      (exact : IsExact fl) (ds : SparseDataset F) (l r : ℕ) (b : Bool) (rest : List ℕ)
      → IsValid ds b r
      → l < r
      → r - l < 1_000_000
      → (bytes : List ℕ) × (size : ℕ) × (build_serialized_s3_obj fl ds l r b rest
          ≡ ok (bytes, size))
        × (length bytes ≡ size + length rest)
        × (from_s3 fl bytes true b ≡ ok (slice ds b (r - l) l))
  unfolding build_serialized_s3_obj
  from_s3-build exact ds l r b rest v order few =
      let (ss, got, all, count, rows, labels) = collect-slice ds b r (r - l) l v (omega arith) in
      let size = object_size b (r - l) ss in
      let ordered : ltb l r ≡ true = ground arith in
      (
        object size (r - l) ss rest,
        size,
        rw (ordered, got) refl,
        length-object b (r - l) ss rest count all,
        from_s3-object exact size (r - l) b ss rest count all (omega arith) few
            ∙ ap₂ (λ rs ls. ok (record { samples = rs; labels = ls })) rows labels,
      )
