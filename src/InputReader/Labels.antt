-- ===== src/InputReader/Labels.antt =====
-- The labels of src/InputReader.cpp: packed classes, and the column of a row.
use cirrus.Prelude.{
  ℕ, zero, suc, ◌%◌, ◌<◌, ◌≤◌, ◌≡◌, ◌≢◌, refl, ap, List, [], ◌∷◌, ◌++◌, length, take, drop, get_or,
  arith, All,
}
use cirrus.Prelude.Result.{ok}
use cirrus.Floats.{Floats}
use cirrus.Vector.{at-in}
use cirrus.InputReader.{class_at, pack_label, char_to_int, until_zero, unpack_label, split_row}

-- A row is put together again from what it is split into.
pub split_row-joins :
    {F : Type 0} (d : F) (label_col : ℕ) (row : List F)
    → label_col < length row
    → (left right : List F) × (label : F) × (split_row label_col row ≡ ok (left ++ right, label))
      × (row ≡ left ++ (label ∷ right))
      × (length left ≡ label_col)
unfolding split_row
split_row-joins d label_col row h = (
  take label_col row,
  drop (suc label_col) row,
  get_or row label_col d,
  rw (at-in row label_col d h) refl,
  joined d label_col row h,
  taken label_col row h,
)
  where
    joined :
        {F : Type 0} (d : F) (n : ℕ) (row : List F)
        → n < length row
        → row ≡ take n row ++ (get_or row n d ∷ drop (suc n) row)
    joined d n [] h = absurd (omega arith)
    joined d zero (x ∷ row) h = refl
    joined d (suc n) (x ∷ row) h = ap (λ xs. x ∷ xs) (joined d n row (omega arith))

    taken : {F : Type 0} (n : ℕ) (row : List F) → n < length row → length (take n row) ≡ n
    taken zero row h = refl
    taken (suc n) [] h = absurd (omega arith)
    taken (suc n) (x ∷ row) h = ap suc (taken n row (omega arith))

-- A class that is not 0 and fits a `char` without its sign.
abbrev pub IsClass : ℕ → Type 0
IsClass c = (c ≢ 0) × (c < 128)

module _ {F D : Type 0} (fl : Floats F D) where
  -- Classes below 128, at most four, are unpacked as they were packed, if a float keeps its bytes.
  pub unpack_label-pack_label :
      (classes : List ℕ)
      → ((w : ℕ × ℕ × ℕ × ℕ) → fl.word (fl.of_word w) ≡ w)
      → length classes ≤ 4
      → All IsClass classes
      → unpack_label fl (pack_label fl classes) ≡ classes
  unfolding unpack_label pack_label class_at until_zero char_to_int
  unpack_label-pack_label [] keeps few all = rw (keeps (0, 0, 0, 0)) refl
  unpack_label-pack_label (a ∷ []) keeps few all = rw (keeps (a % 256, 0, 0, 0)) (ground arith)
  unpack_label-pack_label (a ∷ b ∷ []) keeps few all =
      rw (keeps (a % 256, b % 256, 0, 0)) (ground arith)
  unpack_label-pack_label (a ∷ b ∷ c ∷ []) keeps few all =
      rw (keeps (a % 256, b % 256, c % 256, 0)) (ground arith)
  unpack_label-pack_label (a ∷ b ∷ c ∷ e ∷ []) keeps few all =
      rw (keeps (a % 256, b % 256, c % 256, e % 256)) (ground arith)
  unpack_label-pack_label (a ∷ b ∷ c ∷ e ∷ f ∷ rest) keeps few all = absurd (omega arith)
