-- ===== src/SparseLr/Dense/Loss.antt =====
-- The loss and the accuracy of `calc_loss` (src/SparseLRModel.cpp), against sums over the samples.
use cirrus.Prelude.{
  ℕ, suc, ◌+◌, ◌≡◌, refl, ap, sym, Bool, false, not, ◌||◌, List, [], ◌∷◌, map, length, arith,
  if◌then◌else◌, Bool-cases, inl, inr,
}
use cirrus.Prelude.Result.{Result, ok, err, runtime_error}
use cirrus.Floats.{Floats}
use cirrus.Vector.{at}
use cirrus.MlUtils.{s_1, log_aux}
use cirrus.SparseLr.{SparseLr}
use cirrus.SparseLr.Dense.{loss_product, sample_value, loss_loop, accuracy, calc_loss}

-- The sigmoid and the class of a sample, and the logarithms of the sigmoid and of what it lacks to 1.
pub record Score (F D : Type 0) : Type 0 where
  pub s1 : D
  pub class : F
  pub left : D
  pub right : D

module _ {F D : Type 0} (fl : Floats F D) where
  abbrev pub value_of : Score F D → D
  value_of score =
      fl.add (fl.mul (fl.widen score.class) score.left)
        (fl.mul (fl.widen (fl.sub_float (fl.narrow fl.one) score.class)) score.right)

  -- Class 1 is predicted above one half, and class 0 else.
  abbrev pub misses : Score F D → Bool
  misses score =
      if fl.less fl.half score.s1
      then not (fl.same fl.one (fl.widen score.class))
      else not (fl.same fl.nought (fl.widen score.class))

  abbrev pub missed : List (Score F D) → ℕ
  missed [] = 0
  missed (score ∷ scores) = if misses score then suc (missed scores) else missed scores

  abbrev pub less_all : D → List D → D
  less_all total [] = total
  less_all total (value ∷ values) = less_all (fl.sub total value) values

  abbrev pub any_positive : List D → Bool
  any_positive [] = false
  any_positive (value ∷ values) = fl.less fl.nought value || any_positive values

  -- What is returned for samples with these scores.
  abbrev pub outcome : List (Score F D) → Result (D × F)
  outcome scores =
      let values = map value_of scores in
      let loss = less_all fl.nought values in
      let share =
        fl.div (fl.mul fl.one (fl.of_count (missed scores))) (fl.of_count (length scores)) in
      if any_positive values
        || fl.less loss fl.nought
        || fl.is_nan_double loss
        || fl.is_inf_double loss
      then err runtime_error
      else ok (loss, fl.narrow (fl.sub fl.one share))

  module _ (weights labels : List F) where
    -- The scores of the samples, from sample `i` on.
    pub data Scored : ℕ → List (List (ℕ × F)) → List (Score F D) → Type 0 where
      none_left : {i : ℕ} → Scored i [] []
      one_more :
          {i : ℕ} {row : List (ℕ × F)} {rows : List (List (ℕ × F))} {scores : List (Score F D)}
          (score : Score F D) (product : D)
          → at labels i ≡ ok score.class
          → loss_product fl row weights fl.nought ≡ ok product
          → s_1 fl product ≡ ok score.s1
          → log_aux fl score.s1 ≡ ok score.left
          → log_aux fl (fl.sub fl.one score.s1) ≡ ok score.right
          → Scored (suc i) rows scores
          → Scored i (row ∷ rows) (score ∷ scores)

    length-Scored :
        {i : ℕ} {rows : List (List (ℕ × F))} {scores : List (Score F D)}
        → Scored i rows scores
        → length rows ≡ length scores
    length-Scored none_left = refl
    length-Scored (one_more score product a b c e f rest) = ap suc (length-Scored rest)

    -- The loop from a sum and a count.
    abbrev loop_outcome : List (Score F D) → D → ℕ → Result (D × ℕ)
    loop_outcome scores total wrong =
        if any_positive (map value_of scores)
        then err runtime_error
        else ok (less_all total (map value_of scores), wrong + missed scores)

    loss_loop-Scored :
        {i : ℕ} {rows : List (List (ℕ × F))} {scores : List (Score F D)} (total : D) (wrong : ℕ)
        → Scored i rows scores
        → loss_loop fl weights labels i rows total wrong ≡ loop_outcome scores total wrong
    unfolding loss_loop sample_value
    loss_loop-Scored total wrong none_left = ap (λ n. ok (total, n)) (omega arith)
    loss_loop-Scored total wrong (one_more {scores = scores} score product a b c e f rest) =
        let value = value_of score in
        elim (Bool-cases (fl.less fl.nought value)) [
          | inl positive ↦ rw (a, b, c, e, f, positive) refl
          | inr fine ↦ elim (Bool-cases (fl.less fl.half score.s1)) [
            | inl above ↦ elim (Bool-cases (fl.same fl.one (fl.widen score.class))) [
              | inl same ↦
                  rw (a, b, c, e, f, fine, above, same)
                    (loss_loop-Scored (fl.sub total value) wrong rest)
              | inr differ ↦
                  let count : suc wrong + missed scores ≡ wrong + suc (missed scores) =
                    omega arith in
                  rw (a, b, c, e, f, fine, above, differ, sym count)
                    (loss_loop-Scored (fl.sub total value) (suc wrong) rest)
            ]
            | inr below ↦ elim (Bool-cases (fl.same fl.nought (fl.widen score.class))) [
              | inl same ↦
                  rw (a, b, c, e, f, fine, below, same)
                    (loss_loop-Scored (fl.sub total value) wrong rest)
              | inr differ ↦
                  let count : suc wrong + missed scores ≡ wrong + suc (missed scores) =
                    omega arith in
                  rw (a, b, c, e, f, fine, below, differ, sym count)
                    (loss_loop-Scored (fl.sub total value) (suc wrong) rest)
            ]
          ]
        ]

  -- If every sample has a label, a product, a sigmoid and two logarithms, calc_loss throws if
  -- a sample's value is positive or their negated sum is negative, infinite or no number, and
  -- else returns this sum, and 1 less the share of samples whose class is not the one above
  -- or below one half.
  pub calc_loss-Scored :
      (m : SparseLr F) (rows : List (List (ℕ × F))) (labels : List F) (scores : List (Score F D))
      → Scored m.weights labels 0 rows scores
      → calc_loss fl m rows labels ≡ outcome scores
  unfolding calc_loss accuracy
  calc_loss-Scored m rows labels scores scored =
      let size = length-Scored m.weights labels scored in
      let run = loss_loop-Scored m.weights labels fl.nought 0 scored in
      let values = map value_of scores in
      let loss = less_all fl.nought values in
      let count : 0 + missed scores ≡ missed scores = omega arith in
      elim (Bool-cases (any_positive values)) [
        | inl positive ↦ rw (run, positive) refl
        | inr fine ↦ elim (Bool-cases (fl.less loss fl.nought)) [
          | inl negative ↦ rw (run, fine, negative) refl
          | inr above ↦ elim (Bool-cases (fl.is_nan_double loss)) [
            | inl nan ↦ rw (run, fine, above, nan) refl
            | inr number ↦ elim (Bool-cases (fl.is_inf_double loss)) [
              | inl inf ↦ rw (run, fine, above, number, inf) refl
              | inr finite ↦ rw (run, fine, above, number, finite, size, count) refl
            ]
          ]
        ]
      ]
