-- ===== src/SparseLr/Minibatch/Tests.antt =====
-- A minibatch of one sample with two features, over whole numbers.
use cirrus.Prelude.{
  ℕ, zero, suc, ◌+◌, ◌/◌, ◌≡◌, refl, true, none, some, List, [], ◌∷◌, arith, get_or, replicate,
}
use cirrus.Prelude.Result.{ok}
use cirrus.Floats.{whole}
use cirrus.MlUtils.{s_1, finite}
use cirrus.Vector.{at}
use cirrus.Configuration.{Configuration, construct}
use cirrus.Configuration.Getters.{get_epsilon, get_minibatch_size}
use cirrus.SparseLr.Minibatch.{
  Cache, shift_one, is_zero, sparse_weight, written, ensure_preallocated_vectors, preallocated,
  unique_indices, minibatch_grad_sparse,
}
use cirrus.SparseLr.Minibatch.Collect.{IsCollected}
use cirrus.SparseLr.Minibatch.Zeros.{IsCallable, minibatch_grad_sparse-returns}

abbrev config : Configuration ℕ
config = record (construct whole) { model_bits = 2; minibatch_size = 1; epsilon = 2 }

abbrev cache : Cache ℕ
cache = record { weights_sparse = none ∷ some 5 ∷ none ∷ some 7 ∷ []; part2 = []; part3 = [] }

abbrev samples : List (List (ℕ × ℕ))
samples = ((1, 2) ∷ (3, 1) ∷ []) ∷ []

zeros_cell : (n j : ℕ) → is_zero whole (get_or (replicate n 0) j 0) ≡ true
zeros_cell zero j = refl
zeros_cell (suc n) zero = refl
zeros_cell (suc n) (suc j) = zeros_cell n j

-- The vectors when they have their sizes.
abbrev before : Cache ℕ
before = record cache { part2 = replicate 1 0; part3 = replicate 4 0 }

vectors_made : ensure_preallocated_vectors whole config cache ≡ ok before
unfolding ensure_preallocated_vectors preallocated shift_one get_minibatch_size
vectors_made = refl

epsilon_loaded : get_epsilon whole config ≡ ok 2
unfolding get_epsilon
epsilon_loaded = refl

before-IsCallable : IsCallable whole 0 samples (1 ∷ []) before
unfolding sparse_weight written at s_1 finite
before-IsCallable = record {
  ready =
      (((omega arith, omega arith, (5, refl)), ((omega arith, omega arith, (7, refl)), tt)), tt);
  squashed = (λ x e. (1 / (1 + x), refl), tt);
  enough_labels = omega arith;
  enough_cells = omega arith;
  zeros = λ j. zeros_cell 4 j;
}

minibatch_grad_sparse-returns_example :
    (pairs : List (ℕ × ℕ)) × (cache' : Cache ℕ) × (minibatch_grad_sparse whole config samples
        (1 ∷ [])
        cache
      ≡ ok (pairs, cache'))
    × IsCollected whole before.weights_sparse 0 4 (unique_indices samples) pairs cache'.part3
minibatch_grad_sparse-returns_example =
    minibatch_grad_sparse-returns whole 0 config 2 samples (1 ∷ []) cache before refl epsilon_loaded
      vectors_made before-IsCallable
