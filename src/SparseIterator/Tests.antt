-- ===== src/SparseIterator/Tests.antt =====
-- An object of two minibatches of src/S3SparseIterator.cpp, over whole numbers.
use cirrus.Prelude.{
  ℕ, suc, ◌<◌, ◌≡◌, refl, sym, subst, true, none, some, List, [], ◌∷◌, All, arith, replicate, map,
}
use cirrus.Prelude.Result.{ok}
use cirrus.Floats.{whole, whole-IsExact}
use cirrus.Bytes.{store_u32, store_list}
use cirrus.SparseDataset.Wire.{Sample, store_sample}
use cirrus.CircularBuffer
use cirrus.SparseIterator.{Source, SparseIterator, minibatch_count, push_samples}
use cirrus.SparseIterator.Ring.{flat}
use cirrus.SparseIterator.Objects.{IsGroup, dataset}
use cirrus.SparseIterator.Delivery.{pending, IsReady}
use cirrus.SparseIterator.Push.{Waits, nothing}
use cirrus.SparseIterator.Fetched.{empty-IsReady, get_many, push_samples-get_many}

abbrev source : Source
source = record {
  left_id = 0;
  right_id = 2;
  s3_rows = 2;
  minibatch_rows = 1;
  use_label = true;
  has_labels = true;
}

abbrev fresh : SparseIterator
fresh = record {
  current = 0;
  str_version = 0;
  list_strings = [];
  minibatches_list = record { buffer = replicate 4 []; capacity = 4; front = 0; tail = 0 };
  num_minibatches_ready = 0;
  available = 0;
  prefetch = 1;
  to_delete = none;
}

none_wait : pending fresh ≡ []
unfolding CircularBuffer.size
none_wait = refl

fresh-IsReady : IsReady fresh
fresh-IsReady = empty-IsReady fresh (ground arith) refl none_wait refl

all_free : suc (CircularBuffer.size fresh.minibatches_list) < 4
unfolding CircularBuffer.size
all_free = omega arith

fresh-Waits : Waits whole true 1 [] (pending fresh)
fresh-Waits = subst (Waits whole true 1 []) (sym none_wait) nothing

abbrev groups : List (List (Sample ℕ))
groups = ((some 1, (3, 7) ∷ []) ∷ []) ∷ ((some 0, []) ∷ []) ∷ []

groups-IsGroup : All (IsGroup whole true 1) groups
groups-IsGroup = ground arith

two_groups : minibatch_count 2 1 ≡ ok 2
unfolding minibatch_count
two_groups = refl

push_samples-get_many_example :
    (it' : SparseIterator) × (it'' : SparseIterator) × (push_samples whole source
        (store_u32 40 (store_u32 2 (store_list (store_sample whole) (flat groups) [])))
        fresh
      ≡ ok it')
    × (get_many whole source 1 2 it' ≡ ok (some (map (dataset whole) groups, it'')))
    × IsReady it''
    × (pending it'' ≡ [])
push_samples-get_many_example =
    push_samples-get_many whole source 1 whole-IsExact fresh [] groups 40 2 [] fresh-IsReady
      fresh-Waits refl refl (omega arith) all_free two_groups (omega arith) (omega arith)
      groups-IsGroup
