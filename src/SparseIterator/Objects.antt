-- ===== src/SparseIterator/Objects.antt =====
-- An object of src/S3SparseIterator.cpp cut into its minibatches.
use cirrus.Prelude.{
  ℕ, ◌+◌, ◌*◌, ◌≡◌, refl, Bool, true, false, none, some, List, [], ◌∷◌, ◌++◌, length, drop,
  drop-append, All, arith, ltb, ◌==◌, if◌then◌else◌,
}
use cirrus.Prelude.Result.{ok}
use cirrus.Floats.{Floats, IsExact}
use cirrus.Bytes.{store_u32, store_list, store_pair, is_negative}
use cirrus.Bytes.Laws.{
  load_u32-store_u32, load_float-store_float, store_list-append, store_list-in_front,
  store_pair-append, length-store_list, length-store_pair,
}
use cirrus.SparseDataset.{SparseDataset}
use cirrus.SparseDataset.Wire.{Sample, rows_of, labels_of, store_sample, from_memory}
use cirrus.SparseDataset.Wire.Batch.{IsShort, IsBatchSample, from_memory-store_samples}
use cirrus.SparseIterator.{Minibatch, Source, skip_values, skip_sample, skip_samples, cut}
use cirrus.SparseIterator.Ring.{flat}

module _ {F D : Type 0} (fl : Floats F D) (exact : IsExact fl) where
  -- The bytes of a row are passed over.
  drop-store_pairs :
      (row : List (ℕ × F)) (rest : List ℕ)
      → drop (length row * (4 + 4)) (store_list (store_pair fl) row rest) ≡ rest
  drop-store_pairs row rest =
      let front = store_list (store_pair fl) row [] in
      let l : length front ≡ length row * (4 + 4) =
        omega (arith, length-store_list 8 (store_pair fl) (length-store_pair fl) row []) in
      let e : front ++ rest ≡ store_list (store_pair fl) row rest =
        store_list-in_front (store_pair fl) (store_pair-append fl) row [] rest in
      rw (← l, ← e) (drop-append front rest)

  skip_values-store :
      (row : List (ℕ × F)) (rest : List ℕ)
      → IsShort fl row
      → skip_values fl (store_u32 (length row) (store_list (store_pair fl) row rest)) ≡ ok rest
  unfolding skip_values
  skip_values-store row rest (few, small) =
      let positive : is_negative (length row) ≡ false = ground arith in
      let under : ltb (length row) 1_000_000 ≡ true = ground arith in
      rw
        (
          load_u32-store_u32 (length row) (store_list (store_pair fl) row rest) (omega arith),
          positive,
          under,
          drop-store_pairs row rest,
        )
        refl

  skip_sample-store_sample :
      (b : Bool) (s : Sample F) (rest : List ℕ)
      → IsBatchSample fl b s
      → skip_sample fl b (store_sample fl s rest) ≡ ok rest
  unfolding skip_sample store_sample
  skip_sample-store_sample false (none, row) rest h = skip_values-store row rest h
  skip_sample-store_sample false (some l, row) rest h = absurd h
  skip_sample-store_sample true (none, row) rest h = absurd h
  skip_sample-store_sample true (some l, row) rest (label, h) =
      rw
        (
          load_float-store_float fl exact l
              (store_u32 (length row) (store_list (store_pair fl) row rest)),
          label.0,
        )
        (skip_values-store row rest h)

  skip_samples-store :
      (b : Bool) (ss : List (Sample F)) (rest : List ℕ)
      → All (IsBatchSample fl b) ss
      → skip_samples fl b (length ss) (store_list (store_sample fl) ss rest) ≡ ok rest
  unfolding skip_samples store_list
  skip_samples-store b [] rest h = refl
  skip_samples-store b (s ∷ ss) rest (h, hs) =
      rw (skip_sample-store_sample b s (store_list (store_sample fl) ss rest) h)
        (skip_samples-store b ss rest hs)

module _ {F D : Type 0} (fl : Floats F D) where
  abbrev pub dataset : List (Sample F) → SparseDataset F
  dataset ss = record { samples = rows_of ss; labels = labels_of ss }

  -- A minibatch that stands for the samples `ss`, `n` of them.
  abbrev pub Stands : Bool → ℕ → List (Sample F) → Minibatch → Type 0
  Stands b n ss m = (behind : List ℕ) × (from_memory fl m.bytes n b ≡ ok (dataset ss, behind))

  -- The minibatches of `groups`, one for each, of which the last one is marked.
  pub data Queue (b : Bool) (n version : ℕ) : List (List (Sample F)) → List Minibatch → Type 0 where
    no_more : Queue b n version [] []
    one_more :
        {group : List (Sample F)} {groups : List (List (Sample F))} {m : Minibatch}
        {queue : List Minibatch}
        → m.version ≡ version
        → m.last ≡ (if length groups == 0 then some version else none)
        → Stands b n group m
        → Queue b n version groups queue
        → Queue b n version (group ∷ groups) (m ∷ queue)

  -- Groups of as many samples as a minibatch has.
  abbrev pub IsGroup : Bool → ℕ → List (Sample F) → Type 0
  IsGroup b n group = (length group ≡ n) × All (IsBatchSample fl b) group

module _ {F D : Type 0} (fl : Floats F D) (exact : IsExact fl) where
  pub cut-Queue :
      (source : Source) (version : ℕ) (groups : List (List (Sample F))) (rest : List ℕ)
      → All (IsGroup fl source.use_label source.minibatch_rows) groups
      → (queue : List Minibatch) × (cut fl source version
            (length groups)
            (store_list (store_sample fl) (flat groups) rest)
          ≡ ok queue)
        × Queue fl source.use_label source.minibatch_rows version groups queue
  unfolding cut
  cut-Queue source version [] rest h = ([], refl, no_more)
  cut-Queue source version (group ∷ groups) rest ((l, all), hs) =
      let behind = store_list (store_sample fl) (flat groups) rest in
      let e = store_list-append (store_sample fl) group (flat groups) rest in
      let skip : skip_samples fl source.use_label source.minibatch_rows
            (store_list (store_sample fl) group behind)
          ≡ ok behind =
        rw (← l) (skip_samples-store fl exact source.use_label group behind all) in
      let (queue, run, q) = cut-Queue source version groups rest hs in
      let stands : from_memory fl (store_list (store_sample fl) group behind) source.minibatch_rows
            source.use_label
          ≡ ok (dataset fl group, behind) =
        rw (← l) (from_memory-store_samples fl exact source.use_label group behind all) in
      (
        record {
          version = version;
          bytes = store_list (store_sample fl) group behind;
          last = (if length groups == 0 then some version else none);
        }
            ∷ queue,
        rw (e, skip, run) refl,
        one_more refl refl (behind, stands) q,
      )
