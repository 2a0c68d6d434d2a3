-- ===== src/SparseIterator/Fetched.antt =====
-- `pushSamples` and `getNext` of src/S3SparseIterator.cpp together.
use mathlib.Core.Path.{subst₂}
use cirrus.Prelude.{
  ℕ, zero, suc, ◌+◌, ◌^◌, ◌<◌, ◌≡◌, refl, ap, sym, ◌∙◌, subst, Option, none, some, List, [], ◌∷◌,
  ◌++◌, map, length, All, arith, inl, inr,
}
use cirrus.Prelude.Result.{Result, ok, ◌>>=◌}
use cirrus.Floats.{Floats, IsExact}
use cirrus.Bytes.{store_u32, store_list}
use cirrus.SparseDataset.{SparseDataset}
use cirrus.SparseDataset.Wire.{Sample, store_sample}
use cirrus.CircularBuffer
use cirrus.CircularBuffer.{CircularBuffer}
use cirrus.CircularBuffer.Window.{IsValid}
use cirrus.CircularBuffer.Refine.{construct-IsValid}
use cirrus.SparseIterator.{
  Minibatch, Source, SparseIterator, minibatch_count, push_samples, get_next, construct, read_ahead,
}
use cirrus.SparseIterator.Ring.{flat}
use cirrus.SparseIterator.Objects.{IsGroup, dataset}
use cirrus.SparseIterator.Delivery.{
  pending, IsReady, IsStored, IsOrdered, IsOlder, get_next-delivers,
}
use cirrus.SparseIterator.Push.{none_ne_some, Waits, nothing, next, push_samples-Waits}

pub empty-IsReady :
    (it : SparseIterator)
    → IsValid it.minibatches_list
    → it.available ≡ 0
    → pending it ≡ []
    → it.to_delete ≡ none
    → IsReady it
empty-IsReady it v none_left e unused = record {
  valid = v;
  counted = none_left ∙ ap length (sym e);
  stored = subst (All (IsStored it.list_strings)) (sym e) tt;
  unused = λ version d. absurd (none_ne_some (sym unused ∙ d));
  deleted_older = λ version d. absurd (none_ne_some (sym unused ∙ d));
  ordered = subst IsOrdered (sym e) tt;
  older = subst (All (IsOlder it.str_version)) (sym e) tt;
}

abbrev started : Source → CircularBuffer (List Minibatch) → SparseIterator
started source ring = record {
  current = source.left_id;
  str_version = 0;
  list_strings = [];
  minibatches_list = ring;
  num_minibatches_ready = 0;
  available = 0;
  prefetch = read_ahead;
  to_delete = none;
}

-- A new iterator is ready, with nothing that waits.
pub construct-IsReady :
    (source : Source)
    → (it : SparseIterator) × (construct source ≡ ok it)
      × IsReady it
      × (pending it ≡ [])
      × (it.str_version ≡ 0)
      × (it.current ≡ source.left_id)
      × (it.minibatches_list.capacity ≡ 100_000)
unfolding construct
construct-IsReady source = elim (construct-IsValid {T = List Minibatch} [] 100_000 (omega arith)) [
  | inl (none_left, fails) ↦ absurd (omega arith)
  | inr (ring, made, v, capacity, clear) ↦ (
    started source ring,
    rw made refl,
    empty-IsReady (started source ring) v refl (ap flat clear) refl,
    ap flat clear,
    refl,
    refl,
    capacity,
  )
]

module _ {F D : Type 0} (fl : Floats F D) (source : Source) (config_rows : ℕ) where
  -- The datasets of `n` calls of `getNext` one after the other, `none` when a call waits.
  pub get_many : ℕ → SparseIterator → Result (Option (List (SparseDataset F) × SparseIterator))
  get_many zero it = ok (some ([], it))
  get_many (suc n) it = do
    found ← get_next fl source config_rows it
    elim found [
      | none ↦ ok none
      | some (ds, it') ↦ do
        others ← get_many n it'
        elim others [ none ↦ ok none | some (dss, it'') ↦ ok (some (ds ∷ dss, it'')) ]
    ]

  get_many-delivers :
      (groups : List (List (Sample F))) (it : SparseIterator) (ms : List Minibatch)
      → IsReady it
      → Waits fl source.has_labels config_rows groups ms
      → pending it ≡ ms
      → (it' : SparseIterator) × (get_many (length groups) it
          ≡ ok (some (map (dataset fl) groups, it')))
        × IsReady it'
        × (pending it' ≡ [])
  unfolding get_many
  get_many-delivers [] it [] h nothing e = (it, refl, h, e)
  get_many-delivers [] it (m ∷ ms) h w e = elim w [ ]
  get_many-delivers (group ∷ groups) it [] h w e = elim w [ ]
  get_many-delivers (group ∷ groups) it (m ∷ ms) h (next (behind, stands) w) e =
      let (it₁, one, h₁, e₁, version) =
        get_next-delivers fl source config_rows it m ms (dataset fl group) behind h e stands in
      let (it₂, others, h₂, e₂) = get_many-delivers groups it₁ ms h₁ w e₁ in
      (it₂, rw (one, others) refl, h₂, e₂)

  -- If a ready iterator has a free cell and version, and what waits in it and an object of
  -- the expected shape stand for groups of samples, with exact floats, then after a push as
  -- many calls of getNext as groups do not wait: they return the groups as datasets, in
  -- order, and leave nothing.
  pub push_samples-get_many :
      (exact : IsExact fl) (it : SparseIterator) (earlier groups : List (List (Sample F)))
      (size count : ℕ) (rest : List ℕ)
      → IsReady it
      → Waits fl source.use_label source.minibatch_rows earlier (pending it)
      → config_rows ≡ source.minibatch_rows
      → source.has_labels ≡ source.use_label
      → it.str_version + 1 < 2 ^ 32
      → suc (CircularBuffer.size it.minibatches_list) < it.minibatches_list.capacity
      → minibatch_count source.s3_rows source.minibatch_rows ≡ ok (length groups)
      → size < 2 ^ 32
      → count < 2 ^ 32
      → All (IsGroup fl source.use_label source.minibatch_rows) groups
      → (it' : SparseIterator) × (it'' : SparseIterator) × (push_samples fl source
            (store_u32 size (store_u32 count (store_list (store_sample fl) (flat groups) rest)))
            it
          ≡ ok it')
        × (get_many (length (earlier ++ groups)) it'
            ≡ ok (some (map (dataset fl) (earlier ++ groups), it'')))
        × IsReady it''
        × (pending it'' ≡ [])
  push_samples-get_many exact it earlier groups size count rest h w rows labels room free n s₁ s₂
        all =
      let (it', pushed, h', w', version, capacity) =
        push_samples-Waits fl exact source it earlier groups size count rest h w room free n s₁ s₂
          all in
      let w'' : Waits fl source.has_labels config_rows (earlier ++ groups) (pending it') =
        subst₂ (λ b k. Waits fl b k (earlier ++ groups) (pending it')) (sym labels) (sym rows) w' in
      let (it'', got, h'', e) =
        get_many-delivers (earlier ++ groups) it' (pending it') h' w'' refl in
      (it', it'', pushed, got, h'', e)
