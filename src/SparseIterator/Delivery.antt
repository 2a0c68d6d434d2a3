-- ===== src/SparseIterator/Delivery.antt =====
-- `pushSamples` and `getNext` of src/S3SparseIterator.cpp as the two ends of a queue.
use cirrus.Prelude.{
  ℕ, suc, ◌+◌, ◌-◌, ◌%◌, ◌^◌, ◌<◌, ◌≡◌, ◌≢◌, refl, ap, sym, ◌∙◌, subst, false, ◌&&◌, ◌||◌, Option,
  none, some, List, [], ◌∷◌, ◌++◌, length, set, All, arith, ltb, ◌==◌, if◌then◌else◌, number_key,
}
use cirrus.Prelude.Result.{ok}
use cirrus.Prelude.Table.{lookup, lookup-erase}
use cirrus.Floats.{Floats}
use cirrus.Bytes.{is_negative}
use cirrus.SparseDataset.{SparseDataset}
use cirrus.SparseDataset.Wire.{from_memory}
use cirrus.CircularBuffer
use cirrus.CircularBuffer.{CircularBuffer}
use cirrus.CircularBuffer.Window.{IsValid, contents}
use cirrus.SparseIterator.{
  Minibatch, Source, SparseIterator, read_ahead, erase_used, discard_empty, read_minibatch,
  take_next, get_next,
}
use cirrus.SparseIterator.Ring.{
  flat, with_front, with_front-IsValid, contents-with_front, discard_empty-Finds,
}

-- The minibatches that wait, in the order in which they are handed out.
abbrev pub pending : SparseIterator → List Minibatch
pending it = flat (contents [] it.minibatches_list)

-- The string of a minibatch is there.
abbrev pub IsStored : List (ℕ × List ℕ) → Minibatch → Type 0
IsStored strings m = (object : List ℕ) × (lookup m.version strings ≡ some object)

abbrev pub Differs : ℕ → Minibatch → Type 0
Differs version m = m.version ≢ version

-- A string goes only behind its last minibatch.
abbrev pub IsOrdered : List Minibatch → Type 0
IsOrdered [] = Unit {0}
IsOrdered (m ∷ ms) =
    ((version : ℕ) → m.last ≡ some version → All (Differs version) ms) × IsOrdered ms

-- Made of strings that have been fetched before `version`.
abbrev pub IsOlder : ℕ → Minibatch → Type 0
IsOlder version m = (m.version < version) × ((last : ℕ) → m.last ≡ some last → last < version)

pub record IsReady (it : SparseIterator) : Type 0 where
  pub valid : IsValid it.minibatches_list
  pub counted : it.available ≡ length (pending it)
  pub stored : All (IsStored it.list_strings) (pending it)
  pub unused : (version : ℕ) → it.to_delete ≡ some version → All (Differs version) (pending it)
  pub deleted_older : (version : ℕ) → it.to_delete ≡ some version → version < it.str_version
  pub ordered : IsOrdered (pending it)
  pub older : All (IsOlder it.str_version) (pending it)

-- What is erased is used no more.
erase_used-stored :
    (to_delete : Option ℕ) (strings : List (ℕ × List ℕ)) (ms : List Minibatch)
    → ((version : ℕ) → to_delete ≡ some version → All (Differs version) ms)
    → All (IsStored strings) ms
    → All (IsStored (erase_used to_delete strings)) ms
unfolding erase_used
erase_used-stored none strings ms unused stored = stored
erase_used-stored (some version) strings [] unused stored = tt
erase_used-stored (some version) strings (m ∷ ms) unused ((object, found), stored) =
    let (differ, rest) = unused version refl in
    let other : (version == m.version) ≡ false = ground arith in
    (
      (object, lookup-erase version m.version strings ∙ rw other found),
      erase_used-stored (some version) strings ms (λ v e. (unused v e).1) stored,
    )

read_minibatch-stored :
    (strings : List (ℕ × List ℕ)) (m : Minibatch)
    → IsStored strings m
    → read_minibatch strings m ≡ ok m.bytes
unfolding read_minibatch
read_minibatch-stored strings m (object, found) = rw (found, read_minibatch) refl

-- The state behind a call that takes `m`, with `rest` left in its queue.
taken :
    SparseIterator
    → Minibatch
    → List Minibatch
    → CircularBuffer (List Minibatch)
    → ℕ
    → SparseIterator
taken it m rest ring available =
    let ready = (it.num_minibatches_ready + (2 ^ 32 - 1)) % 2 ^ 32 in
    record it {
      list_strings = erase_used it.to_delete it.list_strings;
      minibatches_list = record ring { buffer = set ring.buffer ring.front rest };
      num_minibatches_ready = ready;
      available = available;
      prefetch =
          (if (is_negative ready || ltb ready 200) && ltb it.prefetch read_ahead
            then it.prefetch + 1
            else it.prefetch);
      to_delete = m.last;
    }

taken-IsReady :
    (it : SparseIterator) (m : Minibatch) (ms q : List Minibatch) (qs : List (List Minibatch))
    (ring : CircularBuffer (List Minibatch))
    → IsReady it
    → pending it ≡ m ∷ ms
    → IsValid ring
    → contents [] ring ≡ (m ∷ q) ∷ qs
    → q ++ flat qs ≡ ms
    → IsReady (taken it m q ring (length ms)) × (pending (taken it m q ring (length ms)) ≡ ms)
unfolding taken
taken-IsReady it m ms q qs ring h e v front rest =
    let ring' = with_front [] ring v q in
    let left : flat (contents [] ring') ≡ ms =
      ap flat (contents-with_front [] ring v (m ∷ q) q qs front) ∙ rest in
    let stored = erase_used-stored it.to_delete it.list_strings (pending it) h.unused h.stored in
    let (stored_m, stored_ms) =
      subst (All (IsStored (erase_used it.to_delete it.list_strings))) e stored in
    let (last_m, ordered) = subst IsOrdered e h.ordered in
    let (older_m, older) = subst (All (IsOlder it.str_version)) e h.older in
    (
      record {
        valid = with_front-IsValid [] ring v q;
        counted = ap length (sym left);
        stored =
            subst (All (IsStored (erase_used it.to_delete it.list_strings))) (sym left) stored_ms;
        unused = λ version last. subst (All (Differs version)) (sym left) (last_m version last);
        deleted_older = older_m.1;
        ordered = subst IsOrdered (sym left) ordered;
        older = subst (All (IsOlder it.str_version)) (sym left) older;
      },
      left,
    )

module _ {F D : Type 0} (fl : Floats F D) (source : Source) (config_rows : ℕ) where
  take_next-parts :
      (it : SparseIterator) (m : Minibatch) (rest : List Minibatch)
      (ring : CircularBuffer (List Minibatch)) (bytes behind : List ℕ) (ds : SparseDataset F)
      (available : ℕ)
      → discard_empty (suc (CircularBuffer.size it.minibatches_list)) it.minibatches_list
        ≡ ok (m, rest, ring)
      → read_minibatch (erase_used it.to_delete it.list_strings) m ≡ ok bytes
      → from_memory fl bytes config_rows source.has_labels ≡ ok (ds, behind)
      → take_next fl source config_rows (suc available) it
        ≡ ok (some (ds, taken it m rest ring available))
  unfolding take_next taken
  take_next-parts it m rest ring bytes behind ds available found read loaded =
      rw (found, read, loaded) refl

  -- A minibatch that waits is handed out.
  pub get_next-delivers :
      (it : SparseIterator) (m : Minibatch) (ms : List Minibatch) (ds : SparseDataset F)
      (behind : List ℕ)
      → IsReady it
      → pending it ≡ m ∷ ms
      → from_memory fl m.bytes config_rows source.has_labels ≡ ok (ds, behind)
      → (it' : SparseIterator) × (get_next fl source config_rows it ≡ ok (some (ds, it')))
        × IsReady it'
        × (pending it' ≡ ms)
        × (it'.str_version ≡ it.str_version)
  unfolding get_next taken
  get_next-delivers it m ms ds behind h e loaded =
      let (q, qs, ring, found, v, same, fewer, front, rest) =
        discard_empty-Finds [] (suc (CircularBuffer.size it.minibatches_list)) it.minibatches_list m
          ms h.valid (omega arith) e in
      let count : it.available ≡ suc (length ms) = h.counted ∙ ap length e in
      let kept = taken-IsReady it m ms q qs ring h e v front rest in
      let stored =
        subst (All (IsStored (erase_used it.to_delete it.list_strings))) e
          (erase_used-stored it.to_delete it.list_strings (pending it) h.unused h.stored) in
      let run =
        take_next-parts it m q ring m.bytes behind ds (length ms) found
          (read_minibatch-stored (erase_used it.to_delete it.list_strings) m stored.0) loaded in
      (
        taken it m q ring (length ms),
        subst
            (λ n.
              take_next fl source config_rows n it ≡ ok (some (ds, taken it m q ring (length ms))))
            (sym count) run,
        kept.0,
        kept.1,
        refl,
      )
