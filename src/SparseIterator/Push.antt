-- ===== src/SparseIterator/Push.antt =====
-- `pushSamples` of src/S3SparseIterator.cpp as the back end of the queue.
use cirrus.Prelude.{
  ℕ, zero, suc, ◌+◌, ◌%◌, ◌^◌, ◌<◌, ◌≡◌, refl, ap, sym, ◌∙◌, subst, Bool, true, false, none, some,
  List, [], ◌∷◌, ◌++◌, append-nil, length, length-append, All, arith, ◌==◌, if◌then◌else◌,
  number_key,
}
use cirrus.Prelude.Result.{ok}
use cirrus.Prelude.Table.{insert, lookup-insert}
use cirrus.Floats.{Floats, IsExact}
use cirrus.Bytes.{store_u32, load_u32, store_list}
use cirrus.Bytes.Laws.{load_u32-store_u32}
use cirrus.SparseDataset.Wire.{Sample, store_sample}
use cirrus.CircularBuffer
use cirrus.CircularBuffer.{CircularBuffer}
use cirrus.CircularBuffer.Window.{IsValid, contents}
use cirrus.CircularBuffer.Refine.{contents-add}
use cirrus.SparseIterator.{Minibatch, Source, SparseIterator, cut, minibatch_count, push_samples}
use cirrus.SparseIterator.Ring.{flat, flat-append}
use cirrus.SparseIterator.Objects.{Queue, no_more, one_more, Stands, IsGroup, cut-Queue}
use cirrus.SparseIterator.Delivery.{pending, IsStored, Differs, IsOrdered, IsOlder, IsReady}

append-All : {A : Type 0} (Q : A → Type 0) (xs ys : List A) → All Q xs → All Q ys → All Q (xs ++ ys)
append-All Q [] ys hs ks = ks
append-All Q (x ∷ xs) ys (h, hs) ks = (h, append-All Q xs ys hs ks)

map-All :
    {A : Type 0} (Q R : A → Type 0) (xs : List A) → ((x : A) → Q x → R x) → All Q xs → All R xs
map-All Q R [] f hs = tt
map-All Q R (x ∷ xs) f (h, hs) = (f x h, map-All Q R xs f hs)

-- A minibatch of the object that is pushed.
abbrev IsNew : ℕ → Minibatch → Type 0
IsNew version m = (m.version ≡ version) × ((last : ℕ) → m.last ≡ some last → last ≡ version)

some_inj : {A : Type 0} {x y : A} → some x ≡ some y → x ≡ y
some_inj e = cc

pub none_ne_some : {A : Type 0} {x : A} → none ≡ some x → ⊥
none_ne_some e = cc

marked :
    (n version last : ℕ)
    → (if n == 0 then some version else none) ≡ some last
    → (n ≡ 0) × (last ≡ version)
marked zero version last e = (refl, some_inj (sym e))
marked (suc n) version last e =
    (let no : (suc n == 0) ≡ false = ground arith in absurd (none_ne_some (rw no at e)))

-- Older minibatches stay stored when a new string comes.
insert-stored :
    (version : ℕ) (object : List ℕ) (strings : List (ℕ × List ℕ)) (ms : List Minibatch)
    → All (IsOlder version) ms
    → All (IsStored strings) ms
    → All (IsStored (insert version object strings)) ms
insert-stored version object strings [] older stored = tt
insert-stored version object strings (m ∷ ms) (old, older) ((there, found), stored) =
    let other : (version == m.version) ≡ false = ground (arith, old.0) in
    (
      (there, lookup-insert version m.version object strings ∙ rw other found),
      insert-stored version object strings ms older stored,
    )

append-IsOrdered :
    (version : ℕ) (ms queue : List Minibatch)
    → All (IsOlder version) ms
    → All (IsNew version) queue
    → IsOrdered ms
    → IsOrdered queue
    → IsOrdered (ms ++ queue)
append-IsOrdered version [] queue older new ordered ordered' = ordered'
append-IsOrdered version (m ∷ ms) queue (old, older) new (o, ordered) ordered' = (
  λ last e. append-All (Differs last) ms queue (o last e) (
      map-All (IsNew version) (Differs last) queue
        (λ x h same. ground (arith, old.1 last e, h.0, same)) new),
  append-IsOrdered version ms queue older new ordered ordered',
)

module _ {F D : Type 0} (fl : Floats F D) where
  -- The minibatches that wait stand for `groups`, in order.
  pub data Waits (b : Bool) (n : ℕ) : List (List (Sample F)) → List Minibatch → Type 0 where
    nothing : Waits b n [] []
    next :
        {group : List (Sample F)} {groups : List (List (Sample F))} {m : Minibatch}
        {ms : List Minibatch}
        → Stands fl b n group m
        → Waits b n groups ms
        → Waits b n (group ∷ groups) (m ∷ ms)

  append-Waits :
      {b : Bool} {n : ℕ} {groups groups' : List (List (Sample F))} {ms ms' : List Minibatch}
      → Waits b n groups ms
      → Waits b n groups' ms'
      → Waits b n (groups ++ groups') (ms ++ ms')
  append-Waits nothing w' = w'
  append-Waits (next s w) w' = next s (append-Waits w w')

module _ {F D : Type 0} {fl : Floats F D} {b : Bool} {n version : ℕ} where
  Queue-Waits :
      {groups : List (List (Sample F))} {queue : List Minibatch}
      → Queue fl b n version groups queue
      → Waits fl b n groups queue
  Queue-Waits no_more = nothing
  Queue-Waits (one_more v l s q) = next s (Queue-Waits q)

  length-Queue :
      {groups : List (List (Sample F))} {queue : List Minibatch}
      → Queue fl b n version groups queue
      → length queue ≡ length groups
  length-Queue no_more = refl
  length-Queue (one_more v l s q) = ap suc (length-Queue q)

  Queue-IsNew :
      {groups : List (List (Sample F))} {queue : List Minibatch}
      → Queue fl b n version groups queue
      → All (IsNew version) queue
  Queue-IsNew no_more = tt
  Queue-IsNew (one_more {groups = groups} v l s q) =
      ((v, λ last e. (marked (length groups) version last (sym l ∙ e)).1), Queue-IsNew q)

  nothing_behind :
      {groups : List (List (Sample F))} {queue : List Minibatch} (last : ℕ)
      → Queue fl b n version groups queue
      → length groups ≡ 0
      → All (Differs last) queue
  nothing_behind last no_more e = tt
  nothing_behind last (one_more v l s q) e = absurd (omega arith)

  Queue-IsOrdered :
      {groups : List (List (Sample F))} {queue : List Minibatch}
      → Queue fl b n version groups queue
      → IsOrdered queue
  Queue-IsOrdered no_more = tt
  Queue-IsOrdered (one_more {groups = groups} v l s q) = (
    λ last e. nothing_behind last q (marked (length groups) version last (sym l ∙ e)).0,
    Queue-IsOrdered q,
  )

-- The state behind a call that has cut `queue` out of `object`.
pushed : SparseIterator → List ℕ → ℕ → CircularBuffer (List Minibatch) → SparseIterator
pushed it object n ring = record it {
  list_strings = insert it.str_version object it.list_strings;
  minibatches_list = ring;
  num_minibatches_ready = (it.num_minibatches_ready + n) % 2 ^ 32;
  available = it.available + n;
  str_version = (it.str_version + 1) % 2 ^ 32;
}

pushed-version :
    (it : SparseIterator) (object : List ℕ) (n : ℕ) (ring : CircularBuffer (List Minibatch))
    → it.str_version + 1 < 2 ^ 32
    → (pushed it object n ring).str_version ≡ it.str_version + 1
unfolding pushed
pushed-version it object n ring room = omega arith

pushed_ring :
    (it : SparseIterator) (object : List ℕ) (n : ℕ) (ring : CircularBuffer (List Minibatch))
    → (pushed it object n ring).minibatches_list ≡ ring
unfolding pushed
pushed_ring it object n ring = refl

-- The strings of the new minibatches are there.
new-stored :
    (version : ℕ) (object : List ℕ) (strings : List (ℕ × List ℕ)) (queue : List Minibatch)
    → All (IsNew version) queue
    → All (IsStored (insert version object strings)) queue
new-stored version object strings [] new = tt
new-stored version object strings (m ∷ ms) (n, new) =
    let same : (version == m.version) ≡ true = ground (arith, n.0) in
    (
      (object, lookup-insert version m.version object strings ∙ rw same refl),
      new-stored version object strings ms new,
    )

pushed-IsReady :
    (it : SparseIterator) (object : List ℕ) (queue : List Minibatch)
    (ring : CircularBuffer (List Minibatch))
    → IsReady it
    → it.str_version + 1 < 2 ^ 32
    → All (IsNew it.str_version) queue
    → IsOrdered queue
    → IsValid ring
    → contents [] ring ≡ contents [] it.minibatches_list ++ (queue ∷ [])
    → IsReady (pushed it object (length queue) ring)
      × (pending (pushed it object (length queue) ring) ≡ pending it ++ queue)
unfolding pushed
pushed-IsReady it object queue ring h room new ordered v e =
    let all : flat (contents [] ring) ≡ pending it ++ queue =
      ap flat e
      ∙ flat-append (contents [] it.minibatches_list) (queue ∷ [])
      ∙ ap (λ q. pending it ++ q) (append-nil queue) in
    let later : (it.str_version + 1) % 2 ^ 32 ≡ it.str_version + 1 = omega arith in
    let strings = insert it.str_version object it.list_strings in
    let stored =
      append-All (IsStored strings) (pending it) queue
        (insert-stored it.str_version object it.list_strings (pending it) h.older h.stored)
        (new-stored it.str_version object it.list_strings queue new) in
    let older : All (IsOlder ((it.str_version + 1) % 2 ^ 32)) (pending it ++ queue) = rw later (
      append-All (IsOlder (it.str_version + 1)) (pending it) queue
        (map-All (IsOlder it.str_version) (IsOlder (it.str_version + 1)) (pending it)
          (λ m o. (omega (arith, o.0), λ last l. omega (arith, o.1 last l))) h.older)
        (map-All (IsNew it.str_version) (IsOlder (it.str_version + 1)) queue
          (λ m o. (omega (arith, o.0), λ last l. omega (arith, o.1 last l))) new)) in
    (
      record {
        valid = v;
        counted =
            ap (λ k. k + length queue) h.counted
            ∙ sym (length-append (pending it) queue)
            ∙ ap length (sym all);
        stored = subst (All (IsStored strings)) (sym all) stored;
        unused = λ version d. subst (All (Differs version)) (sym all) (
            append-All (Differs version) (pending it) queue (h.unused version d) (
              map-All (IsNew it.str_version) (Differs version) queue
                (λ m o same. ground (arith, o.0, same, h.deleted_older version d)) new));
        deleted_older = λ version d. rw later (omega (arith, h.deleted_older version d));
        ordered =
            subst IsOrdered (sym all)
              (append-IsOrdered it.str_version (pending it) queue h.older new h.ordered ordered);
        older = subst (All (IsOlder ((it.str_version + 1) % 2 ^ 32))) (sym all) older;
      },
      all,
    )

module _ {F D : Type 0} (fl : Floats F D) (exact : IsExact fl) (source : Source) where
  push_samples-parts :
      (it : SparseIterator) (object samples bytes : List ℕ) (queue : List Minibatch)
      (ring : CircularBuffer (List Minibatch)) (size count n : ℕ)
      → minibatch_count source.s3_rows source.minibatch_rows ≡ ok n
      → load_u32 object ≡ ok (size, samples)
      → load_u32 samples ≡ ok (count, bytes)
      → cut fl source it.str_version n bytes ≡ ok queue
      → CircularBuffer.add queue it.minibatches_list ≡ ok ring
      → push_samples fl source object it ≡ ok (pushed it object n ring)
  unfolding push_samples pushed
  push_samples-parts it object samples bytes queue ring size count n e₁ e₂ e₃ e₄ e₅ =
      rw (e₁, e₂, e₃, e₄, e₅) refl

  -- The minibatches of an object come behind those that wait.
  pub push_samples-Waits :
      (it : SparseIterator) (earlier groups : List (List (Sample F))) (size count : ℕ)
      (rest : List ℕ)
      → IsReady it
      → Waits fl source.use_label source.minibatch_rows earlier (pending it)
      → it.str_version + 1 < 2 ^ 32
      → suc (CircularBuffer.size it.minibatches_list) < it.minibatches_list.capacity
      → minibatch_count source.s3_rows source.minibatch_rows ≡ ok (length groups)
      → size < 2 ^ 32
      → count < 2 ^ 32
      → All (IsGroup fl source.use_label source.minibatch_rows) groups
      → (it' : SparseIterator) × (push_samples fl source
            (store_u32 size (store_u32 count (store_list (store_sample fl) (flat groups) rest)))
            it
          ≡ ok it')
        × IsReady it'
        × Waits fl source.use_label source.minibatch_rows (earlier ++ groups) (pending it')
        × (it'.str_version ≡ it.str_version + 1)
        × (it'.minibatches_list.capacity ≡ it.minibatches_list.capacity)
  push_samples-Waits it earlier groups size count rest h w room free n small small' all =
      let bytes = store_list (store_sample fl) (flat groups) rest in
      let (queue, run, q) = cut-Queue fl exact source it.str_version groups rest all in
      let (ring, added, v, same, e) = contents-add [] queue it.minibatches_list h.valid free in
      let (ready, now) =
        pushed-IsReady it (store_u32 size (store_u32 count bytes)) queue ring h room (Queue-IsNew q)
          (Queue-IsOrdered q) v e in
      (
        pushed it (store_u32 size (store_u32 count bytes)) (length queue) ring,
        rw (length-Queue q) (
            push_samples-parts it (store_u32 size (store_u32 count bytes)) (store_u32 count bytes)
              bytes queue ring size count (length groups) n
              (load_u32-store_u32 size (store_u32 count bytes) small)
              (load_u32-store_u32 count bytes small') run added),
        ready,
        rw now (append-Waits fl w (Queue-Waits q)),
        pushed-version it (store_u32 size (store_u32 count bytes)) (length queue) ring room,
        ap (λ r. r.capacity)
              (pushed_ring it (store_u32 size (store_u32 count bytes)) (length queue) ring)
            ∙ same,
      )
