-- ===== src/SparseIterator.antt =====
-- `S3SparseIterator` of src/S3SparseIterator.cpp: the minibatches of the objects that its thread fetches.
pub mod Ring
pub mod Delivery
pub mod Objects
pub mod Push
pub mod Fetched
mod Tests
use cirrus.Prelude.{
  ℕ, zero, suc, ◌+◌, ◌-◌, ◌*◌, ◌/◌, ◌%◌, ◌^◌, Bool, true, false, not, ◌&&◌, ◌||◌, Option, none,
  some, List, [], ◌∷◌, drop, set, ltb, ◌==◌, if◌then◌else◌, number_key,
}
use cirrus.Prelude.Result.{Result, ok, err, undefined, assert_failed, guard, ◌>>=◌, ◌>>◌}
use cirrus.Prelude.Table.{lookup, insert, erase}
use cirrus.Floats.{Floats}
use cirrus.Bytes.{load_u32, load_float, is_negative}
use cirrus.SparseDataset.{SparseDataset, is_zero_or_one}
use cirrus.SparseDataset.Wire.{from_memory}
use cirrus.CircularBuffer
use cirrus.CircularBuffer.{CircularBuffer}

-- A pointer into the string `version`, of which `bytes` is what lies at and behind it; `last` is the
-- version that goes when the minibatch has been used.
pub record Minibatch : Type 0 where
  pub version : ℕ
  pub bytes : List ℕ
  pub last : Option ℕ

-- The arguments of the constructor. `read_ahead` is a field with the value 1.
pub record Source : Type 0 where
  pub left_id : ℕ
  pub right_id : ℕ
  pub s3_rows : ℕ
  pub minibatch_rows : ℕ
  pub use_label : Bool
  pub has_labels : Bool

abbrev pub read_ahead : ℕ
read_ahead = 1

-- The ring holds pointers to queues, and each queue has one: a cell is its queue. `available` and
-- `prefetch` are the values of the two semaphores.
pub record SparseIterator : Type 0 where
  pub current : ℕ
  pub str_version : ℕ
  pub list_strings : List (ℕ × List ℕ)
  pub minibatches_list : CircularBuffer (List Minibatch)
  pub num_minibatches_ready : ℕ
  pub available : ℕ
  pub prefetch : ℕ
  pub to_delete : Option ℕ

-- `getObjId` without random access: the object, and the next value of `current`.
pub get_obj_id : Source → SparseIterator → ℕ × SparseIterator
get_obj_id source it =
    let next = (it.current + 1) % 2 ^ 64 in
    (it.current, record it { current = (if next == source.right_id then source.left_id else next) })

-- The constructor without random access.
pub construct : Source → Result SparseIterator
construct source = do
  ring ← CircularBuffer.construct [] 100_000
  ok (record {
    current = source.left_id;
    str_version = 0;
    list_strings = [];
    minibatches_list = ring;
    num_minibatches_ready = 0;
    available = 0;
    prefetch = read_ahead;
    to_delete = none;
  })

-- `s3_rows / minibatch_rows`
pub minibatch_count : ℕ → ℕ → Result ℕ
minibatch_count rows zero = err undefined
minibatch_count rows (suc n) = ok (rows / suc n)

pub erase_used : Option ℕ → List (ℕ × List ℕ) → List (ℕ × List ℕ)
erase_used none strings = strings
erase_used (some version) strings = erase version strings

-- The loop over empty queues, on fuel. `front` throws when the ring is empty.
pub discard_empty :
    ℕ
    → CircularBuffer (List Minibatch)
    → Result (Minibatch × List Minibatch × CircularBuffer (List Minibatch))
discard_empty zero ring = err undefined
discard_empty (suc fuel) ring = do
  queue ← CircularBuffer.peek ring
  elim queue [
    | m ∷ rest ↦ ok (m, rest, ring)
    | [] ↦ do (empty, ring') ← CircularBuffer.pop ring; discard_empty fuel ring'
  ]

-- What the pointer of a minibatch points at.
pub read_minibatch : List (ℕ × List ℕ) → Minibatch → Result (List ℕ)
read_minibatch strings m = elim (lookup m.version strings) [
  | none ↦ err undefined
  | some object ↦ ok m.bytes
]

module _ {F D : Type 0} (fl : Floats F D) where
  -- A sample is passed over.
  pub skip_values : List ℕ → Result (List ℕ)
  skip_values bytes = do
    (n, bytes') ← load_u32 bytes
    guard (not (is_negative n) && ltb n 1_000_000) assert_failed
    ok (drop (n * (4 + 4)) bytes')

  pub skip_sample : Bool → List ℕ → Result (List ℕ)
  skip_sample false bytes = skip_values bytes
  skip_sample true bytes = do
    (label, bytes') ← load_float fl bytes
    guard (is_zero_or_one fl label) assert_failed
    skip_values bytes'

  pub skip_samples : Bool → ℕ → List ℕ → Result (List ℕ)
  skip_samples use_label zero bytes = ok bytes
  skip_samples use_label (suc n) bytes = do
    bytes' ← skip_sample use_label bytes
    skip_samples use_label n bytes'

  -- The queue of `n` minibatches of an object.
  pub cut : Source → ℕ → ℕ → List ℕ → Result (List Minibatch)
  cut source version zero bytes = ok []
  cut source version (suc n) bytes = do
    bytes' ← skip_samples source.use_label source.minibatch_rows bytes
    queue ← cut source version n bytes'
    let last = if n == 0 then some version else none
    ok ((record { version = version; bytes = bytes; last = last }) ∷ queue)

  pub push_samples : Source → List ℕ → SparseIterator → Result SparseIterator
  push_samples source object it = do
    n ← minibatch_count source.s3_rows source.minibatch_rows
    (size, bytes) ← load_u32 object
    (samples, bytes') ← load_u32 bytes
    queue ← cut source it.str_version n bytes'
    ring ← CircularBuffer.add queue it.minibatches_list
    ok (record it {
      list_strings = insert it.str_version object it.list_strings;
      minibatches_list = ring;
      num_minibatches_ready = (it.num_minibatches_ready + n) % 2 ^ 32;
      available = it.available + n;
      str_version = (it.str_version + 1) % 2 ^ 32;
    })

  -- A turn of the thread, `none` while it waits at `pref_sem`; `get_object` is the store.
  pub fetch_object : (ℕ → List ℕ) → Source → SparseIterator → Result (Option SparseIterator)
  fetch_object get_object source it = elim it.prefetch [
    | zero ↦ ok none
    | suc prefetch ↦ do
      let (id, it₁) = get_obj_id source (record it { prefetch = prefetch })
      it₂ ← push_samples source (get_object id) it₁
      ok (some it₂)
  ]

  -- `getNext`; `none` while it waits at the semaphore. `config_rows` is the size of a minibatch in the
  -- configuration.
  pub take_next :
      Source → ℕ → ℕ → SparseIterator → Result (Option (SparseDataset F × SparseIterator))
  take_next source config_rows zero it = ok none
  take_next source config_rows (suc available) it = do
    let strings = erase_used it.to_delete it.list_strings
    (m, rest, ring) ←
        discard_empty (suc (CircularBuffer.size it.minibatches_list)) it.minibatches_list
    let ready = (it.num_minibatches_ready + (2 ^ 32 - 1)) % 2 ^ 32
    bytes ← read_minibatch strings m
    (ds, behind) ← from_memory fl bytes config_rows source.has_labels
    ok (
        some (
          ds,
          record it {
            list_strings = strings;
            minibatches_list = record ring { buffer = set ring.buffer ring.front rest };
            num_minibatches_ready = ready;
            available = available;
            prefetch =
                (if (is_negative ready || ltb ready 200) && ltb it.prefetch read_ahead
                  then it.prefetch + 1
                  else it.prefetch);
            to_delete = m.last;
          },
        ))

  pub get_next : Source → ℕ → SparseIterator → Result (Option (SparseDataset F × SparseIterator))
  get_next source config_rows it = take_next source config_rows it.available it
