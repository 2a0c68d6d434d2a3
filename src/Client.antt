-- ===== src/Client.antt =====
-- `PSSparseServerInterface` of src/PSSparseServerInterface.cpp: the worker's end of the protocol. A
-- call is its message, which is sent, and what is made of the reply, which is read later.
use cirrus.Prelude.{
  ℕ, ◌-◌, ◌*◌, Option, none, some, List, [], ◌∷◌, ◌++◌, leb, ltb, ◌==◌, has, if◌then◌else◌, length,
  replicate, min, take,
}
use cirrus.Prelude.Result.{
  Result, ok, err, undefined, assert_failed, runtime_error, guard, ◌>>=◌, ◌>>◌,
}
use cirrus.Floats.{Floats}
use cirrus.Bytes.{store_u32, load_u32, store_list, load_list, load_float}
use cirrus.Operations.{
  code, send_lr_gradient, send_mf_gradient, get_lr_sparse_model, get_mf_sparse_model,
  set_task_status, get_task_status, register_task, get_value, set_value, deregister_task, key_size,
}
use cirrus.Server.{Conn, read_all, receive, send_all}
use cirrus.Gradient.LrSparse as LrSparse
use cirrus.Gradient.MfSparse as MfSparse
use cirrus.SparseLr as SparseLr
use cirrus.MfModel as MfModel
use cirrus.SparseMf as SparseMf

-- `if (send_all(...) == -1) throw`
pub send_or_throw : Conn → List ℕ → Result Conn
send_or_throw c bytes =
    let (sent, c') = send_all c bytes in if sent then ok c' else err runtime_error

unfoldable pub register_task_message : ℕ → ℕ → List ℕ
register_task_message id remaining_time =
    store_u32 (code register_task) (store_u32 id (store_u32 remaining_time []))

unfoldable pub deregister_task_message : ℕ → List ℕ
deregister_task_message id = store_u32 (code deregister_task) (store_u32 id [])

unfoldable pub set_status_message : ℕ → ℕ → List ℕ
set_status_message id status = store_u32 (code set_task_status) (store_u32 id (store_u32 status []))

unfoldable pub get_status_message : ℕ → List ℕ
get_status_message id = store_u32 (code get_task_status) (store_u32 id [])

pub send_register_task : ℕ → ℕ → Conn → Result Conn
send_register_task id remaining_time c = send_or_throw c (register_task_message id remaining_time)

pub send_deregister_task : ℕ → Conn → Result Conn
send_deregister_task id c = send_or_throw c (deregister_task_message id)

pub send_set_status : ℕ → ℕ → Conn → Result Conn
send_set_status id status c = send_or_throw c (set_status_message id status)

pub send_get_status : ℕ → Conn → Result Conn
send_get_status id c = send_or_throw c (get_status_message id)

-- The reply of `register_task`, `deregister_task` and `get_status`.
unfoldable pub receive_status : Conn → Result (ℕ × Conn)
receive_status c =
    receive c 4 (λ c'. err runtime_error)
      λ bytes c'. do (status, rest) ← load_u32 bytes; ok (status, c')

-- A key in its array of zeros.
unfoldable pub key_char : List ℕ → List ℕ
key_char key = key ++ replicate (key_size - length key) 0

unfoldable pub set_value_message : List ℕ → List ℕ → List ℕ
set_value_message key value =
    store_u32 (code set_value) [] ++ (key_char key ++ (store_u32 (length value) [] ++ value))

-- Four calls of `send_all`.
pub send_set_value : List ℕ → List ℕ → Conn → Result Conn
send_set_value key value c = do
  guard (leb (length key) key_size) assert_failed
  c₁ ← send_or_throw c (store_u32 (code set_value) [])
  c₂ ← send_or_throw c₁ (key_char key)
  c₃ ← send_or_throw c₂ (store_u32 (length value) [])
  send_or_throw c₃ value

unfoldable pub get_value_message : List ℕ → List ℕ
get_value_message key = store_u32 (code get_value) [] ++ key_char key

-- The key's length is not tested, and the array has `key_size` bytes.
pub send_get_value : List ℕ → Conn → Result Conn
send_get_value key c = do
  guard (leb (length key) key_size) undefined
  c₁ ← send_or_throw c (store_u32 (code get_value) [])
  send_or_throw c₁ (key_char key)

-- `read_all` where any other number than the length is thrown.
unfoldable pub read_exactly : Conn → ℕ → Result (List ℕ × Conn)
read_exactly c len = do
  (n, bytes, c') ← read_all c len
  guard (n == len) runtime_error
  ok (bytes, c')

-- `none` stands for the null pointer with the size 0.
unfoldable pub receive_value : Conn → Result (Option (List ℕ) × Conn)
receive_value c = do
  (bytes, c₁) ← read_exactly c 4
  (size, rest) ← load_u32 bytes
  if size == 0 then ok (none, c₁) else do (value, c₂) ← read_exactly c₁ size; ok (some value, c₂)

-- `send`, which takes as many bytes as the peer has room for, and fails if it has none.
pub send_some : Conn → List ℕ → Result Conn
send_some c bytes = do
  guard (ltb 0 c.room) runtime_error
  let taken = min (length bytes) c.room
  ok (record c { outgoing = c.outgoing ++ take taken bytes; room = c.room - taken })

module _ {F : Type 0} where
  -- The indices of all entries, row after row.
  pub row_indices : List (ℕ × F) → List ℕ → List ℕ
  row_indices [] ids = ids
  row_indices ((index, value) ∷ row) ids = index ∷ row_indices row ids

  pub indices : List (List (ℕ × F)) → List ℕ
  indices [] = []
  indices (row ∷ rows) = row_indices row (indices rows)

  -- The ids of the movies in a row that are not in `seen` yet, which has a place for each item.
  pub new_items : List (ℕ × F) → List ℕ → Result (List ℕ)
  new_items [] seen = ok seen
  new_items ((id, rating) ∷ row) seen = do
    guard (ltb id SparseMf.max_items) undefined
    new_items row (if has seen id then seen else seen ++ (id ∷ []))

  -- The ids of all rows, each once.
  pub seen_items : List (List (ℕ × F)) → List ℕ → Result (List ℕ)
  seen_items [] seen = ok seen
  seen_items (row ∷ rows) seen = do seen' ← new_items row seen; seen_items rows seen'

unfoldable pub sparse_mf_body : ℕ → ℕ → List ℕ → List ℕ
sparse_mf_body user_base minibatch_size ids = store_u32 (length ids) (
    store_u32 user_base
      (store_u32 minibatch_size (store_u32 MfSparse.magic_number (store_list store_u32 ids []))))

module _ {F D : Type 0} (fl : Floats F D) where
  -- Neither call tests the last `send_all` for -1, which it returns where it fails.
  pub send_lr : LrSparse.LrSparseGradient F → Conn → Result Conn
  send_lr g c = do
    c₁ ← send_some c (store_u32 (code send_lr_gradient) [])
    c₂ ← send_some c₁ (store_u32 (LrSparse.serialized_size fl g) [])
    ok (send_all c₂ (LrSparse.serialize fl g [])).1

  pub send_mf : MfSparse.MfSparseGradient F → Conn → Result Conn
  send_mf g c = do
    c₁ ← send_some c (store_u32 (code send_mf_gradient) [])
    c₂ ← send_some c₁ (store_u32 (MfSparse.serialized_size fl g) [])
    bytes ← MfSparse.serialize fl g []
    ok (send_all c₂ bytes).1

  -- The message buffer has 1 MB.
  pub send_get_lr_sparse : List (List (ℕ × F)) → Conn → Result Conn
  send_get_lr_sparse samples c = do
    let ids = indices samples
    let body = store_u32 (length ids) (store_list store_u32 ids [])
    guard (leb (length body) 1_048_576) undefined
    c₁ ← send_or_throw c (store_u32 (code get_lr_sparse_model) [])
    let (sent, c₂) = send_all c₁ (store_u32 (length body) [])
    send_or_throw c₂ body

  -- What is not received is uninitialized memory.
  unfoldable pub receive_weights : ℕ → Conn → Result (List F × Conn)
  receive_weights num_weights c = do
    (n, bytes, c') ← read_all c (num_weights * 4)
    (weights, rest) ← load_list (load_float fl) num_weights bytes
    ok (weights, c')

  -- `get_full_model(false)`: the model's own first four bytes are the size.
  pub receive_lr_model : Conn → Result (SparseLr.SparseLr F × Conn)
  receive_lr_model c =
      receive c 4 (λ c'. err runtime_error)
        λ bytes c₁. do
          (model_size, rest) ← load_u32 bytes
          receive c₁ (model_size * 4) (λ c'. err runtime_error)
              λ weights c₂. do
                m ←
                    SparseLr.load_serialized fl (SparseLr.construct fl (fl.narrow fl.nought) 0)
                      (store_u32 model_size weights)
                ok (m, c₂)

  -- `get_full_model(true)`
  pub receive_mf_model : Conn → Result (MfModel.MfModel F × Conn)
  receive_mf_model c = do
    (n, bytes, c₁) ← read_all c 4
    (to_receive_size, rest) ← load_u32 bytes
    (n', model, c₂) ← read_all c₁ to_receive_size
    m ← MfModel.load_serialized fl model
    ok (m, c₂)

  pub send_get_sparse_mf : List (List (ℕ × F)) → ℕ → ℕ → Conn → Result (ℕ × Conn)
  send_get_sparse_mf samples user_base minibatch_size c = do
    seen ← seen_items samples []
    let body = sparse_mf_body user_base minibatch_size seen
    guard (leb (length body) 1_048_576) undefined
    let (sent, c₁) = send_all c (store_u32 (code get_mf_sparse_model) [])
    let (sent', c₂) = send_all c₁ (store_u32 (length body) [])
    c₃ ← send_or_throw c₂ body
    ok (length seen, c₃)

  unfoldable pub receive_sparse_mf : ℕ → ℕ → Conn → Result (SparseMf.SparseMf F × Conn)
  receive_sparse_mf minibatch_size item_ids_count c = do
    (n, bytes, c₁) ← read_all c 4
    (to_receive_size, rest) ← load_u32 bytes
    receive c₁ to_receive_size (λ c'. err runtime_error)
        λ rows c₂. do
          m ←
              SparseMf.load_serialized fl minibatch_size item_ids_count (SparseMf.construct fl 0)
                rows
          ok (m, c₂)
