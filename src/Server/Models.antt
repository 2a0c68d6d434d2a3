-- ===== src/Server/Models.antt =====
-- The handlers of src/PSSparseServerTask.cpp for the two models and their gradients.
use cirrus.Prelude.{
  ℕ, zero, suc, ◌+◌, ◌-◌, ◌*◌, ◌%◌, ◌^◌, Bool, true, false, not, List, [], ◌∷◌, ◌++◌, ltb, ◌==◌,
  if◌then◌else◌, length, take, drop,
}
use cirrus.Prelude.Result.{Result, ok, undefined, assert_failed, runtime_error, guard, ◌>>=◌, ◌>>◌}
use cirrus.Floats.{Floats}
use cirrus.Bytes.{store_u32, load_u32, store_float}
use cirrus.Gradient.LrSparse as LrSparse
use cirrus.Gradient.MfSparse as MfSparse
use cirrus.SparseLr as SparseLr
use cirrus.MfModel as MfModel
use cirrus.SparseMf as SparseMf
use cirrus.Optimizer.{sgd_update, edit_weight}
use cirrus.Server.{
  Conn, Server, Worker, write_buffer, read_all, receive, send_all, handle_failed_read,
}

-- What such a handler returns, with the new state.
abbrev pub Served : Type 0 → Type 0 → Type 0
Served F D = Bool × Server F D × Conn × Worker

-- The number of floats in `data_to_send`.
abbrev pub max_weights : ℕ
max_weights = 262_144

module _ {F D : Type 0} (fl : Floats F D) where
  unfoldable pub lost : Server F D → Worker → Conn → Result (Served F D)
  lost s w c = let (s', c') = handle_failed_read s c in ok (false, s', c', w)

  -- The size that the three longer requests start with, and the bytes that it announces.
  unfoldable pub receive_body :
      Server F D → Worker → Conn → (Conn → Worker → Result (Served F D)) → Result (Served F D)
  receive_body s w c next = receive c 4 (lost s w) λ bytes c'. do
    (size, rest) ← load_u32 bytes
    guard (not (ltb (length w.buffer) size)) runtime_error
    (n, body, c'') ← read_all c' size
    buffer ← write_buffer body w.buffer
    let w' = record w { buffer = buffer }
    if n == 0 then ok (false, s, c'', w') else next c'' w'

  abbrev pub count_gradient : Server F D → Server F D
  count_gradient s = record s { gradient_updates = (s.gradient_updates + 1) % 2 ^ 64 }

  unfoldable pub process_send_lr_gradient : Server F D → Conn → Worker → Result (Served F D)
  process_send_lr_gradient s c w = receive_body s w c λ c' w'. do
    gradient ← LrSparse.load_serialized fl w'.buffer
    (method, model) ← sgd_update fl s.opt_method gradient.weights s.lr_model
    ok (true, count_gradient (record s { lr_model = model; opt_method = method }), c', w')

  unfoldable pub process_send_mf_gradient : Server F D → Conn → Worker → Result (Served F D)
  process_send_mf_gradient s c w = receive_body s w c λ c' w'. do
    gradient ← MfSparse.load_serialized fl (MfSparse.construct fl) w'.buffer
    model ← MfModel.sgd_update fl s.learning_rate gradient s.mf_model
    ok (true, count_gradient (record s { mf_model = model }), c', w')

  -- The loop over `n` entries; `room` weights still fit in `data_to_send`.
  unfoldable pub weights_of : Server F D → ℕ → ℕ → List ℕ → Result (List ℕ)
  weights_of s room zero bytes = ok []
  weights_of s room (suc n) bytes = do
    (index, bytes') ← load_u32 bytes
    weight ← SparseLr.get_nth_weight fl s.lr_model index
    guard (ltb 0 room) undefined
    weights ← weights_of s (room - 1) n bytes'
    ok (store_float fl (fl.narrow (edit_weight fl s.opt_method (fl.widen weight))) weights)

  unfoldable pub process_get_lr_sparse_model : Server F D → Conn → Worker → Result (Served F D)
  process_get_lr_sparse_model s c w = receive_body s w c λ c' w'. do
    (num_entries, indices) ← load_u32 w'.buffer
    let to_send_size = num_entries * 4 % 2 ^ 32
    guard (ltb to_send_size 1_048_576) assert_failed
    weights ← weights_of s max_weights num_entries indices
    let (sent, c'') = send_all c' (take to_send_size weights)
    ok (sent, s, c'', w')

  unfoldable pub process_get_lr_full_model : Server F D → Conn → Worker → Result (Served F D)
  process_get_lr_full_model s c w = do
    let model_size = SparseLr.serialized_size fl s.lr_model % 2 ^ 32
    guard (not (ltb (length w.buffer) model_size)) runtime_error
    buffer ← write_buffer (SparseLr.serialize_to fl s.lr_model []) w.buffer
    let (sent, c') = send_all c (take model_size buffer)
    ok (sent, s, c', record w { buffer = buffer })

  -- The size and the bytes, in two calls of `send_all`.
  unfoldable pub send_sized : ℕ → List ℕ → Server F D → Conn → Worker → Result (Served F D)
  send_sized size bytes s c w =
      let (sent, c') = send_all c (store_u32 size []) in
      let (sent', c'') = send_all c' (take size bytes) in
      if sent then ok (sent', s, c'', w) else ok (false, s, c', w)

  unfoldable pub process_get_mf_full_model : Server F D → Conn → Worker → Result (Served F D)
  process_get_mf_full_model s c w = do
    let model_size = MfModel.serialized_size fl s.mf_model % 2 ^ 32
    guard (not (ltb (length w.buffer) model_size)) runtime_error
    buffer ← write_buffer (MfModel.serialize_to fl s.mf_model []) w.buffer
    send_sized model_size buffer s c (record w { buffer = buffer })

  -- A variable that is 0 before `read_all` is called for it, whose result is not tested.
  unfoldable pub read_u32 : Conn → Result (ℕ × Conn)
  read_u32 c = do
    (n, bytes, c') ← read_all c 4
    (value, rest) ← load_u32 (bytes ++ drop (length bytes) (0 ∷ 0 ∷ 0 ∷ 0 ∷ []))
    ok (value, c')

  unfoldable pub process_get_mf_sparse_model : Server F D → Conn → Worker → Result (Served F D)
  process_get_mf_sparse_model s c w = receive c 4 (lost s w) λ incoming_size c₁. do
    (k_items, c₂) ← read_u32 c₁
    (base_user_id, c₃) ← read_u32 c₂
    (minibatch_size, c₄) ← read_u32 c₃
    (magic_value, c₅) ← read_u32 c₄
    guard (ltb 0 k_items) assert_failed
    guard (ltb 0 minibatch_size) assert_failed
    guard (magic_value == MfSparse.magic_number) runtime_error
    (n, ids, c₆) ← read_all c₅ (k_items * 4)
    buffer ← write_buffer ids w.buffer
    let row_size = 4 + (MfSparse.num_factors + 1) * 4
    let to_send_size = (minibatch_size * row_size + k_items * row_size) % 2 ^ 32
    rows ← SparseMf.serialize_from_dense fl s.mf_model base_user_id minibatch_size k_items buffer []
    msg_buffer ← write_buffer rows w.msg_buffer
    send_sized to_send_size msg_buffer s c₆ (record { buffer = buffer; msg_buffer = msg_buffer })
