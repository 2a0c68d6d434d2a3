-- ===== src/Server/Dispatch.antt =====
-- `gradient_f` of src/PSSparseServerTask.cpp: what a worker thread does with one request.
use cirrus.Prelude.{ℕ, true, Option, none, some, List, [], ◌∷◌, number_key}
use cirrus.Prelude.Result.{Result, ok, err, runtime_error, ◌>>=◌}
use cirrus.Prelude.Table.{lookup}
use cirrus.Floats.{Floats}
use cirrus.Bytes.{load_u32}
use cirrus.Operations.{
  Operation, code, send_lr_gradient, send_mf_gradient, get_lr_full_model, get_mf_full_model,
  get_lr_sparse_model, get_mf_sparse_model, set_task_status, get_task_status, register_task,
  get_num_conns, get_num_updates, get_last_time_error, kill_signal, get_value, set_value,
  deregister_task,
}
use cirrus.Server.{Conn, Server, Worker, Handled, receive, handle_failed_read}
use cirrus.Server.Tasks.{
  process_set_task_status, process_get_task_status, process_register_task, process_deregister_task,
  process_get_num_conns, process_get_num_updates,
}
use cirrus.Server.Values.{process_set_value, process_get_value}
use cirrus.Server.Models.{
  Served, process_send_lr_gradient, process_send_mf_gradient, process_get_lr_sparse_model,
  process_get_lr_full_model, process_get_mf_full_model, process_get_mf_sparse_model,
}

-- `operation_to_f`
abbrev entry : Operation → ℕ × Operation
entry op = (code op, op)

unfoldable pub operation_to_f : List (ℕ × Operation)
operation_to_f =
    entry send_lr_gradient
    ∷ entry send_mf_gradient
    ∷ entry get_lr_sparse_model
    ∷ entry get_mf_sparse_model
    ∷ entry get_mf_full_model
    ∷ entry get_lr_full_model
    ∷ entry set_task_status
    ∷ entry get_task_status
    ∷ entry get_num_conns
    ∷ entry get_num_updates
    ∷ entry register_task
    ∷ entry deregister_task
    ∷ entry set_value
    ∷ entry get_value
    ∷ []

-- What the thread does next: the loop goes on, or it is left.
pub data Next : Type 0 where
  continues ends : Next

module _ {F D : Type 0} (fl : Floats F D) where
  unfoldable pub keep : Worker → Result (Handled F D) → Result (Served F D)
  keep w done = do (result, s, c) ← done; ok (result, s, c, w)

  -- A call of the function that the map has for the operation; an empty `std::function` throws.
  unfoldable pub handle : Operation → ℕ → Server F D → Conn → Worker → Result (Served F D)
  handle send_lr_gradient now s c w = process_send_lr_gradient fl s c w
  handle send_mf_gradient now s c w = process_send_mf_gradient fl s c w
  handle get_lr_full_model now s c w = process_get_lr_full_model fl s c w
  handle get_mf_full_model now s c w = process_get_mf_full_model fl s c w
  handle get_lr_sparse_model now s c w = process_get_lr_sparse_model fl s c w
  handle get_mf_sparse_model now s c w = process_get_mf_sparse_model fl s c w
  handle set_task_status now s c w = keep w (process_set_task_status s c)
  handle get_task_status now s c w = keep w (process_get_task_status s c)
  handle register_task now s c w = keep w (process_register_task now s c)
  handle get_num_conns now s c w = keep w (process_get_num_conns s c)
  handle get_num_updates now s c w = keep w (process_get_num_updates s c)
  handle get_last_time_error now s c w = err runtime_error
  handle kill_signal now s c w = err runtime_error
  handle get_value now s c w = keep w (process_get_value s c)
  handle set_value now s c w = keep w (process_set_value s c)
  handle deregister_task now s c w = keep w (process_deregister_task s c)

  -- `kill_server(); break;`, or the handler, after which the socket's events are reactivated.
  unfoldable pub run_operation :
      Operation → ℕ → Server F D → Conn → Worker → Result (Next × Server F D × Conn × Worker)
  run_operation kill_signal now s c w = ok (ends, record s { kill_signal = true }, c, w)
  run_operation op now s c w = do
    (result, s', c', w') ← handle op now s c w
    ok (continues, s', record c' { is_armed = true }, w')

  unfoldable pub dispatch :
      Option Operation → ℕ → Server F D → Conn → Worker → Result (Next × Server F D × Conn × Worker)
  dispatch none now s c w = err runtime_error
  dispatch (some op) now s c w = run_operation op now s c w

  -- The body of the loop, from the request that is taken off the queue on.
  unfoldable pub serve : ℕ → Server F D → Conn → Worker → Result (Next × Server F D × Conn × Worker)
  serve now s c w =
      receive c 4 (λ c'. let (s', c'') = handle_failed_read s c' in ok (continues, s', c'', w))
        λ bytes c'. do
          (operation, rest) ← load_u32 bytes
          dispatch (lookup operation operation_to_f) now s c' w
