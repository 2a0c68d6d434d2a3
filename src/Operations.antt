-- ===== src/Operations.antt =====
-- The operations of src/Constants.h, by which a request starts.
use cirrus.Prelude.{ℕ}

-- PS_OP
pub data Operation : Type 0 where
  send_lr_gradient send_mf_gradient get_lr_full_model get_mf_full_model : Operation
  get_lr_sparse_model get_mf_sparse_model set_task_status get_task_status : Operation
  register_task get_num_conns get_num_updates get_last_time_error : Operation
  kill_signal get_value set_value deregister_task : Operation

abbrev pub code : Operation → ℕ
code send_lr_gradient = 0
code send_mf_gradient = 1
code get_lr_full_model = 2
code get_mf_full_model = 3
code get_lr_sparse_model = 4
code get_mf_sparse_model = 5
code set_task_status = 6
code get_task_status = 7
code register_task = 8
code get_num_conns = 9
code get_num_updates = 10
code get_last_time_error = 11
code kill_signal = 12
code get_value = 13
code set_value = 14
code deregister_task = 15

-- KEY_SIZE of src/config.h
abbrev pub key_size : ℕ
key_size = 10
