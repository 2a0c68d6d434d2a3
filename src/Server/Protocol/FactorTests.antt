-- ===== src/Server/Protocol/FactorTests.antt =====
-- A worker that fetches the rows of one user and one item.
use cirrus.Prelude.{ℕ, ◌≡◌, refl, true, false, List, [], ◌∷◌, ◌++◌, arith, replicate, length}
use cirrus.Prelude.Result.{ok}
use cirrus.Floats.{whole, whole-IsExact}
use cirrus.Bytes.{store_u32}
use cirrus.Operations.{code, get_mf_sparse_model}
use cirrus.Gradient.MfSparse.{num_factors}
use cirrus.MfModel.{MfModel, default_bias}
use cirrus.MfModel.Access.{IsServed}
use cirrus.SparseMf.FromDense.{users_of, items_of}
use cirrus.Optimizer.{sgd}
use cirrus.Server.{Conn, Server, Worker}
use cirrus.Server.Dispatch.{continues, serve}
use cirrus.Server.Requests.{at_rest}
use cirrus.Server.Protocol.{done}
use cirrus.Server.Protocol.Factors.{rows_written, get_mf_sparse_model-serve}
use cirrus.Client.{sparse_mf_body, receive_sparse_mf}

abbrev dense : MfModel ℕ
dense = record {
  users = 2;
  items = 2;
  factors = 10;
  user_weights = replicate 10 1 ++ replicate 10 2;
  item_weights = replicate 10 3 ++ replicate 10 4;
  user_bias = 5 ∷ 6 ∷ [];
  item_bias = 7 ∷ 8 ∷ [];
  global_bias = 4;
}

dense-IsServed : IsServed dense
dense-IsServed = record {
  sized = record {
    user_bias_length = refl;
    item_bias_length = refl;
    user_weights_length = refl;
    item_weights_length = refl;
    users_small = omega arith;
    items_small = omega arith;
    factors_small = omega arith;
  };
  ten_factors = refl;
  users_few = omega arith;
  items_few = omega arith;
}

abbrev server : Server ℕ ℕ
server = record {
  lr_model = record { weights = []; weights_hist = []; momentum_avg = 0 };
  mf_model = dense;
  opt_method = sgd 10;
  learning_rate = 10;
  gradient_updates = 0;
  registry = record {
    registered_tasks = [];
    task_to_remaining_time = [];
    task_to_starttime = [];
    num_tasks = 0;
  };
  task_to_status = [];
  key_value_map = [];
  num_connections = 1;
  num_updates = 0;
  kill_signal = false;
}

abbrev worker : Worker
worker = record { buffer = replicate 40 0; msg_buffer = replicate 96 0 }

abbrev message : List ℕ
message =
    store_u32 (code get_mf_sparse_model)
      (store_u32 (length (sparse_mf_body 1 1 (1 ∷ []))) (sparse_mf_body 1 1 (1 ∷ [])))

abbrev arrived : Conn
arrived = record {
  incoming = message;
  outgoing = [];
  is_broken = false;
  room = 100;
  is_open = true;
  is_armed = false;
}

get_mf_sparse_model-serve_example :
    (bytes : List ℕ) × (serve whole 7 server arrived worker
      ≡ ok (
        continues,
        server,
        done arrived (store_u32 (length bytes) [] ++ bytes),
        rows_written whole server worker (1 ∷ []) bytes,
      ))
    × (receive_sparse_mf whole 1 1 (at_rest arrived (store_u32 (length bytes) [] ++ bytes))
        ≡ ok (
          record {
            users = users_of whole 0 dense 1 1;
            items = items_of whole 0 dense (1 ∷ []) [];
            factors = num_factors;
            global_bias = default_bias whole;
          },
          at_rest arrived [],
        ))
get_mf_sparse_model-serve_example =
    get_mf_sparse_model-serve whole server worker whole-IsExact 0 7 arrived arrived 1 1 (1 ∷ [])
      dense-IsServed (omega arith) ((omega arith, omega arith), tt) (omega arith) (omega arith)
      (omega arith) (omega arith) (omega arith) (omega arith) refl
