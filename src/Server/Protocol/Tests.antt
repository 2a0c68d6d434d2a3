-- ===== src/Server/Protocol/Tests.antt =====
-- A worker that sends a gradient, and fetches two weights.
use cirrus.Prelude.{ℕ, ◌≡◌, refl, true, false, List, [], ◌∷◌, ◌++◌, arith, replicate}
use cirrus.Prelude.Result.{ok}
use cirrus.Floats.{whole, whole-IsExact}
use cirrus.Bytes.{store_float, store_list}
use cirrus.Gradient.LrSparse.{LrSparseGradient, IsSendable, serialize, serialized_size}
use cirrus.SparseLr.{SparseLr}
use cirrus.Optimizer.{Method, momentum, sgd_update}
use cirrus.Optimizer.Frame.{Touches}
use cirrus.Server.{Conn, Server, Worker}
use cirrus.Server.Models.{count_gradient}
use cirrus.Server.Dispatch.{continues, serve}
use cirrus.Server.Requests.{at_rest}
use cirrus.Server.Protocol.{done}
use cirrus.Server.Protocol.Models.{filled, edited}
use cirrus.Server.Protocol.Training.{
  gradient_message, indices_body, indices_message, send_lr_gradient-serve,
  get_lr_sparse_model-serve,
}
use cirrus.Client.{receive_weights}

abbrev server : Server ℕ ℕ
server = record {
  lr_model = record { weights = 1 ∷ 2 ∷ 3 ∷ []; weights_hist = 0 ∷ 0 ∷ 0 ∷ []; momentum_avg = 0 };
  mf_model = record {
    users = 0;
    items = 0;
    factors = 10;
    user_weights = [];
    item_weights = [];
    user_bias = [];
    item_bias = [];
    global_bias = 3;
  };
  opt_method = momentum 10 0 0;
  learning_rate = 10;
  gradient_updates = 0;
  registry = record {
    registered_tasks = [];
    task_to_remaining_time = [];
    task_to_starttime = [];
    num_tasks = 0;
  };
  task_to_status = [];
  key_value_map = [];
  num_connections = 1;
  num_updates = 0;
  kill_signal = false;
}

abbrev worker : Worker
worker = record { buffer = replicate 40 0; msg_buffer = [] }

abbrev carrying : List ℕ → Conn
carrying bytes = record {
  incoming = bytes;
  outgoing = [];
  is_broken = false;
  room = 100;
  is_open = true;
  is_armed = false;
}

abbrev gradient : LrSparseGradient ℕ
gradient = record { weights = (2, 5) ∷ (0, 6) ∷ []; version = 7 }

gradient-IsSendable : IsSendable whole gradient
gradient-IsSendable = record {
  some_weights = omega arith;
  few_weights = omega arith;
  indexed = (omega arith, (omega arith, tt));
  version_small = omega arith;
}

send_lr_gradient-serve_example :
    (method : Method ℕ) × (model : SparseLr ℕ) × (serve whole 7 server
        (carrying (gradient_message whole gradient))
        worker
      ≡ ok (
        continues,
        count_gradient whole (record server { lr_model = model; opt_method = method }),
        record (carrying (gradient_message whole gradient)) { incoming = []; is_armed = true },
        filled worker (serialize whole gradient []),
      ))
    × (sgd_update whole server.opt_method gradient.weights server.lr_model ≡ ok (method, model))
    × Touches 0 gradient.weights server.lr_model model
unfolding serialized_size
send_lr_gradient-serve_example =
    send_lr_gradient-serve whole server worker whole-IsExact 0 7
      (carrying (gradient_message whole gradient)) gradient gradient-IsSendable refl
      (omega arith, (omega arith, tt)) (omega arith) refl

abbrev wanted : List ℕ
wanted = 2 ∷ 0 ∷ []

abbrev reply : List ℕ
reply = store_list (store_float whole) (edited whole server worker 0 wanted) [] ++ []

get_lr_sparse_model-serve_example :
    (serve whole 7 server (carrying (indices_message wanted)) worker
      ≡ ok (
        continues,
        server,
        done
            (carrying (indices_message wanted))
            (store_list (store_float whole) (edited whole server worker 0 wanted) []),
        filled worker (indices_body wanted),
      ))
    × (receive_weights whole 2 (carrying reply)
        ≡ ok (edited whole server worker 0 wanted, at_rest (carrying reply) []))
get_lr_sparse_model-serve_example =
    get_lr_sparse_model-serve whole server worker whole-IsExact 0 7
      (carrying (indices_message wanted)) (carrying reply) wanted [] (omega arith)
      ((omega arith, omega arith), ((omega arith, omega arith), tt)) (omega arith) (omega arith)
      refl refl
