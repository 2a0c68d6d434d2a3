-- ===== src/Server/Tests.antt =====
-- A server with a model of two weights, and its clients.
use cirrus.Prelude.{ℕ, ◌≡◌, refl, true, false, some, List, [], ◌∷◌, ◌++◌, arith}
use cirrus.Prelude.Result.{ok, err, runtime_error}
use cirrus.Prelude.Table.{lookup}
use cirrus.Floats.{whole}
use cirrus.Bytes.{store_u32}
use cirrus.Optimizer.{sgd}
use cirrus.Server.{Conn, Registry, Server, Worker}
use cirrus.Server.Tasks.{register, deregister, count_task}
use cirrus.Server.Tasks.Life.{
  Life, unknown, Represents, register_life, deregister_life, set_life, register-refines,
  deregister-refines,
}
use cirrus.Server.Tasks.Runs.{Goes, here, step, registers, deregisters, Reaches-Goes}
use cirrus.Server.Dispatch.{continues, serve}
use cirrus.Server.Requests.{at_rest}
use cirrus.Server.Protocol.{done}
use cirrus.Server.Protocol.Registration.{register-serve, deregister-serve}
use cirrus.Server.Protocol.Status.{status_round_trip}
use cirrus.Server.Protocol.Values.{IsKey, value_round_trip, get_value-missing}
use cirrus.Client.{
  register_task_message, deregister_task_message, set_status_message, get_status_message,
  set_value_message, get_value_message, receive_status, receive_value,
}

abbrev no_tasks : Registry
no_tasks = record {
  registered_tasks = [];
  task_to_remaining_time = [];
  task_to_starttime = [];
  num_tasks = 0;
}

abbrev nobody : ℕ → Life
nobody id = unknown

no_tasks-Represents : Represents no_tasks nobody
unfolding lookup
no_tasks-Represents id = refl

abbrev server : Server ℕ ℕ
server = record {
  lr_model = record { weights = 1 ∷ 2 ∷ []; weights_hist = 0 ∷ 0 ∷ []; momentum_avg = 0 };
  mf_model = record {
    users = 0;
    items = 0;
    factors = 10;
    user_weights = [];
    item_weights = [];
    user_bias = [];
    item_bias = [];
    global_bias = 3;
  };
  opt_method = sgd 10;
  learning_rate = 10;
  gradient_updates = 0;
  registry = no_tasks;
  task_to_status = [];
  key_value_map = [];
  num_connections = 1;
  num_updates = 0;
  kill_signal = false;
}

abbrev worker : Worker
worker = record { buffer = []; msg_buffer = [] }

abbrev carrying : List ℕ → Conn
carrying bytes = record {
  incoming = bytes;
  outgoing = [];
  is_broken = false;
  room = 100;
  is_open = true;
  is_armed = false;
}

register-refines_example :
    ((register 7 3 60 no_tasks).0 ≡ (register_life 7 60 (nobody 3)).0)
    × Represents (register 7 3 60 no_tasks).1 (set_life nobody 3 (register_life 7 60 (nobody 3)).1)
register-refines_example = register-refines 7 3 60 no_tasks nobody no_tasks-Represents

deregister-refines_example :
    ((deregister 3 no_tasks).0 ≡ (deregister_life (nobody 3)).0)
    × Represents (deregister 3 no_tasks).1 (set_life nobody 3 (deregister_life (nobody 3)).1)
deregister-refines_example = deregister-refines 3 no_tasks nobody no_tasks-Represents

-- A task that registers and deregisters.
abbrev started : Registry
started = (register 7 3 60 no_tasks).1

Reaches-Goes_example : Goes nobody (deregister 3 started).1
Reaches-Goes_example =
    Reaches-Goes no_tasks (deregister 3 started).1 nobody no_tasks-Represents
      (step (registers 7 3 60) (step (deregisters 3) here))

register-serve_example :
    (serve whole 7 server (carrying (register_task_message 3 60)) worker
      ≡ ok (
        continues,
        count_task (record server { registry = (register 7 3 60 no_tasks).1 }),
        done (carrying (register_task_message 3 60)) (store_u32 0 []),
        worker,
      ))
    × (receive_status (carrying (store_u32 0 [])) ≡ ok (0, at_rest (carrying (store_u32 0 [])) []))
register-serve_example =
    register-serve whole 7 server worker (carrying (register_task_message 3 60))
      (carrying (store_u32 0 [])) 3 60 [] (omega arith) (omega arith) refl (omega arith) refl

deregister-serve_example :
    (serve whole 7 server (carrying (deregister_task_message 3)) worker
      ≡ ok (
        continues,
        record server { registry = (deregister 3 no_tasks).1 },
        done (carrying (deregister_task_message 3)) (store_u32 (deregister 3 no_tasks).0 []),
        worker,
      ))
    × (receive_status (carrying (store_u32 (deregister 3 no_tasks).0 []))
        ≡ ok (
          (deregister 3 no_tasks).0,
          at_rest (carrying (store_u32 (deregister 3 no_tasks).0 [])) [],
        ))
deregister-serve_example =
    deregister-serve whole 7 server worker (carrying (deregister_task_message 3))
      (carrying (store_u32 (deregister 3 no_tasks).0 [])) 3 [] (omega arith) refl (omega arith) refl

status_round_trip_example :
    (s' : Server ℕ ℕ) × (serve whole 7 server (carrying (set_status_message 3 5)) worker
      ≡ ok (
        continues,
        s',
        record (carrying (set_status_message 3 5)) { incoming = []; is_armed = true },
        worker,
      ))
    × (serve whole 7 s' (carrying (get_status_message 3)) worker
        ≡ ok (continues, s', done (carrying (get_status_message 3)) (store_u32 1 []), worker))
    × (receive_status (carrying (store_u32 1 [])) ≡ ok (1, at_rest (carrying (store_u32 1 [])) []))
status_round_trip_example =
    status_round_trip whole 7 server worker (carrying (set_status_message 3 5))
      (carrying (get_status_message 3)) (carrying (store_u32 1 [])) 3 5 [] (omega arith)
      (omega arith) refl refl (omega arith) refl

abbrev key : List ℕ
key = 65 ∷ 66 ∷ []

key-IsKey : IsKey key
key-IsKey = record { short = omega arith; no_zeros = (refl, (refl, tt)) }

abbrev value : List ℕ
value = 1 ∷ 0 ∷ 2 ∷ []

abbrev stored_value : List ℕ
stored_value = store_u32 3 [] ++ value

value_round_trip_example :
    (s' : Server ℕ ℕ) × (serve whole 7 server (carrying (set_value_message key value)) worker
      ≡ ok (
        continues,
        s',
        record (carrying (set_value_message key value)) { incoming = []; is_armed = true },
        worker,
      ))
    × (serve whole 7 s' (carrying (get_value_message key)) worker
        ≡ ok (continues, s', done (carrying (get_value_message key)) stored_value, worker))
    × (receive_value (carrying stored_value) ≡ ok (some value, at_rest (carrying stored_value) []))
value_round_trip_example =
    value_round_trip whole 7 server worker (carrying (set_value_message key value))
      (carrying (get_value_message key)) (carrying stored_value) key value [] key-IsKey
      (omega arith) (omega arith) refl refl (omega arith) refl

get_value-missing_example :
    (serve whole 7 server (carrying (get_value_message key)) worker
      ≡ ok (continues, server, done (carrying (get_value_message key)) (0 ∷ []), worker))
    × (receive_value (carrying (0 ∷ [])) ≡ err runtime_error)
unfolding lookup
get_value-missing_example =
    get_value-missing whole 7 server worker (carrying (get_value_message key)) (carrying (0 ∷ []))
      key key-IsKey refl refl (omega arith) refl refl
