-- ===== src/Server/Protocol.antt =====
-- The messages of a client, served and answered.
pub mod Registration
pub mod Status
pub mod Values
pub mod Models
pub mod Training
pub mod Factors
mod Tests
mod FactorTests
use cirrus.Prelude.{
  ℕ, ◌+◌, ◌-◌, ◌^◌, ◌≤◌, ◌<◌, ◌≡◌, refl, sym, ap, ◌∙◌, true, false, some, none, not, List, [], ◌∷◌,
  ◌++◌, arith, leb, ltb, ◌==◌, length, length-append, take, drop, if◌then◌else◌, number_key, All,
}
use cirrus.Prelude.Result.{Result, ok, err, runtime_error, ◌>>=◌}
use cirrus.Prelude.Table.{lookup, insert, lookup-insert}
use cirrus.Floats.{Floats}
use cirrus.Bytes.{store_u32, load_u32}
use cirrus.Bytes.Laws.{load_u32-store_u32, length-store_u32}
use cirrus.Operations.{
  Operation, code, register_task, deregister_task, set_task_status, get_task_status,
}
use cirrus.Server.{Conn, Registry, Server, Worker, receive, send_all}
use cirrus.Server.Tasks.{
  register, deregister, count_task, process_register_task, process_deregister_task,
  process_set_task_status, process_get_task_status, known_status,
}
use cirrus.Server.Dispatch.{Next, continues, serve, handle, keep, run_operation, operation_to_f}
use cirrus.Server.Requests.{
  at_rest, answered, receive-append, receive-u32, receive-two, send_all-fits, serve-run_operation,
}
use cirrus.Client.{
  register_task_message, deregister_task_message, set_status_message, get_status_message,
  receive_status,
}

-- The connection after a message has been read to its end and answered by `reply`.
abbrev pub done : Conn → List ℕ → Conn
done c reply = record c {
  incoming = [];
  outgoing = c.outgoing ++ reply;
  room = c.room - length reply;
  is_armed = true;
}

pub receive_status-reply :
    (d : Conn) (n : ℕ) (later : List ℕ)
    → n < 2 ^ 32
    → d.incoming ≡ store_u32 n later
    → receive_status d ≡ ok (n, at_rest d later)
unfolding receive_status
receive_status-reply d n later small e =
    receive-u32 d n later _ _ e ∙ rw (load_u32-store_u32 n [] small) refl
