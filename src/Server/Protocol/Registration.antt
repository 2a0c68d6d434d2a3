-- ===== src/Server/Protocol/Registration.antt =====
-- `register_task` and `deregister_task` from the client to the registry and back.
use cirrus.Prelude.{ℕ, ◌^◌, ◌≤◌, ◌<◌, ◌≡◌, refl, ap, sym, ◌∙◌, List, [], arith, number_key}
use cirrus.Prelude.Result.{ok}
use cirrus.Prelude.Table.{lookup}
use cirrus.Floats.{Floats}
use cirrus.Bytes.{store_u32}
use cirrus.Bytes.Laws.{load_u32-store_u32, length-store_u32}
use cirrus.Operations.{register_task, deregister_task}
use cirrus.Server.{Conn, Server, Worker}
use cirrus.Server.Tasks.{
  register, deregister, count_task, process_register_task, process_deregister_task,
}
use cirrus.Server.Dispatch.{continues, serve, handle, keep, run_operation, operation_to_f}
use cirrus.Server.Requests.{at_rest, receive-u32, receive-two, send_all-fits, serve-run_operation}
use cirrus.Client.{register_task_message, deregister_task_message, receive_status}
use cirrus.Server.Tasks.Life.{registered_before, register-told, register-small, deregister-small}
use cirrus.Server.Protocol.{done, receive_status-reply}

module _ {F D : Type 0} (fl : Floats F D) (now : ℕ) (s : Server F D) (w : Worker) where
  run_register :
      (c : Conn) (id remaining : ℕ)
      → id < 2 ^ 32
      → remaining < 2 ^ 32
      → c.incoming ≡ store_u32 id (store_u32 remaining [])
      → 4 ≤ c.room
      → run_operation fl register_task now s c w
        ≡ ok (
          continues,
          count_task (record s { registry = (register now id remaining s.registry).1 }),
          done c (store_u32 (register now id remaining s.registry).0 []),
          w,
        )
  unfolding run_operation handle keep process_register_task
  run_register c id remaining small small' e room =
      let reply = store_u32 (register now id remaining s.registry).0 [] in
      let size = length-store_u32 (register now id remaining s.registry).0 [] in
      rw
        (
          receive-two c id remaining [] _ _ e,
          load_u32-store_u32 id (store_u32 remaining []) small,
          load_u32-store_u32 remaining [] small',
          send_all-fits (at_rest c []) reply (omega arith),
        )
        refl

  -- A request to register with words for id and time that has arrived is served, the task is
  -- counted, and the client is told 1 if the id was among the registered tasks, and 0 if not.
  pub register-serve :
      (c d : Conn) (id remaining : ℕ) (later : List ℕ)
      → id < 2 ^ 32
      → remaining < 2 ^ 32
      → c.incoming ≡ register_task_message id remaining
      → 4 ≤ c.room
      → d.incoming ≡ store_u32 (registered_before s.registry id) later
      → (serve fl now s c w
          ≡ ok (
            continues,
            count_task (record s { registry = (register now id remaining s.registry).1 }),
            done c (store_u32 (registered_before s.registry id) []),
            w,
          ))
        × (receive_status d ≡ ok (registered_before s.registry id, at_rest d later))
  unfolding register_task_message operation_to_f lookup
  register-serve c d id remaining later small small' e room reply =
      let told = register-told now id remaining s.registry in
      rw (sym told) (
        serve-run_operation fl now s c w register_task (store_u32 id (store_u32 remaining [])) e
              refl (omega arith)
            ∙ run_register (at_rest c (store_u32 id (store_u32 remaining []))) id remaining small
                small' refl room,
        receive_status-reply d (register now id remaining s.registry).0 later
            (register-small now id remaining s.registry)
            (reply ∙ ap (λ n. store_u32 n later) (sym told)),
      )

  run_deregister :
      (c : Conn) (id : ℕ)
      → id < 2 ^ 32
      → c.incoming ≡ store_u32 id []
      → 4 ≤ c.room
      → run_operation fl deregister_task now s c w
        ≡ ok (
          continues,
          record s { registry = (deregister id s.registry).1 },
          done c (store_u32 (deregister id s.registry).0 []),
          w,
        )
  unfolding run_operation handle keep process_deregister_task
  run_deregister c id small e room =
      let reply = store_u32 (deregister id s.registry).0 [] in
      let size = length-store_u32 (deregister id s.registry).0 [] in
      rw
        (
          receive-u32 c id [] _ _ e,
          load_u32-store_u32 id [] small,
          send_all-fits (at_rest c []) reply (omega arith),
        )
        refl

  -- A request to deregister a word that has arrived is served, and the client is told what
  -- the registry replied.
  pub deregister-serve :
      (c d : Conn) (id : ℕ) (later : List ℕ)
      → id < 2 ^ 32
      → c.incoming ≡ deregister_task_message id
      → 4 ≤ c.room
      → d.incoming ≡ store_u32 (deregister id s.registry).0 later
      → (serve fl now s c w
          ≡ ok (
            continues,
            record s { registry = (deregister id s.registry).1 },
            done c (store_u32 (deregister id s.registry).0 []),
            w,
          ))
        × (receive_status d ≡ ok ((deregister id s.registry).0, at_rest d later))
  unfolding deregister_task_message operation_to_f lookup
  deregister-serve c d id later small e room reply = (
    serve-run_operation fl now s c w deregister_task (store_u32 id []) e refl (omega arith)
        ∙ run_deregister (at_rest c (store_u32 id [])) id small refl room,
    receive_status-reply d (deregister id s.registry).0 later (deregister-small id s.registry)
        reply,
  )
