-- ===== src/Server/Protocol/Status.antt =====
-- `set_status` and `get_status` from the client to the server and back.
use cirrus.Prelude.{
  ℕ, ◌^◌, ◌≤◌, ◌<◌, ◌≡◌, refl, ap, ◌∙◌, true, some, not, List, [], arith, ltb, ◌==◌, if◌then◌else◌,
  number_key, Bool-cases, inl, inr, ==_refl,
}
use cirrus.Prelude.Result.{ok}
use cirrus.Prelude.Table.{lookup, insert, lookup-insert}
use cirrus.Floats.{Floats}
use cirrus.Bytes.{store_u32}
use cirrus.Bytes.Laws.{load_u32-store_u32, length-store_u32}
use cirrus.Operations.{set_task_status, get_task_status}
use cirrus.Server.{Conn, Server, Worker}
use cirrus.Server.Tasks.{process_set_task_status, process_get_task_status, known_status}
use cirrus.Server.Dispatch.{continues, serve, handle, keep, run_operation, operation_to_f}
use cirrus.Server.Requests.{at_rest, receive-u32, receive-two, send_all-fits, serve-run_operation}
use cirrus.Client.{set_status_message, get_status_message, receive_status}
use cirrus.Server.Protocol.{done, receive_status-reply}

module _ {F D : Type 0} (fl : Floats F D) (now : ℕ) (s : Server F D) (w : Worker) where
  run_set_status :
      (c : Conn) (id status : ℕ)
      → id < 2 ^ 32
      → status < 2 ^ 32
      → c.incoming ≡ store_u32 id (store_u32 status [])
      → run_operation fl set_task_status now s c w
        ≡ ok (
          continues,
          record s { task_to_status = insert id (not (status == 0)) s.task_to_status },
          record c { incoming = []; is_armed = true },
          w,
        )
  unfolding run_operation handle keep process_set_task_status
  run_set_status c id status small small' e =
      rw
        (
          receive-two c id status [] _ _ e,
          load_u32-store_u32 id (store_u32 status []) small,
          load_u32-store_u32 status [] small',
        )
        refl

  run_get_status :
      (c : Conn) (id : ℕ)
      → id < 10_000
      → c.incoming ≡ store_u32 id []
      → 4 ≤ c.room
      → run_operation fl get_task_status now s c w
        ≡ ok (continues, s, done c (store_u32 (known_status (lookup id s.task_to_status)) []), w)
  unfolding run_operation handle keep process_get_task_status
  run_get_status c id small e room =
      let reply = store_u32 (known_status (lookup id s.task_to_status)) [] in
      let size = length-store_u32 (known_status (lookup id s.task_to_status)) [] in
      let allowed : ltb id 10_000 ≡ true = ground arith in
      rw
        (
          receive-u32 c id [] _ _ e,
          load_u32-store_u32 id [] (omega arith),
          allowed,
          send_all-fits (at_rest c []) reply (omega arith),
        )
        refl

status_word :
    (status : ℕ) → known_status (some (not (status == 0))) ≡ (if status == 0 then 0 else 1)
unfolding known_status
status_word status = elim (Bool-cases (status == 0)) [
  | inl zero_status ↦ rw zero_status refl
  | inr other ↦ rw other refl
]

module _ {F D : Type 0} (fl : Floats F D) (now : ℕ) (s : Server F D) (w : Worker) where
  -- A status below 2 ^ 32 that is set for a task below 10,000 is served, and the next request
  -- for the status of that task is answered: the client gets 0 if the status was 0, and 1
  -- otherwise.
  pub status_round_trip :
      (c c' d : Conn) (id status : ℕ) (later : List ℕ)
      → id < 10_000
      → status < 2 ^ 32
      → c.incoming ≡ set_status_message id status
      → c'.incoming ≡ get_status_message id
      → 4 ≤ c'.room
      → d.incoming ≡ store_u32 (if status == 0 then 0 else 1) later
      → (s' : Server F D) × (serve fl now s c w
          ≡ ok (continues, s', record c { incoming = []; is_armed = true }, w))
        × (serve fl now s' c' w
            ≡ ok (continues, s', done c' (store_u32 (if status == 0 then 0 else 1) []), w))
        × (receive_status d ≡ ok ((if status == 0 then 0 else 1), at_rest d later))
  unfolding set_status_message get_status_message operation_to_f lookup
  status_round_trip c c' d id status later small small' e e' room reply = (
    changed,
    serve-run_operation fl now s c w set_task_status (store_u32 id (store_u32 status [])) e refl
          (omega arith)
        ∙ run_set_status fl now s w (at_rest c (store_u32 id (store_u32 status []))) id status
            (omega arith) small' refl,
    serve-run_operation fl now changed c' w get_task_status (store_u32 id []) e' refl (omega arith)
        ∙ run_get_status fl now changed w (at_rest c' (store_u32 id [])) id small refl room
        ∙ ap (λ n. ok (continues, changed, done c' (store_u32 n []), w)) stored_status,
    receive_status-reply d (if status == 0 then 0 else 1) later (ground arith) reply,
  )
    where
      changed : Server F D
      changed = record s { task_to_status = insert id (not (status == 0)) s.task_to_status }

      stored_status :
          known_status (lookup id changed.task_to_status) ≡ (if status == 0 then 0 else 1)
      stored_status =
          ap known_status
            (lookup-insert id id (not (status == 0)) s.task_to_status ∙ rw (==_refl id) refl)
          ∙ status_word status
