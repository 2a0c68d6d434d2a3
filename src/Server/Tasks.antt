-- ===== src/Server/Tasks.antt =====
-- Registration and status of tasks: the handlers of src/PSSparseServerTask.cpp for them.
pub mod Life
pub mod Lifetime
pub mod Runs
mod Tests
use cirrus.Prelude.{
  ℕ, ◌+◌, ◌-◌, ◌/◌, Bool, true, false, not, Option, none, some, List, [], ◌∷◌, ltb, ◌==◌, has,
  if◌then◌else◌, number_key,
}
use cirrus.Prelude.Result.{
  Result, ok, err, undefined, assert_failed, runtime_error, guard, ◌>>=◌, ◌>>◌,
}
use cirrus.Prelude.Table.{lookup, insert, erase}
use cirrus.Bytes.{store_u32, load_u32}
use cirrus.Server.{
  Conn, ℤ, pos, negsuc, Registry, Server, Handled, increment, decrement, receive, send_all, failed,
}

-- The registry with a new task, and with a task declared dead.
abbrev pub enrolled : ℕ → ℕ → ℕ → Registry → Registry
enrolled now id remaining r = record r {
  registered_tasks = id ∷ r.registered_tasks;
  task_to_remaining_time = insert id (pos remaining) r.task_to_remaining_time;
  task_to_starttime = insert id now r.task_to_starttime;
}

abbrev pub dead : ℕ → Registry → Registry
dead id r = record r {
  task_to_remaining_time = insert id (negsuc 0) r.task_to_remaining_time;
  task_to_starttime = erase id r.task_to_starttime;
  num_tasks = decrement r.num_tasks;
}

-- The part of `process_register_task` under the lock: the reply, and the new registry.
pub register : ℕ → ℕ → ℕ → Registry → ℕ × Registry
register now id remaining r =
    if has r.registered_tasks id then (1, r) else (0, enrolled now id remaining r)

pub declare_task_dead : ℕ → Registry → ℕ × Registry
declare_task_dead id r = elim (lookup id r.task_to_starttime) [
  | none ↦ (1, r)
  | some start ↦ (0, dead id r)
]

-- The part of `process_deregister_task` under the lock.
pub deregister : ℕ → Registry → ℕ × Registry
deregister id r = if has r.registered_tasks id then declare_task_dead id r else (2, r)

-- `elapsed_sec > remaining + TIMEOUT_THRESHOLD_SEC`
pub exceeds : ℕ → ℤ → Bool
exceeds elapsed (pos n) = ltb (n + 3) elapsed
exceeds elapsed (negsuc n) = ltb 3 (elapsed + 1 + n)

pub or_zero : Option ℤ → ℤ
or_zero none = pos 0
or_zero (some n) = n

-- A step of a loop over a map from the entry of a key, which must still be there.
pub go_on : {V : Type 0} → Option V → Result Registry → Result Registry
go_on none rest = err undefined
go_on (some value) rest = rest

-- The loop over `task_to_starttime`.
pub check_loop : ℕ → List (ℕ × ℕ) → Registry → Result Registry
check_loop now [] r = ok r
check_loop now ((id, start) ∷ tasks) r =
    let remaining = or_zero (lookup id r.task_to_remaining_time) in
    let r' = record r { task_to_remaining_time = insert id remaining r.task_to_remaining_time } in
    let rest = check_loop now tasks r' in
    let (ret, r'') = declare_task_dead id r' in
    let rest' = check_loop now tasks r'' in
    if exceeds ((now - start) / 1_000_000_000) remaining
    then go_on (lookup id r''.task_to_starttime) rest'
    else rest

pub check_tasks_lifetime : ℕ → Registry → Result Registry
check_tasks_lifetime now r = check_loop now r.task_to_starttime r

-- The status that is sent: an id that is not in the map counts as `false`.
unfoldable pub known_status : Option Bool → ℕ
known_status (some true) = 1
known_status (some false) = 0
known_status none = 0

module _ {F D : Type 0} where
  unfoldable pub process_set_task_status : Server F D → Conn → Result (Handled F D)
  process_set_task_status s c = receive c 8 (failed s) λ bytes c'. do
    (id, bytes') ← load_u32 bytes
    (status, rest) ← load_u32 bytes'
    ok (true, record s { task_to_status = insert id (not (status == 0)) s.task_to_status }, c')

  unfoldable pub process_get_task_status : Server F D → Conn → Result (Handled F D)
  process_get_task_status s c =
      receive c 4 (λ c'. ok (false, s, c'))
        λ bytes c'. do
          (id, rest) ← load_u32 bytes
          guard (ltb id 10_000) assert_failed
          let (sent, c'') = send_all c' (store_u32 (known_status (lookup id s.task_to_status)) [])
          ok (sent, s, c'')

  abbrev pub count_task : Server F D → Server F D
  count_task s = record s {
    registry = record s.registry { num_tasks = increment s.registry.num_tasks };
  }

  unfoldable pub process_register_task : ℕ → Server F D → Conn → Result (Handled F D)
  process_register_task now s c = receive c 8 (failed s) λ bytes c'. do
    (id, bytes') ← load_u32 bytes
    (remaining, rest) ← load_u32 bytes'
    let (task_reg, r) = register now id remaining s.registry
    let (sent, c'') = send_all c' (store_u32 task_reg [])
    let s' = record s { registry = r }
    ok (sent, (if sent then count_task s' else s'), c'')

  unfoldable pub process_deregister_task : Server F D → Conn → Result (Handled F D)
  process_deregister_task s c = receive c 4 (failed s) λ bytes c'. do
    (id, rest) ← load_u32 bytes
    let (ret, r) = deregister id s.registry
    let (sent, c'') = send_all c' (store_u32 ret [])
    ok (sent, record s { registry = r }, c'')

  -- The two handlers that send a counter throw where it cannot be sent.
  pub send_counter : ℕ → Server F D → Conn → Result (Handled F D)
  send_counter n s c =
      let (sent, c') = send_all c (store_u32 n []) in
      if sent then ok (true, s, c') else err runtime_error

  unfoldable pub process_get_num_conns : Server F D → Conn → Result (Handled F D)
  process_get_num_conns s c = send_counter s.num_connections s c

  unfoldable pub process_get_num_updates : Server F D → Conn → Result (Handled F D)
  process_get_num_updates s c = send_counter s.num_updates s c
