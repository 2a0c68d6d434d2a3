-- ===== src/Server.antt =====
-- The parameter server of src/PSSparseServerTask.cpp: its state and its connections. A connection
-- is the server's end of a socket with its `pollfd`.
pub mod Tasks
pub mod Values
pub mod Models
pub mod Dispatch
pub mod Requests
pub mod Protocol
pub mod Startup
pub mod Poll
mod Tests
use cirrus.Prelude.{
  ℕ, ◌+◌, ◌-◌, ◌*◌, ◌%◌, ◌^◌, Bool, true, false, List, [], ◌∷◌, ◌++◌, leb, ◌==◌, if◌then◌else◌,
  length, take, drop,
}
use cirrus.Prelude.Result.{Result, ok, err, undefined, runtime_error, guard, ◌>>=◌, ◌>>◌}
use cirrus.SparseLr.{SparseLr}
use cirrus.MfModel.{MfModel}
use cirrus.Optimizer.{Method}

-- `incoming` is what the peer has sent and still sends up to the end of file, or up to an error if
-- `is_broken`. The peer takes `room` more bytes. `is_open` says that `fd` is not -1, and `is_armed`
-- that `events` is `POLLIN`.
pub record Conn : Type 0 where
  pub incoming : List ℕ
  pub outgoing : List ℕ
  pub is_broken : Bool
  pub room : ℕ
  pub is_open : Bool
  pub is_armed : Bool

-- An `int64_t`: `negsuc n` is -1 - n.
pub data ℤ : Type 0 where
  pos negsuc : ℕ → ℤ

-- Times are in nanoseconds of the steady clock.
pub record Registry : Type 0 where
  pub registered_tasks : List ℕ
  pub task_to_remaining_time : List (ℕ × ℤ)
  pub task_to_starttime : List (ℕ × ℕ)
  pub num_tasks : ℕ

pub record Server (F D : Type 0) : Type 0 where
  pub lr_model : SparseLr F
  pub mf_model : MfModel F
  pub opt_method : Method D
  pub learning_rate : D
  pub gradient_updates : ℕ
  pub registry : Registry
  pub task_to_status : List (ℕ × Bool)
  pub key_value_map : List (List ℕ × (ℕ × List ℕ))
  pub num_connections : ℕ
  pub num_updates : ℕ
  pub kill_signal : Bool

-- The new value of a `uint32_t` that is incremented or decremented.
abbrev pub increment : ℕ → ℕ
increment n = (n + 1) % 2 ^ 32

abbrev pub decrement : ℕ → ℕ
decrement n = (n + (2 ^ 32 - 1)) % 2 ^ 32

-- `read_all`: the number that it returns, and the bytes that it has written to the buffer.
unfoldable pub read_all : Conn → ℕ → Result (ℕ × List ℕ × Conn)
read_all c len =
    if leb len (length c.incoming)
    then ok (len, take len c.incoming, record c { incoming = drop len c.incoming })
    else if c.is_broken
    then err runtime_error
    else ok (0, c.incoming, record c { incoming = [] })

-- `if (read_all(...) == 0) { ... }`, with what follows it.
unfoldable pub receive :
    {A : Type 0} → Conn → ℕ → (Conn → Result A) → (List ℕ → Conn → Result A) → Result A
receive c len at_end next = do
  (n, bytes, c') ← read_all c len
  if n == 0 then at_end c' else next bytes c'

-- `send_all`: whether all of the bytes are sent. If not, it returns -1.
unfoldable pub send_all : Conn → List ℕ → Bool × Conn
send_all c bytes =
    if leb (length bytes) c.room
    then (true, record c { outgoing = c.outgoing ++ bytes; room = c.room - length bytes })
    else (false, record c { outgoing = c.outgoing ++ take c.room bytes; room = 0 })

-- The two buffers of a worker thread; their lengths are their sizes.
pub record Worker : Type 0 where
  pub buffer : List ℕ
  pub msg_buffer : List ℕ

-- A write from the start of a buffer on.
unfoldable pub write_buffer : List ℕ → List ℕ → Result (List ℕ)
write_buffer bytes buffer = do
  guard (leb (length bytes) (length buffer)) undefined
  ok (bytes ++ drop (length bytes) buffer)

-- What a handler returns, with the new state.
abbrev pub Handled : Type 0 → Type 0 → Type 0
Handled F D = Bool × Server F D × Conn

module _ {F D : Type 0} where
  unfoldable pub handle_failed_read : Server F D → Conn → Server F D × Conn
  handle_failed_read s c =
      (record s { num_connections = decrement s.num_connections }, record c { is_open = false })

  -- `handle_failed_read(&req.poll_fd); return false;`
  unfoldable pub failed : Server F D → Conn → Result (Handled F D)
  failed s c = let (s', c') = handle_failed_read s c in ok (false, s', c')
