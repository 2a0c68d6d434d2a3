-- ===== src/Server/Poll.antt =====
-- The poll threads of src/PSSparseServerTask.cpp: their tables of descriptors, the connections that
-- are accepted and closed, and the queue of requests.
pub mod Counting
pub mod Visits
pub mod Purge
pub mod Runs
mod Tests
use cirrus.Prelude.{
  ℕ, zero, suc, ◌+◌, ◌-◌, ◌*◌, ◌%◌, ◌^◌, Bool, true, false, not, ◌&&◌, List, [], ◌∷◌, ◌++◌, Option,
  none, some, length, set, drop, replicate, ltb, ◌==◌, if◌then◌else◌,
}
use cirrus.Prelude.Result.{Result, ok, err, undefined, runtime_error, ◌>>=◌}
use cirrus.Vector.{at}
use cirrus.Server.{increment, decrement}

-- The field `fd`: -1, the 0 that `resize` leaves, `server_sock_`, the read end of the thread's pipe,
-- or a connection. Open descriptors differ.
pub data Fd : Type 0 where
  closed blank listener wakeup : Fd
  client : ℕ → Fd

-- The field `revents`: 0, `POLLIN` alone, or another value with or without `POLLHUP`.
pub data Revents : Type 0 where
  quiet readable hung strange : Revents

-- `is_polled` says that `events` is `POLLIN`.
pub record PollFd : Type 0 where
  pub fd : Fd
  pub is_polled : Bool
  pub revents : Revents

-- A vector of `fdses`, with its entry of `curr_indexes`.
pub record Table : Type 0 where
  pub fds : List PollFd
  pub curr : ℕ

-- `poll_fd` is a reference: entry `slot` of table `id`.
pub record Request : Type 0 where
  pub sock : Fd
  pub id : ℕ
  pub slot : ℕ

pub record Poll : Type 0 where
  pub tables : List Table
  pub num_connections : ℕ
  pub to_process : List Request

abbrev pub is_closed : Fd → Bool
is_closed closed = true
is_closed blank = false
is_closed listener = false
is_closed wakeup = false
is_closed (client k) = false

abbrev pub is_readable : Revents → Bool
is_readable readable = true
is_readable quiet = false
is_readable hung = false
is_readable strange = false

abbrev pub is_quiet : Revents → Bool
is_quiet quiet = true
is_quiet readable = false
is_quiet hung = false
is_quiet strange = false

-- An entry of `fdses[p]` as it is now replaced by another.
pub put : ℕ → ℕ → Table → PollFd → Poll → Poll
put p i table entry s = record s {
  tables = set s.tables p (record table { fds = set table.fds i entry });
}

-- `curr_fd.revents = 0`
pub reset : ℕ → ℕ → Poll → Result Poll
reset p i s = do
  table ← at s.tables p
  entry ← at table.fds i
  ok (put p i table (record entry { revents = quiet }) s)

-- `process`
pub process : ℕ → ℕ → Table → PollFd → Poll → Poll
process p i table entry s =
    let s' = put p i table (record entry { is_polled = false }) s in
    record s' { to_process = s.to_process ++ (record { sock = entry.fd; id = p; slot = i }) ∷ [] }

pub close_entry : ℕ → ℕ → Table → PollFd → Poll → Poll
close_entry p i table entry s =
    let s' = put p i table (record entry { fd = closed }) s in
    record s' { num_connections = decrement s.num_connections }

-- `handle_failed_read` of an entry, whatever is in it.
pub handle_failed_read : ℕ → ℕ → Poll → Result Poll
handle_failed_read p i s = do
  table ← at s.tables p
  entry ← at table.fds i
  reset p i (close_entry p i table entry s)

-- A value of `socket` or -1 that `accept` returns, and the value of `rand`.
abbrev pub Accepted : Type 0
Accepted = Option ℕ × ℕ

-- The new connection goes to the table of thread `r`, whose last flags it finds there.
pub insert_connection : ℕ → ℕ → Poll → Result Poll
insert_connection r newsock s = do
  target ← at s.tables r
  slot ← at target.fds target.curr
  let entry = record slot { fd = client newsock; is_polled = true }
  let target' = record target { fds = set target.fds target.curr entry; curr = target.curr + 1 }
  ok (record s { tables = set s.tables r target'; num_connections = increment s.num_connections })

pub without_closed : List PollFd → List PollFd
without_closed [] = []
without_closed (entry ∷ fds) =
    if is_closed entry.fd then without_closed fds else entry ∷ without_closed fds

-- `std::remove_if` moves what is kept to the front and leaves the rest of the vector as it is;
-- `testRemove` counts `curr_indexes` down for each entry that goes.
pub purge : Table → Table
purge table =
    let kept = without_closed table.fds in
    let removed = length table.fds - length kept in
    record {
      fds = kept ++ drop (length kept) table.fds;
      curr = (table.curr + (2 ^ 64 - removed)) % 2 ^ 64;
    }

-- What `poll` returns. If it returns 0 or more it has set the flags of the polled entries.
pub data Polled : Type 0 where
  failed interrupted : Polled
  ready : List Revents → Polled

pub with_revents : List Revents → List PollFd → List PollFd
with_revents flags [] = []
with_revents [] (entry ∷ fds) = entry ∷ fds
with_revents (flag ∷ flags) (entry ∷ fds) = record entry { revents = flag } ∷ with_revents flags fds

pub all_quiet : List Revents → Bool
all_quiet [] = true
all_quiet (flag ∷ flags) = is_quiet flag && all_quiet flags

-- The position of the pipe in the table of a thread.
abbrev pub pipe_slot : ℕ → ℕ
pipe_slot p = if p == 0 then 1 else 0

abbrev pub unused : PollFd
unused = record { fd = blank; is_polled = false; revents = quiet }

abbrev pub watched : Fd → PollFd
watched fd = record { fd = fd; is_polled = true; revents = quiet }

-- The tables when the threads meet at the barrier: `main_poll_thread_fn` has filled the first two
-- entries of thread 0, and the first of each other thread.
pub start_tables : (max_fds other_threads : ℕ) → List Table
start_tables max_fds others =
    (record {
      fds = set (set (replicate max_fds unused) 0 (watched listener)) 1 (watched wakeup);
      curr = 2;
    })
    ∷ replicate others
        (record { fds = set (replicate max_fds unused) 0 (watched wakeup); curr = 1 })

pub start : (max_fds other_threads : ℕ) → Poll
start max_fds others = record {
  tables = start_tables max_fds others;
  num_connections = 0;
  to_process = [];
}

module _ (max_fds nworkers : ℕ) where
  pub accept_connection : Accepted → Table → Poll → Result Poll
  accept_connection (none, random) table s = err runtime_error
  accept_connection (some newsock, random) table s =
      if ltb (nworkers * 2) s.num_connections
      then ok s
      else if table.curr == max_fds
      then err runtime_error
      else insert_connection (random % length s.tables) newsock s

  -- A readable entry that is not the listener's in the table of thread 0.
  pub serve_entry : Accepted → ℕ → ℕ → Table → PollFd → Fd → Poll → Result Poll
  serve_entry accepted p i table entry listener s =
      if p == 0 then accept_connection accepted table s else ok (process p i table entry s)
  serve_entry accepted p i table entry closed s = ok (process p i table entry s)
  serve_entry accepted p i table entry blank s = ok (process p i table entry s)
  serve_entry accepted p i table entry wakeup s = ok (process p i table entry s)
  serve_entry accepted p i table entry (client k) s = ok (process p i table entry s)

  pub handle_entry : Accepted → ℕ → ℕ → Table → PollFd → Revents → Poll → Result Poll
  handle_entry accepted p i table entry readable s = serve_entry accepted p i table entry entry.fd s
  handle_entry accepted p i table entry hung s = ok (close_entry p i table entry s)
  handle_entry accepted p i table entry quiet s = ok s
  handle_entry accepted p i table entry strange s = ok s

  -- The body of the loop over the entries.
  pub visit : Accepted → ℕ → ℕ → Poll → Result Poll
  visit accepted p i s = do
    table ← at s.tables p
    entry ← at table.fds i
    let handled = do s' ← handle_entry accepted p i table entry entry.revents s; reset p i s'
    if is_closed entry.fd then ok s else handled

  -- The loop over the entries from `i` on, of which the vector has `left` more. `accepted` gives
  -- what `accept` and `rand` return at each entry.
  pub scan : (ℕ → Accepted) → ℕ → ℕ → ℕ → Poll → Result Poll
  scan accepted p zero i s = do
    table ← at s.tables p
    if ltb i table.curr then err undefined else ok s
  scan accepted p (suc left) i s = do
    table ← at s.tables p
    let rest = do s' ← visit (accepted i) p i s; scan accepted p left (suc i) s'
    if ltb i table.curr then rest else ok s

  pub make_room : ℕ → Poll → Result Poll
  make_room p s = do
    table ← at s.tables p
    ok (if table.curr == max_fds then record s { tables = set s.tables p (purge table) } else s)

  -- The three branches behind `poll`: a wake-up, no event, or a loop over the entries.
  pub dispatch : (ℕ → Accepted) → ℕ → List Revents → Poll → Result Poll
  dispatch accepted p flags s = do
    table ← at s.tables p
    pipe ← at table.fds (pipe_slot p)
    if is_readable pipe.revents
        then reset p (pipe_slot p) s
        else if all_quiet flags
        then ok s
        else scan accepted p (length table.fds) 0 s

  -- An iteration of `loop`.
  pub iterate : Polled → (ℕ → Accepted) → ℕ → Poll → Result Poll
  iterate failed accepted p s = err runtime_error
  iterate interrupted accepted p s = make_room p s
  iterate (ready flags) accepted p s = do
    table ← at s.tables p
    let polled = record table { fds = with_revents flags table.fds }
    s' ← dispatch accepted p flags (record s { tables = set s.tables p polled })
    make_room p s'
