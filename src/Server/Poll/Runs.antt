-- ===== src/Server/Poll/Runs.antt =====
-- What the poll threads and the workers of src/PSSparseServerTask.cpp do to the tables, in any order.
use cirrus.Prelude.{ℕ, ◌<◌, ◌≡◌, true, List, ◌∷◌, All}
use cirrus.Prelude.Result.{ok}
use cirrus.Vector.{at}
use cirrus.Server.Poll.{
  Revents, PollFd, Table, Request, Poll, put, handle_failed_read, Accepted, ready, interrupted,
  with_revents, iterate,
}
use cirrus.Server.Poll.Counting.{weight, IsFine}

module _ (max_fds nworkers : ℕ) where
  -- A step of a poll thread or of a worker. `polls` is an iteration in which `poll` returns, `wakes`
  -- one in which it is interrupted; `takes`, `fails` and `rearms` are what gradient_f and
  -- handle_failed_read do to the queue and to the entry of a request.
  pub data Step : Poll → Poll → Type 0 where
    polls :
        (p : ℕ) (accepted : ℕ → Accepted) (flags : List Revents) (table : Table) {s s' : Poll}
        → at s.tables p ≡ ok table
        → All IsFine (with_revents flags table.fds)
        → iterate max_fds nworkers (ready flags) accepted p s ≡ ok s'
        → Step s s'
    wakes :
        (p : ℕ) (accepted : ℕ → Accepted) {s s' : Poll}
        → iterate max_fds nworkers interrupted accepted p s ≡ ok s'
        → Step s s'
    takes :
        (request : Request) (rest : List Request) {s : Poll}
        → s.to_process ≡ request ∷ rest
        → Step s (record s { to_process = rest })
    fails : (p i : ℕ) {s s' : Poll} → handle_failed_read p i s ≡ ok s' → Step s s'
    rearms :
        (p i : ℕ) (table : Table) (entry : PollFd) {s : Poll}
        → at s.tables p ≡ ok table
        → at table.fds i ≡ ok entry
        → Step s (put p i table (record entry { is_polled = true }) s)

  pub data Reaches : Poll → Poll → Type 0 where
    here : {s : Poll} → Reaches s s
    step : {s s' s'' : Poll} → Step s s' → Reaches s' s'' → Reaches s s''

  -- A failed read is that of a connection whose entry is still open.
  abbrev pub IsOpen : {s s' : Poll} → Step s s' → Type 0
  IsOpen (polls p accepted flags table there fine run) = Unit {0}
  IsOpen (wakes p accepted run) = Unit {0}
  IsOpen (takes request rest e) = Unit {0}
  IsOpen (rearms p i table entry there found) = Unit {0}
  IsOpen (fails p i {s = s} run) =
      (table : Table) × (entry : PollFd) × (at s.tables p ≡ ok table)
      × (at table.fds i ≡ ok entry)
      × (i < table.curr)
      × (weight entry.fd ≡ 1)

  abbrev pub AllOpen : {s s' : Poll} → Reaches s s' → Type 0
  AllOpen here = Unit {0}
  AllOpen (step first rest) = IsOpen first × AllOpen rest
