-- ===== src/Server/Poll/Tests.antt =====
-- Connections that come and go in the tables of src/PSSparseServerTask.cpp.
use cirrus.Prelude.{ℕ, ◌≡◌, refl, [], ◌∷◌, some, true}
use cirrus.Prelude.Result.{ok}
use cirrus.Vector.{at}
use cirrus.Server.Poll.{
  closed, listener, wakeup, client, quiet, hung, Table, Poll, Accepted, ready, iterate, dispatch,
  with_revents, all_quiet, scan, visit, handle_entry, reset, put, close_entry, make_room, purge,
  without_closed, unused, watched,
}

-- Three entries in each of two tables; `accept` gives 7 to the table of thread 0.
abbrev accepted : ℕ → Accepted
accepted i = (some 7, 0)

abbrev first_table : Table
first_table = record { fds = watched listener ∷ watched wakeup ∷ unused ∷ []; curr = 2 }

-- The new connection fills the table, and the purge finds no closed entry.
abbrev one_connection : Poll
one_connection = record {
  tables =
      (record { fds = watched listener ∷ watched wakeup ∷ watched (client 7) ∷ []; curr = 3 })
      ∷ (record { fds = watched wakeup ∷ unused ∷ unused ∷ []; curr = 1 })
      ∷ [];
  num_connections = 1;
  to_process = [];
}

-- Its end is seen in a later iteration, and its entry is kept.
connection_ends :
    iterate 3 1 (ready (quiet ∷ quiet ∷ hung ∷ [])) accepted 0 one_connection
    ≡ ok (record {
      tables =
          (record {
            fds =
                watched listener
                ∷ watched wakeup
                ∷ (record { fd = closed; is_polled = true; revents = quiet })
                ∷ [];
            curr = 2;
          })
          ∷ (record { fds = watched wakeup ∷ unused ∷ unused ∷ []; curr = 1 })
          ∷ [];
      num_connections = 0;
      to_process = [];
    })
unfolding iterate dispatch with_revents all_quiet scan visit handle_entry close_entry reset put
    make_room purge without_closed at
connection_ends = refl

-- A worker reads the end of the connection.
abbrev no_connection : Poll
no_connection = record {
  tables =
      (record {
        fds =
            watched listener
            ∷ watched wakeup
            ∷ (record { fd = closed; is_polled = true; revents = quiet })
            ∷ [];
        curr = 3;
      })
      ∷ (record { fds = watched wakeup ∷ unused ∷ unused ∷ []; curr = 1 })
      ∷ [];
  num_connections = 0;
  to_process = [];
}

abbrev full_table : Table
full_table = record { fds = watched listener ∷ watched wakeup ∷ watched (client 7) ∷ []; curr = 3 }
