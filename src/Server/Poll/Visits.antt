-- ===== src/Server/Poll/Visits.antt =====
-- The loop over the entries of a poll table (src/PSSparseServerTask.cpp) keeps the count.
use cirrus.Prelude.{
  ℕ, zero, suc, ◌+◌, ◌*◌, ◌^◌, ◌<◌, ◌≤◌, ◌≡◌, refl, true, false, set, none, some, arith, ltb, ◌==◌,
  length-set, Bool-cases, inl, inr, subst, ◌∙◌,
}
use cirrus.Prelude.Result.{ok, >>=-eq-ok, ok_inj, ok_ne_err}
use cirrus.Vector.{at}
use cirrus.Server.Poll.{
  Fd, closed, blank, listener, wakeup, client, Revents, quiet, readable, hung, strange, PollFd,
  Table, Poll, is_closed, put, reset, process, close_entry, Accepted, insert_connection,
  accept_connection, serve_entry, handle_entry, visit, scan,
}
use cirrus.Server.Poll.Counting.{
  weight, connections_of, connections-set, connections-set_same, connections-next, total-set,
  may_hang, IsFine, IsTable, IsCounted, at-lt, at-All, set-All,
}

module _ (max_fds nworkers : ℕ) (few : nworkers < 2 ^ 30) where
  -- A table is replaced by one with as many connections.
  pub table-IsCounted :
      (s : Poll) (p : ℕ) (table table' : Table)
      → at s.tables p ≡ ok table
      → IsCounted max_fds nworkers s
      → IsTable max_fds table'
      → connections_of table' ≡ connections_of table
      → IsCounted max_fds nworkers (record s { tables = set s.tables p table' })
  table-IsCounted s p table table' there h h' same = record {
    sound = set-All (IsTable max_fds) s.tables p table' h' h.sound;
    counted =
        let moved = total-set s.tables p table table' there in let old = h.counted in omega arith;
    limited = h.limited;
  }

  -- An entry is replaced by one that is as much of a connection.
  pub put-IsCounted :
      (s : Poll) (p i : ℕ) (table : Table) (entry entry' : PollFd)
      → at s.tables p ≡ ok table
      → at table.fds i ≡ ok entry
      → IsCounted max_fds nworkers s
      → IsFine entry'
      → weight entry'.fd ≡ weight entry.fd
      → IsCounted max_fds nworkers (put p i table entry' s)
  unfolding put
  put-IsCounted s p i table entry entry' there here h fine same =
      let t = at-All (IsTable max_fds) s.tables p table there h.sound in
      table-IsCounted s p table (record table { fds = set table.fds i entry' }) there h
        (record {
          full_length = length-set table.fds i entry' ∙ t.full_length;
          in_table = t.in_table;
          fine = set-All IsFine table.fds i entry' fine t.fine;
        })
        (connections-set_same table.fds i table.curr entry entry' here same)

  pub reset-IsCounted :
      (s s' : Poll) (p i : ℕ)
      → IsCounted max_fds nworkers s
      → reset p i s ≡ ok s'
      → IsCounted max_fds nworkers s'
  unfolding reset
  reset-IsCounted s s' p i h done =
      let (table, there, done') = >>=-eq-ok (at s.tables p) _ done in
      let (entry, here, done'') = >>=-eq-ok (at table.fds i) _ done' in
      subst (IsCounted max_fds nworkers) (ok_inj done'') (
        put-IsCounted s p i table entry (record entry { revents = quiet }) there here h (λ e. cc)
          refl)

  -- A connection of the polled entries is closed.
  pub close_entry-IsCounted :
      (s : Poll) (p i : ℕ) (table : Table) (entry : PollFd)
      → at s.tables p ≡ ok table
      → at table.fds i ≡ ok entry
      → i < table.curr
      → weight entry.fd ≡ 1
      → IsCounted max_fds nworkers s
      → IsCounted max_fds nworkers (close_entry p i table entry s)
  unfolding close_entry put
  close_entry-IsCounted s p i table entry there here inside one h =
      let t = at-All (IsTable max_fds) s.tables p table there h.sound in
      let entry' = record entry { fd = closed } in
      let table' = record table { fds = set table.fds i entry' } in
      let moved = total-set s.tables p table table' there in
      let fewer = connections-set table.fds i table.curr entry entry' here inside in
      let old = h.counted in
      let limit = h.limited in
      record {
        sound =
            set-All (IsTable max_fds) s.tables p table'
              (record {
                full_length = length-set table.fds i entry' ∙ t.full_length;
                in_table = t.in_table;
                fine = set-All IsFine table.fds i entry' (λ e. refl) t.fine;
              })
              h.sound;
        counted = omega arith;
        limited = omega arith;
      }

  insert_connection-IsCounted :
      (s s' : Poll) (r newsock : ℕ)
      → IsCounted max_fds nworkers s
      → s.num_connections ≤ nworkers * 2
      → insert_connection r newsock s ≡ ok s'
      → IsCounted max_fds nworkers s'
  unfolding insert_connection
  insert_connection-IsCounted s s' r newsock h room done =
      let (target, there, done') = >>=-eq-ok (at s.tables r) _ done in
      let (slot, here, done'') = >>=-eq-ok (at target.fds target.curr) _ done' in
      let t = at-All (IsTable max_fds) s.tables r target there h.sound in
      let entry : PollFd = record slot { fd = client newsock; is_polled = true } in
      let target' : Table = record target {
        fds = set target.fds target.curr entry;
        curr = target.curr + 1;
      } in
      let moved = total-set s.tables r target target' there in
      let more = connections-next target.fds target.curr slot entry here in
      let one : target.curr + 1 ≡ suc target.curr = omega arith in
      let more' : connections_of target' ≡ connections_of target + 1 = rw one more in
      let inside = at-lt target.fds target.curr slot here in
      let full = t.full_length in
      let old = h.counted in
      subst (IsCounted max_fds nworkers) (ok_inj done'') (record {
        sound =
            set-All (IsTable max_fds) s.tables r target'
              (record {
                full_length = length-set target.fds target.curr entry ∙ t.full_length;
                in_table = omega arith;
                fine = set-All IsFine target.fds target.curr entry (λ e. refl) t.fine;
              })
              h.sound;
        counted = omega arith;
        limited = omega arith;
      })

  accept_connection-IsCounted :
      (accepted : Accepted) (table : Table) (s s' : Poll)
      → IsCounted max_fds nworkers s
      → accept_connection max_fds nworkers accepted table s ≡ ok s'
      → IsCounted max_fds nworkers s'
  unfolding accept_connection
  accept_connection-IsCounted (none, random) table s s' h done = absurd (ok_ne_err done)
  accept_connection-IsCounted (some newsock, random) table s s' h done =
      elim (Bool-cases (ltb (nworkers * 2) s.num_connections)) [
        | inl full ↦ subst (IsCounted max_fds nworkers) (ok_inj (rw full at done)) h
        | inr room ↦ elim (Bool-cases (table.curr == max_fds)) [
          | inl no_slot ↦ absurd (ok_ne_err (rw (room, no_slot) at done))
          | inr slot ↦
              insert_connection-IsCounted s s' _ newsock h (ground arith) (rw (room, slot) at done)
        ]
      ]

  process-IsCounted :
      (s : Poll) (p i : ℕ) (table : Table) (entry : PollFd)
      → at s.tables p ≡ ok table
      → at table.fds i ≡ ok entry
      → IsCounted max_fds nworkers s
      → IsCounted max_fds nworkers (process p i table entry s)
  unfolding process
  process-IsCounted s p i table entry there here h =
      let t = at-All (IsTable max_fds) s.tables p table there h.sound in
      let fine : IsFine entry = at-All IsFine table.fds i entry here t.fine in
      let c =
        put-IsCounted s p i table entry (record entry { is_polled = false }) there here h fine
          refl in
      record { sound = c.sound; counted = c.counted; limited = c.limited }

  serve_entry-IsCounted :
      (accepted : Accepted) (s s' : Poll) (p i : ℕ) (table : Table) (entry : PollFd) (fd : Fd)
      → at s.tables p ≡ ok table
      → at table.fds i ≡ ok entry
      → IsCounted max_fds nworkers s
      → serve_entry max_fds nworkers accepted p i table entry fd s ≡ ok s'
      → IsCounted max_fds nworkers s'
  unfolding serve_entry
  serve_entry-IsCounted accepted s s' p i table entry listener there here h done =
      elim (Bool-cases (p == 0)) [
        | inl first ↦ accept_connection-IsCounted accepted table s s' h (rw first at done)
        | inr other ↦
            subst (IsCounted max_fds nworkers) (ok_inj (rw other at done))
              (process-IsCounted s p i table entry there here h)
      ]
  serve_entry-IsCounted accepted s s' p i table entry closed there here h done =
      subst (IsCounted max_fds nworkers) (ok_inj done)
        (process-IsCounted s p i table entry there here h)
  serve_entry-IsCounted accepted s s' p i table entry blank there here h done =
      subst (IsCounted max_fds nworkers) (ok_inj done)
        (process-IsCounted s p i table entry there here h)
  serve_entry-IsCounted accepted s s' p i table entry wakeup there here h done =
      subst (IsCounted max_fds nworkers) (ok_inj done)
        (process-IsCounted s p i table entry there here h)
  serve_entry-IsCounted accepted s s' p i table entry (client k) there here h done =
      subst (IsCounted max_fds nworkers) (ok_inj done)
        (process-IsCounted s p i table entry there here h)

  open_weight : (fd : Fd) → is_closed fd ≡ false → may_hang fd ≡ true → weight fd ≡ 1
  open_weight closed h k = absurd (cc)
  open_weight blank h k = absurd (cc)
  open_weight listener h k = absurd (cc)
  open_weight wakeup h k = absurd (cc)
  open_weight (client k) h k' = refl

  handle_entry-IsCounted :
      (accepted : Accepted) (s s' : Poll) (p i : ℕ) (table : Table) (entry : PollFd)
      (revents : Revents)
      → at s.tables p ≡ ok table
      → at table.fds i ≡ ok entry
      → i < table.curr
      → is_closed entry.fd ≡ false
      → entry.revents ≡ revents
      → IsCounted max_fds nworkers s
      → handle_entry max_fds nworkers accepted p i table entry revents s ≡ ok s'
      → IsCounted max_fds nworkers s'
  unfolding handle_entry
  handle_entry-IsCounted accepted s s' p i table entry readable there here inside open_ e h done =
      serve_entry-IsCounted accepted s s' p i table entry entry.fd there here h done
  handle_entry-IsCounted accepted s s' p i table entry hung there here inside open_ e h done =
      let t = at-All (IsTable max_fds) s.tables p table there h.sound in
      let fine : IsFine entry = at-All IsFine table.fds i entry here t.fine in
      subst (IsCounted max_fds nworkers) (ok_inj done) (
        close_entry-IsCounted s p i table entry there here inside
          (open_weight entry.fd open_ (fine e)) h)
  handle_entry-IsCounted accepted s s' p i table entry quiet there here inside open_ e h done =
      subst (IsCounted max_fds nworkers) (ok_inj done) h
  handle_entry-IsCounted accepted s s' p i table entry strange there here inside open_ e h done =
      subst (IsCounted max_fds nworkers) (ok_inj done) h

  visit-IsCounted :
      (accepted : Accepted) (s s' : Poll) (p i : ℕ) (table : Table)
      → at s.tables p ≡ ok table
      → i < table.curr
      → IsCounted max_fds nworkers s
      → visit max_fds nworkers accepted p i s ≡ ok s'
      → IsCounted max_fds nworkers s'
  unfolding visit
  visit-IsCounted accepted s s' p i table there inside h done =
      let (entry, here, done') = >>=-eq-ok (at table.fds i) _ (rw there at done) in
      elim (Bool-cases (is_closed entry.fd)) [
        | inl gone ↦ subst (IsCounted max_fds nworkers) (ok_inj (rw gone at done')) h
        | inr open_ ↦
            let (middle, handled, last) =
              >>=-eq-ok (handle_entry max_fds nworkers accepted p i table entry entry.revents s) _
                (rw open_ at done') in
            reset-IsCounted middle s' p i
              (handle_entry-IsCounted accepted s middle p i table entry entry.revents there here
                inside open_ refl h handled)
              last
      ]

  pub scan-IsCounted :
      (accepted : ℕ → Accepted) (p left i : ℕ) (s s' : Poll)
      → IsCounted max_fds nworkers s
      → scan max_fds nworkers accepted p left i s ≡ ok s'
      → IsCounted max_fds nworkers s'
  unfolding scan
  scan-IsCounted accepted p zero i s s' h done =
      let (table, there, done') = >>=-eq-ok (at s.tables p) _ done in
      elim (Bool-cases (ltb i table.curr)) [
        | inl more ↦ absurd (ok_ne_err (rw more at done'))
        | inr end ↦ subst (IsCounted max_fds nworkers) (ok_inj (rw end at done')) h
      ]
  scan-IsCounted accepted p (suc left) i s s' h done =
      let (table, there, done') = >>=-eq-ok (at s.tables p) _ done in
      elim (Bool-cases (ltb i table.curr)) [
        | inl more ↦
            let (middle, visited, rest) =
              >>=-eq-ok (visit max_fds nworkers (accepted i) p i s) _ (rw more at done') in
            scan-IsCounted accepted p left (suc i) middle s'
              (visit-IsCounted (accepted i) s middle p i table there (ground arith) h visited) rest
        | inr end ↦ subst (IsCounted max_fds nworkers) (ok_inj (rw end at done')) h
      ]
