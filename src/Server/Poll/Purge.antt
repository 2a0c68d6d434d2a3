-- ===== src/Server/Poll/Purge.antt =====
-- The purge of a poll table (src/PSSparseServerTask.cpp) keeps its connections.
use cirrus.Prelude.{
  ℕ, zero, suc, ◌+◌, ◌-◌, ◌%◌, ◌^◌, ◌<◌, ◌≤◌, ◌≡◌, refl, true, List, [], ◌∷◌, ◌++◌, length, take,
  drop, All, arith, ◌==◌, length-append, length-drop, take-append, take_all, Bool-cases, inl, inr,
  subst, sym, ◌∙◌,
}
use cirrus.Prelude.Result.{ok, >>=-eq-ok, ok_inj}
use cirrus.Vector.{at}
use cirrus.Server.Poll.{
  Fd, closed, blank, listener, wakeup, client, PollFd, Table, Poll, is_closed, without_closed,
  purge, make_room,
}
use cirrus.Server.Poll.Counting.{
  weight, connections, connections_of, total-set, IsFine, IsTable, IsCounted, at-All, set-All,
}

closed_weight : (fd : Fd) → is_closed fd ≡ true → weight fd ≡ 0
closed_weight closed h = refl
closed_weight blank h = cc
closed_weight listener h = cc
closed_weight wakeup h = cc
closed_weight (client k) h = cc

connections-without_closed :
    (fds : List PollFd) → connections (without_closed fds) ≡ connections fds
unfolding connections without_closed
connections-without_closed [] = refl
connections-without_closed (entry ∷ fds) = elim (Bool-cases (is_closed entry.fd)) [
  | inl gone ↦
      let none : weight entry.fd ≡ 0 = closed_weight entry.fd gone in
      rw gone (omega (arith, connections-without_closed fds))
  | inr open_ ↦ rw open_ (omega (arith, connections-without_closed fds))
]

length-without_closed : (fds : List PollFd) → length (without_closed fds) ≤ length fds
unfolding without_closed
length-without_closed [] = omega arith
length-without_closed (entry ∷ fds) = ground (arith, length-without_closed fds)

without_closed-All :
    (P : PollFd → Type 0) (fds : List PollFd) → All P fds → All P (without_closed fds)
unfolding without_closed
without_closed-All P [] ps = tt
without_closed-All P (entry ∷ fds) (p, ps) = elim (Bool-cases (is_closed entry.fd)) [
  | inl gone ↦ rw gone (without_closed-All P fds ps)
  | inr open_ ↦ rw open_ (p, without_closed-All P fds ps)
]

append-All : {A : Type 0} (P : A → Type 0) (xs ys : List A) → All P xs → All P ys → All P (xs ++ ys)
append-All P [] ys ps qs = qs
append-All P (x ∷ xs) ys (p, ps) qs = (p, append-All P xs ys ps qs)

drop-All : {A : Type 0} (P : A → Type 0) (n : ℕ) (xs : List A) → All P xs → All P (drop n xs)
drop-All P zero xs ps = ps
drop-All P (suc n) [] ps = tt
drop-All P (suc n) (x ∷ xs) (p, ps) = drop-All P n xs ps

-- A full table, purged: its connections are those that it had.
purge-IsTable :
    (max_fds : ℕ) (table : Table)
    → max_fds < 2 ^ 32
    → IsTable max_fds table
    → table.curr ≡ max_fds
    → IsTable max_fds (purge table)
      × (connections_of (purge table) ≡ connections_of table)
      × ((purge table).curr ≡ length (without_closed table.fds))
unfolding purge
purge-IsTable max_fds table few h full =
    let kept = without_closed table.fds in
    let rest = drop (length kept) table.fds in
    let shorter = length-without_closed table.fds in
    let all = h.full_length in
    let e : (table.curr + (2 ^ 64 - (length table.fds - length kept))) % 2 ^ 64 ≡ length kept =
      omega arith in
    let everything : take table.curr table.fds ≡ table.fds =
      rw (full ∙ sym all) (take_all table.fds) in
    let l = length-append kept rest in
    let l' = length-drop (length kept) table.fds in
    (
      record {
        full_length = omega arith;
        in_table = omega arith;
        fine =
            append-All IsFine kept rest (without_closed-All IsFine table.fds h.fine)
              (drop-All IsFine (length kept) table.fds h.fine);
      },
      rw (e, take-append kept rest, everything) (connections-without_closed table.fds),
      e,
    )

pub make_room-IsCounted :
    (max_fds nworkers p : ℕ) (s s' : Poll)
    → max_fds < 2 ^ 32
    → IsCounted max_fds nworkers s
    → make_room max_fds nworkers p s ≡ ok s'
    → IsCounted max_fds nworkers s'
unfolding make_room
make_room-IsCounted max_fds nworkers p s s' few h done =
    let (table, there, done') = >>=-eq-ok (at s.tables p) _ done in
    elim (Bool-cases (table.curr == max_fds)) [
      | inl full ↦
          let (sound, same, count) =
            purge-IsTable max_fds table few
              (at-All (IsTable max_fds) s.tables p table there h.sound) (ground arith) in
          let moved = total-set s.tables p table (purge table) there in
          let old = h.counted in
          subst (IsCounted max_fds nworkers) (ok_inj (rw full at done')) (record {
            sound = set-All (IsTable max_fds) s.tables p (purge table) sound h.sound;
            counted = omega arith;
            limited = h.limited;
          })
      | inr room ↦ subst (IsCounted max_fds nworkers) (ok_inj (rw room at done')) h
    ]
