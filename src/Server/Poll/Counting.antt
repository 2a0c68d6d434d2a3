-- ===== src/Server/Poll/Counting.antt =====
-- The connections in the poll tables of src/PSSparseServerTask.cpp, counted.
use cirrus.Prelude.{
  ℕ, zero, suc, ◌+◌, ◌*◌, ◌<◌, ◌≤◌, ◌≡◌, refl, List, [], ◌∷◌, length, set, take, All, Bool, true,
  false, arith, ap, subst,
}
use cirrus.Prelude.Result.{ok, ok_inj, ok_ne_err}
use cirrus.Vector.{at}
use cirrus.Server.Poll.{Fd, closed, blank, listener, wakeup, client, hung, PollFd, Table, Poll}

-- A cell that is read is there.
pub at-lt {ℓ} : {A : Type ℓ} (xs : List A) (i : ℕ) (x : A) → at xs i ≡ ok x → i < length xs
unfolding at
at-lt [] i x h = cc
at-lt (y ∷ xs) zero x h = omega arith
at-lt (y ∷ xs) (suc i) x h = omega (arith, at-lt xs i x h)

pub at-All {ℓ κ} :
    {A : Type ℓ} (P : A → Type κ) (xs : List A) (i : ℕ) (x : A) → at xs i ≡ ok x → All P xs → P x
unfolding at
at-All P [] i x h ps = absurd (ok_ne_err h)
at-All P (y ∷ xs) zero x h (p, ps) = subst P (ok_inj h) p
at-All P (y ∷ xs) (suc i) x h (p, ps) = at-All P xs i x h ps

pub set-All {ℓ κ} :
    {A : Type ℓ} (P : A → Type κ) (xs : List A) (i : ℕ) (x : A)
    → P x
    → All P xs
    → All P (set xs i x)
set-All P [] i x p ps = tt
set-All P (y ∷ xs) zero x p (q, ps) = (p, ps)
set-All P (y ∷ xs) (suc i) x p (q, ps) = (q, set-All P xs i x p ps)

pub at-set_self {ℓ} :
    {A : Type ℓ} (xs : List A) (i : ℕ) (x y : A) → at xs i ≡ ok x → at (set xs i y) i ≡ ok y
unfolding at
at-set_self [] i x y h = cc
at-set_self (z ∷ xs) zero x y h = refl
at-set_self (z ∷ xs) (suc i) x y h = at-set_self xs i x y h

abbrev pub weight : Fd → ℕ
weight closed = 0
weight blank = 0
weight listener = 0
weight wakeup = 0
weight (client k) = 1

unfoldable pub connections : List PollFd → ℕ
connections [] = 0
connections (entry ∷ fds) = weight entry.fd + connections fds

-- The entries that a thread polls.
abbrev pub connections_of : Table → ℕ
connections_of table = connections (take table.curr table.fds)

unfoldable pub total : List Table → ℕ
total [] = 0
total (table ∷ tables) = connections_of table + total tables

pub connections-set :
    (fds : List PollFd) (i c : ℕ) (entry entry' : PollFd)
    → at fds i ≡ ok entry
    → i < c
    → connections (take c (set fds i entry')) + weight entry.fd
      ≡ connections (take c fds) + weight entry'.fd
unfolding at connections
connections-set [] i c entry entry' h lt = absurd (ok_ne_err h)
connections-set (e ∷ fds) i zero entry entry' h lt = absurd (omega arith)
connections-set (e ∷ fds) zero (suc c) entry entry' h lt =
    let same : weight e.fd ≡ weight entry.fd = ap (λ x. weight x.fd) (ok_inj h) in omega arith
connections-set (e ∷ fds) (suc i) (suc c) entry entry' h lt =
    omega (arith, connections-set fds i c entry entry' h (omega arith))

pub connections-set_same :
    (fds : List PollFd) (i c : ℕ) (entry entry' : PollFd)
    → at fds i ≡ ok entry
    → weight entry'.fd ≡ weight entry.fd
    → connections (take c (set fds i entry')) ≡ connections (take c fds)
unfolding at connections
connections-set_same [] i c entry entry' h w = absurd (ok_ne_err h)
connections-set_same (e ∷ fds) i zero entry entry' h w = refl
connections-set_same (e ∷ fds) zero (suc c) entry entry' h w =
    let same : weight e.fd ≡ weight entry.fd = ap (λ x. weight x.fd) (ok_inj h) in omega arith
connections-set_same (e ∷ fds) (suc i) (suc c) entry entry' h w =
    omega (arith, connections-set_same fds i c entry entry' h w)

pub connections-next :
    (fds : List PollFd) (c : ℕ) (entry entry' : PollFd)
    → at fds c ≡ ok entry
    → connections (take (suc c) (set fds c entry')) ≡ connections (take c fds) + weight entry'.fd
unfolding at connections
connections-next [] c entry entry' h = absurd (ok_ne_err h)
connections-next (e ∷ fds) zero entry entry' h = omega arith
connections-next (e ∷ fds) (suc c) entry entry' h =
    omega (arith, connections-next fds c entry entry' h)

pub total-set :
    (tables : List Table) (p : ℕ) (table table' : Table)
    → at tables p ≡ ok table
    → total (set tables p table') + connections_of table ≡ total tables + connections_of table'
unfolding at total
total-set [] p table table' h = absurd (ok_ne_err h)
total-set (t ∷ tables) zero table table' h =
    let same : connections_of t ≡ connections_of table = ap (λ t. connections_of t) (ok_inj h) in
    omega arith
total-set (t ∷ tables) (suc p) table table' h = omega (arith, total-set tables p table table' h)

-- Only a connection hangs up: the server keeps its own descriptors open.
abbrev pub may_hang : Fd → Bool
may_hang closed = true
may_hang blank = false
may_hang listener = false
may_hang wakeup = false
may_hang (client k) = true

abbrev pub IsFine : PollFd → Type 0
IsFine entry = entry.revents ≡ hung → may_hang entry.fd ≡ true

pub record IsTable (max_fds : ℕ) (table : Table) : Type 0 where
  pub full_length : length table.fds ≡ max_fds
  pub in_table : table.curr ≤ max_fds
  pub fine : All IsFine table.fds

-- The count of connections is that of the tables, and within the limit.
pub record IsCounted (max_fds nworkers : ℕ) (s : Poll) : Type 0 where
  pub sound : All (IsTable max_fds) s.tables
  pub counted : total s.tables ≡ s.num_connections
  pub limited : s.num_connections ≤ nworkers * 2 + 1
