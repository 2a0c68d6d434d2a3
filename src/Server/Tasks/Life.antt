-- ===== src/Server/Tasks/Life.antt =====
-- The registry of src/PSSparseServerTask.cpp, against a machine for the life of one task.
use cirrus.Prelude.{
  ℕ, ◌≡◌, refl, sym, ap, ◌∙◌, Bool, true, false, Option, none, some, arith, ◌==◌, has,
  if◌then◌else◌, number_key, Bool-cases, Option-cases, ◌<◌, ◌^◌, inl, inr,
}
use cirrus.Prelude.Table.{lookup, lookup-insert, lookup-erase}
use cirrus.Server.{ℤ, pos, negsuc, Registry}
use cirrus.Server.Tasks.{register, enrolled, declare_task_dead, dead, deregister}

-- What is known of a task: nothing, its remaining time and the start of it, or its end.
pub data Life : Type 0 where
  unknown dead_task : Life
  alive : ℕ → ℕ → Life

-- The part of the registry that is about one task.
abbrev pub Entry : Type 0
Entry = Bool × Option ℤ × Option ℕ

abbrev pub entry : Registry → ℕ → Entry
entry r id =
    (has r.registered_tasks id, lookup id r.task_to_remaining_time, lookup id r.task_to_starttime)

-- How the registry stores what is known.
abbrev pub stored : Life → Entry
stored unknown = (false, none, none)
stored (alive remaining start) = (true, some (pos remaining), some start)
stored dead_task = (true, some (negsuc 0), none)

-- A registry in which `life` says what is known of each task.
abbrev pub Represents : Registry → (ℕ → Life) → Type 0
Represents r life = (id : ℕ) → entry r id ≡ stored (life id)

-- The machine for one task.
unfoldable pub register_life : ℕ → ℕ → Life → ℕ × Life
register_life now remaining unknown = (0, alive remaining now)
register_life now remaining (alive remaining' start) = (1, alive remaining' start)
register_life now remaining dead_task = (1, dead_task)

unfoldable pub deregister_life : Life → ℕ × Life
deregister_life unknown = (2, unknown)
deregister_life (alive remaining start) = (0, dead_task)
deregister_life dead_task = (1, dead_task)

unfoldable pub set_life : (ℕ → Life) → ℕ → Life → ℕ → Life
set_life life id new j = if id == j then new else life j

pub entry_parts :
    (r : Registry) (id : ℕ) (l : Life)
    → entry r id ≡ stored l
    → (has r.registered_tasks id ≡ (stored l).0)
      × (lookup id r.task_to_remaining_time ≡ (stored l).1)
      × (lookup id r.task_to_starttime ≡ (stored l).2)
entry_parts r id l e = (ap (λ p. p.0) e, ap (λ p. p.1) e, ap (λ p. p.2) e)

set_life_same :
    (life : ℕ → Life) (id : ℕ) (l : Life) (j : ℕ) → life id ≡ l → set_life life id l j ≡ life j
unfolding set_life
set_life_same life id l j h = elim (Bool-cases (id == j)) [
  | inl same ↦ let e : id ≡ j = ground arith in rw same (sym h ∙ ap life e)
  | inr other ↦ rw other refl
]

-- A call that changes nothing.
unchanged :
    (r : Registry) (life : ℕ → Life) (id : ℕ) (l : Life)
    → Represents r life
    → life id ≡ l
    → Represents r (set_life life id l)
unchanged r life id l h e j = h j ∙ ap stored (sym (set_life_same life id l j e))

pub entry-ext :
    {a a' : Bool} {b b' : Option ℤ} {c c' : Option ℕ}
    → a ≡ a'
    → b ≡ b'
    → c ≡ c'
    → ◌≡◌ {A = Entry} (a, b, c) (a', b', c')
entry-ext p q r = cc

-- A registry that differs in the entry of one task.
Represents-one :
    (r r' : Registry) (life : ℕ → Life) (id : ℕ) (l : Life)
    → Represents r life
    → ((j : ℕ) → entry r' j ≡ (if id == j then stored l else entry r j))
    → Represents r' (set_life life id l)
unfolding set_life
Represents-one r r' life id l h change j = elim (Bool-cases (id == j)) [
  | inl same ↦ rw (change j, same) refl
  | inr other ↦ rw (change j, other) (h j)
]

-- In a registry that represents a life of each task, a registration replies and acts as the
-- machine of one task says, and no other task is touched.
pub register-refines :
    (now id remaining : ℕ) (r : Registry) (life : ℕ → Life)
    → Represents r life
    → ((register now id remaining r).0 ≡ (register_life now remaining (life id)).0)
      × Represents
          (register now id remaining r).1
          (set_life life id (register_life now remaining (life id)).1)
unfolding register register_life
register-refines now id remaining r life h = go (life id) refl
  where
    fresh_entry :
        (j : ℕ)
        → entry (enrolled now id remaining r) j
          ≡ (if id == j then stored (alive remaining now) else entry r j)
    fresh_entry j = elim (Bool-cases (id == j)) [
      | inl same ↦
          rw
            (
              lookup-insert id j (pos remaining) r.task_to_remaining_time,
              lookup-insert id j now r.task_to_starttime,
              same,
            )
            (entry-ext (ground arith) refl refl)
      | inr other ↦
          rw
            (
              lookup-insert id j (pos remaining) r.task_to_remaining_time,
              lookup-insert id j now r.task_to_starttime,
              other,
            )
            (entry-ext (ground arith) refl refl)
    ]

    go :
        (l : Life)
        → life id ≡ l
        → ((register now id remaining r).0 ≡ (register_life now remaining l).0)
          × Represents
              (register now id remaining r).1
              (set_life life id (register_life now remaining l).1)
    go unknown e =
        let (fresh, a, b) = entry_parts r id unknown (h id ∙ ap stored e) in
        (
          rw fresh refl,
          rw fresh (
              Represents-one r (enrolled now id remaining r) life id (alive remaining now) h
                fresh_entry),
        )
    go (alive remaining' start) e =
        let (old, a, b) = entry_parts r id (alive remaining' start) (h id ∙ ap stored e) in
        (rw old refl, rw old (unchanged r life id (alive remaining' start) h e))
    go dead_task e =
        let (old, a, b) = entry_parts r id dead_task (h id ∙ ap stored e) in
        (rw old refl, rw old (unchanged r life id dead_task h e))

-- In a registry that represents a life of each task, a deregistration replies and acts as the
-- machine of one task says, and no other task is touched.
pub deregister-refines :
    (id : ℕ) (r : Registry) (life : ℕ → Life)
    → Represents r life
    → ((deregister id r).0 ≡ (deregister_life (life id)).0)
      × Represents (deregister id r).1 (set_life life id (deregister_life (life id)).1)
unfolding deregister declare_task_dead deregister_life
deregister-refines id r life h = go (life id) refl
  where
    dead_entry :
        (j : ℕ)
        → has r.registered_tasks id ≡ true
        → entry (dead id r) j ≡ (if id == j then stored dead_task else entry r j)
    dead_entry j known = elim (Bool-cases (id == j)) [
      | inl same ↦
          let e : id ≡ j = ground arith in
          rw
            (
              lookup-insert id j (negsuc 0) r.task_to_remaining_time,
              lookup-erase id j r.task_to_starttime,
              same,
            )
            (entry-ext (ap (has r.registered_tasks) (sym e) ∙ known) refl refl)
      | inr other ↦
          rw
            (
              lookup-insert id j (negsuc 0) r.task_to_remaining_time,
              lookup-erase id j r.task_to_starttime,
              other,
            )
            refl
    ]

    go :
        (l : Life)
        → life id ≡ l
        → ((deregister id r).0 ≡ (deregister_life l).0)
          × Represents (deregister id r).1 (set_life life id (deregister_life l).1)
    go unknown e =
        let (absent, a, b) = entry_parts r id unknown (h id ∙ ap stored e) in
        (rw absent refl, rw absent (unchanged r life id unknown h e))
    go (alive remaining start) e =
        let (known', a, started) = entry_parts r id (alive remaining start) (h id ∙ ap stored e) in
        let known : has r.registered_tasks id ≡ true = known' in
        let ended : declare_task_dead id r ≡ (0, dead id r) =
          rw (started, declare_task_dead) refl in
        (
          rw (known, ended) refl,
          rw (known, ended)
              (Represents-one r (dead id r) life id dead_task h (λ j. dead_entry j known)),
        )
    go dead_task e =
        let (known', a, ended') = entry_parts r id dead_task (h id ∙ ap stored e) in
        let known : has r.registered_tasks id ≡ true = known' in
        let again : declare_task_dead id r ≡ (1, r) = rw (ended', declare_task_dead) refl in
        (rw (known, again) refl, rw (known, again) (unchanged r life id dead_task h e))

-- 1 for a task that has been registered.
abbrev pub registered_before : Registry → ℕ → ℕ
registered_before r id = if has r.registered_tasks id then 1 else 0

pub register-told :
    (now id remaining : ℕ) (r : Registry) → (register now id remaining r).0 ≡ registered_before r id
unfolding register
register-told now id remaining r = elim (Bool-cases (has r.registered_tasks id)) [
  | inl known ↦ rw known refl
  | inr new ↦ rw new refl
]

-- The replies are words.
pub register-small :
    (now id remaining : ℕ) (r : Registry) → (register now id remaining r).0 < 2 ^ 32
unfolding register
register-small now id remaining r = elim (Bool-cases (has r.registered_tasks id)) [
  | inl old ↦ rw old (omega arith)
  | inr new ↦ rw new (omega arith)
]

declare_task_dead-small : (id : ℕ) (r : Registry) → (declare_task_dead id r).0 < 2 ^ 32
unfolding declare_task_dead
declare_task_dead-small id r = elim (Option-cases (lookup id r.task_to_starttime)) [
  | inl ended ↦ rw (ended, declare_task_dead) (omega arith)
  | inr (start, running) ↦ rw (running, declare_task_dead) (omega arith)
]

pub deregister-small : (id : ℕ) (r : Registry) → (deregister id r).0 < 2 ^ 32
unfolding deregister
deregister-small id r = elim (Bool-cases (has r.registered_tasks id)) [
  | inl known ↦ rw known (declare_task_dead-small id r)
  | inr absent ↦ rw absent (omega arith)
]
