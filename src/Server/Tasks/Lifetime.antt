-- ===== src/Server/Tasks/Lifetime.antt =====
-- `check_tasks_lifetime` of src/PSSparseServerTask.cpp, with and without an overdue task.
use cirrus.Prelude.{
  ℕ, ◌-◌, ◌/◌, ◌≡◌, refl, ap, ◌∙◌, Bool, true, false, none, some, List, [], ◌∷◌, arith, All,
  All-before, subst, ◌++◌, number_key, Option-cases, inl, inr, ◌≢◌,
}
use cirrus.Prelude.Result.{Result, ok, err, undefined}
use cirrus.Prelude.Table.{lookup, insert, erase, lookup-erase, lookup-insert_same}
use cirrus.Server.{ℤ, Registry}
use cirrus.Server.Tasks.{
  go_on, declare_task_dead, exceeds, or_zero, check_loop, check_tasks_lifetime,
}
use cirrus.Server.Tasks.Life.{
  Life, unknown, alive, dead_task, entry, stored, Represents, entry_parts, entry-ext,
}

-- Every entry of a table is found under its key.
lookup_entry :
    (P : ℕ → Type 0) (starts : List (ℕ × ℕ))
    → ((id : ℕ) → lookup id starts ≢ none → P id)
    → All (λ p. P p.0) starts
unfolding lookup
lookup_entry P [] h = tt
lookup_entry P ((id, start) ∷ starts) h =
    (h id (λ e. ground arith), lookup_entry P starts (λ j e. h j (λ e'. ground arith)))

-- A running task has a remaining time.
has_time :
    (r : Registry) (life : ℕ → Life)
    → Represents r life
    → (id : ℕ) (l : Life) → life id ≡ l
    → lookup id r.task_to_starttime ≢ none
    → lookup id r.task_to_remaining_time ≢ none
has_time r life h id unknown e running absent =
    running (entry_parts r id unknown (h id ∙ ap stored e)).2
has_time r life h id (alive remaining start) e running absent =
    let timed' = (entry_parts r id (alive remaining start) (h id ∙ ap stored e)).1 in cc
has_time r life h id dead_task e running absent =
    running (entry_parts r id dead_task (h id ∙ ap stored e)).2

-- A task that is declared dead has lost its entry.
pub declared_lost :
    (id : ℕ) (r : Registry) (rest : Result Registry)
    → go_on (lookup id (declare_task_dead id r).1.task_to_starttime) rest ≡ err undefined
unfolding declare_task_dead go_on
declared_lost id r rest = elim (Option-cases (lookup id r.task_to_starttime)) [
  | inl none_there ↦ rw (none_there, declare_task_dead) (rw none_there refl)
  | inr (start, there) ↦
      let gone : lookup id (erase id r.task_to_starttime) ≡ none =
        lookup-erase id id r.task_to_starttime ∙ ground arith in
      rw (there, declare_task_dead) (rw gone refl)
]

module _ (now : ℕ) where
  -- What the loop finds of one entry of `task_to_starttime`.
  abbrev pub is_overdue : Registry → ℕ × ℕ → Bool
  is_overdue r task =
      exceeds ((now - task.1) / 1_000_000_000) (or_zero (lookup task.0 r.task_to_remaining_time))

  abbrev IsTimed : Registry → ℕ × ℕ → Type 0
  IsTimed r task = lookup task.0 r.task_to_remaining_time ≢ none

  abbrev timed : Registry → ℕ → ℤ → Registry
  timed r id n = record r { task_to_remaining_time = insert id n r.task_to_remaining_time }

  check_loop-next :
      (r : Registry) (task : ℕ × ℕ) (tasks : List (ℕ × ℕ)) (n : ℤ)
      → lookup task.0 r.task_to_remaining_time ≡ some n
      → is_overdue r task ≡ false
      → check_loop now (task ∷ tasks) r ≡ check_loop now tasks (timed r task.0 n)
  unfolding check_loop or_zero
  check_loop-next r (id, start) tasks n e f = rw (f, e) refl

  -- The loop over entries that have a remaining time, none of which is overdue.
  check_loop-same :
      (r₀ r : Registry) (tasks : List (ℕ × ℕ))
      → ((j : ℕ) → entry r j ≡ entry r₀ j)
      → All (IsTimed r₀) tasks
      → All (λ p. is_overdue r₀ p ≡ false) tasks
      → (r' : Registry) × (check_loop now tasks r ≡ ok r') × ((j : ℕ) → entry r' j ≡ entry r₀ j)
  unfolding check_loop
  check_loop-same r₀ r [] same ts fs = (r, refl, same)
  check_loop-same r₀ r (task ∷ tasks) same (t, ts) (f, fs) =
      elim (Option-cases (lookup task.0 r₀.task_to_remaining_time)) [
        | inl e ↦ absurd (t e)
        | inr (n, e) ↦
            let there : lookup task.0 r.task_to_remaining_time ≡ some n =
              ap (λ p. p.1) (same task.0) ∙ e in
            let fine : is_overdue r task ≡ false =
              ap (λ o. exceeds ((now - task.1) / 1_000_000_000) (or_zero o))
                (ap (λ p. p.1) (same task.0))
              ∙ f in
            let (r', done, kept) =
              check_loop-same r₀ (timed r task.0 n) tasks
                (λ j.
                  entry-ext refl (lookup-insert_same task.0 j n r.task_to_remaining_time there) refl
                  ∙ same j)
                ts fs in
            (r', check_loop-next r task tasks n there fine ∙ done, kept)
      ]

  check_loop-late :
      (r₀ r : Registry) (before after : List (ℕ × ℕ)) (task : ℕ × ℕ)
      → ((j : ℕ) → entry r j ≡ entry r₀ j)
      → All (IsTimed r₀) before
      → All (λ p. is_overdue r₀ p ≡ false) before
      → is_overdue r₀ task ≡ true
      → check_loop now (before ++ (task ∷ after)) r ≡ err undefined
  unfolding check_loop
  check_loop-late r₀ r [] after task same ts fs late =
      let overdue : is_overdue r task ≡ true =
        ap (λ o. exceeds ((now - task.1) / 1_000_000_000) (or_zero o)) (ap (λ p. p.1) (same task.0))
        ∙ late in
      rw (overdue, check_loop)
        (declared_lost task.0 (timed r task.0 (or_zero (lookup task.0 r.task_to_remaining_time))) _)
  check_loop-late r₀ r (first ∷ before) after task same (t, ts) (f, fs) late =
      elim (Option-cases (lookup first.0 r₀.task_to_remaining_time)) [
        | inl e ↦ absurd (t e)
        | inr (n, e) ↦
            let there : lookup first.0 r.task_to_remaining_time ≡ some n =
              ap (λ p. p.1) (same first.0) ∙ e in
            let fine : is_overdue r first ≡ false =
              ap (λ o. exceeds ((now - first.1) / 1_000_000_000) (or_zero o))
                (ap (λ p. p.1) (same first.0))
              ∙ f in
            check_loop-next r first (before ++ (task ∷ after)) n there fine
            ∙ check_loop-late r₀ (timed r first.0 n) before after task
                (λ j.
                  entry-ext refl (lookup-insert_same first.0 j n r.task_to_remaining_time there)
                    refl
                  ∙ same j)
                ts fs late
      ]

  -- If no task is overdue in a registry that represents a life of each task, the check
  -- returns and changes nothing that is known of a task.
  pub check_tasks_lifetime-Represents :
      (r : Registry) (life : ℕ → Life)
      → Represents r life
      → All (λ p. is_overdue r p ≡ false) r.task_to_starttime
      → (r' : Registry) × (check_tasks_lifetime now r ≡ ok r') × Represents r' life
  unfolding check_tasks_lifetime
  check_tasks_lifetime-Represents r life h fine =
      let started =
        lookup_entry (λ id. lookup id r.task_to_remaining_time ≢ none) r.task_to_starttime
          (λ id. has_time r life h id (life id) refl) in
      let (r', done, same) = check_loop-same r r r.task_to_starttime (λ j. refl) started fine in
      (r', done, λ j. same j ∙ h j)

  -- In a registry that represents a life of each task, the first overdue task is declared
  -- dead, and the loop goes on from the element that this has erased.
  pub check_tasks_lifetime-overdue :
      (r : Registry) (life : ℕ → Life) (before after : List (ℕ × ℕ)) (task : ℕ × ℕ)
      → Represents r life
      → r.task_to_starttime ≡ before ++ (task ∷ after)
      → All (λ p. is_overdue r p ≡ false) before
      → is_overdue r task ≡ true
      → check_tasks_lifetime now r ≡ err undefined
  unfolding check_tasks_lifetime
  check_tasks_lifetime-overdue r life before after task h split fine late =
      ap (λ tasks. check_loop now tasks r) split
      ∙ check_loop-late r r before after task (λ j. refl)
          (All-before (IsTimed r) before (task ∷ after) (subst (All (IsTimed r)) split started))
          fine late
    where
      started : All (IsTimed r) r.task_to_starttime
      started =
          lookup_entry (λ id. lookup id r.task_to_remaining_time ≢ none) r.task_to_starttime
            (λ id. has_time r life h id (life id) refl)
