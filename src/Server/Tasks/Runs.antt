-- ===== src/Server/Tasks/Runs.antt =====
-- All that the server does to its registry, in any order.
use cirrus.Prelude.{
  ℕ, ◌≡◌, refl, ap, subst, true, false, List, [], ◌∷◌, ◌++◌, ◌==◌, All, arith, Bool-cases, ◌⊎◌, inl,
  inr,
}
use cirrus.Prelude.Result.{ok}
use cirrus.Server.{Registry, increment}
use cirrus.Server.Tasks.{register, deregister, check_tasks_lifetime}
use cirrus.Server.Tasks.Life.{
  Life, unknown, alive, dead_task, Represents, register_life, deregister_life, set_life,
  register-refines, deregister-refines,
}
use cirrus.Server.Tasks.Lifetime.{
  is_overdue, check_tasks_lifetime-Represents, check_tasks_lifetime-overdue,
}

-- One step: a request to register or to deregister, the count of a task, or a check that returns.
pub data Step : Registry → Registry → Type 0 where
  registers : (now id remaining : ℕ) {r : Registry} → Step r (register now id remaining r).1
  deregisters : (id : ℕ) {r : Registry} → Step r (deregister id r).1
  counts : {r : Registry} → Step r (record r { num_tasks = increment r.num_tasks })
  checks : (now : ℕ) {r r' : Registry} → check_tasks_lifetime now r ≡ ok r' → Step r r'

pub data Reaches : Registry → Registry → Type 0 where
  here : {r : Registry} → Reaches r r
  step : {r r' r'' : Registry} → Step r r' → Reaches r' r'' → Reaches r r''

-- What may be known of a task later on.
abbrev pub Later : Life → Life → Type 0
Later unknown l = Unit {0}
Later (alive remaining start) l = (l ≡ alive remaining start) ⊎ (l ≡ dead_task)
Later dead_task l = l ≡ dead_task

Later-same : (l : Life) → Later l l
Later-same unknown = tt
Later-same (alive remaining start) = inl refl
Later-same dead_task = refl

Later-trans : (l l' l'' : Life) → Later l l' → Later l' l'' → Later l l''
Later-trans unknown l' l'' h h' = tt
Later-trans (alive remaining start) l' l'' (inl e) h' = subst (λ l. Later l l'') e h'
Later-trans (alive remaining start) l' l'' (inr e) h' = inr (subst (λ l. Later l l'') e h')
Later-trans dead_task l' l'' e h' = subst (λ l. Later l l'') e h'

register-Later : (now remaining : ℕ) (l : Life) → Later l (register_life now remaining l).1
unfolding register_life
register-Later now remaining unknown = tt
register-Later now remaining (alive remaining' start) = inl refl
register-Later now remaining dead_task = refl

deregister-Later : (l : Life) → Later l (deregister_life l).1
unfolding deregister_life
deregister-Later unknown = tt
deregister-Later (alive remaining start) = inr refl
deregister-Later dead_task = refl

set_life-Later :
    (life : ℕ → Life) (id : ℕ) (l : Life)
    → Later (life id) l
    → (j : ℕ) → Later (life j) (set_life life id l j)
unfolding set_life
set_life-Later life id l h j = elim (Bool-cases (id == j)) [
  | inl same ↦ let e : id ≡ j = ground arith in rw same (subst (λ k. Later (life k) l) e h)
  | inr other ↦ rw other (Later-same (life j))
]

-- Either no task is overdue, or there is a first one.
first_overdue :
    (now : ℕ) (r : Registry) (tasks : List (ℕ × ℕ))
    → All (λ p. is_overdue now r p ≡ false) tasks
      ⊎ ((before : List (ℕ × ℕ)) × (task : ℕ × ℕ) × (after : List (ℕ × ℕ)) × (tasks
            ≡ before ++ (task ∷ after))
          × All (λ p. is_overdue now r p ≡ false) before
          × (is_overdue now r task ≡ true))
first_overdue now r [] = inl tt
first_overdue now r (task ∷ tasks) = elim (Bool-cases (is_overdue now r task)) [
  | inl late ↦ inr ([], task, tasks, refl, tt, late)
  | inr fine ↦ elim (first_overdue now r tasks) [
    | inl all_fine ↦ inl (fine, all_fine)
    | inr (before, late_task, after, split, before_fine, late) ↦
        inr (task ∷ before, late_task, after, ap (◌∷◌ task) split, (fine, before_fine), late)
  ]
]

-- What is known of the tasks after a step.
abbrev pub Goes : (ℕ → Life) → Registry → Type 0
Goes life r' = (life' : ℕ → Life) × Represents r' life' × ((id : ℕ) → Later (life id) (life' id))

check-Goes :
    (now : ℕ) (r r' : Registry) (life : ℕ → Life)
    → Represents r life
    → check_tasks_lifetime now r ≡ ok r'
    → Goes life r'
check-Goes now r r' life h done = elim (first_overdue now r r.task_to_starttime) [
  | inl fine ↦
      let (r'', same, h') = check_tasks_lifetime-Represents now r life h fine in
      let e : r'' ≡ r' = cc in
      (life, subst (λ q. Represents q life) e h', λ id. Later-same (life id))
  | inr (before, task, after, split, fine, late) ↦
      let lost = check_tasks_lifetime-overdue now r life before after task h split fine late in
      absurd (cc)
]

Step-Goes : (r r' : Registry) (life : ℕ → Life) → Represents r life → Step r r' → Goes life r'
Step-Goes r r' life h (registers now id remaining) = (
  set_life life id (register_life now remaining (life id)).1,
  (register-refines now id remaining r life h).1,
  set_life-Later life id _ (register-Later now remaining (life id)),
)
Step-Goes r r' life h (deregisters id) = (
  set_life life id (deregister_life (life id)).1,
  (deregister-refines id r life h).1,
  set_life-Later life id _ (deregister-Later (life id)),
)
Step-Goes r r' life h counts = (life, h, λ id. Later-same (life id))
Step-Goes r r' life h (checks now done) = check-Goes now r r' life h done

-- Whatever steps the server takes, its registry goes on to represent a life of each task, in
-- which a task that is alive keeps its times until it is dead, and a dead task is dead for
-- good.
pub Reaches-Goes :
    (r r' : Registry) (life : ℕ → Life) → Represents r life → Reaches r r' → Goes life r'
Reaches-Goes r r' life h here = (life, h, λ id. Later-same (life id))
Reaches-Goes r r' life h (step {r' = middle} first steps) =
    let (life', h', later) = Step-Goes r middle life h first in
    let (life'', h'', later') = Reaches-Goes middle r' life' h' steps in
    (life'', h'', λ id. Later-trans (life id) (life' id) (life'' id) (later id) (later' id))
