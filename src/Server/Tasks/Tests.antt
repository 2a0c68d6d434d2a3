-- ===== src/Server/Tasks/Tests.antt =====
-- A task that outlives its time.
use cirrus.Prelude.{ℕ, ◌≡◌, refl, []}
use cirrus.Prelude.Result.{ok, err, undefined}
use cirrus.Prelude.Table.{lookup, insert, erase}
use cirrus.Server.{Registry}
use cirrus.Server.Tasks.{
  register, deregister, declare_task_dead, check_tasks_lifetime, exceeds, or_zero,
}
use cirrus.Server.Tasks.Life.{
  Life, unknown, alive, Represents, set_life, register_life, register-refines,
}
use cirrus.Server.Tasks.Lifetime.{check_tasks_lifetime-overdue, check_tasks_lifetime-Represents}

abbrev no_tasks : Registry
no_tasks = record {
  registered_tasks = [];
  task_to_remaining_time = [];
  task_to_starttime = [];
  num_tasks = 0;
}

abbrev started : Registry
started = (register 0 3 60 no_tasks).1

abbrev task_three : ℕ → Life
task_three = set_life (λ id. unknown) 3 (alive 60 0)

started-Represents : Represents started task_three
unfolding lookup register_life
started-Represents = (register-refines 0 3 60 no_tasks (λ id. unknown) (λ id. refl)).1

second_deregister : (deregister 3 (deregister 3 started).1).0 ≡ 1
unfolding register deregister declare_task_dead lookup insert erase
second_deregister = refl

-- After 64 seconds.
check_tasks_lifetime-overdue_example : check_tasks_lifetime 64_000_000_000 started ≡ err undefined
unfolding register lookup insert exceeds or_zero
check_tasks_lifetime-overdue_example =
    check_tasks_lifetime-overdue 64_000_000_000 started task_three [] [] (3, 0) started-Represents
      refl tt refl

-- After 63 seconds.
check_tasks_lifetime-Represents_example :
    (r' : Registry) × (check_tasks_lifetime 63_000_000_000 started ≡ ok r')
    × Represents r' task_three
unfolding register lookup insert exceeds or_zero
check_tasks_lifetime-Represents_example =
    check_tasks_lifetime-Represents 63_000_000_000 started task_three started-Represents (refl, tt)
