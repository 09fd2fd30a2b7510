-- ===== src/Tasks/Tests.antt =====
-- Instances for the task list of kernel/task/task.c.
use rorth_ox.Prelude.{
  ◌==◌, if◌then◌else◌, false, ℕ, ◌+◌, ◌≡◌, ◌≢◌, refl, true, none, some, [], ◌∷◌, ◌++◌, arith,
}
use rorth_ox.Tasks.{Task, Scheduler, publish, list_remove, get_next, next_task}
use rorth_ox.Tasks.Links.{Listed, publish-append}
use rorth_ox.Tasks.Removal.{list_remove-drop}
use rorth_ox.Tasks.Rotation.{runnable, get_next_lem}
use rorth_ox.Status.{err, Errno}
use rorth_ox.Paging.{user_translate}
use rorth_ox.Processes.{Program, user_span}
use rorth_ox.Tasks.Copy.{UserMemory, copy_user, pass, copy_user_failed, pass_enough}
use rorth_ox.Tasks.Sleep.{next_task-due}

-- The task at 8 sleeps until tick 3.
abbrev tasks : ℕ → Task
tasks a = record { next = 0; prev = 0; sleeping = true; wake_tick = 3 }

abbrev boot : Scheduler
boot = record { task = tasks; head = 0; tail = 0; current = 0 }

boot-Listed : Listed boot []
boot-Listed = record {
  distinct = tt;
  linked = tt;
  head_first = refl;
  tail_last = refl;
  current_in = refl;
}

-- The tasks at 4 and 8.
abbrev pair : Scheduler
unfolding publish
pair = record { task = (publish 8 (publish 4 boot)).task; head = 4; tail = 8; current = 4 }

pair-Listed : Listed pair (4 ∷ 8 ∷ [])
unfolding publish
pair-Listed =
    publish-append (publish 4 boot) (4 ∷ []) 8
      (publish-append boot [] 4 boot-Listed (omega arith) refl refl refl) (omega arith) refl refl
      refl

list_remove-drop_example :
    Listed (list_remove 4 pair) ([] ++ (8 ∷ []))
    × (((list_remove 4 pair).task 4).next ≡ 0)
    × (((list_remove 4 pair).task 4).prev ≡ 0)
list_remove-drop_example = list_remove-drop pair [] 4 (8 ∷ []) pair-Listed

get_next_lem_example :
    get_next 2 pair ≡ runnable pair.task ((8 ∷ []) ++ ([] ++ (pair.current ∷ [])))
unfolding pair
get_next_lem_example = get_next_lem pair [] (8 ∷ []) 2 pair-Listed (omega arith)

next_task-due_example : next_task 2 ((none ∷ []) ++ (some 3 ∷ [])) pair ≢ none
unfolding publish
next_task-due_example =
    next_task-due 2 [] (8 ∷ []) 8 3 (none ∷ []) [] pair pair-Listed (omega arith) refl refl

-- A binary of two pages, of which only the first is mapped.
abbrev half_mapped : UserMemory
half_mapped = record {
  process = record { has_stack = false; allocations = []; program = Program.binary 8192 };
  tables = λ a. (if a == 4100 then 0x2007 else if a == 0x2000 then 0x5007 else 0);
  directory = 4096;
}

-- The first four bytes are there, the next ones are not.
second_page_missing : (copy_user half_mapped 0x400FFC 100 8 true (λ a. 0)).0 ≡ err Errno.einvarg
unfolding copy_user user_span user_translate
second_page_missing = refl

copy_user_failed_example : (copy_user half_mapped 0x400FFC 100 8 true (λ a. 0)).1 ≡ λ a. 0
copy_user_failed_example =
    copy_user_failed half_mapped 0x400FFC 100 8 true (λ a. 0) Errno.einvarg second_page_missing

pass_enough_example :
    pass half_mapped true false (4 + 3) 4 0x400FFC 100 (λ a. a)
    ≡ pass half_mapped true false 4 4 0x400FFC 100 (λ a. a)
pass_enough_example = pass_enough half_mapped true false 4 3 4 0x400FFC 100 (λ a. a) (ground arith)
