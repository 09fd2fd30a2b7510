-- ===== src/Tasks.antt =====
-- kernel/task/task.c: the list of tasks, the choice of the next one, and sleeping. A task is known
-- by its address; 0 is the null pointer. Of a task the list keeps the links, whether it sleeps and
-- the tick that wakes it; the other fields are set up elsewhere and are not read here.
pub mod Links
pub mod Removal
pub mod Rotation
pub mod Sleep
pub mod Copy
mod Tests
use rorth_ox.Prelude.{
  ℕ, zero, suc, ◌+◌, ◌-◌, ◌^◌, Bool, true, false, not, ◌&&◌, Option, none, some, List, [], ◌∷◌, ltb,
  ◌==◌, if◌then◌else◌, u32,
}

pub record Task : Type 0 where
  pub next : ℕ
  pub prev : ℕ
  pub sleeping : Bool
  pub wake_tick : ℕ

-- `task_head`, `task_tail` and `current_task`, with the tasks at their addresses.
pub record Scheduler : Type 0 where
  pub task : ℕ → Task
  pub head : ℕ
  pub tail : ℕ
  pub current : ℕ

abbrev pub set_next : ℕ → ℕ → (ℕ → Task) → ℕ → Task
set_next p v tasks a =
    if a == p
    then record {
      next = v;
      prev = (tasks a).prev;
      sleeping = (tasks a).sleeping;
      wake_tick = (tasks a).wake_tick;
    }
    else tasks a

abbrev pub set_prev : ℕ → ℕ → (ℕ → Task) → ℕ → Task
set_prev p v tasks a =
    if a == p
    then record {
      next = (tasks a).next;
      prev = v;
      sleeping = (tasks a).sleeping;
      wake_tick = (tasks a).wake_tick;
    }
    else tasks a

-- A write through a pointer that may be null, under the test of it.
abbrev pub set_next_if : ℕ → ℕ → (ℕ → Task) → ℕ → Task
set_next_if p v tasks = if p == 0 then tasks else set_next p v tasks

abbrev pub set_prev_if : ℕ → ℕ → (ℕ → Task) → ℕ → Task
set_prev_if p v tasks = if p == 0 then tasks else set_prev p v tasks

pub publish : ℕ → Scheduler → Scheduler
publish t s =
    if s.head == 0 then record { task = s.task; head = t; tail = t; current = t } else record {
      task = set_prev t s.tail (set_next s.tail t s.task);
      head = s.head;
      tail = t;
      current = s.current;
    }

-- `p->next ? p->next : task_head`
abbrev pub follower : (ℕ → Task) → ℕ → ℕ → ℕ
follower tasks head p = if (tasks p).next == 0 then head else (tasks p).next

-- The loop of `task_get_next` at `t`; the rounds are those left before it is given up.
pub get_next_from : ℕ → Scheduler → ℕ → ℕ → ℕ
get_next_from zero s start t = 0
get_next_from (suc rounds) s start t =
    let after = follower s.task s.head t in
    let rest = get_next_from rounds s start after in
    if t == 0 then 0 else if not (s.task t).sleeping then t else if after == start then 0 else rest

abbrev pub start_task : Scheduler → ℕ
start_task s =
    if not (s.current == 0) && not ((s.task s.current).next == 0)
    then (s.task s.current).next
    else s.head

-- Null if the list is empty or every task sleeps.
pub get_next : ℕ → Scheduler → ℕ
unfolding get_next_from
get_next rounds s = get_next_from rounds s (start_task s) (start_task s)

pub list_remove : ℕ → Scheduler → Scheduler
list_remove t s =
    let tasks = set_next_if (s.task t).prev (s.task t).next s.task in
    let tasks' = set_prev_if (tasks t).next (tasks t).prev tasks in
    let head' = if t == s.head then (tasks' t).next else s.head in
    let tail' = if t == s.tail then (tasks' t).prev else s.tail in
    let current' = if t == s.current then follower tasks' head' t else s.current in
    record {
      task = set_next t 0 (set_prev t 0 tasks');
      head = head';
      tail = tail';
      current = current';
    }

-- `(uint32_t)(now - wake_tick) < 0x80000000`
abbrev pub due : ℕ → ℕ → Bool
due now wake_tick = ltb (u32 (now + 2 ^ 32 - wake_tick)) (2 ^ 31)

abbrev pub woken : ℕ → Task → Task
woken now t = record {
  next = t.next;
  prev = t.prev;
  sleeping = if t.sleeping && due now t.wake_tick then false else t.sleeping;
  wake_tick = t.wake_tick;
}

-- The loop of `task_wake_sleepers` from `t` on.
pub wake_from : ℕ → ℕ → ℕ → (ℕ → Task) → ℕ → Task
wake_from zero now t tasks = tasks
wake_from (suc rounds) now t tasks =
    let rest =
      wake_from rounds now (tasks t).next (λ a. if a == t then woken now (tasks a) else tasks a) in
    if t == 0 then tasks else rest

pub wake_sleepers : ℕ → ℕ → Scheduler → Scheduler
unfolding wake_from
wake_sleepers rounds now s = record {
  task = wake_from rounds now s.head s.task;
  head = s.head;
  tail = s.tail;
  current = s.current;
}

-- `task_sleep_until` up to its call of `task_next`, for the current task.
pub sleep_until : ℕ → Scheduler → Scheduler
sleep_until deadline s = record {
  task = λ a.
      if a == s.current
      then record {
        next = (s.task a).next;
        prev = (s.task a).prev;
        sleeping = true;
        wake_tick = deadline;
      }
      else s.task a;
  head = s.head;
  tail = s.tail;
  current = s.current;
}

-- The list part of `task_switch`.
pub switch : ℕ → Scheduler → Scheduler
switch t s = record { task = s.task; head = s.head; tail = s.tail; current = t }

-- What an interrupt during the halt does to the tasks.
pub after_event : ℕ → Option ℕ → Scheduler → Scheduler
unfolding wake_sleepers
after_event rounds none s = s
after_event rounds (some now) s = wake_sleepers rounds now s

-- `task_next` over what ends each halt: a timer tick at a time, or another interrupt. `none` is a
-- halt that nothing ends any more.
pub next_task : ℕ → List (Option ℕ) → Scheduler → Option Scheduler
unfolding get_next switch after_event
next_task rounds [] s = if get_next rounds s == 0 then none else some (switch (get_next rounds s) s)
next_task rounds (event ∷ events) s =
    let later = next_task rounds events (after_event rounds event s) in
    if get_next rounds s == 0 then later else some (switch (get_next rounds s) s)
