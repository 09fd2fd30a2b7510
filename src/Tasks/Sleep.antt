-- ===== src/Tasks/Sleep.antt =====
-- task_wake_sleepers and the idle loop of task_next of kernel/task/task.c.
use rorth_ox.Prelude.{
  ℕ, zero, suc, ◌+◌, ◌^◌, ◌≤◌, ◌<◌, ◌≡◌, ◌≢◌, inl, inr, refl, ◌∙◌, ap, sym, subst, true, false,
  Option, none, some, List, [], ◌∷◌, ◌++◌, leb, ◌==◌, if◌then◌else◌, arith, length, u32, eq_or_ne,
}
use rorth_ox.Tasks.{
  Task, Scheduler, due, woken, wake_from, wake_sleepers, after_event, get_next, next_task,
}
use rorth_ox.Tasks.Links.{has, first_or, Distinct, Linked, Listed, Linked-frame, has-append}
use rorth_ox.Tasks.Removal.{Distinct-nonzero}
use rorth_ox.Tasks.Rotation.{runnable, get_next_lem}

-- A tick `elapsed` after the call wakes a sleep of `delay` exactly when the delay has passed, also
-- where the counter wraps, for a delay below 2 ^ 31 that passed less than 2 ^ 31 ticks ago.
pub due_lem :
    (began delay elapsed : ℕ)
    → began < 2 ^ 32
    → delay < 2 ^ 31
    → elapsed < delay + 2 ^ 31
    → due (u32 (began + elapsed)) (u32 (began + delay)) ≡ leb delay elapsed
due_lem began delay elapsed b d e = ground arith

-- One round of the loop.
abbrev wake_one : ℕ → ℕ → (ℕ → Task) → ℕ → Task
wake_one now t tasks a = if a == t then woken now (tasks a) else tasks a

next-wake_one : (now t a : ℕ) (tasks : ℕ → Task) → (wake_one now t tasks a).next ≡ (tasks a).next
next-wake_one now t a tasks = ground arith

prev-wake_one : (now t a : ℕ) (tasks : ℕ → Task) → (wake_one now t tasks a).prev ≡ (tasks a).prev
prev-wake_one now t a tasks = ground arith

wake_one-has :
    (now x a : ℕ) (xs : List ℕ) (tasks : ℕ → Task)
    → has x xs ≡ false
    → (if has a xs then woken now (wake_one now x tasks a) else wake_one now x tasks a)
      ≡ (if has a (x ∷ xs) then woken now (tasks a) else tasks a)
wake_one-has now x a xs tasks out = elim (eq_or_ne a x) [
  | inl same ↦
      let gone = ap (λ b. has b xs) same in
      let here : (a == x) ≡ true = ground arith in rw (gone ∙ out, here) refl
  | inr other ↦ let apart : (a == x) ≡ false = ground arith in rw apart refl
]

wake_from-has :
    (rounds now : ℕ) (tasks : ℕ → Task) (p : ℕ) (xs : List ℕ) (a : ℕ)
    → Linked tasks p xs
    → Distinct xs
    → length xs ≤ rounds
    → wake_from rounds now (first_or 0 xs) tasks a
      ≡ (if has a xs then woken now (tasks a) else tasks a)
unfolding wake_from
wake_from-has zero now tasks p [] a l d enough = refl
wake_from-has zero now tasks p (x ∷ xs) a l d enough = absurd (omega arith)
wake_from-has (suc rounds) now tasks p [] a l d enough = refl
wake_from-has (suc rounds) now tasks p (x ∷ xs) a l d enough =
    let one = wake_one now x tasks in
    let some_there : (x == 0) ≡ false = ground (arith, d.0) in
    let chain =
      Linked-frame tasks one x xs (λ b h. prev-wake_one now x b tasks)
        (λ b h. next-wake_one now x b tasks) l.2 in
    let rest = wake_from-has rounds now one x xs a chain d.2 (omega arith) in
    rw (wake_from, some_there)
      (ap (λ n. wake_from rounds now n one a) l.1 ∙ rest ∙ wake_one-has now x a xs tasks d.1)

-- Every task of the list that sleeps and is due is woken, and nothing else changes.
pub wake_sleepers-has :
    (rounds now : ℕ) (s : Scheduler) (xs : List ℕ) (a : ℕ)
    → Listed s xs
    → length xs ≤ rounds
    → (wake_sleepers rounds now s).task a ≡ (if has a xs then woken now (s.task a) else s.task a)
unfolding wake_sleepers
wake_sleepers-has rounds now s xs a l enough =
    ap (λ n. wake_from rounds now n s.task a) l.head_first
    ∙ wake_from-has rounds now s.task 0 xs a l.linked l.distinct enough

module _ (rounds now : ℕ) (s : Scheduler) (xs : List ℕ) (l : Listed s xs)
    (enough : length xs ≤ rounds) where
  next-wake : (a : ℕ) → ((wake_sleepers rounds now s).task a).next ≡ (s.task a).next
  next-wake a = ap (λ t. t.next) (wake_sleepers-has rounds now s xs a l enough) ∙ ground arith

  prev-wake : (a : ℕ) → ((wake_sleepers rounds now s).task a).prev ≡ (s.task a).prev
  prev-wake a = ap (λ t. t.prev) (wake_sleepers-has rounds now s xs a l enough) ∙ ground arith

  wake_tick-wake : (a : ℕ) → ((wake_sleepers rounds now s).task a).wake_tick ≡ (s.task a).wake_tick
  wake_tick-wake a =
      ap (λ t. t.wake_tick) (wake_sleepers-has rounds now s xs a l enough) ∙ ground arith

  wake_sleepers-Listed : Listed (wake_sleepers rounds now s) xs
  unfolding wake_sleepers
  wake_sleepers-Listed = record {
    distinct = l.distinct;
    linked =
        Linked-frame s.task (wake_sleepers rounds now s).task 0 xs (λ a h. prev-wake a)
          (λ a h. next-wake a) l.linked;
    head_first = l.head_first;
    tail_last = l.tail_last;
    current_in = l.current_in;
  }

after_event-Listed :
    (rounds : ℕ) (event : Option ℕ) (s : Scheduler) (xs : List ℕ)
    → Listed s xs
    → length xs ≤ rounds
    → Listed (after_event rounds event s) xs
unfolding after_event
after_event-Listed rounds none s xs l enough = l
after_event-Listed rounds (some now) s xs l enough = wake_sleepers-Listed rounds now s xs l enough

wake_tick-after_event :
    (rounds : ℕ) (event : Option ℕ) (s : Scheduler) (xs : List ℕ) (a : ℕ)
    → Listed s xs
    → length xs ≤ rounds
    → ((after_event rounds event s).task a).wake_tick ≡ (s.task a).wake_tick
unfolding after_event
wake_tick-after_event rounds none s xs a l enough = refl
wake_tick-after_event rounds (some now) s xs a l enough = wake_tick-wake rounds now s xs l enough a

current-after_event :
    (rounds : ℕ) (event : Option ℕ) (s : Scheduler)
    → (after_event rounds event s).current ≡ s.current
unfolding wake_sleepers after_event
current-after_event rounds none s = refl
current-after_event rounds (some now) s = refl

runnable-nonzero :
    (tasks : ℕ → Task) (xs : List ℕ) (a : ℕ)
    → has 0 xs ≡ false
    → has a xs ≡ true
    → (tasks a).sleeping ≡ false
    → runnable tasks xs ≢ 0
runnable-nonzero tasks [] a nz there awake = absurd (ground arith)
runnable-nonzero tasks (x ∷ xs) a nz there awake = elim (eq_or_ne a x) [
  | inl same ↦ let up = ap (λ t. (tasks t).sleeping) same in ground arith
  | inr other ↦
      let rest = runnable-nonzero tasks xs a (ground arith) (ground arith) awake in ground arith
]

-- The halt ends as soon as there is a task to run.
next_task-ready :
    (rounds : ℕ) (events : List (Option ℕ)) (s : Scheduler)
    → get_next rounds s ≢ 0
    → next_task rounds events s ≢ none
unfolding next_task
next_task-ready rounds [] s ready e = ground arith
next_task-ready rounds (event ∷ events) s ready e = ground arith

next_task-later :
    (rounds : ℕ) (event : Option ℕ) (events : List (Option ℕ)) (s : Scheduler)
    → get_next rounds s ≡ 0
    → next_task rounds (event ∷ events) s ≡ next_task rounds events (after_event rounds event s)
unfolding next_task
next_task-later rounds event events s idle = ground arith

module _ (rounds : ℕ) (before after : List ℕ) (t now : ℕ) where
  -- After the tick at which `t` is due there is a task to run.
  get_next-tick :
      (s : Scheduler)
      → Listed s (before ++ (s.current ∷ after))
      → length (before ++ (s.current ∷ after)) ≤ rounds
      → has t (before ++ (s.current ∷ after)) ≡ true
      → due now (s.task t).wake_tick ≡ true
      → get_next rounds (after_event rounds (some now) s) ≢ 0
  unfolding after_event wake_sleepers
  get_next-tick s l enough there is_due zero_now =
      let c = s.current in
      let woke = wake_sleepers rounds now s in
      let order =
        get_next_lem woke before after rounds
          (wake_sleepers-Listed rounds now s (before ++ (c ∷ after)) l enough) enough in
      let at =
        ap (λ q. q.sleeping) (wake_sleepers-has rounds now s (before ++ (c ∷ after)) t l enough) in
      let awake : (woke.task t).sleeping ≡ false = at ∙ ground arith in
      let a1 = has-append t before (c ∷ after) in
      let a2 = has-append t after (before ++ (c ∷ [])) in
      let a3 = has-append t before (c ∷ []) in
      let n0 = Distinct-nonzero (before ++ (c ∷ after)) l.distinct in
      let n1 = has-append 0 before (c ∷ after) in
      let n2 = has-append 0 after (before ++ (c ∷ [])) in
      let n3 = has-append 0 before (c ∷ []) in
      runnable-nonzero woke.task (after ++ (before ++ (c ∷ []))) t (ground arith) (ground arith)
        awake (sym order ∙ zero_now)

  -- If every task sleeps and one of them is due at a tick that comes, after any other ticks and
  -- interrupts, the idle loop ends with a task to switch to.
  pub next_task-due :
      (quiet later : List (Option ℕ)) (s : Scheduler)
      → Listed s (before ++ (s.current ∷ after))
      → length (before ++ (s.current ∷ after)) ≤ rounds
      → has t (before ++ (s.current ∷ after)) ≡ true
      → due now (s.task t).wake_tick ≡ true
      → next_task rounds (quiet ++ (some now ∷ later)) s ≢ none
  next_task-due [] later s l enough there is_due = elim (eq_or_ne (get_next rounds s) 0) [
    | inr ready ↦ next_task-ready rounds (some now ∷ later) s ready
    | inl idle ↦ λ e.
        next_task-ready rounds later (after_event rounds (some now) s)
          (get_next-tick s l enough there is_due)
          (sym (next_task-later rounds (some now) later s idle) ∙ e)
  ]
  next_task-due (event ∷ quiet) later s l enough there is_due =
      elim (eq_or_ne (get_next rounds s) 0) [
        | inr ready ↦ next_task-ready rounds (event ∷ (quiet ++ (some now ∷ later))) s ready
        | inl idle ↦ λ e.
            (let s' = after_event rounds event s in
              let same : s.current ≡ s'.current = sym (current-after_event rounds event s) in
              let list = λ (c : ℕ). before ++ (c ∷ after) in
              next_task-due quiet later s'
                (subst (λ c. Listed s' (list c)) same
                  (after_event-Listed rounds event s (list s.current) l enough))
                (subst (λ c. length (list c) ≤ rounds) same enough)
                (subst (λ c. has t (list c) ≡ true) same there)
                (ap (due now) (wake_tick-after_event rounds event s (list s.current) t l enough)
                  ∙ is_due)
                (sym (next_task-later rounds event (quiet ++ (some now ∷ later)) s idle) ∙ e))
      ]
