-- ===== src/Tasks/Links.antt =====
-- The task list of kernel/task/task.c as a list of addresses.
use rorth_ox.Prelude.{
  ℕ, ◌≡◌, ◌≢◌, refl, ◌∙◌, ap, Bool, true, false, ◌||◌, List, [], ◌∷◌, ◌++◌, ◌==◌, if◌then◌else◌,
  arith,
}
use rorth_ox.Tasks.{Task, Scheduler, set_next, set_prev, publish}

abbrev pub has : ℕ → List ℕ → Bool
has a [] = false
has a (x ∷ xs) = a == x || has a xs

abbrev pub first_or : ℕ → List ℕ → ℕ
first_or d [] = d
first_or d (x ∷ xs) = x

abbrev pub last_or : ℕ → List ℕ → ℕ
last_or d [] = d
last_or d (x ∷ xs) = last_or x xs

-- No address twice, and no null pointer.
abbrev pub Distinct : List ℕ → Type 0
Distinct [] = Unit
Distinct (x ∷ xs) = (x ≢ 0) × (has x xs ≡ false) × Distinct xs

-- From `before` on the links lead through the tasks in order, and end in null.
abbrev pub Linked : (ℕ → Task) → ℕ → List ℕ → Type 0
Linked tasks before [] = Unit
Linked tasks before (x ∷ xs) =
    ((tasks x).prev ≡ before) × ((tasks x).next ≡ first_or 0 xs) × Linked tasks x xs

-- The scheduler's list is `xs`, and the current task is one of it, or null where it is empty.
pub record Listed (s : Scheduler) (xs : List ℕ) : Type 0 where
  pub distinct : Distinct xs
  pub linked : Linked s.task 0 xs
  pub head_first : s.head ≡ first_or 0 xs
  pub tail_last : s.tail ≡ last_or 0 xs
  pub current_in : (if s.head == 0 then s.current == 0 else has s.current xs) ≡ true

-- A list with the same links is linked as well.
pub Linked-frame :
    (tasks tasks' : ℕ → Task) (before : ℕ) (xs : List ℕ)
    → ((a : ℕ) → has a xs ≡ true → (tasks' a).prev ≡ (tasks a).prev)
    → ((a : ℕ) → has a xs ≡ true → (tasks' a).next ≡ (tasks a).next)
    → Linked tasks before xs
    → Linked tasks' before xs
Linked-frame tasks tasks' before [] p n l = tt
Linked-frame tasks tasks' before (x ∷ xs) p n l =
    let here : has x (x ∷ xs) ≡ true = ground arith in
    (
      p x here ∙ l.0,
      n x here ∙ l.1,
      Linked-frame tasks tasks' x xs (λ a h. p a (ground arith)) (λ a h. n a (ground arith)) l.2,
    )

pub has-append : (a : ℕ) (xs ys : List ℕ) → has a (xs ++ ys) ≡ (has a xs || has a ys)
has-append a [] ys = refl
has-append a (x ∷ xs) ys = ground (arith, has-append a xs ys)

pub first_or-nonzero : (xs : List ℕ) → Distinct xs → xs ≢ [] → first_or 0 xs ≢ 0
first_or-nonzero [] d ne = absurd (ne refl)
first_or-nonzero (x ∷ xs) d ne = d.0

Distinct-append :
    (xs : List ℕ) (t : ℕ) → Distinct xs → t ≢ 0 → has t xs ≡ false → Distinct (xs ++ (t ∷ []))
Distinct-append [] t d nz out = (nz, refl, tt)
Distinct-append (x ∷ xs) t d nz out =
    (d.0, ground (arith, has-append x xs (t ∷ []), d.1), Distinct-append xs t d.2 nz (ground arith))

pub last_or-has : (d : ℕ) (xs : List ℕ) → has (last_or d xs) (d ∷ xs) ≡ true
last_or-has d [] = ground arith
last_or-has d (x ∷ xs) = ground (arith, last_or-has x xs)

-- What the two writes keep and change.
pub set_next-other : (p v a : ℕ) (tasks : ℕ → Task) → a ≢ p → set_next p v tasks a ≡ tasks a
set_next-other p v a tasks ne = ground arith

pub set_prev-other : (p v a : ℕ) (tasks : ℕ → Task) → a ≢ p → set_prev p v tasks a ≡ tasks a
set_prev-other p v a tasks ne = ground arith

pub prev-set_next : (p v a : ℕ) (tasks : ℕ → Task) → (set_next p v tasks a).prev ≡ (tasks a).prev
prev-set_next p v a tasks = ground arith

pub next-set_prev : (p v a : ℕ) (tasks : ℕ → Task) → (set_prev p v tasks a).next ≡ (tasks a).next
next-set_prev p v a tasks = ground arith

pub next-set_next : (p v : ℕ) (tasks : ℕ → Task) → (set_next p v tasks p).next ≡ v
next-set_next p v tasks = ground arith

pub prev-set_prev : (p v : ℕ) (tasks : ℕ → Task) → (set_prev p v tasks p).prev ≡ v
prev-set_prev p v tasks = ground arith

-- Hanging `t` behind the last task.
Linked-append :
    (tasks : ℕ → Task) (before x : ℕ) (xs : List ℕ) (t : ℕ)
    → Distinct (x ∷ xs)
    → has t (x ∷ xs) ≡ false
    → (tasks t).next ≡ 0
    → Linked tasks before (x ∷ xs)
    → Linked
        (set_prev t (last_or x xs) (set_next (last_or x xs) t tasks))
        before
        ((x ∷ xs) ++ (t ∷ []))
Linked-append tasks before x [] t d out end l =
    (ground arith, ground arith, (ground arith, ground arith, tt))
Linked-append tasks before x (y ∷ xs) t d out end l =
    let last = last_or-has y xs in
    let apart : x ≢ last_or y xs = λ e. (let bad = ap (λ a. has a (y ∷ xs)) e in ground arith) in
    let kept_prev =
      ap (λ a. a.prev)
        (set_prev-other t (last_or y xs) x (set_next (last_or y xs) t tasks) (ground arith)) in
    let kept_next = ap (λ a. a.next) (set_next-other (last_or y xs) t x tasks apart) in
    (
      kept_prev ∙ prev-set_next (last_or y xs) t x tasks ∙ l.0,
      next-set_prev t (last_or y xs) x (set_next (last_or y xs) t tasks) ∙ kept_next ∙ l.1,
      Linked-append tasks x y xs t d.2 (ground arith) end l.2,
    )

last_or-append : (d : ℕ) (xs : List ℕ) (t : ℕ) → t ≡ last_or d (xs ++ (t ∷ []))
last_or-append d [] t = refl
last_or-append d (x ∷ xs) t = last_or-append x xs t

pub publish-append :
    (s : Scheduler) (xs : List ℕ) (t : ℕ)
    → Listed s xs
    → t ≢ 0
    → has t xs ≡ false
    → (s.task t).next ≡ 0
    → (s.task t).prev ≡ 0
    → Listed (publish t s) (xs ++ (t ∷ []))
unfolding publish
publish-append s [] t l nz out end start =
    let empty : s.head ≡ 0 = l.head_first in
    let none_yet : (s.head == 0) ≡ true = ground arith in
    rw (publish, none_yet)
      (record {
        distinct = (nz, refl, tt);
        linked = (start, end, tt);
        head_first = refl;
        tail_last = refl;
        current_in = ground arith;
      })
publish-append s (x ∷ xs) t l nz out end start =
    let first = l.head_first in
    let some_there : (s.head == 0) ≡ false = ground (arith, l.distinct.0) in
    let last = l.tail_last in
    rw (publish, some_there, last)
      (record {
        distinct = Distinct-append (x ∷ xs) t l.distinct nz out;
        linked = Linked-append s.task 0 x xs t l.distinct out end l.linked;
        head_first = first;
        tail_last = last_or-append x xs t;
        current_in = ground (arith, has-append s.current xs (t ∷ []), l.current_in);
      })
