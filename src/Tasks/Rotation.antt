-- ===== src/Tasks/Rotation.antt =====
-- task_get_next of kernel/task/task.c: the first runnable task in the order after the current one.
use rorth_ox.Prelude.{
  ℕ, zero, suc, ◌≤◌, ◌≡◌, ◌≢◌, refl, ◌∙◌, ap, sym, subst, append-nil, append_assoc, Bool, false,
  not, ◌&&◌, List, [], ◌∷◌, ◌++◌, ◌==◌, if◌then◌else◌, arith, length, length-append,
}
use rorth_ox.Tasks.{Task, Scheduler, follower, start_task, get_next_from, get_next}
use rorth_ox.Tasks.Links.{has, first_or, last_or, Distinct, Linked, Listed, has-append}
use rorth_ox.Tasks.Removal.{Linked-middle, Distinct-drop}

-- The first of the tasks that does not sleep, or null.
abbrev pub runnable : (ℕ → Task) → List ℕ → ℕ
runnable tasks [] = 0
runnable tasks (x ∷ xs) = if (tasks x).sleeping then runnable tasks xs else x

-- Each task's follower is the next of the list, and the last one's is `stop`.
abbrev Walk : (ℕ → Task) → ℕ → ℕ → List ℕ → Type 0
Walk tasks head stop [] = Unit
Walk tasks head stop (x ∷ xs) =
    (x ≢ 0) × (follower tasks head x ≡ first_or stop xs) × Walk tasks head stop xs

Walk-append :
    (tasks : ℕ → Task) (head mid stop : ℕ) (xs ys : List ℕ)
    → Walk tasks head mid xs
    → Walk tasks head stop ys
    → mid ≡ first_or stop ys
    → Walk tasks head stop (xs ++ ys)
Walk-append tasks head mid stop [] ys w v e = v
Walk-append tasks head mid stop (x ∷ []) ys w v e = (w.0, w.1 ∙ e, v)
Walk-append tasks head mid stop (x ∷ y ∷ xs) ys w v e =
    (w.0, w.1, Walk-append tasks head mid stop (y ∷ xs) ys w.2 v e)

one_round :
    (t after start rest : ℕ) (sleeping : Bool)
    → t ≢ 0
    → after ≢ start
    → (if t == 0 then 0 else if not sleeping then t else if after == start then 0 else rest)
      ≡ (if sleeping then rest else t)
one_round t after start rest sleeping nz apart = ground arith

-- The loop from a task that is not the start meets the tasks up to the start again.
get_next_from-Walk :
    (s : Scheduler) (start : ℕ) (rounds x : ℕ) (xs : List ℕ)
    → Walk s.task s.head start (x ∷ xs)
    → has start xs ≡ false
    → length (x ∷ xs) ≤ rounds
    → get_next_from rounds s start x ≡ runnable s.task (x ∷ xs)
unfolding get_next_from
get_next_from-Walk s start zero x xs w out enough = absurd (omega arith)
get_next_from-Walk s start (suc rounds) x [] w out enough =
    let nz = w.0 in let back = w.1 in ground arith
get_next_from-Walk s start (suc rounds) x (y ∷ xs) w out enough =
    let on = w.1 in
    let after = follower s.task s.head x in
    let apart : after ≢ start = λ e. (let same = sym on ∙ e in ground arith) in
    one_round x after start (get_next_from rounds s start after) (s.task x).sleeping w.0 apart
    ∙ ap (λ n. if (s.task x).sleeping then n else x)
        (ap (get_next_from rounds s start) on
          ∙ get_next_from-Walk s start rounds y xs w.2 (ground arith) (omega arith))

-- The walk along the links from the front.
Linked-Walk :
    (tasks : ℕ → Task) (head p stop : ℕ) (xs ys : List ℕ)
    → Linked tasks p (xs ++ ys)
    → Distinct (xs ++ ys)
    → (if first_or 0 ys == 0 then head else first_or 0 ys) ≡ stop
    → Walk tasks head stop xs
Linked-Walk tasks head p stop [] ys l d e = tt
Linked-Walk tasks head p stop (x ∷ []) ys l d e = let next = l.1 in (d.0, ground arith, tt)
Linked-Walk tasks head p stop (x ∷ y ∷ xs) ys l d e =
    let next = l.1 in
    let nz = d.2.0 in (d.0, ground arith, Linked-Walk tasks head x stop (y ∷ xs) ys l.2 d.2 e)

Linked-behind :
    (tasks : ℕ → Task) (p : ℕ) (xs ys : List ℕ)
    → Linked tasks p (xs ++ ys)
    → Linked tasks (last_or p xs) ys
Linked-behind tasks p [] ys l = l
Linked-behind tasks p (x ∷ xs) ys l = Linked-behind tasks x xs ys l.2

Distinct-behind : (xs ys : List ℕ) → Distinct (xs ++ ys) → Distinct ys
Distinct-behind [] ys d = d
Distinct-behind (x ∷ xs) ys d = Distinct-behind xs ys d.2

first_or-after :
    (head : ℕ) (after : List ℕ)
    → Distinct after
    → (if first_or 0 after == 0 then head else first_or 0 after) ≡ first_or head after
first_or-after head [] d = refl
first_or-after head (y ∷ after) d = ground (arith, d.0)

first_or-front :
    (stop c : ℕ) (before after : List ℕ)
    → first_or 0 (before ++ (c ∷ after)) ≡ first_or stop (before ++ (c ∷ []))
first_or-front stop c [] after = refl
first_or-front stop c (x ∷ before) after = refl

-- The two halves of the list, each walked to where the other begins.
rotation-Walk :
    (tasks : ℕ → Task) (head c : ℕ) (before after : List ℕ)
    → Linked tasks 0 (before ++ (c ∷ after))
    → Distinct (before ++ (c ∷ after))
    → head ≡ first_or 0 (before ++ (c ∷ after))
    → Walk tasks head (first_or head after) (after ++ (before ++ (c ∷ [])))
rotation-Walk tasks head c before after l d e =
    let front = before ++ (c ∷ []) in
    let all : before ++ (c ∷ after) ≡ front ++ after = sym (append_assoc before (c ∷ []) after) in
    let none_behind = sym (append-nil after) in
    let stop = first_or head after in
    Walk-append tasks head head stop after front
      (Linked-Walk tasks head c head after []
        (subst (Linked tasks c) none_behind (Linked-behind tasks 0 before (c ∷ after) l).2)
        (subst Distinct none_behind (Distinct-behind before (c ∷ after) d).2) refl)
      (Linked-Walk tasks head 0 stop front after (subst (Linked tasks 0) all l)
        (subst Distinct all d) (first_or-after head after (Distinct-behind before (c ∷ after) d).2))
      (e ∙ first_or-front stop c before after)

start_first :
    (c n head f : ℕ)
    → c ≢ 0
    → n ≡ f
    → (if not (c == 0) && not (n == 0) then n else head) ≡ (if f == 0 then head else f)
start_first c n head f nz e = ground arith

get_next_from-order :
    (s : Scheduler) (c : ℕ) (before after : List ℕ) (rounds : ℕ)
    → Distinct (before ++ (c ∷ after))
    → s.head ≡ first_or 0 (before ++ (c ∷ after))
    → Walk s.task s.head (first_or s.head after) (after ++ (before ++ (c ∷ [])))
    → length (before ++ (c ∷ after)) ≤ rounds
    → get_next_from rounds s (first_or s.head after) (first_or s.head after)
      ≡ runnable s.task (after ++ (before ++ (c ∷ [])))
get_next_from-order s c [] [] rounds d e w enough =
    ap (λ t. get_next_from rounds s t t) e
    ∙ get_next_from-Walk s c rounds c [] (subst (λ t. Walk s.task s.head t (c ∷ [])) e w) refl
        enough
get_next_from-order s c (x ∷ before) [] rounds d e w enough =
    ap (λ t. get_next_from rounds s t t) e
    ∙ get_next_from-Walk s x rounds x (before ++ (c ∷ []))
        (subst (λ t. Walk s.task s.head t (x ∷ (before ++ (c ∷ [])))) e w) d.1 enough
get_next_from-order s c before (y ∷ after) rounds d e w enough =
    let rest =
      Distinct-drop (before ++ (c ∷ [])) y after
        (subst Distinct (sym (append_assoc before (c ∷ []) (y ∷ after))) d) in
    let out = rest.1 in
    let a = has-append y (before ++ (c ∷ [])) after in
    let b = has-append y after (before ++ (c ∷ [])) in
    let l1 = length-append before (c ∷ y ∷ after) in
    let l2 = length-append after (before ++ (c ∷ [])) in
    let l3 = length-append before (c ∷ []) in
    get_next_from-Walk s y rounds y (after ++ (before ++ (c ∷ []))) w (ground arith) (omega arith)

-- With the current task between `before` and `after`, the choice is the first runnable task of
-- those after it, then of those before it, then itself, or null if all of them sleep; as many
-- rounds as there are tasks are enough.
pub get_next_lem :
    (s : Scheduler) (before after : List ℕ) (rounds : ℕ)
    → Listed s (before ++ (s.current ∷ after))
    → length (before ++ (s.current ∷ after)) ≤ rounds
    → get_next rounds s ≡ runnable s.task (after ++ (before ++ (s.current ∷ [])))
unfolding get_next
get_next_lem s before after rounds l enough =
    let mid = Linked-middle s.task 0 before s.current after l.linked in
    let nz = (Distinct-drop before s.current after l.distinct).2 in
    let w = rotation-Walk s.task s.head s.current before after l.linked l.distinct l.head_first in
    let start : start_task s ≡ first_or s.head after =
      start_first s.current (s.task s.current).next s.head (first_or 0 after) nz mid.1
      ∙ first_or-after s.head after (Distinct-behind before (s.current ∷ after) l.distinct).2 in
    ap (λ t. get_next_from rounds s t t) start
    ∙ get_next_from-order s s.current before after rounds l.distinct l.head_first w enough
