-- ===== src/Tasks/Removal.antt =====
-- task_list_remove of kernel/task/task.c on the list of addresses.
use rorth_ox.Prelude.{
  ℕ, ◌≡◌, ◌≢◌, refl, ◌∙◌, ap, sym, subst, append-nil, true, false, List, [], ◌∷◌, ◌++◌, ◌==◌,
  if◌then◌else◌, arith,
}
use rorth_ox.Tasks.{Task, Scheduler, set_next, set_prev, set_next_if, set_prev_if, list_remove}
use rorth_ox.Tasks.Links.{
  has, first_or, last_or, last_or-has, Distinct, Linked, Listed, Linked-frame, has-append,
  set_next-other, set_prev-other, prev-set_next, next-set_next, prev-set_prev,
}

-- The links of a task in the middle of the list.
pub Linked-middle :
    (tasks : ℕ → Task) (p : ℕ) (before : List ℕ) (t : ℕ) (after : List ℕ)
    → Linked tasks p (before ++ (t ∷ after))
    → ((tasks t).prev ≡ last_or p before) × ((tasks t).next ≡ first_or 0 after)
Linked-middle tasks p [] t after l = (l.0, l.1)
Linked-middle tasks p (x ∷ before) t after l = Linked-middle tasks x before t after l.2

pub Distinct-drop :
    (before : List ℕ) (t : ℕ) (after : List ℕ)
    → Distinct (before ++ (t ∷ after))
    → Distinct (before ++ after) × (has t (before ++ after) ≡ false) × (t ≢ 0)
Distinct-drop [] t after d = (d.2, d.1, d.0)
Distinct-drop (x ∷ before) t after d =
    let rest = Distinct-drop before t after d.2 in
    let all = has-append x before (t ∷ after) in
    let fewer = has-append x before after in
    let out = d.1 in ((d.0, ground arith, rest.0), ground (arith, rest.1), rest.2)

-- A task is not the first of those behind it.
apart_first :
    {f : ℕ} (x : ℕ) (before after : List ℕ)
    → x ≢ 0
    → has x (before ++ after) ≡ false
    → f ≡ first_or 0 after
    → x ≢ f
apart_first x before [] nz out ef e = nz (e ∙ ef)
apart_first x before (y ∷ after) nz out ef e =
    let same = ap (λ a. a == y) (e ∙ ef) in
    let all = has-append x before (y ∷ after) in ground arith

module _ (tasks tasks' : ℕ → Task) (l f : ℕ)
    (keep_next : (a : ℕ) → a ≢ l → (tasks' a).next ≡ (tasks a).next)
    (new_next : l ≢ 0 → (tasks' l).next ≡ f)
    (keep_prev : (a : ℕ) → a ≢ f → (tasks' a).prev ≡ (tasks a).prev)
    (new_prev : f ≢ 0 → (tasks' f).prev ≡ l) where
  relinked_after :
      (p t : ℕ) (after : List ℕ)
      → l ≡ p
      → f ≡ first_or 0 after
      → Distinct after
      → has p after ≡ false
      → Linked tasks t after
      → Linked tasks' p after
  relinked_after p t [] el ef d out k = tt
  relinked_after p t (x ∷ after) el ef d out k =
      let nz = d.0 in
      let there : (tasks' x).prev ≡ l =
        subst (λ a. (tasks' a).prev ≡ l) ef (new_prev (λ e. nz (sym ef ∙ e))) in
      (
        there ∙ el,
        keep_next x (ground arith) ∙ k.1,
        Linked-frame tasks tasks' x after
            (λ a h.
              keep_prev a (λ e. (let bad = ap (λ b. has b after) (e ∙ ef) in ground (arith, d.1))))
            (λ a h. keep_next a (λ e. (let bad = ap (λ b. has b after) (e ∙ el) in ground arith)))
            k.2,
      )

  relinked :
      (p t : ℕ) (before after : List ℕ)
      → l ≡ last_or p before
      → f ≡ first_or 0 after
      → Distinct (before ++ after)
      → has p (before ++ after) ≡ false
      → Linked tasks p (before ++ (t ∷ after))
      → Linked tasks' p (before ++ after)
  relinked p t [] after el ef d out k = relinked_after p t after el ef d out k.2
  relinked p t (x ∷ []) after el ef d out k = (
    keep_prev x (apart_first x [] after d.0 d.1 ef) ∙ k.0,
    ap (λ a. (tasks' a).next) (sym el) ∙ new_next (λ e. d.0 (sym el ∙ e)) ∙ ef,
    relinked x t [] after el ef d.2 d.1 k.2,
  )
  relinked p t (x ∷ y ∷ before) after el ef d out k =
      let last = last_or-has y before in
      let all = has-append x (y ∷ before) after in
      let apart : x ≢ l =
        λ e. (let bad = ap (λ a. has a (y ∷ before)) (e ∙ el) in ground (arith, d.1)) in
      (
        keep_prev x (apart_first x (y ∷ before) after d.0 d.1 ef) ∙ k.0,
        keep_next x apart ∙ k.1,
        relinked x t (y ∷ before) after el ef d.2 d.1 k.2,
      )

-- The neighbours of a task, linked to each other.
abbrev unlinked : ℕ → ℕ → (ℕ → Task) → ℕ → Task
unlinked l f tasks = set_prev_if f l (set_next_if l f tasks)

module _ (l f : ℕ) (tasks : ℕ → Task) where
  unlinked-keep_next : (a : ℕ) → a ≢ l → (unlinked l f tasks a).next ≡ (tasks a).next
  unlinked-keep_next a ne = ground arith

  unlinked-new_next : l ≢ 0 → (unlinked l f tasks l).next ≡ f
  unlinked-new_next nz = ground arith

  unlinked-keep_prev : (a : ℕ) → a ≢ f → (unlinked l f tasks a).prev ≡ (tasks a).prev
  unlinked-keep_prev a ne = ground arith

  unlinked-new_prev : f ≢ 0 → (unlinked l f tasks f).prev ≡ l
  unlinked-new_prev nz = ground arith

  set_next_if-other : (a : ℕ) → a ≢ l → set_next_if l f tasks a ≡ tasks a
  set_next_if-other a ne = ground arith

-- What the removal of `t` leaves, by its neighbours `l` and `f`.
abbrev without : ℕ → ℕ → ℕ → Scheduler → Scheduler
without t l f s = record {
  task = set_next t 0 (set_prev t 0 (unlinked l f s.task));
  head = if t == s.head then f else s.head;
  tail = if t == s.tail then l else s.tail;
  current =
      if t == s.current then if f == 0 then if t == s.head then f else s.head else f else s.current;
}

list_remove-without :
    (s : Scheduler) (t l f : ℕ)
    → (s.task t).prev ≡ l
    → (s.task t).next ≡ f
    → t ≢ l
    → t ≢ f
    → list_remove t s ≡ without t l f s
unfolding list_remove
list_remove-without s t l f el ef nl nf =
    let first = set_next_if-other l f s.task t nl in
    let next1 : (set_next_if l f s.task t).next ≡ f = ap (λ a. a.next) first ∙ ef in
    let prev1 : (set_next_if l f s.task t).prev ≡ l = ap (λ a. a.prev) first ∙ el in
    let next2 : (unlinked l f s.task t).next ≡ f = unlinked-keep_next l f s.task t nl ∙ ef in
    let prev2 : (unlinked l f s.task t).prev ≡ l = unlinked-keep_prev l f s.task t nf ∙ el in
    rw (list_remove, el, ef, next1, prev1, next2, prev2) refl

apart_last :
    (t : ℕ) (before after : List ℕ) → t ≢ 0 → has t (before ++ after) ≡ false → t ≢ last_or 0 before
apart_last t before after nz out e =
    let last = last_or-has 0 before in
    let same = ap (λ a. has a (0 ∷ before)) e in let all = has-append t before after in ground arith

last_or-append :
    (d : ℕ) (xs : List ℕ) (y : ℕ) (ys : List ℕ) → last_or d (xs ++ (y ∷ ys)) ≡ last_or y ys
last_or-append d [] y ys = refl
last_or-append d (x ∷ xs) y ys = last_or-append x xs y ys

head_without :
    (t h : ℕ) (before after : List ℕ)
    → h ≡ first_or 0 (before ++ (t ∷ after))
    → has t (before ++ after) ≡ false
    → (if t == h then first_or 0 after else h) ≡ first_or 0 (before ++ after)
head_without t h [] after e out = ground arith
head_without t h (x ∷ before) after e out = ground arith

tail_without :
    (t h : ℕ) (before after : List ℕ)
    → h ≡ last_or 0 (before ++ (t ∷ after))
    → has t (before ++ after) ≡ false
    → (if t == h then last_or 0 before else h) ≡ last_or 0 (before ++ after)
tail_without t h before [] e out =
    let end = last_or-append 0 before t [] in
    let same = ap (last_or 0) (append-nil before) in ground arith
tail_without t h before (y ∷ after) e out =
    let old = last_or-append 0 before t (y ∷ after) in
    let new = last_or-append 0 before y after in
    let last = last_or-has y after in
    let all = has-append t before (y ∷ after) in
    let apart : t ≢ last_or y after =
      λ e'. (let same = ap (λ a. has a (y ∷ after)) e' in ground arith) in
    ground arith

current_without :
    (t c h : ℕ) (before after : List ℕ)
    → h ≡ first_or 0 (before ++ after)
    → Distinct (before ++ after)
    → has t (before ++ after) ≡ false
    → has c (before ++ (t ∷ after)) ≡ true
    → (if h == 0
        then (if t == c then if first_or 0 after == 0 then h else first_or 0 after else c) == 0
        else has
            (if t == c then if first_or 0 after == 0 then h else first_or 0 after else c)
            (before ++ after))
      ≡ true
current_without t c h [] [] e d out there = ground arith
current_without t c h [] (y ∷ after) e d out there = let nz = d.0 in ground arith
current_without t c h (x ∷ before) [] e d out there =
    let nz = d.0 in
    let old = has-append c before (t ∷ []) in let new = has-append c before [] in ground arith
current_without t c h (x ∷ before) (y ∷ after) e d out there =
    let nz = d.0 in
    let mid = (Distinct-drop (x ∷ before) y after d).2 in
    let old = has-append c before (t ∷ y ∷ after) in
    let new = has-append c before (y ∷ after) in
    let first = has-append y before (y ∷ after) in ground arith

pub Distinct-nonzero : (xs : List ℕ) → Distinct xs → has 0 xs ≡ false
Distinct-nonzero [] d = refl
Distinct-nonzero (x ∷ xs) d = ground (arith, d.0, Distinct-nonzero xs d.2)

current-Listed :
    (s : Scheduler) (before : List ℕ) (t : ℕ) (after : List ℕ)
    → Listed s (before ++ (t ∷ after))
    → has s.current (before ++ (t ∷ after)) ≡ true
current-Listed s [] t after listed =
    let nz = listed.distinct.0 in
    let h = listed.head_first in let c = listed.current_in in ground arith
current-Listed s (x ∷ before) t after listed =
    let nz = listed.distinct.0 in
    let h = listed.head_first in let c = listed.current_in in ground arith

-- The scheduler's list without `t`, which is left with null links.
pub list_remove-drop :
    (s : Scheduler) (before : List ℕ) (t : ℕ) (after : List ℕ)
    → Listed s (before ++ (t ∷ after))
    → Listed (list_remove t s) (before ++ after)
      × (((list_remove t s).task t).next ≡ 0)
      × (((list_remove t s).task t).prev ≡ 0)
list_remove-drop s before t after listed =
    let l = last_or 0 before in
    let f = first_or 0 after in
    let mid = Linked-middle s.task 0 before t after listed.linked in
    let less = Distinct-drop before t after listed.distinct in
    let el : (s.task t).prev ≡ l = mid.0 in
    let ef : (s.task t).next ≡ f = mid.1 in
    let nl = apart_last t before after less.2 less.1 in
    let nf = apart_first t before after less.2 less.1 refl in
    let done = list_remove-without s t l f el ef nl nf in
    let hd = head_without t s.head before after listed.head_first less.1 in
    let chain =
      relinked s.task (unlinked l f s.task) l f (unlinked-keep_next l f s.task)
        (unlinked-new_next l f s.task) (unlinked-keep_prev l f s.task)
        (unlinked-new_prev l f s.task) 0 t before after refl refl less.0
        (Distinct-nonzero (before ++ after) less.0) listed.linked in
    let kept : (a : ℕ)
        → has a (before ++ after) ≡ true
        → set_next t 0 (set_prev t 0 (unlinked l f s.task)) a ≡ unlinked l f s.task a =
      λ a h.
        (let apart : a ≢ t =
            λ e. (let same = ap (λ b. has b (before ++ after)) e in ground arith) in
          set_next-other t 0 a (set_prev t 0 (unlinked l f s.task)) apart
          ∙ set_prev-other t 0 a (unlinked l f s.task) apart) in
    let present = current-Listed s before t after listed in
    (
      rw done (record {
        distinct = less.0;
        linked =
            Linked-frame (unlinked l f s.task) (set_next t 0 (set_prev t 0 (unlinked l f s.task))) 0
              (before ++ after) (λ a h. ap (λ b. b.prev) (kept a h))
              (λ a h. ap (λ b. b.next) (kept a h)) chain;
        head_first = hd;
        tail_last = tail_without t s.tail before after listed.tail_last less.1;
        current_in =
            current_without t s.current (if t == s.head then f else s.head) before after hd less.0
              less.1 present;
      }),
      ap (λ q. (q.task t).next) done ∙ next-set_next t 0 (set_prev t 0 (unlinked l f s.task)),
      ap (λ q. (q.task t).prev) done
          ∙ prev-set_next t 0 t (set_prev t 0 (unlinked l f s.task))
          ∙ prev-set_prev t 0 (unlinked l f s.task),
    )
