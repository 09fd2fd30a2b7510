-- ===== src/Tasks/Copy.antt =====
-- kernel/task/task.c: copies between the kernel and the user memory of a task. The page tables are
-- words apart from the bytes that are copied, since a copy does not write them; the task, its
-- process and its directory are not null.
use rorth_ox.Prelude.{
  ℕ, zero, suc, ◌+◌, ◌-◌, ◌≤◌, ◌^◌, ◌≡◌, refl, ◌∙◌, ap, sym, Bool, true, false, ◌||◌, Option, none,
  some, ltb, ◌==◌, if◌then◌else◌, subst, low, low-below, bit_and-ones, arith, bit_and, min,
  Bool-cases, inl, inr, u32,
}
use rorth_ox.Status.{Result, ok, err, Errno}
use rorth_ox.Memory.{Mem, memcpy}
use rorth_ox.Paging.{Words, page_size, user_translate}
use rorth_ox.Processes.{Process, user_span}
use rorth_ox.Processes.Spans.{user_span-positive}

-- What a task's user memory is looked up in: its process and its directory in the page tables.
pub record UserMemory : Type 0 where
  pub process : Process
  pub tables : Words
  pub directory : ℕ

-- Of `remaining` bytes those that one region and one page hold.
pub fragment_size : ℕ → ℕ → ℕ → ℕ
fragment_size address remaining available =
    min (min remaining available) (page_size - bit_and address (page_size - 1))

-- `task_user_fragment`: the physical address and the size of a fragment.
pub user_fragment : UserMemory → ℕ → ℕ → Bool → Result (ℕ × ℕ)
unfolding fragment_size
user_fragment u address remaining write = elim (user_span u.process address write) [
  | none ↦ err Errno.einvarg
  | some available ↦ elim (user_translate u.tables u.directory address write) [
    | err e ↦ err e
    | ok physical ↦ ok (physical, fragment_size address remaining available)
  ]
]

abbrev pub moved : Bool → Bool → ℕ → ℕ → ℕ → Mem → Mem
moved false write physical position n m = m
moved true true physical position n m = memcpy m physical position n
moved true false physical position n m = memcpy m position physical n

-- One pass of `task_copy_user` from `current` on, which copies or only looks; a round takes a byte
-- at least.
pub pass : UserMemory → Bool → Bool → ℕ → ℕ → ℕ → ℕ → Mem → Result ℕ × Mem
unfolding user_fragment
pass u copy write zero remaining current position m = (ok 0, m)
pass u copy write (suc rounds) remaining current position m = elim (remaining == 0) [
  | true ↦ (ok 0, m)
  | false ↦ elim (user_fragment u current remaining write) [
    | err e ↦ (err e, m)
    | ok f ↦
        pass u copy write rounds (remaining - f.1) (u32 (current + f.1)) (position + f.1)
          (moved copy write f.0 position f.1 m)
  ]
]

unfoldable pub copy_user : UserMemory → ℕ → ℕ → ℕ → Bool → Mem → Result ℕ × Mem
unfolding pass
copy_user u address buffer size write m =
    if buffer == 0 || address == 0 || size == 0 || ltb (2 ^ 32 - 1 - address) (size - 1)
    then (err Errno.einvarg, m)
    else let looked = pass u false write size size address buffer m in
      elim looked.0 [
        | err e ↦ (err e, looked.1)
        | ok r ↦ pass u true write size size address buffer looked.1
      ]

pub copy_from_user : UserMemory → ℕ → ℕ → ℕ → Mem → Result ℕ × Mem
unfolding copy_user
copy_from_user u destination source size m = copy_user u source destination size false m

pub copy_to_user : UserMemory → ℕ → ℕ → ℕ → Mem → Result ℕ × Mem
unfolding copy_user
copy_to_user u destination source size m = copy_user u destination source size true m

-- How a round goes on, for all passes at once.
pass-round :
    (u : UserMemory) (copy write : Bool) (rounds remaining current position : ℕ) (m : Mem)
    → ((remaining == 0) ≡ true
        → pass u copy write (suc rounds) remaining current position m ≡ (ok 0, m))
      × ((e : Errno)
          → (remaining == 0) ≡ false
          → user_fragment u current remaining write ≡ err e
          → pass u copy write (suc rounds) remaining current position m ≡ (err e, m))
      × ((f : ℕ × ℕ)
          → (remaining == 0) ≡ false
          → user_fragment u current remaining write ≡ ok f
          → pass u copy write (suc rounds) remaining current position m
            ≡ pass u copy write rounds
                (remaining - f.1)
                (u32 (current + f.1))
                (position + f.1)
                (moved copy write f.0 position f.1 m))
unfolding pass
pass-round u copy write rounds remaining current position m =
    (λ h. rw (pass, h) refl, λ e h g. rw (pass, h, g) refl, λ f h g. rw (pass, h, g) refl)

-- A pass that copies ends as one that looks, which changes nothing.
abbrev Same : UserMemory → Bool → ℕ → Type 0
Same u write rounds =
    (remaining current position position' : ℕ) (m m' : Mem)
    → ((pass u true write rounds remaining current position m).0
        ≡ (pass u false write rounds remaining current position' m').0)
      × ((pass u false write rounds remaining current position' m').1 ≡ m')

round-Same :
    (u : UserMemory) (write : Bool) (rounds remaining current position position' : ℕ) (m m' : Mem)
    (f : Result (ℕ × ℕ))
    → Same u write rounds
    → (remaining == 0) ≡ false
    → user_fragment u current remaining write ≡ f
    → ((pass u true write (suc rounds) remaining current position m).0
        ≡ (pass u false write (suc rounds) remaining current position' m').0)
      × ((pass u false write (suc rounds) remaining current position' m').1 ≡ m')
round-Same u write rounds remaining current position position' m m' (err e) next more got =
    let a = (pass-round u true write rounds remaining current position m).1 e more got in
    let b = (pass-round u false write rounds remaining current position' m').1 e more got in
    (ap (λ r. r.0) (a ∙ sym (ap (λ r. (r.0, m)) b)), ap (λ r. r.1) b)
round-Same u write rounds remaining current position position' m m' (ok f) next more got =
    let a = (pass-round u true write rounds remaining current position m).2 f more got in
    let b = (pass-round u false write rounds remaining current position' m').2 f more got in
    let rest =
      next (remaining - f.1) (u32 (current + f.1)) (position + f.1) (position' + f.1)
        (moved true write f.0 position f.1 m) m' in
    (ap (λ r. r.0) a ∙ rest.0 ∙ sym (ap (λ r. r.0) b), ap (λ r. r.1) b ∙ rest.1)

pass-Same : (u : UserMemory) (write : Bool) (rounds : ℕ) → Same u write rounds
unfolding pass
pass-Same u write zero remaining current position position' m m' = (refl, refl)
pass-Same u write (suc rounds) remaining current position position' m m' =
    elim (Bool-cases (remaining == 0)) [
      | inl e ↦
          let a = (pass-round u true write rounds remaining current position m).0 e in
          let b = (pass-round u false write rounds remaining current position' m').0 e in
          (ap (λ r. r.0) a ∙ sym (ap (λ r. r.0) b), ap (λ r. r.1) b)
      | inr more ↦
          round-Same u write rounds remaining current position position' m m'
            (user_fragment u current remaining write) (pass-Same u write rounds) more refl
    ]

looked_copy :
    (u : UserMemory) (write : Bool) (size address buffer : ℕ) (m m' : Mem) (got : Result ℕ)
    (e : Errno)
    → m' ≡ m
    → (pass u true write size size address buffer m').0 ≡ got
    → (elim got as (λ r. Result ℕ × Mem) [
      | err e ↦ (err e, m')
      | ok r ↦ pass u true write size size address buffer m'
    ]).0
      ≡ err e
    → (elim got as (λ r. Result ℕ × Mem) [
      | err e ↦ (err e, m')
      | ok r ↦ pass u true write size size address buffer m'
    ]).1
      ≡ m
looked_copy u write size address buffer m m' (err e') e same looked h = same
looked_copy u write size address buffer m m' (ok r) e same looked h =
    absurd (let a = sym looked ∙ h in cc)

-- A copy from or to user memory that fails, at whichever byte, has changed no byte.
pub copy_user_failed :
    (u : UserMemory) (address buffer size : ℕ) (write : Bool) (m : Mem) (e : Errno)
    → (copy_user u address buffer size write m).0 ≡ err e
    → (copy_user u address buffer size write m).1 ≡ m
unfolding copy_user
copy_user_failed u address buffer size write m e h =
    elim (Bool-cases
      (buffer == 0 || address == 0 || size == 0 || ltb (2 ^ 32 - 1 - address) (size - 1))) [
        | inl bad ↦ rw (copy_user, bad) refl
        | inr fine ↦
            let looked = pass u false write size size address buffer m in
            let same = pass-Same u write size size address buffer buffer looked.1 m in
            let a : copy_user u address buffer size write m
                ≡ (elim looked.0 as (λ r. Result ℕ × Mem) [
                  | err e ↦ (err e, looked.1)
                  | ok r ↦ pass u true write size size address buffer looked.1
                ]) =
              rw (copy_user, fine) refl in
            ap (λ r. r.1) a
            ∙ looked_copy u write size address buffer m looked.1 looked.0 e same.1 same.0
                (sym (ap (λ r. r.0) a) ∙ h)
      ]

page_left : (address : ℕ) → 1 ≤ page_size - bit_and address (page_size - 1)
page_left address =
    let e : bit_and address (page_size - 1) ≡ low 12 address = bit_and-ones 12 address in
    let b = low-below 12 address in omega arith

fragment-bounds :
    (u : UserMemory) (address remaining : ℕ) (write : Bool) (span : Option ℕ) (place : Result ℕ)
    (f : ℕ × ℕ)
    → user_span u.process address write ≡ span
    → user_translate u.tables u.directory address write ≡ place
    → user_fragment u address remaining write ≡ ok f
    → (remaining == 0) ≡ false
    → (1 ≤ f.1) × (f.1 ≤ remaining)
unfolding user_fragment fragment_size
fragment-bounds u address remaining write none place f es ep h more = absurd (
    let a : user_fragment u address remaining write ≡ err Errno.einvarg =
      rw (user_fragment, es) refl in
    cc)
fragment-bounds u address remaining write (some n) (err e) f es ep h more = absurd (
    let a : user_fragment u address remaining write ≡ err e = rw (user_fragment, es, ep) refl in cc)
fragment-bounds u address remaining write (some n) (ok physical) f es ep h more =
    let a : user_fragment u address remaining write
        ≡ ok (physical, fragment_size address remaining n) =
      rw (user_fragment, es, ep) refl in
    let b : (physical, fragment_size address remaining n) ≡ f = cc in
    let c = page_left address in
    let d = user_span-positive u.process address write n es in
    subst (λ x. (1 ≤ x.1) × (x.1 ≤ remaining)) b (ground arith, ground arith)

more_rounds :
    (u : UserMemory) (copy write : Bool) (rounds k remaining current position : ℕ) (m : Mem)
    (got : Result (ℕ × ℕ))
    → ((remaining' current' position' : ℕ) (m' : Mem)
        → remaining' ≤ rounds
        → pass u copy write (rounds + k) remaining' current' position' m'
          ≡ pass u copy write rounds remaining' current' position' m')
    → remaining ≤ suc rounds
    → (remaining == 0) ≡ false
    → user_fragment u current remaining write ≡ got
    → pass u copy write (suc (rounds + k)) remaining current position m
      ≡ pass u copy write (suc rounds) remaining current position m
more_rounds u copy write rounds k remaining current position m (err e) next h more got =
    (pass-round u copy write (rounds + k) remaining current position m).1 e more got
    ∙ sym ((pass-round u copy write rounds remaining current position m).1 e more got)
more_rounds u copy write rounds k remaining current position m (ok f) next h more got =
    let b =
      fragment-bounds u current remaining write (user_span u.process current write)
        (user_translate u.tables u.directory current write) f refl refl got more in
    (pass-round u copy write (rounds + k) remaining current position m).2 f more got
    ∙ next (remaining - f.1) (u32 (current + f.1)) (position + f.1)
        (moved copy write f.0 position f.1 m) (omega arith)
    ∙ sym ((pass-round u copy write rounds remaining current position m).2 f more got)

pass_nothing :
    (u : UserMemory) (copy write : Bool) (rounds remaining current position : ℕ) (m : Mem)
    → remaining ≡ 0
    → pass u copy write rounds remaining current position m ≡ (ok 0, m)
unfolding pass
pass_nothing u copy write zero remaining current position m e = refl
pass_nothing u copy write (suc rounds) remaining current position m e =
    (pass-round u copy write rounds remaining current position m).0 (ground arith)

-- A pass over `remaining` bytes ends within as many rounds: more of them change nothing.
pub pass_enough :
    (u : UserMemory) (copy write : Bool) (rounds k remaining current position : ℕ) (m : Mem)
    → remaining ≤ rounds
    → pass u copy write (rounds + k) remaining current position m
      ≡ pass u copy write rounds remaining current position m
pass_enough u copy write zero k remaining current position m h =
    let e : remaining ≡ 0 = omega arith in
    pass_nothing u copy write (0 + k) remaining current position m e
    ∙ sym (pass_nothing u copy write 0 remaining current position m e)
pass_enough u copy write (suc rounds) k remaining current position m h =
    let grown =
      ap (λ n. pass u copy write n remaining current position m) {x = suc rounds + k}
        {y = suc (rounds + k)} (omega arith) in
    elim (Bool-cases (remaining == 0)) [
      | inl e ↦
          pass_nothing u copy write (suc rounds + k) remaining current position m (ground arith)
          ∙ sym (pass_nothing u copy write (suc rounds) remaining current position m (ground arith))
      | inr more ↦
          grown
          ∙ more_rounds u copy write rounds k remaining current position m
              (user_fragment u current remaining write)
              (λ r c p m' l. pass_enough u copy write rounds k r c p m' l) h more refl
    ]
