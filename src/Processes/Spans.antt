-- ===== src/Processes/Spans.antt =====
-- kernel/task/process.c: which bytes of user memory belong to a process.
use rorth_ox.Prelude.{
  ℕ, zero, suc, ◌+◌, ◌-◌, ◌/◌, ◌%◌, ◌*◌, bit_and, passes, table_entry, low, low-below, bit_and-low,
  ◌≤◌, ◌≡◌, ◌≢◌, ◌⊎◌, inl, inr, refl, ◌∙◌, ap, sym, Bool, true, false, not, ◌&&◌, Option, none,
  some, List, [], ◌∷◌, ◌++◌, arith, ltb, leb, ◌==◌, if◌then◌else◌, Bool-cases,
}
use rorth_ox.Processes.{
  Process, Program, Allocation, Segment, region_span, allocation_span, segment_span, program_span,
  user_span, is_owned, or_else, stack_end, stack_size, program_address,
}

-- A run of addresses: its first one and its size.
pub record Region : Type 0 where
  pub start : ℕ
  pub extent : ℕ

abbrev one_if : Bool → ℕ → ℕ → List Region
one_if true start extent = record { start = start; extent = extent } ∷ []
one_if false start extent = []

abbrev pub allocation_regions : List Allocation → List Region
allocation_regions [] = []
allocation_regions (a ∷ allocations) =
    one_if (not (a.ptr == 0)) a.ptr a.size ++ allocation_regions allocations

-- A loaded segment that has its memory, for a write only with PF_W, the bit of value 2.
abbrev may_use : Bool → Segment → Bool
may_use true s = if s.has_memory then (s.p_type == 1) && (s.p_flags / 2 % 2 == 1) else false
may_use false s = if s.has_memory then s.p_type == 1 else false

abbrev pub segment_regions : Bool → List Segment → List Region
segment_regions write [] = []
segment_regions write (s ∷ segments) =
    one_if (may_use write s) s.p_vaddr s.p_memsz ++ segment_regions write segments

abbrev pub program_regions : Bool → Program → List Region
program_regions write (Program.binary size) = one_if true program_address size
program_regions write (Program.elf segments) = segment_regions write segments
program_regions write Program.no_file = []

-- What a process owns, for reading or for writing.
abbrev pub regions : Process → Bool → List Region
regions p write =
    one_if p.has_stack stack_end stack_size
    ++ (allocation_regions p.allocations ++ program_regions write p.program)

abbrev pub inside : Region → ℕ → Bool
inside r address = leb r.start address && ltb address (r.start + r.extent)

-- The bytes from the address to the end of the first region that holds it.
pub first_span : ℕ → List Region → Option ℕ
first_span address [] = none
first_span address (r ∷ rs) =
    let rest = first_span address rs in
    if inside r address then some (r.start + r.extent - address) else rest

region_span_lem :
    (address start extent : ℕ)
    → region_span address start extent ≡ (
        if inside (record { start = start; extent = extent }) address
        then some (start + extent - address)
        else none)
unfolding region_span
region_span_lem address start extent = ground arith

first_span-append :
    (address : ℕ) (xs ys : List Region)
    → first_span address (xs ++ ys) ≡ or_else (first_span address xs) (first_span address ys)
unfolding first_span
first_span-append address [] ys = refl
first_span-append address (r ∷ xs) ys = let rest = first_span-append address xs ys in ground arith

one_span :
    (b : Bool) (address start extent : ℕ)
    → (if b then region_span address start extent else none)
      ≡ first_span address (one_if b start extent)
unfolding first_span
one_span true address start extent = region_span_lem address start extent
one_span false address start extent = refl

if_not : {A : Type 0} (b : Bool) (x y : A) → (if b then x else y) ≡ (if not b then y else x)
if_not true x y = refl
if_not false x y = refl

allocation_span-first :
    (address : ℕ) (allocations : List Allocation)
    → allocation_span address allocations ≡ first_span address (allocation_regions allocations)
unfolding allocation_span
allocation_span-first address [] = unfold first_span in refl
allocation_span-first address (a ∷ allocations) =
    ap (λ x. or_else x (allocation_span address allocations))
      (if_not (a.ptr == 0) none (region_span address a.ptr a.size)
        ∙ one_span (not (a.ptr == 0)) address a.ptr a.size)
    ∙ ap (or_else _) (allocation_span-first address allocations)
    ∙ sym (
        first_span-append address (one_if (not (a.ptr == 0)) a.ptr a.size)
          (allocation_regions allocations))

second_bit_table : passes 4 0 (λ x. bit_and x 2 == x / 2 % 2 * 2) ≡ true
unfolding passes
second_bit_table = refl

second_bit : (n : ℕ) → not (bit_and n 2 == 0) ≡ (n / 2 % 2 == 1)
second_bit n =
    let x = low 2 n in
    let entry =
      table_entry 4 (λ x. bit_and x 2 == x / 2 % 2 * 2) x second_bit_table
        (omega (arith, low-below 2 n)) in
    let same = bit_and-low 2 n 2 (omega arith) in ground arith

is_owned-may_use : (write : Bool) (s : Segment) → is_owned write s ≡ may_use write s
unfolding is_owned
is_owned-may_use true s = let bit = second_bit s.p_flags in ground arith
is_owned-may_use false s = ground arith

segment_span-first :
    (address : ℕ) (write : Bool) (segments : List Segment)
    → segment_span address write segments ≡ first_span address (segment_regions write segments)
unfolding segment_span
segment_span-first address write [] = unfold first_span in refl
segment_span-first address write (s ∷ segments) =
    ap (λ x. or_else x (segment_span address write segments))
      (ap (λ b. if b then region_span address s.p_vaddr s.p_memsz else none)
          (is_owned-may_use write s)
        ∙ one_span (may_use write s) address s.p_vaddr s.p_memsz)
    ∙ ap (or_else _) (segment_span-first address write segments)
    ∙ sym (
        first_span-append address (one_if (may_use write s) s.p_vaddr s.p_memsz)
          (segment_regions write segments))

program_span-first :
    (address : ℕ) (write : Bool) (program : Program)
    → program_span address write program ≡ first_span address (program_regions write program)
unfolding program_span
program_span-first address write (Program.binary size) = one_span true address program_address size
program_span-first address write (Program.elf segments) = segment_span-first address write segments
program_span-first address write Program.no_file = unfold first_span in refl

user_span-first :
    (p : Process) (address : ℕ) (write : Bool)
    → address ≢ 0
    → user_span p address write ≡ first_span address (regions p write)
unfolding user_span
user_span-first p address write h =
    let nz : (address == 0) ≡ false = ground arith in
    let others = allocation_regions p.allocations ++ program_regions write p.program in
    rw (user_span, nz)
      (ap
          (λ x. or_else x (
            or_else (allocation_span address p.allocations) (program_span address write p.program)))
          (one_span p.has_stack address stack_end stack_size)
        ∙ ap (λ x. or_else (first_span address (one_if p.has_stack stack_end stack_size)) x)
            (ap (λ x. or_else x (program_span address write p.program))
                (allocation_span-first address p.allocations)
              ∙ ap (or_else _) (program_span-first address write p.program)
              ∙ sym (
                  first_span-append address (allocation_regions p.allocations)
                    (program_regions write p.program)))
        ∙ sym (first_span-append address (one_if p.has_stack stack_end stack_size) others))

-- One of the regions holds the address and the `n` bytes from it on, which end where it ends.
abbrev pub Ends : ℕ → ℕ → List Region → Type 0
Ends address n [] = ⊥
Ends address n (r ∷ rs) =
    ((r.start ≤ address) × (1 ≤ n) × (address + n ≡ r.start + r.extent)) ⊎ Ends address n rs

-- No region holds the address.
abbrev pub Outside : ℕ → List Region → Type 0
Outside address [] = Unit
Outside address (r ∷ rs) = (inside r address ≡ false) × Outside address rs

first_span-Ends :
    (address : ℕ) (rs : List Region)
    → ((n : ℕ) → first_span address rs ≡ some n → Ends address n rs)
      × (first_span address rs ≡ none → Outside address rs)
unfolding first_span
first_span-Ends address [] = (λ n e. absurd (cc), λ e. tt)
first_span-Ends address (r ∷ rs) = elim (Bool-cases (inside r address)) [
  | inl e ↦
      rw (first_span, e) (λ n h. inl (ground arith, ground arith, ground arith), λ h. absurd (cc))
  | inr e ↦
      let later = first_span-Ends address rs in
      rw (first_span, e) (λ n h. inr (later.0 n h), λ h. (refl, later.1 h))
]

-- At an address that is not null: the bytes that process_user_span reports from it on are those to
-- the end of one of the process's own regions, and not none; if it refuses the address, none of
-- these regions holds it.
pub user_span-Ends :
    (p : Process) (address : ℕ) (write : Bool)
    → address ≢ 0
    → ((n : ℕ) → user_span p address write ≡ some n → Ends address n (regions p write))
      × (user_span p address write ≡ none → Outside address (regions p write))
user_span-Ends p address write h =
    let spans = first_span-Ends address (regions p write) in
    let same = sym (user_span-first p address write h) in
    (λ n e. spans.0 n (same ∙ e), λ e. spans.1 (same ∙ e))

Ends-positive : (address n : ℕ) (rs : List Region) → Ends address n rs → 1 ≤ n
Ends-positive address n [] h = absurd h
Ends-positive address n (r ∷ rs) (inl h) = h.1
Ends-positive address n (r ∷ rs) (inr h) = Ends-positive address n rs h

null_span : (p : Process) (write : Bool) → user_span p 0 write ≡ none
unfolding user_span
null_span p write = refl

-- A byte is left at least where the address is the process's own.
pub user_span-positive :
    (p : Process) (address : ℕ) (write : Bool) (n : ℕ) → user_span p address write ≡ some n → 1 ≤ n
user_span-positive p zero write n h = absurd (let a = sym (null_span p write) ∙ h in cc)
user_span-positive p (suc address) write n h =
    Ends-positive (suc address) n (regions p write)
      ((user_span-Ends p (suc address) write (ground arith)).0 n h)
