-- ===== src/Elf/Segments.antt =====
-- kernel/loader/formats/elfloader.c: the rounds of the checks over the program headers.
use rorth_ox.Prelude.{
  ℕ, ◌+◌, ◌-◌, ◌%◌, ◌≤◌, ◌<◌, ◌≡◌, ◌⊎◌, inl, inr, sym, subst, Bool, true, false, not, ◌||◌, List,
  [], ◌∷◌, ◌++◌, arith, ltb, ◌==◌, Bool-cases, u32,
}
use native.Mathlib.Nat.{mod-lt, mod-eq_of_lt}
use rorth_ox.Status.{ok}
use rorth_ox.Paging.{page_size}
use rorth_ox.Processes.{program_address}
use rorth_ox.Elf.{
  program_limit, Phdr, bad_range, bad_align, bad_window, page_start, segment_end, page_end,
  holds_entry, validate_segments,
}

-- A program header that gets memory.
pub record IsLoaded (p : Phdr) : Type 0 where
  pub typed : p.p_type ≡ 1
  pub sized : 0 < p.p_memsz

-- Where the loader may take the bytes of a segment from, and where it may put them.
pub record IsSegment (size : ℕ) (p : Phdr) : Type 0 where
  pub in_file : p.p_offset + p.p_filesz ≤ size
  pub in_memory : p.p_filesz ≤ p.p_memsz
  pub above : program_address ≤ page_start p
  pub covered : p.p_vaddr + p.p_memsz ≤ page_end p
  pub below : page_end p ≤ program_limit

page_up_bound : (n : ℕ) → n ≤ n + page_size - 1 - (n + page_size - 1) % page_size
page_up_bound n =
    let some_page : 0 < page_size = omega arith in
    let r = mod-lt (n + page_size - 1) some_page in omega arith

-- The end of a segment in the window does not wrap, nor does the end of its last page.
pub page_end-bounds :
    (p : Phdr)
    → p.p_vaddr < program_limit
    → p.p_memsz ≤ program_limit - p.p_vaddr
    → (segment_end p ≡ p.p_vaddr + p.p_memsz) × (p.p_vaddr + p.p_memsz ≤ page_end p)
page_end-bounds p low fits =
    let whole : segment_end p ≡ p.p_vaddr + p.p_memsz = mod-eq_of_lt (omega arith) in
    let up : u32 (segment_end p + page_size - 1) ≡ segment_end p + page_size - 1 =
      mod-eq_of_lt (omega arith) in
    (
      whole,
      subst (λ n. p.p_vaddr + p.p_memsz ≤ n - n % page_size) (sym up)
          (subst
            (λ n. n ≤ segment_end p + page_size - 1 - (segment_end p + page_size - 1) % page_size)
            whole (page_up_bound (segment_end p))),
    )

passes_range :
    (size : ℕ) (p : Phdr)
    → bad_range size p ≡ false
    → (p.p_offset + p.p_filesz ≤ size) × (p.p_filesz ≤ p.p_memsz)
unfolding bad_range
passes_range size p h = (ground arith, ground arith)

pub passes_window :
    (p : Phdr)
    → bad_window p ≡ false
    → (p.p_vaddr < program_limit) × (p.p_memsz ≤ program_limit - p.p_vaddr)
unfolding bad_window
passes_window p h = (ground arith, ground arith)

-- What a round of the loop leaves of a header that is loaded.
pub tests :
    (size entry previous_end : ℕ) (found : Bool) (p : Phdr) (ps : List Phdr) (n : ℕ)
    → validate_segments size entry previous_end found (p ∷ ps) ≡ ok n
    → IsLoaded p
    → (bad_range size p ≡ false)
      × (bad_window p ≡ false)
      × (previous_end ≤ page_start p)
      × (page_end p ≤ program_limit)
      × (validate_segments size entry (page_end p) (found || holds_entry entry p) ps ≡ ok n)
unfolding validate_segments
tests size entry previous_end found p ps n e l =
    let typed' = l.typed in
    let sized' = l.sized in
    elim (Bool-cases (bad_range size p || bad_align p)) [
      | inl bad ↦ absurd (ground arith)
      | inr fine ↦
          elim (Bool-cases
            (bad_window p || ltb (page_start p) previous_end || ltb program_limit (page_end p))) [
              | inl bad ↦ absurd (ground arith)
              | inr inside ↦ (ground arith, ground arith, ground arith, ground arith, ground arith)
            ]
    ]

-- The loop goes on behind any header, and the end of the segments before it does not go down.
pub record GoesOn (size entry previous_end : ℕ) (ps : List Phdr) (n : ℕ) : Type 0 where
  pub from_end : ℕ
  pub was_found : Bool
  pub forward : previous_end ≤ from_end
  pub rest : validate_segments size entry from_end was_found ps ≡ ok n

pub IsLoaded-cases : (p : Phdr) → IsLoaded p ⊎ ((not (p.p_type == 1) || p.p_memsz == 0) ≡ true)
IsLoaded-cases p = elim (Bool-cases (not (p.p_type == 1) || p.p_memsz == 0)) [
  | inl out ↦ inr out
  | inr loaded ↦ inl (record { typed = ground arith; sized = ground arith })
]

pub not_loaded :
    (size entry previous_end : ℕ) (found : Bool) (p : Phdr) (ps : List Phdr) (n : ℕ)
    → validate_segments size entry previous_end found (p ∷ ps) ≡ ok n
    → (not (p.p_type == 1) || p.p_memsz == 0) ≡ true
    → validate_segments size entry previous_end found ps ≡ ok n
unfolding validate_segments
not_loaded size entry previous_end found p ps n e out =
    elim (Bool-cases (bad_range size p || bad_align p)) [
      | inl bad ↦ ground arith
      | inr fine ↦ ground arith
    ]

pub segment_lem :
    (size entry previous_end : ℕ) (found : Bool) (p : Phdr) (ps : List Phdr) (n : ℕ)
    → program_address ≤ previous_end
    → validate_segments size entry previous_end found (p ∷ ps) ≡ ok n
    → IsLoaded p
    → IsSegment size p
segment_lem size entry previous_end found p ps n low e l =
    let t = tests size entry previous_end found p ps n e l in
    let range = passes_range size p t.0 in
    let window = passes_window p t.1 in
    let ends = page_end-bounds p window.0 window.1 in
    record {
      in_file = range.0;
      in_memory = range.1;
      above = omega (arith, t.2);
      covered = ends.1;
      below = t.3;
    }

goes_on :
    (size entry previous_end : ℕ) (found : Bool) (p : Phdr) (ps : List Phdr) (n : ℕ)
    → validate_segments size entry previous_end found (p ∷ ps) ≡ ok n
    → GoesOn size entry previous_end ps n
goes_on size entry previous_end found p ps n e = elim (IsLoaded-cases p) [
  | inl l ↦
      let t = tests size entry previous_end found p ps n e l in
      let window = passes_window p t.1 in
      let ends = page_end-bounds p window.0 window.1 in
      let behind = t.2 in
      record {
        from_end = page_end p;
        was_found = found || holds_entry entry p;
        forward = omega (arith, ends.1);
        rest = t.4;
      }
  | inr out ↦ record {
    from_end = previous_end;
    was_found = found;
    forward = omega arith;
    rest = not_loaded size entry previous_end found p ps n e out;
  }
]

pub reached :
    (size entry previous_end : ℕ) (found : Bool) (before ps : List Phdr) (n : ℕ)
    → validate_segments size entry previous_end found (before ++ ps) ≡ ok n
    → GoesOn size entry previous_end ps n
reached size entry previous_end found [] ps n e = record {
  from_end = previous_end;
  was_found = found;
  forward = omega arith;
  rest = e;
}
reached size entry previous_end found (p ∷ before) ps n e =
    let g = goes_on size entry previous_end found p (before ++ ps) n e in
    let r = reached size entry g.from_end g.was_found before ps n g.rest in
    let first = g.forward in
    record {
      from_end = r.from_end;
      was_found = r.was_found;
      forward = omega (arith, r.forward);
      rest = r.rest;
    }

-- Two segments: the pages of the first end where those of the other start, or before.
pub apart_lem :
    (size entry previous_end : ℕ) (found : Bool) (p q : Phdr) (between after : List Phdr) (n : ℕ)
    → validate_segments size entry previous_end found (p ∷ (between ++ (q ∷ after))) ≡ ok n
    → IsLoaded p
    → IsLoaded q
    → page_end p ≤ page_start q
apart_lem size entry previous_end found p q between after n e l l' =
    let t = tests size entry previous_end found p (between ++ (q ∷ after)) n e l in
    let r =
      reached size entry (page_end p) (found || holds_entry entry p) between (q ∷ after) n t.4 in
    let u = tests size entry r.from_end r.was_found q after n r.rest l' in
    let forward = r.forward in omega (arith, u.2)
