-- ===== src/Elf/Layout.antt =====
-- kernel/loader/formats/elfloader.c: what a validated file says of its segments.
use rorth_ox.Prelude.{
  ℕ, ◌+◌, ◌≤◌, ◌<◌, ◌≡◌, ◌≢◌, inl, inr, refl, ◌∙◌, ap, sym, Bool, true, false, List, [], ◌∷◌, ◌++◌,
  arith, length, Bool-cases, bit_and,
}
use rorth_ox.Status.{ok}
use rorth_ox.Processes.{program_address}
use rorth_ox.Elf.{
  Phdr, phdrs, page_start, page_end, holds_entry, validate_segments, validate_loaded, e_entry,
}
use rorth_ox.Elf.Segments.{
  IsLoaded, IsSegment, page_end-bounds, passes_window, tests, IsLoaded-cases, not_loaded,
  segment_lem, reached, apart_lem,
}

-- A segment that can be executed and has the entry in it.
pub record HasEntry (entry : ℕ) (ps : List Phdr) : Type 0 where
  pub p : Phdr
  pub before : List Phdr
  pub after : List Phdr
  pub split : ps ≡ before ++ (p ∷ after)
  pub loaded : IsLoaded p
  pub executable : bit_and p.p_flags 1 ≢ 0
  pub starts : p.p_vaddr ≤ entry
  pub ends : entry < p.p_vaddr + p.p_memsz

one_more : (entry : ℕ) (p : Phdr) (ps : List Phdr) → HasEntry entry ps → HasEntry entry (p ∷ ps)
one_more entry p ps h = record {
  p = h.p;
  before = p ∷ h.before;
  after = h.after;
  split = ap (λ l. p ∷ l) h.split;
  loaded = h.loaded;
  executable = h.executable;
  starts = h.starts;
  ends = h.ends;
}

here_entry :
    (size entry previous_end : ℕ) (found : Bool) (p : Phdr) (ps : List Phdr) (n : ℕ)
    → validate_segments size entry previous_end found (p ∷ ps) ≡ ok n
    → IsLoaded p
    → holds_entry entry p ≡ true
    → HasEntry entry (p ∷ ps)
here_entry size entry previous_end found p ps n e l h =
    let t = tests size entry previous_end found p ps n e l in
    let window = passes_window p t.1 in
    let ends' = page_end-bounds p window.0 window.1 in
    let whole = ends'.0 in
    record {
      p = p;
      before = [];
      after = ps;
      split = refl;
      loaded = l;
      executable = ground arith;
      starts = ground arith;
      ends = ground arith;
    }

entry_lem :
    (size entry previous_end : ℕ) (ps : List Phdr) (n : ℕ)
    → validate_segments size entry previous_end false ps ≡ ok n
    → HasEntry entry ps
unfolding validate_segments
entry_lem size entry previous_end [] n e = absurd (ground arith)
entry_lem size entry previous_end (p ∷ ps) n e = elim (IsLoaded-cases p) [
  | inl l ↦ elim (Bool-cases (holds_entry entry p)) [
    | inl h ↦ here_entry size entry previous_end false p ps n e l h
    | inr outside ↦
        let t = tests size entry previous_end false p ps n e l in
        one_more entry p ps (
          entry_lem size entry (page_end p) ps n
            (ap (λ b. validate_segments size entry (page_end p) b ps) (sym outside) ∙ t.4))
  ]
  | inr out ↦ one_more entry p ps (
      entry_lem size entry previous_end ps n
        (not_loaded size entry previous_end false p ps n e out))
]

-- The segments of a file that is `size` bytes.
pub record IsLayout (size entry : ℕ) (ps : List Phdr) : Type 0 where
  pub segment :
      (before : List Phdr) (p : Phdr) (after : List Phdr)
      → ps ≡ before ++ (p ∷ after)
      → IsLoaded p
      → IsSegment size p
  pub apart :
      (before : List Phdr) (p : Phdr) (between : List Phdr) (q : Phdr) (after : List Phdr)
      → ps ≡ before ++ (p ∷ (between ++ (q ∷ after)))
      → IsLoaded p
      → IsLoaded q
      → page_end p ≤ page_start q
  pub entered : HasEntry entry ps

validate_segments-IsLayout :
    (size entry : ℕ) (ps : List Phdr) (n : ℕ)
    → validate_segments size entry program_address false ps ≡ ok n
    → IsLayout size entry ps
validate_segments-IsLayout size entry ps n e = record {
  segment = λ before p after s l.
      (let r =
          reached size entry program_address false before (p ∷ after) n
            (ap (validate_segments size entry program_address false) (sym s) ∙ e) in
        segment_lem size entry r.from_end r.was_found p after n r.forward r.rest l);
  apart = λ before p between q after s l l'.
      (let r =
          reached size entry program_address false before (p ∷ (between ++ (q ∷ after))) n
            (ap (validate_segments size entry program_address false) (sym s) ∙ e) in
        apart_lem size entry r.from_end r.was_found p q between after n r.rest l l');
  entered = entry_lem size entry program_address ps n e;
}

-- If `elf_validate_loaded` accepts a file, then each segment with memory has its bytes within the
-- file, no more of them than its memory, and its pages within the window of a program; the pages of
-- one segment end before those of a later one start; and the entry lies in an executable segment.
pub validate_loaded-IsLayout :
    (file : List ℕ) (n : ℕ)
    → validate_loaded file ≡ ok n
    → IsLayout (length file) (e_entry file) (phdrs file)
unfolding validate_loaded
validate_loaded-IsLayout file n e =
    validate_segments-IsLayout (length file) (e_entry file) (phdrs file) n (ground arith)
