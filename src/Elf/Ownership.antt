-- ===== src/Elf/Ownership.antt =====
-- kernel/loader/formats/elfloader.c: the memory that a load takes and a close gives back.
use rorth_ox.Prelude.{
  ℕ, suc, ◌+◌, ◌-◌, ◌≡◌, inl, inr, refl, ◌∙◌, not, ◌||◌, Option, none, some, List, [], ◌∷◌, arith,
  ◌==◌, Bool-cases,
}
use rorth_ox.Status.{Result, ok, err}
use rorth_ox.Paths.{Memory, kzalloc, kfree}
use rorth_ox.Paths.Leaks.{kzalloc-live}
use rorth_ox.Elf.{
  Phdr, phdrs, process_pheaders, process_loaded, validate_loaded, free_segments, elf_close,
}

held : List (Option (List ℕ)) → ℕ
held [] = 0
held (none ∷ segments) = held segments
held (some memory ∷ segments) = suc (held segments)

free_segments-held :
    (segments : List (Option (List ℕ))) (h : Memory)
    → (free_segments segments h).live ≡ h.live - held segments
unfolding free_segments held kfree
free_segments-held [] h = omega arith
free_segments-held (none ∷ segments) h = free_segments-held segments h
free_segments-held (some memory ∷ segments) h = free_segments-held segments (kfree h) ∙ omega arith

process_pheaders-held :
    (file : List ℕ) (ps : List Phdr) (h : Memory)
    → (process_pheaders file ps h).2.live ≡ h.live + held (process_pheaders file ps h).1
unfolding process_pheaders held
process_pheaders-held file [] h = omega arith
process_pheaders-held file (p ∷ ps) h =
    let skipped = process_pheaders-held file ps h in
    let taken = process_pheaders-held file ps (kzalloc h).1 in
    let a = kzalloc-live h in
    elim (Bool-cases (not (p.p_type == 1) || p.p_memsz == 0)) [
      | inl out ↦ rw (process_pheaders, out) (omega arith)
      | inr loaded ↦ elim (Bool-cases (kzalloc h).0) [
        | inl given ↦ rw (process_pheaders, loaded, given) (ground arith)
        | inr refused ↦ rw (process_pheaders, loaded, refused) (ground arith)
      ]
    ]

closed :
    (file : List ℕ) (h : Memory) (checked : Result ℕ)
    → validate_loaded file ≡ checked
    → (elf_close (process_loaded file h).1 (process_loaded file h).2).live ≡ h.live - 2
unfolding process_loaded elf_close held kfree
closed file h (err e) c =
    rw (process_loaded, c) (let freed = free_segments-held [] h in ground arith)
closed file h (ok n) c =
    let a = kzalloc-live h in
    let r = process_pheaders-held file (phdrs file) (kzalloc h).1 in
    elim (Bool-cases (kzalloc h).0) [
      | inl given ↦
          rw (process_loaded, c, given)
            (let freed =
                free_segments-held (process_pheaders file (phdrs file) (kzalloc h).1).1
                  (process_pheaders file (phdrs file) (kzalloc h).1).2 in
              ground arith)
      | inr refused ↦
          rw (process_loaded, c, refused)
            (let freed = free_segments-held [] (kzalloc h).1 in ground arith)
    ]

-- However the allocations end: with the structure and the bytes of the file allocated before,
-- `elf_close` after `elf_process_loaded` gives back what that one took and these two, also where it
-- failed and left some segments without memory.
pub elf_close-process_loaded :
    (file : List ℕ) (h : Memory) (n : ℕ)
    → h.live ≡ n + 2
    → (elf_close (process_loaded file h).1 (process_loaded file h).2).live ≡ n
elf_close-process_loaded file h n two =
    closed file h (validate_loaded file) refl ∙ omega (arith, two)
