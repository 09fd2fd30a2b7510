-- ===== src/Elf/Tests.antt =====
-- kernel/loader/formats/elfloader.c: a program of one segment.
use rorth_ox.Prelude.{ℕ, ◌≡◌, refl, true, none, some, List, [], ◌∷◌, ◌++◌, length, get_or, arith}
use rorth_ox.Status.{ok}
use rorth_ox.Paths.{Memory, kzalloc}
use rorth_ox.Elf.{
  phdr_at, phdrs, e_entry, valid_signature, bad_header, bad_table, bad_range, bad_align, bad_window,
  validate_segments, validate_loaded, phdrs_from, process_pheaders, process_loaded, elf_close,
  image,
}
use rorth_ox.Elf.Layout.{IsLayout, validate_loaded-IsLayout}
use rorth_ox.Elf.Contents.{IsImage, process_loaded-IsImage}
use rorth_ox.Elf.Ownership.{elf_close-process_loaded}

-- The header, with the entry 0x400040, and one program header: 84 bytes of the file at 0x400000,
-- and 100 bytes of memory.
abbrev small_program : List ℕ
small_program =
    0x7F ∷ b'E' ∷ b'L' ∷ b'F' ∷ 1 ∷ 1 ∷ 1 ∷ 0 ∷ 0 ∷ 0 ∷ 0 ∷ 0 ∷ 0 ∷ 0 ∷ 0 ∷ 0 ∷ 2 ∷ 0 ∷ 3 ∷ 0 ∷ 1
    ∷ 0 ∷ 0 ∷ 0 ∷ 0x40 ∷ 0 ∷ 0x40 ∷ 0 ∷ 52 ∷ 0 ∷ 0 ∷ 0 ∷ 0 ∷ 0 ∷ 0 ∷ 0 ∷ 0 ∷ 0 ∷ 0 ∷ 0 ∷ 52 ∷ 0 ∷ 32
    ∷ 0 ∷ 1 ∷ 0 ∷ 0 ∷ 0 ∷ 0 ∷ 0 ∷ 0 ∷ 0 ∷ 1 ∷ 0 ∷ 0 ∷ 0 ∷ 0 ∷ 0 ∷ 0 ∷ 0 ∷ 0 ∷ 0 ∷ 0x40 ∷ 0 ∷ 0 ∷ 0
    ∷ 0x40 ∷ 0 ∷ 84 ∷ 0 ∷ 0 ∷ 0 ∷ 100 ∷ 0 ∷ 0 ∷ 0 ∷ 5 ∷ 0 ∷ 0 ∷ 0 ∷ 0 ∷ 0x10 ∷ 0 ∷ 0 ∷ []

abbrev two_granted : Memory
two_granted = record { outcomes = true ∷ true ∷ []; live = 3 }

small_program_valid : validate_loaded small_program ≡ ok 0
unfolding validate_loaded valid_signature bad_header bad_table phdrs phdrs_from validate_segments
    bad_range bad_align bad_window
small_program_valid = refl

small_program-phdrs : phdrs small_program ≡ [] ++ (phdr_at small_program 52 ∷ [])
unfolding phdrs phdrs_from
small_program-phdrs = refl

small_program_loaded : (process_loaded small_program two_granted).0 ≡ ok 0
unfolding validate_loaded valid_signature bad_header bad_table phdrs phdrs_from validate_segments
    bad_range bad_align bad_window process_loaded process_pheaders kzalloc
small_program_loaded = refl

validate_loaded-IsLayout_example :
    IsLayout (length small_program) (e_entry small_program) (phdrs small_program)
validate_loaded-IsLayout_example = validate_loaded-IsLayout small_program 0 small_program_valid

process_loaded-IsImage_example :
    (get_or (process_loaded small_program two_granted).1.segments 0 none
      ≡ some (image small_program (phdr_at small_program 52)))
    × IsImage small_program
        (phdr_at small_program 52)
        (image small_program (phdr_at small_program 52))
process_loaded-IsImage_example =
    process_loaded-IsImage small_program two_granted 0 [] (phdr_at small_program 52) []
      small_program_loaded small_program-phdrs (record { typed = refl; sized = omega arith })

elf_close-process_loaded_example :
    (elf_close
      (process_loaded small_program two_granted).1
      (process_loaded small_program two_granted).2).live
    ≡ 1
elf_close-process_loaded_example = elf_close-process_loaded small_program two_granted 1 refl
