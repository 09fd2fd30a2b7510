-- ===== src/Elf.antt =====
-- kernel/loader/formats/elfloader.c: the checks of an ELF file in memory, the memory of its segments
-- and their release. The file is its bytes. `x & (PAGING_PAGE_SIZE - 1)` is `x % page_size`.
pub mod Segments
pub mod Layout
pub mod Ownership
pub mod Contents
mod Tests
use rorth_ox.Prelude.{
  ℕ, zero, suc, ◌+◌, ◌-◌, ◌*◌, ◌/◌, ◌%◌, ◌^◌, Bool, true, false, not, ◌&&◌, ◌||◌, Option, none,
  some, List, [], ◌∷◌, ◌++◌, ltb, leb, ◌==◌, if◌then◌else◌, length, get_or, bit_and, u32, take,
  drop, replicate,
}
use rorth_ox.Status.{Result, ok, err, Errno}
use rorth_ox.Paging.{page_size}
use rorth_ox.Processes.{program_address}
use rorth_ox.Paths.{Memory, kzalloc, kfree}

-- PROGRAM_LOAD_LIMIT
abbrev pub program_limit : ℕ
program_limit = 0x500000

abbrev pub header_size : ℕ
header_size = 52

abbrev pub phdr_size : ℕ
phdr_size = 32

abbrev byte_at : List ℕ → ℕ → ℕ
byte_at file i = get_or file i 0

abbrev half_at : List ℕ → ℕ → ℕ
half_at file i = byte_at file i + byte_at file (i + 1) * 2 ^ 8

abbrev word_at : List ℕ → ℕ → ℕ
word_at file i = half_at file i + half_at file (i + 2) * 2 ^ 16

-- The fields of `struct elf_header` that are read.
abbrev pub e_entry : List ℕ → ℕ
e_entry file = word_at file 24

abbrev e_phoff : List ℕ → ℕ
e_phoff file = word_at file 28

abbrev e_phnum : List ℕ → ℕ
e_phnum file = half_at file 44

-- `struct elf32_phdr` without its physical address.
pub record Phdr : Type 0 where
  pub p_type : ℕ
  pub p_offset : ℕ
  pub p_vaddr : ℕ
  pub p_filesz : ℕ
  pub p_memsz : ℕ
  pub p_flags : ℕ
  pub p_align : ℕ

abbrev pub phdr_at : List ℕ → ℕ → Phdr
phdr_at file at = record {
  p_type = word_at file at;
  p_offset = word_at file (at + 4);
  p_vaddr = word_at file (at + 8);
  p_filesz = word_at file (at + 16);
  p_memsz = word_at file (at + 20);
  p_flags = word_at file (at + 24);
  p_align = word_at file (at + 28);
}

pub phdrs_from : List ℕ → ℕ → ℕ → List Phdr
phdrs_from file zero at = []
phdrs_from file (suc n) at = phdr_at file at ∷ phdrs_from file n (at + phdr_size)

-- The program headers.
pub phdrs : List ℕ → List Phdr
unfolding phdrs_from
phdrs file = phdrs_from file (e_phnum file) (e_phoff file)

-- 0x7F "ELF"
pub valid_signature : List ℕ → Bool
valid_signature file =
    (byte_at file 0 == 0x7F)
    && (byte_at file 1 == b'E')
    && (byte_at file 2 == b'L')
    && (byte_at file 3 == b'F')

-- ELFCLASS32, ELFDATA2LSB, EV_CURRENT twice, EM_386, ET_EXEC and the two sizes.
pub bad_header : List ℕ → Bool
bad_header file =
    not (byte_at file 4 == 1)
    || not (byte_at file 5 == 1)
    || not (byte_at file 6 == 1)
    || not (word_at file 20 == 1)
    || not (half_at file 18 == 3)
    || not (half_at file 16 == 2)
    || not (half_at file 40 == header_size)
    || not (half_at file 42 == phdr_size)

pub bad_table : List ℕ → Bool
bad_table file =
    (e_phnum file == 0)
    || ltb (e_phoff file) header_size
    || ltb (length file) (e_phoff file)
    || ltb ((length file - e_phoff file) / phdr_size) (e_phnum file)

-- The bytes in the file, and the offsets within a page.
pub bad_range : ℕ → Phdr → Bool
bad_range size p =
    ltb size p.p_offset
    || ltb (size - p.p_offset) p.p_filesz
    || ltb p.p_memsz p.p_filesz
    || not (p.p_vaddr % page_size == p.p_offset % page_size)

pub bad_align : Phdr → Bool
bad_align p =
    ltb 1 p.p_align
    && (not (bit_and p.p_align (p.p_align - 1) == 0)
        || not (p.p_vaddr % p.p_align == p.p_offset % p.p_align))

pub bad_window : Phdr → Bool
bad_window p =
    ltb p.p_vaddr program_address
    || leb program_limit p.p_vaddr
    || ltb (program_limit - p.p_vaddr) p.p_memsz

abbrev pub page_start : Phdr → ℕ
page_start p = p.p_vaddr - p.p_vaddr % page_size

-- The sums are 32-bit ones.
abbrev pub segment_end : Phdr → ℕ
segment_end p = u32 (p.p_vaddr + p.p_memsz)

abbrev pub page_end : Phdr → ℕ
page_end p = u32 (segment_end p + page_size - 1) - u32 (segment_end p + page_size - 1) % page_size

abbrev pub holds_entry : ℕ → Phdr → Bool
holds_entry entry p =
    not (bit_and p.p_flags 1 == 0) && leb p.p_vaddr entry && ltb entry (segment_end p)

-- The loop of `elf_validate_loaded`; PT_LOAD is 1, PT_DYNAMIC 2 and PT_INTERP 3.
pub validate_segments : ℕ → ℕ → ℕ → Bool → List Phdr → Result ℕ
unfolding bad_range bad_align bad_window
validate_segments size entry previous_end found [] = if found then ok 0 else err Errno.einvarg
validate_segments size entry previous_end found (p ∷ ps) =
    let skipped = validate_segments size entry previous_end found ps in
    let next = validate_segments size entry (page_end p) (found || holds_entry entry p) ps in
    if p.p_type == 3 || p.p_type == 2
    then err Errno.einvarg
    else if not (p.p_type == 1)
    then skipped
    else if bad_range size p || bad_align p
    then err Errno.einvarg
    else if p.p_memsz == 0
    then skipped
    else if bad_window p || ltb (page_start p) previous_end || ltb program_limit (page_end p)
    then err Errno.einvarg
    else next

pub validate_loaded : List ℕ → Result ℕ
unfolding valid_signature bad_header bad_table phdrs validate_segments
validate_loaded file =
    if ltb (length file) 4 || not (valid_signature file)
    then err Errno.einformat
    else if ltb (length file) header_size || bad_header file || bad_table file
    then err Errno.einvarg
    else validate_segments (length file) (e_entry file) program_address false (phdrs file)

-- The bytes of the memory of a segment, from its first page on: the bytes before it in that page,
-- its bytes in the file, and zeros to the end of its last page.
abbrev pub image_size : Phdr → ℕ
image_size p =
    u32 (p.p_vaddr % page_size + p.p_memsz + page_size - 1)
    - u32 (p.p_vaddr % page_size + p.p_memsz + page_size - 1) % page_size

pub image : List ℕ → Phdr → List ℕ
image file p = take (image_size p) (
    replicate (p.p_vaddr % page_size) 0
    ++ (take p.p_filesz (drop p.p_offset file) ++ replicate (image_size p) 0))

-- The memory of each program header, `none` for those that get none, with the result and the heap.
pub process_pheaders : List ℕ → List Phdr → Memory → Result ℕ × List (Option (List ℕ)) × Memory
unfolding image
process_pheaders file [] h = (ok 0, [], h)
process_pheaders file (p ∷ ps) h =
    let skipped = process_pheaders file ps h in
    let taken = process_pheaders file ps (kzalloc h).1 in
    if not (p.p_type == 1) || p.p_memsz == 0
    then (skipped.0, none ∷ skipped.1, skipped.2)
    else if (kzalloc h).0
    then (taken.0, some (image file p) ∷ taken.1, taken.2)
    else (err Errno.enomem, [], (kzalloc h).1)

-- `struct elf_file` as far as it owns memory: whether it has the bytes of the file and the table of
-- segments, and the segments.
pub record ElfFile : Type 0 where
  pub has_bytes : Bool
  pub has_table : Bool
  pub segments : List (Option (List ℕ))

-- `elf_process_loaded` for a structure with the bytes of the file and nothing else.
pub process_loaded : List ℕ → Memory → Result ℕ × ElfFile × Memory
unfolding validate_loaded process_pheaders
process_loaded file h =
    let r = process_pheaders file (phdrs file) (kzalloc h).1 in
    elim (validate_loaded file) [
      | err e ↦ (err e, record { has_bytes = true; has_table = false; segments = [] }, h)
      | ok n ↦
          if (kzalloc h).0
          then (r.0, record { has_bytes = true; has_table = true; segments = r.1 }, r.2)
          else (
            err Errno.enomem,
            record { has_bytes = true; has_table = false; segments = [] },
            (kzalloc h).1,
          )
    ]

-- kfree of NULL does nothing.
pub free_segments : List (Option (List ℕ)) → Memory → Memory
free_segments [] h = h
free_segments (none ∷ segments) h = free_segments segments h
free_segments (some memory ∷ segments) h = free_segments segments (kfree h)

-- `elf_close` for a file that is not NULL: the segments, their table, the bytes and the structure.
pub elf_close : ElfFile → Memory → Memory
unfolding free_segments
elf_close f h =
    let segments = free_segments f.segments h in
    let table = if f.has_table then kfree segments else segments in
    let bytes = if f.has_bytes then kfree table else table in kfree bytes
