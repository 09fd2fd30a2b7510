-- ===== src/Processes.antt =====
-- kernel/task/process.c: the memory that a process owns and its handles of open files.
pub mod Spans
pub mod Handles
mod Tests
use rorth_ox.Prelude.{
  ℕ, zero, suc, ◌+◌, ◌-◌, Bool, true, false, not, ◌&&◌, ◌||◌, Option, none, some, List, [], ◌∷◌,
  ltb, leb, ◌==◌, if◌then◌else◌, get_or, set, ℤ, pos, negsuc, bit_and,
}
use rorth_ox.Status.{Result, ok, err, Errno}
use rorth_ox.Files.{Mode, FileSystem, Files, file_open, fclose}

-- PROGRAM_LOAD_ADDRESS, USER_STACK_TOP and USER_STACK_SIZE
abbrev pub program_address : ℕ
program_address = 0x400000

abbrev pub stack_size : ℕ
stack_size = 16384

abbrev pub stack_end : ℕ
stack_end = 0x3FF000 - stack_size

-- RORTHOX_FILE_MAX_OPEN
abbrev pub max_open : ℕ
max_open = 16

-- A 0 for `ptr` is a free entry.
pub record Allocation : Type 0 where
  pub ptr : ℕ
  pub size : ℕ

-- The program header of a segment, and whether the loader gave the segment memory.
pub record Segment : Type 0 where
  pub p_type : ℕ
  pub p_flags : ℕ
  pub p_vaddr : ℕ
  pub p_memsz : ℕ
  pub has_memory : Bool

-- What a process runs: the size of a binary, the segments of an ELF file, or an ELF file that is
-- not loaded.
pub data Program : Type 0 where
  binary : ℕ → Program
  elf : List Segment → Program
  no_file : Program

pub record Process : Type 0 where
  pub has_stack : Bool
  pub allocations : List Allocation
  pub program : Program

-- `process_region_span`: the bytes that are left of the region.
pub region_span : ℕ → ℕ → ℕ → Option ℕ
region_span address start size =
    if ltb address start || leb size (address - start)
    then none
    else some (size - (address - start))

abbrev pub or_else {ℓ} : {A : Type ℓ} → Option A → Option A → Option A
or_else none later = later
or_else (some a) later = some a

pub allocation_span : ℕ → List Allocation → Option ℕ
unfolding region_span
allocation_span address [] = none
allocation_span address (a ∷ allocations) =
    or_else (if a.ptr == 0 then none else region_span address a.ptr a.size)
      (allocation_span address allocations)

-- PT_LOAD is 1 and PF_W is 2.
pub is_owned : Bool → Segment → Bool
is_owned write s = (s.p_type == 1) && s.has_memory && (not write || not (bit_and s.p_flags 2 == 0))

pub segment_span : ℕ → Bool → List Segment → Option ℕ
unfolding region_span is_owned
segment_span address write [] = none
segment_span address write (s ∷ segments) =
    or_else (if is_owned write s then region_span address s.p_vaddr s.p_memsz else none)
      (segment_span address write segments)

pub program_span : ℕ → Bool → Program → Option ℕ
unfolding region_span segment_span
program_span address write (Program.binary size) = region_span address program_address size
program_span address write (Program.elf segments) = segment_span address write segments
program_span address write Program.no_file = none

-- `process_user_span` for a process and an `available` that are not null; `none` is -EINVARG.
unfoldable pub user_span : Process → ℕ → Bool → Option ℕ
unfolding region_span allocation_span program_span
user_span p address write =
    if address == 0
    then none
    else or_else (if p.has_stack then region_span address stack_end stack_size else none)
        (or_else (allocation_span address p.allocations) (program_span address write p.program))

-- The search of `process_open_file`.
pub free_handle : ℕ → List ℤ → Option ℕ
free_handle i [] = none
free_handle i (pos zero ∷ files) = some i
free_handle i (pos (suc fd) ∷ files) = free_handle (i + 1) files
free_handle i (negsuc n ∷ files) = free_handle (i + 1) files

pub file_descriptor : List ℤ → ℤ → Result ℕ
file_descriptor files (negsuc n) = err Errno.ebadf
file_descriptor files (pos handle) =
    if handle == 0 || ltb max_open handle
    then err Errno.ebadf
    else elim (get_or files (handle - 1) (pos 0)) [
      | negsuc n ↦ err Errno.ebadf
      | pos fd ↦ if fd == 0 then err Errno.ebadf else ok fd
    ]

module _ {P W : Type 0} (fs : FileSystem P W) where
  -- The reserved slot after the open.
  pub settle : ℕ → List ℤ → Result ℕ × Files P W → Result ℕ × List ℤ × Files P W
  settle i files (err e, s) = (err e, set files i (pos 0), s)
  settle i files (ok fd, s) = (ok (i + 1), set files i (pos fd), s)

  pub open_at :
      Option ℕ → Bool → List ℕ → Mode → ℕ → List ℤ → Files P W → Result ℕ × List ℤ × Files P W
  unfolding settle
  open_at none mounted path mode stat files s = (err Errno.emfile, files, s)
  open_at (some i) mounted path mode stat files s =
      settle i (set files i (negsuc 0)) (file_open fs mounted path mode stat s)

  pub open_file : Bool → List ℕ → Mode → ℕ → List ℤ → Files P W → Result ℕ × List ℤ × Files P W
  unfolding free_handle open_at
  open_file mounted path mode stat files s =
      open_at (free_handle 0 files) mounted path mode stat files s

  abbrev handle_index : ℤ → ℕ
  handle_index (pos handle) = handle - 1
  handle_index (negsuc n) = 0

  pub close_file : ℤ → List ℤ → Files P W → Result ℕ × List ℤ × Files P W
  unfolding file_descriptor
  close_file handle files s = elim (file_descriptor files handle) [
    | err e ↦ (err e, files, s)
    | ok fd ↦ (
      (fclose fs (pos fd) s).0,
      set files (handle_index handle) (pos 0),
      (fclose fs (pos fd) s).1,
    )
  ]

  abbrev is_open : ℤ → Bool
  is_open (pos fd) = not (fd == 0)
  is_open (negsuc n) = false

  -- The loop of `process_close_files`: the handles and the files behind it.
  pub close_files : List ℤ → Files P W → List ℤ × Files P W
  close_files [] s = ([], s)
  close_files (fd ∷ files) s =
      let later = close_files files (if is_open fd then (fclose fs fd s).1 else s) in
      (pos 0 ∷ later.0, later.1)
