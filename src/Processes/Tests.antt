-- ===== src/Processes/Tests.antt =====
-- A process of kernel/task/process.c with two segments, and one that opens a file.
use rorth_ox.Prelude.{ℕ, ◌+◌, ◌≡◌, refl, true, false, none, some, List, [], ◌∷◌, arith, ℤ, pos}
use rorth_ox.Status.{ok}
use rorth_ox.Strings.{strnlen}
use rorth_ox.Files.{Mode, Files, FileSystem, file_open}
use rorth_ox.Processes.{Process, Program, user_span, open_file, close_file}
use rorth_ox.Processes.Spans.{Ends, regions, user_span-Ends}
use rorth_ox.Processes.Handles.{Restored, close_file-open_file}

-- A text segment that cannot be written and a data segment.
abbrev shell : Process
shell = record {
  has_stack = true;
  allocations = record { ptr = 0x1000000; size = 8192 } ∷ record { ptr = 0; size = 0 } ∷ [];
  program = Program.elf (
      record { p_type = 1; p_flags = 5; p_vaddr = 0x400000; p_memsz = 5000; has_memory = true }
      ∷ record { p_type = 1; p_flags = 6; p_vaddr = 0x402000; p_memsz = 100; has_memory = true }
      ∷ []);
}

text_read : user_span shell 0x400010 false ≡ some 4984
unfolding user_span
text_read = refl

text_kept : user_span shell 0x400010 true ≡ none
unfolding user_span
text_kept = refl

user_span-Ends_example : Ends 0x400010 4984 (regions shell false)
user_span-Ends_example = (user_span-Ends shell 0x400010 false (ground arith)).0 4984 text_read

-- "0:/a.c"
abbrev name : List ℕ
name = b'0' ∷ b':' ∷ b'/' ∷ b'a' ∷ b'.' ∷ b'c' ∷ []

abbrev one_file : FileSystem ℕ ℕ
one_file = record {
  null = 0;
  fs_open = λ w parts mode. (ok 7, w + 1);
  fs_read = λ w p size nmemb out. (ok nmemb, w);
  fs_seek = λ w p offset whence. (ok 0, w);
  fs_stat = λ w p stat. (ok 0, w);
  fs_close = λ w p. (ok 0, w);
  read_bytes = none;
  write_bytes = none;
  seek_signed = none;
}

abbrev kernel : Files ℕ ℕ
kernel = record {
  table = none ∷ none ∷ [];
  heap = record { outcomes = true ∷ true ∷ true ∷ true ∷ []; live = 10 };
  store = 0;
}

abbrev handles : List ℤ
handles = pos 5 ∷ pos 0 ∷ pos 0 ∷ []

second_handle : (open_file one_file true name Mode.write 100 handles kernel).0 ≡ ok 2
unfolding open_file file_open strnlen
second_handle = refl

close_file-open_file_example : Restored one_file handles kernel (
    close_file one_file
      (pos 2)
      (open_file one_file true name Mode.write 100 handles kernel).1
      (open_file one_file true name Mode.write 100 handles kernel).2)
close_file-open_file_example =
    close_file-open_file one_file true name Mode.write 100 handles kernel 2 (ground arith)
      (ground arith) (λ w p. refl) second_handle
