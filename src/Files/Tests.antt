-- ===== src/Files/Tests.antt =====
-- Opens and closes of kernel/fs/file.c over a file system that has every file.
use rorth_ox.Prelude.{ℕ, ◌+◌, ◌-◌, ◌≡◌, refl, true, none, some, List, [], ◌∷◌, arith, pos}
use rorth_ox.Status.{ok}
use rorth_ox.Strings.{strnlen}
use rorth_ox.Files.{Files, FileSystem, fopen_status, fclose}
use rorth_ox.Files.Opening.{Outcome, fclose-fopen_status}
use rorth_ox.Files.Balance.{Balanced, fopen_status-Balanced}

-- "0:/a.c"
abbrev name : List ℕ
name = b'0' ∷ b':' ∷ b'/' ∷ b'a' ∷ b'.' ∷ b'c' ∷ []

-- It counts its open files.
abbrev counting : FileSystem ℕ ℕ
counting = record {
  null = 0;
  fs_open = λ w parts mode. (ok (w + 100), w + 1);
  fs_read = λ w p size nmemb out. (ok nmemb, w);
  fs_seek = λ w p offset whence. (ok 0, w);
  fs_stat = λ w p stat. (ok 0, w);
  fs_close = λ w p. (ok 0, w - 1);
  read_bytes = none;
  write_bytes = none;
  seek_signed = none;
}

abbrev files : Files ℕ ℕ
files = record {
  table = some (record { index = 1; private = 50 }) ∷ none ∷ none ∷ [];
  heap = record { outcomes = true ∷ true ∷ true ∷ true ∷ true ∷ []; live = 10 };
  store = 0;
}

write_opens : (fopen_status counting true name (b'w' ∷ []) files).0 ≡ ok 2
unfolding fopen_status strnlen
write_opens = refl

counting_closes : (w p : ℕ) → w - 1 ≡ w - 1
counting_closes w p = refl

fopen_status-Balanced_example :
    Outcome files (fopen_status counting true name (b'w' ∷ []) files)
    × Balanced counting
        (λ w. w)
        (λ w parts mode. refl)
        counting_closes
        files
        (fopen_status counting true name (b'w' ∷ []) files)
fopen_status-Balanced_example =
    fopen_status-Balanced counting (λ w. w) (λ w parts mode. refl) counting_closes true name
      (b'w' ∷ []) files

fclose-fopen_status_example :
    let s = (fopen_status counting true name (b'w' ∷ []) files).1 in
    ((fclose counting (pos 2) s).0 ≡ ok 0)
    × ((fclose counting (pos 2) s).1.table ≡ files.table)
    × ((fclose counting (pos 2) s).1.heap.live ≡ 10)
fclose-fopen_status_example =
    fclose-fopen_status counting true name (b'w' ∷ []) files 2 (ground arith) (λ w p. refl)
      write_opens
