-- ===== src/Files/Balance.antt =====
-- kernel/fs/file.c: the files that an open leaves open in the file system.
use rorth_ox.Prelude.{
  ℕ, ◌+◌, ◌-◌, ◌≡◌, refl, ◌∙◌, Bool, true, false, not, ◌&&◌, Option, none, some, List, [], ◌∷◌,
  arith, if◌then◌else◌, ◌==◌,
}
use rorth_ox.Status.{Result, ok, err}
use rorth_ox.Paths.{Memory, PathRoot, parse}
use rorth_ox.Files.{
  Mode, Files, FileSystem, with_heap, with_store, keep_open, finish_read, finish_write, start_write,
  open_parts, open_root, release_root, open_parsed, fopen_status, free_descriptor, is_read,
  get_mode_by_string, validate_path,
}
use rorth_ox.Files.Descriptors.{Made, made, no_memory, no_slot, new_descriptor-Made}
use rorth_ox.Files.Opening.{Outcome, fopen_status-Outcome}

-- One file more after a success, none after a failure.
abbrev pub Counted : {A : Type 0} → ℕ → Result A → ℕ → Type 0
Counted before (err e) after = after ≡ before
Counted before (ok value) after = after ≡ before + 1

module _ {P W : Type 0} (fs : FileSystem P W) (count : W → ℕ)
    (opens : (w : W) (parts : List (List ℕ)) (mode : Mode)
      → Counted (count w) (fs.fs_open w parts mode).0 (count (fs.fs_open w parts mode).1))
    (closes : (w : W) (p : P) → count (fs.fs_close w p).1 ≡ count w - 1) where
  abbrev pub Balanced : Files P W → Result ℕ × Files P W → Type 0
  Balanced s r = Counted (count s.store) r.0 (count r.1.store)

  keep_open-Balanced :
      (n : ℕ) (p : P) (s : Files P W) (r : Result ℕ × Files P W)
      → count s.store ≡ n + 1
      → Made fs s r
      → Counted n (keep_open fs p r).0 (count (keep_open fs p r).1.store)
  unfolding keep_open
  keep_open-Balanced n p s r one (made k free e) = one
  keep_open-Balanced n p s r one (no_memory e) = closes s.store p ∙ omega (arith, one)
  keep_open-Balanced n p s r one (no_slot full) = closes s.store p ∙ omega (arith, one)

  finish_read-Balanced :
      (s : Files P W) (r : Result P × W)
      → Counted (count s.store) r.0 (count r.1)
      → Balanced s (finish_read fs r s)
  unfolding finish_read
  finish_read-Balanced s (err e, w) same = same
  finish_read-Balanced s (ok p, w) one =
      keep_open-Balanced (count s.store) p (with_store w s) _ one
        (new_descriptor-Made fs (with_store w s))

  finish_write-Balanced :
      (index : ℕ) (s : Files P W) (r : Result P × W)
      → Counted (count s.store) r.0 (count r.1)
      → Balanced s (finish_write fs index r s)
  unfolding finish_write free_descriptor
  finish_write-Balanced index s (err e, w) same = same
  finish_write-Balanced index s (ok p, w) one = one

  start_write-Balanced :
      (s : Files P W) (parts : List (List ℕ)) (mode : Mode) (r : Result ℕ × Files P W)
      → Made fs s r
      → Balanced s (start_write fs r parts mode)
  unfolding start_write
  start_write-Balanced s parts mode r (made k free e) =
      finish_write-Balanced (k + 1) _ (fs.fs_open s.store parts mode) (opens s.store parts mode)
  start_write-Balanced s parts mode r (no_memory e) = refl
  start_write-Balanced s parts mode r (no_slot full) = refl

  open_parts-Balanced :
      (mode : Mode) (parts : List (List ℕ)) (s : Files P W)
      → Balanced s (open_parts fs mode parts s)
  unfolding open_parts
  open_parts-Balanced Mode.invalid parts s = refl
  open_parts-Balanced Mode.read parts s =
      finish_read-Balanced s (fs.fs_open s.store parts Mode.read) (opens s.store parts Mode.read)
  open_parts-Balanced Mode.write parts s =
      start_write-Balanced s parts Mode.write _ (new_descriptor-Made fs s)
  open_parts-Balanced Mode.append parts s =
      start_write-Balanced s parts Mode.append _ (new_descriptor-Made fs s)

  if-Balanced :
      (s : Files P W) (b : Bool) (r q : Result ℕ × Files P W)
      → Balanced s r
      → Balanced s q
      → Balanced s (if b then r else q)
  if-Balanced s true r q hr hq = hr
  if-Balanced s false r q hr hq = hq

  open_root-Balanced :
      (mounted : Bool) (mode : Mode) (drive : ℕ) (parts : List (List ℕ)) (s : Files P W)
      → Balanced s (open_root fs mounted mode drive parts s)
  unfolding open_root
  open_root-Balanced mounted mode drive [] s = refl
  open_root-Balanced mounted mode drive (name ∷ parts) s =
      if-Balanced s (not (drive == 0)) _ _ refl
        (if-Balanced s (not mounted) _ _ refl (open_parts-Balanced mode (name ∷ parts) s))

  open_parsed-Balanced :
      (mounted : Bool) (mode : Mode) (s : Files P W) (got : Option PathRoot × Memory)
      → Balanced s (open_parsed fs mounted mode got s)
  unfolding open_parsed release_root
  open_parsed-Balanced mounted mode s (none, h) = refl
  open_parsed-Balanced mounted mode s (some root, h) =
      open_root-Balanced mounted mode root.drive_no root.parts (with_heap h s)

  -- Over a file system whose successful open leaves one file more open, whose failed open none, and
  -- whose close one less, and however it and the allocations answer: an open that fails leaves the
  -- table of descriptors, the number of allocations and the number of open files as they were; an
  -- open that succeeds takes the first free slot, returns its number from 1 on, and leaves one
  -- allocation more, the descriptor, and one open file more.
  pub fopen_status-Balanced :
      (mounted : Bool) (filename mode_str : List ℕ) (s : Files P W)
      → Outcome s (fopen_status fs mounted filename mode_str s)
        × Balanced s (fopen_status fs mounted filename mode_str s)
  unfolding fopen_status
  fopen_status-Balanced mounted filename mode_str s = (
    fopen_status-Outcome fs mounted filename mode_str s,
    if-Balanced s (not (is_read (get_mode_by_string mode_str)) && not (validate_path filename)) _ _
        refl (open_parsed-Balanced mounted (get_mode_by_string mode_str) s (parse filename s.heap)),
  )
