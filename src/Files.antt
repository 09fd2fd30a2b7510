-- ===== src/Files.antt =====
-- kernel/fs/file.c: paths, the table of file descriptors and the calls on an open file. The file
-- system of the disk is a record of operations on a state `W`, which holds the disk, the file
-- system's own memory and the buffers, so that a buffer is an address, and 0 is NULL.
pub mod Grammar
pub mod Rounds
pub mod Names
pub mod Descriptors
pub mod Opening
pub mod Balance
pub mod Checked
mod Tests
use rorth_ox.Prelude.{
  ℕ, zero, suc, ◌+◌, ◌-◌, ◌%◌, ◌^◌, Bool, true, false, not, ◌&&◌, ◌||◌, Option, none, some, List,
  [], ◌∷◌, ltb, leb, ◌==◌, if◌then◌else◌, get_or, set, drop, ℤ, pos, negsuc,
}
use rorth_ox.Status.{Result, ok, err, Errno}
use rorth_ox.Strings.{strnlen, strncmp}
use rorth_ox.Paths.{max_path, Memory, kzalloc, kfree, PathRoot, parse, free_root}

-- RORTHOX_MAX_FILE_DESCRIPTORS
abbrev pub max_descriptors : ℕ
max_descriptors = 512

pub data Mode : Type 0 where
  read write append invalid : Mode

pub is_zero : ℤ → Bool
is_zero (pos n) = n == 0
is_zero (negsuc n) = false

pub get_mode_by_string : List ℕ → Mode
unfolding is_zero strncmp
get_mode_by_string str =
    if is_zero (strncmp str (b'r' ∷ []) 1)
    then Mode.read
    else if is_zero (strncmp str (b'w' ∷ []) 1)
    then Mode.write
    else if is_zero (strncmp str (b'a' ∷ []) 1)
    then Mode.append
    else Mode.invalid

-- The string that `bad` points to.
abbrev pub bad_characters : List ℕ
bad_characters =
    0x22 ∷ b'*' ∷ b'+' ∷ b',' ∷ b':' ∷ b';' ∷ b'<' ∷ b'=' ∷ b'>' ∷ b'?' ∷ b'[' ∷ 0x5C ∷ b']' ∷ b'|'
    ∷ []

pub is_bad : ℕ → List ℕ → Bool
is_bad c [] = false
is_bad c (b ∷ bad) = let rest = is_bad c bad in if c == b then true else rest

-- What a name may not end with: no base, or a dot without an extension.
pub bad_end : ℕ → ℕ → Bool → Bool
bad_end base ext dot = (base == 0) || (dot && ext == 0)

pub at_end : List ℕ → Bool
at_end [] = true
at_end (c ∷ path) = c == 0

-- The two loops of `file_validate_path` at a byte, with the counts of the name that it is in.
pub validate_from : ℕ → ℕ → Bool → List ℕ → Bool
unfolding is_bad bad_end at_end
validate_from base ext dot [] = not (bad_end base ext dot)
validate_from base ext dot (c ∷ path) =
    let next_name = validate_from 0 0 false path in
    let dotted = validate_from base ext true path in
    let in_base = validate_from (base + 1) ext false path in
    let in_ext = validate_from base (ext + 1) true path in
    if c == 0
    then not (bad_end base ext dot)
    else if c == b'/'
    then not (bad_end base ext dot) && not (at_end path) && next_name
    else if c == b'.'
    then not (dot || base == 0) && dotted
    else if leb c 0x20 || leb 0x7F c || is_bad c bad_characters
    then false
    else if dot
    then leb (ext + 1) 3 && in_ext
    else leb (base + 1) 8 && in_base

pub validate_path : List ℕ → Bool
unfolding validate_from is_zero strncmp
validate_path filename =
    if leb max_path (strnlen filename max_path)
      || not (is_zero (strncmp filename (b'0' ∷ b':' ∷ b'/' ∷ []) 3))
    then false
    else validate_from 0 0 false (drop 3 filename)

pub record FileSystem (P W : Type 0) : Type 0 where
  -- The private pointer of a zeroed descriptor.
  pub null : P
  pub fs_open : W → List (List ℕ) → Mode → Result P × W
  pub fs_read : W → P → ℕ → ℕ → ℕ → Result ℕ × W
  pub fs_seek : W → P → ℕ → ℕ → Result ℕ × W
  pub fs_stat : W → P → ℕ → Result ℕ × W
  pub fs_close : W → P → Result ℕ × W
  pub read_bytes : Option (W → P → ℕ → ℕ → Result ℕ × W)
  pub write_bytes : Option (W → P → ℕ → ℕ → Result ℕ × W)
  pub seek_signed : Option (W → P → ℤ → ℕ → Result ℕ × W)

pub record Descriptor (P : Type 0) : Type 0 where
  pub index : ℕ
  pub private : P

pub record Files (P W : Type 0) : Type 0 where
  pub table : List (Option (Descriptor P))
  pub heap : Memory
  pub store : W

-- The loop of `file_new_descriptor`: the first slot that is 0.
pub free_slot {ℓ} : {A : Type ℓ} → ℕ → List (Option A) → Option ℕ
free_slot i [] = none
free_slot i (none ∷ table) = some i
free_slot i (some d ∷ table) = free_slot (i + 1) table

-- The `uint32_t` that an `int` becomes.
pub to_u32 : ℤ → ℕ
to_u32 (pos n) = n % 2 ^ 32
to_u32 (negsuc n) = 2 ^ 32 - 1 - n % 2 ^ 32

pub get_descriptor : {P : Type 0} → List (Option (Descriptor P)) → ℤ → Option (Descriptor P)
get_descriptor table (negsuc n) = none
get_descriptor table (pos fd) =
    if fd == 0 || ltb max_descriptors fd then none else get_or table (fd - 1) none

module _ {P W : Type 0} where
  pub free_descriptor : ℕ → Files P W → Files P W
  unfolding kfree
  free_descriptor index s = record {
    table = set s.table (index - 1) none;
    heap = kfree s.heap;
    store = s.store;
  }

  abbrev pub put_descriptor : ℕ → P → Files P W → Files P W
  put_descriptor index p s = record {
    table = set s.table (index - 1) (some (record { index = index; private = p }));
    heap = s.heap;
    store = s.store;
  }

  abbrev pub with_heap : Memory → Files P W → Files P W
  with_heap h s = record { table = s.table; heap = h; store = s.store }

  abbrev pub with_store : W → Files P W → Files P W
  with_store w s = record { table = s.table; heap = s.heap; store = w }

  pub release_root : PathRoot → Result ℕ × Files P W → Result ℕ × Files P W
  unfolding free_root
  release_root root (r, s) = (r, with_heap (free_root root s.heap) s)

abbrev pub is_read : Mode → Bool
is_read Mode.read = true
is_read Mode.write = false
is_read Mode.append = false
is_read Mode.invalid = false

abbrev pub mode_string : Mode → List ℕ
mode_string Mode.read = b'r' ∷ []
mode_string Mode.write = b'w' ∷ []
mode_string Mode.append = b'a' ∷ []
mode_string Mode.invalid = []

abbrev pub is_invalid : Mode → Bool
is_invalid Mode.read = false
is_invalid Mode.write = false
is_invalid Mode.append = false
is_invalid Mode.invalid = true

module _ {P W : Type 0} (fs : FileSystem P W) where
  -- The slot that is found, for a descriptor that kzalloc gave or not.
  pub fill_slot : Option ℕ → Bool × Memory → Files P W → Result ℕ × Files P W
  fill_slot none got s = (err Errno.enomem, s)
  fill_slot (some i) (false, h) s = (err Errno.enomem, with_heap h s)
  fill_slot (some i) (true, h) s = (ok (i + 1), put_descriptor (i + 1) fs.null (with_heap h s))

  pub new_descriptor : Files P W → Result ℕ × Files P W
  unfolding free_slot kzalloc fill_slot
  new_descriptor s = fill_slot (free_slot 0 s.table) (kzalloc s.heap) s

  -- The descriptor of a file that is open already, with its private pointer.
  pub keep_open : P → Result ℕ × Files P W → Result ℕ × Files P W
  keep_open p (err e, s) = (err e, with_store (fs.fs_close s.store p).1 s)
  keep_open p (ok index, s) = (ok index, put_descriptor index p s)

  -- `fopen_status` from the open of a file that is read on: the descriptor comes after it.
  pub finish_read : Result P × W → Files P W → Result ℕ × Files P W
  unfolding new_descriptor keep_open
  finish_read (err e, w) s = (err e, with_store w s)
  finish_read (ok p, w) s = keep_open p (new_descriptor (with_store w s))

  -- The same for a file that is written, which has its descriptor `index` before the open.
  pub finish_write : ℕ → Result P × W → Files P W → Result ℕ × Files P W
  unfolding free_descriptor
  finish_write index (err e, w) s = (err e, free_descriptor index (with_store w s))
  finish_write index (ok p, w) s = (ok index, put_descriptor index p (with_store w s))

  pub start_write : Result ℕ × Files P W → List (List ℕ) → Mode → Result ℕ × Files P W
  unfolding finish_write
  start_write (err e, s) parts mode = (err e, s)
  start_write (ok index, s) parts mode = finish_write index (fs.fs_open s.store parts mode) s

  pub open_parts : Mode → List (List ℕ) → Files P W → Result ℕ × Files P W
  unfolding new_descriptor start_write finish_read
  open_parts Mode.invalid parts s = (err Errno.einvarg, s)
  open_parts Mode.read parts s = finish_read (fs.fs_open s.store parts Mode.read) s
  open_parts Mode.write parts s = start_write (new_descriptor s) parts Mode.write
  open_parts Mode.append parts s = start_write (new_descriptor s) parts Mode.append

  -- The checks of the root, in their order; `mounted` is that the disk has a file system.
  pub open_root : Bool → Mode → ℕ → List (List ℕ) → Files P W → Result ℕ × Files P W
  unfolding open_parts
  open_root mounted mode drive [] s = (err Errno.einvarg, s)
  open_root mounted mode drive (name ∷ parts) s =
      if not (drive == 0)
      then (err Errno.eio, s)
      else if not mounted
      then (err Errno.eio, s)
      else open_parts mode (name ∷ parts) s

  pub open_parsed : Bool → Mode → Option PathRoot × Memory → Files P W → Result ℕ × Files P W
  unfolding open_root release_root
  open_parsed mounted mode (none, h) s = (err Errno.einvarg, with_heap h s)
  open_parsed mounted mode (some root, h) s =
      release_root root (open_root mounted mode root.drive_no root.parts (with_heap h s))

  pub fopen_status : Bool → List ℕ → List ℕ → Files P W → Result ℕ × Files P W
  unfolding get_mode_by_string validate_path parse open_parsed
  fopen_status mounted filename mode_str s =
      if not (is_read (get_mode_by_string mode_str)) && not (validate_path filename)
      then (err Errno.einvarg, s)
      else open_parsed mounted (get_mode_by_string mode_str) (parse filename s.heap) s

  pub fopen : Bool → List ℕ → List ℕ → Files P W → ℕ × Files P W
  unfolding fopen_status
  fopen mounted filename mode_str s =
      let r = fopen_status mounted filename mode_str s in (elim r.0 [ err e ↦ 0 | ok fd ↦ fd ], r.1)

  abbrev run : (W → P → Result ℕ × W) → P → Files P W → Result ℕ × Files P W
  run f p s = ((f s.store p).0, with_store (f s.store p).1 s)

  -- A call on the descriptor, or the error where there is none.
  abbrev on_descriptor :
      Errno → Option (Descriptor P) → (W → P → Result ℕ × W) → Files P W → Result ℕ × Files P W
  on_descriptor missing none f s = (err missing, s)
  on_descriptor missing (some d) f s = run f d.private s

  pub fstat : ℤ → ℕ → Files P W → Result ℕ × Files P W
  unfolding get_descriptor
  fstat fd stat s =
      on_descriptor Errno.eio (get_descriptor s.table fd) (λ w p. fs.fs_stat w p stat) s

  pub fseek : ℤ → ℤ → ℕ → Files P W → Result ℕ × Files P W
  unfolding get_descriptor to_u32
  fseek fd offset whence s =
      on_descriptor Errno.eio (get_descriptor s.table fd)
        (λ w p. fs.fs_seek w p (to_u32 offset) whence) s

  pub fread : ℕ → ℕ → ℕ → ℤ → Files P W → Result ℕ × Files P W
  unfolding get_descriptor
  fread ptr size nmemb fd s =
      if size == 0 || nmemb == 0
      then (err Errno.einvarg, s)
      else on_descriptor Errno.einvarg (get_descriptor s.table fd)
          (λ w p. fs.fs_read w p size nmemb ptr) s

  -- A success of the file system is its 0.
  pub close_found : Option (Descriptor P) → Files P W → Result ℕ × Files P W
  unfolding free_descriptor
  close_found none s = (err Errno.eio, s)
  close_found (some d) s =
      let closed = fs.fs_close s.store d.private in
      elim closed.0 [
        | err e ↦ (err e, with_store closed.1 s)
        | ok r ↦
            if r == 0
            then (ok 0, free_descriptor d.index (with_store closed.1 s))
            else (ok r, with_store closed.1 s)
      ]

  pub fclose : ℤ → Files P W → Result ℕ × Files P W
  unfolding get_descriptor close_found
  fclose fd s = close_found (get_descriptor s.table fd) s

  -- The checked transfer of `file_read` and `file_write`.
  pub transfer :
      Option (W → P → ℕ → ℕ → Result ℕ × W)
      → Option (Descriptor P)
      → ℕ
      → ℕ
      → Files P W
      → Result ℕ × Files P W
  transfer none d buffer count s = (err Errno.ebadf, s)
  transfer (some f) none buffer count s = (err Errno.ebadf, s)
  transfer (some f) (some d) buffer count s =
      if ltb 0x7FFFFFFF count || (not (count == 0) && buffer == 0)
      then (err Errno.einvarg, s)
      else run (λ w p. f w p buffer count) d.private s

  pub file_read : ℤ → ℕ → ℕ → Files P W → Result ℕ × Files P W
  unfolding get_descriptor transfer
  file_read fd buffer count s = transfer fs.read_bytes (get_descriptor s.table fd) buffer count s

  pub file_write : ℤ → ℕ → ℕ → Files P W → Result ℕ × Files P W
  unfolding get_descriptor transfer
  file_write fd buffer count s = transfer fs.write_bytes (get_descriptor s.table fd) buffer count s

  pub seek_found :
      Option (W → P → ℤ → ℕ → Result ℕ × W)
      → Option (Descriptor P)
      → ℤ
      → ℕ
      → Files P W
      → Result ℕ × Files P W
  seek_found none d offset whence s = (err Errno.ebadf, s)
  seek_found (some f) none offset whence s = (err Errno.ebadf, s)
  seek_found (some f) (some d) offset whence s = run (λ w p. f w p offset whence) d.private s

  pub file_seek : ℤ → ℤ → ℕ → Files P W → Result ℕ × Files P W
  unfolding get_descriptor seek_found
  file_seek fd offset whence s =
      seek_found fs.seek_signed (get_descriptor s.table fd) offset whence s

  -- The test of a new descriptor with `fstat`, into the local `stat`.
  pub check_opened : ℕ → Result ℕ × Files P W → Result ℕ × Files P W
  unfolding fstat fclose
  check_opened stat (err e, s) = (err e, s)
  check_opened stat (ok fd, s) =
      let got = fstat (pos fd) stat s in
      elim got.0 [ err e ↦ (err e, (fclose (pos fd) got.1).1) | ok r ↦ (ok fd, got.1) ]

  unfoldable pub file_open : Bool → List ℕ → Mode → ℕ → Files P W → Result ℕ × Files P W
  unfolding validate_path fopen_status check_opened
  file_open mounted filename mode stat s =
      if is_invalid mode || not (validate_path filename)
      then (err Errno.einvarg, s)
      else check_opened stat (fopen_status mounted filename (mode_string mode) s)
