-- ===== src/Fat16/Descriptor.antt =====
-- kernel/fs/fat/fat16.c: the calls on an open file. The item of a descriptor is a directory or the
-- entry of a file; positions and sizes are 32-bit numbers.
pub mod Position
pub mod Items
use rorth_ox.Prelude.{
  ℕ, zero, suc, ◌+◌, ◌-◌, ◌^◌, Bool, true, false, not, ◌&&◌, ◌||◌, List, [], ◌∷◌, ◌++◌, ltb, leb,
  ◌==◌, if◌then◌else◌, min, bit_and, bit_or, ℤ, pos, negsuc, u32,
}
use rorth_ox.Status.{Result, ok, err, Errno}
use rorth_ox.Disk.{BlockDevice}
use rorth_ox.Disk.Streamer.{int_max}
use rorth_ox.Fat16.{Volume, read_internal}
use rorth_ox.Files.{Mode}

-- `struct fat_directory_item` with the fields that are read or set.
pub record Item : Type 0 where
  pub filename : List ℕ
  pub ext : List ℕ
  pub attribute : ℕ
  pub creation_date : ℕ
  pub last_access : ℕ
  pub high_first_cluster : ℕ
  pub last_mod_time : ℕ
  pub last_mod_date : ℕ
  pub low_first_cluster : ℕ
  pub filesize : ℕ

-- `struct fat_file_descriptor` and its item.
pub record File : Type 0 where
  pub is_file : Bool
  pub item : Item
  pub position : ℕ
  pub mode : Mode

abbrev pub at_position : File → ℕ → File
at_position f p = record { is_file = f.is_file; item = f.item; position = p; mode = f.mode }

abbrev pub is_read_mode : Mode → Bool
is_read_mode Mode.read = true
is_read_mode Mode.write = false
is_read_mode Mode.append = false
is_read_mode Mode.invalid = false

-- FAT_FILE_READ_ONLY and FILE_STAT_READ_ONLY are both 1: the size and the flags.
pub fat16_stat : File → Result (ℕ × ℕ)
fat16_stat f =
    if not f.is_file
    then err Errno.einvarg
    else ok (f.item.filesize, if bit_and f.item.attribute 1 == 0 then 0 else 1)

-- SEEK_SET, SEEK_CUR and SEEK_END are 0, 1 and 2.
pub fat16_seek : File → ℕ → ℕ → Result ℕ × File
fat16_seek f offset zero =
    if not f.is_file
    then (err Errno.einvarg, f)
    else if ltb f.item.filesize offset
    then (err Errno.eio, f)
    else (ok 0, at_position f offset)
fat16_seek f offset (suc zero) =
    if not f.is_file
    then (err Errno.einvarg, f)
    else if ltb f.item.filesize f.position || ltb (f.item.filesize - f.position) offset
    then (err Errno.eio, f)
    else (ok 0, at_position f (f.position + offset))
fat16_seek f offset (suc (suc zero)) =
    if not f.is_file then (err Errno.einvarg, f) else (err Errno.eunimp, f)
fat16_seek f offset (suc (suc (suc whence))) = (err Errno.einvarg, f)

-- `base + offset`, negative or not.
pub add_offset : ℕ → ℤ → ℤ
add_offset base (pos n) = pos (base + n)
add_offset base (negsuc n) = if leb (n + 1) base then pos (base - (n + 1)) else negsuc (n - base)

pub move_to : File → ℤ → Result ℕ × File
move_to f (negsuc n) = (err Errno.einvarg, f)
move_to f (pos p) =
    if ltb int_max p || ltb f.item.filesize p
    then (err Errno.einvarg, f)
    else (ok p, at_position f p)

pub fat16_seek_signed : File → ℤ → ℕ → Result ℕ × File
unfolding add_offset move_to
fat16_seek_signed f offset zero =
    if not f.is_file then (err Errno.einvarg, f) else move_to f (add_offset 0 offset)
fat16_seek_signed f offset (suc zero) =
    if not f.is_file then (err Errno.einvarg, f) else move_to f (add_offset f.position offset)
fat16_seek_signed f offset (suc (suc zero)) =
    if not f.is_file then (err Errno.einvarg, f) else move_to f (add_offset f.item.filesize offset)
fat16_seek_signed f offset (suc (suc (suc whence))) = (err Errno.einvarg, f)

module _ {D : Type 0} (dev : BlockDevice D) (v : Volume) where
  -- What a read leaves: its result, the bytes stored, the file and the device.
  abbrev pub Outcome : Type 0
  Outcome = Result ℕ × List ℕ × File × D

  -- The loop of `fat16_read` over the items that are left, with those that were read.
  pub read_items : ℕ → File → D → ℕ → ℕ → Outcome
  read_items zero f d size count = (ok count, [], f, d)
  read_items (suc nmemb) f d size count =
      let left = f.item.filesize - f.position in
      let bytes = min size left in
      let r = read_internal dev v d f.item.low_first_cluster f.position bytes in
      elim (left == 0) [
        | true ↦ (ok count, [], f, d)
        | false ↦ elim (ltb int_max f.position || ltb (int_max - f.position) bytes) [
          | true ↦ (err Errno.eio, [], f, d)
          | false ↦ elim r.0 [
            | err e ↦ (err e, r.1, f, r.2)
            | ok n ↦ elim (bytes == size) [
              | false ↦ (ok count, r.1, at_position f (f.position + bytes), r.2)
              | true ↦
                  let rest =
                    read_items nmemb (at_position f (f.position + bytes)) r.2 size (count + 1) in
                  (rest.0, r.1 ++ rest.1, rest.2, rest.3)
            ]
          ]
        ]
      ]

  pub fat16_read : File → D → ℕ → ℕ → Outcome
  unfolding read_items
  fat16_read f d size nmemb =
      if not f.is_file
      then (err Errno.einvarg, [], f, d)
      else if ltb f.item.filesize f.position
      then (err Errno.eio, [], f, d)
      else read_items nmemb f d size 0

  pub read_some : File → ℕ → Result ℕ × List ℕ × D → Outcome
  read_some f count (err e, bytes, d) = (err e, bytes, f, d)
  read_some f count (ok n, bytes, d) = (ok count, bytes, at_position f (f.position + count), d)

  pub fat16_read_bytes : File → D → ℕ → Outcome
  unfolding read_some
  fat16_read_bytes f d count =
      let some = min count (f.item.filesize - f.position) in
      if not (is_read_mode f.mode)
      then (err Errno.ebadf, [], f, d)
      else if not f.is_file
      then (err Errno.einvarg, [], f, d)
      else if count == 0 || leb f.item.filesize f.position
      then (ok 0, [], f, d)
      else if ltb int_max f.position || ltb (int_max - f.position) some
      then (err Errno.eio, [], f, d)
      else read_some f some (read_internal dev v d f.item.low_first_cluster f.position some)
