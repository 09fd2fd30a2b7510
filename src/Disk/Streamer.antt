-- ===== src/Disk/Streamer.antt =====
-- kernel/disk/streamer.c: reads and writes at any byte of a disk. The position is never negative:
-- seek refuses such a one, and read and write add to it within an int.
pub mod Read
pub mod Write
pub mod Success
mod Tests
use rorth_ox.Prelude.{
  ℕ, zero, suc, ◌+◌, ◌-◌, ◌/◌, ◌%◌, ◌^◌, Bool, true, false, not, ◌&&◌, ◌||◌, List, [], ◌∷◌, ◌++◌,
  ltb, ◌==◌, if◌then◌else◌, length, set, take, drop, min, ℤ, pos, negsuc,
}
use rorth_ox.Status.{Result, ok, err, Errno}
use rorth_ox.Disk.{BlockDevice, sector_size}

abbrev pub int_max : ℕ
int_max = 2 ^ 31 - 1

-- How many of `total` bytes the sector holds from the position on.
abbrev pub chunk : ℕ → ℕ → ℕ
chunk position total = min (sector_size - position % sector_size) total

-- The result of `diskstreamer_seek` and the position after it.
unfoldable pub seek : ℕ → ℤ → Result ℕ × ℕ
seek position (negsuc n) = (err Errno.einvarg, position)
seek position (pos n) = (ok 0, n)

-- What a read leaves: the result, the bytes stored at `out`, the position and the device.
pub record Done (D : Type 0) : Type 0 where
  pub result : Result ℕ
  pub bytes : List ℕ
  pub position : ℕ
  pub device : D

-- `buf[offset + i] = in[i]` for each byte of `in`
pub patch : List ℕ → ℕ → List ℕ → List ℕ
patch buf offset [] = buf
patch buf offset (c ∷ in_bytes) = patch (set buf offset c) (offset + 1) in_bytes

module _ {D : Type 0} (dev : BlockDevice D) where
  -- The `while` loop of `diskstreamer_read`; a round takes one byte or more, so `total` rounds do.
  pub read_loop : ℕ → D → ℕ → ℕ → Done D
  read_loop zero d position total = record {
    result = ok 0;
    bytes = [];
    position = position;
    device = d;
  }
  read_loop (suc rounds) d position total = elim (total == 0) [
    | true ↦ record { result = ok 0; bytes = []; position = position; device = d }
    | false ↦ elim (dev.read_block d (position / sector_size)).0 [
      | err e ↦ record {
        result = err e;
        bytes = [];
        position = position;
        device = (dev.read_block d (position / sector_size)).1;
      }
      | ok buf ↦
          let n = chunk position total in
          let rest =
            read_loop rounds (dev.read_block d (position / sector_size)).1 (position + n)
              (total - n) in
          record {
            result = rest.result;
            bytes = take n (drop (position % sector_size) buf) ++ rest.bytes;
            position = rest.position;
            device = rest.device;
          }
    ]
  ]

  unfoldable pub read : D → ℕ → ℤ → Done D
  unfolding read_loop
  read d position (negsuc n) = record {
    result = err Errno.einvarg;
    bytes = [];
    position = position;
    device = d;
  }
  read d position (pos total) =
      if ltb (int_max - position) total
      then record { result = err Errno.einvarg; bytes = []; position = position; device = d }
      else read_loop total d position total

  -- The sector that the round writes: one that is covered in part is read first.
  pub sector_data : D → ℕ → ℕ → List ℕ → Result (List ℕ) × D
  unfolding patch
  sector_data d position n in_bytes =
      if not (position % sector_size == 0) || not (n == sector_size)
      then elim (dev.read_block d (position / sector_size)).0 [
        | err e ↦ (err e, (dev.read_block d (position / sector_size)).1)
        | ok buf ↦ (
          ok (patch buf (position % sector_size) (take n in_bytes)),
          (dev.read_block d (position / sector_size)).1,
        )
      ]
      else (ok (take n in_bytes), d)

  -- The `while` loop of `diskstreamer_write` over the bytes that are left.
  pub write_loop : ℕ → D → ℕ → List ℕ → Result ℕ × ℕ × D
  unfolding sector_data
  write_loop zero d position in_bytes = (ok 0, position, d)
  write_loop (suc rounds) d position [] = (ok 0, position, d)
  write_loop (suc rounds) d position (c ∷ in_bytes) =
      let n = chunk position (length (c ∷ in_bytes)) in
      let staged = sector_data d position n (c ∷ in_bytes) in
      elim staged.0 [
        | err e ↦ (err e, position, staged.1)
        | ok bytes ↦ elim (dev.write_block staged.1 (position / sector_size) bytes).0 [
          | err e ↦ (err e, position, (dev.write_block staged.1 (position / sector_size) bytes).1)
          | ok r ↦
              write_loop rounds (dev.write_block staged.1 (position / sector_size) bytes).1
                (position + n) (drop n (c ∷ in_bytes))
        ]
      ]

  -- The first `total` bytes of a buffer that is not null.
  unfoldable pub write : D → ℕ → List ℕ → ℤ → Result ℕ × ℕ × D
  unfolding write_loop
  write d position buffer (negsuc n) = (err Errno.einvarg, position, d)
  write d position buffer (pos total) =
      if ltb (int_max - position) total
      then (err Errno.einvarg, position, d)
      else write_loop total d position (take total buffer)
