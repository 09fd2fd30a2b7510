-- ===== src/Fat16/Update/Entries.antt =====
-- kernel/fs/fat/fat16.c: the writes of table entries, with the flag that stops all changes of a volume
-- after a write or a flush that failed. A `uint16_t` is its low byte and its high byte.
pub mod Cleared
mod Tests
use rorth_ox.Prelude.{
  ℕ, zero, suc, ◌+◌, ◌*◌, ◌/◌, ◌%◌, Bool, true, false, not, ◌&&◌, ◌||◌, List, [], ◌∷◌, ◌==◌,
  if◌then◌else◌, pos,
}
use rorth_ox.Status.{Result, ok, err, Errno, code}
use rorth_ox.Disk.{BlockDevice, sector_size}
use rorth_ox.Disk.Streamer.{seek, write}
use rorth_ox.Fat16.{Volume}

-- The device and `mutation_disabled`.
pub record Store (D : Type 0) : Type 0 where
  pub device : D
  pub mutation_disabled : Bool

module _ {D : Type 0} (dev : BlockDevice D) (v : Volume) where
  -- What `fat16_write_at` makes of a write at `position`.
  abbrev pub written : Bool → ℕ → Result ℕ × ℕ × D → Result ℕ × Store D
  written disabled position (ok n, moved, d) =
      (ok 0, record { device = d; mutation_disabled = disabled })
  written disabled position (err e, moved, d) = (
    err Errno.eio,
    record { device = d; mutation_disabled = disabled || not (code e == 2 && moved == position) },
  )

  pub write_at : Store D → ℕ → List ℕ → ℕ → Result ℕ × Store D
  write_at s position bytes total =
      written s.mutation_disabled position
        (write dev s.device (seek 0 (pos position)).1 bytes (pos total))

  abbrev pub flushed : Bool → Result ℕ × D → Result ℕ × Store D
  flushed disabled (ok n, d) = (ok 0, record { device = d; mutation_disabled = disabled })
  flushed disabled (err e, d) = (err Errno.eio, record { device = d; mutation_disabled = true })

  pub fat16_flush : Store D → Result ℕ × Store D
  fat16_flush s = flushed s.mutation_disabled (dev.flush s.device)

  abbrev pub copy_position : ℕ → ℕ → ℕ
  copy_position copy cluster =
      (v.reserved_sectors + copy * v.sectors_per_fat) * sector_size + cluster * 2

  pub fat16_set_entry : Store D → ℕ → ℕ → ℕ → Result ℕ × Store D
  unfolding write_at
  fat16_set_entry s copy cluster value =
      write_at s (copy_position copy cluster) (value % 256 ∷ value / 256 ∷ []) 2

  -- The inner loop of `fat16_truncate`, over the clusters that are left.
  pub clear_entries : Store D → ℕ → List ℕ → Result ℕ × Store D
  unfolding fat16_set_entry
  clear_entries s copy [] = (ok 0, s)
  clear_entries s copy (cluster ∷ chain) =
      let done = fat16_set_entry s copy cluster 0 in
      elim done.0 [ err e ↦ (err e, done.1) | ok n ↦ clear_entries done.1 copy chain ]

  -- A round of the outer one.
  pub clear_copy : Store D → ℕ → List ℕ → Result ℕ × Store D
  unfolding clear_entries fat16_flush
  clear_copy s copy chain =
      let done = clear_entries s copy chain in
      elim done.0 [ err e ↦ (err e, done.1) | ok n ↦ fat16_flush done.1 ]

  -- The loops of `fat16_truncate` behind the commit of the empty item.
  pub release_chain : Store D → List ℕ → Result ℕ × Store D
  unfolding clear_copy
  release_chain s [] = (ok 0, s)
  release_chain s (cluster ∷ chain) =
      let done = clear_copy s 0 (cluster ∷ chain) in
      elim done.0 [ err e ↦ (err e, done.1) | ok n ↦ clear_copy done.1 1 (cluster ∷ chain) ]
