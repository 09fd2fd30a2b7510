-- ===== src/Disk.antt =====
-- The interface between the disk of kernel/disk/disk.c and its clients: one sector at a time, as
-- the streamer asks for it. The device's own state, with the drive behind the ports, is `D`.
pub mod Streamer
pub mod Ata
use rorth_ox.Prelude.{
  false, ℕ, ◌+◌, ◌-◌, ◌*◌, ◌≤◌, ◌<◌, ◌≡◌, ◌&&◌, List, ltb, leb, if◌then◌else◌, length, get_or,
}
use rorth_ox.Status.{Result, ok}

-- RORTHOX_SECTOR_SIZE
abbrev pub sector_size : ℕ
sector_size = 512

-- `disk_read_block` and `disk_write_block` with a total of 1, and `disk_flush`.
pub record BlockDevice (D : Type 0) : Type 0 where
  pub read_block : D → ℕ → Result (List ℕ) × D
  pub write_block : D → ℕ → List ℕ → Result ℕ × D
  pub flush : D → Result ℕ × D

-- What they promise of the bytes on the disk: a read that succeeds hands out the sector and no read
-- changes it; a write of bytes that succeeds replaces the sector, and none reaches past it; a flush
-- changes nothing. Disk.Ata.Served shows it of the ATA driver over a drive.
pub record Media {D : Type 0} (dev : BlockDevice D) : Type 0 where
  pub contents : D → ℕ → ℕ
  pub read_length :
      (d : D) (n : ℕ) (buf : List ℕ) → (dev.read_block d n).0 ≡ ok buf → length buf ≡ sector_size
  pub read_bytes :
      (d : D) (n i : ℕ) (buf : List ℕ) → (dev.read_block d n).0 ≡ ok buf → get_or buf i 0 < 256
  pub read_holds :
      (d : D) (n i : ℕ) (buf : List ℕ)
      → (dev.read_block d n).0 ≡ ok buf
      → i < sector_size
      → get_or buf i 0 ≡ contents d (n * sector_size + i)
  pub read_keeps : (d : D) (n j : ℕ) → contents (dev.read_block d n).1 j ≡ contents d j
  pub write_holds :
      (d : D) (n i r : ℕ) (sector : List ℕ)
      → (dev.write_block d n sector).0 ≡ ok r
      → length sector ≡ sector_size
      → ((k : ℕ) → get_or sector k 0 < 256)
      → i < sector_size
      → contents (dev.write_block d n sector).1 (n * sector_size + i) ≡ get_or sector i 0
  pub write_keeps :
      (d : D) (n j : ℕ) (sector : List ℕ)
      → (leb (n * sector_size) j && ltb j (n * sector_size + sector_size)) ≡ false
      → contents (dev.write_block d n sector).1 j ≡ contents d j
  pub flush_keeps : (d : D) (j : ℕ) → contents (dev.flush d).1 j ≡ contents d j
