-- ===== src/Disk/Ata/RoundTrip.antt =====
-- kernel/disk/disk.c: a sector that the ATA driver wrote to the drive, read back by it.
use rorth_ox.Prelude.{ℕ, ◌<◌, ◌≡◌, true, List, length, get_or}
use rorth_ox.Status.{Result, ok}
use rorth_ox.Disk.{sector_size}
use rorth_ox.Disk.Ata.{Disk, write_block}
use rorth_ox.Disk.Ata.Emulated.{Drive, emulated}

-- A read finds the sector: it succeeds, with the same bytes.
pub record Found (sector : List ℕ) (r : Result (List ℕ)) : Type 0 where
  pub buf : List ℕ
  pub done : r ≡ ok buf
  pub whole : length buf ≡ sector_size
  pub same : (i : ℕ) → i < sector_size → get_or buf i 0 ≡ get_or sector i 0

module _ (disk : Disk) (w : Drive) (n r : ℕ) (sector : List ℕ) where
  abbrev checked_disk : Disk
  checked_disk = (write_block emulated true n 1 sector disk w).1

  abbrev after : Drive
  after = (write_block emulated true n 1 sector disk w).2
