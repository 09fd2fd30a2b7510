-- ===== src/Fat16/Update/Tests.antt =====
-- kernel/fs/fat/fat16.c: the clusters of a small file, and one more of them.
use rorth_ox.Prelude.{
  ℕ, ◌+◌, ◌<◌, ◌≡◌, ◌≢◌, refl, ◌∙◌, ap, true, List, [], ◌∷◌, length, get_or, arith,
}
use rorth_ox.Status.{ok}
use rorth_ox.Disk.Streamer.{seek, read}
use rorth_ox.Disk.Ata.{ata_device}
use rorth_ox.Disk.Ata.Emulated.{emulated}
use rorth_ox.Disk.Ata.Served.{ata_media, ata_reads, ata_media-contents, byte_at}
use rorth_ox.Fat16.{cluster_limit, valid_cluster, get_fat_entry}
use rorth_ox.Fat16.Tests.{small_volume, small_disk, small_file}
use rorth_ox.Paths.{Memory, kzalloc}
use rorth_ox.Fat16.Update.{
  collect_chain, collect, settled, load, load_first, load_second, scan_free, allocate,
}
use rorth_ox.Fat16.Update.Allocate.{allocate-IsFree}
use rorth_ox.Fat16.Update.Free.{IsFree}
use rorth_ox.Fat16.Update.Growth.{allocate-collect_chain}
use rorth_ox.Fat16.Update.Enough.{free_count, Succeeds, allocate-enough}

abbrev one_granted : Memory
one_granted = record { outcomes = true ∷ []; live = 7 }

small_file-collected :
    (collect_chain (ata_device emulated) small_volume 6 small_file.item small_disk one_granted).0
    ≡ ok (2 ∷ 5 ∷ [])
unfolding collect_chain collect settled get_fat_entry valid_cluster cluster_limit seek read
    ata_device emulated kzalloc
small_file-collected = refl

-- One more cluster, on the device as the chain's walk leaves it.
small_file-allocated :
    (allocate
      (ata_device emulated)
      small_volume
      6
      (collect_chain (ata_device emulated) small_volume 6 small_file.item small_disk one_granted).1
      2
      3).0
    ≡ ok (3 ∷ [])
unfolding collect_chain collect settled get_fat_entry valid_cluster cluster_limit seek read kzalloc
    allocate scan_free load load_first load_second ata_device emulated
small_file-allocated = refl

small_disk-free : free_count small_volume (byte_at small_disk.1.words) 5 2 ≡ 3
unfolding free_count byte_at
small_disk-free = refl

allocate-IsFree_example :
    ((chain : List ℕ)
      → (allocate (ata_device emulated) small_volume 6 small_disk 2 3).0 ≡ ok chain
      → (2 + length chain ≡ 3) × IsFree small_volume (ata_media.contents small_disk) 2 7 chain)
    × (ata_media.contents (allocate (ata_device emulated) small_volume 6 small_disk 2 3).1
        ≡ ata_media.contents small_disk)
allocate-IsFree_example =
    allocate-IsFree (ata_device emulated) ata_media small_volume 6 small_disk 2 3

allocate-collect_chain_example :
    (2 + 1 ≡ 3)
    × ((i j : ℕ) → i < 2 → j < 1 → ◌≢◌ {A = ℕ} (get_or (2 ∷ 5 ∷ []) i 0) (get_or (3 ∷ []) j 0))
allocate-collect_chain_example =
    allocate-collect_chain (ata_device emulated) ata_media small_volume (omega arith) 6
      small_file.item small_disk one_granted 3 (2 ∷ 5 ∷ []) (3 ∷ []) small_file-collected
      small_file-allocated

allocate-enough_example :
    Succeeds
      (ata_device emulated)
      ata_media
      small_volume
      (omega arith)
      (omega arith)
      ata_reads
      (allocate (ata_device emulated) small_volume 6 small_disk 2 3).0
allocate-enough_example =
    allocate-enough (ata_device emulated) ata_media small_volume (omega arith) (omega arith)
      ata_reads 6 small_disk 2 3 (omega arith) (omega arith) (omega arith)
      (omega (
        arith,
        ap (λ c. free_count small_volume c 5 2) (ata_media-contents small_disk) ∙ small_disk-free,
      ))
