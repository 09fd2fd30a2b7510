-- ===== src/Fat16/Update/Entries/Tests.antt =====
-- kernel/fs/fat/fat16.c: the release of the clusters of a small file.
use rorth_ox.Prelude.{
  ℕ, zero, suc, ◌<◌, ◌≡◌, refl, false, ◌||◌, [], ◌∷◌, if◌then◌else◌, get_or, arith,
}
use rorth_ox.Status.{ok}
use rorth_ox.Disk.Streamer.{seek, write}
use rorth_ox.Disk.Ata.{Disk, ata_device}
use rorth_ox.Disk.Ata.Emulated.{Drive, emulated}
use rorth_ox.Disk.Ata.Served.{ata_media}
use rorth_ox.Fat16.Tests.{small_volume, small_disk}
use rorth_ox.Fat16.Update.Entries.{
  Store, write_at, fat16_flush, fat16_set_entry, clear_entries, clear_copy, release_chain,
}
use rorth_ox.Fat16.Update.Entries.Cleared.{in_entries, release_chain_lem}

abbrev small_store : Store (Disk × Drive)
small_store = record { device = small_disk; mutation_disabled = false }

small_store-released :
    (release_chain (ata_device emulated) small_volume small_store (2 ∷ 5 ∷ [])).0 ≡ ok 0
unfolding release_chain clear_copy clear_entries fat16_set_entry write_at fat16_flush seek write
    ata_device emulated
small_store-released = refl

small_chain-IsSmall : (i : ℕ) → i < 2 → get_or (2 ∷ 5 ∷ []) i 0 < 0x10000
small_chain-IsSmall zero h = omega arith
small_chain-IsSmall (suc zero) h = omega arith
small_chain-IsSmall (suc (suc i)) h = absurd (omega arith)

release_chain_lem_example :
    ata_media.contents
      (release_chain (ata_device emulated) small_volume small_store (2 ∷ 5 ∷ [])).1.device
      516
    ≡ (if in_entries small_volume 0 (2 ∷ 5 ∷ []) 516 || in_entries small_volume 1 (2 ∷ 5 ∷ []) 516
        then 0
        else ata_media.contents small_disk 516)
release_chain_lem_example =
    release_chain_lem (ata_device emulated) ata_media small_volume (omega arith) (omega arith) 0
      (2 ∷ 5 ∷ []) small_store small_chain-IsSmall small_store-released 516
