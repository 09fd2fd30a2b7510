-- ===== src/Fat16/Tests.antt =====
-- kernel/fs/fat/fat16.c: a small volume with a file of two clusters.
use rorth_ox.Prelude.{
  ℕ, zero, suc, ◌+◌, ◌*◌, ◌≤◌, ◌<◌, ◌≡◌, refl, ◌∙◌, ap, true, false, [], ltb, ◌==◌, if◌then◌else◌,
  arith,
}
use rorth_ox.Status.{ok}
use rorth_ox.Disk.{sector_size}
use rorth_ox.Disk.Streamer.{int_max}
use rorth_ox.Disk.Ata.{Disk, ata_device}
use rorth_ox.Disk.Ata.Emulated.{Drive, emulated, idle}
use rorth_ox.Disk.Ata.Served.{ata_media, ata_reads, ata_media-contents, byte_at}
use rorth_ox.Files.{Mode}
use rorth_ox.Fat16.{
  Volume, cluster_limit, valid_cluster, cluster_to_sector, cluster_bytes, read_internal,
}
use rorth_ox.Fat16.Geometry.{nth_cluster}
use rorth_ox.Fat16.Complete.{IsChain, read_internal-ok}
use rorth_ox.Fat16.Descriptor.{File}

-- 4090 clusters of one sector each.
abbrev pub small_volume : Volume
small_volume = record {
  bytes_per_sector = 512;
  sectors_per_cluster = 1;
  reserved_sectors = 1;
  fat_copies = 2;
  root_dir_entries = 16;
  number_of_sectors = 4126;
  sectors_per_fat = 17;
  hidden_sectors = 0;
  sectors_big = 0;
  root_sector = 35;
  data_sector = 36;
}

-- Cluster 2 leads on to 5, and 5 ends the chain; the other clusters are free.
abbrev small_words : ℕ → ℕ
small_words k = if k == 258 then 5 else if k == 261 then 0xFFFF else if ltb k 9216 then 0 else k

abbrev pub small_disk : Disk × Drive
small_disk = (
  record { write_checked = true; write_status = ok 0; write_sectors = 0x10000 },
  record {
    words = small_words;
    low = 0;
    mid = 0;
    high = 0;
    head = 0;
    next = 0;
    identifying = false;
    phase = idle;
  },
)

abbrev pub small_file : File
small_file = record {
  is_file = true;
  item = record {
    filename = [];
    ext = [];
    attribute = 0;
    creation_date = 0;
    last_access = 0;
    high_first_cluster = 0;
    last_mod_time = 0;
    last_mod_date = 0;
    low_first_cluster = 2;
    filesize = 600;
  };
  position = 500;
  mode = Mode.read;
}

small_volume-limit : cluster_limit small_volume ≡ 4091
unfolding cluster_limit
small_volume-limit = refl

small_volume-room :
    (c : ℕ)
    → valid_cluster small_volume c ≡ true
    → cluster_to_sector small_volume c * sector_size + cluster_bytes small_volume ≤ int_max
unfolding valid_cluster cluster_to_sector cluster_limit
small_volume-room c h = ground arith

small_chain :
    (k : ℕ)
    → k * cluster_bytes small_volume < 520
    → valid_cluster small_volume (nth_cluster small_volume (byte_at small_words) k 2) ≡ true
unfolding valid_cluster cluster_limit nth_cluster byte_at
small_chain zero h = refl
small_chain (suc zero) h = refl
small_chain (suc (suc k)) h = absurd (omega arith)

small_file-IsChain :
    IsChain (ata_device emulated) ata_media small_volume (omega arith) ata_reads small_disk 2 500 20
small_file-IsChain k h =
    ap (λ c. valid_cluster small_volume (nth_cluster small_volume c k 2))
      (ata_media-contents small_disk)
    ∙ small_chain k (omega arith)

read_internal-ok_example :
    (read_internal (ata_device emulated) small_volume small_disk 2 500 20).0 ≡ ok 0
unfolding cluster_limit
read_internal-ok_example =
    read_internal-ok (ata_device emulated) ata_media small_volume (omega arith) ata_reads
      small_volume-room small_disk 2 500 20 (omega arith) (omega arith) (omega arith) (omega arith)
      small_file-IsChain
