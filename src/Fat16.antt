-- ===== src/Fat16.antt =====
-- kernel/fs/fat/fat16.c: the geometry of a volume, the table of clusters and the reads of a file,
-- over the streams of Disk.Streamer. Each access seeks first, so the position that another one
-- left in a stream has no part in it.
pub mod Geometry
pub mod Chains
pub mod Reading
pub mod Complete
pub mod Descriptor
pub mod Update
mod Tests
use rorth_ox.Prelude.{
  ℕ, zero, suc, ◌+◌, ◌-◌, ◌*◌, ◌/◌, ◌%◌, Bool, true, false, not, ◌&&◌, ◌||◌, List, [], ◌∷◌, ◌++◌,
  ltb, leb, ◌==◌, if◌then◌else◌, get_or, min, pos,
}
use rorth_ox.Status.{Result, ok, err, Errno}
use rorth_ox.Disk.{BlockDevice, sector_size}
use rorth_ox.Disk.Streamer.{Done, seek, read, int_max}

-- RORTHOX_FAT16_BAD_SECTOR and RORTHOX_FAT16_EOC_START
abbrev pub bad_sector : ℕ
bad_sector = 0xFFF7

abbrev pub end_of_chain : ℕ
end_of_chain = 0xFFF8

-- The header of the volume, as far as the file system reads it, with the first sector of the root
-- directory and the first sector behind it.
pub record Volume : Type 0 where
  pub bytes_per_sector : ℕ
  pub sectors_per_cluster : ℕ
  pub reserved_sectors : ℕ
  pub fat_copies : ℕ
  pub root_dir_entries : ℕ
  pub number_of_sectors : ℕ
  pub sectors_per_fat : ℕ
  pub hidden_sectors : ℕ
  pub sectors_big : ℕ
  pub root_sector : ℕ
  pub data_sector : ℕ

abbrev pub total_sectors : Volume → ℕ
total_sectors v = if v.number_of_sectors == 0 then v.sectors_big else v.number_of_sectors

-- The last cluster number, or 0 if the volume is no FAT16 one.
pub cluster_limit : Volume → ℕ
cluster_limit v =
    if v.sectors_per_cluster == 0 || leb (total_sectors v) v.data_sector
    then 0
    else let count = (total_sectors v - v.data_sector) / v.sectors_per_cluster in
      let entries = v.sectors_per_fat * sector_size / 2 in
      if ltb count 4085 || leb 65525 count || ltb entries (count + 2) then 0 else count + 1

pub valid_cluster : Volume → ℕ → Bool
unfolding cluster_limit
valid_cluster v cluster =
    leb 2 cluster
    && leb cluster (cluster_limit v)
    && not (cluster == bad_sector)
    && ltb cluster end_of_chain

pub cluster_to_sector : Volume → ℕ → ℕ
cluster_to_sector v cluster = v.data_sector + (cluster - 2) * v.sectors_per_cluster

-- The bytes of a cluster.
abbrev pub cluster_bytes : Volume → ℕ
cluster_bytes v = v.sectors_per_cluster * sector_size

-- Where the entry of a cluster stands in the first table.
abbrev pub entry_position : Volume → ℕ → ℕ
entry_position v cluster = v.reserved_sectors * sector_size + cluster * 2

module _ {D : Type 0} (dev : BlockDevice D) where
  -- `diskstreamer_seek` and `diskstreamer_read` at a position that is not negative.
  abbrev pub read_at : D → ℕ → ℕ → Done D
  read_at d position total = read dev d (seek 0 (pos position)).1 (pos total)

  -- A `uint16_t` in memory is its low byte and its high byte.
  abbrev pub word_read : Result ℕ → List ℕ → D → Result ℕ × D
  word_read (err e) bytes d = (err e, d)
  word_read (ok n) bytes d = (ok (get_or bytes 0 0 + get_or bytes 1 0 * 256), d)

  pub get_fat_entry : Volume → D → ℕ → Result ℕ × D
  get_fat_entry v d cluster =
      let r = read_at d (entry_position v cluster) 2 in word_read r.result r.bytes r.device

  -- The tests of an entry that a chain goes on with; `too_many` is that its clusters are used up.
  pub checked_next : Volume → Bool → Result ℕ × D → Result ℕ × D
  unfolding valid_cluster
  checked_next v too_many (err e, d) = (err e, d)
  checked_next v too_many (ok next, d) =
      if not (valid_cluster v next) || too_many then (err Errno.eio, d) else (ok next, d)

  -- The loop of `fat16_get_cluster_for_offset` with `ahead` clusters to go.
  pub walk : Volume → ℕ → D → ℕ → Result ℕ × D
  unfolding get_fat_entry checked_next
  walk v zero d cluster = (ok cluster, d)
  walk v (suc ahead) d cluster =
      let entry = checked_next v false (get_fat_entry v d cluster) in
      elim entry.0 [ err e ↦ (err e, entry.1) | ok next ↦ walk v ahead entry.1 next ]

  -- For an offset that is not negative.
  pub get_cluster_for_offset : Volume → D → ℕ → ℕ → Result ℕ × D
  unfolding valid_cluster cluster_limit walk
  get_cluster_for_offset v d starting_cluster offset =
      if cluster_bytes v == 0 || not (valid_cluster v starting_cluster)
      then (err Errno.eio, d)
      else if leb (cluster_limit v - 1) (offset / cluster_bytes v)
      then (err Errno.eio, d)
      else walk v (offset / cluster_bytes v) d starting_cluster

  -- The loop of `fat16_read_internal_from_stream`, from byte `within` of the cluster `current` on;
  -- a round takes a byte or more, so `total` rounds do.
  pub read_clusters : Volume → ℕ → D → ℕ → ℕ → ℕ → ℕ → Result ℕ × List ℕ × D
  unfolding cluster_to_sector get_fat_entry checked_next cluster_limit
  read_clusters v zero d current within traversed total = (ok 0, [], d)
  read_clusters v (suc rounds) d current within traversed total =
      let part = min (cluster_bytes v - within) total in
      let position = cluster_to_sector v current * sector_size + within in
      let r = read_at d position part in
      let entry =
        checked_next v (ltb (cluster_limit v - 1) (traversed + 1))
          (get_fat_entry v r.device current) in
      elim (total == 0) [
        | true ↦ (ok 0, [], d)
        | false ↦ elim (ltb int_max position || ltb (int_max - position) part) [
          | true ↦ (err Errno.eio, [], d)
          | false ↦ elim r.result [
            | err e ↦ (err e, r.bytes, r.device)
            | ok n ↦ elim (total - part == 0) [
              | true ↦ (ok 0, r.bytes, r.device)
              | false ↦ elim entry.0 [
                | err e ↦ (err e, r.bytes, entry.1)
                | ok next ↦
                    let rest =
                      read_clusters v rounds entry.1 next 0 (traversed + 1) (total - part) in
                    (rest.0, r.bytes ++ rest.1, rest.2)
              ]
            ]
          ]
        ]
      ]

  -- `fat16_read_internal` for an offset and a total that are not negative: the result, the bytes
  -- that it stored, and the device.
  pub read_internal : Volume → D → ℕ → ℕ → ℕ → Result ℕ × List ℕ × D
  unfolding get_cluster_for_offset read_clusters
  read_internal v d starting_cluster offset total =
      if ltb (int_max - offset) total || cluster_bytes v == 0
      then (err Errno.eio, [], d)
      else let found = get_cluster_for_offset v d starting_cluster offset in
        elim found.0 [
          | err e ↦ (err e, [], found.1)
          | ok current ↦
              read_clusters v total found.1 current (offset % cluster_bytes v)
                (offset / cluster_bytes v + 1) total
        ]
