-- ===== src/Fat16/Update.antt =====
-- kernel/fs/fat/fat16.c: what a change of a file starts with, the clusters that it has and the free
-- ones that it gets. `max_writable` is the last cluster within the drive; the bitmap of the clusters
-- seen is a function. The kernel heap is that of Paths.
pub mod Chain
pub mod Collect
pub mod Free
pub mod Allocate
pub mod Growth
pub mod Enough
pub mod Entries
mod Tests
use rorth_ox.Prelude.{
  ℕ, zero, suc, ◌+◌, ◌-◌, ◌*◌, ◌/◌, ◌%◌, Bool, true, false, not, ◌&&◌, ◌||◌, Option, none, some,
  List, [], ◌∷◌, ltb, leb, ◌==◌, if◌then◌else◌, length, get_or,
}
use rorth_ox.Status.{Result, ok, err, Errno}
use rorth_ox.Disk.{BlockDevice}
use rorth_ox.Disk.Streamer.{int_max}
use rorth_ox.Paths.{Memory, kzalloc, kfree}
use rorth_ox.Fat16.{Volume, end_of_chain, cluster_bytes, valid_cluster, get_fat_entry}
use rorth_ox.Fat16.Descriptor.{Item}

abbrev pub mark_seen : (ℕ → Bool) → ℕ → ℕ → Bool
mark_seen seen cluster n = n == cluster || seen n

-- `filesize / bytes + (filesize % bytes != 0)`
abbrev pub needed_clusters : Volume → ℕ → ℕ
needed_clusters v filesize =
    filesize / cluster_bytes v + (if filesize % cluster_bytes v == 0 then 0 else 1)

abbrev pub more : ℕ → Result (List ℕ) → Result (List ℕ)
more cluster (err e) = err e
more cluster (ok chain) = ok (cluster ∷ chain)

-- Both copies of a sector of the table, as `first` and `second`, and which sector it is.
pub record Tables : Type 0 where
  pub loaded : Option ℕ
  pub first : List ℕ
  pub second : List ℕ

abbrev pub is_loaded : Tables → ℕ → Bool
is_loaded t sector = elim t.loaded [ none ↦ false | some n ↦ n == sector ]

-- `uint16_t first[256]` at an index.
abbrev pub entry_of : List ℕ → ℕ → ℕ
entry_of table i = get_or table (i * 2) 0 + get_or table (i * 2 + 1) 0 * 256

abbrev pub is_free : Tables → ℕ → Bool
is_free t cluster =
    (entry_of t.first (cluster % 256) == 0) && (entry_of t.second (cluster % 256) == 0)

module _ {D : Type 0} (dev : BlockDevice D) (v : Volume) where
  -- The loop of `fat16_collect_chain` with `room` places left in the list: the clusters that it adds.
  pub collect : ℕ → ℕ → (ℕ → Bool) → D → ℕ → Result (List ℕ) × D
  unfolding get_fat_entry valid_cluster
  collect max_writable zero seen d current = if current == 0 then (ok [], d) else (err Errno.eio, d)
  collect max_writable (suc room) seen d current =
      let entry = get_fat_entry dev v d current in
      elim (current == 0) [
        | true ↦ (ok [], d)
        | false ↦ elim (not (valid_cluster v current) || ltb max_writable current || seen current) [
          | true ↦ (err Errno.eio, d)
          | false ↦ elim entry.0 [
            | err e ↦ (err e, entry.1)
            | ok next ↦ elim (leb end_of_chain next) [
              | true ↦ (ok (current ∷ []), entry.1)
              | false ↦ elim (valid_cluster v next) [
                | false ↦ (err Errno.eio, entry.1)
                | true ↦
                    let rest = collect max_writable room (mark_seen seen current) entry.1 next in
                    (more current rest.0, rest.1)
              ]
            ]
          ]
        ]
      ]

  -- What becomes of the list behind the loop: it is freed unless it is handed out.
  pub settled : Bool → ℕ → Result (List ℕ) × D → Memory → Result (List ℕ) × D × Memory
  settled reserved needed (err e, d) h = (err e, d, if reserved then kfree h else h)
  settled reserved needed (ok chain, d) h =
      if ltb (length chain) needed
      then (err Errno.eio, d, if reserved then kfree h else h)
      else (ok chain, d, h)

  pub collect_chain : ℕ → Item → D → Memory → Result (List ℕ) × D × Memory
  unfolding collect settled
  collect_chain max_writable item d h =
      let needed = needed_clusters v item.filesize in
      let got = collect max_writable (max_writable - 1) (λ n. false) d item.low_first_cluster in
      if not (item.high_first_cluster == 0)
      then (err Errno.eio, d, h)
      else if ltb int_max item.filesize
      then (err Errno.efbig, d, h)
      else if leb max_writable 1
      then settled false needed got h
      else if (kzalloc h).0
      then settled true needed got (kzalloc h).1
      else (err Errno.enomem, d, (kzalloc h).1)

  pub checked_length : ℕ → ℕ → Result (List ℕ) × D × Memory → Result ℕ × D × Memory
  checked_length max_writable needed (err e, d, h) = (err e, d, h)
  checked_length max_writable needed (ok chain, d, h) = (
    if length chain == needed then ok 0 else err Errno.eio,
    d,
    if leb max_writable 1 then h else kfree h,
  )

  pub check_file_chain : ℕ → Item → D → Memory → Result ℕ × D × Memory
  unfolding collect_chain checked_length
  check_file_chain max_writable item d h =
      checked_length max_writable (needed_clusters v item.filesize)
        (collect_chain max_writable item d h)

  -- The two reads of a round of `fat16_allocate`.
  pub load_second : ℕ → List ℕ → Result (List ℕ) × D → Result Tables × D
  load_second sector first (err e, d) = (err e, d)
  load_second sector first (ok second, d) =
      (ok (record { loaded = some sector; first = first; second = second }), d)

  pub load_first : ℕ → Result (List ℕ) × D → Result Tables × D
  unfolding load_second
  load_first sector (err e, d) = (err e, d)
  load_first sector (ok first, d) =
      load_second sector first (dev.read_block d (v.reserved_sectors + v.sectors_per_fat + sector))

  pub load : D → Tables → ℕ → Result Tables × D
  unfolding load_first
  load d t sector =
      if is_loaded t sector
      then (ok t, d)
      else load_first sector (dev.read_block d (v.reserved_sectors + sector))

  -- The loop of `fat16_allocate` over the `rounds` clusters from one on: the clusters that it adds.
  pub scan_free : ℕ → D → Tables → ℕ → ℕ → ℕ → Result (List ℕ) × D
  unfolding load
  scan_free zero d t count needed cluster = (if count == needed then ok [] else err Errno.enospc, d)
  scan_free (suc rounds) d t count needed cluster =
      let got = load d t (cluster / 256) in
      elim (ltb count needed) [
        | false ↦ (if count == needed then ok [] else err Errno.enospc, d)
        | true ↦ elim got.0 [
          | err e ↦ (err e, got.1)
          | ok t' ↦
              let taken = scan_free rounds got.1 t' (count + 1) needed (cluster + 1) in
              let skipped = scan_free rounds got.1 t' count needed (cluster + 1) in
              elim (is_free t' cluster) [ true ↦ (more cluster taken.0, taken.1) | false ↦ skipped ]
        ]
      ]

  -- `fat16_allocate`: the clusters behind the `old_count` that the chain has.
  pub allocate : ℕ → D → ℕ → ℕ → Result (List ℕ) × D
  unfolding scan_free
  allocate max_writable d old_count needed =
      if ltb max_writable (needed + 1)
      then (err Errno.enospc, d)
      else scan_free (max_writable - 1) d (record { loaded = none; first = []; second = [] })
          old_count needed 2
