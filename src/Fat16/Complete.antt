-- ===== src/Fat16/Complete.antt =====
-- kernel/fs/fat/fat16.c: the reads that succeed.
use rorth_ox.Prelude.{
  ℕ, zero, suc, ◌+◌, ◌-◌, ◌*◌, ◌/◌, ◌%◌, ◌≤◌, ◌<◌, ◌≡◌, ◌≢◌, inl, inr, refl, ◌∙◌, ap, ap₂, subst,
  Bool, true, false, not, ◌||◌, arith, ltb, leb, ◌==◌, get_or, pos, Bool-cases,
}
use native.Mathlib.Nat.{
  mod-lt, lt_of_mul-lt-mul_right, div-lt_iff_lt-mul, div-add-mod', mul-le-mul_right, suc-mul,
  add-mul, zero-mul,
}
use rorth_ox.Status.{Result, ok, err, Errno}
use rorth_ox.Disk.{BlockDevice, Media}
use rorth_ox.Disk.Streamer.{Done, read, int_max}
use rorth_ox.Disk.Streamer.Read.{read-ok}
use rorth_ox.Fat16.{
  Volume, cluster_to_sector, cluster_bytes, cluster_limit, valid_cluster, entry_position, read_at,
  word_read, checked_next, get_fat_entry, walk, get_cluster_for_offset, read_clusters,
  read_internal, sector_size,
}
use rorth_ox.Fat16.Geometry.{entry, nth_cluster, nth_cluster-add}
use mathlib.Core.Path.{fun_ext}
use rorth_ox.Fat16.Chains.{
  read_at-Delivered, seek_at, valid_cluster-small, get_fat_entry_lem, next_lem, found-Walked,
}
use rorth_ox.Fat16.Reading.{part, place, piece, after, loop_done, loop_last, loop_next}

traversed_few :
    (limit q size r offset total : ℕ)
    → q * size + r ≡ offset
    → 0 < total
    → offset + total ≤ (limit - 1) * size
    → (q + 1) * size + (r + total) ≤ limit * size
traversed_few zero q size r offset total e more h = absurd (omega (arith, zero-mul size))
traversed_few (suc limit) q size r offset total e more h = omega (
  arith,
  suc-mul limit size,
  suc-mul q size,
  ap (λ n. n * size) {x = suc limit - 1} {y = limit} (omega arith),
)

further :
    (q k size r offset total : ℕ)
    → q * size + r ≡ offset
    → k * size < r + total
    → (q + k) * size < offset + total
further q k size r offset total e h = omega (arith, add-mul q k size)

module _ {D : Type 0} (dev : BlockDevice D) (m : Media dev) (v : Volume)
    (small : v.reserved_sectors < 0x10000)
    (reads : (d : D) (n : ℕ) (e : Errno) → n < 0x10000000 → (dev.read_block d n).0 ≢ err e) where
  read_at-ok : (d : D) (p total : ℕ) → p + total ≤ int_max → (read_at dev d p total).result ≡ ok 0
  read_at-ok d p total h =
      ap (λ q. (read dev d q (pos total)).result) (seek_at dev m v p)
      ∙ (read-ok dev m reads d p total h).0

  entry_ok :
      (d : D) (c : ℕ) → c < 0x10000 → (get_fat_entry dev v d c).0 ≡ ok (entry v (m.contents d) c)
  unfolding get_fat_entry
  entry_ok d c h =
      let r = read_at dev d (entry_position v c) 2 in
      let fine : (get_fat_entry dev v d c).0 ≡ ok (get_or r.bytes 0 0 + get_or r.bytes 1 0 * 256) =
        ap (λ a. (word_read dev a r.bytes r.device).0)
          (read_at-ok d (entry_position v c) 2 (omega arith)) in
      fine ∙ ap ok ((get_fat_entry_lem dev m v small d c h).0 _ fine)

  let_through :
      (too_many : Bool) (r : Result ℕ × D) (n : ℕ)
      → r.0 ≡ ok n
      → too_many ≡ false
      → valid_cluster v n ≡ true
      → (checked_next dev v too_many r).0 ≡ ok n
  unfolding checked_next
  let_through too_many (err e, d) n h few valid = absurd (cc)
  let_through too_many (ok next, d) n h few valid =
      let e : n ≡ next = cc in
      let valid' = subst (λ c. valid_cluster v c ≡ true) e valid in rw (valid', few) h

  -- An entry that leads on, before the clusters are used up.
  next_ok :
      (d : D) (c : ℕ) (too_many : Bool)
      → valid_cluster v c ≡ true
      → too_many ≡ false
      → valid_cluster v (entry v (m.contents d) c) ≡ true
      → (checked_next dev v too_many (get_fat_entry dev v d c)).0 ≡ ok (entry v (m.contents d) c)
  next_ok d c too_many here few valid =
      let low = valid_cluster-small dev m v small c here in
      let_through too_many (get_fat_entry dev v d c) _ (entry_ok d c (omega arith)) few valid

  -- The disk behind a step to the next cluster.
  next_same :
      (d : D) (c : ℕ) (too_many : Bool)
      → valid_cluster v c ≡ true
      → m.contents (checked_next dev v too_many (get_fat_entry dev v d c)).1 ≡ m.contents d
  next_same d c too_many here =
      let low = valid_cluster-small dev m v small c here in
      (next_lem dev m v small too_many d c (omega arith)).1

  walk-ok :
      (ahead : ℕ) (d : D) (cluster : ℕ)
      → ((k : ℕ) → k ≤ ahead → valid_cluster v (nth_cluster v (m.contents d) k cluster) ≡ true)
      → (walk dev v ahead d cluster).0 ≡ ok (nth_cluster v (m.contents d) ahead cluster)
  unfolding walk nth_cluster
  walk-ok zero d cluster chain = refl
  walk-ok (suc ahead) d cluster chain =
      let here = chain 0 (omega arith) in
      let same = next_same d cluster false here in
      let d' = (checked_next dev v false (get_fat_entry dev v d cluster)).1 in
      let got = next_ok d cluster false here refl (chain 1 (omega arith)) in
      rw (walk, got)
        (walk-ok ahead d' (entry v (m.contents d) cluster) (λ k h.
            ap (λ c. valid_cluster v (nth_cluster v c k (entry v (m.contents d) cluster))) same
            ∙ chain (suc k) (omega arith))
          ∙ ap (λ c. ok (nth_cluster v c ahead (entry v (m.contents d) cluster))) same)

  -- The clusters that hold the bytes from `within` on, `total` of them.
  abbrev pub IsChain : D → ℕ → ℕ → ℕ → Type 0
  IsChain d current within total =
      (k : ℕ)
      → k * cluster_bytes v < within + total
      → valid_cluster v (nth_cluster v (m.contents d) k current) ≡ true

  before_place :
      (offset total k : ℕ)
      → 0 < total
      → k ≤ offset / cluster_bytes v
      → k * cluster_bytes v < offset + total
  before_place offset total k more h =
      let whole = div-add-mod' offset (cluster_bytes v) in
      let low = mul-le-mul_right {m = k} {n = offset / cluster_bytes v} (cluster_bytes v) h in
      omega arith

  found_ok :
      (d : D) (start offset total : ℕ)
      → 0 < cluster_bytes v
      → 0 < total
      → offset + total ≤ (cluster_limit v - 1) * cluster_bytes v
      → IsChain d start offset total
      → (get_cluster_for_offset dev v d start offset).0
        ≡ ok (nth_cluster v (m.contents d) (offset / cluster_bytes v) start)
  unfolding get_cluster_for_offset nth_cluster
  found_ok d start offset total some_bytes more fits chain =
      let first = chain 0 (omega arith) in
      let near : offset / cluster_bytes v < cluster_limit v - 1 =
        (div-lt_iff_lt-mul some_bytes).1 (omega arith) in
      let whole = div-add-mod' offset (cluster_bytes v) in
      let good : (cluster_bytes v == 0 || not (valid_cluster v start)) ≡ false = ground arith in
      let close_by : leb (cluster_limit v - 1) (offset / cluster_bytes v) ≡ false = ground arith in
      rw (get_cluster_for_offset, good, close_by)
        (walk-ok (offset / cluster_bytes v) d start
          (λ k h. chain k (before_place offset total k more h)))

  -- Each cluster of the volume ends within an int from the start of the disk.
  module _
      (room : (c : ℕ)
        → valid_cluster v c ≡ true
        → cluster_to_sector v c * sector_size + cluster_bytes v ≤ int_max) where
    module _ (rounds : ℕ) (d : D) (current within traversed total : ℕ)
        (here : within < cluster_bytes v) (more : (total == 0) ≡ false)
        (chain : IsChain d current within total)
        (few : traversed * cluster_bytes v + (within + total)
          ≤ cluster_limit v * cluster_bytes v) where
      abbrev step : ℕ
      step = part dev m v small rounds d current within traversed total

      abbrev at : ℕ
      at = place dev m v small rounds d current within traversed total

      abbrev got : Done D
      got = piece dev m v small rounds d current within traversed total

      abbrev follow : Result ℕ × D
      follow = after dev m v small rounds d current within traversed total

      first : valid_cluster v current ≡ true
      unfolding nth_cluster
      first = chain 0 (ground arith)

      fits : at + step ≤ int_max
      fits = let r = room current first in omega arith

      near : (ltb int_max at || ltb (int_max - at) step) ≡ false
      near = let f = fits in ground arith

      got_ok : got.result ≡ ok 0
      got_ok = read_at-ok d at step fits

      got_same : m.contents got.device ≡ m.contents d
      got_same = fun_ext (read_at-Delivered dev m v d at step fits).kept

      module _ (left : (total - step == 0) ≡ false) where
        abbrev next : ℕ
        next = entry v (m.contents got.device) current

        second :
            (k : ℕ)
            → k * cluster_bytes v < total - step
            → valid_cluster v (nth_cluster v (m.contents d) (suc k) current) ≡ true
        second k h = let e = suc-mul k (cluster_bytes v) in chain (suc k) (ground arith)

        not_all : ltb (cluster_limit v - 1) (traversed + 1) ≡ false
        not_all =
            let e = suc-mul traversed (cluster_bytes v) in
            let l : suc traversed < cluster_limit v =
              lt_of_mul-lt-mul_right (cluster_bytes v) (ground arith) in
            ground arith

        second_valid : valid_cluster v next ≡ true
        unfolding nth_cluster
        second_valid =
            ap (λ c. valid_cluster v (entry v c current)) got_same ∙ second 0 (ground arith)

        follow_ok : follow.0 ≡ ok next
        follow_ok = next_ok got.device current _ first not_all second_valid

        follow_same : m.contents follow.1 ≡ m.contents d
        follow_same = next_same got.device current _ first ∙ got_same

        rest-IsChain : IsChain follow.1 next 0 (total - step)
        unfolding nth_cluster
        rest-IsChain k h =
            ap₂ (λ c c'. valid_cluster v (nth_cluster v c k (entry v c' current))) follow_same
              got_same
            ∙ second k (omega arith)

        rest_few :
            (traversed + 1) * cluster_bytes v + (0 + (total - step))
            ≤ cluster_limit v * cluster_bytes v
        rest_few = let e = suc-mul traversed (cluster_bytes v) in ground arith

    read_clusters-ok :
        (rounds : ℕ) (d : D) (current within traversed total : ℕ)
        → total ≤ rounds
        → within < cluster_bytes v
        → IsChain d current within total
        → traversed * cluster_bytes v + (within + total) ≤ cluster_limit v * cluster_bytes v
        → (read_clusters dev v rounds d current within traversed total).0 ≡ ok 0
    unfolding read_clusters
    read_clusters-ok zero d current within traversed total enough here chain few = refl
    read_clusters-ok (suc rounds) d current within traversed total enough here chain few =
        elim (Bool-cases (total == 0)) [
          | inl e ↦
              ap (λ r. r.0) (loop_done dev m v small rounds d current within traversed total e)
          | inr more ↦
              let outside = near rounds d current within traversed total here more chain few in
              let got' = got_ok rounds d current within traversed total here more chain few in
              elim (Bool-cases
                (total - step rounds d current within traversed total here more chain few == 0)) [
                  | inl all ↦
                      ap (λ r. r.0)
                        (loop_last dev m v small rounds d current within traversed total more
                          outside 0 got' all)
                  | inr left ↦
                      ap (λ r. r.0)
                        (loop_next dev m v small rounds d current within traversed total more
                          outside 0 _ got' left
                          (follow_ok rounds d current within traversed total here more chain few
                            left))
                      ∙ read_clusters-ok rounds _ _ 0 (traversed + 1)
                          (total - step rounds d current within traversed total here more chain few)
                          (ground arith) (omega arith)
                          (rest-IsChain rounds d current within traversed total here more chain few
                            left)
                          (rest_few rounds d current within traversed total here more chain few
                            left)
                ]
        ]

    -- Over a disk whose sectors of 28-bit numbers can all be read, a volume of 16-bit reserved
    -- sectors whose clusters have bytes and end within an int, and a chain whose clusters are valid
    -- as far as the bytes reach: a read of one byte or more within an int succeeds, if it reaches no
    -- further than a chain of all the clusters would.
    pub read_internal-ok :
        (d : D) (start offset total : ℕ)
        → 0 < cluster_bytes v
        → 0 < total
        → offset + total ≤ int_max
        → offset + total ≤ (cluster_limit v - 1) * cluster_bytes v
        → IsChain d start offset total
        → (read_internal dev v d start offset total).0 ≡ ok 0
    unfolding read_internal
    read_internal-ok d start offset total some_bytes more within_int short chain =
        let fine : (ltb (int_max - offset) total || cluster_bytes v == 0) ≡ false = ground arith in
        let found = found_ok d start offset total some_bytes more short chain in
        let w = found-Walked dev m v small d start offset in
        let same = w.1 in
        let whole = div-add-mod' offset (cluster_bytes v) in
        rw (read_internal, fine, found)
          (read_clusters-ok total _ (nth_cluster v (m.contents d) (offset / cluster_bytes v) start)
            (offset % cluster_bytes v) (offset / cluster_bytes v + 1) total (omega arith)
            (mod-lt offset some_bytes)
            (λ k h.
              (ap
                  (λ c. valid_cluster v (
                    nth_cluster v c k
                      (nth_cluster v (m.contents d) (offset / cluster_bytes v) start)))
                  same
                ∙ ap (valid_cluster v)
                    (nth_cluster-add v (m.contents d) k (offset / cluster_bytes v) start)
                ∙ chain (offset / cluster_bytes v + k) (
                    further (offset / cluster_bytes v) k (cluster_bytes v)
                      (offset % cluster_bytes v) offset total whole h)))
            (traversed_few (cluster_limit v) (offset / cluster_bytes v) (cluster_bytes v)
              (offset % cluster_bytes v) offset total whole more short))
