-- ===== src/Fat16/Update/Growth.antt =====
-- kernel/fs/fat/fat16.c: the chain of a file and the clusters that it gets, together.
use rorth_ox.Prelude.{
  ℕ, ◌+◌, ◌-◌, ◌<◌, ◌≡◌, ◌≢◌, inl, inr, ◌∙◌, ap, sym, subst, List, arith, length, get_or, lt_or_le,
}
use rorth_ox.Status.{ok}
use rorth_ox.Disk.{BlockDevice, Media}
use rorth_ox.Paths.{Memory}
use rorth_ox.Fat16.{Volume}
use rorth_ox.Fat16.Geometry.{Contents, entry, nth_cluster, nth_cluster-add}
use rorth_ox.Fat16.Descriptor.{Item}
use rorth_ox.Fat16.Update.{collect_chain, allocate}
use rorth_ox.Fat16.Update.Collect.{valid_cluster_from, collect_chain-IsCollected}
use rorth_ox.Fat16.Update.Chain.{IsWhole}
use rorth_ox.Fat16.Update.Allocate.{allocate-IsFree}
use rorth_ox.Fat16.Update.Free.{IsFree}

module _ (v : Volume) (bytes : Contents) where
  entry-nth_cluster :
      (i start : ℕ)
      → entry v bytes (nth_cluster v bytes i start) ≡ nth_cluster v bytes (i + 1) start
  unfolding nth_cluster
  entry-nth_cluster i start = nth_cluster-add v bytes 1 i start

  -- No cluster of a whole chain has a free entry.
  used_lem :
      (max_writable start : ℕ) (chain : List ℕ)
      → IsWhole v bytes max_writable start chain
      → (i : ℕ) → i < length chain
      → entry v bytes (get_or chain i 0) ≢ 0
  used_lem max_writable start chain w i h free =
      let next : nth_cluster v bytes (i + 1) start ≡ 0 =
        sym (entry-nth_cluster i start) ∙ ap (entry v bytes) (sym (w.linked i h)) ∙ free in
      elim (lt_or_le (i + 1) (length chain)) [
        | inl inside ↦
            let two = valid_cluster_from v (get_or chain (i + 1) 0) (w.usable (i + 1) inside).0 in
            absurd (omega (arith, w.linked (i + 1) inside))
        | inr last ↦
            let e : nth_cluster v bytes (i + 1) start ≡ nth_cluster v bytes (length chain) start =
              ap (λ n. nth_cluster v bytes n start) {x = i + 1} {y = length chain} (omega arith) in
            absurd (omega (arith, w.ended (omega arith)))
      ]

module _ {D : Type 0} (dev : BlockDevice D) (m : Media dev) (v : Volume)
    (small : v.reserved_sectors < 0x10000) where
  -- Over a volume of 16-bit reserved sectors: where fat16_collect_chain finds the chain of a file
  -- and fat16_allocate then finds clusters to extend it with, the two lists make up what was needed
  -- and have no cluster in common.
  pub allocate-collect_chain :
      (max_writable : ℕ) (item : Item) (d : D) (h : Memory) (needed : ℕ) (chain added : List ℕ)
      → (collect_chain dev v max_writable item d h).0 ≡ ok chain
      → (allocate dev v max_writable
          (collect_chain dev v max_writable item d h).1
          (length chain)
          needed).0
        ≡ ok added
      → (length chain + length added ≡ needed)
        × ((i j : ℕ) → i < length chain → j < length added → get_or chain i 0 ≢ get_or added j 0)
  allocate-collect_chain max_writable item d h needed chain added e e' =
      let collected = collect_chain-IsCollected dev m v small max_writable item d h in
      let d' = (collect_chain dev v max_writable item d h).1 in
      let got = (allocate-IsFree dev m v max_writable d' (length chain) needed).0 added e' in
      let free = subst (λ c. IsFree v c 2 (2 + (max_writable - 1)) added) collected.kept got.1 in
      (
        got.0,
        λ i j hi hj same.
            used_lem v (m.contents d) max_writable item.low_first_cluster chain
              (collected.whole chain e) i hi (ap (entry v (m.contents d)) same ∙ free.first j hj),
      )
