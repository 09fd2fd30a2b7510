-- ===== src/Fat16/Geometry.antt =====
-- kernel/fs/fat/fat16.c: what the bytes of a volume say, with no stream and no error: the chain
-- behind a cluster, and the bytes of the file that starts at one.
use rorth_ox.Prelude.{ℕ, zero, suc, ◌+◌, ◌*◌, ◌/◌, ◌%◌, ◌<◌, ◌≡◌, ◌∙◌, ap, ap₂, sym, arith}
use native.Mathlib.Nat.{
  mod-eq_of_lt, div-eq_of_lt, div-add-mod', mul-add-div_right, mul-add-mod_self_right,
}
use rorth_ox.Disk.{sector_size}
use rorth_ox.Fat16.{Volume, cluster_to_sector, cluster_bytes, entry_position}

-- The byte at each place of the disk.
abbrev pub Contents : Type 0
Contents = ℕ → ℕ

module _ (v : Volume) (bytes : Contents) where
  abbrev pub entry : ℕ → ℕ
  entry cluster = bytes (entry_position v cluster) + bytes (entry_position v cluster + 1) * 256

  -- The cluster that stands `n` places behind one in its chain.
  unfoldable pub nth_cluster : ℕ → ℕ → ℕ
  nth_cluster zero cluster = cluster
  nth_cluster (suc n) cluster = nth_cluster n (entry cluster)

  -- Byte `offset` of the file whose first cluster is given.
  pub file_byte : ℕ → ℕ → ℕ
  unfolding nth_cluster
  file_byte start offset = bytes (
      cluster_to_sector v (nth_cluster (offset / cluster_bytes v) start) * sector_size
      + offset % cluster_bytes v)

  pub nth_cluster-add :
      (n k start : ℕ) → nth_cluster n (nth_cluster k start) ≡ nth_cluster (k + n) start
  unfolding nth_cluster
  nth_cluster-add n zero start = ap (λ m. nth_cluster m start) {x = n} {y = 0 + n} (omega arith)
  nth_cluster-add n (suc k) start =
      nth_cluster-add n k (entry start)
      ∙ ap (λ m. nth_cluster m start) {x = suc (k + n)} {y = suc k + n} (omega arith)

  pub file_byte-first :
      (start offset : ℕ)
      → offset < cluster_bytes v
      → file_byte start offset ≡ bytes (cluster_to_sector v start * sector_size + offset)
  unfolding file_byte
  file_byte-first start offset h =
      ap
        (λ q.
          bytes
            (cluster_to_sector v (nth_cluster q start) * sector_size + offset % cluster_bytes v))
        (div-eq_of_lt h)
      ∙ ap (λ r. bytes (cluster_to_sector v start * sector_size + r)) (mod-eq_of_lt h)

  pub file_byte-behind :
      (start k offset : ℕ)
      → 0 < cluster_bytes v
      → file_byte (nth_cluster k start) offset ≡ file_byte start (k * cluster_bytes v + offset)
  unfolding file_byte
  file_byte-behind start k offset h =
      ap₂ (λ c r. bytes (cluster_to_sector v c * sector_size + r))
        (nth_cluster-add (offset / cluster_bytes v) k start
          ∙ ap (λ q. nth_cluster q start) (sym (mul-add-div_right h k offset)))
        (sym (mul-add-mod_self_right k (cluster_bytes v) offset))

  pub file_byte-next :
      (start offset : ℕ)
      → 0 < cluster_bytes v
      → file_byte (entry start) offset ≡ file_byte start (cluster_bytes v + offset)
  unfolding nth_cluster
  file_byte-next start offset h =
      file_byte-behind start 1 offset h ∙ ap (file_byte start) (omega arith)

  -- A place in the file by the cluster that holds it.
  pub file_byte-from :
      (start offset i : ℕ)
      → 0 < cluster_bytes v
      → file_byte (nth_cluster (offset / cluster_bytes v) start) (offset % cluster_bytes v + i)
        ≡ file_byte start (offset + i)
  file_byte-from start offset i h =
      let whole = div-add-mod' offset (cluster_bytes v) in
      file_byte-behind start (offset / cluster_bytes v) (offset % cluster_bytes v + i) h
      ∙ ap (file_byte start) (omega arith)
