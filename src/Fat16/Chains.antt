-- ===== src/Fat16/Chains.antt =====
-- kernel/fs/fat/fat16.c: the entries of the table and the walks along a chain, over the bytes of a
-- disk.
use rorth_ox.Prelude.{
  ℕ, zero, suc, ◌+◌, ◌-◌, ◌*◌, ◌/◌, ◌≤◌, ◌<◌, ◌≡◌, inl, inr, refl, ◌∙◌, ap, ap₂, sym, subst, Bool,
  true, false, not, ◌||◌, arith, leb, ◌==◌, get_or, pos, Bool-cases,
}
use mathlib.Core.Path.{fun_ext}
use rorth_ox.Status.{Result, ok, err}
use rorth_ox.Disk.{BlockDevice, Media}
use rorth_ox.Disk.Streamer.{Done, seek, read, int_max}
use rorth_ox.Disk.Streamer.Read.{Delivered, read-Delivered, read_zero}
use rorth_ox.Fat16.{
  Volume, cluster_bytes, cluster_limit, valid_cluster, entry_position, read_at, word_read,
  checked_next, get_fat_entry, walk, get_cluster_for_offset,
}
use rorth_ox.Fat16.Geometry.{entry, nth_cluster}

module _ {D : Type 0} (dev : BlockDevice D) (m : Media dev) (v : Volume) where
  pub seek_at : (p : ℕ) → (seek 0 (pos p)).1 ≡ p
  unfolding seek
  seek_at p = refl

  pub read_at-Delivered :
      (d : D) (p total : ℕ)
      → p + total ≤ int_max
      → Delivered dev m d p total (read_at dev d p total)
  read_at-Delivered d p total h =
      subst (λ q. Delivered dev m d p total (read dev d q (pos total))) (sym (seek_at p))
        (read-Delivered dev m d p total h)

  -- Each entry of the table is within an int from the start of the disk, as 16 bits of reserved
  -- sectors and 16 bits of cluster numbers make it.
  module _ (small : v.reserved_sectors < 0x10000) where
    entry_at-end : (cluster : ℕ) → cluster < 0x10000 → entry_position v cluster + 2 ≤ int_max
    entry_at-end cluster h = omega arith

    word_read_lem :
        (r : Done D) (d : D) (p : ℕ) (answer : Result ℕ)
        → Delivered dev m d p 2 r
        → ((n : ℕ) → r.result ≡ ok n → n ≡ 0)
        → r.result ≡ answer
        → ((n : ℕ)
            → (word_read dev answer r.bytes r.device).0 ≡ ok n
            → n ≡ m.contents d p + m.contents d (p + 1) * 256)
          × (m.contents (word_read dev answer r.bytes r.device).1 ≡ m.contents d)
    word_read_lem r d p (err e) given zeroed h = (λ n e'. absurd (cc), fun_ext given.kept)
    word_read_lem r d p (ok n) given zeroed h =
        let all = given.complete (h ∙ ap ok (zeroed n h)) in
        let low = given.bytes 0 (omega arith) in
        let high = given.bytes 1 (omega arith) in
        let first = ap (m.contents d) {x = p + 0} {y = p} (omega arith) in
        (
          λ n' e. let a : get_or r.bytes 0 0 + get_or r.bytes 1 0 * 256 ≡ n' = cc in omega arith,
          fun_ext given.kept,
        )

    -- What an entry that is read says, and that the disk stays.
    pub get_fat_entry_lem :
        (d : D) (cluster : ℕ)
        → cluster < 0x10000
        → ((n : ℕ) → (get_fat_entry dev v d cluster).0 ≡ ok n → n ≡ entry v (m.contents d) cluster)
          × (m.contents (get_fat_entry dev v d cluster).1 ≡ m.contents d)
    unfolding get_fat_entry
    get_fat_entry_lem d cluster h =
        let r = read_at dev d (entry_position v cluster) 2 in
        word_read_lem r d (entry_position v cluster) r.result
          (read_at-Delivered d (entry_position v cluster) 2 (entry_at-end cluster h))
          (read_zero dev m d (seek 0 (pos (entry_position v cluster))).1 2) refl

    checked_next_lem :
        (too_many : Bool) (r : Result ℕ × D) (n : ℕ)
        → (checked_next dev v too_many r).0 ≡ ok n
        → (r.0 ≡ ok n) × (valid_cluster v n ≡ true)
    unfolding checked_next
    checked_next_lem too_many (err e, d) n h = absurd (cc)
    checked_next_lem too_many (ok next, d) n h =
        let a : (valid_cluster v next ≡ true) × (ok next ≡ ok n) = ground arith in
        let e : next ≡ n = cc in (a.1, subst (λ c. valid_cluster v c ≡ true) e a.0)

    checked_next-keeps :
        (too_many : Bool) (r : Result ℕ × D) → (checked_next dev v too_many r).1 ≡ r.1
    unfolding checked_next
    checked_next-keeps too_many (err e, d) = refl
    checked_next-keeps too_many (ok next, d) = ground arith

    pub valid_cluster-small : (c : ℕ) → valid_cluster v c ≡ true → c < 0xFFF8
    unfolding valid_cluster
    valid_cluster-small c h = ground arith

    -- The next cluster of a chain, when the tests let it through.
    pub next_lem :
        (too_many : Bool) (d : D) (current : ℕ)
        → current < 0x10000
        → ((n : ℕ)
            → (checked_next dev v too_many (get_fat_entry dev v d current)).0 ≡ ok n
            → (n ≡ entry v (m.contents d) current) × (valid_cluster v n ≡ true))
          × (m.contents (checked_next dev v too_many (get_fat_entry dev v d current)).1
              ≡ m.contents d)
    next_lem too_many d current h =
        let r = get_fat_entry dev v d current in
        let e = get_fat_entry_lem d current h in
        (
          λ n h'. let a = checked_next_lem too_many r n h' in (e.0 n a.0, a.1),
          ap m.contents (checked_next-keeps too_many r) ∙ e.1,
        )

    walk-step :
        (ahead : ℕ) (d : D) (cluster : ℕ) (got : Result ℕ)
        → (checked_next dev v false (get_fat_entry dev v d cluster)).0 ≡ got
        → walk dev v (suc ahead) d cluster ≡ (elim got as (λ r. Result ℕ × D) [
          | err e ↦ (err e, (checked_next dev v false (get_fat_entry dev v d cluster)).1)
          | ok next ↦
              walk dev v ahead (checked_next dev v false (get_fat_entry dev v d cluster)).1 next
        ])
    unfolding walk
    walk-step ahead d cluster got h = rw (walk, h) refl

    -- What a walk along a chain that ends at `n` shows, and that the disk stays.
    abbrev pub Walked : ℕ → D → ℕ → Result ℕ × D → Type 0
    Walked ahead d cluster r =
        ((n : ℕ)
          → r.0 ≡ ok n
          → (n ≡ nth_cluster v (m.contents d) ahead cluster) × (valid_cluster v n ≡ true))
        × (m.contents r.1 ≡ m.contents d)

    round-Walked :
        (ahead : ℕ) (d : D) (cluster : ℕ) (got : Result ℕ)
        → ((d' : D) (next : ℕ)
            → valid_cluster v next ≡ true
            → Walked ahead d' next (walk dev v ahead d' next))
        → valid_cluster v cluster ≡ true
        → (checked_next dev v false (get_fat_entry dev v d cluster)).0 ≡ got
        → Walked (suc ahead) d cluster (walk dev v (suc ahead) d cluster)
    unfolding nth_cluster
    round-Walked ahead d cluster (err e) later valid got =
        let c = valid_cluster-small cluster valid in
        let a = next_lem false d cluster (omega arith) in
        subst (Walked (suc ahead) d cluster) (sym (walk-step ahead d cluster (err e) got))
          (λ n h. absurd (cc), a.1)
    round-Walked ahead d cluster (ok next) later valid got =
        let c = valid_cluster-small cluster valid in
        let a = next_lem false d cluster (omega arith) in
        let b = a.0 next got in
        let d' = (checked_next dev v false (get_fat_entry dev v d cluster)).1 in
        let rest = later d' next b.1 in
        subst (Walked (suc ahead) d cluster) (sym (walk-step ahead d cluster (ok next) got)) (
          λ n h. (
            (rest.0 n h).0 ∙ ap₂ (λ bytes x. nth_cluster v bytes ahead x) a.1 b.0,
            (rest.0 n h).1,
          ),
          rest.1 ∙ a.1,
        )

    walk-Walked :
        (ahead : ℕ) (d : D) (cluster : ℕ)
        → valid_cluster v cluster ≡ true
        → Walked ahead d cluster (walk dev v ahead d cluster)
    unfolding walk nth_cluster
    walk-Walked zero d cluster valid = (
      λ n h. let e : cluster ≡ n = cc in (sym e, subst (λ c. valid_cluster v c ≡ true) e valid),
      refl,
    )
    walk-Walked (suc ahead) d cluster valid =
        round-Walked ahead d cluster (checked_next dev v false (get_fat_entry dev v d cluster)).0
          (walk-Walked ahead) valid refl

    -- What get_cluster_for_offset answers is the cluster of the chain that holds the offset.
    pub found-Walked :
        (d : D) (start offset : ℕ)
        → Walked (offset / cluster_bytes v) d start (get_cluster_for_offset dev v d start offset)
    unfolding get_cluster_for_offset
    found-Walked d start offset =
        elim (Bool-cases (cluster_bytes v == 0 || not (valid_cluster v start))) [
          | inl bad ↦ rw (get_cluster_for_offset, bad) (λ n h. absurd (cc), refl)
          | inr good ↦ elim (Bool-cases (leb (cluster_limit v - 1) (offset / cluster_bytes v))) [
            | inl far ↦ rw (get_cluster_for_offset, good, far) (λ n h. absurd (cc), refl)
            | inr near ↦
                rw (get_cluster_for_offset, good, near)
                  (walk-Walked (offset / cluster_bytes v) d start (ground arith))
          ]
        ]
