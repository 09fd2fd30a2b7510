-- ===== src/Fat16/Update/Allocate.antt =====
-- kernel/fs/fat/fat16.c: the free clusters that a file gets.
use rorth_ox.Prelude.{
  ℕ, zero, suc, ◌+◌, ◌-◌, ◌*◌, ◌/◌, ◌<◌, ◌≡◌, inl, inr, refl, ◌∙◌, ap, sym, subst, Bool, true,
  false, Option, none, some, List, [], ◌∷◌, arith, ltb, ◌==◌, if◌then◌else◌, length, get_or,
  Bool-cases,
}
use mathlib.Core.Path.{fun_ext}
use rorth_ox.Status.{Result, ok, err, Errno}
use rorth_ox.Disk.{BlockDevice, Media, sector_size}
use rorth_ox.Fat16.{Volume}
use rorth_ox.Fat16.Geometry.{entry}
use rorth_ox.Fat16.Update.{
  Tables, is_free, is_loaded, more, load, load_first, load_second, scan_free, allocate,
}
use rorth_ox.Fat16.Update.Free.{
  second_entry, IsFree, none-IsFree, skip-IsFree, take-IsFree, Holds, IsCurrent, free_lem,
}

module _ {D : Type 0} (dev : BlockDevice D) (m : Media dev) (v : Volume) where
  -- What a load of a sector leaves.
  abbrev pub IsLoad : D → ℕ → Result Tables × D → Type 0
  IsLoad d sector r =
      ((t : Tables) → r.0 ≡ ok t → (t.loaded ≡ some sector) × Holds v (m.contents d) t sector)
      × (m.contents r.1 ≡ m.contents d)

  read_same : (d : D) (n : ℕ) → m.contents (dev.read_block d n).1 ≡ m.contents d
  read_same d n = fun_ext (m.read_keeps d n)

  second_loaded :
      (d d' : D) (sector : ℕ) (first : List ℕ)
      → m.contents d' ≡ m.contents d
      → ((i : ℕ)
          → i < sector_size
          → get_or first i 0 ≡ m.contents d ((v.reserved_sectors + sector) * sector_size + i))
      → (got : Result (List ℕ))
      → (dev.read_block d' (v.reserved_sectors + v.sectors_per_fat + sector)).0 ≡ got
      → IsLoad d sector (
          load_second dev v sector first
            (got, (dev.read_block d' (v.reserved_sectors + v.sectors_per_fat + sector)).1))
  unfolding load_second
  second_loaded d d' sector first same held (err e) h =
      (λ t r. absurd (cc), read_same d' (v.reserved_sectors + v.sectors_per_fat + sector) ∙ same)
  second_loaded d d' sector first same held (ok second) h = (
    λ t r.
        (let t' : Tables = record { loaded = some sector; first = first; second = second } in
          let e : t' ≡ t = cc in
          subst (λ t. (t.loaded ≡ some sector) × Holds v (m.contents d) t sector) e
            (
              refl,
              record {
                in_first = held;
                in_second = λ i l.
                    (m.read_holds d' (v.reserved_sectors + v.sectors_per_fat + sector) i second h l
                      ∙ ap
                          (λ c.
                            c ((v.reserved_sectors + v.sectors_per_fat + sector) * sector_size + i))
                          same);
              },
            )),
    read_same d' (v.reserved_sectors + v.sectors_per_fat + sector) ∙ same,
  )

  first_loaded :
      (d : D) (sector : ℕ) (got : Result (List ℕ))
      → (dev.read_block d (v.reserved_sectors + sector)).0 ≡ got
      → IsLoad d sector
          (load_first dev v sector (got, (dev.read_block d (v.reserved_sectors + sector)).1))
  unfolding load_first
  first_loaded d sector (err e) h = (λ t r. absurd (cc), read_same d (v.reserved_sectors + sector))
  first_loaded d sector (ok first) h =
      second_loaded d (dev.read_block d (v.reserved_sectors + sector)).1 sector first
        (read_same d (v.reserved_sectors + sector))
        (λ i l. m.read_holds d (v.reserved_sectors + sector) i first h l)
        (dev.read_block (dev.read_block d (v.reserved_sectors + sector)).1
          (v.reserved_sectors + v.sectors_per_fat + sector)).0
        refl

  is_loaded_lem :
      (t : Tables) (sector : ℕ) (o : Option ℕ)
      → t.loaded ≡ o
      → is_loaded t sector ≡ true
      → t.loaded ≡ some sector
  is_loaded_lem t sector none e h = absurd (ground arith)
  is_loaded_lem t sector (some n) e h = let same : n ≡ sector = ground arith in e ∙ ap some same

  pub load-IsLoad :
      (d : D) (t : Tables) (sector : ℕ)
      → IsCurrent v (m.contents d) t
      → IsLoad d sector (load dev v d t sector)
  unfolding load
  load-IsLoad d t sector current = elim (Bool-cases (is_loaded t sector)) [
    | inl held ↦
        let e = is_loaded_lem t sector t.loaded refl held in
        rw (load, held)
          (
            λ t' r.
                (let same : t ≡ t' = cc in
                  subst (λ t. (t.loaded ≡ some sector) × Holds v (m.contents d) t sector) same
                    (e, current sector e)),
            refl,
          )
    | inr other ↦
        rw (load, other)
          (first_loaded d sector (dev.read_block d (v.reserved_sectors + sector)).0 refl)
  ]

  -- What the loop hands out from a cluster on.
  abbrev IsScan : ℕ → D → ℕ → ℕ → ℕ → Result (List ℕ) × D → Type 0
  IsScan rounds d count needed cluster r =
      ((chain : List ℕ)
        → r.0 ≡ ok chain
        → (count + length chain ≡ needed)
          × IsFree v (m.contents d) cluster (cluster + rounds) chain)
      × (m.contents r.1 ≡ m.contents d)

  IsScan-failed :
      (rounds : ℕ) (d d' : D) (count needed cluster : ℕ) (e : Errno)
      → m.contents d' ≡ m.contents d
      → IsScan rounds d count needed cluster (err e, d')
  IsScan-failed rounds d d' count needed cluster e same = (λ chain r. absurd (cc), same)

  IsScan-done :
      (rounds : ℕ) (d : D) (count needed cluster : ℕ) (b : Bool)
      → (count == needed) ≡ b
      → IsScan rounds d count needed cluster (if b then ok [] else err Errno.enospc, d)
  IsScan-done rounds d count needed cluster true e = (
    λ chain r.
        (let none_more : [] ≡ chain = cc in
          subst
            (λ c.
              (count + length c ≡ needed) × IsFree v (m.contents d) cluster (cluster + rounds) c)
            none_more (ground arith, none-IsFree v (m.contents d) cluster (cluster + rounds))),
    refl,
  )
  IsScan-done rounds d count needed cluster false e =
      IsScan-failed rounds d d count needed cluster Errno.enospc refl

  module _ (rounds : ℕ) (d d' : D) (count needed cluster : ℕ) (r : Result (List ℕ) × D)
      (same : m.contents d' ≡ m.contents d) where
    skipped-IsScan :
        IsScan rounds d' count needed (cluster + 1) r → IsScan (suc rounds) d count needed cluster r
    skipped-IsScan s = (
      λ chain e.
          (let found = s.0 chain e in
            let free =
              subst (λ c. IsFree v c (cluster + 1) (cluster + suc rounds) chain) same
                (subst (λ n. IsFree v (m.contents d') (cluster + 1) n chain)
                  {x = cluster + 1 + rounds} {y = cluster + suc rounds} (omega arith) found.1) in
            (found.0, skip-IsFree v (m.contents d) cluster (cluster + suc rounds) chain free)),
      s.1 ∙ same,
    )

    taken-IsScan :
        (got : Result (List ℕ))
        → r.0 ≡ got
        → entry v (m.contents d) cluster ≡ 0
        → second_entry v (m.contents d) cluster ≡ 0
        → IsScan rounds d' (count + 1) needed (cluster + 1) r
        → IsScan (suc rounds) d count needed cluster (more cluster got, r.1)
    taken-IsScan (err e) h zero_first zero_second s =
        IsScan-failed (suc rounds) d r.1 count needed cluster e (s.1 ∙ same)
    taken-IsScan (ok rest) h zero_first zero_second s = (
      λ chain e.
          (let found = s.0 rest h in
            let counted = found.0 in
            let joined : cluster ∷ rest ≡ chain = cc in
            let free =
              subst (λ c. IsFree v c (cluster + 1) (cluster + suc rounds) rest) same
                (subst (λ n. IsFree v (m.contents d') (cluster + 1) n rest)
                  {x = cluster + 1 + rounds} {y = cluster + suc rounds} (omega arith) found.1) in
            subst
              (λ c.
                (count + length c ≡ needed)
                × IsFree v (m.contents d) cluster (cluster + suc rounds) c)
              joined
              (
                omega arith,
                take-IsFree v (m.contents d) cluster (cluster + suc rounds) rest free (omega arith)
                    zero_first zero_second,
              )),
      s.1 ∙ same,
    )

  module _ (rounds : ℕ) (d : D) (t : Tables) (count needed cluster : ℕ)
      (later : (d' : D) (t' : Tables) (count' : ℕ)
        → IsCurrent v (m.contents d') t'
        → IsScan rounds d' count' needed
            (cluster + 1)
            (scan_free dev v rounds d' t' count' needed (cluster + 1)))
      (current : IsCurrent v (m.contents d) t) (under : ltb count needed ≡ true) where
    round :
        (got : Result Tables)
        → (load dev v d t (cluster / 256)).0 ≡ got
        → IsScan
            (suc rounds)
            d
            count
            needed
            cluster
            (scan_free dev v (suc rounds) d t count needed cluster)
    unfolding scan_free
    round (err e) h =
        let l = load-IsLoad d t (cluster / 256) current in
        rw (scan_free, under, h) (IsScan-failed (suc rounds) d _ count needed cluster e l.1)
    round (ok t') h =
        let l = load-IsLoad d t (cluster / 256) current in
        let d' = (load dev v d t (cluster / 256)).1 in
        let held = l.0 t' h in
        let held' : IsCurrent v (m.contents d') t' = λ sector e.
          (let s : some (cluster / 256) ≡ some sector = sym held.0 ∙ e in
            let n : cluster / 256 ≡ sector = cc in
            subst (λ c. Holds v c t' sector) (sym l.1)
              (subst (Holds v (m.contents d) t') n held.1)) in
        elim (Bool-cases (is_free t' cluster)) [
          | inl free ↦
              let entries = free_lem v (m.contents d) t' cluster held.1 free in
              rw (scan_free, under, h, free)
                (taken-IsScan rounds d d' count needed cluster
                  (scan_free dev v rounds d' t' (count + 1) needed (cluster + 1)) l.1
                  (scan_free dev v rounds d' t' (count + 1) needed (cluster + 1)).0 refl entries.0
                  entries.1 (later d' t' (count + 1) held'))
          | inr used ↦
              rw (scan_free, under, h, used)
                (skipped-IsScan rounds d d' count needed cluster
                  (scan_free dev v rounds d' t' count needed (cluster + 1)) l.1
                  (later d' t' count held'))
        ]

  scan_free-IsScan :
      (rounds : ℕ) (d : D) (t : Tables) (count needed cluster : ℕ)
      → IsCurrent v (m.contents d) t
      → IsScan rounds d count needed cluster (scan_free dev v rounds d t count needed cluster)
  unfolding scan_free
  scan_free-IsScan zero d t count needed cluster current =
      IsScan-done zero d count needed cluster (count == needed) refl
  scan_free-IsScan (suc rounds) d t count needed cluster current =
      elim (Bool-cases (ltb count needed)) [
        | inl under ↦
            round rounds d t count needed cluster
              (λ d' t' count' c. scan_free-IsScan rounds d' t' count' needed (cluster + 1) c)
              current under (load dev v d t (cluster / 256)).0 refl
        | inr over ↦
            rw (scan_free, over)
              (IsScan-done (suc rounds) d count needed cluster (count == needed) refl)
      ]

  -- If `fat16_allocate` succeeds, the clusters that it adds make up what was needed, each of them is
  -- one of 2 up to the last writable one and free in both tables, and none is twice among them, since
  -- they ascend; the disk stays as it was, also where it fails.
  pub allocate-IsFree :
      (max_writable : ℕ) (d : D) (old_count needed : ℕ)
      → ((chain : List ℕ)
          → (allocate dev v max_writable d old_count needed).0 ≡ ok chain
          → (old_count + length chain ≡ needed)
            × IsFree v (m.contents d) 2 (2 + (max_writable - 1)) chain)
        × (m.contents (allocate dev v max_writable d old_count needed).1 ≡ m.contents d)
  unfolding allocate
  allocate-IsFree max_writable d old_count needed =
      elim (Bool-cases (ltb max_writable (needed + 1))) [
        | inl many ↦
            rw (allocate, many)
              (IsScan-failed (max_writable - 1) d d old_count needed 2 Errno.enospc refl)
        | inr fits ↦
            rw (allocate, fits)
              (scan_free-IsScan (max_writable - 1) d
                (record { loaded = none; first = []; second = [] }) old_count needed 2
                (λ sector e. absurd (cc)))
      ]
