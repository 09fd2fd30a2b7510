-- ===== src/Fat16/Update/Enough.antt =====
-- kernel/fs/fat/fat16.c: when a file gets the clusters that it asks for.
use rorth_ox.Prelude.{
  ℕ, zero, suc, ◌+◌, ◌-◌, ◌/◌, ◌%◌, ◌≤◌, ◌<◌, ◌≡◌, ◌≢◌, inl, inr, refl, ◌∙◌, ap, ap₂, sym, subst,
  Bool, true, false, ◌&&◌, none, some, List, [], ◌∷◌, arith, ltb, ◌==◌, if◌then◌else◌, Bool-cases,
}
use rorth_ox.Status.{Result, ok, err, Errno}
use rorth_ox.Disk.{BlockDevice, Media}
use rorth_ox.Fat16.{Volume}
use rorth_ox.Fat16.Geometry.{Contents, entry}
use rorth_ox.Fat16.Update.{
  Tables, entry_of, is_free, is_loaded, more, load, load_first, load_second, scan_free, allocate,
}
use rorth_ox.Fat16.Update.Allocate.{load-IsLoad}
use rorth_ox.Fat16.Update.Free.{second_entry, entry_of_first, entry_of_second, Holds, IsCurrent}

module _ (v : Volume) (bytes : Contents) where
  abbrev free_in_both : ℕ → Bool
  free_in_both cluster = (entry v bytes cluster == 0) && (second_entry v bytes cluster == 0)

  -- How many of the `count` clusters from one on are free in both tables.
  unfoldable pub free_count : ℕ → ℕ → ℕ
  free_count zero cluster = 0
  free_count (suc count) cluster =
      (if free_in_both cluster then 1 else 0) + free_count count (cluster + 1)

  is_free_lem :
      (t : Tables) (cluster : ℕ)
      → Holds v bytes t (cluster / 256)
      → is_free t cluster ≡ free_in_both cluster
  is_free_lem t cluster h =
      let e : entry_of t.first (cluster % 256) ≡ entry v bytes cluster =
        entry_of_first v bytes t cluster h in
      let e' : entry_of t.second (cluster % 256) ≡ second_entry v bytes cluster =
        entry_of_second v bytes t cluster h in
      ap₂ (λ a b. (a == 0) && (b == 0)) e e'

module _ {D : Type 0} (dev : BlockDevice D) (m : Media dev) (v : Volume)
    (small : v.reserved_sectors < 0x10000) (small_table : v.sectors_per_fat < 0x10000)
    (reads : (d : D) (n : ℕ) (e : Errno) → n < 0x10000000 → (dev.read_block d n).0 ≢ err e) where
  pub record Succeeds {A : Type 0} (r : Result A) : Type 0 where
    pub value : A
    pub done : r ≡ ok value

  read_ok :
      (d : D) (n : ℕ) (got : Result (List ℕ))
      → n < 0x10000000
      → (dev.read_block d n).0 ≡ got
      → Succeeds (dev.read_block d n).0
  read_ok d n (err e) low h = absurd (reads d n e low h)
  read_ok d n (ok sector) low h = record { value = sector; done = h }

  load_ok :
      (d : D) (t : Tables) (sector : ℕ) → sector < 0x10000 → Succeeds (load dev v d t sector).0
  unfolding load load_first load_second
  load_ok d t sector low = elim (Bool-cases (is_loaded t sector)) [
    | inl held ↦ rw (load, held) (record { value = t; done = refl })
    | inr other ↦
        let first = read_ok d (v.reserved_sectors + sector) _ (omega arith) refl in
        let d' = (dev.read_block d (v.reserved_sectors + sector)).1 in
        let second =
          read_ok d' (v.reserved_sectors + v.sectors_per_fat + sector) _ (omega arith) refl in
        let done' : (load dev v d t sector).0
            ≡ ok (record { loaded = some sector; first = first.value; second = second.value }) =
          rw (load, other)
            (ap (λ r. (load_first dev v sector (r, d')).0) first.done
              ∙ ap
                  (λ r.
                    (load_second dev v sector first.value (
                      r,
                      (dev.read_block d' (v.reserved_sectors + v.sectors_per_fat + sector)).1,
                    )).0)
                  second.done) in
        record { value = _; done = done' }
  ]

  -- What the loop answers, by the number of free clusters ahead.
  record IsAnswer (count needed free : ℕ) (r : Result (List ℕ)) : Type 0 where
    given : needed ≤ count + free → Succeeds r
    refused : count + free < needed → r ≡ err Errno.enospc

  ended :
      (count needed : ℕ) (b : Bool)
      → count ≤ needed
      → (count == needed) ≡ b
      → IsAnswer count needed 0 (if b then ok [] else err Errno.enospc)
  ended count needed true low e = record {
    given = λ h. record { value = []; done = refl };
    refused = λ h. absurd (ground arith);
  }
  ended count needed false low e = record {
    given = λ h. absurd (ground arith);
    refused = λ h. refl;
  }

  one_more :
      (count needed free cluster : ℕ) (r : Result (List ℕ))
      → IsAnswer (count + 1) needed free r
      → IsAnswer count needed (1 + free) (more cluster r)
  one_more count needed free cluster r a = record {
    given = λ h.
        (let g = a.given (omega arith) in
          record { value = cluster ∷ g.value; done = ap (more cluster) g.done });
    refused = λ h. ap (more cluster) (a.refused (omega arith));
  }

  module _ (rounds : ℕ) (d : D) (t : Tables) (count needed cluster : ℕ)
      (later : (d' : D) (t' : Tables) (count' : ℕ)
        → count' ≤ needed
        → IsCurrent v (m.contents d') t'
        → IsAnswer count' needed
            (free_count v (m.contents d') rounds (cluster + 1))
            (scan_free dev v rounds d' t' count' needed (cluster + 1)).0)
      (current : IsCurrent v (m.contents d) t) (under : ltb count needed ≡ true) where
    answer :
        (t' : Tables)
        → (load dev v d t (cluster / 256)).0 ≡ ok t'
        → IsAnswer count needed
            (free_count v (m.contents d) (suc rounds) cluster)
            (scan_free dev v (suc rounds) d t count needed cluster).0
    unfolding scan_free free_count
    answer t' h =
        let l = load-IsLoad dev m v d t (cluster / 256) current in
        let d' = (load dev v d t (cluster / 256)).1 in
        let held = l.0 t' h in
        let held' : IsCurrent v (m.contents d') t' = λ sector e.
          (let s : some (cluster / 256) ≡ some sector = sym held.0 ∙ e in
            let n : cluster / 256 ≡ sector = cc in
            subst (λ c. Holds v c t' sector) (sym l.1)
              (subst (Holds v (m.contents d) t') n held.1)) in
        let same = is_free_lem v (m.contents d) t' cluster held.1 in
        elim (Bool-cases (is_free t' cluster)) [
          | inl free ↦
              let counted : free_in_both v (m.contents d) cluster ≡ true = sym same ∙ free in
              rw (scan_free, free_count, under, h, free, counted)
                (one_more count needed _ cluster _ (
                  subst
                    (λ c.
                      IsAnswer (count + 1) needed (free_count v c rounds (cluster + 1))
                        (scan_free dev v rounds d' t' (count + 1) needed (cluster + 1)).0)
                    l.1 (later d' t' (count + 1) (ground arith) held')))
          | inr used ↦
              let counted : free_in_both v (m.contents d) cluster ≡ false = sym same ∙ used in
              rw (scan_free, free_count, under, h, used, counted)
                (subst
                  (λ c.
                    IsAnswer count needed (0 + free_count v c rounds (cluster + 1))
                      (scan_free dev v rounds d' t' count needed (cluster + 1)).0)
                  l.1
                  (subst
                    (λ n.
                      IsAnswer count needed n
                        (scan_free dev v rounds d' t' count needed (cluster + 1)).0)
                    {x = free_count v (m.contents d') rounds (cluster + 1)} (omega arith)
                    (later d' t' count (ground arith) held')))
        ]

  full_already :
      (count needed free : ℕ)
      → count ≡ needed
      → IsAnswer count needed free (if count == needed then ok [] else err Errno.enospc)
  full_already count needed free e =
      let same : (count == needed) ≡ true = ground arith in
      rw (same) (record {
        given = λ h. record { value = []; done = refl };
        refused = λ h. absurd (omega arith);
      })

  scan_free-IsAnswer :
      (rounds : ℕ) (d : D) (t : Tables) (count needed cluster : ℕ)
      → count ≤ needed
      → cluster + rounds < 0x20000
      → IsCurrent v (m.contents d) t
      → IsAnswer count needed
          (free_count v (m.contents d) rounds cluster)
          (scan_free dev v rounds d t count needed cluster).0
  unfolding scan_free free_count
  scan_free-IsAnswer zero d t count needed cluster low near current =
      ended count needed (count == needed) low refl
  scan_free-IsAnswer (suc rounds) d t count needed cluster low near current =
      elim (Bool-cases (ltb count needed)) [
        | inl under ↦
            let l = load_ok d t (cluster / 256) (omega arith) in
            answer rounds d t count needed cluster
              (λ d' t' count' low' c.
                scan_free-IsAnswer rounds d' t' count' needed (cluster + 1) low' (omega arith) c)
              current under l.value l.done
        | inr over ↦ rw (scan_free, over) (full_already count needed _ (ground arith))
      ]

  from_second :
      (max_writable : ℕ) (d : D) (old_count needed : ℕ)
      → old_count ≤ needed
      → max_writable < 0x10000
      → IsAnswer old_count needed
          (free_count v (m.contents d) (max_writable - 1) 2)
          (scan_free dev v
            (max_writable - 1)
            d
            (record { loaded = none; first = []; second = [] })
            old_count
            needed
            2).0
  from_second max_writable d old_count needed low near =
      scan_free-IsAnswer (max_writable - 1) d (record { loaded = none; first = []; second = [] })
        old_count needed 2 low (omega arith) (λ sector e. absurd (cc))

  -- Over a disk whose sectors of 28-bit numbers can all be read, with 16-bit numbers of reserved
  -- sectors and of sectors for a table, and a last writable cluster below 0x10000: where a file gets no
  -- fewer clusters than it has, fewer than the number of the last writable one, and enough of them are
  -- free in both tables, the allocation succeeds.
  pub allocate-enough :
      (max_writable : ℕ) (d : D) (old_count needed : ℕ)
      → old_count ≤ needed
      → max_writable < 0x10000
      → needed < max_writable
      → needed ≤ old_count + free_count v (m.contents d) (max_writable - 1) 2
      → Succeeds (allocate dev v max_writable d old_count needed).0
  unfolding allocate
  allocate-enough max_writable d old_count needed low near fits free =
      let within : ltb max_writable (needed + 1) ≡ false = ground arith in
      rw (allocate, within) ((from_second max_writable d old_count needed low near).given free)

  -- Where they are too few, it ends in -ENOSPC.
  allocate_short :
      (max_writable : ℕ) (d : D) (old_count needed : ℕ)
      → old_count ≤ needed
      → max_writable < 0x10000
      → old_count + free_count v (m.contents d) (max_writable - 1) 2 < needed
      → (allocate dev v max_writable d old_count needed).0 ≡ err Errno.enospc
  unfolding allocate
  allocate_short max_writable d old_count needed low near few =
      elim (Bool-cases (ltb max_writable (needed + 1))) [
        | inl many ↦ rw (allocate, many) refl
        | inr fits ↦
            rw (allocate, fits) ((from_second max_writable d old_count needed low near).refused few)
      ]
