-- ===== src/Fat16/Update/Collect.antt =====
-- kernel/fs/fat/fat16.c: the list of clusters that a file has.
use rorth_ox.Prelude.{
  ℕ, zero, suc, ◌+◌, ◌-◌, ◌≤◌, ◌<◌, ◌≡◌, inl, inr, refl, ◌∙◌, ap, subst, Bool, true, false, not,
  ◌||◌, List, [], ◌∷◌, arith, ltb, leb, ◌==◌, if◌then◌else◌, length, Bool-cases, lt_or_le,
}
use rorth_ox.Status.{Result, ok, err, Errno}
use rorth_ox.Disk.{BlockDevice, Media}
use rorth_ox.Disk.Streamer.{int_max}
use rorth_ox.Paths.{Memory, kzalloc, kfree}
use rorth_ox.Paths.Leaks.{kzalloc-live}
use rorth_ox.Fat16.{Volume, end_of_chain, valid_cluster, get_fat_entry}
use rorth_ox.Fat16.Geometry.{entry}
use rorth_ox.Fat16.Chains.{get_fat_entry_lem, valid_cluster-small}
use rorth_ox.Fat16.Descriptor.{Item}
use rorth_ox.Fat16.Update.{mark_seen, needed_clusters, more, collect, settled, collect_chain}
use rorth_ox.Fat16.Update.Chain.{IsWhole, Found, nothing-Found, last-Found, next-Found}

pub valid_cluster_from : (v : Volume) (c : ℕ) → valid_cluster v c ≡ true → 2 ≤ c
unfolding valid_cluster
valid_cluster_from v c h = ground arith

module _ {D : Type 0} (dev : BlockDevice D) (m : Media dev) (v : Volume)
    (small : v.reserved_sectors < 0x10000) (max_writable : ℕ) where
  abbrev Collected : ℕ → (ℕ → Bool) → D → ℕ → Result (List ℕ) × D → Type 0
  Collected room seen d start r =
      ((chain : List ℕ)
        → r.0 ≡ ok chain
        → Found v (m.contents d) max_writable room seen start chain)
      × (m.contents r.1 ≡ m.contents d)

  refused :
      (room : ℕ) (seen : ℕ → Bool) (d d' : D) (start : ℕ) (e : Errno)
      → m.contents d' ≡ m.contents d
      → Collected room seen d start (err e, d')
  refused room seen d d' start e same = (λ chain h. absurd (cc), same)

  handed_out :
      (room : ℕ) (seen : ℕ → Bool) (d d' : D) (start : ℕ) (chain : List ℕ)
      → m.contents d' ≡ m.contents d
      → Found v (m.contents d) max_writable room seen start chain
      → Collected room seen d start (ok chain, d')
  handed_out room seen d d' start chain same found = (
    λ chain' h.
        (let e : chain ≡ chain' = cc in
          subst (Found v (m.contents d) max_writable room seen start) e found),
    same,
  )

  module _ (room : ℕ) (seen : ℕ → Bool) (d : D) (start : ℕ) (valid : valid_cluster v start ≡ true)
      (low : start ≤ max_writable) (fresh : seen start ≡ false) where
    -- The list with this cluster in front of what the rest of the loop hands out.
    in_front :
        (next : ℕ) (d' : D) (rest : Result (List ℕ) × D)
        → next ≡ entry v (m.contents d) start
        → m.contents d' ≡ m.contents d
        → valid_cluster v next ≡ true
        → Collected room (mark_seen seen start) d' next rest
        → Collected (suc room) seen d start (more start rest.0, rest.1)
    in_front next d' (err e, d'') n same valid' later =
        refused (suc room) seen d d'' start e (later.1 ∙ same)
    in_front next d' (ok chain, d'') n same valid' later =
        let found =
          subst
            (λ c.
              Found v c max_writable room (mark_seen seen start) (entry v (m.contents d) start)
                chain)
            same
            (subst (λ c. Found v (m.contents d') max_writable room (mark_seen seen start) c chain) n
              (later.0 chain refl)) in
        handed_out (suc room) seen d d'' start (start ∷ chain) (later.1 ∙ same) (
          next-Found v (m.contents d) max_writable room seen start valid low fresh chain found
            (elim (lt_or_le 0 (length chain)) [
              | inl some_rest ↦ some_rest
              | inr no_rest ↦
                  let e = found.whole.empty (omega arith) in
                  absurd (omega (arith, valid_cluster_from v next valid'))
            ]))

    module _
        (later : (d' : D) (next : ℕ)
          → Collected room
              (mark_seen seen start)
              d'
              next
              (collect dev v max_writable room (mark_seen seen start) d' next))
        (nonzero : (start == 0) ≡ false)
        (good : (not (valid_cluster v start) || ltb max_writable start || seen start) ≡ false) where
      round :
          (got : Result ℕ)
          → (get_fat_entry dev v d start).0 ≡ got
          → Collected (suc room) seen d start (collect dev v max_writable (suc room) seen d start)
      unfolding collect
      round (err e) h =
          let small' = valid_cluster-small dev m v small start valid in
          let read = get_fat_entry_lem dev m v small d start (omega arith) in
          rw (collect, nonzero, good, h) (refused (suc room) seen d _ start e read.1)
      round (ok next) h =
          let small' = valid_cluster-small dev m v small start valid in
          let read = get_fat_entry_lem dev m v small d start (omega arith) in
          let n = read.0 next h in
          elim (Bool-cases (leb end_of_chain next)) [
            | inl last ↦
                rw (collect, nonzero, good, h, last)
                  (handed_out (suc room) seen d _ start (start ∷ []) read.1 (
                    last-Found v (m.contents d) max_writable room seen start valid low fresh
                      (ground arith)))
            | inr goes_on ↦ elim (Bool-cases (valid_cluster v next)) [
              | inl valid' ↦
                  rw (collect, nonzero, good, h, goes_on, valid')
                    (in_front next _ _ n read.1 valid' (later (get_fat_entry dev v d start).1 next))
              | inr bad ↦
                  rw (collect, nonzero, good, h, goes_on, bad)
                    (refused (suc room) seen d _ start Errno.eio read.1)
            ]
          ]

  collect-Collected :
      (room : ℕ) (seen : ℕ → Bool) (d : D) (start : ℕ)
      → Collected room seen d start (collect dev v max_writable room seen d start)
  unfolding collect
  collect-Collected zero seen d start = elim (Bool-cases (start == 0)) [
    | inl none_left ↦
        rw (collect, none_left)
          (handed_out zero seen d d start [] refl
            (nothing-Found v (m.contents d) max_writable zero seen start (ground arith)))
    | inr nonzero ↦ rw (collect, nonzero) (refused zero seen d d start Errno.eio refl)
  ]
  collect-Collected (suc room) seen d start = elim (Bool-cases (start == 0)) [
    | inl none_left ↦
        rw (collect, none_left)
          (handed_out (suc room) seen d d start [] refl
            (nothing-Found v (m.contents d) max_writable (suc room) seen start (ground arith)))
    | inr nonzero ↦
        elim (Bool-cases (not (valid_cluster v start) || ltb max_writable start || seen start)) [
          | inl bad ↦ rw (collect, nonzero, bad) (refused (suc room) seen d d start Errno.eio refl)
          | inr good ↦
              round room seen d start (ground arith) (ground arith) (ground arith)
                (collect-Collected room (mark_seen seen start)) nonzero good
                (get_fat_entry dev v d start).0 refl
        ]
  ]

  -- What `fat16_collect_chain` leaves of the heap `h`, its list apart if it hands one out.
  pub record IsCollected (item : Item) (d : D) (h : Memory) (r : Result (List ℕ) × D × Memory)
      : Type 0 where
    pub whole :
        (chain : List ℕ)
        → r.0 ≡ ok chain
        → IsWhole v (m.contents d) max_writable item.low_first_cluster chain
    pub enough :
        (chain : List ℕ)
        → r.0 ≡ ok chain
        → (needed_clusters v item.filesize ≤ length chain) × (length chain ≤ max_writable - 1)
    pub kept : m.contents r.1 ≡ m.contents d
    pub refused_live : (e : Errno) → r.0 ≡ err e → r.2.live ≡ h.live
    pub handed_live :
        (chain : List ℕ)
        → r.0 ≡ ok chain
        → r.2.live ≡ h.live + (if leb max_writable 1 then 0 else 1)

  turned_down :
      (item : Item) (d d' : D) (h h' : Memory) (e : Errno)
      → m.contents d' ≡ m.contents d
      → h'.live ≡ h.live
      → IsCollected item d h (err e, d', h')
  turned_down item d d' h h' e same live = record {
    whole = λ chain r. absurd (cc);
    enough = λ chain r. absurd (cc);
    kept = same;
    refused_live = λ e' r. live;
    handed_live = λ chain r. absurd (cc);
  }

  freed :
      (reserved : Bool) (h h' : Memory)
      → h'.live ≡ h.live + (if reserved then 1 else 0)
      → (if reserved then kfree h' else h').live ≡ h.live
  unfolding kfree
  freed true h h' live = omega arith
  freed false h h' live = omega arith

  reserved_size :
      (reserved : Bool)
      → leb max_writable 1 ≡ not reserved
      → ◌≡◌ {A = ℕ} (if reserved then 1 else 0) (if leb max_writable 1 then 0 else 1)
  reserved_size true e = ground arith
  reserved_size false e = ground arith

  settled-IsCollected :
      (reserved : Bool) (item : Item) (d : D) (h h' : Memory) (r : Result (List ℕ) × D)
      → h'.live ≡ h.live + (if reserved then 1 else 0)
      → leb max_writable 1 ≡ not reserved
      → Collected (max_writable - 1) (λ n. false) d item.low_first_cluster r
      → IsCollected item d h (settled dev v reserved (needed_clusters v item.filesize) r h')
  unfolding settled
  settled-IsCollected reserved item d h h' (err e, d') live none_reserved got =
      turned_down item d d' h _ e got.1 (freed reserved h h' live)
  settled-IsCollected reserved item d h h' (ok chain, d') live none_reserved got =
      elim (Bool-cases (ltb (length chain) (needed_clusters v item.filesize))) [
        | inl short ↦
            rw (settled, short)
              (turned_down item d d' h _ Errno.eio got.1 (freed reserved h h' live))
        | inr enough' ↦
            let found = got.0 chain refl in
            let fits' = found.fits in
            rw (settled, enough')
              (record {
                whole = λ chain' r.
                    (let e : chain ≡ chain' = cc in
                      subst (IsWhole v (m.contents d) max_writable item.low_first_cluster) e
                        found.whole);
                enough = λ chain' r.
                    (let e : chain ≡ chain' = cc in
                      subst
                        (λ c.
                          (needed_clusters v item.filesize ≤ length c)
                          × (length c ≤ max_writable - 1))
                        e (ground arith, fits'));
                kept = got.1;
                refused_live = λ e' r. absurd (cc);
                handed_live = λ chain' r.
                    (live ∙ ap (λ b. h.live + b) (reserved_size reserved none_reserved));
              })
      ]

  pub collect_chain-IsCollected :
      (item : Item) (d : D) (h : Memory)
      → IsCollected item d h (collect_chain dev v max_writable item d h)
  unfolding collect_chain
  collect_chain-IsCollected item d h =
      let found = collect-Collected (max_writable - 1) (λ n. false) d item.low_first_cluster in
      let a = kzalloc-live h in
      elim (Bool-cases (not (item.high_first_cluster == 0))) [
        | inl high ↦ rw (collect_chain, high) (turned_down item d d h h Errno.eio refl refl)
        | inr low ↦ elim (Bool-cases (ltb int_max item.filesize)) [
          | inl big ↦ rw (collect_chain, low, big) (turned_down item d d h h Errno.efbig refl refl)
          | inr small' ↦ elim (Bool-cases (leb max_writable 1)) [
            | inl no_room ↦
                rw (collect_chain, low, small', no_room)
                  (settled-IsCollected false item d h h _ (omega arith) no_room found)
            | inr room ↦ elim (Bool-cases (kzalloc h).0) [
              | inl given ↦
                  rw (collect_chain, low, small', room, given)
                    (settled-IsCollected true item d h (kzalloc h).1 _ (ground arith) room found)
              | inr out ↦
                  rw (collect_chain, low, small', room, out)
                    (turned_down item d d h _ Errno.enomem refl (ground arith))
            ]
          ]
        ]
      ]
