-- ===== src/Fat16/Reading.antt =====
-- kernel/fs/fat/fat16.c: the reads of a file, over the bytes of a disk.
use rorth_ox.Prelude.{
  ℕ, zero, suc, ◌+◌, ◌-◌, ◌*◌, ◌/◌, ◌%◌, ◌≤◌, ◌<◌, ◌≡◌, inl, inr, refl, ◌∙◌, ap, ap₂, sym, subst,
  true, false, ◌||◌, List, [], ◌++◌, arith, ltb, ◌==◌, if◌then◌else◌, length, get_or, length-append,
  get_or-append, min, pos, Bool-cases, lt_or_le,
}
use native.Mathlib.Nat.{mod-lt}
use mathlib.Core.Path.{fun_ext}
use rorth_ox.Status.{Result, ok, err, Errno}
use rorth_ox.Disk.{BlockDevice, Media, sector_size}
use rorth_ox.Disk.Streamer.{Done, seek, int_max}
use rorth_ox.Disk.Streamer.Read.{Delivered, read_zero}
use rorth_ox.Fat16.{
  Volume, cluster_to_sector, cluster_bytes, cluster_limit, valid_cluster, read_at, checked_next,
  get_fat_entry, get_cluster_for_offset, read_clusters, read_internal,
}
use rorth_ox.Fat16.Geometry.{entry, file_byte, file_byte-first, file_byte-next, file_byte-from}
use rorth_ox.Fat16.Chains.{read_at-Delivered, valid_cluster-small, next_lem, found-Walked}

pub ltb-true : {i n : ℕ} → i < n → ltb i n ≡ true
ltb-true h = ground arith

pub ltb-false : {i n : ℕ} → n ≤ i → ltb i n ≡ false
ltb-false h = ground arith

module _ {D : Type 0} (dev : BlockDevice D) (m : Media dev) (v : Volume)
    (small : v.reserved_sectors < 0x10000) where
  -- What a read of `total` bytes of the file from `offset` on leaves, if its chain starts at `start`.
  pub record IsRead (d : D) (start offset total : ℕ) (r : Result ℕ × List ℕ × D) : Type 0 where
    pub complete : (n : ℕ) → r.0 ≡ ok n → length r.1 ≡ total
    pub bytes :
        (i : ℕ) → i < length r.1 → get_or r.1 i 0 ≡ file_byte v (m.contents d) start (offset + i)
    pub kept : m.contents r.2 ≡ m.contents d

  module _ (rounds : ℕ) (d : D) (current within traversed total : ℕ) where
    abbrev pub part : ℕ
    part = min (cluster_bytes v - within) total

    abbrev pub place : ℕ
    place = cluster_to_sector v current * sector_size + within

    abbrev pub piece : Done D
    piece = read_at dev d place part

    abbrev pub after : Result ℕ × D
    after =
        checked_next dev v (ltb (cluster_limit v - 1) (traversed + 1))
          (get_fat_entry dev v piece.device current)

    abbrev whole : Result ℕ × List ℕ × D
    whole = read_clusters dev v (suc rounds) d current within traversed total

    pub loop_done : (total == 0) ≡ true → whole ≡ (ok 0, [], d)
    unfolding read_clusters
    loop_done e = rw (read_clusters, e) refl

    module _ (more : (total == 0) ≡ false) where
      loop_outside :
          (ltb int_max place || ltb (int_max - place) part) ≡ true → whole ≡ (err Errno.eio, [], d)
      unfolding read_clusters
      loop_outside e = rw (read_clusters, more, e) refl

      module _ (inside : (ltb int_max place || ltb (int_max - place) part) ≡ false) where
        loop_failed :
            (e : Errno) → piece.result ≡ err e → whole ≡ (err e, piece.bytes, piece.device)
        unfolding read_clusters
        loop_failed e h = rw (read_clusters, more, inside, h) refl

        pub loop_last :
            (n : ℕ)
            → piece.result ≡ ok n
            → (total - part == 0) ≡ true
            → whole ≡ (ok 0, piece.bytes, piece.device)
        unfolding read_clusters
        loop_last n h l = rw (read_clusters, more, inside, h, l) refl

        loop_cut :
            (n : ℕ) (e : Errno)
            → piece.result ≡ ok n
            → (total - part == 0) ≡ false
            → after.0 ≡ err e
            → whole ≡ (err e, piece.bytes, after.1)
        unfolding read_clusters
        loop_cut n e h l a = rw (read_clusters, more, inside, h, l, a) refl

        pub loop_next :
            (n next : ℕ)
            → piece.result ≡ ok n
            → (total - part == 0) ≡ false
            → after.0 ≡ ok next
            → whole ≡ (
              (read_clusters dev v rounds after.1 next 0 (traversed + 1) (total - part)).0,
              piece.bytes
                  ++ (read_clusters dev v rounds after.1 next 0 (traversed + 1) (total - part)).1,
              (read_clusters dev v rounds after.1 next 0 (traversed + 1) (total - part)).2,
            )
        unfolding read_clusters
        loop_next n next h l a = rw (read_clusters, more, inside, h, l, a) refl

    module _ (valid : valid_cluster v current ≡ true) (here : within < cluster_bytes v) where
      module _ (inside : (ltb int_max place || ltb (int_max - place) part) ≡ false) where
        given : Delivered dev m d place part piece
        given = read_at-Delivered dev m v d place part (ground arith)

        piece_bytes :
            (i : ℕ)
            → i < length piece.bytes
            → get_or piece.bytes i 0 ≡ file_byte v (m.contents d) current (within + i)
        piece_bytes i h =
            let w = given.within in
            given.bytes i h
            ∙ ap (m.contents d) {x = place + i}
                {y = cluster_to_sector v current * sector_size + (within + i)} (omega arith)
            ∙ sym (file_byte-first v (m.contents d) current (within + i) (omega arith))

        ended :
            (r : Result ℕ) (d' : D)
            → ((n : ℕ) → r ≡ ok n → length piece.bytes ≡ total)
            → m.contents d' ≡ m.contents d
            → IsRead d current within total (r, piece.bytes, d')
        ended r d' complete kept = record { complete = complete; bytes = piece_bytes; kept = kept }

        -- All the bytes of the piece, and behind them what the rest of the loop stored.
        joined :
            (next : ℕ) (rest : Result ℕ × List ℕ × D)
            → length piece.bytes ≡ part
            → (total - part == 0) ≡ false
            → next ≡ entry v (m.contents d) current
            → m.contents after.1 ≡ m.contents d
            → IsRead after.1 next 0 (total - part) rest
            → IsRead d current within total (rest.0, piece.bytes ++ rest.1, rest.2)
        joined next rest full more e same r =
            let sum = length-append piece.bytes rest.1 in
            record {
              complete = λ n h. omega (arith, r.complete n h);
              bytes = λ i h. elim (lt_or_le i (length piece.bytes)) [
                | inl low ↦
                    get_or-append piece.bytes rest.1 i 0
                    ∙ ap
                        (λ b.
                          if b
                          then get_or piece.bytes i 0
                          else get_or rest.1 (i - length piece.bytes) 0)
                        (ltb-true low)
                    ∙ piece_bytes i low
                | inr high ↦
                    get_or-append piece.bytes rest.1 i 0
                    ∙ ap
                        (λ b.
                          if b
                          then get_or piece.bytes i 0
                          else get_or rest.1 (i - length piece.bytes) 0)
                        (ltb-false high)
                    ∙ r.bytes (i - length piece.bytes) (omega arith)
                    ∙ ap₂ (λ c x. file_byte v c x (0 + (i - length piece.bytes))) same e
                    ∙ file_byte-next v (m.contents d) current (0 + (i - length piece.bytes))
                        (omega arith)
                    ∙ ap (file_byte v (m.contents d) current)
                        {x = cluster_bytes v + (0 + (i - length piece.bytes))} {y = within + i}
                        (ground arith)
              ];
              kept = r.kept ∙ same;
            }

  -- The loop from any place of a file on, once the rest of it is known.
  module _ (rounds : ℕ)
      (later : (d : D) (current within traversed total : ℕ)
        → total ≤ rounds
        → valid_cluster v current ≡ true
        → within < cluster_bytes v
        → IsRead d current within total
            (read_clusters dev v rounds d current within traversed total))
      (d : D) (current within traversed total : ℕ) (enough : total ≤ suc rounds)
      (valid : valid_cluster v current ≡ true) (here : within < cluster_bytes v)
      (more : (total == 0) ≡ false)
      (inside : (ltb int_max (place rounds d current within traversed total)
          || ltb
              (int_max - place rounds d current within traversed total)
              (part rounds d current within traversed total))
        ≡ false) where
    abbrev got_piece : Done D
    got_piece = piece rounds d current within traversed total

    abbrev got_next : Result ℕ × D
    got_next = after rounds d current within traversed total

    abbrev Goal : Type 0
    Goal =
        IsRead d current within total
          (read_clusters dev v (suc rounds) d current within traversed total)

    -- What `next_lem` says of the cluster behind this one.
    step :
        ((n : ℕ)
          → got_next.0 ≡ ok n
          → (n ≡ entry v (m.contents got_piece.device) current) × (valid_cluster v n ≡ true))
        × (m.contents got_next.1 ≡ m.contents got_piece.device)
    step =
        let low = valid_cluster-small dev m v small current valid in
        next_lem dev m v small (ltb (cluster_limit v - 1) (traversed + 1)) got_piece.device current
          (omega arith)

    same_disk : m.contents got_piece.device ≡ m.contents d
    same_disk = fun_ext (given rounds d current within traversed total valid here inside).kept

    following :
        (n : ℕ) (got : Result ℕ)
        → got_piece.result ≡ ok n
        → length got_piece.bytes ≡ part rounds d current within traversed total
        → (total - part rounds d current within traversed total == 0) ≡ false
        → got_next.0 ≡ got
        → Goal
    following n (err e) ok_piece full left a =
        subst (IsRead d current within total)
          (sym (loop_cut rounds d current within traversed total more inside n e ok_piece left a))
          (ended rounds d current within traversed total valid here inside (err e) got_next.1
            (λ n h. absurd (cc)) (step.1 ∙ same_disk))
    following n (ok next) ok_piece full left a =
        let s = step.0 next a in
        let rest =
          later got_next.1 next 0 (traversed + 1)
            (total - part rounds d current within traversed total) (ground arith) s.1
            (omega arith) in
        subst (IsRead d current within total)
          (sym
            (loop_next rounds d current within traversed total more inside n next ok_piece left a))
          (joined rounds d current within traversed total valid here inside next _ full left
            (s.0 ∙ ap (λ c. entry v c current) same_disk) (step.1 ∙ same_disk) rest)

    piece_cases : (got : Result ℕ) → got_piece.result ≡ got → Goal
    piece_cases (err e) h =
        subst (IsRead d current within total)
          (sym (loop_failed rounds d current within traversed total more inside e h))
          (ended rounds d current within traversed total valid here inside (err e) got_piece.device
            (λ n h. absurd (cc)) same_disk)
    piece_cases (ok n) h =
        let zeroed =
          read_zero dev m d (seek 0 (pos (place rounds d current within traversed total))).1
            (part rounds d current within traversed total) n h in
        let full =
          (given rounds d current within traversed total valid here inside).complete
            (h ∙ ap ok zeroed) in
        elim (Bool-cases (total - part rounds d current within traversed total == 0)) [
          | inl all ↦
              subst (IsRead d current within total)
                (sym (loop_last rounds d current within traversed total more inside n h all))
                (ended rounds d current within traversed total valid here inside (ok 0)
                  got_piece.device (λ n h. full ∙ ground arith) same_disk)
          | inr left ↦ following n got_next.0 h full left refl
        ]

  nothing_read :
      (d : D) (current within total : ℕ) → total ≡ 0 → IsRead d current within total (ok 0, [], d)
  nothing_read d current within total e = record {
    complete = λ n h. sym e;
    bytes = λ i h. absurd (omega arith);
    kept = refl;
  }

  refused_read :
      (d : D) (current within total : ℕ) → IsRead d current within total (err Errno.eio, [], d)
  refused_read d current within total = record {
    complete = λ n h. absurd (cc);
    bytes = λ i h. absurd (omega arith);
    kept = refl;
  }

  read_clusters-IsRead :
      (rounds : ℕ) (d : D) (current within traversed total : ℕ)
      → total ≤ rounds
      → valid_cluster v current ≡ true
      → within < cluster_bytes v
      → IsRead d current within total (read_clusters dev v rounds d current within traversed total)
  unfolding read_clusters
  read_clusters-IsRead zero d current within traversed total enough valid here =
      nothing_read d current within total (omega arith)
  read_clusters-IsRead (suc rounds) d current within traversed total enough valid here =
      elim (Bool-cases (total == 0)) [
        | inl e ↦
            subst (IsRead d current within total)
              (sym (loop_done rounds d current within traversed total e))
              (nothing_read d current within total (ground arith))
        | inr more ↦
            elim (Bool-cases (
              ltb int_max (place rounds d current within traversed total)
              || ltb (int_max - place rounds d current within traversed total)
                  (part rounds d current within traversed total))) [
                    | inl far ↦
                        subst (IsRead d current within total)
                          (sym (loop_outside rounds d current within traversed total more far))
                          (refused_read d current within total)
                    | inr inside ↦
                        piece_cases rounds (read_clusters-IsRead rounds) d current within traversed
                          total enough valid here more inside
                          (piece rounds d current within traversed total).result refl
                  ]
      ]

  found_cases :
      (d : D) (start offset total : ℕ) (got : Result ℕ)
      → (ltb (int_max - offset) total || cluster_bytes v == 0) ≡ false
      → (get_cluster_for_offset dev v d start offset).0 ≡ got
      → IsRead d start offset total (read_internal dev v d start offset total)
  unfolding read_internal
  found_cases d start offset total (err e) fine h =
      let walked = found-Walked dev m v small d start offset in
      rw (read_internal, fine, h)
        (record {
          complete = λ n h. absurd (cc);
          bytes = λ i h. absurd (omega arith);
          kept = walked.1;
        })
  found_cases d start offset total (ok current) fine h =
      let walked = found-Walked dev m v small d start offset in
      let w = walked.0 current h in
      let d' = (get_cluster_for_offset dev v d start offset).1 in
      let some_bytes : 0 < cluster_bytes v = ground arith in
      let r =
        read_clusters-IsRead total d' current (offset % cluster_bytes v)
          (offset / cluster_bytes v + 1) total (omega arith) w.1 (mod-lt offset some_bytes) in
      rw (read_internal, fine, h)
        (record {
          complete = r.complete;
          bytes = λ i l.
              (r.bytes i l
                ∙ ap₂ (λ c x. file_byte v c x (offset % cluster_bytes v + i)) walked.1 w.0
                ∙ file_byte-from v (m.contents d) start offset i some_bytes);
          kept = r.kept ∙ walked.1;
        })

  pub read_internal-IsRead :
      (d : D) (start offset total : ℕ)
      → IsRead d start offset total (read_internal dev v d start offset total)
  unfolding read_internal
  read_internal-IsRead d start offset total =
      elim (Bool-cases (ltb (int_max - offset) total || cluster_bytes v == 0)) [
        | inl bad ↦ rw (read_internal, bad) (refused_read d start offset total)
        | inr fine ↦
            found_cases d start offset total (get_cluster_for_offset dev v d start offset).0 fine
              refl
      ]
