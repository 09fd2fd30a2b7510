-- ===== src/Disk/Streamer/Read.antt =====
-- diskstreamer_read of kernel/disk/streamer.c against the bytes on the disk.
use rorth_ox.Prelude.{
  ℕ, zero, suc, ◌+◌, ◌-◌, ◌/◌, ◌%◌, ◌≤◌, ◌<◌, ◌≡◌, ◌≢◌, inl, inr, refl, sym, ◌∙◌, ap, subst, false,
  List, [], ◌++◌, ltb, ◌==◌, arith, length, get_or, take, drop, pos, Bool-cases, lt_or_le,
  length-take, length-drop, length-append, get_or-take, get_or-drop, get_or-append,
}
use rorth_ox.Status.{Result, ok, err, Errno}
use rorth_ox.Disk.{BlockDevice, Media, sector_size}
use rorth_ox.Disk.Streamer.{int_max, chunk, Done, read_loop, read}

module _ {D : Type 0} (dev : BlockDevice D) (m : Media dev) where
  -- What a read of `total` bytes at `position` has stored when it returns, complete or not.
  pub record Delivered (d : D) (position total : ℕ) (r : Done D) : Type 0 where
    pub moved : r.position ≡ position + length r.bytes
    pub within : length r.bytes ≤ total
    pub bytes : (i : ℕ) → i < length r.bytes → get_or r.bytes i 0 ≡ m.contents d (position + i)
    pub kept : (j : ℕ) → m.contents r.device j ≡ m.contents d j
    pub complete : r.result ≡ ok 0 → length r.bytes ≡ total

  -- The part of a sector that a round stores.
  piece-bytes :
      (d : D) (position n i : ℕ) (buf : List ℕ)
      → (dev.read_block d (position / sector_size)).0 ≡ ok buf
      → position % sector_size + n ≤ sector_size
      → i < n
      → get_or (take n (drop (position % sector_size) buf)) i 0 ≡ m.contents d (position + i)
  piece-bytes d position n i buf got fits h =
      get_or-take n (drop (position % sector_size) buf) i 0 h
      ∙ get_or-drop (position % sector_size) buf i 0
      ∙ m.read_holds d (position / sector_size) (position % sector_size + i) buf got (omega arith)
      ∙ ap (m.contents d) (omega arith)

  length-piece :
      (d : D) (position n : ℕ) (buf : List ℕ)
      → (dev.read_block d (position / sector_size)).0 ≡ ok buf
      → position % sector_size + n ≤ sector_size
      → length (take n (drop (position % sector_size) buf)) ≡ n
  length-piece d position n buf got fits =
      let whole = m.read_length d (position / sector_size) buf got in
      omega (
        arith,
        length-take n (drop (position % sector_size) buf),
        length-drop (position % sector_size) buf,
      )

  -- A round's piece in front of what the later rounds store.
  joined-Delivered :
      (d : D) (position total n : ℕ) (piece : List ℕ) (r : Done D)
      → length piece ≡ n
      → n ≤ total
      → ((i : ℕ) → i < n → get_or piece i 0 ≡ m.contents d (position + i))
      → Delivered (dev.read_block d (position / sector_size)).1 (position + n) (total - n) r
      → Delivered d position total (record {
        result = r.result;
        bytes = piece ++ r.bytes;
        position = r.position;
        device = r.device;
      })
  joined-Delivered d position total n piece r len few here later =
      let all = length-append piece r.bytes in
      let moved' = later.moved in
      let within' = later.within in
      let d' = (dev.read_block d (position / sector_size)).1 in
      record {
        moved = omega arith;
        within = omega arith;
        bytes = λ i h. elim (lt_or_le i n) [
          | inl near ↦
              let front = get_or-append piece r.bytes i 0 in let value = here i near in ground arith
          | inr far ↦
              let back = get_or-append piece r.bytes i 0 in
              let value = later.bytes (i - n) (omega arith) in
              let same = m.read_keeps d (position / sector_size) (position + n + (i - n)) in
              let place : m.contents d (position + n + (i - n)) ≡ m.contents d (position + i) =
                ap (m.contents d) (omega arith) in
              let index : get_or r.bytes (i - length piece) 0 ≡ get_or r.bytes (i - n) 0 =
                ap (λ k. get_or r.bytes k 0) {x = i - length piece} {y = i - n} (omega arith) in
              ground arith
        ];
        kept = λ j. later.kept j ∙ m.read_keeps d (position / sector_size) j;
        complete = λ e. (let c = later.complete e in omega arith);
      }

  nothing_read :
      (d : D) (position : ℕ)
      → Delivered d position 0
          (record { result = ok 0; bytes = []; position = position; device = d })
  nothing_read d position = record {
    moved = omega arith;
    within = omega arith;
    bytes = λ i h. absurd (omega arith);
    kept = λ j. refl;
    complete = λ e. refl;
  }

  -- A read that fails at its next sector has stored nothing more.
  failed_read :
      (d : D) (position total n : ℕ) (e : Errno)
      → Delivered d position total (record {
        result = err e;
        bytes = [];
        position = position;
        device = (dev.read_block d n).1;
      })
  failed_read d position total n e = record {
    moved = omega arith;
    within = omega arith;
    bytes = λ i h. absurd (omega arith);
    kept = λ j. m.read_keeps d n j;
    complete = λ same. ground arith;
  }

  -- A round whose sector read answers `answer`, from what the later rounds deliver.
  round-Delivered :
      (rounds : ℕ)
      → ((d : D) (position total : ℕ)
          → total ≤ rounds
          → Delivered d position total (read_loop dev rounds d position total))
      → (d : D) (position total : ℕ) → total ≤ suc rounds
      → (total == 0) ≡ false
      → (answer : Result (List ℕ)) → (dev.read_block d (position / sector_size)).0 ≡ answer
      → Delivered d position total (read_loop dev (suc rounds) d position total)
  unfolding read_loop
  round-Delivered rounds later d position total enough more (err e) got =
      rw (read_loop, more, got) (failed_read d position total (position / sector_size) e)
  round-Delivered rounds later d position total enough more (ok buf) got =
      let some_left : 0 < total = ground arith in
      let n = chunk position total in
      let d' = (dev.read_block d (position / sector_size)).1 in
      rw (read_loop, more, got)
        (joined-Delivered d position total n (take n (drop (position % sector_size) buf))
          (read_loop dev rounds d' (position + n) (total - n))
          (length-piece d position n buf got (omega arith)) (omega arith)
          (λ i h. piece-bytes d position n i buf got (omega arith) h)
          (later d' (position + n) (total - n) (omega arith)))

  read_loop-Delivered :
      (rounds : ℕ) (d : D) (position total : ℕ)
      → total ≤ rounds
      → Delivered d position total (read_loop dev rounds d position total)
  unfolding read_loop
  read_loop-Delivered zero d position total enough =
      subst
        (λ t.
          Delivered d position t
            (record { result = ok 0; bytes = []; position = position; device = d }))
        {x = 0} {y = total} (omega arith) (nothing_read d position)
  read_loop-Delivered (suc rounds) d position total enough = elim (Bool-cases (total == 0)) [
    | inl none_left ↦
        let zero_left : 0 ≡ total = ground arith in
        rw (read_loop, none_left)
          (subst
            (λ t.
              Delivered d position t
                (record { result = ok 0; bytes = []; position = position; device = d }))
            zero_left (nothing_read d position))
    | inr more ↦
        round-Delivered rounds (read_loop-Delivered rounds) d position total enough more
          (dev.read_block d (position / sector_size)).0 refl
  ]

  round_zero :
      (rounds : ℕ) (n : ℕ)
      → ((d : D) (position total : ℕ)
          → (read_loop dev rounds d position total).result ≡ ok n
          → n ≡ 0)
      → (d : D) (position total : ℕ) → (total == 0) ≡ false
      → (answer : Result (List ℕ)) → (dev.read_block d (position / sector_size)).0 ≡ answer
      → (read_loop dev (suc rounds) d position total).result ≡ ok n
      → n ≡ 0
  unfolding read_loop
  round_zero rounds n later d position total more (err e) got h =
      let a : (read_loop dev (suc rounds) d position total).result ≡ err e =
        rw (read_loop, more, got) refl in
      absurd (let b = sym a ∙ h in cc)
  round_zero rounds n later d position total more (ok buf) got h =
      later (dev.read_block d (position / sector_size)).1 (position + chunk position total)
        (total - chunk position total)
        (let a : (read_loop dev (suc rounds) d position total).result
              ≡ (read_loop dev rounds (dev.read_block d (position / sector_size)).1
                  (position + chunk position total) (total - chunk position total)).result =
            rw (read_loop, more, got) refl in
          sym a ∙ h)

  loop_zero :
      (rounds n : ℕ) (d : D) (position total : ℕ)
      → (read_loop dev rounds d position total).result ≡ ok n
      → n ≡ 0
  unfolding read_loop
  loop_zero zero n d position total h = cc
  loop_zero (suc rounds) n d position total h = elim (Bool-cases (total == 0)) [
    | inl none_left ↦
        let a : (read_loop dev (suc rounds) d position total).result ≡ ok 0 =
          rw (read_loop, none_left) refl in
        let b = sym a ∙ h in cc
    | inr more ↦
        round_zero rounds n (loop_zero rounds n) d position total more
          (dev.read_block d (position / sector_size)).0 refl h
  ]

  -- The only success of a read is 0.
  pub read_zero :
      (d : D) (position total n : ℕ) → (read dev d position (pos total)).result ≡ ok n → n ≡ 0
  unfolding read
  read_zero d position total n h = elim (Bool-cases (ltb (int_max - position) total)) [
    | inl out ↦
        let a : (read dev d position (pos total)).result ≡ err Errno.einvarg =
          rw (read, out) refl in
        absurd (let b = sym a ∙ h in cc)
    | inr fits ↦
        let a : (read dev d position (pos total)).result
            ≡ (read_loop dev total d position total).result =
          rw (read, fits) refl in
        loop_zero total n d position total (sym a ∙ h)
  ]

  -- A read of `total` bytes that ends within an int, if it returns 0, has stored the `total` bytes
  -- of the disk from the position on; if a sector cannot be read, it has stored the bytes before
  -- it. In both cases the position has moved by what was stored, and the disk is unchanged.
  pub read-Delivered :
      (d : D) (position total : ℕ)
      → position + total ≤ int_max
      → Delivered d position total (read dev d position (pos total))
  unfolding read
  read-Delivered d position total fits =
      let within_int : ltb (int_max - position) total ≡ false = ground arith in
      rw (read, within_int) (read_loop-Delivered total d position total (omega arith))

  -- Of a drive that reads every sector of 28 bits.
  module _
      (reads : (d : D) (n : ℕ) (e : Errno) → n < 0x10000000 → (dev.read_block d n).0 ≢ err e) where
    round-ok :
        (rounds : ℕ)
        → ((d : D) (position total : ℕ)
            → position + total ≤ int_max
            → (read_loop dev rounds d position total).result ≡ ok 0)
        → (d : D) (position total : ℕ) → position + total ≤ int_max
        → (total == 0) ≡ false
        → (answer : Result (List ℕ)) → (dev.read_block d (position / sector_size)).0 ≡ answer
        → (read_loop dev (suc rounds) d position total).result ≡ ok 0
    unfolding read_loop
    round-ok rounds later d position total fits more (err e) got =
        absurd (reads d (position / sector_size) e (omega arith) got)
    round-ok rounds later d position total fits more (ok buf) got =
        rw (read_loop, more, got)
          (later (dev.read_block d (position / sector_size)).1 (position + chunk position total)
            (total - chunk position total) (omega arith))

    read_loop-ok :
        (rounds : ℕ) (d : D) (position total : ℕ)
        → position + total ≤ int_max
        → (read_loop dev rounds d position total).result ≡ ok 0
    unfolding read_loop
    read_loop-ok zero d position total fits = refl
    read_loop-ok (suc rounds) d position total fits = elim (Bool-cases (total == 0)) [
      | inl none_left ↦ rw (read_loop, none_left) refl
      | inr more ↦
          round-ok rounds (read_loop-ok rounds) d position total fits more
            (dev.read_block d (position / sector_size)).0 refl
    ]

    -- A read within an int over a drive that reads every sector of 28 bits returns 0 and stores all `total`
    -- bytes.
    pub read-ok :
        (d : D) (position total : ℕ)
        → position + total ≤ int_max
        → ((read dev d position (pos total)).result ≡ ok 0)
          × (length (read dev d position (pos total)).bytes ≡ total)
    unfolding read
    read-ok d position total fits =
        let within_int : ltb (int_max - position) total ≡ false = ground arith in
        let fine : (read dev d position (pos total)).result ≡ ok 0 =
          rw (read, within_int) (read_loop-ok total d position total fits) in
        (fine, (read-Delivered d position total fits).complete fine)
