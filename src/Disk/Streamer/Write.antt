-- ===== src/Disk/Streamer/Write.antt =====
-- diskstreamer_write of kernel/disk/streamer.c against the bytes on the disk.
use rorth_ox.Prelude.{
  ℕ, zero, suc, ◌+◌, ◌-◌, ◌*◌, ◌/◌, ◌%◌, ◌≤◌, ◌<◌, ◌≡◌, ◌≢◌, inl, inr, refl, ◌∙◌, ap, Bool, true,
  false, not, ◌&&◌, ◌||◌, List, [], ◌∷◌, ltb, leb, ◌==◌, if◌then◌else◌, arith, length, get_or, set,
  take, drop, pos, Bool-cases, lt_or_le, eq_or_ne, length-take, length-drop, get_or-take,
  get_or-drop, get_or_beyond, length-set, get_or-set_self, get_or-set_ne,
}
use rorth_ox.Status.{Result, ok, err, Errno}
use rorth_ox.Disk.{BlockDevice, Media, sector_size}
use rorth_ox.Disk.Streamer.{int_max, chunk, patch, sector_data, write_loop, write}

-- Item `i` of `old` with the list `new` laid over it at `at`.
abbrev pub overlaid : ℕ → List ℕ → ℕ → ℕ → ℕ
overlaid at new old i = if leb at i && ltb i (at + length new) then get_or new (i - at) 0 else old

length-patch :
    (buf : List ℕ) (offset : ℕ) (new : List ℕ) → length (patch buf offset new) ≡ length buf
unfolding patch
length-patch buf offset [] = refl
length-patch buf offset (c ∷ new) =
    length-patch (set buf offset c) (offset + 1) new ∙ length-set buf offset c

get_or-patch :
    (buf : List ℕ) (offset : ℕ) (new : List ℕ) (i : ℕ)
    → offset + length new ≤ length buf
    → get_or (patch buf offset new) i 0 ≡ overlaid offset new (get_or buf i 0) i
unfolding patch
get_or-patch buf offset [] i fits = ground arith
get_or-patch buf offset (c ∷ new) i fits =
    let room = length-set buf offset c in
    let later = get_or-patch (set buf offset c) (offset + 1) new i (omega arith) in
    elim (eq_or_ne offset i) [
      | inl same ↦
          let here = get_or-set_self buf offset c 0 (omega arith) in
          let there = ap (λ k. get_or (set buf offset c) k 0) same in
          let first : get_or (c ∷ new) (i - offset) 0 ≡ c =
            ap (λ k. get_or (c ∷ new) k 0) {x = i - offset} {y = 0} (omega arith) in
          ground arith
      | inr other ↦
          let kept = get_or-set_ne buf offset i c 0 other in
          elim (lt_or_le i offset) [
            | inl before ↦ ground arith
            | inr after ↦
                let next : get_or (c ∷ new) (i - offset) 0 ≡ get_or new (i - (offset + 1)) 0 =
                  ap (λ k. get_or (c ∷ new) k 0) {x = i - offset} {y = suc (i - (offset + 1))}
                    (omega arith) in
                ground arith
          ]
    ]

-- The items are `unsigned char`s.
abbrev pub AreBytes : List ℕ → Type 0
AreBytes bytes = (k : ℕ) → get_or bytes k 0 < 256

take-AreBytes : (n : ℕ) (bytes : List ℕ) → AreBytes bytes → AreBytes (take n bytes)
take-AreBytes n bytes low k = elim (lt_or_le k n) [
  | inl within ↦ let e = get_or-take n bytes k 0 within in omega (arith, low k)
  | inr behind ↦
      let len = length-take n bytes in
      let e = get_or_beyond (take n bytes) k 0 (omega arith) in omega arith
]

drop-AreBytes : (n : ℕ) (bytes : List ℕ) → AreBytes bytes → AreBytes (drop n bytes)
drop-AreBytes n bytes low k = let e = get_or-drop n bytes k 0 in omega (arith, low (n + k))

patch-AreBytes :
    (buf : List ℕ) (offset : ℕ) (new : List ℕ)
    → offset + length new ≤ length buf
    → AreBytes buf
    → AreBytes new
    → AreBytes (patch buf offset new)
patch-AreBytes buf offset new fits old low k =
    let e = get_or-patch buf offset new k fits in
    let a = old k in let b = low (k - offset) in ground arith

module _ {D : Type 0} (dev : BlockDevice D) (m : Media dev) where
  -- What stands on the disk when a write of `bytes` at `position` returns: on success the bytes
  -- are there and the position is behind them, and in any case the sectors that hold none of them
  -- are as they were.
  pub record Written (d : D) (position : ℕ) (bytes : List ℕ) (r : Result ℕ × ℕ × D) : Type 0 where
    pub moved : r.0 ≡ ok 0 → r.1 ≡ position + length bytes
    pub stored :
        r.0 ≡ ok 0 → (j : ℕ) → m.contents r.2 j ≡ overlaid position bytes (m.contents d j) j
    pub sectors_below :
        (j : ℕ) → j / sector_size < position / sector_size → m.contents r.2 j ≡ m.contents d j
    pub sectors_above :
        (j : ℕ)
        → position + length bytes ≤ j / sector_size * sector_size
        → m.contents r.2 j ≡ m.contents d j

  -- The sector that a round is about to write.
  record Staged (d : D) (position n : ℕ) (bytes sector : List ℕ) (d' : D) : Type 0 where
    whole : length sector ≡ sector_size
    holds :
        (i : ℕ)
        → i < sector_size
        → get_or sector i 0
          ≡ overlaid
              (position % sector_size)
              (take n bytes)
              (m.contents d (position / sector_size * sector_size + i))
              i
    kept : (j : ℕ) → m.contents d' j ≡ m.contents d j
    small : AreBytes sector

  whole-Staged :
      (d : D) (position n : ℕ) (bytes : List ℕ)
      → n ≤ length bytes
      → position % sector_size ≡ 0
      → n ≡ sector_size
      → AreBytes bytes
      → Staged d position n bytes (take n bytes) d
  whole-Staged d position n bytes few start all low =
      let len = length-take n bytes in
      record {
        whole = omega arith;
        holds = λ i h.
            (let same =
                ap (λ k. get_or (take n bytes) k 0) {x = i} {y = i - position % sector_size}
                  (omega arith) in
              ground arith);
        kept = λ j. refl;
        small = take-AreBytes n bytes low;
      }

  part-Staged :
      (d : D) (position n : ℕ) (bytes buf : List ℕ)
      → n ≤ length bytes
      → position % sector_size + n ≤ sector_size
      → (dev.read_block d (position / sector_size)).0 ≡ ok buf
      → AreBytes bytes
      → Staged d position n bytes
          (patch buf (position % sector_size) (take n bytes))
          (dev.read_block d (position / sector_size)).1
  part-Staged d position n bytes buf few fits got low =
      let len = length-take n bytes in
      let size = m.read_length d (position / sector_size) buf got in
      record {
        whole = length-patch buf (position % sector_size) (take n bytes) ∙ size;
        holds = λ i h.
            get_or-patch buf (position % sector_size) (take n bytes) i (omega arith)
            ∙ ap (λ old. overlaid (position % sector_size) (take n bytes) old i)
                (m.read_holds d (position / sector_size) i buf got h);
        kept = λ j. m.read_keeps d (position / sector_size) j;
        small =
            patch-AreBytes buf (position % sector_size) (take n bytes) (omega arith)
              (λ k. m.read_bytes d (position / sector_size) k buf got) (take-AreBytes n bytes low);
      }

  -- One round's write, before the later rounds: the piece stands on the disk.
  write_block-holds :
      (d d' : D) (position n : ℕ) (bytes sector : List ℕ) (r j : ℕ)
      → Staged d position n bytes sector d'
      → n ≤ length bytes
      → position % sector_size + n ≤ sector_size
      → (dev.write_block d' (position / sector_size) sector).0 ≡ ok r
      → m.contents (dev.write_block d' (position / sector_size) sector).1 j
        ≡ overlaid position (take n bytes) (m.contents d j) j
  write_block-holds d d' position n bytes sector r j staged few fits done =
      let len = length-take n bytes in
      let s = position / sector_size in
      elim (Bool-cases (leb (s * sector_size) j && ltb j (s * sector_size + sector_size))) [
        | inl inside ↦
            let i = j - s * sector_size in
            let place : s * sector_size + i ≡ j = ground arith in
            let near : i < sector_size = ground arith in
            let now = m.write_holds d' s i r sector done staged.whole staged.small near in
            let here = ap (m.contents (dev.write_block d' s sector).1) place in
            let old = ap (m.contents d) place in
            let held = staged.holds i near in
            let index =
              ap (λ k. get_or (take n bytes) k 0) {x = i - position % sector_size}
                {y = j - position} (omega arith) in
            ground arith
        | inr outside ↦
            let kept = m.write_keeps d' s j sector outside in
            let was = staged.kept j in ground arith
      ]

  write_block-elsewhere :
      (d d' : D) (position n : ℕ) (bytes sector : List ℕ) (j : ℕ)
      → Staged d position n bytes sector d'
      → j / sector_size ≢ position / sector_size
      → m.contents (dev.write_block d' (position / sector_size) sector).1 j ≡ m.contents d j
  write_block-elsewhere d d' position n bytes sector j staged apart =
      m.write_keeps d' (position / sector_size) j sector (ground arith) ∙ staged.kept j

  failed_write :
      (d d' : D) (position : ℕ) (bytes : List ℕ) (e : Errno)
      → 0 < length bytes
      → ((j : ℕ) → j / sector_size ≢ position / sector_size → m.contents d' j ≡ m.contents d j)
      → Written d position bytes (err e, position, d')
  failed_write d d' position bytes e some_left kept = record {
    moved = λ same. ground arith;
    stored = λ same. ground arith;
    sectors_below = λ j h. kept j (omega arith);
    sectors_above = λ j h. kept j (omega arith);
  }

  -- A round that wrote its piece, and the rounds for the rest.
  joined-Written :
      (d d' : D) (position n : ℕ) (bytes : List ℕ) (r : Result ℕ × ℕ × D)
      → n ≤ length bytes
      → 0 < n
      → position % sector_size + n ≤ sector_size
      → ((j : ℕ) → m.contents d' j ≡ overlaid position (take n bytes) (m.contents d j) j)
      → Written d' (position + n) (drop n bytes) r
      → Written d position bytes r
  joined-Written d d' position n bytes r few some fits now later =
      let taken = length-take n bytes in
      let left = length-drop n bytes in
      record {
        moved = λ same. (let e = later.moved same in omega arith);
        stored = λ same j.
            (let rest = later.stored same j in
              let first = now j in
              let front = get_or-take n bytes (j - position) 0 in
              let back = get_or-drop n bytes (j - (position + n)) 0 in
              elim (lt_or_le j (position + n)) [
                | inl before ↦ ground arith
                | inr after ↦
                    let index =
                      ap (λ k. get_or bytes k 0) {x = n + (j - (position + n))} {y = j - position}
                        (omega arith) in
                    ground arith
              ]);
        sectors_below =
            λ j h. (let a = later.sectors_below j (omega arith) in let b = now j in ground arith);
        sectors_above =
            λ j h. (let a = later.sectors_above j (omega arith) in let b = now j in ground arith);
      }

  -- A round whose sector is staged, by the answer of the drive.
  write_sector-Written :
      (rounds : ℕ)
      → ((d : D) (position : ℕ) (bytes : List ℕ)
          → length bytes ≤ rounds
          → AreBytes bytes
          → Written d position bytes (write_loop dev rounds d position bytes))
      → (d d' : D) (position c : ℕ) (bytes sector : List ℕ) → length (c ∷ bytes) ≤ suc rounds
      → AreBytes (c ∷ bytes)
      → sector_data dev d position (chunk position (length (c ∷ bytes))) (c ∷ bytes)
        ≡ (ok sector, d')
      → Staged d position (chunk position (length (c ∷ bytes))) (c ∷ bytes) sector d'
      → (answer : Result ℕ) → (dev.write_block d' (position / sector_size) sector).0 ≡ answer
      → Written d position (c ∷ bytes) (write_loop dev (suc rounds) d position (c ∷ bytes))
  unfolding write_loop
  write_sector-Written rounds later d d' position c bytes sector enough low e staged (err e') got =
      let answer : (sector_data dev d position (chunk position (length (c ∷ bytes))) (c ∷ bytes)).0
          ≡ ok sector =
        ap (λ p. p.0) e in
      let device : (sector_data dev d position (chunk position (length (c ∷ bytes))) (c ∷ bytes)).1
          ≡ d' =
        ap (λ p. p.1) e in
      rw (write_loop, answer, device, got, device)
        (failed_write d (dev.write_block d' (position / sector_size) sector).1 position (c ∷ bytes)
          e' (omega arith)
          (λ j apart.
            write_block-elsewhere d d' position (chunk position (length (c ∷ bytes))) (c ∷ bytes)
              sector j staged apart))
  write_sector-Written rounds later d d' position c bytes sector enough low e staged (ok r) got =
      let n = chunk position (length (c ∷ bytes)) in
      let d2 = (dev.write_block d' (position / sector_size) sector).1 in
      let left = length-drop n (c ∷ bytes) in
      let answer : (sector_data dev d position n (c ∷ bytes)).0 ≡ ok sector = ap (λ p. p.0) e in
      let device : (sector_data dev d position n (c ∷ bytes)).1 ≡ d' = ap (λ p. p.1) e in
      rw (write_loop, answer, device, got, device)
        (joined-Written d d2 position n (c ∷ bytes)
          (write_loop dev rounds d2 (position + n) (drop n (c ∷ bytes))) (omega arith) (omega arith)
          (omega arith)
          (λ j.
            write_block-holds d d' position n (c ∷ bytes) sector r j staged (omega arith)
              (omega arith) got)
          (later d2 (position + n) (drop n (c ∷ bytes)) (omega arith)
            (drop-AreBytes n (c ∷ bytes) low)))

  -- A round, by what reading the sector answers and whether the sector is covered.
  round-Written :
      (rounds : ℕ)
      → ((d : D) (position : ℕ) (bytes : List ℕ)
          → length bytes ≤ rounds
          → AreBytes bytes
          → Written d position bytes (write_loop dev rounds d position bytes))
      → (d : D) (position c : ℕ) (bytes : List ℕ) → length (c ∷ bytes) ≤ suc rounds
      → AreBytes (c ∷ bytes)
      → (answer : Result (List ℕ)) → (dev.read_block d (position / sector_size)).0 ≡ answer
      → (part : Bool)
      → (not (position % sector_size == 0)
          || not (chunk position (length (c ∷ bytes)) == sector_size))
        ≡ part
      → Written d position (c ∷ bytes) (write_loop dev (suc rounds) d position (c ∷ bytes))
  unfolding write_loop sector_data
  round-Written rounds later d position c bytes enough low answer got false covered =
      let n = chunk position (length (c ∷ bytes)) in
      let staged =
        whole-Staged d position n (c ∷ bytes) (omega arith) (ground arith) (ground arith) low in
      write_sector-Written rounds later d d position c bytes (take n (c ∷ bytes)) enough low
        (rw (sector_data, covered) refl) staged
        (dev.write_block d (position / sector_size) (take n (c ∷ bytes))).0 refl
  round-Written rounds later d position c bytes enough low (ok buf) got true covered =
      let n = chunk position (length (c ∷ bytes)) in
      let d1 = (dev.read_block d (position / sector_size)).1 in
      let sector = patch buf (position % sector_size) (take n (c ∷ bytes)) in
      let staged = part-Staged d position n (c ∷ bytes) buf (omega arith) (omega arith) got low in
      write_sector-Written rounds later d d1 position c bytes sector enough low
        (rw (sector_data, covered, got) refl) staged
        (dev.write_block d1 (position / sector_size) sector).0 refl
  round-Written rounds later d position c bytes enough low (err e) got true covered =
      let d1 = (dev.read_block d (position / sector_size)).1 in
      let answer : (sector_data dev d position (chunk position (length (c ∷ bytes))) (c ∷ bytes)).0
          ≡ err e =
        rw (sector_data, covered, got) refl in
      let device : (sector_data dev d position (chunk position (length (c ∷ bytes))) (c ∷ bytes)).1
          ≡ d1 =
        rw (sector_data, covered, got) refl in
      rw (write_loop, answer, device)
        (failed_write d d1 position (c ∷ bytes) e (omega arith)
          (λ j apart. m.read_keeps d (position / sector_size) j))

  write_none-Written : (d : D) (position : ℕ) → Written d position [] (ok 0, position, d)
  write_none-Written d position = record {
    moved = λ same. omega arith;
    stored = λ same j. ground arith;
    sectors_below = λ j h. refl;
    sectors_above = λ j h. refl;
  }

  write_loop-Written :
      (rounds : ℕ) (d : D) (position : ℕ) (bytes : List ℕ)
      → length bytes ≤ rounds
      → AreBytes bytes
      → Written d position bytes (write_loop dev rounds d position bytes)
  unfolding write_loop
  write_loop-Written zero d position [] enough low = write_none-Written d position
  write_loop-Written zero d position (c ∷ bytes) enough low = absurd (omega arith)
  write_loop-Written (suc rounds) d position [] enough low = write_none-Written d position
  write_loop-Written (suc rounds) d position (c ∷ bytes) enough low =
      round-Written rounds (write_loop-Written rounds) d position c bytes enough low
        (dev.read_block d (position / sector_size)).0 refl
        (not (position % sector_size == 0)
          || not (chunk position (length (c ∷ bytes)) == sector_size))
        refl

  -- A write of the first `total` bytes of a buffer of bytes that holds them, within an int: if it
  -- returns 0 the disk holds them from the position on, every other byte is as it was and the
  -- position is behind them. In any case the sectors that hold none of them are as they were.
  pub write-Written :
      (d : D) (position total : ℕ) (buffer : List ℕ)
      → position + total ≤ int_max
      → total ≤ length buffer
      → AreBytes buffer
      → Written d position (take total buffer) (write dev d position buffer (pos total))
  unfolding write
  write-Written d position total buffer fits there low =
      let within_int : ltb (int_max - position) total ≡ false = ground arith in
      let len = length-take total buffer in
      rw (write, within_int)
        (write_loop-Written total d position (take total buffer) (omega arith)
          (take-AreBytes total buffer low))
