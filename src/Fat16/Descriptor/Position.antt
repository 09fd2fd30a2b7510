-- ===== src/Fat16/Descriptor/Position.antt =====
-- kernel/fs/fat/fat16.c: the position of an open file and what its reads hand out.
use rorth_ox.Prelude.{
  ℕ, zero, suc, ◌+◌, ◌-◌, ◌≤◌, ◌<◌, ◌≡◌, inl, inr, refl, ◌∙◌, ap, ap₂, Bool, true, false, not, ◌||◌,
  List, [], ◌++◌, arith, ltb, leb, ◌==◌, if◌then◌else◌, length, get_or, length-append,
  get_or-append, min, ℤ, pos, negsuc, Bool-cases, lt_or_le,
}
use rorth_ox.Status.{Result, ok, err, Errno}
use rorth_ox.Disk.{BlockDevice, Media}
use rorth_ox.Disk.Streamer.{int_max}
use rorth_ox.Fat16.{Volume, read_internal}
use rorth_ox.Fat16.Geometry.{file_byte}
use rorth_ox.Fat16.Reading.{ltb-true, ltb-false, IsRead, read_internal-IsRead}
use rorth_ox.Fat16.Descriptor.{
  File, at_position, is_read_mode, fat16_seek, move_to, fat16_seek_signed, read_items, fat16_read,
  read_some, fat16_read_bytes, Outcome,
}

-- The position is not behind the end of the file.
abbrev pub IsWithin : File → Type 0
IsWithin f = f.position ≤ f.item.filesize

fat16_seek-IsWithin :
    (f : File) (offset whence : ℕ) → IsWithin f → IsWithin (fat16_seek f offset whence).1
unfolding fat16_seek
fat16_seek-IsWithin f offset zero h = ground arith
fat16_seek-IsWithin f offset (suc zero) h = ground arith
fat16_seek-IsWithin f offset (suc (suc zero)) h = ground arith
fat16_seek-IsWithin f offset (suc (suc (suc whence))) h = h

move_to-IsWithin : (f : File) (p : ℤ) → IsWithin f → IsWithin (move_to f p).1
unfolding move_to
move_to-IsWithin f (negsuc n) h = h
move_to-IsWithin f (pos p) h = ground arith

if-IsWithin :
    (b : Bool) (r s : Result ℕ × File)
    → IsWithin r.1
    → IsWithin s.1
    → IsWithin (if b then r else s).1
if-IsWithin true r s hr hs = hr
if-IsWithin false r s hr hs = hs

fat16_seek_signed-IsWithin :
    (f : File) (offset : ℤ) (whence : ℕ)
    → IsWithin f
    → IsWithin (fat16_seek_signed f offset whence).1
unfolding fat16_seek_signed
fat16_seek_signed-IsWithin f offset zero h = search (if-IsWithin, move_to-IsWithin)
fat16_seek_signed-IsWithin f offset (suc zero) h = search (if-IsWithin, move_to-IsWithin)
fat16_seek_signed-IsWithin f offset (suc (suc zero)) h = search (if-IsWithin, move_to-IsWithin)
fat16_seek_signed-IsWithin f offset (suc (suc (suc whence))) h = h

module _ {D : Type 0} (dev : BlockDevice D) (m : Media dev) (v : Volume)
    (small : v.reserved_sectors < 0x10000) where
  -- What a read leaves, in whatever way it ends.
  pub record Handed (f : File) (d : D) (r : Outcome dev v) : Type 0 where
    pub bytes :
        (i : ℕ)
        → i < length r.1
        → get_or r.1 i 0 ≡ file_byte v (m.contents d) f.item.low_first_cluster (f.position + i)
    pub moved : (n : ℕ) → r.0 ≡ ok n → r.2.position ≡ f.position + length r.1
    pub item : r.2.item ≡ f.item
    pub within : IsWithin f → IsWithin r.2
    pub kept : m.contents r.3 ≡ m.contents d

  unmoved : (f : File) (d : D) (r : Result ℕ) → Handed f d (r, [], f, d)
  unmoved f d r = record {
    bytes = λ i h. absurd (omega arith);
    moved = λ n h. omega arith;
    item = refl;
    within = λ h. h;
    kept = refl;
  }

  read_some-Handed :
      (f : File) (d : D) (count : ℕ) (r : Result ℕ × List ℕ × D)
      → count ≤ f.item.filesize - f.position
      → IsRead dev m v small d f.item.low_first_cluster f.position count r
      → Handed f d (read_some dev v f count r)
  unfolding read_some
  read_some-Handed f d count (err e, bytes, d') room r = record {
    bytes = r.bytes;
    moved = λ n h. absurd (cc);
    item = refl;
    within = λ h. h;
    kept = r.kept;
  }
  read_some-Handed f d count (ok n, bytes, d') room r = record {
    bytes = r.bytes;
    moved = λ n' h. omega (arith, r.complete n refl);
    item = refl;
    within = λ h. omega arith;
    kept = r.kept;
  }

  if-Handed :
      (f : File) (d : D) (b : Bool) (x y : Outcome dev v)
      → Handed f d x
      → Handed f d y
      → Handed f d (if b then x else y)
  if-Handed f d true x y hx hy = hx
  if-Handed f d false x y hx hy = hy

  pub fat16_read_bytes-Handed :
      (f : File) (d : D) (count : ℕ) → Handed f d (fat16_read_bytes dev v f d count)
  unfolding fat16_read_bytes
  fat16_read_bytes-Handed f d count =
      let some = min count (f.item.filesize - f.position) in
      if-Handed f d (not (is_read_mode f.mode)) (err Errno.ebadf, [], f, d) _
        (unmoved f d (err Errno.ebadf))
        (if-Handed f d (not f.is_file) (err Errno.einvarg, [], f, d) _
          (unmoved f d (err Errno.einvarg))
          (if-Handed f d (count == 0 || leb f.item.filesize f.position) (ok 0, [], f, d) _
            (unmoved f d (ok 0))
            (if-Handed f d (ltb int_max f.position || ltb (int_max - f.position) some)
              (err Errno.eio, [], f, d) _ (unmoved f d (err Errno.eio))
              (read_some-Handed f d some _ (omega arith)
                (read_internal-IsRead dev m v small d f.item.low_first_cluster f.position some)))))

  -- An item more, and behind it what the rest of the loop read.
  continued :
      (f : File) (d d' : D) (count : ℕ) (bytes : List ℕ) (rest : Outcome dev v)
      → length bytes ≡ count
      → count ≤ f.item.filesize - f.position
      → ((i : ℕ)
          → i < length bytes
          → get_or bytes i 0 ≡ file_byte v (m.contents d) f.item.low_first_cluster (f.position + i))
      → m.contents d' ≡ m.contents d
      → Handed (at_position f (f.position + count)) d' rest
      → Handed f d (rest.0, bytes ++ rest.1, rest.2, rest.3)
  continued f d d' count bytes rest full room all same r =
      let sum = length-append bytes rest.1 in
      record {
        bytes = λ i h. elim (lt_or_le i (length bytes)) [
          | inl low ↦
              get_or-append bytes rest.1 i 0
              ∙ ap (λ b. if b then get_or bytes i 0 else get_or rest.1 (i - length bytes) 0)
                  (ltb-true low)
              ∙ all i low
          | inr high ↦
              get_or-append bytes rest.1 i 0
              ∙ ap (λ b. if b then get_or bytes i 0 else get_or rest.1 (i - length bytes) 0)
                  (ltb-false high)
              ∙ r.bytes (i - length bytes) (omega arith)
              ∙ ap₂ (λ c x. file_byte v c f.item.low_first_cluster x) {x = m.contents d'}
                  {y = m.contents d} {u = f.position + count + (i - length bytes)}
                  {v = f.position + i} same (omega arith)
        ];
        moved = λ n h. omega (arith, r.moved n h);
        item = r.item;
        within = λ h. r.within (omega arith);
        kept = r.kept ∙ same;
      }

  module _ (nmemb : ℕ) (f : File) (d : D) (size count : ℕ) where
    abbrev amount : ℕ
    amount = min size (f.item.filesize - f.position)

    abbrev answer : Result ℕ × List ℕ × D
    answer = read_internal dev v d f.item.low_first_cluster f.position amount

    abbrev all : Outcome dev v
    all = read_items dev v (suc nmemb) f d size count

    given : IsRead dev m v small d f.item.low_first_cluster f.position amount answer
    given = read_internal-IsRead dev m v small d f.item.low_first_cluster f.position amount

    items_end : (f.item.filesize - f.position == 0) ≡ true → Handed f d all
    unfolding read_items
    items_end e = rw (read_items, e) (unmoved f d (ok count))

    module _ (more : (f.item.filesize - f.position == 0) ≡ false) where
      items_far :
          (ltb int_max f.position || ltb (int_max - f.position) amount) ≡ true → Handed f d all
      unfolding read_items
      items_far e = rw (read_items, more, e) (unmoved f d (err Errno.eio))

      items_read :
          ((f' : File) (d' : D) (count' : ℕ)
            → Handed f' d' (read_items dev v nmemb f' d' size count'))
          → (ltb int_max f.position || ltb (int_max - f.position) amount) ≡ false
          → (got : Result ℕ) → answer.0 ≡ got
          → Handed f d all
      unfolding read_items
      items_read later near (err e) h =
          rw (read_items, more, near, h)
            (record {
              bytes = given.bytes;
              moved = λ n h. absurd (cc);
              item = refl;
              within = λ h. h;
              kept = given.kept;
            })
      items_read later near (ok n) h = elim (Bool-cases (amount == size)) [
        | inl full ↦
            rw (read_items, more, near, h, full)
              (continued f d answer.2 amount answer.1 _ (given.complete n h) (omega arith)
                given.bytes given.kept
                (later (at_position f (f.position + amount)) answer.2 (count + 1)))
        | inr short ↦
            rw (read_items, more, near, h, short)
              (record {
                bytes = given.bytes;
                moved = λ n' e. omega (arith, given.complete n h);
                item = refl;
                within = λ h. omega arith;
                kept = given.kept;
              })
      ]

  read_items-Handed :
      (nmemb : ℕ) (f : File) (d : D) (size count : ℕ)
      → Handed f d (read_items dev v nmemb f d size count)
  unfolding read_items
  read_items-Handed zero f d size count = unmoved f d (ok count)
  read_items-Handed (suc nmemb) f d size count =
      elim (Bool-cases (f.item.filesize - f.position == 0)) [
        | inl e ↦ items_end nmemb f d size count e
        | inr more ↦
            elim (Bool-cases (
              ltb int_max f.position || ltb (int_max - f.position) (amount nmemb f d size count))) [
                | inl far ↦ items_far nmemb f d size count more far
                | inr near ↦
                    items_read nmemb f d size count more
                      (λ f' d' count'. read_items-Handed nmemb f' d' size count') near
                      (answer nmemb f d size count).0 refl
              ]
      ]

  -- Over a volume of 16-bit reserved sectors, and for any item: what a read stores are the bytes of
  -- the file from its position on; a success has moved the position behind them, and in any case it
  -- is not behind the end if it was not, the item is the same and the disk as it was.
  pub fat16_read-Handed :
      (f : File) (d : D) (size nmemb : ℕ) → Handed f d (fat16_read dev v f d size nmemb)
  unfolding fat16_read
  fat16_read-Handed f d size nmemb =
      if-Handed f d (not f.is_file) (err Errno.einvarg, [], f, d) _
        (unmoved f d (err Errno.einvarg))
        (if-Handed f d (ltb f.item.filesize f.position) (err Errno.eio, [], f, d) _
          (unmoved f d (err Errno.eio)) (read_items-Handed nmemb f d size 0))
