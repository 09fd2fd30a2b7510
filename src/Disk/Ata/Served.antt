-- ===== src/Disk/Ata/Served.antt =====
-- kernel/disk/disk.c: the ATA driver over a drive keeps the promises of the interface.
use rorth_ox.Prelude.{
  ℕ, zero, suc, ◌+◌, ◌-◌, ◌*◌, ◌/◌, ◌%◌, ◌^◌, ◌≤◌, ◌<◌, ◌≡◌, ◌≢◌, ◌⊎◌, inl, inr, refl, ◌∙◌, ap, ap₂,
  sym, subst, true, false, ◌&&◌, ◌||◌, List, [], ◌∷◌, arith, ltb, leb, ◌==◌, if◌then◌else◌, length,
  get_or, Bool-cases, lt_or_le,
}
use rorth_ox.Status.{Result, ok, err, Errno}
use rorth_ox.Disk.{Media, sector_size}
use rorth_ox.Disk.Ata.{
  Disk, bytes_of, words_of, bad_request, read_block, write_block, write_if_fits, flush, read_sector,
  check_writable, select, wait_end, ata_device, then_do, pause, ata_status, flush_poll_limit,
}
use rorth_ox.Disk.Ata.Emulated.{Drive, Phase, idle, asked, offered, with_phase, emulated}
use rorth_ox.Disk.Ata.Driven.{
  words_at, stored, read_sector_lem, ata_write_lem, stored-outside, stored-inside,
  check_writable_words,
}
use rorth_ox.Disk.Ata.Words.{word_sum}

-- The byte at a place of the drive.
unfoldable pub byte_at : (ℕ → ℕ) → ℕ → ℕ
byte_at words j = if j % 2 == 0 then words (j / 2) % 2 ^ 16 % 256 else words (j / 2) % 2 ^ 16 / 256

length-bytes_of : (words : List ℕ) → length (bytes_of words) ≡ length words * 2
unfolding bytes_of
length-bytes_of [] = refl
length-bytes_of (w ∷ words) = omega (arith, length-bytes_of words)

length-words_at : (words : ℕ → ℕ) (count n : ℕ) → length (words_at words count n) ≡ count
unfolding words_at
length-words_at words zero n = refl
length-words_at words (suc count) n = ap suc (length-words_at words count (n + 1))

bytes_of-words_at :
    (words : ℕ → ℕ) (count n i : ℕ)
    → i < count * 2
    → get_or (bytes_of (words_at words count n)) i 0 ≡ byte_at words (n * 2 + i)
unfolding bytes_of words_at byte_at
bytes_of-words_at words zero n i h = absurd (omega arith)
bytes_of-words_at words (suc count) n zero h =
    let place = ap words {x = (n * 2 + 0) / 2} {y = n} (omega arith) in ground arith
bytes_of-words_at words (suc count) n (suc zero) h =
    let place = ap words {x = (n * 2 + 1) / 2} {y = n} (omega arith) in ground arith
bytes_of-words_at words (suc count) n (suc (suc i)) h =
    bytes_of-words_at words count (n + 1) i (omega arith)
    ∙ ap (byte_at words) {x = (n + 1) * 2 + i} {y = n * 2 + suc (suc i)} (omega arith)

bytes_of-bytes :
    (words : ℕ → ℕ) (count n i : ℕ) → get_or (bytes_of (words_at words count n)) i 0 < 256
unfolding bytes_of words_at
bytes_of-bytes words zero n i = omega arith
bytes_of-bytes words (suc count) n zero = omega arith
bytes_of-bytes words (suc count) n (suc zero) = omega arith
bytes_of-bytes words (suc count) n (suc (suc i)) = bytes_of-bytes words count (n + 1) i

length-words_of : (count : ℕ) (bytes : List ℕ) → length (words_of count bytes) ≤ count
unfolding words_of
length-words_of zero bytes = omega arith
length-words_of (suc count) [] = omega arith
length-words_of (suc count) (a ∷ []) = omega arith
length-words_of (suc count) (a ∷ b ∷ bytes) = omega (arith, length-words_of count bytes)

length-words_of_all :
    (count : ℕ) (bytes : List ℕ) → length bytes ≡ count * 2 → length (words_of count bytes) ≡ count
unfolding words_of
length-words_of_all zero bytes h = refl
length-words_of_all (suc count) [] h = absurd (omega arith)
length-words_of_all (suc count) (a ∷ []) h = absurd (omega arith)
length-words_of_all (suc count) (a ∷ b ∷ bytes) h =
    ap suc (length-words_of_all count bytes (omega arith))

words_of_lem :
    (count i : ℕ) (bytes : List ℕ)
    → length bytes ≡ count * 2
    → i < count
    → ((k : ℕ) → get_or bytes k 0 < 256)
    → get_or (words_of count bytes) i 0 ≡ get_or bytes (i * 2 + 1) 0 * 256 + get_or bytes (i * 2) 0
unfolding words_of
words_of_lem zero i bytes e h small = absurd (omega arith)
words_of_lem (suc count) i [] e h small = absurd (omega arith)
words_of_lem (suc count) i (a ∷ []) e h small = absurd (omega arith)
words_of_lem (suc count) zero (a ∷ b ∷ bytes) e h small = word_sum a b (small 0)
words_of_lem (suc count) (suc i) (a ∷ b ∷ bytes) e h small =
    words_of_lem count i bytes (omega arith) (omega arith) (λ k. small (suc (suc k)))
    ∙ ap₂ (λ x y. get_or (a ∷ b ∷ bytes) x 0 * 256 + get_or (a ∷ b ∷ bytes) y 0)
        {x = suc (suc (i * 2 + 1))} {y = suc i * 2 + 1} {u = suc (suc (i * 2))} {v = suc i * 2}
        (omega arith) (omega arith)

-- A drive whose words from `n` on are those of a sector, and the others as they were.
overwritten :
    (words : ℕ → ℕ) (n i : ℕ) (bytes : List ℕ)
    → length bytes ≡ sector_size
    → ((k : ℕ) → get_or bytes k 0 < 256)
    → i < sector_size
    → byte_at (stored words (n * 256) (words_of 256 bytes)) (n * sector_size + i) ≡ get_or bytes i 0
unfolding byte_at
overwritten words n i bytes e small h =
    let values = words_of 256 bytes in
    let whole = length-words_of_all 256 bytes e in
    let held =
      ap (stored words (n * 256) values) {x = (n * sector_size + i) / 2} {y = n * 256 + i / 2}
        (omega arith)
      ∙ stored-inside values words (n * 256) (i / 2) (omega arith)
      ∙ words_of_lem 256 (i / 2) bytes e (omega arith) small in
    let low = small (i / 2 * 2) in
    let high = small (i / 2 * 2 + 1) in
    elim (Bool-cases (i % 2 == 0)) [
      | inl even ↦
          let here = ap (λ k. get_or bytes k 0) {x = i / 2 * 2} {y = i} (ground arith) in
          let side : ((n * sector_size + i) % 2 == 0) ≡ true = ground arith in
          rw (side) (ap (λ x. x % 2 ^ 16 % 256) held ∙ omega arith)
      | inr odd ↦
          let here = ap (λ k. get_or bytes k 0) {x = i / 2 * 2 + 1} {y = i} (ground arith) in
          let side : ((n * sector_size + i) % 2 == 0) ≡ false = ground arith in
          rw (side) (ap (λ x. x % 2 ^ 16 / 256) held ∙ omega arith)
    ]

left_alone :
    (words : ℕ → ℕ) (n j : ℕ) (bytes : List ℕ)
    → (leb (n * sector_size) j && ltb j (n * sector_size + sector_size)) ≡ false
    → byte_at (stored words (n * 256) (words_of 256 bytes)) j ≡ byte_at words j
unfolding byte_at
left_alone words n j bytes outside =
    let values = words_of 256 bytes in
    let some = length-words_of 256 bytes in
    let apart : (j / 2 < n * 256) ⊎ (n * 256 + length values ≤ j / 2) =
      elim (lt_or_le (j / 2) (n * 256)) [ inl low ↦ inl low | inr high ↦ inr (ground arith) ] in
    let same = stored-outside values words (n * 256) (j / 2) apart in
    ap (λ x. if j % 2 == 0 then x % 2 ^ 16 % 256 else x % 2 ^ 16 / 256) same

past_28_bits : (lba : ℕ) → bad_request lba 1 ≡ false → lba < 2 ^ 28
unfolding bad_request
past_28_bits lba e = ground arith

within_28_bits : (lba : ℕ) → lba < 2 ^ 28 → bad_request lba 1 ≡ false
unfolding bad_request
within_28_bits lba e = ground arith

-- What a read of one sector answers, by the limit of its address.
read_past :
    (lba : ℕ) (w : Drive)
    → bad_request lba 1 ≡ true
    → read_sector emulated lba 1 w ≡ (err Errno.einvarg, w)
unfolding read_sector
read_past lba w e = rw (read_sector, e) refl

module _ (lba : ℕ) (w : Drive) where
  read_answer :
      (buf : List ℕ)
      → (read_sector emulated lba 1 w).0 ≡ ok buf
      → bytes_of (words_at w.words 256 (lba * 256)) ≡ buf
  read_answer buf h = elim (Bool-cases (bad_request lba 1)) [
    | inl bad ↦ let a = ap (λ r. r.0) (read_past lba w bad) in absurd (let b = sym a ∙ h in cc)
    | inr fine ↦
        let a = (read_sector_lem lba w (past_28_bits lba fine)).0 in let b = sym a ∙ h in cc
  ]

  read_words_kept : (read_sector emulated lba 1 w).1.words ≡ w.words
  read_words_kept = elim (Bool-cases (bad_request lba 1)) [
    | inl bad ↦ ap (λ r. r.1.words) (read_past lba w bad)
    | inr fine ↦ (read_sector_lem lba w (past_28_bits lba fine)).1
  ]

-- What a write of one sector leaves: on success the sector, else that or nothing.
abbrev IsServed : ℕ → List ℕ → (ℕ → ℕ) → Result ℕ → (ℕ → ℕ) → Type 0
IsServed lba bytes words r words' =
    ((n : ℕ) → r ≡ ok n → words' ≡ stored words (lba * 256) (words_of 256 bytes))
    × ((words' ≡ words) ⊎ (words' ≡ stored words (lba * 256) (words_of 256 bytes)))

fits-IsServed :
    (lba : ℕ) (bytes : List ℕ) (c : Result ℕ × Disk × Drive)
    → lba < 2 ^ 28
    → IsServed lba bytes c.2.words
        (write_if_fits emulated lba 1 bytes c).0
        (write_if_fits emulated lba 1 bytes c).2.words
unfolding write_if_fits
fits-IsServed lba bytes (err e, disk, w) h = (λ n r. absurd (cc), inl refl)
fits-IsServed lba bytes (ok r, disk, w) h =
    let done = ata_write_lem lba bytes w h in
    elim (Bool-cases (leb disk.write_sectors lba || ltb (disk.write_sectors - lba) 1)) [
      | inl out ↦ rw (write_if_fits, out) (λ n r. absurd (cc), inl refl)
      | inr fine ↦ rw (write_if_fits, fine) (λ n r. done.1, inr done.1)
    ]

write-IsServed :
    (lba : ℕ) (bytes : List ℕ) (disk : Disk) (w : Drive)
    → IsServed lba bytes w.words
        (write_block emulated true lba 1 bytes disk w).0
        (write_block emulated true lba 1 bytes disk w).2.words
unfolding write_block
write-IsServed lba bytes disk w = elim (Bool-cases (bad_request lba 1)) [
  | inl bad ↦ rw (write_block, bad) (λ n r. absurd (cc), inl refl)
  | inr fine ↦
      rw (write_block, fine)
        (subst
          (λ words.
            IsServed lba bytes words
              (write_if_fits emulated lba 1 bytes (check_writable emulated disk w)).0
              (write_if_fits emulated lba 1 bytes (check_writable emulated disk w)).2.words)
          (check_writable_words disk w)
          (fits-IsServed lba bytes (check_writable emulated disk w) (past_28_bits lba fine)))
]

ended_words :
    (p : Phase) (w : Drive)
    → (then_do {A = ℕ}
        (select emulated 0 (with_phase w p))
        (λ e v. (err e, v))
        (λ v.
          wait_end emulated flush_poll_limit
            (pause emulated (emulated.outb v ata_status 0xE7)))).1.words
      ≡ w.words
unfolding select wait_end pause emulated
ended_words idle w = refl
ended_words asked w = refl
ended_words offered w = refl

flush_words :
    (disk : Disk) (w : Drive) (answer : Result ℕ)
    → (check_writable emulated disk w).0 ≡ answer
    → (flush emulated true disk w).2.words ≡ w.words
unfolding flush
flush_words disk w (err e) h = rw (flush, h) (check_writable_words disk w)
flush_words disk w (ok r) h =
    rw (flush, h)
      (ended_words (check_writable emulated disk w).2.phase (check_writable emulated disk w).2
        ∙ check_writable_words disk w)

-- The ATA driver over a drive keeps the promises, from any state of the two.
pub ata_media : Media (ata_device emulated)
unfolding ata_device read_block
ata_media = record {
  contents = λ d j. byte_at d.1.words j;
  read_length = λ d n buf h.
      (ap length (sym (read_answer n d.1 buf h))
        ∙ length-bytes_of (words_at d.1.words 256 (n * 256))
        ∙ ap (λ c. c * 2) (length-words_at d.1.words 256 (n * 256)));
  read_bytes = λ d n i buf h.
      subst (λ b. get_or b i 0 < 256) (read_answer n d.1 buf h)
        (bytes_of-bytes d.1.words 256 (n * 256) i);
  read_holds = λ d n i buf h l.
      (ap (λ b. get_or b i 0) (sym (read_answer n d.1 buf h))
        ∙ bytes_of-words_at d.1.words 256 (n * 256) i (omega arith)
        ∙ ap (byte_at d.1.words) {x = n * 256 * 2 + i} {y = n * sector_size + i} (omega arith));
  read_keeps = λ d n j. ap (λ words. byte_at words j) (read_words_kept n d.1);
  write_holds = λ d n i r sector h e small l.
      (ap (λ words. byte_at words (n * sector_size + i)) ((write-IsServed n sector d.0 d.1).0 r h)
        ∙ overwritten d.1.words n i sector e small l);
  write_keeps = λ d n j sector outside. elim ((write-IsServed n sector d.0 d.1).1) [
    | inl same ↦ ap (λ words. byte_at words j) same
    | inr there ↦ ap (λ words. byte_at words j) there ∙ left_alone d.1.words n j sector outside
  ];
  flush_keeps = λ d j.
      ap (λ words. byte_at words j) (flush_words d.0 d.1 (check_writable emulated d.0 d.1).0 refl);
}

-- Within the 28 bits of its address, every sector of the drive can be read.
pub ata_reads :
    (d : Disk × Drive) (n : ℕ) (e : Errno)
    → n < 0x10000000
    → ((ata_device emulated).read_block d n).0 ≢ err e
unfolding ata_device read_block
ata_reads d n e l h = let a = (read_sector_lem n d.1 l).0 in absurd (let b = sym a ∙ h in cc)

pub ata_media-contents : (d : Disk × Drive) → ata_media.contents d ≡ byte_at d.1.words
unfolding ata_media
ata_media-contents d = refl
