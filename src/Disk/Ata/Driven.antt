-- ===== src/Disk/Ata/Driven.antt =====
-- kernel/disk/disk.c over a drive: what the functions read, and what they leave on it.
use rorth_ox.Prelude.{
  ℕ, zero, suc, ◌+◌, ◌*◌, ◌/◌, ◌%◌, ◌^◌, ◌≤◌, ◌<◌, ◌≡◌, ◌⊎◌, inl, inr, refl, ◌∙◌, ap, false, List,
  [], ◌∷◌, arith, length, get_or, Bool-cases, bit_and, bit_and-ones, bit_or-add,
}
use rorth_ox.Status.{ok, err}
use rorth_ox.Disk.Ata.{
  Disk, wait_idle, wait_data, wait_end, poll, idle_verdict, data_verdict, end_verdict, pause,
  send_command, select, write_words, read_sectors, read_sector, bytes_of, words_of, bad_request,
  write_sectors_from, ata_write, identify, check_writable, then_do, head_value,
}
use rorth_ox.Disk.Ata.Emulated.{
  Phase, idle, asked, offered, Drive, with_phase, address, transfer, addressed, replaced, emulated,
}

wait_idle_lem :
    (p : Phase) (w : Drive) → wait_idle emulated (with_phase w p) ≡ (ok 0, with_phase w idle)
unfolding wait_idle poll idle_verdict emulated
wait_idle_lem idle w = refl
wait_idle_lem asked w = refl
wait_idle_lem offered w = refl

wait_data_lem : (w : Drive) → wait_data emulated (with_phase w asked) ≡ (ok 0, with_phase w offered)
unfolding wait_data poll data_verdict emulated
wait_data_lem w = refl

wait_end_lem :
    (w : Drive) → wait_end emulated 1000000 (with_phase w offered) ≡ (ok 0, with_phase w idle)
unfolding wait_end poll end_verdict emulated
wait_end_lem w = refl

low_8 : (a : ℕ) → bit_and a 0xFF ≡ a % 256
low_8 a = bit_and-ones 8 a ∙ omega arith

low_4 : (a : ℕ) → bit_and a 0x0F ≡ a % 16
low_4 a = bit_and-ones 4 a ∙ omega arith

head_low : (lba : ℕ) → head_value emulated lba % 16 ≡ lba / 2 ^ 24 % 16
head_low lba =
    let d = low_4 (lba / 2 ^ 24) in
    let e = bit_or-add 4 14 (bit_and (lba / 2 ^ 24) 0x0F) (omega arith) in omega arith

address_lem :
    (lba : ℕ)
    → lba < 2 ^ 28
    → bit_and lba 0xFF
        + bit_and (lba / 2 ^ 8) 0xFF * 2 ^ 8
        + bit_and (lba / 2 ^ 16) 0xFF * 2 ^ 16
        + head_value emulated lba % 16 * 2 ^ 24
      ≡ lba
address_lem lba h =
    omega (arith, low_8 lba, low_8 (lba / 2 ^ 8), low_8 (lba / 2 ^ 16), head_low lba)

-- The words from one on.
unfoldable pub words_at : (ℕ → ℕ) → ℕ → ℕ → List ℕ
words_at words zero n = []
words_at words (suc count) n = words n % 2 ^ 16 ∷ words_at words count (n + 1)

read_sectors_one :
    (n : ℕ) (w : Drive)
    → ((read_sectors emulated 1 [] (transfer w false n)).0 ≡ ok (bytes_of (words_at w.words 256 n)))
      × ((read_sectors emulated 1 [] (transfer w false n)).1.words ≡ w.words)
unfolding read_sectors words_at emulated
read_sectors_one n w = (refl, refl)

fits_request : (lba : ℕ) → lba < 2 ^ 28 → bad_request lba 1 ≡ false
unfolding bad_request
fits_request lba h = ground arith

-- What the command of a sector asks for, in a drive whose registers the driver has set.
abbrev told : ℕ → Drive → Drive
told lba w =
    addressed w (bit_and lba 0xFF) (bit_and (lba / 2 ^ 8) 0xFF) (bit_and (lba / 2 ^ 16) 0xFF)
      (head_value emulated lba)

abbrev prepared : ℕ → Drive → Drive
prepared lba w = with_phase (addressed w w.low w.mid w.high (head_value emulated lba)) idle

send_read :
    (lba : ℕ) (w : Drive)
    → send_command emulated 0x20 lba 1 (prepared lba w)
      ≡ transfer (told lba w) false (address (told lba w) * 256)
unfolding send_command pause emulated
send_read lba w = refl

send_write :
    (lba : ℕ) (w : Drive)
    → send_command emulated 0x30 lba 1 (prepared lba w)
      ≡ transfer (told lba w) false (address (told lba w) * 256)
unfolding send_command pause emulated
send_write lba w = refl

read_sector_one :
    (p : Phase) (lba : ℕ) (w : Drive)
    → lba < 2 ^ 28
    → read_sector emulated lba 1 (with_phase w p)
      ≡ read_sectors emulated 1 [] (transfer (told lba w) false (address (told lba w) * 256))
unfolding read_sector emulated
read_sector_one idle lba w h = rw (read_sector, fits_request lba h) refl
read_sector_one asked lba w h = rw (read_sector, fits_request lba h) refl
read_sector_one offered lba w h = rw (read_sector, fits_request lba h) refl

pub read_sector_lem :
    (lba : ℕ) (w : Drive)
    → lba < 2 ^ 28
    → ((read_sector emulated lba 1 w).0 ≡ ok (bytes_of (words_at w.words 256 (lba * 256))))
      × ((read_sector emulated lba 1 w).1.words ≡ w.words)
read_sector_lem lba w h =
    let e = read_sector_one w.phase lba w h in
    let r = read_sectors_one (address (told lba w) * 256) (told lba w) in
    (
      ap (λ x. x.0) e
          ∙ r.0
          ∙ ap (λ a. ok (bytes_of (words_at w.words 256 (a * 256)))) (address_lem lba h),
      ap (λ x. x.1.words) e ∙ r.1,
    )

-- The words of the drive behind a write of some from one place on.
pub stored : (ℕ → ℕ) → ℕ → List ℕ → ℕ → ℕ
stored words n [] = words
stored words n (value ∷ values) = stored (replaced words n value) (n + 1) values

abbrev sending : Drive → (ℕ → ℕ) → ℕ → Drive
sending w words n = record {
  words = words;
  low = w.low;
  mid = w.mid;
  high = w.high;
  head = w.head;
  next = n;
  identifying = false;
  phase = offered;
}

write_words_lem :
    (values : List ℕ) (words : ℕ → ℕ) (n : ℕ) (w : Drive)
    → write_words emulated values (sending w words n)
      ≡ sending w (stored words n values) (n + length values)
unfolding write_words stored emulated
write_words_lem [] words n w = ap (sending w words) {x = n} {y = n + 0} (omega arith)
write_words_lem (value ∷ values) words n w =
    write_words_lem values (replaced words n value) (n + 1) w
    ∙ ap (sending w (stored (replaced words n value) (n + 1) values)) {x = n + 1 + length values}
        {y = n + suc (length values)} (omega arith)

end_lem :
    (words : ℕ → ℕ) (n : ℕ) (w : Drive)
    → wait_end emulated 1000000 (sending w words n) ≡ (ok 0, with_phase (sending w words n) idle)
unfolding wait_end emulated
end_lem words n w = refl

write_sectors_one :
    (n : ℕ) (bytes : List ℕ) (w : Drive)
    → write_sectors_from emulated 1 bytes (transfer w false n)
      ≡ wait_end emulated 1000000 (write_words emulated (words_of 256 bytes) (sending w w.words n))
unfolding write_sectors_from emulated
write_sectors_one n bytes w = refl

select_lem :
    (p : Phase) (lba : ℕ) (w : Drive)
    → select emulated lba (with_phase w p) ≡ (ok 0, prepared lba w)
unfolding select emulated
select_lem idle lba w = refl
select_lem asked lba w = refl
select_lem offered lba w = refl

selected_write :
    (lba : ℕ) (bytes : List ℕ) (w w1 : Drive)
    → select emulated lba w ≡ (ok 0, w1)
    → ata_write emulated lba 1 bytes w
      ≡ write_sectors_from emulated 1 bytes (send_command emulated 0x30 lba 1 w1)
unfolding ata_write
selected_write lba bytes w w1 e =
    ap
      (λ r.
        then_do {A = ℕ} r (λ e w'. (err e, w'))
          (λ w'. write_sectors_from emulated 1 bytes (send_command emulated 0x30 lba 1 w')))
      e

ata_write_one :
    (lba : ℕ) (bytes : List ℕ) (w : Drive)
    → ata_write emulated lba 1 bytes w
      ≡ write_sectors_from emulated 1 bytes
          (transfer (told lba w) false (address (told lba w) * 256))
ata_write_one lba bytes w =
    selected_write lba bytes w (prepared lba w) (select_lem w.phase lba w)
    ∙ ap (write_sectors_from emulated 1 bytes) (send_write lba w)

pub ata_write_lem :
    (lba : ℕ) (bytes : List ℕ) (w : Drive)
    → lba < 2 ^ 28
    → ((ata_write emulated lba 1 bytes w).0 ≡ ok 0)
      × ((ata_write emulated lba 1 bytes w).1.words
          ≡ stored w.words (lba * 256) (words_of 256 bytes))
ata_write_lem lba bytes w h =
    let n = address (told lba w) * 256 in
    let e =
      ata_write_one lba bytes w
      ∙ write_sectors_one n bytes (told lba w)
      ∙ ap (wait_end emulated 1000000) (write_words_lem (words_of 256 bytes) w.words n (told lba w))
      ∙ end_lem (stored w.words n (words_of 256 bytes)) (n + length (words_of 256 bytes))
          (told lba w) in
    (
      ap (λ x. x.0) e,
      ap (λ x. x.1.words) e
          ∙ ap (λ a. stored w.words (a * 256) (words_of 256 bytes)) (address_lem lba h),
    )

pub stored-outside :
    (values : List ℕ) (words : ℕ → ℕ) (n k : ℕ)
    → (k < n) ⊎ (n + length values ≤ k)
    → stored words n values k ≡ words k
unfolding stored
stored-outside [] words n k h = refl
stored-outside (value ∷ values) words n k (inl low) =
    stored-outside values (replaced words n value) (n + 1) k (inl (omega arith)) ∙ ground arith
stored-outside (value ∷ values) words n k (inr high) =
    stored-outside values (replaced words n value) (n + 1) k (inr (omega arith)) ∙ ground arith

pub stored-inside :
    (values : List ℕ) (words : ℕ → ℕ) (n i : ℕ)
    → i < length values
    → stored words n values (n + i) ≡ get_or values i 0
unfolding stored
stored-inside [] words n i h = absurd (omega arith)
stored-inside (value ∷ values) words n zero h =
    stored-outside values (replaced words n value) (n + 1) (n + 0) (inl (omega arith))
    ∙ ground arith
stored-inside (value ∷ values) words n (suc i) h =
    ap (stored (replaced words n value) (n + 1) values) {x = n + suc i} {y = n + 1 + i}
      (omega arith)
    ∙ stored-inside values (replaced words n value) (n + 1) i (omega arith)

-- IDENTIFY and FLUSH CACHE change no sector.
identify_one : (p : Phase) (w : Drive) → (identify emulated (with_phase w p)).1.words ≡ w.words
unfolding identify emulated
identify_one idle w = refl
identify_one asked w = refl
identify_one offered w = refl

pub check_writable_words :
    (disk : Disk) (w : Drive) → (check_writable emulated disk w).2.words ≡ w.words
unfolding check_writable
check_writable_words disk w = elim (Bool-cases disk.write_checked) [
  | inl e ↦ rw (check_writable, e) refl
  | inr e ↦ rw (check_writable, e) (identify_one w.phase w)
]
