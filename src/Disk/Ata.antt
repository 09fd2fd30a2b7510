-- ===== src/Disk/Ata.antt =====
-- kernel/disk/disk.c: the ATA driver, over the port instructions of the machine (io.asm), which
-- are a parameter with the state of the hardware behind them.
pub mod Poll
pub mod Requests
pub mod Words
pub mod Emulated
pub mod Driven
pub mod Served
pub mod RoundTrip
mod Tests
use rorth_ox.Prelude.{
  ℕ, zero, suc, ◌+◌, ◌-◌, ◌*◌, ◌/◌, ◌%◌, ◌^◌, Bool, true, false, not, ◌&&◌, ◌||◌, List, [], ◌∷◌,
  ◌++◌, ltb, leb, ◌==◌, if◌then◌else◌, bit_and, bit_or, get_or, min, drop,
}
use rorth_ox.Status.{Result, ok, err, Errno}
use rorth_ox.Disk.{BlockDevice, sector_size}

pub record Ports (W : Type 0) : Type 0 where
  pub insb : W → ℕ → ℕ × W
  pub insw : W → ℕ → ℕ × W
  pub outb : W → ℕ → ℕ → W
  pub outw : W → ℕ → ℕ → W

abbrev pub ata_data : ℕ
ata_data = 0x1F0

abbrev ata_error : ℕ
ata_error = 0x1F1

abbrev ata_sector_count : ℕ
ata_sector_count = 0x1F2

abbrev ata_lba_low : ℕ
ata_lba_low = 0x1F3

abbrev ata_lba_mid : ℕ
ata_lba_mid = 0x1F4

abbrev ata_lba_high : ℕ
ata_lba_high = 0x1F5

abbrev ata_drive_head : ℕ
ata_drive_head = 0x1F6

-- The status to read, the command to write.
abbrev pub ata_status : ℕ
ata_status = 0x1F7

abbrev ata_alt_status : ℕ
ata_alt_status = 0x3F6

abbrev pub poll_limit : ℕ
poll_limit = 1000000

abbrev pub flush_poll_limit : ℕ
flush_poll_limit = 100000000

abbrev pub lba28_limit : ℕ
lba28_limit = 0x10000000

abbrev pub max_sectors : ℕ
max_sectors = 256

-- What a status means to a loop that waits: read it again, or end with or without success.
pub data Verdict : Type 0 where
  again done failed : Verdict

-- `(status & mask) != 0`
abbrev any : ℕ → ℕ → Bool
any status mask = not (bit_and status mask == 0)

-- Neither BSY nor DRQ.
pub idle_verdict : ℕ → Verdict
idle_verdict status = if any status 0x88 then Verdict.again else Verdict.done

-- BSY first, then ERR or DF, then DRQ.
pub data_verdict : ℕ → Verdict
data_verdict status =
    if any status 0x80
    then Verdict.again
    else if any status 0x21
    then Verdict.failed
    else if any status 0x08
    then Verdict.done
    else Verdict.again

pub end_verdict : ℕ → Verdict
end_verdict status =
    if any status 0x80
    then Verdict.again
    else if any status 0x29
    then Verdict.failed
    else Verdict.done

-- Neither BSY nor DRQ, and DRDY.
pub ready_verdict : ℕ → Verdict
ready_verdict status =
    if not (any status 0x88) && any status 0x40 then Verdict.done else Verdict.again

-- `unsigned short` to its two bytes in memory, and back.
pub bytes_of : List ℕ → List ℕ
bytes_of [] = []
bytes_of (w ∷ words) = w % 256 ∷ w / 256 ∷ bytes_of words

pub words_of : ℕ → List ℕ → List ℕ
words_of zero bytes = []
words_of (suc n) [] = []
words_of (suc n) (a ∷ []) = []
words_of (suc n) (a ∷ b ∷ bytes) = bit_or a (b * 256) ∷ words_of n bytes

-- What the disk remembers of the first IDENTIFY.
pub record Disk : Type 0 where
  pub write_checked : Bool
  pub write_status : Result ℕ
  pub write_sectors : ℕ

-- `total < 1 || total > ATA_MAX_SECTORS`, then the test that the last sector fits 28 bits.
pub bad_request : ℕ → ℕ → Bool
bad_request lba total =
    ltb total 1
    || ltb max_sectors total
    || leb lba28_limit lba
    || ltb (lba28_limit - 1 - lba) (total - 1)

-- The tests of the IDENTIFY data, by its 256 words.
pub identified : List ℕ → Result ℕ
identified words =
    let word = λ (i : ℕ). get_or words i 0 in
    let sectors = bit_or (word 60) (word 61 * 2 ^ 16) in
    if any (word 0) 0x8004 || not (any (word 49) 0x0200)
    then err Errno.erdonly
    else if sectors == 0
    then err Errno.erdonly
    else if not (bit_and (word 83) 0xC000 == 0x4000) || not (any (word 83) 0x1000)
    then err Errno.erdonly
    else if (bit_and (word 106) 0xC000 == 0x4000)
        && any (word 106) 0x1000
        && not (bit_or (word 117) (word 118 * 2 ^ 16) == sector_size / 2)
    then err Errno.erdonly
    else ok (min sectors 0x0FFFFFFF)

-- The disk after an IDENTIFY.
abbrev pub checked : Result ℕ → Disk
checked (ok sectors) = record { write_checked = true; write_status = ok 0; write_sectors = sectors }
checked (err e) = record { write_checked = true; write_status = err e; write_sectors = 0 }

-- The first step's failure, or the next step.
abbrev pub then_do :
    {W A : Type 0} → Result ℕ × W → (Errno → W → Result A × W) → (W → Result A × W) → Result A × W
then_do (ok r, w) fail next = next w
then_do (err e, w) fail next = fail e w

module _ {W : Type 0} (ports : Ports W) where
  -- A loop of at most `limit` status reads.
  pub poll : (ℕ → Verdict) → ℕ → W → Result ℕ × W
  poll verdict zero w = (err Errno.eio, w)
  poll verdict (suc limit) w =
      let w' = (ports.insb w ata_status).1 in
      let rest = poll verdict limit w' in
      elim (verdict (ports.insb w ata_status).0) [
        | Verdict.again ↦ rest
        | Verdict.done ↦ (ok 0, w')
        | Verdict.failed ↦ (err Errno.eio, w')
      ]

  -- Four reads of the alternate status.
  pub pause : W → W
  pause w = let once = λ (v : W). (ports.insb v ata_alt_status).1 in once (once (once (once w)))

  pub wait_idle : W → Result ℕ × W
  unfolding poll idle_verdict
  wait_idle w = poll idle_verdict poll_limit w

  pub wait_data : W → Result ℕ × W
  unfolding poll data_verdict
  wait_data w = poll data_verdict poll_limit w

  pub wait_end : ℕ → W → Result ℕ × W
  unfolding poll end_verdict
  wait_end limit w = poll end_verdict limit w

  pub wait_ready : W → Result ℕ × W
  unfolding poll ready_verdict
  wait_ready w = poll ready_verdict poll_limit w

  abbrev fail_with : {A : Type 0} → Errno → W → Result A × W
  fail_with e w = (err e, w)

  abbrev head_value : ℕ → ℕ
  head_value lba = bit_or 0xE0 (bit_and (lba / 2 ^ 24) 0x0F)

  pub select : ℕ → W → Result ℕ × W
  unfolding wait_idle pause wait_ready
  select lba w =
      then_do (wait_idle w) fail_with
        (λ w1. wait_ready (pause (ports.outb w1 ata_drive_head (head_value lba))))

  -- The sector count, the address and the command.
  pub send_command : ℕ → ℕ → ℕ → W → W
  unfolding pause
  send_command command lba total w =
      let w1 = ports.outb w ata_sector_count (bit_and total 0xFF) in
      let w2 = ports.outb w1 ata_lba_low (bit_and lba 0xFF) in
      let w3 = ports.outb w2 ata_lba_mid (bit_and (lba / 2 ^ 8) 0xFF) in
      let w4 = ports.outb w3 ata_lba_high (bit_and (lba / 2 ^ 16) 0xFF) in
      pause (ports.outb w4 ata_status command)

  pub read_words : ℕ → W → List ℕ × W
  read_words zero w = ([], w)
  read_words (suc n) w =
      let rest = read_words n (ports.insw w ata_data).1 in
      ((ports.insw w ata_data).0 ∷ rest.0, rest.1)

  pub write_words : List ℕ → W → W
  write_words [] w = w
  write_words (v ∷ words) w = write_words words (ports.outw w ata_data v)

  -- The loop over the sectors of a read, with the bytes that are in the buffer already.
  pub read_sectors : ℕ → List ℕ → W → Result (List ℕ) × W
  unfolding wait_data read_words pause bytes_of wait_end
  read_sectors zero stored w = then_do (wait_end poll_limit w) fail_with (λ w1. (ok stored, w1))
  read_sectors (suc total) stored w = then_do (wait_data w) fail_with (λ w1.
      let got = read_words (sector_size / 2) w1 in
      read_sectors total (stored ++ bytes_of got.0) (pause got.1))

  -- `disk_read_sector` for a buffer that is not null.
  pub read_sector : ℕ → ℕ → W → Result (List ℕ) × W
  unfolding read_sectors send_command wait_idle bad_request pause
  read_sector lba total w =
      if bad_request lba total
      then (err Errno.einvarg, w)
      else then_do (wait_idle w) fail_with (λ w1.
        then_do (wait_idle (pause (ports.outb w1 ata_drive_head (head_value lba)))) fail_with
          (λ w2. read_sectors total [] (send_command 0x20 lba total w2)))

  -- `ata_identify` once the drive has taken the command.
  pub identify_data : W → Result ℕ × W
  unfolding read_words pause wait_end identified
  identify_data w =
      let got = read_words (sector_size / 2) w in
      then_do (wait_end poll_limit (pause got.1)) fail_with (λ w1. (identified got.0, w1))

  -- A drive that aborts IDENTIFY is no ATA disk.
  pub identify_failed : Errno → W → Result ℕ × W
  identify_failed e w =
      let status = ports.insb w ata_alt_status in
      let error = ports.insb status.1 ata_error in
      if bit_and status.0 0xA1 == 0x01
      then if any error.0 0x04 then (err Errno.erdonly, error.1) else (err e, error.1)
      else (err e, status.1)

  pub identify : W → Result ℕ × W
  unfolding wait_idle pause wait_ready wait_data identify_failed identify_data
  identify w = then_do (wait_idle w) fail_with (λ w1.
      let status = ports.insb (pause (ports.outb w1 ata_drive_head 0xE0)) ata_status in
      if status.0 == 0x00 || status.0 == 0xFF
      then (err Errno.erdonly, status.1)
      else then_do (wait_ready status.1) fail_with (λ w2.
        then_do (wait_data (pause (ports.outb w2 ata_status 0xEC))) identify_failed identify_data))

  -- The loop over the sectors of a write.
  pub write_sectors_from : ℕ → List ℕ → W → Result ℕ × W
  unfolding wait_data write_words words_of pause wait_end
  write_sectors_from zero bytes w = wait_end poll_limit w
  write_sectors_from (suc total) bytes w = then_do (wait_data w) fail_with (λ w1.
      write_sectors_from total (drop sector_size bytes)
        (pause (write_words (words_of (sector_size / 2) bytes) w1)))

  -- `ata_write_sectors`
  pub ata_write : ℕ → ℕ → List ℕ → W → Result ℕ × W
  unfolding select send_command write_sectors_from
  ata_write lba total bytes w =
      then_do (select lba w) fail_with
        (λ w1. write_sectors_from total bytes (send_command 0x30 lba total w1))

  -- `disk_check_writable`: the status, the disk and the hardware.
  pub check_writable : Disk → W → Result ℕ × Disk × W
  unfolding identify
  check_writable disk w =
      if disk.write_checked
      then (disk.write_status, disk, w)
      else ((checked (identify w).0).write_status, checked (identify w).0, (identify w).1)

  -- The functions of the one disk; a pointer to another, `known` being false, is refused.
  pub write_capacity : Bool → Disk → W → Result ℕ × Disk × W
  unfolding check_writable
  write_capacity known disk w =
      if not known
      then (err Errno.eio, disk, w)
      else let c = check_writable disk w in
        elim c.0 [ err e ↦ (err e, c.1, c.2) | ok r ↦ (ok c.1.write_sectors, c.1, c.2) ]

  -- The rest of `disk_write_block`, after its check.
  pub write_if_fits : ℕ → ℕ → List ℕ → Result ℕ × Disk × W → Result ℕ × Disk × W
  unfolding ata_write
  write_if_fits lba total bytes (err e, disk, w) = (err e, disk, w)
  write_if_fits lba total bytes (ok r, disk, w) =
      if leb disk.write_sectors lba || ltb (disk.write_sectors - lba) total
      then (err Errno.einvarg, disk, w)
      else ((ata_write lba total bytes w).0, disk, (ata_write lba total bytes w).1)

  pub write_block : Bool → ℕ → ℕ → List ℕ → Disk → W → Result ℕ × Disk × W
  unfolding bad_request check_writable write_if_fits
  write_block known lba total bytes disk w =
      if not known
      then (err Errno.eio, disk, w)
      else if bad_request lba total
      then (err Errno.einvarg, disk, w)
      else write_if_fits lba total bytes (check_writable disk w)

  pub flush : Bool → Disk → W → Result ℕ × Disk × W
  unfolding check_writable select pause wait_end
  flush known disk w =
      if not known
      then (err Errno.eio, disk, w)
      else let c = check_writable disk w in
        elim c.0 [
          | err e ↦ (err e, c.1, c.2)
          | ok r ↦
              let ended =
                then_do (select 0 c.2) fail_with
                  (λ w1. wait_end flush_poll_limit (pause (ports.outb w1 ata_status 0xE7))) in
              (ended.0, c.1, ended.1)
        ]

  pub read_block : Bool → ℕ → ℕ → W → Result (List ℕ) × W
  unfolding read_sector
  read_block known lba total w = if known then read_sector lba total w else (err Errno.eio, w)

  -- The interface that the streamer and the file system use.
  unfoldable pub ata_device : BlockDevice (Disk × W)
  unfolding read_block write_block flush
  ata_device = record {
    read_block = λ d lba. ((read_block true lba 1 d.1).0, (d.0, (read_block true lba 1 d.1).1));
    write_block =
        λ d lba bytes. (let r = write_block true lba 1 bytes d.0 d.1 in (r.0, (r.1, r.2)));
    flush = λ d. (let r = flush true d.0 d.1 in (r.0, (r.1, r.2)));
  }
