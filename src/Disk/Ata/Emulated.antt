-- ===== src/Disk/Ata/Emulated.antt =====
-- The drive that kernel/disk/disk.c may find behind the ports: one that answers every command for one
-- sector, and IDENTIFY, as the ATA standard says. Its sectors are a function from a place to the word
-- there. It reports a transfer once, and the next status is that of its end.
use rorth_ox.Prelude.{ℕ, ◌+◌, ◌*◌, ◌%◌, ◌^◌, Bool, true, false, ◌||◌, ◌==◌, if◌then◌else◌}
use rorth_ox.Disk.Ata.{Ports, ata_status}

-- No transfer, one that waits to be reported, and one that was.
pub data Phase : Type 0 where
  idle asked offered : Phase

-- The sectors, the registers of the address, the next word, and whether it is one of IDENTIFY.
pub record Drive : Type 0 where
  pub words : ℕ → ℕ
  pub low : ℕ
  pub mid : ℕ
  pub high : ℕ
  pub head : ℕ
  pub next : ℕ
  pub identifying : Bool
  pub phase : Phase

-- DRDY, and DRQ with a transfer.
abbrev pub status_of : Phase → ℕ
status_of idle = 0x40
status_of asked = 0x48
status_of offered = 0x40

abbrev pub polled : Phase → Phase
polled idle = idle
polled asked = offered
polled offered = idle

abbrev pub with_phase : Drive → Phase → Drive
with_phase w p = record {
  words = w.words;
  low = w.low;
  mid = w.mid;
  high = w.high;
  head = w.head;
  next = w.next;
  identifying = w.identifying;
  phase = p;
}

abbrev pub at_word : Drive → (ℕ → ℕ) → ℕ → Drive
at_word w words n = record {
  words = words;
  low = w.low;
  mid = w.mid;
  high = w.high;
  head = w.head;
  next = n;
  identifying = w.identifying;
  phase = w.phase;
}

abbrev pub addressed : Drive → ℕ → ℕ → ℕ → ℕ → Drive
addressed w low mid high head = record {
  words = w.words;
  low = low;
  mid = mid;
  high = high;
  head = head;
  next = w.next;
  identifying = w.identifying;
  phase = w.phase;
}

abbrev pub transfer : Drive → Bool → ℕ → Drive
transfer w identifying n = record {
  words = w.words;
  low = w.low;
  mid = w.mid;
  high = w.high;
  head = w.head;
  next = n;
  identifying = identifying;
  phase = asked;
}

-- The sector that the registers address, in the low 4 bits of the head register and the other three.
abbrev pub address : Drive → ℕ
address w = w.low + w.mid * 2 ^ 8 + w.high * 2 ^ 16 + w.head % 16 * 2 ^ 24

-- READ SECTORS, WRITE SECTORS and IDENTIFY DEVICE; FLUSH CACHE has nothing to do.
abbrev pub commanded : Drive → ℕ → Drive
commanded w command =
    if command == 0x20 || command == 0x30
    then transfer w false (address w * 256)
    else if command == 0xEC
    then transfer w true 0
    else w

abbrev pub written_port : Drive → ℕ → ℕ → Drive
written_port w port value =
    if port == 0x1F3
    then addressed w value w.mid w.high w.head
    else if port == 0x1F4
    then addressed w w.low value w.high w.head
    else if port == 0x1F5
    then addressed w w.low w.mid value w.head
    else if port == 0x1F6
    then addressed w w.low w.mid w.high value
    else if port == ata_status
    then commanded w value
    else w

abbrev pub replaced : (ℕ → ℕ) → ℕ → ℕ → ℕ → ℕ
replaced words n value k = if k == n then value else words k

-- An ATA disk with LBA, FLUSH CACHE and 0x10000 sectors.
abbrev pub identity : ℕ → ℕ
identity n = if n == 49 then 0x0200 else if n == 61 then 1 else if n == 83 then 0x5000 else 0

unfoldable pub emulated : Ports Drive
emulated = record {
  insb = λ w port.
      (if port == ata_status
        then (status_of w.phase, with_phase w (polled w.phase))
        else (0x40, w));
  insw = λ w port. (
    (if w.identifying then identity w.next else w.words w.next) % 2 ^ 16,
    at_word w w.words (w.next + 1),
  );
  outb = λ w port value. written_port w port value;
  outw = λ w port value.
      (if w.identifying then w else at_word w (replaced w.words w.next value) (w.next + 1));
}
