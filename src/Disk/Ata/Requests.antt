-- ===== src/Disk/Ata/Requests.antt =====
-- Which requests kernel/disk/disk.c lets through to the drive.
use rorth_ox.Prelude.{
  ℕ, ◌+◌, ◌*◌, ◌^◌, ◌<◌, ◌≤◌, ◌≡◌, inl, inr, refl, get_or, true, false, List, min, Bool-cases,
}
use rorth_ox.Status.{Result, ok, err}
use rorth_ox.Disk.Ata.{
  read_words, checked, Ports, Disk, identify, check_writable, lba28_limit, max_sectors,
}

checked_write :
    {W : Type 0} (ports : Ports W) (disk : Disk) (w : W)
    → disk.write_checked ≡ true
    → check_writable ports disk w ≡ (disk.write_status, disk, w)
unfolding check_writable
checked_write ports disk w e = rw (check_writable, e) refl

unchecked_write :
    {W : Type 0} (ports : Ports W) (disk : Disk) (w : W)
    → disk.write_checked ≡ false
    → check_writable ports disk w ≡ (
      (checked (identify ports w).0).write_status,
      checked (identify ports w).0,
      (identify ports w).1,
    )
unfolding check_writable
unchecked_write ports disk w e = rw (check_writable, e) refl

checked-checked : (r : Result ℕ) → (checked r).write_checked ≡ true
checked-checked (ok n) = refl
checked-checked (err e) = refl

-- A check of a drive leaves its answer in the disk: a second one, whatever the drive would say by
-- then, gives the same answer, and changes neither the disk nor the hardware.
pub check_writable-check_writable :
    {W : Type 0} (ports : Ports W) (disk : Disk) (w w' : W)
    → check_writable ports (check_writable ports disk w).1 w'
      ≡ ((check_writable ports disk w).0, (check_writable ports disk w).1, w')
check_writable-check_writable ports disk w w' = elim (Bool-cases disk.write_checked) [
  | inl e ↦ rw (checked_write ports disk w e, checked_write ports disk w' e) refl
  | inr e ↦
      let r = (identify ports w).0 in
      rw (unchecked_write ports disk w e, checked_write ports (checked r) w' (checked-checked r))
        refl
]

-- The two 16-bit words of the number of sectors, or the most that a 28-bit command can reach.
abbrev pub sectors_of : List ℕ → ℕ
sectors_of words = min (get_or words 60 0 + get_or words 61 0 * 2 ^ 16) 0x0FFFFFFF

module _ (Holds : ℕ → Type 0) where
  -- What a success gives is one of these numbers.
  abbrev Gives : Result ℕ → Type 0
  Gives r = (n : ℕ) → r ≡ ok n → Holds n

module _ {W : Type 0} (ports : Ports W)
    (small : (w : W) (port : ℕ) → (ports.insw w port).0 < 2 ^ 16) where
  -- The drive gave 256 words from some moment on, and this is the number of sectors in them.
  pub data Reported (n : ℕ) : Type 0 where
    reported : (w : W) → n ≡ sectors_of (read_words ports 256 w).0 → Reported n

abbrev pub Fits : ℕ → ℕ → Type 0
Fits lba total = (1 ≤ total) × (total ≤ max_sectors) × (lba + total ≤ lba28_limit)

module _ {W : Type 0} (ports : Ports W)
    (small : (w : W) (port : ℕ) → (ports.insw w port).0 < 2 ^ 16) (lba total : ℕ)
    (bytes : List ℕ) where
  -- The disk that the check leaves stays, and a success means that the sectors are the drive's.
  abbrev Within : Disk → Result ℕ × Disk × W → Type 0
  Within disk r = (r.1 ≡ disk) × ((n : ℕ) → r.0 ≡ ok n → lba + total ≤ disk.write_sectors)

  abbrev pub Shows : Disk → Disk → Type 0
  Shows disk disk' =
      (disk.write_checked ≡ true → disk' ≡ disk)
      × (disk.write_checked ≡ false → Reported ports small disk'.write_sectors)

  -- What a success of a write shows.
  abbrev pub Written : Disk → Result ℕ × Disk × W → Type 0
  Written disk r =
      (n : ℕ) → r.0 ≡ ok n → Fits lba total × (lba + total ≤ r.1.write_sectors) × Shows disk r.1
