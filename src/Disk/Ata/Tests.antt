-- ===== src/Disk/Ata/Tests.antt =====
-- Runs of the ATA driver of kernel/disk/disk.c against a drive that answers from a script.
use rorth_ox.Prelude.{
  replicate, ℕ, zero, suc, ◌<◌, ◌≡◌, refl, true, false, List, [], ◌∷◌, ◌==◌, if◌then◌else◌, arith,
}
use rorth_ox.Status.{ok}
use rorth_ox.Disk.Ata.Emulated.{Drive, idle}
use rorth_ox.Disk.Ata.{Ports, Disk, Verdict, ata_status, data_verdict, poll}
use rorth_ox.Disk.Ata.Poll.{poll_lem, nth_verdict}

-- The next status of the script, and 0x40 behind its end.
next_status : List ℕ → ℕ × List ℕ
next_status [] = (0x40, [])
next_status (status ∷ script) = (status, script)

abbrev scripted : Ports (List ℕ)
unfolding next_status
scripted = record {
  insb = λ script port. (if port == ata_status then next_status script else (0x40, script));
  insw = λ script port. (0, script);
  outb = λ script port value. script;
  outw = λ script port value. script;
}

abbrev small_disk : Disk
small_disk = record { write_checked = true; write_status = ok 0; write_sectors = 10 }

abbrev new_disk : Disk
new_disk = record { write_checked = false; write_status = ok 0; write_sectors = 0 }

-- Idle, ready, then DRQ for the one sector, and done.
abbrev one_sector : List ℕ
one_sector = 0x40 ∷ 0x40 ∷ 0x80 ∷ 0x48 ∷ 0x40 ∷ []

busy_twice :
    (j : ℕ) → j < 2 → nth_verdict scripted data_verdict j (0x80 ∷ 0xC0 ∷ 0x48 ∷ []) ≡ Verdict.again
unfolding next_status data_verdict
busy_twice zero h = refl
busy_twice (suc zero) h = refl
busy_twice (suc (suc j)) h = absurd (omega arith)

poll_lem_example : poll scripted data_verdict 5 (0x80 ∷ 0xC0 ∷ 0x48 ∷ []) ≡ (ok 0, [])
unfolding poll next_status data_verdict
poll_lem_example =
    (poll_lem scripted data_verdict 2 5 (0x80 ∷ 0xC0 ∷ 0x48 ∷ []) busy_twice).0 (ground arith) refl

abbrev idle_drive : Drive
idle_drive = record {
  words = λ k. k;
  low = 0;
  mid = 0;
  high = 0;
  head = 0;
  next = 0;
  identifying = false;
  phase = idle;
}

abbrev zeros : List ℕ
zeros = replicate 512 0
