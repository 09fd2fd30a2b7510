-- ===== src/Disk/Streamer/Tests.antt =====
-- Runs and instances for kernel/disk/streamer.c over the ATA driver and a drive behind it.
use rorth_ox.Prelude.{ℕ, zero, suc, ◌<◌, ◌%◌, true, false, List, [], ◌∷◌, arith, take, pos, get_or}
use rorth_ox.Status.{ok}
use rorth_ox.Disk.Ata.{Disk, ata_device}
use rorth_ox.Disk.Ata.Emulated.{Drive, emulated, idle}
use rorth_ox.Disk.Ata.Served.{ata_media}
use rorth_ox.Disk.Streamer.{read, write}
use rorth_ox.Disk.Streamer.Read.{Delivered, read-Delivered}
use rorth_ox.Disk.Streamer.Write.{Written, write-Written}

abbrev ramp : Disk × Drive
ramp = (
  record { write_checked = true; write_status = ok 0; write_sectors = 0x10000 },
  record {
    words = λ k. k % 251;
    low = 0;
    mid = 0;
    high = 0;
    head = 0;
    next = 0;
    identifying = false;
    phase = idle;
  },
)

read-Delivered_example :
    Delivered
      (ata_device emulated)
      ata_media
      ramp
      510
      5
      (read (ata_device emulated) ramp 510 (pos 5))
read-Delivered_example = read-Delivered (ata_device emulated) ata_media ramp 510 5 (omega arith)

abbrev three : List ℕ
three = 7 ∷ 8 ∷ 9 ∷ []

three-bytes : (k : ℕ) → get_or three k 0 < 256
three-bytes zero = omega arith
three-bytes (suc zero) = omega arith
three-bytes (suc (suc zero)) = omega arith
three-bytes (suc (suc (suc k))) = omega arith

write-Written_example :
    Written
      (ata_device emulated)
      ata_media
      ramp
      511
      (take 3 three)
      (write (ata_device emulated) ramp 511 three (pos 3))
write-Written_example =
    write-Written (ata_device emulated) ata_media ramp 511 3 three (omega arith) (omega arith)
      three-bytes
