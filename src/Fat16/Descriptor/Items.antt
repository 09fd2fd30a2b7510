-- ===== src/Fat16/Descriptor/Items.antt =====
-- kernel/fs/fat/fat16.c: how much a read of items hands out, and the number that it returns.
use rorth_ox.Prelude.{ℕ, suc, ◌+◌, ◌-◌, ◌*◌, ◌≤◌, ◌<◌, ◌≡◌, ◌⊎◌, List, length, min}
use rorth_ox.Status.{Result, ok}
use rorth_ox.Disk.{BlockDevice, Media}
use rorth_ox.Fat16.{Volume, read_internal}
use rorth_ox.Fat16.Descriptor.{File, read_items, Outcome}

-- `amount` bytes and `n` items of a read of `nmemb` items where `left` bytes are left.
pub record Counted (size nmemb left amount n : ℕ) : Type 0 where
  pub total : amount ≡ min (nmemb * size) left
  pub whole : n * size ≤ amount
  pub last : 1 ≤ size → (n ≡ nmemb) ⊎ (amount < (n + 1) * size)

-- The same with `count` items more in the number.
record CountedOn (size nmemb left amount count n : ℕ) : Type 0 where
  items : ℕ
  sum : n ≡ count + items
  counted : Counted size nmemb left amount items

module _ {D : Type 0} (dev : BlockDevice D) (m : Media dev) (v : Volume)
    (small : v.reserved_sectors < 0x10000) where
  abbrev IsCounted : ℕ → ℕ → ℕ → ℕ → Outcome dev v → Type 0
  IsCounted size nmemb left count r =
      (n : ℕ) → r.0 ≡ ok n → CountedOn size nmemb left (length r.1) count n

  module _ (nmemb : ℕ) (f : File) (d : D) (size count : ℕ) where
    abbrev left : ℕ
    left = f.item.filesize - f.position

    abbrev answer : Result ℕ × List ℕ × D
    answer = read_internal dev v d f.item.low_first_cluster f.position (min size left)

    abbrev all : Outcome dev v
    all = read_items dev v (suc nmemb) f d size count
