-- ===== src/Fat16/Update/Free.antt =====
-- kernel/fs/fat/fat16.c: lists of free clusters, and the buffers that `fat16_allocate` reads them from.
use rorth_ox.Prelude.{
  ℕ, zero, suc, ◌+◌, ◌*◌, ◌/◌, ◌%◌, ◌≤◌, ◌<◌, ◌≡◌, ◌∙◌, ap, sym, true, some, List, [], ◌∷◌, arith,
  length, get_or,
}
use rorth_ox.Disk.{sector_size}
use rorth_ox.Fat16.{Volume}
use rorth_ox.Fat16.Geometry.{Contents, entry}
use rorth_ox.Fat16.Update.{Tables, entry_of, is_free}

module _ (v : Volume) (bytes : Contents) where
  -- The entry of a cluster in the second table.
  abbrev pub second_entry : ℕ → ℕ
  second_entry cluster =
      bytes ((v.reserved_sectors + v.sectors_per_fat) * sector_size + cluster * 2)
      + bytes ((v.reserved_sectors + v.sectors_per_fat) * sector_size + cluster * 2 + 1) * 256

  -- Clusters from one on, each of them free in both tables, in ascending order.
  pub record IsFree (low high : ℕ) (chain : List ℕ) : Type 0 where
    pub within : (i : ℕ) → i < length chain → (low ≤ get_or chain i 0) × (get_or chain i 0 < high)
    pub first : (i : ℕ) → i < length chain → entry v bytes (get_or chain i 0) ≡ 0
    pub second : (i : ℕ) → i < length chain → second_entry (get_or chain i 0) ≡ 0
    pub ascending : (i j : ℕ) → i < j → j < length chain → get_or chain i 0 < get_or chain j 0

  pub none-IsFree : (low high : ℕ) → IsFree low high []
  none-IsFree low high = record {
    within = λ i h. absurd (omega arith);
    first = λ i h. absurd (omega arith);
    second = λ i h. absurd (omega arith);
    ascending = λ i j h h'. absurd (omega arith);
  }

  pub skip-IsFree :
      (low high : ℕ) (chain : List ℕ) → IsFree (low + 1) high chain → IsFree low high chain
  skip-IsFree low high chain f = record {
    within = λ i h. (let w = f.within i h in (omega (arith, w.0), w.1));
    first = f.first;
    second = f.second;
    ascending = f.ascending;
  }

  module _ (low high : ℕ) (chain : List ℕ) (rest : IsFree (low + 1) high chain) (here : low < high)
      (e : entry v bytes low ≡ 0) (e' : second_entry low ≡ 0) where
    take_within :
        (i : ℕ)
        → i < length (low ∷ chain)
        → (low ≤ get_or (low ∷ chain) i 0) × (get_or (low ∷ chain) i 0 < high)
    take_within zero h = (omega arith, here)
    take_within (suc i) h = let w = rest.within i (omega arith) in (omega (arith, w.0), w.1)

    take_first : (i : ℕ) → i < length (low ∷ chain) → entry v bytes (get_or (low ∷ chain) i 0) ≡ 0
    take_first zero h = e
    take_first (suc i) h = rest.first i (omega arith)

    take_second : (i : ℕ) → i < length (low ∷ chain) → second_entry (get_or (low ∷ chain) i 0) ≡ 0
    take_second zero h = e'
    take_second (suc i) h = rest.second i (omega arith)

    take_ascending :
        (i j : ℕ)
        → i < j
        → j < length (low ∷ chain)
        → get_or (low ∷ chain) i 0 < get_or (low ∷ chain) j 0
    take_ascending i zero h h' = absurd (omega arith)
    take_ascending zero (suc j) h h' = let w = rest.within j (omega arith) in omega (arith, w.0)
    take_ascending (suc i) (suc j) h h' = rest.ascending i j (omega arith) (omega arith)

    pub take-IsFree : IsFree low high (low ∷ chain)
    take-IsFree = record {
      within = take_within;
      first = take_first;
      second = take_second;
      ascending = take_ascending;
    }

  -- Two buffers that hold one sector of both tables.
  pub record Holds (t : Tables) (sector : ℕ) : Type 0 where
    pub in_first :
        (i : ℕ)
        → i < sector_size
        → get_or t.first i 0 ≡ bytes ((v.reserved_sectors + sector) * sector_size + i)
    pub in_second :
        (i : ℕ)
        → i < sector_size
        → get_or t.second i 0
          ≡ bytes ((v.reserved_sectors + v.sectors_per_fat + sector) * sector_size + i)

  -- Whatever sector the buffers are said to hold, they do.
  abbrev pub IsCurrent : Tables → Type 0
  IsCurrent t = (sector : ℕ) → t.loaded ≡ some sector → Holds t sector

  module _ (t : Tables) (cluster : ℕ) (h : Holds t (cluster / 256)) where
    pub entry_of_first : entry_of t.first (cluster % 256) ≡ entry v bytes cluster
    entry_of_first =
        let a = h.in_first (cluster % 256 * 2) (omega arith) in
        let b = h.in_first (cluster % 256 * 2 + 1) (omega arith) in
        let place =
          ap bytes {x = (v.reserved_sectors + cluster / 256) * sector_size + cluster % 256 * 2}
            {y = v.reserved_sectors * sector_size + cluster * 2} (omega arith) in
        let next =
          ap bytes
            {x = (v.reserved_sectors + cluster / 256) * sector_size + (cluster % 256 * 2 + 1)}
            {y = v.reserved_sectors * sector_size + cluster * 2 + 1} (omega arith) in
        omega arith

    pub entry_of_second : entry_of t.second (cluster % 256) ≡ second_entry cluster
    entry_of_second =
        let start : ℕ = v.reserved_sectors + v.sectors_per_fat in
        let a = h.in_second (cluster % 256 * 2) (omega arith) in
        let b = h.in_second (cluster % 256 * 2 + 1) (omega arith) in
        let place =
          ap bytes {x = (start + cluster / 256) * sector_size + cluster % 256 * 2}
            {y = start * sector_size + cluster * 2} (omega arith) in
        let next =
          ap bytes {x = (start + cluster / 256) * sector_size + (cluster % 256 * 2 + 1)}
            {y = start * sector_size + cluster * 2 + 1} (omega arith) in
        omega arith

  pub free_lem :
      (t : Tables) (cluster : ℕ)
      → Holds t (cluster / 256)
      → is_free t cluster ≡ true
      → (entry v bytes cluster ≡ 0) × (second_entry cluster ≡ 0)
  free_lem t cluster h free =
      let zero_first : entry_of t.first (cluster % 256) ≡ 0 = ground arith in
      let zero_second : entry_of t.second (cluster % 256) ≡ 0 = ground arith in
      (
        sym (entry_of_first t cluster h) ∙ zero_first,
        sym (entry_of_second t cluster h) ∙ zero_second,
      )
