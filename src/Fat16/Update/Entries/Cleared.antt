-- ===== src/Fat16/Update/Entries/Cleared.antt =====
-- kernel/fs/fat/fat16.c: what the release of a chain leaves on the disk.
use rorth_ox.Prelude.{
  ℕ, zero, suc, ◌+◌, ◌-◌, ◌*◌, ◌≤◌, ◌<◌, ◌≡◌, refl, ◌∙◌, ap, sym, subst, Bool, true, false, ◌&&◌,
  ◌||◌, List, [], ◌∷◌, arith, ltb, leb, if◌then◌else◌, length, get_or, take_all, pos,
}
use native.Mathlib.Nat.{mul-le-mul_right}
use rorth_ox.Status.{Result, ok, err}
use rorth_ox.Disk.{BlockDevice, Media, sector_size}
use rorth_ox.Disk.Streamer.{seek, write, int_max}
use rorth_ox.Disk.Streamer.Write.{AreBytes, write-Written, overlaid}
use rorth_ox.Disk.Streamer.Success.{write_zero}
use rorth_ox.Fat16.{Volume}
use rorth_ox.Fat16.Chains.{seek_at}
use rorth_ox.Fat16.Update.Entries.{
  Store, written, write_at, flushed, fat16_flush, fat16_set_entry, clear_entries, clear_copy,
  release_chain,
}

-- The start of the entry of a cluster in a copy of the table.
abbrev pub entry_start : Volume → ℕ → ℕ → ℕ
entry_start v copy cluster =
    (v.reserved_sectors + copy * v.sectors_per_fat) * sector_size + cluster * 2

-- Whether a place of the disk is in the entry, in one copy of the table, of a cluster of a list.
pub in_entries : Volume → ℕ → List ℕ → ℕ → Bool
in_entries v copy [] j = false
in_entries v copy (cluster ∷ chain) j =
    (leb (entry_start v copy cluster) j && ltb j (entry_start v copy cluster + 2))
    || in_entries v copy chain j

two_zeros : (i : ℕ) → ◌≡◌ {A = ℕ} (get_or (0 ∷ 0 ∷ []) i 0) 0
two_zeros zero = refl
two_zeros (suc zero) = refl
two_zeros (suc (suc i)) = refl

both_zero :
    (a b : Bool) (x y : ℕ)
    → x ≡ (if a then 0 else y)
    → (if b then 0 else x) ≡ (if a || b then 0 else y)
both_zero true true x y e = refl
both_zero true false x y e = e
both_zero false true x y e = refl
both_zero false false x y e = e

module _ {D : Type 0} (dev : BlockDevice D) (m : Media dev) (v : Volume)
    (small : v.reserved_sectors < 0x10000) (small_table : v.sectors_per_fat < 0x10000) where
  -- A write that is taken for a success is one, and its device stays.
  from_written :
      (Q : D → Type 0) (disabled : Bool) (position n : ℕ) (r : Result ℕ × ℕ × D)
      → ((k : ℕ) → r.0 ≡ ok k → Q r.2)
      → (written dev v disabled position r).0 ≡ ok n
      → Q (written dev v disabled position r).1.device
  from_written Q disabled position n (ok k, moved, d) q h = q k refl
  from_written Q disabled position n (err e, moved, d) q h = absurd (cc)

  from_flushed :
      (disabled : Bool) (n : ℕ) (r : Result ℕ × D) → (flushed dev v disabled r).1.device ≡ r.1
  from_flushed disabled n (ok k, d) = refl
  from_flushed disabled n (err e, d) = refl

  write_at-stored :
      (s : Store D) (position n : ℕ) (bytes : List ℕ)
      → position + length bytes ≤ int_max
      → AreBytes bytes
      → (write_at dev v s position bytes (length bytes)).0 ≡ ok n
      → (j : ℕ)
      → m.contents (write_at dev v s position bytes (length bytes)).1.device j
        ≡ overlaid position bytes (m.contents s.device j) j
  unfolding write_at
  write_at-stored s position n bytes fits low h j =
      from_written (λ d. m.contents d j ≡ overlaid position bytes (m.contents s.device j) j)
        s.mutation_disabled position n
        (write dev s.device (seek 0 (pos position)).1 bytes (pos (length bytes)))
        (λ k e.
          subst
            (λ p.
              m.contents (write dev s.device p bytes (pos (length bytes))).2 j
              ≡ overlaid position bytes (m.contents s.device j) j)
            (sym (seek_at dev m v position))
            (subst
              (λ b.
                m.contents (write dev s.device position bytes (pos (length bytes))).2 j
                ≡ overlaid position b (m.contents s.device j) j)
              (take_all (length bytes) bytes (omega arith))
              ((write-Written dev m s.device position (length bytes) bytes fits (omega arith)
                  low).stored
                (let e' =
                    ap (λ p. (write dev s.device p bytes (pos (length bytes))).0)
                      (sym (seek_at dev m v position))
                    ∙ e in
                  e' ∙ ap ok (write_zero dev s.device position (length bytes) k bytes e'))
                j)))
        h

  entry_start-end :
      (copy cluster : ℕ) → copy < 2 → cluster < 0x10000 → entry_start v copy cluster + 2 ≤ int_max
  entry_start-end copy cluster few low =
      let one = mul-le-mul_right {m = copy} {n = 1} v.sectors_per_fat (omega arith) in omega arith

  -- The places of one cluster are zero, and nothing else has changed.
  set_entry_zero :
      (s : Store D) (copy cluster n : ℕ)
      → copy < 2
      → cluster < 0x10000
      → (fat16_set_entry dev v s copy cluster 0).0 ≡ ok n
      → (j : ℕ)
      → m.contents (fat16_set_entry dev v s copy cluster 0).1.device j ≡ (
          if leb (entry_start v copy cluster) j && ltb j (entry_start v copy cluster + 2)
          then 0
          else m.contents s.device j)
  unfolding fat16_set_entry
  set_entry_zero s copy cluster n few low h j =
      write_at-stored s (entry_start v copy cluster) n (0 ∷ 0 ∷ [])
        (entry_start-end copy cluster few low) (λ k. let e = two_zeros k in omega arith) h j
      ∙ ap
          (λ c.
            if leb (entry_start v copy cluster) j && ltb j (entry_start v copy cluster + 2)
            then c
            else m.contents s.device j)
          (two_zeros (j - entry_start v copy cluster))

  abbrev IsSmall : List ℕ → Type 0
  IsSmall chain = (i : ℕ) → i < length chain → get_or chain i 0 < 0x10000

  -- A cluster, and the rest of the loop behind it.
  cleared_on :
      (copy n cluster : ℕ) (chain : List ℕ) (s : Store D)
      → copy < 2
      → IsSmall (cluster ∷ chain)
      → ((s' : Store D)
          → copy < 2
          → IsSmall chain
          → (clear_entries dev v s' copy chain).0 ≡ ok n
          → (j : ℕ)
          → m.contents (clear_entries dev v s' copy chain).1.device j
            ≡ (if in_entries v copy chain j then 0 else m.contents s'.device j))
      → (got : Result ℕ) → (fat16_set_entry dev v s copy cluster 0).0 ≡ got
      → (clear_entries dev v s copy (cluster ∷ chain)).0 ≡ ok n
      → (j : ℕ)
      → m.contents (clear_entries dev v s copy (cluster ∷ chain)).1.device j
        ≡ (if in_entries v copy (cluster ∷ chain) j then 0 else m.contents s.device j)
  unfolding clear_entries in_entries
  cleared_on copy n cluster chain s few low later (err e) got h j =
      let a : (clear_entries dev v s copy (cluster ∷ chain)).0 ≡ err e =
        rw (clear_entries, got) refl in
      absurd (let b = sym a ∙ h in cc)
  cleared_on copy n cluster chain s few low later (ok k) got h j =
      let s' = (fat16_set_entry dev v s copy cluster 0).1 in
      let a : clear_entries dev v s copy (cluster ∷ chain) ≡ clear_entries dev v s' copy chain =
        rw (clear_entries, got) refl in
      let first = set_entry_zero s copy cluster k few (low 0 (omega arith)) got j in
      let rest = later s' few (λ i l. low (suc i) (omega arith)) (ap (λ r. r.0) (sym a) ∙ h) j in
      ap (λ r. m.contents r.1.device j) a ∙ rest ∙ both_zero _ (in_entries v copy chain j) _ _ first

  clear_entries-stored :
      (copy n : ℕ) (chain : List ℕ) (s : Store D)
      → copy < 2
      → IsSmall chain
      → (clear_entries dev v s copy chain).0 ≡ ok n
      → (j : ℕ)
      → m.contents (clear_entries dev v s copy chain).1.device j
        ≡ (if in_entries v copy chain j then 0 else m.contents s.device j)
  unfolding clear_entries in_entries
  clear_entries-stored copy n [] s few low h j = refl
  clear_entries-stored copy n (cluster ∷ chain) s few low h j =
      cleared_on copy n cluster chain s few low (clear_entries-stored copy n chain)
        (fat16_set_entry dev v s copy cluster 0).0 refl h j

  clear_copy-stored :
      (copy n : ℕ) (chain : List ℕ) (s : Store D)
      → copy < 2
      → IsSmall chain
      → (got : Result ℕ) → (clear_entries dev v s copy chain).0 ≡ got
      → (clear_copy dev v s copy chain).0 ≡ ok n
      → (j : ℕ)
      → m.contents (clear_copy dev v s copy chain).1.device j
        ≡ (if in_entries v copy chain j then 0 else m.contents s.device j)
  unfolding clear_copy fat16_flush
  clear_copy-stored copy n chain s few low (err e) got h j =
      let a : (clear_copy dev v s copy chain).0 ≡ err e = rw (clear_copy, got) refl in
      absurd (let b = sym a ∙ h in cc)
  clear_copy-stored copy n chain s few low (ok k) got h j =
      let s' = (clear_entries dev v s copy chain).1 in
      let a : clear_copy dev v s copy chain ≡ fat16_flush dev v s' = rw (clear_copy, got) refl in
      ap (λ r. m.contents r.1.device j) a
      ∙ ap (λ d. m.contents d j) (from_flushed s'.mutation_disabled n (dev.flush s'.device))
      ∙ m.flush_keeps s'.device j
      ∙ clear_entries-stored copy k chain s few low got j

  released :
      (n cluster : ℕ) (chain : List ℕ) (s : Store D)
      → IsSmall (cluster ∷ chain)
      → (got : Result ℕ) → (clear_copy dev v s 0 (cluster ∷ chain)).0 ≡ got
      → (release_chain dev v s (cluster ∷ chain)).0 ≡ ok n
      → (j : ℕ)
      → m.contents (release_chain dev v s (cluster ∷ chain)).1.device j ≡ (
          if in_entries v 0 (cluster ∷ chain) j || in_entries v 1 (cluster ∷ chain) j
          then 0
          else m.contents s.device j)
  unfolding release_chain
  released n cluster chain s low (err e) got h j =
      let a : (release_chain dev v s (cluster ∷ chain)).0 ≡ err e = rw (release_chain, got) refl in
      absurd (let b = sym a ∙ h in cc)
  released n cluster chain s low (ok k) got h j =
      let s' = (clear_copy dev v s 0 (cluster ∷ chain)).1 in
      let a : release_chain dev v s (cluster ∷ chain) ≡ clear_copy dev v s' 1 (cluster ∷ chain) =
        rw (release_chain, got) refl in
      let first = clear_copy-stored 0 k (cluster ∷ chain) s (omega arith) low _ refl got j in
      let second =
        clear_copy-stored 1 n (cluster ∷ chain) s' (omega arith) low _ refl
          (ap (λ r. r.0) (sym a) ∙ h) j in
      ap (λ r. m.contents r.1.device j) a ∙ second ∙ both_zero _ _ _ _ first

  -- Of a volume with 16-bit numbers of sectors and clusters: if the release of a chain succeeds, the
  -- entries of its clusters are zero in both tables, and every other byte of the disk is as it was.
  pub release_chain_lem :
      (n : ℕ) (chain : List ℕ) (s : Store D)
      → IsSmall chain
      → (release_chain dev v s chain).0 ≡ ok n
      → (j : ℕ)
      → m.contents (release_chain dev v s chain).1.device j
        ≡ (if in_entries v 0 chain j || in_entries v 1 chain j then 0 else m.contents s.device j)
  unfolding release_chain in_entries
  release_chain_lem n [] s low h j = refl
  release_chain_lem n (cluster ∷ chain) s low h j = released n cluster chain s low _ refl h j
