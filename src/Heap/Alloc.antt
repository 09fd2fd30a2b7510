-- ===== src/Heap/Alloc.antt =====
-- heap_malloc over the invariant: what it hands out, when it refuses, and what it leaves alone.
use rorth_ox.Prelude.{
  ℕ, ◌+◌, ◌-◌, ◌*◌, ◌/◌, ◌%◌, ◌^◌, ◌≤◌, ◌<◌, ◌≡◌, refl, Option, none, some, List, arith, lt_or_le,
  eq_or_ne, ◌≢◌, ◌⊎◌, inl, inr, length, get_or,
}
use rorth_ox.Heap.{
  Heap, block_size, first_entry, align_value_to_upper, get_start_block, block_to_address,
  mark_blocks_taken, malloc_blocks, malloc,
}
use rorth_ox.Heap.Search.{Window, NoneBefore, FirstFit, get_start_block-FirstFit}
use rorth_ox.Heap.Mark.{marked, get_or-mark_taken_from, length-mark_taken_from}
use rorth_ox.Heap.Layout.{Layout, Layout-mark}

pub record WellFormed (h : Heap) : Type 0 where
  pub layout : Layout h.entries
  pub sized : h.total ≡ length h.entries
  pub aligned : h.saddr % block_size ≡ 0
  pub placed : 0 < h.saddr
  pub fits : h.saddr + h.total * block_size ≤ 2 ^ 32

-- The blocks that `size` bytes need.
abbrev pub blocks_for : ℕ → ℕ
blocks_for size = (size + 4095) / block_size

-- `h'` is `h` with the `n` blocks from `s` on made one run, and `p` is their address.
pub record Allocated (h h' : Heap) (n s p : ℕ) : Type 0 where
  pub address : p ≡ h.saddr + s * block_size
  pub not_null : 0 < p
  pub below_end : p + n * block_size ≤ h.saddr + h.total * block_size
  pub were_free : Window h.entries n s
  pub first : NoneBefore h.entries n s
  pub entries_after :
      (j : ℕ) → get_or h'.entries j 0 ≡ marked s (s + n) (first_entry n) (get_or h.entries j 0) j
  pub same_length : length h'.entries ≡ length h.entries
  pub same_total : h'.total ≡ h.total
  pub same_saddr : h'.saddr ≡ h.saddr

-- Too large a request, none at all, or no run of free blocks for it.
abbrev pub Refused : Heap → ℕ → Type 0
Refused h size =
    (size ≡ 0) ⊎ (2 ^ 32 - block_size < size) ⊎ ((s : ℕ) → ¬ Window h.entries (blocks_for size) s)

abbrev pub MallocOutcome : Heap → ℕ → ℕ × Heap → Type 0
MallocOutcome h size (p, h') =
    ((p ≡ 0) × (h' ≡ h) × Refused h size)
    ⊎ ((s : ℕ) × (0 < size) × (size ≤ 2 ^ 32 - block_size) × Allocated h h' (blocks_for size) s p)

align_lem :
    (size : ℕ)
    → size ≤ 2 ^ 32 - block_size
    → align_value_to_upper size / block_size ≡ blocks_for size
unfolding align_value_to_upper
align_lem size h = ground arith

Window-le-length : (t : List ℕ) (n s : ℕ) → 0 < n → Window t n s → s + n ≤ length t
Window-le-length t n s pos w =
    let last = (w (s + n - 1) (omega arith) (omega arith)).inside in omega (arith, last)

Allocated-mark :
    (h : Heap) (n s : ℕ)
    → WellFormed h
    → 0 < n
    → Window h.entries n s
    → NoneBefore h.entries n s
    → Allocated h (mark_blocks_taken h s n) n s (block_to_address h s)
unfolding mark_blocks_taken block_to_address
Allocated-mark h n s v pos w first =
    let inside : s + n ≤ length h.entries = Window-le-length h.entries n s pos w in
    record {
      address = omega (arith, v.sized, v.fits);
      not_null = omega (arith, v.sized, v.fits, v.placed);
      below_end = omega (arith, v.sized, v.fits, inside);
      were_free = w;
      first = first;
      entries_after = λ j.
          get_or-mark_taken_from n s (s + n - 1) (first_entry n) h.entries j (omega arith) inside;
      same_length = length-mark_taken_from n s (s + n - 1) (first_entry n) h.entries;
      same_total = refl;
      same_saddr = refl;
    }

abbrev BlocksOutcome : Heap → ℕ → Type 0
BlocksOutcome h n =
    (((malloc_blocks h n).0 ≡ 0) × ((malloc_blocks h n).1 ≡ h) × ((s : ℕ) → ¬ Window h.entries n s))
    ⊎ ((s : ℕ) × Allocated h (malloc_blocks h n).1 n s (malloc_blocks h n).0)

malloc_blocks-Outcome :
    (h : Heap) (n : ℕ)
    → WellFormed h
    → 0 < n
    → (found : Option ℕ) → get_start_block h n ≡ found
    → FirstFit h.entries n found
    → BlocksOutcome h n
unfolding malloc_blocks
malloc_blocks-Outcome h n v pos none e f = rw (e, malloc_blocks) (inl (refl, refl, f))
malloc_blocks-Outcome h n v pos (some s) e f =
    rw (e, malloc_blocks) (inr (s, Allocated-mark h n s v pos f.0 f.1))

malloc-refuses_large : (h : Heap) (size : ℕ) → 2 ^ 32 - block_size < size → malloc h size ≡ (0, h)
unfolding malloc
malloc-refuses_large h size p = ground arith

malloc-refuses_zero : (h : Heap) → malloc h 0 ≡ (0, h)
unfolding malloc
malloc-refuses_zero h = refl

malloc-blocks :
    (h : Heap) (size : ℕ)
    → size ≤ 2 ^ 32 - block_size
    → size ≢ 0
    → malloc h size ≡ malloc_blocks h (blocks_for size)
unfolding malloc
malloc-blocks h size p ne = ground (arith, align_lem size)

-- heap_malloc returns the address of the first run of free blocks that holds `size` bytes, inside
-- the pool, and marks exactly that run; it returns NULL and changes nothing exactly when the size
-- is 0, too large to round up, or no run of free blocks is long enough.
pub malloc-Outcome : (h : Heap) (size : ℕ) → WellFormed h → MallocOutcome h size (malloc h size)
malloc-Outcome h size v = elim (lt_or_le (2 ^ 32 - block_size) size) [
  | inl large ↦ rw (malloc-refuses_large h size large) (inl (refl, refl, inr (inl large)))
  | inr fits ↦ elim (eq_or_ne size 0) [
    | inl none_asked ↦ rw none_asked (rw (malloc-refuses_zero h) (inl (refl, refl, inl refl)))
    | inr asked ↦ rw (malloc-blocks h size fits asked) (elim (outcome (omega arith)) [
      | inl (null, same, full) ↦ inl (null, same, inr (inr full))
      | inr (s, a) ↦ inr (s, omega arith, fits, a)
    ])
  ]
]
  where
    outcome : 0 < blocks_for size → BlocksOutcome h (blocks_for size)
    outcome pos =
        malloc_blocks-Outcome h (blocks_for size) v pos (get_start_block h (blocks_for size)) refl
          (get_start_block-FirstFit h (blocks_for size) pos v.sized)

pub Allocated-WellFormed :
    {h h' : Heap} {n s p : ℕ} → 0 < n → WellFormed h → Allocated h h' n s p → WellFormed h'
Allocated-WellFormed {h} {h'} {n} {s} pos v a = record {
  layout = Layout-mark h.entries h'.entries n s pos v.layout a.were_free a.entries_after;
  sized = omega (arith, a.same_total, a.same_length, v.sized);
  aligned = rw a.same_saddr v.aligned;
  placed = rw a.same_saddr v.placed;
  fits = omega (arith, a.same_total, a.same_saddr, v.fits);
}

-- heap_malloc keeps the table well formed, whether or not it finds room.
pub malloc-WellFormed : (h : Heap) (size : ℕ) → WellFormed h → WellFormed (malloc h size).1
malloc-WellFormed h size v = elim (malloc-Outcome h size v) [
  | inl (null, same, why) ↦ rw same v
  | inr (s, pos, small, a) ↦ Allocated-WellFormed (omega arith) v a
]
