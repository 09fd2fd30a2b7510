-- ===== src/Heap/Release.antt =====
-- heap_free: which pointers it accepts, and what it gives back.
use rorth_ox.Prelude.{
  ℕ, ◌+◌, ◌-◌, ◌*◌, ◌/◌, ◌%◌, ◌≤◌, ◌<◌, ◌≡◌, refl, ◌∙◌, ap, sym, subst, true, false, not, ◌||◌,
  arith, bit_and, ltb, leb, ◌==◌, if◌then◌else◌, Bool-cases, lt_or_le, eq_or_ne, ◌≢◌, ◌⊎◌, inl, inr,
  length, get_or, get_or_ext,
}
use rorth_ox.Heap.{
  Heap, block_size, with_entries, is_first, entry_type, entry_taken, first_entry,
  validate_alignment, mark_blocks_free, malloc, free,
}
use rorth_ox.Heap.Mark.{Run, zero_range, length-zero_range, get_or-zero_range, mark_free_from-Run}
use rorth_ox.Heap.Layout.{Layout-zero, Window-zero, cont_of, Run-exists}
use rorth_ox.Heap.Alloc.{WellFormed, Allocated, Allocated-WellFormed, malloc-Outcome, blocks_for}

-- `ptr` is the address of the first block of a run, block `s`.
pub record IsStart (h : Heap) (ptr s : ℕ) : Type 0 where
  pub address : ptr ≡ h.saddr + s * block_size
  pub inside : s < h.total
  pub taken : entry_type (get_or h.entries s 0) ≡ entry_taken
  pub first : (bit_and (get_or h.entries s 0) is_first == 0) ≡ false

free-start :
    (h : Heap) (ptr s : ℕ) → WellFormed h → IsStart h ptr s → free h ptr ≡ mark_blocks_free h s
unfolding free validate_alignment
free-start h ptr s v i =
    let block : (ptr - h.saddr) / block_size ≡ s = omega (arith, i.address) in
    let whole : ptr % block_size ≡ 0 = omega (arith, i.address, v.aligned) in
    rw block (ground (arith, whole, i.taken, i.first, i.address, i.inside, v.placed))

IsStart-block : (h : Heap) (ptr s : ℕ) → IsStart h ptr s → s ≡ (ptr - h.saddr) / block_size
IsStart-block h ptr s i = omega (arith, i.address)

abbrev Rejected : Heap → ℕ → Type 0
Rejected h ptr = (free h ptr ≡ h) × ((s : ℕ) → ¬ IsStart h ptr s)

-- The two tests on the table entry, for a pointer into the pool.
free_entry_cases :
    (h : Heap) (ptr s : ℕ)
    → WellFormed h
    → ptr ≡ h.saddr + s * block_size
    → s < h.total
    → Rejected h ptr ⊎ IsStart h ptr s
free_entry_cases h ptr s v at inside =
    elim (Bool-cases (entry_type (get_or h.entries s 0) == entry_taken)) [
      | inl taken ↦ elim (Bool-cases (bit_and (get_or h.entries s 0) is_first == 0)) [
        | inl later ↦ inl (skips (ground (arith, later)), refuse (λ i. cc))
        | inr first ↦
            inr (record {
              address = at;
              inside = inside;
              taken = ground (arith, taken);
              first = first;
            })
      ]
      | inr other ↦
          inl (skips (ground (arith, other)), refuse (λ i. ground (arith, other, i.taken)))
    ]
  where
    refuse : ¬ IsStart h ptr s → (k : ℕ) → ¬ IsStart h ptr k
    refuse no_start k i =
        let same : k ≡ s = omega (arith, i.address) in no_start (subst (IsStart h ptr) same i)

    skips :
        (not (entry_type (get_or h.entries s 0) == entry_taken)
            || bit_and (get_or h.entries s 0) is_first == 0)
          ≡ true
        → free h ptr ≡ h
    skips e =
        let block : (ptr - h.saddr) / block_size ≡ s = omega (arith, at) in
        unfold free in rw (block, e) (ground arith)

free_cases : (h : Heap) (ptr : ℕ) → WellFormed h → Rejected h ptr ⊎ ((s : ℕ) × IsStart h ptr s)
free_cases h ptr v = elim (eq_or_ne (ptr % block_size) 0) [
  | inl whole ↦ elim (lt_or_le ptr h.saddr) [
    | inl below ↦ inl (unfold free in ground arith, λ s i. omega (arith, i.address))
    | inr above ↦ elim (lt_or_le ((ptr - h.saddr) / block_size) h.total) [
      | inl inside ↦
          elim (free_entry_cases h ptr ((ptr - h.saddr) / block_size) v (omega (arith, v.aligned))
            inside) [ inl r ↦ inl r | inr i ↦ inr ((ptr - h.saddr) / block_size, i) ]
      | inr beyond ↦ inl (unfold free in ground arith, λ s i. omega (arith, i.address, i.inside))
    ]
  ]
  | inr broken ↦
      inl
        (unfold free validate_alignment in ground arith, λ s i. omega (arith, i.address, v.aligned))
]

-- `h'` is `h` with the run of `n` blocks at `s` free again.
pub record Freed (h h' : Heap) (s n : ℕ) : Type 0 where
  pub run : Run h.entries s n
  pub entries_after :
      (j : ℕ)
      → get_or h'.entries j 0 ≡ (if ltb j s || leb (s + n) j then get_or h.entries j 0 else 0)
  pub same_length : length h'.entries ≡ length h.entries
  pub same_total : h'.total ≡ h.total
  pub same_saddr : h'.saddr ≡ h.saddr

abbrev pub FreeOutcome : Heap → ℕ → Heap → Type 0
FreeOutcome h ptr h' =
    ((h' ≡ h) × ((s : ℕ) → ¬ IsStart h ptr s))
    ⊎ ((s : ℕ) × (n : ℕ) × IsStart h ptr s × Freed h h' s n)

mark_blocks_free-Run :
    (h : Heap) (s n : ℕ)
    → Run h.entries s n
    → n ≤ h.total - s
    → mark_blocks_free h s ≡ with_entries h (zero_range n s h.entries)
unfolding mark_blocks_free
mark_blocks_free-Run h s n r fits =
    ap (with_entries h) (mark_free_from-Run n (h.total - s) s h.entries r fits)

zero_range-Freed :
    (h : Heap) (s n : ℕ)
    → Run h.entries s n
    → Freed h (with_entries h (zero_range n s h.entries)) s n
zero_range-Freed h s n r = record {
  run = r;
  entries_after = λ j. get_or-zero_range n s h.entries j r.inside;
  same_length = length-zero_range n s h.entries;
  same_total = refl;
  same_saddr = refl;
}

free-Freed :
    (h : Heap) (ptr s : ℕ) → WellFormed h → IsStart h ptr s → (n : ℕ) × Freed h (free h ptr) s n
free-Freed h ptr s v i =
    let (n, r, fits) =
      Run-exists (h.total - s) s h.entries v.layout (omega (arith, i.inside, v.sized))
        (omega (arith, i.inside, v.sized)) in
    (n, rw (free-start h ptr s v i, mark_blocks_free-Run h s n r fits) (zero_range-Freed h s n r))

-- heap_free gives back exactly the run of blocks that starts at the pointer; a pointer to anything
-- else (NULL, unaligned, outside the pool, a free block or the inside of a run) changes nothing.
pub free-Outcome : (h : Heap) (ptr : ℕ) → WellFormed h → FreeOutcome h ptr (free h ptr)
free-Outcome h ptr v = elim (free_cases h ptr v) [
  | inl r ↦ inl r
  | inr (s, i) ↦ let (n, f) = free-Freed h ptr s v i in inr (s, n, i, f)
]

not_continued : (h : Heap) (ptr s : ℕ) → IsStart h ptr s → cont_of (get_or h.entries s 0) ≡ false
not_continued h ptr s i = ground (arith, i.first, i.taken)

Freed-WellFormed :
    {h h' : Heap} {s n : ℕ} (ptr : ℕ)
    → WellFormed h
    → IsStart h ptr s
    → Freed h h' s n
    → WellFormed h'
Freed-WellFormed {h} {h'} {s} {n} ptr v i f = record {
  layout =
      Layout-zero h.entries h'.entries n s v.layout f.run (not_continued h ptr s i) f.entries_after;
  sized = omega (arith, f.same_total, f.same_length, v.sized);
  aligned = rw f.same_saddr v.aligned;
  placed = rw f.same_saddr v.placed;
  fits = omega (arith, f.same_total, f.same_saddr, v.fits);
}

-- heap_free keeps the table well formed, whatever the pointer.
pub free-WellFormed : (h : Heap) (ptr : ℕ) → WellFormed h → WellFormed (free h ptr)
free-WellFormed h ptr v = elim (free-Outcome h ptr v) [
  | inl (same, why) ↦ rw same v
  | inr (s, n, i, f) ↦ Freed-WellFormed ptr v i f
]

-- A second free of the same pointer changes nothing.
pub free_twice : (h : Heap) (ptr : ℕ) → WellFormed h → free (free h ptr) ptr ≡ free h ptr
free_twice h ptr v = elim (free-Outcome h ptr v) [
  | inl (same, why) ↦ ap (λ g. free g ptr) same
  | inr (s, n, i, f) ↦ elim (free-Outcome (free h ptr) ptr (free-WellFormed h ptr v)) [
    | inl (same, why) ↦ same
    | inr (k, m, j, g) ↦
        let same : k ≡ s = omega (arith, j.address, i.address, f.same_saddr) in
        let zero : get_or (free h ptr).entries k 0 ≡ 0 =
          f.entries_after k ∙ ground (arith, same, f.run.some_block) in
        absurd (ground (arith, zero, j.taken))
  ]
]

module _ (h h' : Heap) (n s p : ℕ) (pos : 0 < n) (v : WellFormed h) (a : Allocated h h' n s p) where
  Allocated-IsStart : IsStart h' p s
  Allocated-IsStart =
      let entry : get_or h'.entries s 0 ≡ first_entry n = a.entries_after s ∙ ground (arith, pos) in
      record {
        address = omega (arith, a.address, a.same_saddr);
        inside = omega (arith, a.below_end, a.address, a.same_total, pos);
        taken = rw entry (ground arith);
        first = rw entry (ground arith);
      }

  Allocated-Run : Run h'.entries s n
  Allocated-Run = record {
    some_block = pos;
    inside = omega (arith, a.below_end, a.address, a.same_length, v.sized);
    flags = λ k q. rw (a.entries_after (s + k)) (ground arith);
  }

  restored : (j : ℕ) → get_or (zero_range n s h'.entries) j 0 ≡ get_or h.entries j 0
  restored j =
      get_or-zero_range n s h'.entries j Allocated-Run.inside
      ∙ elim (Bool-cases (ltb j s || leb (s + n) j)) [
        | inl outside ↦ rw (outside, a.entries_after j, outside) refl
        | inr within ↦ rw within (
            sym (
              Window-zero h.entries n s j v.layout a.were_free (ground (arith, within))
                (ground (arith, within))))
      ]

  same_entries : zero_range n s h'.entries ≡ h.entries
  same_entries =
      get_or_ext 0 (zero_range n s h'.entries) h.entries
        (length-zero_range n s h'.entries ∙ a.same_length) restored

  Allocated-free : free h' p ≡ h
  Allocated-free =
      free-start h' p s (Allocated-WellFormed pos v a) Allocated-IsStart
      ∙ mark_blocks_free-Run h' s n Allocated-Run
          (omega (arith, a.same_length, a.same_total, v.sized, Allocated-Run.inside))
      ∙ cc (same_entries, a.same_total, a.same_saddr)

-- Freeing what heap_malloc returned gives back the very heap that it was called on.
pub free-malloc :
    (h : Heap) (size : ℕ)
    → WellFormed h
    → (malloc h size).0 ≢ 0
    → free (malloc h size).1 (malloc h size).0 ≡ h
free-malloc h size v got = elim (malloc-Outcome h size v) [
  | inl (null, same, why) ↦ absurd (got null)
  | inr (s, pos, small, a) ↦
      Allocated-free h (malloc h size).1 (blocks_for size) s (malloc h size).0 (omega arith) v a
]
