-- ===== src/Heap/Mark.antt =====
-- What heap_mark_blocks_taken and heap_mark_blocks_free leave in the table, entry by entry.
use rorth_ox.Prelude.{
  ℕ, zero, suc, ◌+◌, ◌≤◌, ◌<◌, ◌≡◌, refl, ◌∙◌, ap, true, false, ◌||◌, bit_and, List, arith, ltb,
  leb, ◌==◌, if◌then◌else◌, eq_or_ne, inl, inr, length, get_or, set, length-set, get_or-set_self,
  get_or-set_ne,
}
use rorth_ox.Heap.{has_next, mark_taken_from, mark_free_from, next_entry}

-- Entry `j` after a run from `i` up to (not with) `stop` was marked over a table that held `old`.
abbrev pub marked : ℕ → ℕ → ℕ → ℕ → ℕ → ℕ
marked i stop entry old j =
    if ltb j i || leb stop j
    then old
    else if j == i
    then entry
    else if j + 1 == stop
    then 0x01
    else 0x81

pub length-mark_taken_from :
    (left i end_block entry : ℕ) (es : List ℕ)
    → length (mark_taken_from left i end_block entry es) ≡ length es
unfolding mark_taken_from
length-mark_taken_from zero i end_block entry es = refl
length-mark_taken_from (suc left) i end_block entry es =
    length-mark_taken_from left (i + 1) end_block (next_entry i end_block) (set es i entry)
    ∙ length-set es i entry

pub get_or-mark_taken_from :
    (left i end_block entry : ℕ) (es : List ℕ) (j : ℕ)
    → i + left ≡ end_block + 1
    → i + left ≤ length es
    → get_or (mark_taken_from left i end_block entry es) j 0
      ≡ marked i (i + left) entry (get_or es j 0) j
unfolding mark_taken_from
get_or-mark_taken_from zero i end_block entry es j e h = ground arith
get_or-mark_taken_from (suc left) i end_block entry es j e h =
    get_or-mark_taken_from left (i + 1) end_block (next_entry i end_block) (set es i entry) j
      (omega arith) (omega (arith, length-set es i entry))
    ∙ step
  where
    step :
        marked (i + 1) (i + 1 + left) (next_entry i end_block) (get_or (set es i entry) j 0) j
        ≡ marked i (i + suc left) entry (get_or es j 0) j
    step = elim (eq_or_ne i j) [
      | inl same ↦ ground (arith, get_or-set_self es i entry 0)
      | inr other ↦ ground (arith, get_or-set_ne es i j entry 0 other)
    ]

-- `n` entries from `i` on made free.
abbrev pub zero_range : ℕ → ℕ → List ℕ → List ℕ
zero_range zero i es = es
zero_range (suc n) i es = zero_range n (i + 1) (set es i 0)

pub length-zero_range : (n i : ℕ) (es : List ℕ) → length (zero_range n i es) ≡ length es
length-zero_range zero i es = refl
length-zero_range (suc n) i es = length-zero_range n (i + 1) (set es i 0) ∙ length-set es i 0

pub get_or-zero_range :
    (n i : ℕ) (es : List ℕ) (j : ℕ)
    → i + n ≤ length es
    → get_or (zero_range n i es) j 0 ≡ (if ltb j i || leb (i + n) j then get_or es j 0 else 0)
get_or-zero_range zero i es j h = ground arith
get_or-zero_range (suc n) i es j h =
    get_or-zero_range n (i + 1) (set es i 0) j (omega (arith, length-set es i 0))
    ∙ elim (eq_or_ne i j) [
      | inl same ↦ ground (arith, get_or-set_self es i 0 0)
      | inr other ↦ ground (arith, get_or-set_ne es i j 0 0 other)
    ]

-- `n` entries from `i` on, each but the last flagged as having a successor.
pub record Run (es : List ℕ) (i n : ℕ) : Type 0 where
  pub some_block : 0 < n
  pub inside : i + n ≤ length es
  pub flags : (k : ℕ) → k < n → (bit_and (get_or es (i + k) 0) has_next == 0) ≡ (suc k == n)

Run-next : (es : List ℕ) (i n : ℕ) → Run es i (suc (suc n)) → Run (set es i 0) (i + 1) (suc n)
Run-next es i n r = record {
  some_block = omega arith;
  inside = omega (arith, length-set es i 0, r.inside);
  flags = λ k h.
      let same : get_or (set es i 0) (i + 1 + k) 0 ≡ get_or es (i + suc k) 0 =
        get_or-set_ne es i (i + 1 + k) 0 0 (omega arith) ∙ ap (λ m. get_or es m 0) (omega arith) in
      rw same (r.flags (suc k) (omega arith) ∙ ground arith);
}

-- The freeing loop, started at a run, makes the run free and nothing else.
pub mark_free_from-Run :
    (n left i : ℕ) (es : List ℕ)
    → Run es i n
    → n ≤ left
    → mark_free_from left i es ≡ zero_range n i es
unfolding mark_free_from
mark_free_from-Run zero left i es r h = absurd (omega (arith, r.some_block))
mark_free_from-Run (suc n) zero i es r h = absurd (omega arith)
mark_free_from-Run (suc zero) (suc left) i es r h =
    let last : (bit_and (get_or es i 0) has_next == 0) ≡ true =
      ap (λ m. bit_and (get_or es m 0) has_next == 0) (omega arith) ∙ r.flags 0 (omega arith) in
    rw last refl
mark_free_from-Run (suc (suc n)) (suc left) i es r h =
    let more : (bit_and (get_or es i 0) has_next == 0) ≡ false =
      ap (λ m. bit_and (get_or es m 0) has_next == 0) (omega arith)
      ∙ r.flags 0 (omega arith)
      ∙ ground arith in
    rw more (mark_free_from-Run (suc n) left (i + 1) (set es i 0) (Run-next es i n r) (omega arith))
