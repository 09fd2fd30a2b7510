-- ===== src/Heap/Layout.antt =====
-- The invariant of the block table: its bytes are the five that the allocator writes, and a block
-- is flagged as having a successor exactly where the next one continues a run.
use rorth_ox.Prelude.{
  ℕ, zero, suc, ◌+◌, ◌-◌, ◌≤◌, ◌<◌, ◌≡◌, ◌∙◌, ap, sym, Bool, true, false, not, ◌||◌, ◌&&◌, bit_and,
  List, arith, ltb, leb, ◌==◌, if◌then◌else◌, Bool-cases, lt_or_le, eq_or_ne, ◌⊎◌, inl, inr, length,
  get_or, get_or_beyond,
}
use rorth_ox.Heap.{has_next, is_first, entry_type, entry_taken, entry_free, first_entry}
use rorth_ox.Heap.Search.{Window}
use rorth_ox.Heap.Mark.{marked, Run}

abbrev pub next_of : ℕ → Bool
next_of e = not (bit_and e has_next == 0)

-- Taken, and not the first block of its run.
abbrev pub cont_of : ℕ → Bool
cont_of e = (entry_type e == entry_taken) && (bit_and e is_first == 0)

abbrev pub IsEntry : ℕ → Type 0
IsEntry e = (e ≡ 0x00) ⊎ (e ≡ 0x41) ⊎ (e ≡ 0xc1) ⊎ (e ≡ 0x81) ⊎ (e ≡ 0x01)

pub record Layout (t : List ℕ) : Type 0 where
  pub bytes : (j : ℕ) → IsEntry (get_or t j 0)
  pub links : (j : ℕ) → next_of (get_or t j 0) ≡ cont_of (get_or t (j + 1) 0)
  pub start : cont_of (get_or t 0 0) ≡ false

pub free_entry : (e : ℕ) → IsEntry e → entry_type e ≡ entry_free → e ≡ 0
free_entry e b h = ground arith

pub Window-zero :
    (t : List ℕ) (n s j : ℕ) → Layout t → Window t n s → s ≤ j → j < s + n → get_or t j 0 ≡ 0
Window-zero t n s j v w p q = free_entry (get_or t j 0) (v.bytes j) (w j p q).unused

module _ (t t' : List ℕ) (n s : ℕ) (pos : 0 < n) (v : Layout t) (w : Window t n s)
    (after : (j : ℕ) → get_or t' j 0 ≡ marked s (s + n) (first_entry n) (get_or t j 0) j) where
  mark-bytes : (j : ℕ) → IsEntry (get_or t' j 0)
  mark-bytes j = rw (after j) (ground (arith, v.bytes j))

  mark-links : (j : ℕ) → next_of (get_or t' j 0) ≡ cont_of (get_or t' (j + 1) 0)
  mark-links j =
      rw (after j, after (j + 1))
        (ground (arith, v.links j, Window-zero t n s j v w, Window-zero t n s (j + 1) v w))

  mark-start : cont_of (get_or t' 0 0) ≡ false
  mark-start = rw (after 0) (ground (arith, v.start))

  pub Layout-mark : Layout t'
  Layout-mark = record { bytes = mark-bytes; links = mark-links; start = mark-start }

module _ (t t' : List ℕ) (n s : ℕ) (v : Layout t) (r : Run t s n)
    (first : cont_of (get_or t s 0) ≡ false)
    (after : (j : ℕ) → get_or t' j 0 ≡ (if ltb j s || leb (s + n) j then get_or t j 0 else 0)) where
  zero-bytes : (j : ℕ) → IsEntry (get_or t' j 0)
  zero-bytes j = rw (after j) (ground (arith, v.bytes j))

  last_of_run : next_of (get_or t (s + n - 1) 0) ≡ false
  last_of_run =
      let p : get_or t (s + n - 1) 0 ≡ get_or t (s + (n - 1)) 0 =
        ap (λ m. get_or t m 0) (omega (arith, r.some_block)) in
      rw (p, r.flags (n - 1) (omega (arith, r.some_block))) (ground (arith, r.some_block))

  zero-links : (j : ℕ) → next_of (get_or t' j 0) ≡ cont_of (get_or t' (j + 1) 0)
  zero-links j = elim (eq_or_ne (j + 1) s) [
    | inl e ↦
        let at : get_or t (j + 1) 0 ≡ get_or t s 0 = ap (λ m. get_or t m 0) e in
        let at' : get_or t' (j + 1) 0 ≡ (if ltb s s || leb (s + n) s then get_or t s 0 else 0) =
          ap (λ m. get_or t' m 0) e ∙ after s in
        rw (after j, at') (ground (arith, v.links j, first, at, r.some_block))
    | inr ne ↦ elim (eq_or_ne (j + 1) (s + n)) [
      | inl e ↦
          let at : get_or t (s + n - 1) 0 ≡ get_or t j 0 =
            ap (λ m. get_or t m 0) (omega (arith, r.some_block)) in
          let quiet : next_of (get_or t j 0) ≡ false = ap next_of (sym at) ∙ last_of_run in
          rw (after j, after (j + 1)) (ground (arith, v.links j, quiet, r.some_block))
      | inr ne' ↦ rw (after j, after (j + 1)) (ground (arith, v.links j, ne, ne'))
    ]
  ]

  zero-start : cont_of (get_or t' 0 0) ≡ false
  zero-start = rw (after 0) (ground (arith, v.start))

  pub Layout-zero : Layout t'
  Layout-zero = record { bytes = zero-bytes; links = zero-links; start = zero-start }

next_inside : (i : ℕ) (t : List ℕ) → cont_of (get_or t (i + 1) 0) ≡ true → i + 1 < length t
next_inside i t h = elim (lt_or_le (i + 1) (length t)) [
  | inl p ↦ p
  | inr p ↦
      let none : cont_of (get_or t (i + 1) 0) ≡ false = ap cont_of (get_or_beyond t (i + 1) 0 p) in
      absurd (cc)
]

Run-cons :
    (i n : ℕ) (t : List ℕ) → next_of (get_or t i 0) ≡ true → Run t (i + 1) n → Run t i (suc n)
Run-cons i n t more r = record {
  some_block = omega arith;
  inside = omega (arith, r.inside);
  flags = flags;
}
  where
    flags : (k : ℕ) → k < suc n → (bit_and (get_or t (i + k) 0) has_next == 0) ≡ (suc k == suc n)
    flags zero p =
        let at : i + 0 ≡ i = omega arith in
        ap (λ m. bit_and (get_or t m 0) has_next == 0) at ∙ ground (arith, more, r.some_block)
    flags (suc k) p =
        let at : i + suc k ≡ i + 1 + k = omega arith in
        ap (λ m. bit_and (get_or t m 0) has_next == 0) at ∙ r.flags k (omega arith) ∙ ground arith

-- A flagged block has a block behind it, so a run ends inside the table.
pub Run-exists :
    (left i : ℕ) (t : List ℕ)
    → Layout t
    → i < length t
    → i + left ≡ length t
    → (n : ℕ) × Run t i n × (n ≤ left)
Run-exists zero i t v h e = absurd (omega arith)
Run-exists (suc left) i t v h e = elim (Bool-cases (next_of (get_or t i 0))) [
  | inl more ↦
      let linked : cont_of (get_or t (i + 1) 0) ≡ true = sym (v.links i) ∙ more in
      let (n, r, fits) = Run-exists left (i + 1) t v (next_inside i t linked) (omega arith) in
      (suc n, Run-cons i n t more r, omega arith)
  | inr last ↦ (
    1,
    record {
      some_block = omega arith;
      inside = omega arith;
      flags = λ k p.
          let at : i + k ≡ i = omega arith in
          ap (λ m. bit_and (get_or t m 0) has_next == 0) at ∙ ground (arith, last);
    },
    omega arith,
  )
]
