-- ===== src/Memory/Laws.antt =====
-- What the three routines of memory.c do, byte by byte.
use rorth_ox.Prelude.{
  ℕ, zero, suc, ◌+◌, ◌-◌, ◌%◌, ◌^◌, ◌≤◌, ◌<◌, ◌≡◌, ◌↔◌, ◌⊎◌, inl, inr, refl, ◌∙◌, ap, sym, Bool,
  ◌&&◌, ltb, leb, if◌then◌else◌, arith, eq_or_ne,
}
use rorth_ox.Memory.{Mem, store, memset_from, memset, memcpy, memcmp, same}

abbrev pub within : ℕ → ℕ → ℕ → Bool
within p n x = leb p x && ltb x (p + n)

memset_from-eq :
    (left i ptr c : ℕ) (m : Mem) (x : ℕ)
    → memset_from left i ptr c m x ≡ (if within (ptr + i) left x then c % 2 ^ 8 else m x)
unfolding memset_from
memset_from-eq zero i ptr c m x = ground arith
memset_from-eq (suc left) i ptr c m x =
    memset_from-eq left (i + 1) ptr c (store m (ptr + i) (c % 2 ^ 8)) x ∙ ground arith

-- memset writes the low byte of its value to each of the `size` bytes, and to nothing else.
pub memset_lem :
    (m : Mem) (ptr c size x : ℕ)
    → memset m ptr c size x ≡ (if within ptr size x then c % 2 ^ 8 else m x)
unfolding memset
memset_lem m ptr c size x = memset_from-eq size 0 ptr c m x ∙ ground arith

-- memcpy copies upwards: the destination gets the source's bytes if it does not begin inside the
-- source, and nothing else changes.
pub memcpy_lem :
    (len : ℕ) (m : Mem) (dest src x : ℕ)
    → (dest ≤ src) ⊎ (src + len ≤ dest)
    → memcpy m dest src len x ≡ (if within dest len x then m (src + (x - dest)) else m x)
unfolding memcpy
memcpy_lem zero m dest src x apart = ground arith
memcpy_lem (suc len) m dest src x apart =
    memcpy_lem len (store m dest (m src)) (dest + 1) (src + 1) x (omega arith)
    ∙ elim (eq_or_ne x dest) [
      | inl e ↦ let at : src + (x - dest) ≡ src = omega (arith, e) in ground (arith, e, ap m at)
      | inr ne ↦ ground (arith, ne, apart, moved)
    ]
  where
    moved : dest + 1 ≤ x → m (src + 1 + (x - (dest + 1))) ≡ m (src + (x - dest))
    moved h = ap m {y = src + (x - dest)} (omega arith)

abbrev SameBytes : Mem → ℕ → ℕ → ℕ → Type 0
SameBytes m s1 s2 count = (i : ℕ) → i < count → m (s1 + i) ≡ m (s2 + i)

SameBytes-cons :
    (m : Mem) (s1 s2 count : ℕ)
    → m s1 ≡ m s2
    → SameBytes m (s1 + 1) (s2 + 1) count
    → SameBytes m s1 s2 (suc count)
SameBytes-cons m s1 s2 count e rest zero h =
    ap m {y = s1} (omega arith) ∙ e ∙ ap m {x = s2} (omega arith)
SameBytes-cons m s1 s2 count e rest (suc i) h =
    ap m {y = s1 + 1 + i} (omega arith) ∙ rest i (omega arith) ∙ ap m {x = s2 + 1 + i} (omega arith)

SameBytes-head : (m : Mem) (s1 s2 count : ℕ) → SameBytes m s1 s2 (suc count) → m s1 ≡ m s2
SameBytes-head m s1 s2 count all =
    ap m {x = s1} (omega arith) ∙ all 0 (omega arith) ∙ ap m {y = s2} (omega arith)

SameBytes-tail :
    (m : Mem) (s1 s2 count : ℕ)
    → SameBytes m s1 s2 (suc count)
    → SameBytes m (s1 + 1) (s2 + 1) count
SameBytes-tail m s1 s2 count all i h =
    ap m {y = s1 + suc i} (omega arith)
    ∙ all (suc i) (omega arith)
    ∙ ap m {x = s2 + suc i} (omega arith)

memcmp-head : (m : Mem) (s1 s2 count : ℕ) → memcmp m s1 s2 (suc count) ≡ same → m s1 ≡ m s2
unfolding memcmp
memcmp-head m s1 s2 count e = ground arith

memcmp-tail :
    (m : Mem) (s1 s2 count : ℕ)
    → m s1 ≡ m s2
    → memcmp m s1 s2 (suc count) ≡ memcmp m (s1 + 1) (s2 + 1) count
unfolding memcmp
memcmp-tail m s1 s2 count e = ground arith

-- memcmp answers 0 exactly when the two ranges hold the same bytes.
pub memcmp-same_iff :
    (count : ℕ) (m : Mem) (s1 s2 : ℕ)
    → (memcmp m s1 s2 count ≡ same) ↔ ((i : ℕ) → i < count → m (s1 + i) ≡ m (s2 + i))
unfolding memcmp
memcmp-same_iff zero m s1 s2 = (λ e i h. absurd (omega arith), λ all. refl)
memcmp-same_iff (suc count) m s1 s2 = (
  λ e.
      let head = memcmp-head m s1 s2 count e in
      SameBytes-cons m s1 s2 count head
        ((memcmp-same_iff count m (s1 + 1) (s2 + 1)).0 (sym (memcmp-tail m s1 s2 count head) ∙ e)),
  λ all.
      memcmp-tail m s1 s2 count (SameBytes-head m s1 s2 count all)
      ∙ (memcmp-same_iff count m (s1 + 1) (s2 + 1)).1 (SameBytes-tail m s1 s2 count all),
)
