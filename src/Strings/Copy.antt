-- ===== src/Strings/Copy.antt =====
-- strcpy, strncpy and strcat: which bytes they write.
use rorth_ox.Prelude.{
  ℕ, zero, suc, ◌+◌, ◌-◌, ◌≤◌, ◌<◌, ◌≡◌, inl, inr, refl, ◌∙◌, ap, List, [], ◌∷◌, ltb, ◌==◌,
  if◌then◌else◌, arith, length, eq_or_ne, lt_or_le, Bool-cases, get_or, set, length-set,
  get_or-set_self, get_or-set_ne,
}
use rorth_ox.Strings.{strlen_from, strlen, strcpy_from, strncpy_from, strncpy, strcat}
use rorth_ox.Strings.Compare.{text}

-- Byte `j` after the text `t` and its NUL were written from index `i` on over `old`.
abbrev pub placed : ℕ → List ℕ → ℕ → ℕ → ℕ
placed i t old j =
    if ltb j i
    then old
    else if ltb j (i + length t)
    then get_or t (j - i) 0
    else if j == i + length t
    then 0
    else old

placed-nil :
    (i : ℕ) (dest : List ℕ) (j : ℕ)
    → i < length dest
    → get_or (set dest i 0) j 0 ≡ placed i [] (get_or dest j 0) j
placed-nil i dest j h = elim (eq_or_ne i j) [
  | inl same ↦ ground (arith, get_or-set_self dest i 0 0)
  | inr other ↦ ground (arith, get_or-set_ne dest i j 0 0 other)
]

placed-cons :
    (i c : ℕ) (t dest : List ℕ) (j : ℕ)
    → i < length dest
    → placed (i + 1) t (get_or (set dest i c) j 0) j ≡ placed i (c ∷ t) (get_or dest j 0) j
placed-cons i c t dest j h = elim (eq_or_ne i j) [
  | inl same ↦
      let at : get_or (c ∷ t) (j - i) 0 ≡ c = ap (λ k. get_or (c ∷ t) k 0) {y = 0} (omega arith) in
      ground (arith, at, get_or-set_self dest i c 0)
  | inr other ↦ elim (lt_or_le j i) [
    | inl below ↦ ground (arith, get_or-set_ne dest i j c 0 other)
    | inr above ↦
        let at : get_or (c ∷ t) (j - i) 0 ≡ get_or t (j - (i + 1)) 0 =
          ap (λ k. get_or (c ∷ t) k 0) {y = suc (j - (i + 1))} (omega arith) in
        ground (arith, at, get_or-set_ne dest i j c 0 other)
  ]
]

length-strncpy_from :
    (left i : ℕ) (dest src : List ℕ) → length (strncpy_from left i dest src) ≡ length dest
unfolding strncpy_from
length-strncpy_from zero i dest src = length-set dest i 0
length-strncpy_from (suc left) i dest [] = length-set dest i 0
length-strncpy_from (suc left) i dest (c ∷ src) = ground (
  arith,
  length-set dest i 0,
  length-set dest i c,
  length-strncpy_from left (i + 1) (set dest i c) src,
)

get_or-strncpy_from :
    (left i : ℕ) (dest src : List ℕ) (j : ℕ)
    → i + length (text left src) < length dest
    → get_or (strncpy_from left i dest src) j 0 ≡ placed i (text left src) (get_or dest j 0) j
unfolding strncpy_from text
get_or-strncpy_from zero i dest src j h = placed-nil i dest j (omega arith)
get_or-strncpy_from (suc left) i dest [] j h = placed-nil i dest j (omega arith)
get_or-strncpy_from (suc left) i dest (c ∷ src) j h = elim (Bool-cases (c == 0)) [
  | inl stop ↦ let room : i < length dest = omega arith in rw stop (placed-nil i dest j room)
  | inr go ↦
      let size : length (text (suc left) (c ∷ src)) ≡ suc (length (text left src)) = rw go refl in
      let room : i < length dest = omega arith in
      rw go (
        get_or-strncpy_from left (i + 1) (set dest i c) src j
          (omega (arith, size, length-set dest i c))
        ∙ placed-cons i c (text left src) dest j room)
]

length-text-le : (n : ℕ) (s : List ℕ) → length (text n s) ≤ n
unfolding text
length-text-le zero s = omega arith
length-text-le (suc n) [] = omega arith
length-text-le (suc n) (c ∷ s) = ground (arith, length-text-le n s)

-- strncpy with a buffer of `count` bytes, at least one, writes the text of the source cut to
-- `count - 1` bytes and a NUL behind it, and no other byte.
pub strncpy_lem :
    (dest src : List ℕ) (count j : ℕ)
    → 0 < count
    → count ≤ length dest
    → get_or (strncpy dest src count) j 0 ≡ placed 0 (text (count - 1) src) (get_or dest j 0) j
unfolding strncpy
strncpy_lem dest src count j pos fits =
    get_or-strncpy_from (count - 1) 0 dest src j (omega (arith, length-text-le (count - 1) src))

strcpy_from-eq :
    (i : ℕ) (dest src : List ℕ) → strcpy_from i dest src ≡ strncpy_from (length src) i dest src
unfolding strcpy_from strncpy_from
strcpy_from-eq i dest [] = refl
strcpy_from-eq i dest (c ∷ src) = ground (arith, strcpy_from-eq (i + 1) (set dest i c) src)

strlen_from-eq : (i : ℕ) (s : List ℕ) → strlen_from i s ≡ i + length (text (length s) s)
unfolding strlen_from text
strlen_from-eq i [] = omega arith
strlen_from-eq i (c ∷ s) = ground (arith, strlen_from-eq (i + 1) s)

-- strcat with room for both texts and the NUL writes the text of the source and a NUL from the end
-- of the destination's text on, and no other byte.
pub strcat_lem :
    (dest src : List ℕ) (j : ℕ)
    → strlen dest + strlen src < length dest
    → get_or (strcat dest src) j 0
      ≡ placed (strlen dest) (text (length src) src) (get_or dest j 0) j
unfolding strcat strlen
strcat_lem dest src j room =
    ap (λ t. get_or t j 0) (strcpy_from-eq (strlen_from 0 dest) dest src)
    ∙ get_or-strncpy_from (length src) (strlen_from 0 dest) dest src j
        (omega (arith, strlen_from-eq 0 src))
