-- ===== src/Strings/Compare.antt =====
-- Lengths and comparisons, against the text that a C string holds.
use mathlib.Core.List.{map}
use rorth_ox.Prelude.{
  ℕ, zero, suc, ◌+◌, ◌≤◌, ◌≡◌, ◌≢◌, ◌↔◌, refl, ◌∙◌, List, [], ◌∷◌, ◌==◌, if◌then◌else◌, pos, arith,
  length,
}
use rorth_ox.Strings.{tolower, strnlen_from, strnlen, strncmp, istrncmp, head_or_nul, tail_or_nil}

-- The text of a string: its bytes before the NUL, of the first `n`.
unfoldable pub text : ℕ → List ℕ → List ℕ
text zero s = []
text (suc n) [] = []
text (suc n) (c ∷ s) = if c == 0 then [] else c ∷ text n s

strnlen_from-eq : (left i : ℕ) (s : List ℕ) → strnlen_from left i s ≡ i + length (text left s)
unfolding strnlen_from text
strnlen_from-eq zero i s = omega arith
strnlen_from-eq (suc left) i [] = omega arith
strnlen_from-eq (suc left) i (c ∷ s) = ground (arith, strnlen_from-eq left (i + 1) s)

-- strnlen measures the text of at most `max` bytes.
pub strnlen_lem : (s : List ℕ) (max : ℕ) → strnlen s max ≡ length (text max s)
unfolding strnlen
strnlen_lem s max = strnlen_from-eq max 0 s ∙ omega arith

text-suc :
    (n : ℕ) (s : List ℕ)
    → text (suc n) s ≡ (if head_or_nul s == 0 then [] else head_or_nul s ∷ text n (tail_or_nil s))
unfolding text
text-suc n [] = refl
text-suc n (c ∷ s) = refl

-- strncmp answers 0 exactly on strings whose texts of at most `n` bytes are the same.
pub strncmp-zero_iff :
    (n : ℕ) (s1 s2 : List ℕ) → (strncmp s1 s2 n ≡ pos 0) ↔ (text n s1 ≡ text n s2)
unfolding strncmp
strncmp-zero_iff zero s1 s2 = unfold text in (λ e. refl, λ e. refl)
strncmp-zero_iff (suc n) s1 s2 =
    let rest = strncmp-zero_iff n (tail_or_nil s1) (tail_or_nil s2) in
    rw (text-suc n s1, text-suc n s2) (ground (arith, rest.0, rest.1))

abbrev pub lower : List ℕ → List ℕ
lower = map tolower

tolower-zero : (c : ℕ) → tolower c ≡ 0 → c ≡ 0
unfolding tolower
tolower-zero c e = ground arith

-- istrncmp answers 0 exactly on strings whose texts of at most `n` bytes differ in case only.
pub istrncmp-zero_iff :
    (n : ℕ) (s1 s2 : List ℕ) → (istrncmp s1 s2 n ≡ pos 0) ↔ (lower (text n s1) ≡ lower (text n s2))
unfolding istrncmp
istrncmp-zero_iff zero s1 s2 = unfold text in (λ e. refl, λ e. refl)
istrncmp-zero_iff (suc n) s1 s2 =
    let rest = istrncmp-zero_iff n (tail_or_nil s1) (tail_or_nil s2) in
    rw (text-suc n s1, text-suc n s2) (ground (arith, rest.0, rest.1))

strnlen_from-le : (max i : ℕ) (s : List ℕ) → strnlen_from max i s ≤ i + length s
unfolding strnlen_from
strnlen_from-le zero i s = omega arith
strnlen_from-le (suc left) i [] = omega arith
strnlen_from-le (suc left) i (c ∷ s) = ground (arith, strnlen_from-le left (i + 1) s)

pub strnlen-le : (s : List ℕ) (max : ℕ) → strnlen s max ≤ length s
unfolding strnlen
strnlen-le s max = omega (arith, strnlen_from-le max 0 s)

strnlen_from-ge : (max i : ℕ) (s : List ℕ) → i ≤ strnlen_from max i s
unfolding strnlen_from
strnlen_from-ge zero i s = omega arith
strnlen_from-ge (suc left) i [] = omega arith
strnlen_from-ge (suc left) i (c ∷ s) = ground (arith, strnlen_from-ge left (i + 1) s)

-- Three bytes before any NUL are counted.
pub strnlen-three :
    (a b c left : ℕ) (s : List ℕ)
    → a ≢ 0
    → b ≢ 0
    → c ≢ 0
    → 3 ≤ strnlen (a ∷ b ∷ c ∷ s) (suc (suc (suc left)))
unfolding strnlen strnlen_from
strnlen-three a b c left s na nb nc = ground (arith, strnlen_from-ge left 3 s)
