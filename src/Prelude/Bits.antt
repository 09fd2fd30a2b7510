-- ===== src/Prelude/Bits.antt =====
-- The bit operations digit by digit: masks and shifts of any width as arithmetic.
use Prim.Native.Nat.{
  ℕ, zero, suc, ◌+◌, ◌*◌, ◌/◌, ◌%◌, ◌≤◌, ◌<◌, min, max, bit_and, bit_or, digits, bit_and-bitwise,
  bit_or-bitwise,
}
use mathlib.Core.Path.{◌≡◌, refl, sym, ap, ◌∙◌}
use native.Mathlib.Omega.{arith}

-- Digits to spare change nothing.
module _ (z : ℕ → ℕ) (f : ℕ → ℕ → ℕ) where
  digits-spare : (n m a b : ℕ) → a ≤ n → a ≤ m → digits z f n a b ≡ digits z f m a b
  digits-spare zero zero a b p q = refl
  digits-spare zero (suc m) zero b p q = refl
  digits-spare zero (suc m) (suc a) b p q = absurd (omega arith)
  digits-spare (suc n) zero zero b p q = refl
  digits-spare (suc n) zero (suc a) b p q = absurd (omega arith)
  digits-spare (suc n) (suc m) zero b p q = refl
  digits-spare (suc n) (suc m) (suc a) b p q =
      ap (λ h. h * 2 + f (suc a % 2) (b % 2))
        (digits-spare n m (suc a / 2) (b / 2) (omega arith) (omega arith))

  digits-step :
      (a b : ℕ)
      → z b ≡ z (b / 2) * 2 + f 0 (b % 2)
      → digits z f a a b ≡ digits z f (a / 2) (a / 2) (b / 2) * 2 + f (a % 2) (b % 2)
  digits-step zero b e = e
  digits-step (suc a) b e =
      ap (λ h. h * 2 + f (suc a % 2) (b % 2))
        (digits-spare a (suc a / 2) (suc a / 2) (b / 2) (omega arith) (omega arith))

and-step : (a b : ℕ) → bit_and a b ≡ bit_and (a / 2) (b / 2) * 2 + min (a % 2) (b % 2)
and-step a b =
    bit_and-bitwise a b
    ∙ digits-step (λ b. zero) min a b (omega arith)
    ∙ ap (λ h. h * 2 + min (a % 2) (b % 2)) (sym (bit_and-bitwise (a / 2) (b / 2)))

or-step : (a b : ℕ) → bit_or a b ≡ bit_or (a / 2) (b / 2) * 2 + max (a % 2) (b % 2)
or-step a b =
    bit_or-bitwise a b
    ∙ digits-step (λ b. b) max a b (omega arith)
    ∙ ap (λ h. h * 2 + max (a % 2) (b % 2)) (sym (bit_or-bitwise (a / 2) (b / 2)))

-- `a << k`, `a >> k` and the low `k` bits, a bit at a time, so that a literal `k` computes.
abbrev pub shl : ℕ → ℕ → ℕ
shl zero a = a
shl (suc k) a = shl k a * 2

abbrev pub shr : ℕ → ℕ → ℕ
shr zero a = a
shr (suc k) a = shr k (a / 2)

abbrev pub low : ℕ → ℕ → ℕ
low zero a = 0
low (suc k) a = low k (a / 2) * 2 + a % 2

abbrev pub ones : ℕ → ℕ
ones zero = 0
ones (suc k) = ones k * 2 + 1

-- The step at a mask that is given by its upper digits and its lowest.
and-double : (a m d : ℕ) → d < 2 → bit_and a (m * 2 + d) ≡ bit_and (a / 2) m * 2 + min (a % 2) d
and-double a m d h =
    and-step a (m * 2 + d)
    ∙ ap (λ x. bit_and (a / 2) x * 2 + min (a % 2) ((m * 2 + d) % 2)) {x = (m * 2 + d) / 2} {y = m}
        (omega arith)
    ∙ ap (λ x. bit_and (a / 2) m * 2 + min (a % 2) x) {x = (m * 2 + d) % 2} {y = d} (omega arith)

or-double :
    (a d b e : ℕ) → d < 2 → e < 2 → bit_or (a * 2 + d) (b * 2 + e) ≡ bit_or a b * 2 + max d e
or-double a d b e h h' =
    or-step (a * 2 + d) (b * 2 + e)
    ∙ ap (λ x. bit_or x ((b * 2 + e) / 2) * 2 + max ((a * 2 + d) % 2) ((b * 2 + e) % 2))
        {x = (a * 2 + d) / 2} {y = a} (omega arith)
    ∙ ap (λ x. bit_or a x * 2 + max ((a * 2 + d) % 2) ((b * 2 + e) % 2)) {x = (b * 2 + e) / 2}
        {y = b} (omega arith)
    ∙ ap (λ x. bit_or a b * 2 + max x ((b * 2 + e) % 2)) {x = (a * 2 + d) % 2} {y = d} (omega arith)
    ∙ ap (λ x. bit_or a b * 2 + max d x) {x = (b * 2 + e) % 2} {y = e} (omega arith)

halves : (a : ℕ) → a ≡ a / 2 * 2 + a % 2
halves a = omega arith

and-zero_within : (n a : ℕ) → a ≤ n → bit_and a 0 ≡ 0
and-zero_within zero zero h = bit_and-bitwise 0 0
and-zero_within zero (suc a) h = absurd (omega arith)
and-zero_within (suc n) a h =
    and-double a 0 0 (omega arith) ∙ omega (arith, and-zero_within n (a / 2) (omega arith))

pub bit_and-zero : (a : ℕ) → bit_and a 0 ≡ 0
bit_and-zero a = and-zero_within a a (omega arith)

or-zero_within : (n a : ℕ) → a ≤ n → bit_or a 0 ≡ a
or-zero_within zero zero h = bit_or-bitwise 0 0
or-zero_within zero (suc a) h = absurd (omega arith)
or-zero_within (suc n) a h =
    ap (λ x. bit_or x 0) (halves a)
    ∙ or-double (a / 2) (a % 2) 0 0 (omega arith) (omega arith)
    ∙ omega (arith, or-zero_within n (a / 2) (omega arith))

pub bit_or-zero : (a : ℕ) → bit_or a 0 ≡ a
bit_or-zero a = or-zero_within a a (omega arith)

-- A mask of `k` ones keeps the low bits.
pub bit_and-ones : (k a : ℕ) → bit_and a (ones k) ≡ low k a
bit_and-ones zero a = bit_and-zero a
bit_and-ones (suc k) a =
    and-double a (ones k) 1 (omega arith) ∙ omega (arith, bit_and-ones k (a / 2))

-- A mask shifted up reads the bits from there on.
pub bit_and-shl : (k a m : ℕ) → bit_and a (shl k m) ≡ shl k (bit_and (shr k a) m)
bit_and-shl zero a m = refl
bit_and-shl (suc k) a m =
    ap (bit_and a) {x = shl k m * 2} {y = shl k m * 2 + 0} (omega arith)
    ∙ and-double a (shl k m) 0 (omega arith)
    ∙ omega (arith, bit_and-shl k (a / 2) m)

-- A mask below 2 ^ k sees the low bits only.
pub bit_and-low : (k a m : ℕ) → m < shl k 1 → bit_and a m ≡ bit_and (low k a) m
bit_and-low zero a zero h = bit_and-zero a ∙ sym (bit_and-zero 0)
bit_and-low zero a (suc m) h = absurd (omega arith)
bit_and-low (suc k) a m h =
    and-step a m
    ∙ ap (λ x. x * 2 + min (a % 2) (m % 2)) (bit_and-low k (a / 2) (m / 2) (omega arith))
    ∙ ap (λ x. bit_and x (m / 2) * 2 + min (a % 2) (m % 2)) {x = low k (a / 2)}
        {y = (low k (a / 2) * 2 + a % 2) / 2} (omega arith)
    ∙ ap (λ x. bit_and ((low k (a / 2) * 2 + a % 2) / 2) (m / 2) * 2 + min x (m % 2)) {x = a % 2}
        {y = (low k (a / 2) * 2 + a % 2) % 2} (omega arith)
    ∙ sym (and-step (low (suc k) a) m)

-- Bits that do not meet are added.
pub bit_or-add : (k a b : ℕ) → b < shl k 1 → bit_or (shl k a) b ≡ shl k a + b
bit_or-add zero a zero h = bit_or-zero a ∙ omega arith
bit_or-add zero a (suc b) h = absurd (omega arith)
bit_or-add (suc k) a b h =
    ap (bit_or (shl k a * 2)) (halves b)
    ∙ ap (λ x. bit_or x (b / 2 * 2 + b % 2)) {x = shl k a * 2} {y = shl k a * 2 + 0} (omega arith)
    ∙ or-double (shl k a) 0 (b / 2) (b % 2) (omega arith) (omega arith)
    ∙ omega (arith, bit_or-add k a (b / 2) (omega arith))

or-comm_within : (n a b : ℕ) → a ≤ n → b ≤ n → bit_or a b ≡ bit_or b a
or-comm_within zero zero zero h h' = refl
or-comm_within zero (suc a) b h h' = absurd (omega arith)
or-comm_within zero zero (suc b) h h' = absurd (omega arith)
or-comm_within (suc n) a b h h' =
    or-step a b
    ∙ omega (arith, or-comm_within n (a / 2) (b / 2) (omega arith) (omega arith))
    ∙ sym (or-step b a)

pub bit_or_comm : (a b : ℕ) → bit_or a b ≡ bit_or b a
bit_or_comm a b = or-comm_within (a + b) a b (omega arith) (omega arith)

pub shr-or : (k a b : ℕ) → shr k (bit_or a b) ≡ bit_or (shr k a) (shr k b)
shr-or zero a b = refl
shr-or (suc k) a b =
    let half : bit_or a b / 2 ≡ bit_or (a / 2) (b / 2) = omega (arith, or-step a b) in
    ap (shr k) half ∙ shr-or k (a / 2) (b / 2)

pub low-or : (k a b : ℕ) → low k (bit_or a b) ≡ bit_or (low k a) (low k b)
low-or zero a b = sym (bit_or-zero 0)
low-or (suc k) a b =
    let half : bit_or a b / 2 ≡ bit_or (a / 2) (b / 2) = omega (arith, or-step a b) in
    let bit : bit_or a b % 2 ≡ max (a % 2) (b % 2) = omega (arith, or-step a b) in
    ap (λ x. low k x * 2 + bit_or a b % 2) half
    ∙ ap (λ x. low k (bit_or (a / 2) (b / 2)) * 2 + x) bit
    ∙ ap (λ x. x * 2 + max (a % 2) (b % 2)) (low-or k (a / 2) (b / 2))
    ∙ sym (or-double (low k (a / 2)) (a % 2) (low k (b / 2)) (b % 2) (omega arith) (omega arith))

pub low-below : (k a : ℕ) → low k a < shl k 1
low-below zero a = omega arith
low-below (suc k) a = omega (arith, low-below k (a / 2))

pub low-small : (k a : ℕ) → a < shl k 1 → low k a ≡ a
low-small zero a h = omega arith
low-small (suc k) a h = omega (arith, low-small k (a / 2) (omega arith))

pub shr-shl : (k a b : ℕ) → b < shl k 1 → shr k (shl k a + b) ≡ a
shr-shl zero a b h = omega arith
shr-shl (suc k) a b h =
    ap (shr k) {x = (shl k a * 2 + b) / 2} {y = shl k a + b / 2} (omega arith)
    ∙ shr-shl k a (b / 2) (omega arith)

pub low-shl : (k a b : ℕ) → b < shl k 1 → low k (shl k a + b) ≡ b
low-shl zero a b h = omega arith
low-shl (suc k) a b h =
    ap (λ x. low k x * 2 + (shl k a * 2 + b) % 2) {x = (shl k a * 2 + b) / 2} {y = shl k a + b / 2}
      (omega arith)
    ∙ omega (arith, low-shl k a (b / 2) (omega arith))
