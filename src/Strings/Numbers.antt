-- ===== src/Strings/Numbers.antt =====
-- itoa and atoi of kernel/string/string.c.
use native.Mathlib.Nat.{pow-suc}
use rorth_ox.Prelude.{
  ℕ, zero, suc, ◌+◌, ◌-◌, ◌*◌, ◌/◌, ◌%◌, ◌^◌, ◌≤◌, ◌<◌, ◌≡◌, refl, ◌∙◌, ap, true, false, List, [],
  ◌∷◌, ◌==◌, if◌then◌else◌, arith, length, u32, ℤ, pos, negsuc, Bool-cases, inl, inr,
}

-- `while (i) { text[--loc] = '0' - (i % 10); i /= 10; }` on the magnitude of `i`, which is not
-- positive: the bytes of `text` from `loc` on. The 11 rounds are the bytes before the NUL.
pub itoa_loop : ℕ → ℕ → List ℕ → List ℕ
itoa_loop zero m text = text
itoa_loop (suc rounds) m text = elim (m == 0) [
  | true ↦ text
  | false ↦ itoa_loop rounds (m / 10) ((48 + m % 10) ∷ text)
]

abbrev or_zero : List ℕ → List ℕ
or_zero [] = 48 ∷ []
or_zero (c ∷ cs) = c ∷ cs

pub itoa : ℤ → List ℕ
unfolding itoa_loop
itoa (pos n) = or_zero (itoa_loop 11 n [])
itoa (negsuc n) = 45 ∷ or_zero (itoa_loop 11 (n + 1) [])

-- `res = res * 10 + str[i] - '0'` on the pattern of an `int`.
pub atoi_from : ℕ → List ℕ → ℕ
atoi_from res [] = res
atoi_from res (c ∷ str) = if c == 0 then res else atoi_from (u32 (res * 10 + c + 2 ^ 32 - 48)) str

pub atoi : List ℕ → ℕ
unfolding atoi_from
atoi str = atoi_from 0 str

atoi_from-digit :
    (m : ℕ) (text : List ℕ)
    → m < 2 ^ 32
    → atoi_from (m / 10) ((48 + m % 10) ∷ text) ≡ atoi_from m text
unfolding atoi_from
atoi_from-digit m text h =
    let digit : ((48 + m % 10) == 0) ≡ false = ground arith in
    rw digit (ap (λ r. atoi_from r text) (omega arith))

-- Reading the digits that the loop put before `text` goes on with the number itself.
atoi_from-itoa_loop :
    (rounds m : ℕ) (text : List ℕ)
    → m < 10 ^ rounds
    → m < 2 ^ 32
    → atoi_from 0 (itoa_loop rounds m text) ≡ atoi_from m text
unfolding itoa_loop
atoi_from-itoa_loop zero m text h small = ap (λ r. atoi_from r text) (omega arith)
atoi_from-itoa_loop (suc rounds) m text h small = elim (Bool-cases (m == 0)) [
  | inl done ↦ rw (done, itoa_loop) (ap (λ r. atoi_from r text) (ground (arith, done)))
  | inr more ↦
      rw (more, itoa_loop)
        (atoi_from-itoa_loop rounds (m / 10) ((48 + m % 10) ∷ text)
            (omega (arith, pow-suc 10 rounds)) (omega arith)
          ∙ atoi_from-digit m text small)
]

-- Fewer digits than rounds: the loop ends by its test.
length-itoa_loop-le :
    (d rounds m : ℕ) (text : List ℕ)
    → m < 10 ^ d
    → length (itoa_loop rounds m text) ≤ d + length text
unfolding itoa_loop
length-itoa_loop-le d zero m text h = omega arith
length-itoa_loop-le zero (suc rounds) m text h =
    let none_left : m ≡ 0 = omega arith in rw (none_left, itoa_loop) (omega arith)
length-itoa_loop-le (suc d) (suc rounds) m text h = ground (
  arith,
  length-itoa_loop-le d rounds (m / 10) ((48 + m % 10) ∷ text) (omega (arith, pow-suc 10 d)),
)

atoi-or_zero : (text : List ℕ) → atoi_from 0 (or_zero text) ≡ atoi_from 0 text
unfolding atoi_from
atoi-or_zero [] = refl
atoi-or_zero (c ∷ text) = refl

-- atoi reads back every `int` that is not negative from the text that itoa makes of it.
pub atoi-itoa : (n : ℕ) → n < 2 ^ 31 → atoi (itoa (pos n)) ≡ n
unfolding atoi itoa
atoi-itoa n h =
    atoi-or_zero (itoa_loop 11 n [])
    ∙ atoi_from-itoa_loop 11 n [] (omega arith) (omega arith)
    ∙ unfold atoi_from in refl

length-or_zero : (text : List ℕ) (n : ℕ) → 1 ≤ n → length text ≤ n → length (or_zero text) ≤ n
length-or_zero [] n p h = p
length-or_zero (c ∷ text) n p h = h

-- Every `int`, the least one included, fits the 12 bytes of itoa's buffer with its NUL.
pub length-itoa :
    (n : ℕ) → n < 2 ^ 31 → (length (itoa (pos n)) ≤ 11) × (length (itoa (negsuc n)) ≤ 11)
unfolding itoa
length-itoa n h =
    let plain = length-itoa_loop-le 10 11 n [] (omega arith) in
    let signed = length-itoa_loop-le 10 11 (n + 1) [] (omega arith) in
    (
      omega (arith, length-or_zero (itoa_loop 11 n []) 10 (omega arith) plain),
      omega (arith, length-or_zero (itoa_loop 11 (n + 1) []) 10 (omega arith) signed),
    )
