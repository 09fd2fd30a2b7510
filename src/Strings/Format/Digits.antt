-- ===== src/Strings/Format/Digits.antt =====
-- The digits that vsnprintf of kernel/string/string.c prints, read back.
use native.Mathlib.Nat.{pow-suc}
use rorth_ox.Prelude.{
  ℕ, zero, suc, ◌+◌, ◌-◌, ◌*◌, ◌/◌, ◌%◌, ◌^◌, ◌≤◌, ◌<◌, ◌≡◌, refl, ◌∙◌, ap, sym, Bool, true, false,
  List, [], ◌∷◌, ltb, ◌==◌, if◌then◌else◌, arith, Bool-cases, inl, inr,
}
use rorth_ox.Strings.Format.{digit, number_loop, number}

-- The value of a digit character, in either case of the letters.
pub digit_value : ℕ → ℕ
digit_value c = if ltb c 58 then c - 48 else if ltb c 97 then c - 55 else c - 87

-- A numeral read from the left, `high` before it.
unfoldable pub numeral_value : ℕ → ℕ → List ℕ → ℕ
numeral_value base high [] = high
numeral_value base high (c ∷ cs) = numeral_value base (high * base + digit_value c) cs

digit_value-digit : (upper : Bool) (d : ℕ) → d < 16 → digit_value (digit upper d) ≡ d
unfolding digit_value
digit_value-digit true d h = ground arith
digit_value-digit false d h = ground arith

-- The bases are literals in the code, so the arithmetic of each is a fact about a literal.
module _ (base : ℕ) (most : (n : ℕ) → n % base < 16)
    (whole : (n : ℕ) → n / base * base + n % base ≡ n) (half : (n : ℕ) → 2 * (n / base) ≤ n) where
  numeral_value-digit :
      (upper : Bool) (value : ℕ) (printed : List ℕ)
      → numeral_value base (value / base) (digit upper (value % base) ∷ printed)
        ≡ numeral_value base value printed
  unfolding numeral_value
  numeral_value-digit upper value printed =
      ap (λ v. numeral_value base v printed)
        (omega (arith, whole value, digit_value-digit upper (value % base) (most value)))

  numeral_value-loop :
      (slots : ℕ) (upper : Bool) (value : ℕ) (printed : List ℕ)
      → value < 2 ^ slots
      → 0 < slots
      → numeral_value base 0 (number_loop slots base upper value printed)
        ≡ numeral_value base value printed
  unfolding number_loop
  numeral_value-loop zero upper value printed h some_slot = absurd (omega arith)
  numeral_value-loop (suc slots) upper value printed h some_slot =
      let next = numeral_value-digit upper value printed in
      let two = pow-suc 2 slots in
      let halved = half value in
      elim (Bool-cases (value / base == 0)) [
        | inl last ↦
            let none_left : value / base ≡ 0 = ground arith in
            rw (number_loop, last)
              (ap (λ v. numeral_value base v (digit upper (value % base) ∷ printed)) (sym none_left)
                ∙ next)
        | inr more ↦
            rw (number_loop, more)
              (numeral_value-loop slots upper (value / base) (digit upper (value % base) ∷ printed)
                  (omega arith) (ground arith)
                ∙ next)
      ]

-- The 32 slots hold every digit of a 32-bit value: read back, what the conversions u, x and X print is the value.
pub number_lem :
    (hexadecimal upper : Bool) (value : ℕ)
    → value < 2 ^ 32
    → numeral_value
        (if hexadecimal then 16 else 10)
        0
        (number (if hexadecimal then 16 else 10) upper value)
      ≡ value
unfolding number
number_lem true upper value h =
    numeral_value-loop 16 (λ n. omega arith) (λ n. omega arith) (λ n. omega arith) 32 upper value []
      h (omega arith)
    ∙ unfold numeral_value in refl
number_lem false upper value h =
    numeral_value-loop 10 (λ n. omega arith) (λ n. omega arith) (λ n. omega arith) 32 upper value []
      h (omega arith)
    ∙ unfold numeral_value in refl
