-- ===== src/Strings/Format/Numerals.antt =====
-- The numerals that vsnprintf of kernel/string/string.c prints, described by their digits.
use native.Mathlib.Nat.{pow-suc}
use rorth_ox.Prelude.{
  ℕ, zero, suc, ◌+◌, ◌-◌, ◌*◌, ◌/◌, ◌%◌, ◌^◌, ◌≤◌, ◌<◌, ◌≡◌, ◌≢◌, refl, ◌∙◌, ap, ap₂, sym, Bool,
  true, false, List, [], ◌∷◌, ◌++◌, ltb, ◌==◌, arith, length, replicate, get_or, append_assoc,
  append-nil, passes, table_entry,
}
use rorth_ox.Strings.Format.{digit, number_loop, number, signed_number, until_nul}

-- The digits of the bases up to 16.
abbrev capital_digits : List ℕ
capital_digits =
    b'0' ∷ b'1' ∷ b'2' ∷ b'3' ∷ b'4' ∷ b'5' ∷ b'6' ∷ b'7' ∷ b'8' ∷ b'9' ∷ b'A' ∷ b'B' ∷ b'C' ∷ b'D'
    ∷ b'E' ∷ b'F' ∷ []

abbrev small_digits : List ℕ
small_digits =
    b'0' ∷ b'1' ∷ b'2' ∷ b'3' ∷ b'4' ∷ b'5' ∷ b'6' ∷ b'7' ∷ b'8' ∷ b'9' ∷ b'a' ∷ b'b' ∷ b'c' ∷ b'd'
    ∷ b'e' ∷ b'f' ∷ []

abbrev pub character : Bool → ℕ → ℕ
character true d = get_or capital_digits d 0
character false d = get_or small_digits d 0

-- The positional numeral of a number, with no zero before the first digit.
pub data Numeral (base : ℕ) (upper : Bool) : ℕ → List ℕ → Type 0 where
  one_digit : (d : ℕ) → d < base → Numeral base upper d (character upper d ∷ [])
  more_digits :
      (n d : ℕ) (t : List ℕ)
      → n ≢ 0
      → d < base
      → Numeral base upper n t
      → Numeral base upper (n * base + d) (t ++ (character upper d ∷ []))

-- The numeral of a 32-bit word in two's complement, filled with zeros behind the sign up to `width`.
pub data Signed (width w : ℕ) : List ℕ → Type 0 where
  natural :
      (t : List ℕ)
      → w < 2 ^ 31
      → Numeral 10 false w t
      → Signed width w (replicate (width - length t) b'0' ++ t)
  negative :
      (t : List ℕ)
      → 2 ^ 31 ≤ w
      → w < 2 ^ 32
      → Numeral 10 false (2 ^ 32 - w) t
      → Signed width w (b'-' ∷ (replicate (width - (length t + 1)) b'0' ++ t))

-- The characters of a string in memory, up to its NUL if it has one.
pub data TextOf : List ℕ → List ℕ → Type 0 where
  at_end : TextOf [] []
  at_nul : (s : List ℕ) → TextOf (0 ∷ s) []
  one_char : (c : ℕ) (s t : List ℕ) → c ≢ 0 → TextOf s t → TextOf (c ∷ s) (c ∷ t)

digit_tables : (upper : Bool) → passes 16 0 (λ d. digit upper d == character upper d) ≡ true
unfolding passes
digit_tables true = refl
digit_tables false = refl

digit-character : (upper : Bool) (d : ℕ) → d < 16 → digit upper d ≡ character upper d
digit-character upper d h =
    let entry = table_entry 16 (λ d. digit upper d == character upper d) d (digit_tables upper) h in
    ground arith

module _ (base : ℕ) (upper : Bool) (most : base ≤ 16)
    (quotient : (n d : ℕ) → d < base → (n * base + d) / base ≡ n)
    (remainder : (n d : ℕ) → d < base → (n * base + d) % base ≡ d)
    (twice : (n : ℕ) → n * 2 ≤ n * base) where
  last_digit : (n d : ℕ) → d < base → digit upper ((n * base + d) % base) ≡ character upper d
  last_digit n d h =
      ap (digit upper) (remainder n d h) ∙ digit-character upper d (omega (arith, most))

  number_loop-Numeral :
      (n : ℕ) (t : List ℕ)
      → Numeral base upper n t
      → (slots : ℕ) (printed : List ℕ) → n < 2 ^ slots
      → 0 < slots
      → number_loop slots base upper n printed ≡ t ++ printed
  unfolding number_loop
  number_loop-Numeral _ _ (one_digit d small) zero printed h some = absurd (omega arith)
  number_loop-Numeral _ _ (one_digit d small) (suc slots) printed h some =
      let none_left : (d / base == 0) ≡ true = ground (arith, quotient 0 d small) in
      rw (number_loop, none_left)
        (ap (λ c. c ∷ printed)
          (ap (λ x. digit upper (x % base)) {x = d} {y = 0 * base + d} (omega arith)
            ∙ last_digit 0 d small))
  number_loop-Numeral _ _ (more_digits n d t nz small r) zero printed h some = absurd (omega arith)
  number_loop-Numeral _ _ (more_digits n d t nz small r) (suc slots) printed h some =
      let value = n * base + d in
      let q = quotient n d small in
      let two = pow-suc 2 slots in
      let doubled = twice n in
      let more : (value / base == 0) ≡ false = ground arith in
      rw (number_loop, more)
        (ap₂ (λ v c. number_loop slots base upper v (c ∷ printed)) q (last_digit n d small)
          ∙ number_loop-Numeral n t r slots (character upper d ∷ printed) (omega arith)
              (ground arith)
          ∙ sym (append_assoc t (character upper d ∷ []) printed))

pub number-decimal :
    (n : ℕ) (t : List ℕ) → n < 2 ^ 32 → Numeral 10 false n t → number 10 false n ≡ t
unfolding number
number-decimal n t h r =
    number_loop-Numeral 10 false (omega arith) (λ n d h. omega arith) (λ n d h. omega arith)
      (λ n. omega arith) n t r 32 [] h (omega arith)
    ∙ append-nil t

pub number-hexadecimal :
    (upper : Bool) (n : ℕ) (t : List ℕ) → n < 2 ^ 32 → Numeral 16 upper n t → number 16 upper n ≡ t
unfolding number
number-hexadecimal upper n t h r =
    number_loop-Numeral 16 upper (omega arith) (λ n d h. omega arith) (λ n d h. omega arith)
      (λ n. omega arith) n t r 32 [] h (omega arith)
    ∙ append-nil t

pub signed_number-Signed : (width w : ℕ) (t : List ℕ) → Signed width w t → signed_number width w ≡ t
unfolding signed_number
signed_number-Signed width w _ (natural t low r) =
    let plain : ltb w (2 ^ 31) ≡ true = ground arith in
    rw (signed_number, plain)
      (ap (λ u. replicate (width - length u) 48 ++ u) (number-decimal w t (omega arith) r))
signed_number-Signed width w _ (negative t high small r) =
    let minus : ltb w (2 ^ 31) ≡ false = ground arith in
    rw (signed_number, minus)
      (ap (λ u. 45 ∷ (replicate (width - (length u + 1)) 48 ++ u))
        (number-decimal (2 ^ 32 - w) t (omega arith) r))

pub until_nul-TextOf : (s t : List ℕ) → TextOf s t → until_nul s ≡ t
unfolding until_nul
until_nul-TextOf _ _ at_end = refl
until_nul-TextOf _ _ (at_nul s) = refl
until_nul-TextOf _ _ (one_char c s t nz r) =
    let rest = until_nul-TextOf s t r in
    let not_end : (c == 0) ≡ false = ground arith in rw (not_end) (ap (λ u. c ∷ u) rest)
