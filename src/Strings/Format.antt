-- ===== src/Strings/Format.antt =====
-- vsnprintf of kernel/string/string.c, and the routines below it.
pub mod Numerals
pub mod Rules
pub mod Output
pub mod Safety
pub mod Digits
use rorth_ox.Prelude.{
  ℕ, zero, suc, ◌+◌, ◌-◌, ◌*◌, ◌/◌, ◌%◌, ◌^◌, Bool, true, false, not, ◌&&◌, ◌||◌, Option, none,
  some, List, [], ◌∷◌, ◌++◌, ltb, leb, ◌==◌, if◌then◌else◌, u32, length, set, replicate, min,
}

abbrev pub int_max : ℕ
int_max = 2 ^ 31 - 1

-- What `va_arg` takes: a 32-bit word, or a string (`none` is a null pointer).
pub data Arg : Type 0 where
  word : ℕ → Arg
  string : Option (List ℕ) → Arg

-- The destination, and how many characters were produced.
pub record Out : Type 0 where
  pub str : List ℕ
  pub count : ℕ

-- `false` is the -1 of `format_putc`.
pub format_putc : ℕ → Out → ℕ → Bool × Out
format_putc size o c =
    if o.count == int_max
    then (false, o)
    else if not (size == 0) && ltb o.count (size - 1)
    then (true, record { str = set o.str o.count c; count = o.count + 1 })
    else (true, record { str = o.str; count = o.count + 1 })

-- A run of `format_putc` calls, left at the first that fails.
pub puts : ℕ → Out → List ℕ → Bool × Out
puts size o [] = (true, o)
puts size o (c ∷ cs) = elim (format_putc size o c).0 [
  | false ↦ (false, (format_putc size o c).1)
  | true ↦ puts size (format_putc size o c).1 cs
]

-- `digits[d]`
abbrev pub digit : Bool → ℕ → ℕ
digit upper d = if ltb d 10 then 48 + d else if upper then 55 + d else 87 + d

-- The `do` loop over `number`, with the slots left in it; the digits come out in reverse, so the
-- list is what is printed.
unfoldable pub number_loop : ℕ → ℕ → Bool → ℕ → List ℕ → List ℕ
number_loop zero base upper value printed = printed
number_loop (suc slots) base upper value printed =
    let printed' = digit upper (value % base) ∷ printed in
    elim (value / base == 0) [
      | true ↦ printed'
      | false ↦ number_loop slots base upper (value / base) printed'
    ]

-- `number` has `sizeof(unsigned int) * CHAR_BIT` slots.
unfoldable pub number : ℕ → Bool → ℕ → List ℕ
unfolding number_loop
number base upper value = number_loop 32 base upper value []

-- The sign, the zeros up to `width` and the digits.
unfoldable pub signed_number : ℕ → ℕ → List ℕ
unfolding number
signed_number width w =
    if ltb w (2 ^ 31)
    then replicate (width - length (number 10 false w)) 48 ++ number 10 false w
    else 45
      ∷ (replicate (width - (length (number 10 false (2 ^ 32 - w)) + 1)) 48
          ++ number 10 false (2 ^ 32 - w))

-- What one conversion prints, and the rest of the format and of the arguments.
pub data Conversion : Type 0 where
  prints : List ℕ → List ℕ → List Arg → Conversion
  -- `goto out` with the result -1
  refused : Conversion
  -- the argument is missing or of the other kind, which C leaves undefined
  undefined : Conversion

abbrev null_text : List ℕ
null_text = 40 ∷ 110 ∷ 117 ∷ 108 ∷ 108 ∷ 41 ∷ []

abbrev with_word : List Arg → (ℕ → List ℕ) → List ℕ → Conversion
with_word [] show fmt = undefined
with_word (word w ∷ args) show fmt = prints (show w) fmt args
with_word (string s ∷ args) show fmt = undefined

-- The text before the NUL.
unfoldable pub until_nul : List ℕ → List ℕ
until_nul [] = []
until_nul (c ∷ s) = if c == 0 then [] else c ∷ until_nul s

with_text : List Arg → List ℕ → Conversion
unfolding until_nul
with_text [] fmt = undefined
with_text (word w ∷ args) fmt = undefined
with_text (string none ∷ args) fmt = prints null_text fmt args
with_text (string (some s) ∷ args) fmt = prints (until_nul s) fmt args

-- The `switch`, at the conversion character `c`.
pub conversion : ℕ → ℕ → List ℕ → List Arg → Conversion
unfolding with_text signed_number
conversion width c fmt args =
    if c == b'%'
    then prints (b'%' ∷ []) fmt args
    else if c == b'c'
    then with_word args (λ w. (w % 2 ^ 8) ∷ []) fmt
    else if c == b's'
    then with_text args fmt
    else if c == b'd' || c == b'i'
    then with_word args (signed_number width) fmt
    else if c == b'u'
    then with_word args (number 10 false) fmt
    else if c == b'x'
    then with_word args (number 16 false) fmt
    else if c == b'X'
    then with_word args (number 16 true) fmt
    else refused

-- After `%0` only `2d` is taken.
zero_padded : List ℕ → List Arg → Conversion
unfolding conversion
zero_padded [] args = refused
zero_padded (a ∷ []) args = refused
zero_padded (a ∷ b ∷ fmt) args = if a == b'2' && b == b'd' then conversion 2 b fmt args else refused

-- The format after a `%`; at its end the `%` itself is printed.
pub directive : List ℕ → List Arg → Conversion
unfolding conversion zero_padded
directive [] args = prints (b'%' ∷ []) [] args
directive (c ∷ fmt) args =
    if c == 0
    then prints (b'%' ∷ []) [] args
    else if c == b'0'
    then zero_padded fmt args
    else conversion 0 c fmt args

-- What the loop body prints at the character `c`.
pub next_piece : ℕ → List ℕ → List Arg → Conversion
unfolding directive
next_piece c fmt args = if c == b'%' then directive fmt args else prints (c ∷ []) fmt args

pub data Returned : Type 0 where
  chars : ℕ → Returned
  minus_one : Returned
  undefined_behaviour : Returned

-- The `for` loop, with more rounds than the format has characters.
pub format_loop : ℕ → ℕ → Out → List ℕ → List Arg → Returned × Out
format_loop zero size o fmt args = (chars o.count, o)
format_loop (suc rounds) size o [] args = (chars o.count, o)
format_loop (suc rounds) size o (c ∷ fmt) args = elim (c == 0) [
  | true ↦ (chars o.count, o)
  | false ↦ elim (next_piece c fmt args) [
    | refused ↦ (minus_one, o)
    | undefined ↦ (undefined_behaviour, o)
    | prints piece fmt' args' ↦ elim (puts size o piece).0 [
      | false ↦ (minus_one, (puts size o piece).1)
      | true ↦ format_loop rounds size (puts size o piece).1 fmt' args'
    ]
  ]
]

-- `str[count < size ? count : size - 1] = '\0'`
pub terminate : ℕ → Out → List ℕ
terminate size o =
    if size == 0 then o.str else set o.str (if ltb o.count size then o.count else size - 1) 0

-- `vsnprintf` for a destination and a format that are not null pointers: the result and the bytes
-- at the destination.
pub vsnprintf : List ℕ → ℕ → List ℕ → List Arg → Returned × List ℕ
unfolding format_loop terminate
vsnprintf str size fmt args =
    let (r, o) = format_loop (length fmt) size (record { str = str; count = 0 }) fmt args in
    (r, terminate size o)
