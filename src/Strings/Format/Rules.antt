-- ===== src/Strings/Format/Rules.antt =====
-- The formats that vsnprintf of kernel/string/string.c takes, by a rule for each conversion.
use rorth_ox.Prelude.{
  ℕ, ◌≤◌, ◌%◌, ◌^◌, ◌<◌, ◌≡◌, ◌≢◌, refl, ap, Bool, true, false, some, List, [], ◌∷◌, ◌++◌,
  if◌then◌else◌, arith, length,
}
use rorth_ox.Strings.Format.Numerals.{
  Numeral, Signed, TextOf, number-decimal, number-hexadecimal, signed_number-Signed,
  until_nul-TextOf,
}
use rorth_ox.Strings.Format.{
  Arg, word, string, prints, next_piece, directive, conversion, zero_padded, with_text,
}

-- `Expands fmt args t`: the format, with these arguments, stands for the text `t`.
pub data Expands : List ℕ → List Arg → List ℕ → Type 0 where
  ended : (args : List Arg) → Expands [] args []
  ended_by_nul : (fmt : List ℕ) (args : List Arg) → Expands (0 ∷ fmt) args []
  itself :
      (c : ℕ) (fmt : List ℕ) (args : List Arg) (t : List ℕ)
      → c ≢ 0
      → c ≢ b'%'
      → Expands fmt args t
      → Expands (c ∷ fmt) args (c ∷ t)
  percent_at_end : (args : List Arg) → Expands (b'%' ∷ []) args (b'%' ∷ [])
  percent :
      (fmt : List ℕ) (args : List Arg) (t : List ℕ)
      → Expands fmt args t
      → Expands (b'%' ∷ b'%' ∷ fmt) args (b'%' ∷ t)
  character :
      (w : ℕ) (fmt : List ℕ) (args : List Arg) (t : List ℕ)
      → Expands fmt args t
      → Expands (b'%' ∷ b'c' ∷ fmt) (word w ∷ args) (w % 2 ^ 8 ∷ t)
  text_of :
      (s u fmt : List ℕ) (args : List Arg) (t : List ℕ)
      → TextOf s u
      → Expands fmt args t
      → Expands (b'%' ∷ b's' ∷ fmt) (string (some s) ∷ args) (u ++ t)
  signed_word :
      (d : Bool) (w : ℕ) (u fmt : List ℕ) (args : List Arg) (t : List ℕ)
      → Signed 0 w u
      → Expands fmt args t
      → Expands (b'%' ∷ (if d then b'd' else b'i') ∷ fmt) (word w ∷ args) (u ++ t)
  two_digits :
      (w : ℕ) (u fmt : List ℕ) (args : List Arg) (t : List ℕ)
      → Signed 2 w u
      → Expands fmt args t
      → Expands (b'%' ∷ b'0' ∷ b'2' ∷ b'd' ∷ fmt) (word w ∷ args) (u ++ t)
  unsigned_word :
      (w : ℕ) (u fmt : List ℕ) (args : List Arg) (t : List ℕ)
      → w < 2 ^ 32
      → Numeral 10 false w u
      → Expands fmt args t
      → Expands (b'%' ∷ b'u' ∷ fmt) (word w ∷ args) (u ++ t)
  hexadecimal :
      (upper : Bool) (w : ℕ) (u fmt : List ℕ) (args : List Arg) (t : List ℕ)
      → w < 2 ^ 32
      → Numeral 16 upper w u
      → Expands fmt args t
      → Expands (b'%' ∷ (if upper then b'X' else b'x') ∷ fmt) (word w ∷ args) (u ++ t)

-- The same, seen by the loop: each round takes the piece that the code prints there.
pub data Runs : List ℕ → List Arg → List ℕ → Type 0 where
  over : (args : List Arg) → Runs [] args []
  over_at_nul : (fmt : List ℕ) (args : List Arg) → Runs (0 ∷ fmt) args []
  round :
      (c : ℕ) (fmt fmt' piece t : List ℕ) (args args' : List Arg)
      → c ≢ 0
      → next_piece c fmt args ≡ prints piece fmt' args'
      → length fmt' ≤ length fmt
      → Runs fmt' args' t
      → Runs (c ∷ fmt) args (piece ++ t)

pub Expands-Runs :
    (fmt : List ℕ) (args : List Arg) (t : List ℕ) → Expands fmt args t → Runs fmt args t
unfolding next_piece directive conversion zero_padded with_text
Expands-Runs _ _ _ (ended args) = over args
Expands-Runs _ _ _ (ended_by_nul fmt args) = over_at_nul fmt args
Expands-Runs _ _ _ (itself c fmt args t nz np e) =
    round c fmt fmt (c ∷ []) t args args nz (ground arith) (omega arith) (Expands-Runs fmt args t e)
Expands-Runs _ _ _ (percent_at_end args) =
    round b'%' [] [] (b'%' ∷ []) [] args args (omega arith) refl (omega arith) (over args)
Expands-Runs _ _ _ (percent fmt args t e) =
    round b'%' (b'%' ∷ fmt) fmt (b'%' ∷ []) t args args (omega arith) refl (omega arith)
      (Expands-Runs fmt args t e)
Expands-Runs _ _ _ (character w fmt args t e) =
    round b'%' (b'c' ∷ fmt) fmt (w % 2 ^ 8 ∷ []) t (word w ∷ args) args (omega arith) refl
      (omega arith) (Expands-Runs fmt args t e)
Expands-Runs _ _ _ (text_of s u fmt args t r e) =
    round b'%' (b's' ∷ fmt) fmt u t (string (some s) ∷ args) args (omega arith)
      (ap (λ p. prints p fmt args) (until_nul-TextOf s u r)) (omega arith)
      (Expands-Runs fmt args t e)
Expands-Runs _ _ _ (signed_word true w u fmt args t r e) =
    round b'%' (b'd' ∷ fmt) fmt u t (word w ∷ args) args (omega arith)
      (ap (λ p. prints p fmt args) (signed_number-Signed 0 w u r)) (omega arith)
      (Expands-Runs fmt args t e)
Expands-Runs _ _ _ (signed_word false w u fmt args t r e) =
    round b'%' (b'i' ∷ fmt) fmt u t (word w ∷ args) args (omega arith)
      (ap (λ p. prints p fmt args) (signed_number-Signed 0 w u r)) (omega arith)
      (Expands-Runs fmt args t e)
Expands-Runs _ _ _ (two_digits w u fmt args t r e) =
    round b'%' (b'0' ∷ b'2' ∷ b'd' ∷ fmt) fmt u t (word w ∷ args) args (omega arith)
      (ap (λ p. prints p fmt args) (signed_number-Signed 2 w u r)) (omega arith)
      (Expands-Runs fmt args t e)
Expands-Runs _ _ _ (unsigned_word w u fmt args t h r e) =
    round b'%' (b'u' ∷ fmt) fmt u t (word w ∷ args) args (omega arith)
      (ap (λ p. prints p fmt args) (number-decimal w u h r)) (omega arith)
      (Expands-Runs fmt args t e)
Expands-Runs _ _ _ (hexadecimal true w u fmt args t h r e) =
    round b'%' (b'X' ∷ fmt) fmt u t (word w ∷ args) args (omega arith)
      (ap (λ p. prints p fmt args) (number-hexadecimal true w u h r)) (omega arith)
      (Expands-Runs fmt args t e)
Expands-Runs _ _ _ (hexadecimal false w u fmt args t h r e) =
    round b'%' (b'x' ∷ fmt) fmt u t (word w ∷ args) args (omega arith)
      (ap (λ p. prints p fmt args) (number-hexadecimal false w u h r)) (omega arith)
      (Expands-Runs fmt args t e)
