-- ===== src/Strings/Tests.antt =====
-- Runs and instances for the routines of kernel/string/string.c.
use rorth_ox.Prelude.{ℕ, ◌<◌, ◌≡◌, List, [], ◌∷◌, ◌++◌, arith, length, get_or, ◌≤◌}
use rorth_ox.Strings.{strlen, strnlen}
use rorth_ox.Strings.Compare.{text, strnlen_lem}
use rorth_ox.Strings.Format.{Arg, word, vsnprintf, chars}
use rorth_ox.Strings.Format.Numerals.{Signed, natural, one_digit}
use rorth_ox.Strings.Format.Rules.{Expands, ended, itself, two_digits}
use rorth_ox.Strings.Format.Output.{ended_text, vsnprintf_lem}
use rorth_ox.Strings.Format.Safety.{vsnprintf-Safe}

abbrev abc : List ℕ
abc = 97 ∷ 98 ∷ 99 ∷ 0 ∷ []

abbrev buffer : List ℕ
buffer = 120 ∷ 121 ∷ 0 ∷ 1 ∷ 2 ∷ 3 ∷ 4 ∷ 5 ∷ []

strnlen_lem_example : strnlen abc 2 ≡ length (text 2 abc)
strnlen_lem_example = strnlen_lem abc 2

-- "d%02d", 7
abbrev day_format : List ℕ
day_format = b'd' ∷ b'%' ∷ b'0' ∷ b'2' ∷ b'd' ∷ []

abbrev day_args : List Arg
day_args = word 7 ∷ []

day_digits : Signed 2 7 (b'0' ∷ b'7' ∷ [])
day_digits = natural (b'7' ∷ []) (omega arith) (one_digit 7 (omega arith))

day_Expands : Expands day_format day_args (b'd' ∷ (b'0' ∷ b'7' ∷ []) ++ [])
day_Expands =
    itself b'd' (b'%' ∷ b'0' ∷ b'2' ∷ b'd' ∷ []) day_args ((b'0' ∷ b'7' ∷ []) ++ []) (omega arith)
      (omega arith) (two_digits 7 (b'0' ∷ b'7' ∷ []) [] [] [] day_digits (ended []))

vsnprintf_lem_example :
    ((vsnprintf buffer 3 day_format day_args).0 ≡ chars 3)
    × ((j : ℕ)
        → get_or (vsnprintf buffer 3 day_format day_args).1 j 0
          ≡ ended_text 3 (b'd' ∷ (b'0' ∷ b'7' ∷ []) ++ []) (get_or buffer j 0) j)
vsnprintf_lem_example =
    vsnprintf_lem buffer 3 day_format day_args (b'd' ∷ (b'0' ∷ b'7' ∷ []) ++ []) day_Expands
      (omega arith) (omega arith)

vsnprintf-Safe_example :
    (strlen (vsnprintf buffer 3 day_format day_args).1 < 3)
    × ((j : ℕ) → 3 ≤ j → get_or (vsnprintf buffer 3 day_format day_args).1 j 0 ≡ get_or buffer j 0)
vsnprintf-Safe_example = vsnprintf-Safe buffer 3 day_format day_args (omega arith) (omega arith)
