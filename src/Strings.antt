-- ===== src/Strings.antt =====
-- kernel/string/string.c. The bytes at a `char *` are a list; its end, or a byte 0, is the NUL.
pub mod Compare
pub mod Copy
pub mod Numbers
pub mod Format
mod Tests
use rorth_ox.Prelude.{
  ℕ, zero, suc, ◌+◌, ◌-◌, ◌%◌, ◌^◌, Bool, true, false, ◌&&◌, ◌||◌, not, Option, none, some, List,
  [], ◌∷◌, ltb, leb, ◌==◌, if◌then◌else◌, ℤ, pos, sub_ℕ, get_or, set,
}

-- Capital letters of ASCII become small, other bytes stay.
pub tolower : ℕ → ℕ
tolower s1 = if leb 65 s1 && leb s1 90 then s1 + 32 else s1

-- The loop of `strlen` after `i` bytes.
pub strlen_from : ℕ → List ℕ → ℕ
strlen_from i [] = i
strlen_from i (c ∷ s) = if c == 0 then i else strlen_from (i + 1) s

pub strlen : List ℕ → ℕ
unfolding strlen_from
strlen ptr = strlen_from 0 ptr

-- The loop of `strnlen` at index `i` with `left` rounds to go.
pub strnlen_from : ℕ → ℕ → List ℕ → ℕ
strnlen_from zero i s = i
strnlen_from (suc left) i [] = i
strnlen_from (suc left) i (c ∷ s) = if c == 0 then i else strnlen_from left (i + 1) s

unfoldable pub strnlen : List ℕ → ℕ → ℕ
unfolding strnlen_from
strnlen ptr max = strnlen_from max 0 ptr

pub strnlen_terminator_from : ℕ → ℕ → List ℕ → ℕ → ℕ
strnlen_terminator_from zero i s terminator = i
strnlen_terminator_from (suc left) i [] terminator = i
strnlen_terminator_from (suc left) i (c ∷ s) terminator =
    if c == 0 || c == terminator then i else strnlen_terminator_from left (i + 1) s terminator

pub strnlen_terminator : List ℕ → ℕ → ℕ → ℕ
unfolding strnlen_terminator_from
strnlen_terminator str max terminator = strnlen_terminator_from max 0 str terminator

abbrev pub head_or_nul : List ℕ → ℕ
head_or_nul [] = 0
head_or_nul (c ∷ s) = c

abbrev pub tail_or_nil : List ℕ → List ℕ
tail_or_nil [] = []
tail_or_nil (c ∷ s) = s

-- `s1` and `s2` advance together, for `n` bytes at most.
unfoldable pub strncmp : List ℕ → List ℕ → ℕ → ℤ
strncmp s1 s2 zero = pos 0
strncmp s1 s2 (suc n) =
    let u1 = head_or_nul s1 in
    let u2 = head_or_nul s2 in
    let rest = strncmp (tail_or_nil s1) (tail_or_nil s2) n in
    if not (u1 == u2) then sub_ℕ u1 u2 else if u1 == 0 then pos 0 else rest

unfoldable pub istrncmp : List ℕ → List ℕ → ℕ → ℤ
unfolding tolower
istrncmp s1 s2 zero = pos 0
istrncmp s1 s2 (suc n) =
    let u1 = head_or_nul s1 in
    let u2 = head_or_nul s2 in
    let rest = istrncmp (tail_or_nil s1) (tail_or_nil s2) n in
    if not (u1 == u2) && not (tolower u1 == tolower u2)
    then sub_ℕ u1 u2
    else if u1 == 0
    then pos 0
    else rest

-- The loops of `strcpy` and of the second half of `strcat`, writing from index `i` on.
pub strcpy_from : ℕ → List ℕ → List ℕ → List ℕ
strcpy_from i dest [] = set dest i 0
strcpy_from i dest (c ∷ src) =
    if c == 0 then set dest i 0 else strcpy_from (i + 1) (set dest i c) src

pub strcpy : List ℕ → List ℕ → List ℕ
unfolding strcpy_from
strcpy dest src = strcpy_from 0 dest src

pub strcat : List ℕ → List ℕ → List ℕ
unfolding strlen strcpy_from
strcat dest src = strcpy_from (strlen dest) dest src

-- The loop of `strncpy` with `left` bytes below `count - 1` to go.
pub strncpy_from : ℕ → ℕ → List ℕ → List ℕ → List ℕ
strncpy_from zero i dest src = set dest i 0
strncpy_from (suc left) i dest [] = set dest i 0
strncpy_from (suc left) i dest (c ∷ src) =
    if c == 0 then set dest i 0 else strncpy_from left (i + 1) (set dest i c) src

-- For a `count` of 0 the bound `count - 1` is negative, and the loop body does not run either.
pub strncpy : List ℕ → List ℕ → ℕ → List ℕ
unfolding strncpy_from
strncpy dest src count = strncpy_from (count - 1) 0 dest src

-- The first suffix of the haystack that the needle is a prefix of; `none` is NULL.
unfoldable pub strstr : List ℕ → List ℕ → Option (List ℕ)
unfolding strncmp strlen
strstr [] needle = none
strstr (c ∷ haystack) needle =
    let rest = strstr haystack needle in
    if c == 0 then none else elim (strncmp (c ∷ haystack) needle (strlen needle)) [
      | pos zero ↦ some (c ∷ haystack)
      | _ ↦ rest
    ]

unfoldable pub strchr : List ℕ → ℕ → Option (List ℕ)
strchr [] c = none
strchr (x ∷ str) c =
    if x == 0 then none else if x == c % 2 ^ 8 then some (x ∷ str) else strchr str c
