-- ===== src/Memory.antt =====
-- kernel/memory/memory.c: memset, memcpy and memcmp over a byte memory.
pub mod Laws
mod Tests
use rorth_ox.Prelude.{
  ℕ, zero, suc, ◌+◌, ◌-◌, ◌%◌, ◌^◌, Bool, true, false, ltb, leb, ◌==◌, if◌then◌else◌,
}

-- The byte at each address.
abbrev pub Mem : Type 0
Mem = ℕ → ℕ

abbrev pub store : Mem → ℕ → ℕ → Mem
store m a v x = if x == a then v else m x

-- The loop of `memset` from index `i`, with `left` bytes to go; `(char)c` keeps the low byte.
pub memset_from : ℕ → ℕ → ℕ → ℕ → Mem → Mem
memset_from zero i ptr c m = m
memset_from (suc left) i ptr c m = memset_from left (i + 1) ptr c (store m (ptr + i) (c % 2 ^ 8))

pub memset : Mem → ℕ → ℕ → ℕ → Mem
unfolding memset_from
memset m ptr c size = memset_from size 0 ptr c m

-- `while (len--) *d++ = *s++;` for a `len` that is not negative.
pub memcpy : Mem → ℕ → ℕ → ℕ → Mem
memcpy m dest src zero = m
memcpy m dest src (suc len) = memcpy (store m dest (m src)) (dest + 1) (src + 1) len

pub data Sign : Type 0 where
  less same greater : Sign

-- A `char` of the target is signed.
abbrev pub signed_lt : ℕ → ℕ → Bool
signed_lt a b = ltb ((a + 2 ^ 7) % 2 ^ 8) ((b + 2 ^ 7) % 2 ^ 8)

-- -1, 0 and 1.
pub memcmp : Mem → ℕ → ℕ → ℕ → Sign
memcmp m s1 s2 zero = same
memcmp m s1 s2 (suc count) =
    let rest = memcmp m (s1 + 1) (s2 + 1) count in
    if m s1 == m s2 then rest else if signed_lt (m s1) (m s2) then less else greater
