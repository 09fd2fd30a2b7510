-- ===== src/Memory/Tests.antt =====
-- memcpy and memcmp at small ranges.
use rorth_ox.Prelude.{◌≡◌, refl}
use rorth_ox.Memory.{Mem, memcpy, memcmp, same, less, greater}

-- Each address holds its own number.
abbrev ramp : Mem
ramp x = x

copied : memcpy ramp 10 3 2 11 ≡ 4
unfolding memcpy
copied = refl

-- 200 is negative as a signed character.
compared : (memcmp ramp 5 5 3 ≡ same) × (memcmp ramp 5 6 3 ≡ less) × (memcmp ramp 5 200 3 ≡ greater)
unfolding memcmp
compared = (refl, refl, refl)
