-- ===== src/Keyboard/Classic/Chars.antt =====
-- Which key a scancode gives: letters under shift and caps lock, and what is never pushed.
use rorth_ox.Prelude.{
  ℕ, ◌-◌, ◌^◌, ◌≤◌, ◌<◌, ◌≡◌, refl, Bool, true, false, not, ◌&&◌, some, ltb, leb, ◌==◌,
  if◌then◌else◌, passes, table_entry, ==_iff, arith,
}
use rorth_ox.Keyboard.Classic.Tables.{
  regular_scancodes, uppercase_scancodes, shift_modified_scancodes, extended_scancodes,
}
use rorth_ox.Keyboard.Classic.{
  Driver, find, shifted, char_for, scancode_to_char, is_release, handle_extended, switch_state,
  plain_key, handle_interrupt,
}

abbrev pub xor : Bool → Bool → Bool
xor true b = not b
xor false b = b

abbrev pub is_small_letter : ℕ → Bool
is_small_letter c = leb 97 c && leb c 122

-- The character that a key without modifiers stands for, in the case that shift and caps lock ask
-- for; for a key that is no letter caps lock counts for nothing.
abbrev pub cased : Bool → Bool → ℕ → ℕ
cased shift caps s =
    if is_small_letter (char_for false false s)
    then if xor shift caps then char_for false false s - 32 else char_for false false s
    else char_for shift false s

char_table :
    (passes 256 0 (λ s. char_for false false s == cased false false s) ≡ true)
    × (passes 256 0 (λ s. char_for false true s == cased false true s) ≡ true)
    × (passes 256 0 (λ s. char_for true false s == cased true false s) ≡ true)
    × (passes 256 0 (λ s. char_for true true s == cased true true s) ≡ true)
unfolding passes char_for find regular_scancodes uppercase_scancodes shift_modified_scancodes
char_table = (refl, refl, refl, refl)

char_for-cased : (shift caps : Bool) (s : ℕ) → s < 256 → char_for shift caps s ≡ cased shift caps s
char_for-cased false false s h = (==_iff _ _).0 (table_entry 256 _ s char_table.0 h)
char_for-cased false true s h = (==_iff _ _).0 (table_entry 256 _ s char_table.1 h)
char_for-cased true false s h = (==_iff _ _).0 (table_entry 256 _ s char_table.2 h)
char_for-cased true true s h = (==_iff _ _).0 (table_entry 256 _ s char_table.3 h)

-- A letter key gives a capital exactly when one of shift and caps lock is on and not both; on any
-- other key caps lock has no effect.
pub scancode_to_char-cased :
    (d : Driver) (s : ℕ) → s < 256 → scancode_to_char d s ≡ cased (shifted d) d.capslock s
unfolding scancode_to_char
scancode_to_char-cased d s h = char_for-cased (shifted d) d.capslock s h

small_table :
    (passes 256 0 (λ s. ltb (char_for false false s) 256) ≡ true)
    × (passes 256 0 (λ s. ltb (char_for true false s) 256) ≡ true)
    × (passes 256 0 (λ s. ltb (find extended_scancodes s) 65536) ≡ true)
unfolding passes char_for find regular_scancodes shift_modified_scancodes extended_scancodes
small_table = (refl, refl, refl)

release_table : passes 256 0 (λ s. if leb 128 s then is_release s else not (is_release s)) ≡ true
unfolding passes is_release
release_table = refl

pub is_release-high : (s : ℕ) → s < 256 → 128 ≤ s → is_release s ≡ true
is_release-high s h p = ground (arith, table_entry 256 _ s release_table h)

pub is_release-low : (s : ℕ) → s < 128 → is_release s ≡ false
is_release-low s h = ground (arith, table_entry 256 _ s release_table (omega arith))

char_for-lt : (shift caps : Bool) (s : ℕ) → s < 256 → char_for shift caps s < 256
char_for-lt shift caps s h =
    let plain = table_entry 256 _ s small_table.0 h in
    let under_shift = table_entry 256 _ s small_table.1 h in
    rw (char_for-cased shift caps s h) (ground (arith, plain, under_shift))

plain_key-IsKey :
    (d : Driver) (s k : ℕ) → s < 256 → plain_key d s ≡ some k → (0 < k) × (k < 2 ^ 16) × (s < 128)
unfolding plain_key scancode_to_char
plain_key-IsKey d s k h e =
    ground (arith, char_for-lt (shifted d) d.capslock s h, is_release-high s h)

handle_extended-IsKey :
    (s k : ℕ) → s < 256 → handle_extended s ≡ some k → (0 < k) × (k < 2 ^ 16) × (s < 128)
unfolding handle_extended
handle_extended-IsKey s k h e =
    ground (arith, table_entry 256 _ s small_table.2 h, is_release-high s h)

-- A byte that pushes a key is a make code (below 0x80), and the key fits the 16-bit queue and is
-- not 0, which would be read as no key.
pub handle_interrupt-IsKey :
    (d : Driver) (s k : ℕ)
    → s < 256
    → (handle_interrupt d s).1 ≡ some k
    → (0 < k) × (k < 2 ^ 16) × (s < 128)
unfolding handle_interrupt
handle_interrupt-IsKey d s k h e =
    ground (arith, plain_key-IsKey (switch_state d s) s k h, handle_extended-IsKey s k h)
