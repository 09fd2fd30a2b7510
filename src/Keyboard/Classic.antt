-- ===== src/Keyboard/Classic.antt =====
-- kernel/keyboard/classic.c: the PS/2 keyboard driver as a state machine over scancode bytes.
pub mod Tables
pub mod Chars
pub mod Sequences
use rorth_ox.Prelude.{
  ℕ, zero, suc, ◌+◌, ◌-◌, ◌%◌, ◌^◌, Bool, true, false, not, ◌&&◌, ◌||◌, Option, none, some, List,
  [], ◌∷◌, ltb, leb, ◌==◌, if◌then◌else◌, bit_and,
}
use Tables.{regular_scancodes, uppercase_scancodes, shift_modified_scancodes, extended_scancodes}

-- The driver's static variables, and the caps lock state of `classic_keyboard`.
pub record Driver : Type 0 where
  pub lshift : Bool
  pub rshift : Bool
  pub capslock : Bool
  pub extended : Bool
  pub pause_bytes_left : ℕ
  pub numlock : Bool
  pub numlock_down : Bool

-- What `classic_keyboard_init` leaves.
unfoldable pub init : Driver
init = record {
  lshift = false;
  rshift = false;
  capslock = false;
  extended = false;
  pause_bytes_left = 0;
  numlock = true;
  numlock_down = false;
}

-- The search loop of the tables: 0 if the scancode is not listed.
unfoldable pub find : List (ℕ × ℕ) → ℕ → ℕ
find [] scancode = 0
find ((s, chr) ∷ rest) scancode =
    if s == 0 then 0 else if s == scancode then chr else find rest scancode

pub shifted : Driver → Bool
shifted d = d.lshift || d.rshift

abbrev table_for : Bool → Bool → List (ℕ × ℕ)
table_for true caps = shift_modified_scancodes
table_for false true = uppercase_scancodes
table_for false false = regular_scancodes

-- `c += 'a' - 'A'` on a `uint8_t`.
abbrev swap_case : Bool → ℕ → ℕ
swap_case both c = if both && leb 65 c && leb c 90 then (c + 32) % 2 ^ 8 else c

-- With shift and caps lock as arguments: all that the function reads of the driver.
unfoldable pub char_for : Bool → Bool → ℕ → ℕ
unfolding find
char_for shift caps scancode = swap_case (shift && caps) (find (table_for shift caps) scancode)

pub scancode_to_char : Driver → ℕ → ℕ
unfolding shifted
scancode_to_char d scancode = char_for (shifted d) d.capslock scancode

unfoldable pub is_keypad_digit : ℕ → Bool
is_keypad_digit s = leb 0x47 s && leb s 0x53 && not (s == 0x4a) && not (s == 0x4e)

-- `scancode & CLASSIC_KEYBOARD_KEY_RELEASED`
unfoldable pub is_release : ℕ → Bool
is_release s = not (bit_and s 0x80 == 0)

-- The key that the handler pushes, if any: the byte behind 0xE0.
pub handle_extended : ℕ → Option ℕ
unfolding is_release find
handle_extended s =
    if is_release s
    then none
    else if find extended_scancodes s == 0
    then none
    else some (find extended_scancodes s)

-- The `switch` of the interrupt handler.
pub switch_state : Driver → ℕ → Driver
switch_state d s =
    if s == 0x45
    then record d {
      numlock = if d.numlock_down then d.numlock else not d.numlock;
      numlock_down = true;
    }
    else if s == 0xc5
    then record d { numlock_down = false }
    else if s == 0x3a
    then record d { capslock = not d.capslock }
    else if s == 0x2a
    then record d { lshift = true }
    else if s == 0xaa
    then record d { lshift = false }
    else if s == 0x36
    then record d { rshift = true }
    else if s == 0xb6
    then record d { rshift = false }
    else d

-- The end of the handler, after the switch: the character of a make code, if it has one.
pub plain_key : Driver → ℕ → Option ℕ
unfolding is_keypad_digit is_release scancode_to_char
plain_key d s =
    if is_release s || (not d.numlock && is_keypad_digit s)
    then none
    else if scancode_to_char d s == 0
    then none
    else some (scancode_to_char d s)

-- `classic_keyboard_handle_interrupt` on the byte that the port gives: the new state, and the key
-- that is handed to `keyboard_push`.
unfoldable pub handle_interrupt : Driver → ℕ → Driver × Option ℕ
unfolding switch_state plain_key handle_extended
handle_interrupt d s =
    if ltb 0 d.pause_bytes_left
    then (record d { pause_bytes_left = d.pause_bytes_left - 1 }, none)
    else if d.extended
    then (record d { extended = false }, handle_extended s)
    else if s == 0xe0
    then (record d { extended = true }, none)
    else if s == 0xe1
    then (record d { pause_bytes_left = 2 }, none)
    else (switch_state d s, plain_key (switch_state d s) s)

abbrev pub cons_key : Option ℕ → List ℕ → List ℕ
cons_key none ks = ks
cons_key (some k) ks = k ∷ ks

-- A sequence of bytes, one to an interrupt, and the keys that they push.
unfoldable pub feed : Driver → List ℕ → Driver × List ℕ
feed d [] = (d, [])
feed d (s ∷ ss) =
    let (d', k) = handle_interrupt d s in let (d'', ks) = feed d' ss in (d'', cons_key k ks)
