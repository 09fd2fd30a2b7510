-- ===== src/Keyboard/Classic/Sequences.antt =====
-- Prefixed and held keys: what whole byte sequences do to the driver.
use rorth_ox.Prelude.{
  ℕ, zero, suc, ◌≡◌, refl, ◌∙◌, ap, Bool, true, false, not, none, List, [], ◌∷◌, ◌++◌,
  if◌then◌else◌, arith, replicate,
}
use rorth_ox.Keyboard.Classic.Tables.{
  regular_scancodes, uppercase_scancodes, shift_modified_scancodes,
}
use rorth_ox.Keyboard.Classic.{
  Driver, find, shifted, char_for, scancode_to_char, is_release, is_keypad_digit, handle_extended,
  switch_state, plain_key, handle_interrupt, cons_key, feed,
}

-- No prefix is pending.
pub record IsIdle (d : Driver) : Type 0 where
  pub no_prefix : d.extended ≡ false
  pub no_pause : d.pause_bytes_left ≡ 0

pause_prefix :
    (d : Driver) → IsIdle d → handle_interrupt d 0xe1 ≡ (record d { pause_bytes_left = 2 }, none)
unfolding handle_interrupt
pause_prefix d v = ground (arith, v.no_prefix, v.no_pause)

pause_skip :
    (d : Driver) (s n : ℕ)
    → handle_interrupt (record d { pause_bytes_left = suc n }) s
      ≡ (record d { pause_bytes_left = n }, none)
unfolding handle_interrupt
pause_skip d s n = ground arith

-- The byte 0xE1 of the Pause key drops the two bytes after it, whatever they are, and leaves the
-- driver as it was.
pub feed_pause :
    (d : Driver) (a b : ℕ) (ss : List ℕ) → IsIdle d → feed d (0xe1 ∷ a ∷ b ∷ ss) ≡ feed d ss
unfolding feed
feed_pause d a b ss v =
    rw (pause_prefix d v, pause_skip d a 1, pause_skip d b 0)
      (ap (λ e. feed e ss) (ground (arith, v.no_pause)))

extended_prefix :
    (d : Driver) → IsIdle d → handle_interrupt d 0xe0 ≡ (record d { extended = true }, none)
unfolding handle_interrupt
extended_prefix d v = ground (arith, v.no_prefix, v.no_pause)

extended_byte :
    (d : Driver) (s : ℕ)
    → IsIdle d
    → handle_interrupt (record d { extended = true }) s ≡ (d, handle_extended s)
unfolding handle_interrupt
extended_byte d s v = ground (arith, v.no_prefix, v.no_pause)

-- The byte after the prefix 0xE0 may push a key, and never changes the driver: a fake shift does
-- not touch the modifiers.
pub feed_extended :
    (d : Driver) (s : ℕ) (ss : List ℕ)
    → IsIdle d
    → feed d (0xe0 ∷ s ∷ ss) ≡ ((feed d ss).0, cons_key (handle_extended s) (feed d ss).1)
unfolding feed
feed_extended d s ss v = rw (extended_prefix d v, extended_byte d s v) refl

-- Num Lock has no character in any table.
numlock_char : (shift caps : Bool) → char_for shift caps 0x45 ≡ 0
unfolding char_for find regular_scancodes uppercase_scancodes shift_modified_scancodes
numlock_char false false = refl
numlock_char false true = refl
numlock_char true false = refl
numlock_char true true = refl

numlock_make :
    (d : Driver)
    → IsIdle d
    → handle_interrupt d 0x45 ≡ (
      record d {
        numlock = if d.numlock_down then d.numlock else not d.numlock;
        numlock_down = true;
      },
      none,
    )
unfolding handle_interrupt switch_state plain_key scancode_to_char
numlock_make d v = ground (arith, v.no_prefix, v.no_pause, numlock_char (shifted d) d.capslock)

numlock_break :
    (d : Driver) → IsIdle d → handle_interrupt d 0xc5 ≡ (record d { numlock_down = false }, none)
unfolding handle_interrupt switch_state plain_key is_release
numlock_break d v = ground (arith, v.no_prefix, v.no_pause)

numlock_held :
    (n : ℕ) (d : Driver)
    → IsIdle d
    → d.numlock_down ≡ true
    → feed d (replicate n 0x45 ++ (0xc5 ∷ [])) ≡ (record d { numlock_down = false }, [])
unfolding feed
numlock_held zero d v down = rw (numlock_break d v) refl
numlock_held (suc n) d v down = rw (numlock_make d v) (
    ap (λ e. feed e (replicate n 0x45 ++ (0xc5 ∷ []))) (ground (arith, down))
    ∙ numlock_held n d v down)

-- Pressing Num Lock, holding it for any number of repeats and letting it go flips Num Lock once and
-- pushes no key.
pub feed_numlock :
    (d : Driver) (n : ℕ)
    → IsIdle d
    → d.numlock_down ≡ false
    → feed d (replicate (suc n) 0x45 ++ (0xc5 ∷ []))
      ≡ (record d { numlock = not d.numlock; numlock_down = false }, [])
unfolding feed
feed_numlock d n v up = rw (numlock_make d v) (
    ap (λ e. feed e (replicate n 0x45 ++ (0xc5 ∷ []))) (ground (arith, up))
    ∙ numlock_held n (record d { numlock = not d.numlock; numlock_down = true })
        (record { no_prefix = v.no_prefix; no_pause = v.no_pause }) refl)

-- With Num Lock off the keypad digits and the point push nothing and change nothing.
pub keypad_off :
    (d : Driver) (s : ℕ)
    → IsIdle d
    → d.numlock ≡ false
    → is_keypad_digit s ≡ true
    → handle_interrupt d s ≡ (d, none)
unfolding handle_interrupt switch_state plain_key is_keypad_digit
keypad_off d s v off digit = ground (arith, v.no_prefix, v.no_pause)
