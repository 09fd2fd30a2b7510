-- ===== src/Keyboard/Tests.antt =====
-- Key sequences by hand, and the theorems at them.
use rorth_ox.Prelude.{
  ℕ, ◌+◌, ◌-◌, ◌%◌, ◌^◌, ◌≡◌, refl, arith, List, [], ◌∷◌, some, length-replicate, replicate,
  get_or-replicate,
}
use rorth_ox.Keyboard.{KeyboardBuffer, push, pop, run, Op, push_key, pop_key, is_full, buffer_index}
use rorth_ox.Keyboard.Queue
use rorth_ox.Keyboard.Fifo.{IsValid, contents, run_refines}
use rorth_ox.Keyboard.Classic.Tables.{
  regular_scancodes, uppercase_scancodes, shift_modified_scancodes, extended_scancodes,
}
use rorth_ox.Keyboard.Classic.{init, feed, handle_interrupt, char_for}

-- A fresh process: an empty buffer, here with counters just below the wrap.
abbrev empty_buffer : KeyboardBuffer
empty_buffer = record { buffer = replicate 1024 0; tail = 2 ^ 32 - 1; head = 2 ^ 32 - 1 }

empty_buffer-IsValid : IsValid empty_buffer
empty_buffer-IsValid = record {
  size = length-replicate {A = ℕ} 1024 0;
  tail_fits = omega arith;
  head_fits = omega arith;
  bounded = omega arith;
  used = λ i p. absurd (omega arith);
  unused = λ i p q. get_or-replicate 1024 ((2 ^ 32 - 1 + i) % 1024) 0;
}

abbrev script : List Op
script = push_key 104 ∷ push_key 0x100 ∷ pop_key ∷ push_key 0 ∷ pop_key ∷ pop_key ∷ []

script_run : (run (some empty_buffer) script).0 ≡ 104 ∷ 0x100 ∷ 0 ∷ []
unfolding run push pop is_full buffer_index
script_run = refl

-- Shift and A, caps lock, A, the up arrow.
typed : (feed init (0x2a ∷ 0x1e ∷ 0xaa ∷ 0x3a ∷ 0x1e ∷ 0xe0 ∷ 0x48 ∷ [])).1 ≡ 65 ∷ 65 ∷ 0x100 ∷ []
unfolding feed handle_interrupt init regular_scancodes uppercase_scancodes shift_modified_scancodes
    extended_scancodes char_for
typed = refl

run_refines_example :
    (k : KeyboardBuffer) × (run (some empty_buffer) script ≡ ((Queue.run [] script).0, some k))
    × IsValid k
    × (contents k ≡ (Queue.run [] script).1)
run_refines_example = run_refines script empty_buffer empty_buffer-IsValid

letter_key : (handle_interrupt init 0x1e).1 ≡ some 97
unfolding handle_interrupt init regular_scancodes char_for
letter_key = refl
