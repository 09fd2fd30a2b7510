-- ===== src/Keyboard.antt =====
-- kernel/keyboard/keyboard.c: the queue of unread keys that each process has.
pub mod Queue
pub mod Fifo
pub mod Classic
mod Tests
use rorth_ox.Prelude.{
  ℕ, zero, suc, ◌+◌, ◌-◌, ◌%◌, ◌^◌, Bool, ◌&&◌, Option, none, some, List, [], ◌∷◌, ltb, leb, ◌==◌,
  if◌then◌else◌, u32, get_or, set,
}

-- RORTHOX_KEYBOARD_BUFFER_SIZE
abbrev pub buffer_size : ℕ
buffer_size = 1024

-- `struct keyboard_buffer`: `tail` and `head` are the 32-bit patterns of the two `int` counters.
pub record KeyboardBuffer : Type 0 where
  pub buffer : List ℕ
  pub tail : ℕ
  pub head : ℕ

pub buffer_index : ℕ → ℕ
buffer_index counter = counter % buffer_size

-- `tail - head`, as the pattern of an `int`.
abbrev pub unread : KeyboardBuffer → ℕ
unread k = u32 (k.tail + 2 ^ 32 - k.head)

-- `tail - head >= RORTHOX_KEYBOARD_BUFFER_SIZE`: the top bit of the difference is its sign.
pub is_full : KeyboardBuffer → Bool
is_full k = leb buffer_size (unread k) && ltb (unread k) (2 ^ 31)

-- `keyboard_push` for the keyboard of the current process, if there is one.
pub push : Option KeyboardBuffer → ℕ → Option KeyboardBuffer
unfolding is_full buffer_index
push none c = none
push (some k) c =
    if c == 0
    then some k
    else if is_full k
    then some k
    else some (record {
      buffer = set k.buffer (buffer_index k.tail) c;
      tail = u32 (k.tail + 1);
      head = k.head;
    })

-- `keyboard_pop` for the keyboard of the current task's process, if there is a task.
pub pop : Option KeyboardBuffer → ℕ × Option KeyboardBuffer
unfolding buffer_index
pop none = (0, none)
pop (some k) =
    let real_index = buffer_index k.head in
    let c = get_or k.buffer real_index 0 in
    if c == 0 then (0, some k) else (
      c,
      some (record { buffer = set k.buffer real_index 0; tail = k.tail; head = u32 (k.head + 1) }),
    )

pub data Op : Type 0 where
  push_key : ℕ → Op
  pop_key : Op

-- What a program reads over a run of interrupts and reads, and the keyboard after them.
pub run : Option KeyboardBuffer → List Op → List ℕ × Option KeyboardBuffer
run k [] = ([], k)
run k (push_key c ∷ ops) = run (push k c) ops
run k (pop_key ∷ ops) = let (c, k') = pop k in let (cs, k'') = run k' ops in (c ∷ cs, k'')
