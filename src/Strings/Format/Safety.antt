-- ===== src/Strings/Format/Safety.antt =====
-- What vsnprintf of kernel/string/string.c leaves alone, whatever the format and the arguments are.
use rorth_ox.Prelude.{
  ℕ, zero, suc, ◌+◌, ◌-◌, ◌≤◌, ◌<◌, ◌≡◌, inl, inr, refl, false, List, [], ◌∷◌, ltb, ◌==◌,
  if◌then◌else◌, arith, length, Bool-cases, get_or, set, length-set, get_or-set_self, get_or-set_ne,
}
use rorth_ox.Strings.{strlen_from, strlen}
use rorth_ox.Strings.Format.{
  Arg, Out, format_putc, puts, Conversion, prints, refused, undefined, next_piece, format_loop,
  terminate, vsnprintf,
}

record Within (size : ℕ) (s : List ℕ) (o : Out) : Type 0 where
  same_length : length o.str ≡ length s
  beyond : (j : ℕ) → size ≤ j + 1 → get_or o.str j 0 ≡ get_or s j 0

module _ (size : ℕ) (s : List ℕ) where
  putc-Within : (o : Out) (c : ℕ) → Within size s o → Within size s (format_putc size o c).1
  unfolding format_putc
  putc-Within o c w =
      let kept = length-set o.str o.count c in
      let same = w.same_length in
      record {
        same_length = ground arith;
        beyond = λ j far.
            (let was = w.beyond j far in
              let other = get_or-set_ne o.str o.count j c 0 in ground arith);
      }

  puts-Within : (cs : List ℕ) (o : Out) → Within size s o → Within size s (puts size o cs).1
  unfolding puts
  puts-Within [] o w = w
  puts-Within (c ∷ cs) o w =
      let w' = putc-Within o c w in
      let rest = puts-Within cs (format_putc size o c).1 w' in
      elim (Bool-cases (format_putc size o c).0) [
        | inl h ↦ rw (puts, h) rest
        | inr h ↦ rw (puts, h) w'
      ]

  -- The loop's body once the next conversion is known.
  next-Within :
      (rounds : ℕ)
      → ((o : Out) (fmt : List ℕ) (args : List Arg)
          → Within size s o
          → Within size s (format_loop rounds size o fmt args).1)
      → (c : ℕ) (o : Out) (fmt : List ℕ) (args : List Arg) → Within size s o
      → (next : Conversion) → next_piece c fmt args ≡ next
      → (c == 0) ≡ false
      → Within size s (format_loop (suc rounds) size o (c ∷ fmt) args).1
  unfolding format_loop
  next-Within rounds later c o fmt args w refused e h = rw (format_loop, h, e) w
  next-Within rounds later c o fmt args w undefined e h = rw (format_loop, h, e) w
  next-Within rounds later c o fmt args w (prints piece fmt' args') e h =
      let w' = puts-Within piece o w in
      let rest = later (puts size o piece).1 fmt' args' w' in
      elim (Bool-cases (puts size o piece).0) [
        | inl taken ↦ rw (format_loop, h, e, taken) rest
        | inr full ↦ rw (format_loop, h, e, full) w'
      ]

  loop-Within :
      (rounds : ℕ) (o : Out) (fmt : List ℕ) (args : List Arg)
      → Within size s o
      → Within size s (format_loop rounds size o fmt args).1
  unfolding format_loop
  loop-Within zero o fmt args w = w
  loop-Within (suc rounds) o [] args w = w
  loop-Within (suc rounds) o (c ∷ fmt) args w = elim (Bool-cases (c == 0)) [
    | inl h ↦ rw (format_loop, h) w
    | inr h ↦ next-Within rounds (loop-Within rounds) c o fmt args w (next_piece c fmt args) refl h
  ]

strlen_from-le : (s : List ℕ) (i j : ℕ) → get_or s j 0 ≡ 0 → strlen_from i s ≤ i + j
unfolding strlen_from
strlen_from-le [] i j e = omega arith
strlen_from-le (c ∷ s) i zero e = ground arith
strlen_from-le (c ∷ s) i (suc j) e = ground (arith, strlen_from-le s (i + 1) j e)

-- For every format and all arguments, also where it refuses the format, vsnprintf with a size of at
-- least one and at most the buffer's leaves a string shorter than the size and the bytes from the
-- size on as they were.
pub vsnprintf-Safe :
    (str : List ℕ) (size : ℕ) (fmt : List ℕ) (args : List Arg)
    → 0 < size
    → size ≤ length str
    → (strlen (vsnprintf str size fmt args).1 < size)
      × ((j : ℕ) → size ≤ j → get_or (vsnprintf str size fmt args).1 j 0 ≡ get_or str j 0)
unfolding vsnprintf terminate strlen
vsnprintf-Safe str size fmt args positive fits =
    let start : Out = record { str = str; count = 0 } in
    let o : Out = (format_loop (length fmt) size start fmt args).1 in
    let w : Within size str o =
      loop-Within size str (length fmt) start fmt args
        (record { same_length = refl; beyond = λ j far. refl }) in
    let same = w.same_length in
    let last = if ltb o.count size then o.count else size - 1 in
    let inside : last < size = ground arith in
    let nul = get_or-set_self o.str last 0 0 (omega arith) in
    let short = strlen_from-le (set o.str last 0) 0 last nul in
    (
      ground arith,
      λ j far.
          (let was = w.beyond j (omega arith) in
            let kept = get_or-set_ne o.str last j 0 0 (omega arith) in ground arith),
    )
