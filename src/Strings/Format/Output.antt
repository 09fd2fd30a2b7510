-- ===== src/Strings/Format/Output.antt =====
-- What vsnprintf leaves at the destination: the text cut to the size, and a NUL behind it.
use rorth_ox.Prelude.{
  ℕ, zero, suc, ◌+◌, ◌-◌, ◌≤◌, ◌<◌, ◌≡◌, ◌≢◌, inl, inr, refl, ap, sym, subst, Bool, true, false,
  not, ◌&&◌, List, [], ◌∷◌, ◌++◌, ltb, ◌==◌, if◌then◌else◌, arith, length, eq_or_ne, lt_or_le,
  Bool-cases, get_or, set, length-set, get_or-set_self, get_or-set_ne, get_or-append, get_or_beyond,
  length-append, append_assoc, append-nil,
}
use rorth_ox.Strings.Format.Rules.{Expands, Runs, over, over_at_nul, round, Expands-Runs}
use rorth_ox.Strings.Format.{
  Arg, Out, int_max, format_putc, puts, prints, next_piece, Returned, chars, format_loop, terminate,
  vsnprintf,
}

-- Byte `j` after the text `t` was printed to a buffer of `size` bytes that held `old`; the last
-- byte is kept for the NUL.
abbrev pub cut : ℕ → List ℕ → ℕ → ℕ → ℕ
cut size t old j = if ltb j (length t) && ltb (j + 1) size then get_or t j 0 else old

-- The same once the NUL is written, behind the text or over the last byte.
abbrev pub ended_text : ℕ → List ℕ → ℕ → ℕ → ℕ
ended_text size t old j =
    if not (size == 0) && j == (if ltb (length t) size then length t else size - 1)
    then 0
    else cut size t old j

record Printed (size : ℕ) (s : List ℕ) (t : List ℕ) (o : Out) : Type 0 where
  counted : o.count ≡ length t
  bytes : (j : ℕ) → get_or o.str j 0 ≡ cut size t (get_or s j 0) j
  same_length : length o.str ≡ length s

module _ (size : ℕ) (s : List ℕ) (fits : size ≤ length s) where
  cut-append :
      (t : List ℕ) (c j : ℕ) (o : Out)
      → Printed size s t o
      → get_or
          (if not (size == 0) && ltb o.count (size - 1) then set o.str o.count c else o.str)
          j
          0
        ≡ cut size (t ++ (c ∷ [])) (get_or s j 0) j
  cut-append t c j o p =
      let long = length-append t (c ∷ []) in
      let item = get_or-append t (c ∷ []) j 0 in
      let was = p.bytes j in
      let n = p.counted in
      let room = p.same_length in
      elim (eq_or_ne o.count j) [
        | inl same ↦
            let last : get_or (c ∷ []) (j - length t) 0 ≡ c =
              ap (λ k. get_or (c ∷ []) k 0) {x = j - length t} {y = 0} (omega arith) in
            elim (lt_or_le o.count (size - 1)) [
              | inl lt ↦
                  let now = get_or-set_self o.str o.count c 0 (omega arith) in
                  let here = ap (λ k. get_or (set o.str o.count c) k 0) same in ground arith
              | inr ge ↦ ground arith
            ]
        | inr other ↦
            let kept = get_or-set_ne o.str o.count j c 0 other in
            let past = get_or_beyond (c ∷ []) (j - length t) 0 in ground arith
      ]

  -- The characters `t` were taken, and none was refused.
  abbrev Wrote : List ℕ → Bool × Out → Type 0
  Wrote t r = (r.0 ≡ true) × Printed size s t r.1

  -- One character more, while the counter has room.
  putc-Printed :
      (t : List ℕ) (c : ℕ) (o : Out)
      → Printed size s t o
      → length t < int_max
      → Wrote (t ++ (c ∷ [])) (format_putc size o c)
  unfolding format_putc
  putc-Printed t c o p h =
      let long = length-append t (c ∷ []) in
      let n = p.counted in
      let room = p.same_length in
      let kept = length-set o.str o.count c in
      let goes : (o.count == int_max) ≡ false = ground arith in
      let at = λ (j : ℕ). cut-append t c j o p in
      elim (Bool-cases (not (size == 0) && ltb o.count (size - 1))) [
        | inl stored ↦ (
          ground arith,
          record {
            counted = ground arith;
            bytes = λ j. (let h' = at j in ground arith);
            same_length = ground arith;
          },
        )
        | inr dropped ↦ (
          ground arith,
          record {
            counted = ground arith;
            bytes = λ j. (let h' = at j in ground arith);
            same_length = ground arith;
          },
        )
      ]

  puts-next :
      (o : Out) (c : ℕ) (cs : List ℕ)
      → (format_putc size o c).0 ≡ true
      → puts size (format_putc size o c).1 cs ≡ puts size o (c ∷ cs)
  unfolding puts
  puts-next o c cs h = ground arith

  puts-Printed :
      (t cs : List ℕ) (o : Out)
      → Printed size s t o
      → length (t ++ cs) ≤ int_max
      → Wrote (t ++ cs) (puts size o cs)
  unfolding puts
  puts-Printed t [] o p h = (refl, subst (λ u. Printed size s u o) (sym (append-nil t)) p)
  puts-Printed t (c ∷ cs) o p h =
      let all = append_assoc t (c ∷ []) cs in
      let more = length-append t (c ∷ cs) in
      let step = putc-Printed t c o p (omega arith) in
      let short : length ((t ++ (c ∷ [])) ++ cs) ≤ int_max =
        subst (λ u. length u ≤ int_max) (sym all) h in
      let rest = puts-Printed (t ++ (c ∷ [])) cs (format_putc size o c).1 step.1 short in
      subst (Wrote (t ++ (c ∷ cs))) (puts-next o c cs step.0)
        (subst (λ u. Wrote u (puts size (format_putc size o c).1 cs)) all rest)

  -- One round of the loop, at a character that prints `piece`.
  format_loop-next :
      (rounds c : ℕ) (fmt fmt' piece : List ℕ) (args args' : List Arg) (o : Out)
      → c ≢ 0
      → next_piece c fmt args ≡ prints piece fmt' args'
      → (puts size o piece).0 ≡ true
      → format_loop rounds size (puts size o piece).1 fmt' args'
        ≡ format_loop (suc rounds) size o (c ∷ fmt) args
  unfolding format_loop
  format_loop-next rounds c fmt fmt' piece args args' o nz what taken = ground arith

  abbrev Finished : List ℕ → Returned × Out → Type 0
  Finished t r = (r.0 ≡ chars (length t)) × Printed size s t r.1

  stops :
      (rounds : ℕ) (t : List ℕ) (o : Out) (args : List Arg)
      → Printed size s t o
      → Finished t (format_loop rounds size o [] args)
  unfolding format_loop
  stops zero t o args p = (ap chars p.counted, p)
  stops (suc rounds) t o args p = (ap chars p.counted, p)

  loop-Finished :
      (fmt : List ℕ) (args : List Arg) (t' : List ℕ)
      → Runs fmt args t'
      → (rounds : ℕ) (t : List ℕ) (o : Out) → length fmt ≤ rounds
      → Printed size s t o
      → length (t ++ t') ≤ int_max
      → Finished (t ++ t') (format_loop rounds size o fmt args)
  unfolding format_loop
  loop-Finished _ _ _ (over args) rounds t o enough p h =
      subst (λ u. Finished u (format_loop rounds size o [] args)) (sym (append-nil t))
        (stops rounds t o args p)
  loop-Finished _ _ _ (over_at_nul fmt args) zero t o enough p h = absurd (omega arith)
  loop-Finished _ _ _ (over_at_nul fmt args) (suc rounds) t o enough p h =
      subst (λ u. Finished u (chars o.count, o)) (sym (append-nil t)) (ap chars p.counted, p)
  loop-Finished _ _ _ (round c fmt fmt' piece t' args args' nz what shorter r) zero t o enough p h =
      absurd (omega arith)
  loop-Finished _ _ _ (round c fmt fmt' piece t' args args' nz what shorter r) (suc rounds) t o
        enough p h =
      let all = append_assoc t piece t' in
      let short : length ((t ++ piece) ++ t') ≤ int_max =
        subst (λ u. length u ≤ int_max) (sym all) h in
      let more = length-append (t ++ piece) t' in
      let step = puts-Printed t piece o p (omega arith) in
      let rest =
        loop-Finished fmt' args' t' r rounds (t ++ piece) (puts size o piece).1 (omega arith) step.1
          short in
      subst (Finished (t ++ (piece ++ t')))
        (format_loop-next rounds c fmt fmt' piece args args' o nz what step.0)
        (subst (λ u. Finished u (format_loop rounds size (puts size o piece).1 fmt' args')) all
          rest)

  terminate-Printed :
      (t : List ℕ) (o : Out) (j : ℕ)
      → Printed size s t o
      → get_or (terminate size o) j 0 ≡ ended_text size t (get_or s j 0) j
  unfolding terminate
  terminate-Printed t o j p =
      let n = p.counted in
      let was = p.bytes j in
      let room = p.same_length in
      let last = if ltb o.count size then o.count else size - 1 in
      elim (eq_or_ne last j) [
        | inl same ↦
            let now = get_or-set_self o.str last 0 0 in
            let here = ap (λ k. get_or (set o.str last 0) k 0) same in ground arith
        | inr other ↦ let kept = get_or-set_ne o.str last j 0 0 other in ground arith
      ]

-- For a format that with its arguments stands for a text whose length fits an int, and a
-- destination of at least `size` bytes: vsnprintf returns the length of the whole text, also where
-- it is cut, and the destination holds the text cut to the size with a NUL behind it; the other
-- bytes stay.
pub vsnprintf_lem :
    (str : List ℕ) (size : ℕ) (fmt : List ℕ) (args : List Arg) (t : List ℕ)
    → Expands fmt args t
    → length t ≤ int_max
    → size ≤ length str
    → ((vsnprintf str size fmt args).0 ≡ chars (length t))
      × ((j : ℕ)
          → get_or (vsnprintf str size fmt args).1 j 0 ≡ ended_text size t (get_or str j 0) j)
unfolding vsnprintf
vsnprintf_lem str size fmt args t e h fits =
    let start : Out = record { str = str; count = 0 } in
    let begun : Printed size str [] start = record {
      counted = refl;
      bytes = λ j. ground arith;
      same_length = refl;
    } in
    let done =
      loop-Finished size str fits fmt args t (Expands-Runs fmt args t e) (length fmt) [] start
        (omega arith) begun h in
    (
      done.0,
      λ j.
          terminate-Printed size str fits t (format_loop (length fmt) size start fmt args).1 j
            done.1,
    )
