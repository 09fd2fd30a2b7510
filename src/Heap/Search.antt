-- ===== src/Heap/Search.antt =====
-- heap_get_start_block finds the first run of free blocks that is long enough.
use rorth_ox.Prelude.{
  ℕ, suc, ◌+◌, ◌-◌, ◌≤◌, ◌<◌, ◌≡◌, refl, ◌∙◌, ap, subst, sym, inl, inr, true, false, Option, none,
  some, List, [], ◌∷◌, arith, ◌==◌, Bool-cases, ==_iff, lt_or_le, eq_or_ne, length, get_or,
  take_all,
}
use rorth_ox.Heap.{Heap, entry_type, entry_free, start_or, scan, scan_result, get_start_block}

-- Block `j` exists and is free.
pub record FreeAt (t : List ℕ) (j : ℕ) : Type 0 where
  pub inside : j < length t
  pub unused : entry_type (get_or t j 0) ≡ entry_free

-- The `n` blocks from `s` on are free.
abbrev pub Window : List ℕ → ℕ → ℕ → Type 0
Window t n s = (j : ℕ) → s ≤ j → j < s + n → FreeAt t j

abbrev pub NoneBefore : List ℕ → ℕ → ℕ → Type 0
NoneBefore t n b = (s : ℕ) → s < b → ¬ Window t n s

-- What a first-fit search answers.
abbrev pub FirstFit : List ℕ → ℕ → Option ℕ → Type 0
FirstFit t n none = (s : ℕ) → ¬ Window t n s
FirstFit t n (some s) = Window t n s × NoneBefore t n s

scan-used :
    (n x : ℕ) (es : List ℕ) (i : ℕ) (bs : Option ℕ) (bc : ℕ)
    → (entry_type x == entry_free) ≡ false
    → scan n (x ∷ es) i bs bc ≡ scan n es (i + 1) none 0
unfolding scan
scan-used n x es i bs bc e = rw (e, scan) refl

scan-full :
    (n x : ℕ) (es : List ℕ) (i : ℕ) (bs : Option ℕ) (bc : ℕ)
    → (entry_type x == entry_free) ≡ true
    → (bc + 1 == n) ≡ true
    → scan n (x ∷ es) i bs bc ≡ (some (start_or i bs), bc + 1)
unfolding scan
scan-full n x es i bs bc e f = rw (e, f, scan) refl

scan-more :
    (n x : ℕ) (es : List ℕ) (i : ℕ) (bs : Option ℕ) (bc : ℕ)
    → (entry_type x == entry_free) ≡ true
    → (bc + 1 == n) ≡ false
    → scan n (x ∷ es) i bs bc ≡ scan n es (i + 1) (some (start_or i bs)) (bc + 1)
unfolding scan
scan-more n x es i bs bc e f = rw (e, f, scan) refl

module _ (t : List ℕ) (n : ℕ) (pos : 0 < n) where
  -- Where the loop stands at entry `i`, with `bc` free entries behind it.
  record Scanned (i : ℕ) (b bc : ℕ) : Type 0 where
    start : b + bc ≡ i
    short : bc < n
    behind : (j : ℕ) → b ≤ j → j < i → FreeAt t j
    before : NoneBefore t n b

  none_left : {i b bc : ℕ} → Scanned i b bc → length t ≤ i → (s : ℕ) → ¬ Window t n s
  none_left {i} {b} {bc} v e s w = elim (lt_or_le s b) [
    | inl lt ↦ v.before s lt w
    | inr ge ↦
        let last : FreeAt t (s + n - 1) = w (s + n - 1) (omega arith) (omega arith) in
        absurd (omega (arith, v.start, v.short, last.inside))
  ]

  Scanned-taken : {i b bc : ℕ} → Scanned i b bc → ¬ (FreeAt t i) → Scanned (i + 1) (i + 1) 0
  Scanned-taken {i} {b} {bc} v used = record {
    start = omega arith;
    short = pos;
    behind = λ j p q. absurd (omega arith);
    before = λ s lt w. elim (lt_or_le s b) [
      | inl less ↦ v.before s less w
      | inr ge ↦ used (w i (omega arith) (omega (arith, v.start, v.short)))
    ];
  }

  FreeAt-behind :
      {i b : ℕ}
      → ((j : ℕ) → b ≤ j → j < i → FreeAt t j)
      → FreeAt t i
      → (j : ℕ) → b ≤ j
      → j < i + 1
      → FreeAt t j
  FreeAt-behind {i} {b} v f j p q = elim (eq_or_ne j i) [
    | inl e ↦ rw e f
    | inr ne ↦ v j p (omega arith)
  ]

  -- The loop over the entries from `i` on answers for the whole table.
  scan-FirstFit :
      (es : List ℕ) (i : ℕ) (bs : Option ℕ) (bc : ℕ)
      → i + length es ≡ length t
      → ((k : ℕ) → get_or es k 0 ≡ get_or t (i + k) 0)
      → Scanned i (start_or i bs) bc
      → FirstFit t n (scan_result n (scan n es i bs bc))
  unfolding scan
  scan-FirstFit [] i none bc e same v = none_left v (omega arith)
  scan-FirstFit [] i (some b) bc e same v =
      let short : bc < n = v.short in
      let stuck : (bc == n) ≡ false = ground arith in rw stuck (none_left v (omega arith))
  scan-FirstFit (x ∷ es) i bs bc e same v =
      let here : x ≡ get_or t i 0 = same 0 ∙ ap (λ k. get_or t k 0) (omega arith) in
      let next : (k : ℕ) → get_or es k 0 ≡ get_or t (i + 1 + k) 0 =
        λ k. same (suc k) ∙ ap (λ m. get_or t m 0) (omega arith) in
      elim (Bool-cases (entry_type x == entry_free)) [
        | inl unused ↦
            let free : FreeAt t i = record {
              inside = omega arith;
              unused = rw (← here) ((==_iff _ _).0 unused);
            } in
            elim (Bool-cases (bc + 1 == n)) [
              | inl full ↦
                  subst (λ r. FirstFit t n (scan_result n r))
                    (sym (scan-full n x es i bs bc unused full))
                    (rw full (
                      λ j p q.
                          FreeAt-behind v.behind free j p
                            (omega (arith, (==_iff _ _).0 full, v.start)),
                      v.before,
                    ))
              | inr more ↦
                  subst (λ r. FirstFit t n (scan_result n r))
                    (sym (scan-more n x es i bs bc unused more))
                    (scan-FirstFit es (i + 1) (some (start_or i bs)) (bc + 1) (omega arith) next
                      (record {
                        start = omega (arith, v.start);
                        short = ground (arith, v.short);
                        behind = FreeAt-behind v.behind free;
                        before = v.before;
                      }))
            ]
        | inr used ↦
            subst (λ r. FirstFit t n (scan_result n r)) (sym (scan-used n x es i bs bc used))
              (scan-FirstFit es (i + 1) none 0 (omega arith) next (
                Scanned-taken v (λ f.
                  let yes' : (entry_type x == entry_free) ≡ true =
                    (==_iff (entry_type x) entry_free).1 (rw here f.unused) in
                  cc)))
      ]

-- The search answers with the first run of `n` free blocks, and fails only if there is none.
pub get_start_block-FirstFit :
    (h : Heap) (n : ℕ)
    → 0 < n
    → h.total ≡ length h.entries
    → FirstFit h.entries n (get_start_block h n)
unfolding get_start_block
get_start_block-FirstFit h n pos e = rw (take_all h.total h.entries (omega arith)) (
    scan-FirstFit h.entries n pos h.entries 0 none 0 (omega arith)
      (λ k. ap (λ m. get_or h.entries m 0) (omega arith))
      (record {
        start = omega arith;
        short = pos;
        behind = λ j p q. absurd (omega arith);
        before = λ s p. absurd (omega arith);
      }))
