-- ===== src/Paths/Names.antt =====
-- kernel/fs/pparser.c: a path and the names of its parts.
use rorth_ox.Prelude.{
  ℕ, zero, suc, ◌+◌, ◌-◌, ◌*◌, ◌≤◌, ◌<◌, ◌≡◌, ◌≢◌, refl, ◌∙◌, ap, sym, subst, true, false, ◌||◌,
  some, List, [], ◌∷◌, ◌++◌, ltb, leb, ◌==◌, arith, length, get_or, length-append, append_assoc,
  append-nil, replicate,
}
use rorth_ox.Strings.{strnlen}
use rorth_ox.Strings.Compare.{strnlen-le, strnlen-three}
use rorth_ox.Paths.{
  max_path, isdigit, Memory, next_outcome, kzalloc, part, copy_name, skip_slash, get_path_part,
  parse_path_part, parse_parts, parse_root, parse, valid_format,
}

-- A byte of a name: neither a slash nor the NUL.
pub data Plain : List ℕ → Type 0 where
  done : Plain []
  byte : (c : ℕ) (name : List ℕ) → c ≢ 0 → c ≢ b'/' → Plain name → Plain (c ∷ name)

-- Names that are not empty, that fit their buffer and that hold no slash.
pub data Names : List (List ℕ) → Type 0 where
  no_names : Names []
  named :
      (c : ℕ) (name : List ℕ) (names : List (List ℕ))
      → Plain (c ∷ name)
      → length (c ∷ name) < max_path
      → Names names
      → Names ((c ∷ name) ∷ names)

-- The names with a slash behind each but the last.
unfoldable pub joined : List (List ℕ) → List ℕ
joined [] = []
joined (name ∷ []) = name
joined (name ∷ next ∷ names) = name ++ (b'/' ∷ joined (next ∷ names))

-- What ends a name: the end of the path or a slash.
data Ends : List ℕ → Type 0 where
  at_end : Ends []
  at_slash : (path : List ℕ) → Ends (b'/' ∷ path)

copy_name-Plain :
    (name : List ℕ) (i : ℕ) (copied rest : List ℕ)
    → Plain name
    → Ends rest
    → i + length name < max_path
    → copy_name i copied (name ++ rest) ≡ (some (copied ++ name), rest)
unfolding copy_name
copy_name-Plain _ i copied _ done at_end h = ap (λ t. (some t, [])) (sym (append-nil copied))
copy_name-Plain _ i copied _ done (at_slash path) h =
    ap (λ t. (some t, b'/' ∷ path)) (sym (append-nil copied))
copy_name-Plain _ i copied rest (byte c name nz ns plain) e h =
    let later = copy_name-Plain name (i + 1) (copied ++ (c ∷ [])) rest plain e (omega arith) in
    let all = append_assoc copied (c ∷ []) name in
    let goes : (c == b'/' || c == 0) ≡ false = ground arith in
    let room : leb (max_path - 1) i ≡ false = ground arith in
    rw (copy_name, goes, room) (later ∙ ap (λ t. (some t, rest)) all)

-- A heap whose next `count` allocations succeed.
abbrev pub granting : ℕ → ℕ → Memory
granting count live = record { outcomes = replicate count true; live = live }

get_path_part-copied :
    (path name rest : List ℕ) (count live : ℕ)
    → (get_or path 0 0 == b'/' || get_or path 0 0 == 0) ≡ false
    → copy_name 0 [] path ≡ (some name, rest)
    → get_path_part path (granting (suc count) live)
      ≡ (part name, skip_slash rest, granting count (live + 1))
unfolding get_path_part kzalloc next_outcome
get_path_part-copied path name rest count live goes copied =
    let taken : (copy_name 0 [] path).0 ≡ some name = ap (λ p. p.0) copied in
    let left : (copy_name 0 [] path).1 ≡ rest = ap (λ p. p.1) copied in
    rw (get_path_part, goes, taken, left) refl

parse_path_part-copied :
    (path name rest : List ℕ) (count live : ℕ)
    → get_path_part path (granting (suc (suc count)) live)
      ≡ (part name, rest, granting (suc count) (live + 1))
    → parse_path_part path (granting (suc (suc count)) live)
      ≡ (part name, rest, granting count (live + 1 + 1))
unfolding parse_path_part kzalloc next_outcome
parse_path_part-copied path name rest count live got =
    let memory : Memory = granting (suc (suc count)) live in
    let taken : (get_path_part path memory).0 ≡ part name = ap (λ p. p.0) got in
    let left : (get_path_part path memory).1 ≡ rest = ap (λ p. p.1) got in
    let later : (get_path_part path memory).2 ≡ granting (suc count) (live + 1) =
      ap (λ p. p.2) got in
    rw (parse_path_part, taken, later, left, later) refl

parse_path_part-named :
    (c : ℕ) (name rest : List ℕ) (count live : ℕ)
    → Plain (c ∷ name)
    → Ends rest
    → length (c ∷ name) < max_path
    → parse_path_part ((c ∷ name) ++ rest) (granting (suc (suc count)) live)
      ≡ (part (c ∷ name), skip_slash rest, granting count (live + 1 + 1))
parse_path_part-named _ _ rest count live (byte c name nz ns plain) e h =
    let path = (c ∷ name) ++ rest in
    let copied = copy_name-Plain (c ∷ name) 0 [] rest (byte c name nz ns plain) e (omega arith) in
    parse_path_part-copied path (c ∷ name) (skip_slash rest) count live
      (get_path_part-copied path (c ∷ name) rest (suc count) live (ground arith) copied)

-- The allocations that a list of names takes, before `spare` others.
abbrev needed : List (List ℕ) → ℕ → ℕ
needed [] spare = spare
needed (name ∷ names) spare = suc (suc (needed names spare))

needed-length : (names : List (List ℕ)) (spare : ℕ) → needed names spare ≡ 2 * length names + spare
needed-length [] spare = omega arith
needed-length (name ∷ names) spare = omega (arith, needed-length names spare)

next_round :
    (rounds : ℕ) (linked : List (List ℕ)) (name path rest : List ℕ) (h h' : Memory)
    → parse_path_part path h ≡ (part name, rest, h')
    → parse_parts (suc rounds) linked path h ≡ parse_parts rounds (linked ++ (name ∷ [])) rest h'
unfolding parse_parts
next_round rounds linked name path rest h h' got =
    let taken : (parse_path_part path h).0 ≡ part name = ap (λ p. p.0) got in
    let left : (parse_path_part path h).1 ≡ rest = ap (λ p. p.1) got in
    let later : (parse_path_part path h).2 ≡ h' = ap (λ p. p.2) got in
    rw (parse_parts, taken, left, later) refl

parse_parts-joined :
    (names : List (List ℕ)) (rounds : ℕ) (linked : List (List ℕ)) (spare live : ℕ)
    → Names names
    → length names < rounds
    → (parse_parts rounds linked (joined names) (granting (needed names spare) live)).0
      ≡ some (linked ++ names)
unfolding parse_parts parse_path_part get_path_part joined skip_slash
parse_parts-joined names zero linked spare live n h = absurd (omega arith)
parse_parts-joined _ (suc rounds) linked spare live no_names h = ap some (sym (append-nil linked))
parse_parts-joined _ (suc rounds) linked spare live (named c name _ plain fits no_names) h =
    let one = parse_path_part-named c name [] spare live plain at_end fits in
    let all : (c ∷ name) ++ [] ≡ c ∷ name = append-nil (c ∷ name) in
    let later =
      parse_parts-joined [] rounds (linked ++ ((c ∷ name) ∷ [])) spare (live + 1 + 1) no_names
        (omega arith) in
    let gone = append-nil (linked ++ ((c ∷ name) ∷ [])) in
    let first : parse_path_part (c ∷ name) (granting (suc (suc spare)) live)
        ≡ (part (c ∷ name), [], granting spare (live + 1 + 1)) =
      subst
        (λ p.
          parse_path_part p (granting (suc (suc spare)) live)
          ≡ (part (c ∷ name), [], granting spare (live + 1 + 1)))
        all one in
    ap (λ r. r.0)
      (next_round rounds linked (c ∷ name) (c ∷ name) [] (granting (suc (suc spare)) live)
        (granting spare (live + 1 + 1)) first)
    ∙ later
    ∙ ap some gone
parse_parts-joined _ (suc rounds) linked spare live
      (named c name _ plain fits (named c' name' names plain' fits' more)) h =
    let next = (c' ∷ name') ∷ names in
    let count = needed next spare in
    let one =
      parse_path_part-named c name (b'/' ∷ joined next) count live plain (at_slash (joined next))
        fits in
    let later =
      parse_parts-joined next rounds (linked ++ ((c ∷ name) ∷ [])) spare (live + 1 + 1)
        (named c' name' names plain' fits' more) (omega arith) in
    ap (λ r. r.0)
      (next_round rounds linked (c ∷ name) ((c ∷ name) ++ (b'/' ∷ joined next)) (joined next)
        (granting (suc (suc count)) live) (granting count (live + 1 + 1)) one)
    ∙ later
    ∙ ap some (append_assoc linked ((c ∷ name) ∷ []) next)

length-joined : (names : List (List ℕ)) → Names names → length names ≤ length (joined names)
unfolding joined
length-joined _ no_names = omega arith
length-joined _ (named c name _ plain fits no_names) = omega arith
length-joined _ (named c name _ plain fits (named c' name' names plain' fits' more)) =
    let later = length-joined ((c' ∷ name') ∷ names) (named c' name' names plain' fits' more) in
    let all = length-append (c ∷ name) (b'/' ∷ joined ((c' ∷ name') ∷ names)) in omega arith

parse_root-joined :
    (drive spare live : ℕ) (names : List (List ℕ))
    → Names names
    → (parse_root drive (joined names) (granting (suc (needed names spare)) live)).0
      ≡ some (record { drive_no = drive; parts = names })
unfolding parse_root kzalloc next_outcome
parse_root-joined drive spare live names n =
    let enough = length-joined names n in
    let parts : (parse_parts (length (joined names) + 1) [] (joined names)
          (granting (needed names spare) (live + 1))).0
        ≡ some names =
      parse_parts-joined names (length (joined names) + 1) [] spare (live + 1) n (omega arith) in
    rw (parse_root, parts) refl

-- A path of at most 108 bytes, printed from a drive digit and names, each of which is not empty and
-- holds no slash and no NUL, parses to that drive and those names, when the heap grants one allocation and
-- two for each name.
pub parse-joined :
    (drive spare live : ℕ) (names : List (List ℕ))
    → drive < 10
    → Names names
    → 3 + length (joined names) ≤ max_path
    → (parse
        ((48 + drive) ∷ b':' ∷ b'/' ∷ joined names)
        (granting (1 + 2 * length names + spare) live)).0
      ≡ some (record { drive_no = drive; parts = names })
unfolding parse valid_format isdigit
parse-joined drive spare live names digit n fits =
    let path = (48 + drive) ∷ b':' ∷ b'/' ∷ joined names in
    let short = strnlen-le path (max_path + 1) in
    let head =
      strnlen-three (48 + drive) b':' b'/' 105 (joined names) (omega arith) (omega arith)
        (omega arith) in
    let inside : ltb max_path (strnlen path (max_path + 1)) ≡ false = ground arith in
    let valid : valid_format path ≡ true = ground arith in
    let count : suc (needed names spare) ≡ 1 + 2 * length names + spare =
      omega (arith, needed-length names spare) in
    let number : drive ≡ 48 + drive - 48 = omega arith in
    let memory : Memory = granting (suc (needed names spare)) live in
    let done : (parse path memory).0 ≡ some (record { drive_no = 48 + drive - 48; parts = names }) =
      rw (parse, inside, valid) (parse_root-joined (48 + drive - 48) spare live names n) in
    subst
      (λ k. (parse path (granting k live)).0 ≡ some (record { drive_no = drive; parts = names }))
      count
      (subst (λ k. (parse path memory).0 ≡ some (record { drive_no = k; parts = names }))
        (sym number) done)
