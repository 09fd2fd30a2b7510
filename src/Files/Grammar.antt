-- ===== src/Files/Grammar.antt =====
-- kernel/fs/file.c: the 8.3 names, and that `file_validate_path` takes the paths of them.
use rorth_ox.Prelude.{
  ℕ, ◌+◌, ◌≤◌, ◌≡◌, ◌≢◌, refl, ◌∙◌, ap, sym, Bool, true, false, not, ◌&&◌, ◌||◌, List, [], ◌∷◌,
  ◌++◌, arith, length, if◌then◌else◌, ◌==◌, leb, append_assoc, append-nil,
}
use rorth_ox.Files.{validate_from, is_bad, bad_characters, bad_end, at_end}

-- A byte that may stand in a name, and is not its dot.
abbrev pub plain : ℕ → Bool
plain c =
    leb 0x21 c && leb c 0x7E && not (is_bad c bad_characters) && not (c == b'.') && not (c == b'/')

abbrev pub Plain : List ℕ → Type 0
Plain [] = Unit
Plain (c ∷ name) = (plain c ≡ true) × Plain name

abbrev pub Text : List ℕ → Type 0
Text [] = Unit
Text (c ∷ path) = (c ≢ 0) × Text path

-- An 8.3 name: 1 to 8 bytes, and an extension of 1 to 3 bytes behind a dot, or none.
pub data IsName : List ℕ → Type 0 where
  bare : (base : List ℕ) → Plain base → 1 ≤ length base → length base ≤ 8 → IsName base
  extended :
      (base ext : List ℕ)
      → Plain base
      → 1 ≤ length base
      → length base ≤ 8
      → Plain ext
      → 1 ≤ length ext
      → length ext ≤ 3
      → IsName (base ++ (b'.' ∷ ext))

-- Names with a slash between two of them.
pub data IsPath : List ℕ → Type 0 where
  last : (name : List ℕ) → IsName name → IsPath name
  within : (name path : List ℕ) → IsName name → IsPath path → IsPath (name ++ (b'/' ∷ path))

pub plain-or :
    (c : ℕ)
    → (c == b'/') ≡ false
    → (c == b'.') ≡ false
    → (leb c 0x20 || leb 0x7F c || is_bad c bad_characters) ≡ not (plain c)
plain-or c ns nd = ground arith

pub validate_from-plain :
    (b e : ℕ) (dot : Bool) (c : ℕ) (path : List ℕ)
    → plain c ≡ true
    → validate_from b e dot (c ∷ path) ≡ (
        if dot
        then leb (e + 1) 3 && validate_from b (e + 1) true path
        else leb (b + 1) 8 && validate_from (b + 1) e false path)
unfolding validate_from
validate_from-plain b e dot c path ok =
    let nz : (c == 0) ≡ false = ground arith in
    let ns : (c == b'/') ≡ false = ground arith in
    let nd : (c == b'.') ≡ false = ground arith in
    let fine : (leb c 0x20 || leb 0x7F c || is_bad c bad_characters) ≡ false = ground arith in
    rw (validate_from, nz, ns, nd, fine) refl

run_base :
    (base rest : List ℕ) (b e : ℕ)
    → Plain base
    → b + length base ≤ 8
    → validate_from b e false (base ++ rest) ≡ validate_from (b + length base) e false rest
run_base [] rest b e p h = ap (λ n. validate_from n e false rest) {x = b} {y = b + 0} (omega arith)
run_base (c ∷ base) rest b e p h =
    let room : leb (b + 1) 8 ≡ true = ground arith in
    validate_from-plain b e false c (base ++ rest) p.0
    ∙ ap (λ x. x && validate_from (b + 1) e false (base ++ rest)) room
    ∙ run_base base rest (b + 1) e p.1 (omega arith)
    ∙ ap (λ n. validate_from n e false rest) {x = b + 1 + length base} {y = b + length (c ∷ base)}
        (omega arith)

run_ext :
    (ext rest : List ℕ) (b e : ℕ)
    → Plain ext
    → e + length ext ≤ 3
    → validate_from b e true (ext ++ rest) ≡ validate_from b (e + length ext) true rest
run_ext [] rest b e p h = ap (λ n. validate_from b n true rest) {x = e} {y = e + 0} (omega arith)
run_ext (c ∷ ext) rest b e p h =
    let room : leb (e + 1) 3 ≡ true = ground arith in
    validate_from-plain b e true c (ext ++ rest) p.0
    ∙ ap (λ x. x && validate_from b (e + 1) true (ext ++ rest)) room
    ∙ run_ext ext rest b (e + 1) p.1 (omega arith)
    ∙ ap (λ n. validate_from b n true rest) {x = e + 1 + length ext} {y = e + length (c ∷ ext)}
        (omega arith)

abbrev Ends : List ℕ → Type 0
Ends rest = (b e : ℕ) (dot : Bool) → bad_end b e dot ≡ false → validate_from b e dot rest ≡ true

base_dot :
    (b e : ℕ) (path : List ℕ)
    → 1 ≤ b
    → validate_from b e false (b'.' ∷ path) ≡ validate_from b e true path
unfolding validate_from
base_dot b e path h =
    let some_base : (b == 0) ≡ false = ground arith in rw (validate_from, some_base) refl

accepts-name :
    (name rest : List ℕ) → IsName name → Ends rest → validate_from 0 0 false (name ++ rest) ≡ true
unfolding bad_end
accepts-name name rest (bare base p lo hi) ends =
    run_base base rest 0 0 p (omega arith) ∙ ends (0 + length base) 0 false (ground arith)
accepts-name name rest (extended base ext p lo hi q some_ext short) ends =
    ap (validate_from 0 0 false) (append_assoc base (b'.' ∷ ext) rest)
    ∙ run_base base (b'.' ∷ (ext ++ rest)) 0 0 p (omega arith)
    ∙ base_dot (0 + length base) 0 (ext ++ rest) (omega arith)
    ∙ run_ext ext rest (0 + length base) 0 q (omega arith)
    ∙ ends (0 + length base) (0 + length ext) true (ground arith)

starts : (base rest : List ℕ) → Plain base → 1 ≤ length base → at_end (base ++ rest) ≡ false
unfolding at_end
starts [] rest p h = absurd (omega arith)
starts (c ∷ base) rest p h = let first = p.0 in ground arith

name_starts : (name rest : List ℕ) → IsName name → at_end (name ++ rest) ≡ false
name_starts name rest (bare base p lo hi) = starts base rest p lo
name_starts name rest (extended base ext p lo hi q some_ext short) =
    ap at_end (append_assoc base (b'.' ∷ ext) rest) ∙ starts base ((b'.' ∷ ext) ++ rest) p lo

path_starts : (path : List ℕ) → IsPath path → at_end path ≡ false
path_starts path (last name ok) = ap at_end (sym (append-nil name)) ∙ name_starts name [] ok
path_starts path (within name more ok rest) = name_starts name (b'/' ∷ more) ok

nil-Ends : Ends []
unfolding validate_from
nil-Ends b e dot h = ap not h

slash-Ends :
    (path : List ℕ) → at_end path ≡ false → validate_from 0 0 false path ≡ true → Ends (b'/' ∷ path)
unfolding validate_from
slash-Ends path more ok b e dot h = rw (validate_from, h, more, ok) refl

pub accepts-path : (path : List ℕ) → IsPath path → validate_from 0 0 false path ≡ true
accepts-path path (last name ok) =
    ap (validate_from 0 0 false) (sym (append-nil name)) ∙ accepts-name name [] ok nil-Ends
accepts-path path (within name more ok rest) =
    accepts-name name (b'/' ∷ more) ok
      (slash-Ends more (path_starts more rest) (accepts-path more rest))
