-- ===== src/Paths.antt =====
-- kernel/fs/pparser.c: paths of the form "0:/bin/shell.exe". The bytes of a path are a list; its
-- end, or a byte 0, is the NUL. A linked list of parts is the list of their names.
pub mod Leaks
pub mod Names
mod Tests
use rorth_ox.Prelude.{
  ℕ, zero, suc, ◌+◌, ◌-◌, Bool, true, false, not, ◌&&◌, ◌||◌, Option, none, some, List, [], ◌∷◌,
  ◌++◌, ltb, leb, ◌==◌, if◌then◌else◌, length, get_or,
}
use rorth_ox.Status.{Result, ok, err, Errno}
use rorth_ox.Strings.{strnlen}

-- RORTHOX_MAX_PATH
abbrev pub max_path : ℕ
max_path = 108

-- What the parser sees of the kernel heap: how the next calls of kzalloc end, one after another,
-- and how many allocations are live.
pub record Memory : Type 0 where
  pub outcomes : List Bool
  pub live : ℕ

pub next_outcome : List Bool → ℕ → Bool × Memory
next_outcome [] live = (false, record { outcomes = []; live = live })
next_outcome (false ∷ later) live = (false, record { outcomes = later; live = live })
next_outcome (true ∷ later) live = (true, record { outcomes = later; live = live + 1 })

unfoldable pub kzalloc : Memory → Bool × Memory
unfolding next_outcome
kzalloc h = next_outcome h.outcomes h.live

unfoldable pub kfree : Memory → Memory
kfree h = record { outcomes = h.outcomes; live = h.live - 1 }

pub isdigit : ℕ → Bool
isdigit c = leb 48 c && leb c 57

pub valid_format : List ℕ → Bool
unfolding isdigit
valid_format filename =
    leb 3 (strnlen filename max_path)
    && isdigit (get_or filename 0 0)
    && (get_or filename 1 0 == b':')
    && (get_or filename 2 0 == b'/')

-- What `pathparser_get_path_part` and `pathparser_parse_path_part` return.
pub data Part : Type 0 where
  no_part : Part
  failed : Errno → Part
  part : List ℕ → Part

-- The copying loop at `i`, with the text copied so far; a name that does not fit is none.
pub copy_name : ℕ → List ℕ → List ℕ → Option (List ℕ) × List ℕ
copy_name i copied [] = (some copied, [])
copy_name i copied (c ∷ path) =
    let rest = copy_name (i + 1) (copied ++ (c ∷ [])) path in
    if c == b'/' || c == 0
    then (some copied, c ∷ path)
    else if leb (max_path - 1) i
    then (none, c ∷ path)
    else rest

-- "Skip the forward slash"
pub skip_slash : List ℕ → List ℕ
skip_slash [] = []
skip_slash (c ∷ path) = if c == b'/' then path else c ∷ path

pub get_path_part : List ℕ → Memory → Part × List ℕ × Memory
unfolding kzalloc kfree copy_name skip_slash
get_path_part path h =
    if get_or path 0 0 == b'/' || get_or path 0 0 == 0
    then (no_part, skip_slash path, h)
    else elim (kzalloc h).0 [
      | false ↦ (failed Errno.enomem, path, (kzalloc h).1)
      | true ↦ elim (copy_name 0 [] path).0 [
        | none ↦ (failed Errno.ebadpath, (copy_name 0 [] path).1, kfree (kzalloc h).1)
        | some name ↦ (part name, skip_slash (copy_name 0 [] path).1, (kzalloc h).1)
      ]
    ]

-- A part is two allocations, its name and its node.
pub parse_path_part : List ℕ → Memory → Part × List ℕ × Memory
unfolding get_path_part
parse_path_part path h =
    let got = get_path_part path h in
    elim got.0 [
      | failed e ↦ (failed e, got.1, got.2)
      | no_part ↦ (no_part, got.1, got.2)
      | part name ↦ elim (kzalloc got.2).0 [
        | false ↦ (failed Errno.enomem, got.1, kfree (kzalloc got.2).1)
        | true ↦ (part name, got.1, (kzalloc got.2).1)
      ]
    ]

pub record PathRoot : Type 0 where
  pub drive_no : ℕ
  pub parts : List (List ℕ)

-- `pathparser_free` frees the name and the node of each part.
pub free_parts : List (List ℕ) → Memory → Memory
unfolding kfree
free_parts [] h = h
free_parts (name ∷ parts) h = free_parts parts (kfree (kfree h))

unfoldable pub free_root : PathRoot → Memory → Memory
unfolding free_parts
free_root root h = kfree (free_parts root.parts h)

-- The loop of `pathparser_parse` behind the parts that are linked already; each round takes a byte
-- of the path, so as many rounds as it has bytes, and one, are enough. `none` is `out_free`.
pub parse_parts :
    ℕ → List (List ℕ) → List ℕ → Memory → Option (List (List ℕ)) × List (List ℕ) × Memory
unfolding parse_path_part
parse_parts zero linked path h = (some linked, linked, h)
parse_parts (suc rounds) linked path h = elim (parse_path_part path h).0 [
  | no_part ↦ (some linked, linked, (parse_path_part path h).2)
  | failed e ↦ (none, linked, (parse_path_part path h).2)
  | part name ↦
      parse_parts rounds (linked ++ (name ∷ [])) (parse_path_part path h).1
        (parse_path_part path h).2
]

-- `pathparser_parse` behind the drive: the first part and the loop run the same steps.
pub parse_root : ℕ → List ℕ → Memory → Option PathRoot × Memory
unfolding parse_parts free_root
parse_root drive path h = elim (kzalloc h).0 [
  | false ↦ (none, (kzalloc h).1)
  | true ↦
      let got = parse_parts (length path + 1) [] path (kzalloc h).1 in
      elim got.0 [
        | none ↦ (none, free_root (record { drive_no = drive; parts = got.1 }) got.2)
        | some parts ↦ (some (record { drive_no = drive; parts = parts }), got.2)
      ]
]

abbrev pub after_drive : List ℕ → List ℕ
after_drive (a ∷ b ∷ c ∷ path) = path
after_drive path = []

unfoldable pub parse : List ℕ → Memory → Option PathRoot × Memory
unfolding parse_root valid_format
parse path h =
    if ltb max_path (strnlen path (max_path + 1))
    then (none, h)
    else if valid_format path
    then parse_root (get_or path 0 0 - 48) (after_drive path) h
    else (none, h)
