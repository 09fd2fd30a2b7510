-- ===== src/Paths/Leaks.antt =====
-- kernel/fs/pparser.c: what the parser leaves allocated.
use rorth_ox.Prelude.{
  ℕ, zero, suc, ◌+◌, ◌-◌, ◌*◌, ◌≡◌, inl, inr, refl, ◌∙◌, ap, Bool, true, false, Option, none, some,
  List, [], ◌∷◌, ◌++◌, ltb, arith, length, get_or, Bool-cases, length-append,
}
use rorth_ox.Strings.{strnlen}
use rorth_ox.Paths.{
  max_path, Memory, next_outcome, kzalloc, kfree, Part, no_part, failed, part, copy_name,
  get_path_part, parse_path_part, PathRoot, free_parts, free_root, parse_parts, parse_root,
  after_drive, parse, valid_format,
}

abbrev units : Part → ℕ
units no_part = 0
units (failed e) = 0
units (part name) = 2

abbrev pub grant : Bool → ℕ
grant true = 1
grant false = 0

next_outcome-live :
    (outcomes : List Bool) (live : ℕ)
    → (next_outcome outcomes live).1.live ≡ live + grant (next_outcome outcomes live).0
unfolding next_outcome
next_outcome-live [] live = omega arith
next_outcome-live (false ∷ later) live = omega arith
next_outcome-live (true ∷ later) live = omega arith

pub kzalloc-live : (h : Memory) → (kzalloc h).1.live ≡ h.live + grant (kzalloc h).0
unfolding kzalloc
kzalloc-live h = next_outcome-live h.outcomes h.live

abbrev name_units : Part → ℕ
name_units no_part = 0
name_units (failed e) = 0
name_units (part name) = 1

get_path_part-live :
    (path : List ℕ) (h : Memory) (given : Bool) (name : Option (List ℕ))
    → (kzalloc h).0 ≡ given
    → (copy_name 0 [] path).0 ≡ name
    → (get_path_part path h).2.live ≡ h.live + name_units (get_path_part path h).0
unfolding get_path_part kfree
get_path_part-live path h false name got copied = let a = kzalloc-live h in ground arith
get_path_part-live path h true none got copied = let a = kzalloc-live h in ground arith
get_path_part-live path h true (some name) got copied = let a = kzalloc-live h in ground arith

parse_path_part-live :
    (path : List ℕ) (h : Memory) (given : Bool) (got : Part)
    → (get_path_part path h).0 ≡ got
    → (kzalloc (get_path_part path h).2).0 ≡ given
    → (parse_path_part path h).2.live ≡ h.live + units (parse_path_part path h).0
unfolding parse_path_part kfree
parse_path_part-live path h given no_part got more =
    let a = get_path_part-live path h (kzalloc h).0 (copy_name 0 [] path).0 refl refl in
    ground arith
parse_path_part-live path h given (failed e) got more =
    let a = get_path_part-live path h (kzalloc h).0 (copy_name 0 [] path).0 refl refl in
    ground arith
parse_path_part-live path h false (part name) got more =
    let a = get_path_part-live path h (kzalloc h).0 (copy_name 0 [] path).0 refl refl in
    let b = kzalloc-live (get_path_part path h).2 in ground arith
parse_path_part-live path h true (part name) got more =
    let a = get_path_part-live path h (kzalloc h).0 (copy_name 0 [] path).0 refl refl in
    let b = kzalloc-live (get_path_part path h).2 in ground arith

-- The nodes linked when the loop ends account for what it allocated, also where it fails.
record Linked (before : ℕ) (linked : List (List ℕ))
    (r : Option (List (List ℕ)) × List (List ℕ) × Memory) : Type 0 where
  counted : r.2.live + 2 * length linked ≡ before + 2 * length r.1
  returned : (parts : List (List ℕ)) → r.0 ≡ some parts → r.1 ≡ parts

round-Linked :
    (rounds : ℕ)
    → ((linked : List (List ℕ)) (path : List ℕ) (h : Memory)
        → Linked h.live linked (parse_parts rounds linked path h))
    → (linked : List (List ℕ)) (path : List ℕ) (h : Memory) (got : Part)
    → (parse_path_part path h).0 ≡ got
    → Linked h.live linked (parse_parts (suc rounds) linked path h)
unfolding parse_parts
round-Linked rounds later linked path h no_part got =
    let a =
      parse_path_part-live path h (kzalloc (get_path_part path h).2).0 (get_path_part path h).0 refl
        refl in
    rw (parse_parts, got) (record { counted = ground arith; returned = λ parts e. ground arith })
round-Linked rounds later linked path h (failed why) got =
    let a =
      parse_path_part-live path h (kzalloc (get_path_part path h).2).0 (get_path_part path h).0 refl
        refl in
    rw (parse_parts, got) (record { counted = ground arith; returned = λ parts e. ground arith })
round-Linked rounds later linked path h (part name) got =
    let a =
      parse_path_part-live path h (kzalloc (get_path_part path h).2).0 (get_path_part path h).0 refl
        refl in
    let rest =
      later (linked ++ (name ∷ [])) (parse_path_part path h).1 (parse_path_part path h).2 in
    let more = length-append linked (name ∷ []) in
    let counted' = rest.counted in
    rw (parse_parts, got) (record { counted = ground arith; returned = rest.returned })

parse_parts-Linked :
    (rounds : ℕ) (linked : List (List ℕ)) (path : List ℕ) (h : Memory)
    → Linked h.live linked (parse_parts rounds linked path h)
unfolding parse_parts
parse_parts-Linked zero linked path h = record {
  counted = omega arith;
  returned = λ parts e. ground arith;
}
parse_parts-Linked (suc rounds) linked path h =
    round-Linked rounds (parse_parts-Linked rounds) linked path h (parse_path_part path h).0 refl

pub free_parts-live :
    (parts : List (List ℕ)) (h : Memory) → (free_parts parts h).live ≡ h.live - 2 * length parts
unfolding free_parts kfree
free_parts-live [] h = omega arith
free_parts-live (name ∷ parts) h = free_parts-live parts (kfree (kfree h)) ∙ omega arith

parse_root-live :
    (drive : ℕ) (path : List ℕ) (h : Memory) (given : Bool) (got : Option (List (List ℕ)))
    → (kzalloc h).0 ≡ given
    → (parse_parts (length path + 1) [] path (kzalloc h).1).0 ≡ got
    → ((parse_root drive path h).0 ≡ none → (parse_root drive path h).1.live ≡ h.live)
      × ((root : PathRoot)
          → (parse_root drive path h).0 ≡ some root
          → (parse_root drive path h).1.live ≡ h.live + 1 + 2 * length root.parts)
unfolding parse_root free_root kfree
parse_root-live drive path h false got given e =
    let a = kzalloc-live h in (λ failed. ground arith, λ root fine. ground arith)
parse_root-live drive path h true none given e =
    let a = kzalloc-live h in
    let r = parse_parts-Linked (length path + 1) [] path (kzalloc h).1 in
    let counted' = r.counted in
    let freed =
      free_parts-live (parse_parts (length path + 1) [] path (kzalloc h).1).1
        (parse_parts (length path + 1) [] path (kzalloc h).1).2 in
    (λ failed. ground arith, λ root fine. ground arith)
parse_root-live drive path h true (some parts) given e =
    let a = kzalloc-live h in
    let r = parse_parts-Linked (length path + 1) [] path (kzalloc h).1 in
    let counted' = r.counted in
    let all = ap length (r.returned parts e) in (λ failed. ground arith, λ root fine. ground arith)

-- However the allocations end: a parse that returns NULL leaves nothing allocated, and one that
-- returns a root leaves the root and two allocations for each of its parts.
pub parse-live :
    (path : List ℕ) (h : Memory)
    → ((parse path h).0 ≡ none → (parse path h).1.live ≡ h.live)
      × ((root : PathRoot)
          → (parse path h).0 ≡ some root
          → (parse path h).1.live ≡ h.live + 1 + 2 * length root.parts)
unfolding parse
parse-live path h =
    let drive = get_or path 0 0 - 48 in
    let r =
      parse_root-live drive (after_drive path) h (kzalloc h).0
        (parse_parts (length (after_drive path) + 1) [] (after_drive path) (kzalloc h).1).0 refl
        refl in
    elim (Bool-cases (ltb max_path (strnlen path (max_path + 1)))) [
      | inl long ↦ rw (parse, long) (λ failed. refl, λ root fine. ground arith)
      | inr fits ↦ elim (Bool-cases (valid_format path)) [
        | inl valid ↦ rw (parse, fits, valid) r
        | inr bad ↦ rw (parse, fits, bad) (λ failed. refl, λ root fine. ground arith)
      ]
    ]

-- pathparser_free gives back exactly what the parse that returned the root allocated.
pub free_root-parse :
    (path : List ℕ) (h : Memory) (root : PathRoot)
    → (parse path h).0 ≡ some root
    → (free_root root (parse path h).1).live ≡ h.live
unfolding free_root kfree
free_root-parse path h root e =
    let kept = (parse-live path h).1 root e in
    omega (arith, free_parts-live root.parts (parse path h).1)
