-- ===== src/Files/Rounds.antt =====
-- kernel/fs/file.c: the rounds of the loops of `file_validate_path`, and what they have seen of a name.
use rorth_ox.Prelude.{
  ℕ, ◌+◌, ◌≤◌, ◌≡◌, ◌≢◌, inl, inr, refl, ◌∙◌, ap, sym, subst, Bool, true, false, not, ◌&&◌, ◌||◌,
  List, [], ◌∷◌, ◌++◌, arith, length, ◌==◌, leb, append_assoc, append-nil, length-append,
  Bool-cases,
}
use rorth_ox.Files.{validate_from, is_bad, bad_characters, bad_end, at_end}
use rorth_ox.Files.Grammar.{
  plain, Plain, Text, IsName, bare, extended, IsPath, last, within, plain-or, validate_from-plain,
}

-- What the loop has seen of a name when its counts are `b`, `e` and `dot`.
pub data Seen (b e : ℕ) : Bool → List ℕ → Type 0 where
  in_base : (base : List ℕ) → Plain base → length base ≡ b → b ≤ 8 → e ≡ 0 → Seen b e false base
  in_ext :
      (base ext : List ℕ)
      → Plain base
      → length base ≡ b
      → 1 ≤ b
      → b ≤ 8
      → Plain ext
      → length ext ≡ e
      → e ≤ 3
      → Seen b e true (base ++ (b'.' ∷ ext))

Plain-append : (xs ys : List ℕ) → Plain xs → Plain ys → Plain (xs ++ ys)
Plain-append [] ys p q = q
Plain-append (x ∷ xs) ys p q = (p.0, Plain-append xs ys p.1 q)

Seen-end :
    (b e : ℕ) (dot : Bool) (done : List ℕ)
    → Seen b e dot done
    → bad_end b e dot ≡ false
    → IsName done
unfolding bad_end
Seen-end b e dot done (in_base base p l h z) ok = bare base p (ground arith) (omega arith)
Seen-end b e dot done (in_ext base ext p l lo hi q k h) ok =
    extended base ext p (omega arith) (omega arith) q (ground arith) (omega arith)

Seen-plain :
    (b e c : ℕ) (done : List ℕ)
    → plain c ≡ true
    → b + 1 ≤ 8
    → Seen b e false done
    → Seen (b + 1) e false (done ++ (c ∷ []))
Seen-plain b e c done ok h (in_base base p l h' z) =
    in_base (base ++ (c ∷ [])) (Plain-append base (c ∷ []) p (ok, tt))
      (omega (arith, length-append base (c ∷ []))) h z

Seen-dot :
    (b e : ℕ) (done : List ℕ)
    → (b == 0) ≡ false
    → Seen b e false done
    → Seen b e true (done ++ (b'.' ∷ []))
Seen-dot b e done h (in_base base p l h' z) =
    in_ext base [] p l (ground arith) h' tt (omega arith) (omega arith)

Seen-ext :
    (b e c : ℕ) (done : List ℕ)
    → plain c ≡ true
    → e + 1 ≤ 3
    → Seen b e true done
    → Seen b (e + 1) true (done ++ (c ∷ []))
Seen-ext b e c done ok h (in_ext base ext p l lo hi q k h') =
    subst (λ d. Seen b (e + 1) true d) (sym (append_assoc base (b'.' ∷ ext) (c ∷ [])))
      (in_ext base (ext ++ (c ∷ [])) p l lo hi (Plain-append ext (c ∷ []) q (ok, tt))
        (omega (arith, length-append ext (c ∷ []))) h)

-- How a round of the loops goes on.
data Round (b e : ℕ) (dot : Bool) (path : List ℕ) : ℕ → Type 0 where
  slash :
      bad_end b e dot ≡ false
      → at_end path ≡ false
      → validate_from 0 0 false path ≡ true
      → Round b e dot path b'/'
  dotted :
      dot ≡ false → (b == 0) ≡ false → validate_from b e true path ≡ true → Round b e dot path b'.'
  base_byte :
      (c : ℕ)
      → plain c ≡ true
      → dot ≡ false
      → b + 1 ≤ 8
      → validate_from (b + 1) e false path ≡ true
      → Round b e dot path c
  ext_byte :
      (c : ℕ)
      → plain c ≡ true
      → dot ≡ true
      → e + 1 ≤ 3
      → validate_from b (e + 1) true path ≡ true
      → Round b e dot path c

both : (x y : Bool) → (x && y) ≡ true → (x ≡ true) × (y ≡ true)
both true y h = (refl, h)
both false y h = absurd (cc)

neither : (x y : Bool) → not (x || y) ≡ true → (x ≡ false) × (y ≡ false)
neither false false h = (refl, refl)
neither false true h = absurd (cc)
neither true y h = absurd (cc)

negated : (x : Bool) → not x ≡ true → x ≡ false
negated false h = refl
negated true h = absurd (cc)

at_most : (n m : ℕ) → leb n m ≡ true → n ≤ m
at_most n m h = ground arith

is_byte : (c d : ℕ) → (c == d) ≡ true → d ≡ c
is_byte c d h = ground arith

plain-Round :
    (b e : ℕ) (dot : Bool) (c : ℕ) (path : List ℕ)
    → plain c ≡ true
    → validate_from b e dot (c ∷ path) ≡ true
    → Round b e dot path c
plain-Round b e true c path ok h =
    let r =
      both (leb (e + 1) 3) (validate_from b (e + 1) true path)
        (sym (validate_from-plain b e true c path ok) ∙ h) in
    ext_byte c ok refl (at_most (e + 1) 3 r.0) r.1
plain-Round b e false c path ok h =
    let r =
      both (leb (b + 1) 8) (validate_from (b + 1) e false path)
        (sym (validate_from-plain b e false c path ok) ∙ h) in
    base_byte c ok refl (at_most (b + 1) 8 r.0) r.1

slash-Round :
    (b e : ℕ) (dot : Bool) (path : List ℕ)
    → validate_from b e dot (b'/' ∷ path) ≡ true
    → Round b e dot path b'/'
unfolding validate_from
slash-Round b e dot path h =
    let r = both (not (bad_end b e dot) && not (at_end path)) (validate_from 0 0 false path) h in
    let q = both (not (bad_end b e dot)) (not (at_end path)) r.0 in
    slash (negated _ q.0) (negated _ q.1) r.1

dot-Round :
    (b e : ℕ) (dot : Bool) (path : List ℕ)
    → validate_from b e dot (b'.' ∷ path) ≡ true
    → Round b e dot path b'.'
unfolding validate_from
dot-Round b e dot path h =
    let r = both (not (dot || b == 0)) (validate_from b e true path) h in
    let q = neither dot (b == 0) r.0 in dotted q.0 q.1 r.1

other_byte :
    (b e : ℕ) (dot : Bool) (c : ℕ) (path : List ℕ)
    → c ≢ 0
    → (c == b'/') ≡ false
    → (c == b'.') ≡ false
    → plain c ≡ false
    → validate_from b e dot (c ∷ path) ≡ false
unfolding validate_from
other_byte b e dot c path nonzero ns nd odd =
    let nz : (c == 0) ≡ false = ground arith in
    let refused : (leb c 0x20 || leb 0x7F c || is_bad c bad_characters) ≡ true =
      plain-or c ns nd ∙ ap not odd in
    rw (validate_from, nz, ns, nd, refused) refl

Round-cases :
    (b e : ℕ) (dot : Bool) (c : ℕ) (path : List ℕ)
    → c ≢ 0
    → validate_from b e dot (c ∷ path) ≡ true
    → Round b e dot path c
Round-cases b e dot c path nz h = elim (Bool-cases (c == b'/')) [
  | inl es ↦
      subst (λ x. validate_from b e dot (x ∷ path) ≡ true → Round b e dot path x)
        (is_byte c b'/' es) (slash-Round b e dot path) h
  | inr ns ↦ elim (Bool-cases (c == b'.')) [
    | inl ed ↦
        subst (λ x. validate_from b e dot (x ∷ path) ≡ true → Round b e dot path x)
          (is_byte c b'.' ed) (dot-Round b e dot path) h
    | inr nd ↦ elim (Bool-cases (plain c)) [
      | inl ok ↦ plain-Round b e dot c path ok h
      | inr odd ↦ absurd (let r = other_byte b e dot c path nz ns nd odd in cc)
    ]
  ]
]

after-Round :
    (path : List ℕ)
    → ((b e : ℕ) (dot : Bool) (done : List ℕ)
        → Seen b e dot done
        → validate_from b e dot path ≡ true
        → IsPath (done ++ path))
    → (b e : ℕ) (dot : Bool) (done : List ℕ) (c : ℕ) → Seen b e dot done
    → Round b e dot path c
    → IsPath (done ++ (c ∷ path))
after-Round path next b e dot done c seen (slash ends more ok) =
    within done path (Seen-end b e dot done seen ends)
      (next 0 0 false [] (in_base [] tt refl (omega arith) refl) ok)
after-Round path next b e dot done c seen (dotted plain_so_far some_base ok) =
    subst IsPath (append_assoc done (b'.' ∷ []) path) (
      next b e true _ (Seen-dot b e done some_base (subst (λ d. Seen b e d done) plain_so_far seen))
        ok)
after-Round path next b e dot done x seen (base_byte c fine first room ok) =
    subst IsPath (append_assoc done (c ∷ []) path) (
      next (b + 1) e false _
        (Seen-plain b e c done fine room (subst (λ d. Seen b e d done) first seen)) ok)
after-Round path next b e dot done x seen (ext_byte c fine second room ok) =
    subst IsPath (append_assoc done (c ∷ []) path) (
      next b (e + 1) true _
        (Seen-ext b e c done fine room (subst (λ d. Seen b e d done) second seen)) ok)

-- From a byte of a name on.
pub accepted-IsPath :
    (path : List ℕ)
    → Text path
    → (b e : ℕ) (dot : Bool) (done : List ℕ) → Seen b e dot done
    → validate_from b e dot path ≡ true
    → IsPath (done ++ path)
unfolding validate_from
accepted-IsPath [] nuls b e dot done seen h =
    subst IsPath (sym (append-nil done))
      (last done (Seen-end b e dot done seen (negated (bad_end b e dot) h)))
accepted-IsPath (c ∷ path) nuls b e dot done seen h =
    after-Round path (accepted-IsPath path nuls.1) b e dot done c seen
      (Round-cases b e dot c path nuls.0 h)
