-- ===== src/Elf/Contents.antt =====
-- kernel/loader/formats/elfloader.c: the bytes in the memory of the segments.
use rorth_ox.Prelude.{
  ℕ, ◌+◌, ◌-◌, ◌%◌, ◌≤◌, ◌<◌, ◌≡◌, inl, inr, refl, ◌∙◌, ap, sym, false, not, ◌||◌, none, some, List,
  [], ◌∷◌, ◌++◌, arith, ◌==◌, length, get_or, take, drop, replicate, Bool-cases, lt_or_le, u32,
  length-append, get_or-append, get_or-take, get_or-drop, get_or-replicate, length-take,
  length-drop, length-replicate, get_or_beyond,
}
use native.Mathlib.Nat.{mod-eq_of_lt}
use rorth_ox.Status.{Result, ok, err}
use rorth_ox.Paging.{page_size}
use rorth_ox.Paths.{Memory, kzalloc}
use rorth_ox.Elf.{
  program_limit, Phdr, phdrs, page_start, page_end, image_size, image, process_pheaders,
  process_loaded, validate_loaded,
}
use rorth_ox.Elf.Layout.{validate_loaded-IsLayout}
use rorth_ox.Elf.Segments.{IsLoaded, IsSegment}

-- The memory of a segment: whole pages, its bytes in the file from its address on, and zeros.
pub record IsImage (file : List ℕ) (p : Phdr) (memory : List ℕ) : Type 0 where
  pub pages : length memory ≡ page_end p - page_start p
  pub before : (i : ℕ) → i < p.p_vaddr % page_size → get_or memory i 0 ≡ 0
  pub from_file :
      (i : ℕ)
      → i < p.p_filesz
      → get_or memory (p.p_vaddr % page_size + i) 0 ≡ get_or file (p.p_offset + i) 0
  pub behind : (i : ℕ) → p.p_filesz ≤ i → get_or memory (p.p_vaddr % page_size + i) 0 ≡ 0

-- A piece of one list between two others.
module _ (xs ys zs : List ℕ) where
  first_bytes : (i : ℕ) → i < length xs → get_or (xs ++ (ys ++ zs)) i 0 ≡ get_or xs i 0
  first_bytes i h = let a = get_or-append xs (ys ++ zs) i 0 in ground arith

  middle_bytes :
      (i : ℕ) → i < length ys → get_or (xs ++ (ys ++ zs)) (length xs + i) 0 ≡ get_or ys i 0
  middle_bytes i h =
      let a = get_or-append xs (ys ++ zs) (length xs + i) 0 in
      let b = get_or-append ys zs i 0 in
      let c : get_or (ys ++ zs) (length xs + i - length xs) 0 ≡ get_or (ys ++ zs) i 0 =
        ap (λ k. get_or (ys ++ zs) k 0) {x = length xs + i - length xs} {y = i} (omega arith) in
      ground arith

  last_bytes :
      (i : ℕ)
      → length ys ≤ i
      → get_or (xs ++ (ys ++ zs)) (length xs + i) 0 ≡ get_or zs (i - length ys) 0
  last_bytes i h =
      let a = get_or-append xs (ys ++ zs) (length xs + i) 0 in
      let b = get_or-append ys zs i 0 in
      let c : get_or (ys ++ zs) (length xs + i - length xs) 0 ≡ get_or (ys ++ zs) i 0 =
        ap (λ k. get_or (ys ++ zs) k 0) {x = length xs + i - length xs} {y = i} (omega arith) in
      ground arith

-- The pages of a segment that does not wrap, from its first page on.
page_sizes :
    (v m : ℕ)
    → v + m ≤ program_limit
    → (v % page_size + m + page_size - 1 - (v % page_size + m + page_size - 1) % page_size
        ≡ v + m + page_size - 1 - (v + m + page_size - 1) % page_size - (v - v % page_size))
      × (v % page_size + m
          ≤ v % page_size + m + page_size - 1 - (v % page_size + m + page_size - 1) % page_size)
page_sizes v m h = (omega arith, omega arith)

image_size-pages :
    (size : ℕ) (p : Phdr)
    → IsSegment size p
    → (image_size p ≡ page_end p - page_start p)
      × (p.p_vaddr % page_size + p.p_memsz ≤ image_size p)
image_size-pages size p s =
    let c = s.covered in
    let b = s.below in
    let sizes = page_sizes p.p_vaddr p.p_memsz (omega arith) in
    let whole : u32 (p.p_vaddr + p.p_memsz) ≡ p.p_vaddr + p.p_memsz = mod-eq_of_lt (omega arith) in
    let up : u32 (u32 (p.p_vaddr + p.p_memsz) + page_size - 1)
        ≡ p.p_vaddr + p.p_memsz + page_size - 1 =
      ap (λ n. u32 (n + page_size - 1)) whole ∙ mod-eq_of_lt (omega arith) in
    let own : u32 (p.p_vaddr % page_size + p.p_memsz + page_size - 1)
        ≡ p.p_vaddr % page_size + p.p_memsz + page_size - 1 =
      mod-eq_of_lt (omega arith) in
    let e : image_size p
        ≡ p.p_vaddr % page_size
          + p.p_memsz
          + page_size
          - 1
          - (p.p_vaddr % page_size + p.p_memsz + page_size - 1) % page_size =
      ap (λ n. n - n % page_size) own in
    let e' : page_end p
        ≡ p.p_vaddr
          + p.p_memsz
          + page_size
          - 1
          - (p.p_vaddr + p.p_memsz + page_size - 1) % page_size =
      ap (λ n. n - n % page_size) up in
    (e ∙ sizes.0 ∙ ap (λ n. n - page_start p) (sym e'), omega (arith, sizes.1, e))

image-IsImage :
    (file : List ℕ) (p : Phdr) → IsSegment (length file) p → IsImage file p (image file p)
unfolding image
image-IsImage file p s =
    let pages' = image_size-pages (length file) p s in
    let whole = pages'.1 in
    let small = s.in_memory in
    let inside = s.in_file in
    let front : List ℕ = replicate (p.p_vaddr % page_size) 0 in
    let content : List ℕ = take p.p_filesz (drop p.p_offset file) in
    let zeros : List ℕ = replicate (image_size p) 0 in
    let front' : length front ≡ p.p_vaddr % page_size =
      length-replicate (p.p_vaddr % page_size) 0 in
    let content' : length content ≡ p.p_filesz =
      length-take p.p_filesz (drop p.p_offset file) ∙ omega (arith, length-drop p.p_offset file) in
    let zeros' : length zeros ≡ image_size p = length-replicate (image_size p) 0 in
    let sum = length-append front (content ++ zeros) in
    let sum' = length-append content zeros in
    record {
      pages = length-take (image_size p) (front ++ (content ++ zeros)) ∙ omega arith ∙ pages'.0;
      before = λ i h.
          (get_or-take (image_size p) (front ++ (content ++ zeros)) i 0 (omega arith)
            ∙ first_bytes front content zeros i (omega arith)
            ∙ get_or-replicate (p.p_vaddr % page_size) i 0);
      from_file = λ i h.
          (get_or-take (image_size p) (front ++ (content ++ zeros)) (p.p_vaddr % page_size + i) 0
              (omega arith)
            ∙ ap (λ k. get_or (front ++ (content ++ zeros)) (k + i) 0) (sym front')
            ∙ middle_bytes front content zeros i (omega arith)
            ∙ get_or-take p.p_filesz (drop p.p_offset file) i 0 h
            ∙ get_or-drop p.p_offset file i 0);
      behind = λ i h. elim (lt_or_le (p.p_vaddr % page_size + i) (image_size p)) [
        | inl low ↦
            get_or-take (image_size p) (front ++ (content ++ zeros)) (p.p_vaddr % page_size + i) 0
              low
            ∙ ap (λ k. get_or (front ++ (content ++ zeros)) (k + i) 0) (sym front')
            ∙ last_bytes front content zeros i (omega arith)
            ∙ get_or-replicate (image_size p) (i - length content) 0
        | inr high ↦
            get_or_beyond (take (image_size p) (front ++ (content ++ zeros)))
              (p.p_vaddr % page_size + i) 0
              (omega (arith, length-take (image_size p) (front ++ (content ++ zeros))))
      ];
    }

process_pheaders_lem :
    (file : List ℕ) (before : List Phdr) (p : Phdr) (after : List Phdr) (h : Memory) (n : ℕ)
    → (process_pheaders file (before ++ (p ∷ after)) h).0 ≡ ok n
    → IsLoaded p
    → get_or (process_pheaders file (before ++ (p ∷ after)) h).1 (length before) none
      ≡ some (image file p)
unfolding process_pheaders
process_pheaders_lem file [] p after h n e l =
    let typed' = l.typed in
    let sized' = l.sized in
    let loaded : (not (p.p_type == 1) || p.p_memsz == 0) ≡ false = ground arith in
    elim (Bool-cases (kzalloc h).0) [
      | inl given ↦ rw (process_pheaders, loaded, given) refl
      | inr refused ↦ absurd (ground arith)
    ]
process_pheaders_lem file (q ∷ before) p after h n e l =
    elim (Bool-cases (not (q.p_type == 1) || q.p_memsz == 0)) [
      | inl out ↦
          rw (process_pheaders, out) (process_pheaders_lem file before p after h n (ground arith) l)
      | inr loaded ↦ elim (Bool-cases (kzalloc h).0) [
        | inl given ↦
            rw (process_pheaders, loaded, given)
              (process_pheaders_lem file before p after (kzalloc h).1 n (ground arith) l)
        | inr refused ↦ absurd (ground arith)
      ]
    ]

loaded_memory :
    (file : List ℕ) (h : Memory) (n : ℕ) (before : List Phdr) (p : Phdr) (after : List Phdr)
    (checked : Result ℕ)
    → validate_loaded file ≡ checked
    → (process_loaded file h).0 ≡ ok n
    → phdrs file ≡ before ++ (p ∷ after)
    → IsLoaded p
    → IsSegment (length file) p
      × (get_or (process_loaded file h).1.segments (length before) none ≡ some (image file p))
unfolding process_loaded
loaded_memory file h n before p after (err why) c e s l = absurd (ground arith)
loaded_memory file h n before p after (ok m) c e s l = elim (Bool-cases (kzalloc h).0) [
  | inl given ↦
      let done : (process_pheaders file (phdrs file) (kzalloc h).1).0 ≡ ok n = ground arith in
      let done' = ap (λ ps. (process_pheaders file ps (kzalloc h).1).0) (sym s) ∙ done in
      rw (process_loaded, c, given, s)
        (
          (validate_loaded-IsLayout file m c).segment before p after s l,
          process_pheaders_lem file before p after (kzalloc h).1 n done' l,
        )
  | inr refused ↦ absurd (ground arith)
]

-- After a load that succeeds, the entry of each segment with memory in the table of segments holds
-- whole pages: the bytes of the segment in the file at its offset in its first page, and zeros in
-- front of them and behind them.
pub process_loaded-IsImage :
    (file : List ℕ) (h : Memory) (n : ℕ) (before : List Phdr) (p : Phdr) (after : List Phdr)
    → (process_loaded file h).0 ≡ ok n
    → phdrs file ≡ before ++ (p ∷ after)
    → IsLoaded p
    → (get_or (process_loaded file h).1.segments (length before) none ≡ some (image file p))
      × IsImage file p (image file p)
process_loaded-IsImage file h n before p after e s l =
    let r = loaded_memory file h n before p after (validate_loaded file) refl e s l in
    (r.1, image-IsImage file p r.0)
