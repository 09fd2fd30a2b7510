-- ===== src/Files/Opening.antt =====
-- kernel/fs/file.c: what an open and a close do to the table of descriptors and the kernel heap.
use rorth_ox.Prelude.{
  ℕ, ◌+◌, ◌-◌, ◌*◌, ◌≤◌, ◌≡◌, refl, ◌∙◌, ap, subst, Bool, true, false, not, ◌&&◌, Option, none,
  some, List, [], ◌∷◌, arith, length, set, pos, if◌then◌else◌, ◌==◌,
}
use rorth_ox.Status.{Result, ok, err, Errno}
use rorth_ox.Paths.{Memory, kzalloc, kfree, PathRoot, free_parts, free_root, parse}
use rorth_ox.Paths.Leaks.{kzalloc-live, grant, free_parts-live, parse-live}
use rorth_ox.Files.{
  Mode, Files, FileSystem, Descriptor, free_descriptor, put_descriptor, get_descriptor,
  max_descriptors, with_heap, with_store, keep_open, finish_read, finish_write, start_write,
  open_parts, open_root, release_root, open_parsed, fopen_status, close_found, fclose, is_read,
  get_mode_by_string, validate_path,
}
use rorth_ox.Files.Descriptors.{
  FirstFree, FirstFree-below, set-set, set-overwrites, Made, made, no_memory, no_slot,
  new_descriptor-Made, get_descriptor-set,
}

kfree-live : (h : Memory) → (kfree h).live ≡ h.live - 1
unfolding kfree
kfree-live h = refl

free_root-live :
    (root : PathRoot) (h : Memory) → (free_root root h).live ≡ h.live - 2 * length root.parts - 1
unfolding free_root
free_root-live root h =
    kfree-live (free_parts root.parts h) ∙ omega (arith, free_parts-live root.parts h)

module _ {P W : Type 0} where
  -- How an open ends: the table as before and no allocation more, or the first free slot taken by
  -- the descriptor that the index, from 1 on, names.
  pub data Outcome (s : Files P W) : Result ℕ × Files P W → Type 0 where
    undone :
        (e : Errno) (s' : Files P W)
        → s'.table ≡ s.table
        → s'.heap.live ≡ s.heap.live
        → Outcome s (err e, s')
    opened :
        (k : ℕ) (p : P) (s' : Files P W)
        → FirstFree s.table k
        → s'.table ≡ set s.table k (some (record { index = k + 1; private = p }))
        → s'.heap.live ≡ s.heap.live + 1
        → Outcome s (ok (k + 1), s')

module _ {P W : Type 0} (fs : FileSystem P W) where
  got : (h : Memory) (b : Bool) → (kzalloc h).0 ≡ b → (kzalloc h).1.live ≡ h.live + grant b
  got h b e = kzalloc-live h ∙ ap (λ g. h.live + grant g) e

  put_at :
      (table : List (Option (Descriptor P))) (k : ℕ) (c d : Option (Descriptor P))
      → set (set table (k + 1 - 1) c) (k + 1 - 1) d ≡ set table k d
  put_at table k c d =
      set-overwrites table (k + 1 - 1) c d
      ∙ ap (λ j. set table j d) {x = k + 1 - 1} {y = k} (omega arith)

  cleared :
      (table : List (Option (Descriptor P))) (k : ℕ) (d : Option (Descriptor P))
      → FirstFree table k
      → set (set table (k + 1 - 1) d) (k + 1 - 1) none ≡ table
  cleared table k d free =
      ap (λ j. set (set table j d) j none) {x = k + 1 - 1} {y = k} (omega arith)
      ∙ set-set table k d free

  keep_open-Outcome :
      (p : P) (s : Files P W) (r : Result ℕ × Files P W)
      → Made fs s r
      → Outcome s (keep_open fs p r)
  unfolding keep_open
  keep_open-Outcome p s r (made k free e) =
      opened k p _ free (put_at s.table k _ _) (got s.heap true e)
  keep_open-Outcome p s r (no_memory e) = undone _ _ refl (got s.heap false e ∙ omega arith)
  keep_open-Outcome p s r (no_slot full) = undone _ _ refl refl

  with_store-Outcome :
      (w : W) (s : Files P W) (r : Result ℕ × Files P W) → Outcome (with_store w s) r → Outcome s r
  with_store-Outcome w s r (undone e s' same even) = undone e s' same even
  with_store-Outcome w s r (opened k p s' free put more) = opened k p s' free put more

  finish_read-Outcome : (s : Files P W) (r : Result P × W) → Outcome s (finish_read fs r s)
  unfolding finish_read
  finish_read-Outcome s (err e, w) = undone _ _ refl refl
  finish_read-Outcome s (ok p, w) =
      with_store-Outcome w s _
        (keep_open-Outcome p (with_store w s) _ (new_descriptor-Made fs (with_store w s)))

  finish_write-Outcome :
      (s : Files P W) (k : ℕ) (r : Result P × W)
      → FirstFree s.table k
      → (kzalloc s.heap).0 ≡ true
      → Outcome s (
          finish_write fs
            (k + 1)
            r
            (put_descriptor (k + 1) fs.null (with_heap (kzalloc s.heap).1 s)))
  unfolding finish_write free_descriptor
  finish_write-Outcome s k (err e, w) free given =
      undone e _ (cleared s.table k _ free)
        (kfree-live (kzalloc s.heap).1 ∙ omega (arith, got s.heap true given))
  finish_write-Outcome s k (ok p, w) free given =
      opened k p _ free (put_at s.table k _ _) (got s.heap true given)

  start_write-Outcome :
      (s : Files P W) (parts : List (List ℕ)) (mode : Mode) (r : Result ℕ × Files P W)
      → Made fs s r
      → Outcome s (start_write fs r parts mode)
  unfolding start_write
  start_write-Outcome s parts mode r (made k free e) =
      finish_write-Outcome s k (fs.fs_open s.store parts mode) free e
  start_write-Outcome s parts mode r (no_memory e) =
      undone _ _ refl (got s.heap false e ∙ omega arith)
  start_write-Outcome s parts mode r (no_slot full) = undone _ _ refl refl

  open_parts-Outcome :
      (mode : Mode) (parts : List (List ℕ)) (s : Files P W) → Outcome s (open_parts fs mode parts s)
  unfolding open_parts
  open_parts-Outcome Mode.invalid parts s = undone _ _ refl refl
  open_parts-Outcome Mode.read parts s = finish_read-Outcome s (fs.fs_open s.store parts Mode.read)
  open_parts-Outcome Mode.write parts s =
      start_write-Outcome s parts Mode.write _ (new_descriptor-Made fs s)
  open_parts-Outcome Mode.append parts s =
      start_write-Outcome s parts Mode.append _ (new_descriptor-Made fs s)

  if-Outcome :
      (s : Files P W) (b : Bool) (r q : Result ℕ × Files P W)
      → Outcome s r
      → Outcome s q
      → Outcome s (if b then r else q)
  if-Outcome s true r q hr hq = hr
  if-Outcome s false r q hr hq = hq

  open_root-Outcome :
      (mounted : Bool) (mode : Mode) (drive : ℕ) (parts : List (List ℕ)) (s : Files P W)
      → Outcome s (open_root fs mounted mode drive parts s)
  unfolding open_root
  open_root-Outcome mounted mode drive [] s = undone _ _ refl refl
  open_root-Outcome mounted mode drive (name ∷ parts) s =
      if-Outcome s (not (drive == 0)) _ _ (undone _ _ refl refl) (
        if-Outcome s (not mounted) _ _ (undone _ _ refl refl)
          (open_parts-Outcome mode (name ∷ parts) s))

  -- The root is allocated in `h` and not in the heap of `s`.
  release_root-Outcome :
      (root : PathRoot) (h : Memory) (s : Files P W) (r : Result ℕ × Files P W)
      → h.live ≡ s.heap.live + 1 + 2 * length root.parts
      → Outcome (with_heap h s) r
      → Outcome s (release_root root r)
  unfolding release_root
  release_root-Outcome root h s r more (undone e s' same even) =
      undone e _ same (free_root-live root s'.heap ∙ omega arith)
  release_root-Outcome root h s r more (opened k p s' free put one) =
      opened k p _ free put (free_root-live root s'.heap ∙ omega arith)

  open_parsed-Outcome :
      (mounted : Bool) (mode : Mode) (s : Files P W) (got : Option PathRoot × Memory)
      → (got.0 ≡ none → got.1.live ≡ s.heap.live)
      → ((root : PathRoot)
          → got.0 ≡ some root
          → got.1.live ≡ s.heap.live + 1 + 2 * length root.parts)
      → Outcome s (open_parsed fs mounted mode got s)
  unfolding open_parsed
  open_parsed-Outcome mounted mode s (none, h) bare full = undone _ _ refl (bare refl)
  open_parsed-Outcome mounted mode s (some root, h) bare full =
      release_root-Outcome root h s _ (full root refl)
        (open_root-Outcome mounted mode root.drive_no root.parts (with_heap h s))

  -- However the file system and the allocations answer: an open that fails leaves the table of
  -- descriptors as it was and no allocation more, and an open that succeeds takes the first free
  -- slot, returns its number from 1 on, and leaves one allocation more, the descriptor.
  pub fopen_status-Outcome :
      (mounted : Bool) (filename mode_str : List ℕ) (s : Files P W)
      → Outcome s (fopen_status fs mounted filename mode_str s)
  unfolding fopen_status
  fopen_status-Outcome mounted filename mode_str s =
      let parsed = parse-live filename s.heap in
      if-Outcome s (not (is_read (get_mode_by_string mode_str)) && not (validate_path filename)) _ _
        (undone _ _ refl refl)
        (open_parsed-Outcome mounted (get_mode_by_string mode_str) s (parse filename s.heap)
          parsed.0 parsed.1)

  found-closes :
      (d : Descriptor P) (s : Files P W)
      → (fs.fs_close s.store d.private).0 ≡ ok 0
      → close_found fs (some d) s
        ≡ (ok 0, free_descriptor d.index (with_store (fs.fs_close s.store d.private).1 s))
  unfolding close_found
  found-closes d s e = rw (close_found, e) refl

  abbrev pub Undone : Files P W → Result ℕ × Files P W → Type 0
  Undone s r = (r.0 ≡ ok 0) × (r.1.table ≡ s.table) × (r.1.heap.live ≡ s.heap.live)

  opened-Undone :
      (s s' : Files P W) (k : ℕ) (p : P) (w : W)
      → FirstFree s.table k
      → s'.table ≡ set s.table k (some (record { index = k + 1; private = p }))
      → s'.heap.live ≡ s.heap.live + 1
      → Undone s (ok 0, free_descriptor (k + 1) (with_store w s'))
  unfolding free_descriptor
  opened-Undone s s' k p w free put one = (
    refl,
    ap (λ t. set t (k + 1 - 1) none) put
        ∙ ap (λ j. set (set s.table k (some (record { index = k + 1; private = p }))) j none)
            {x = k + 1 - 1} {y = k} (omega arith)
        ∙ set-set s.table k _ free,
    kfree-live s'.heap ∙ omega arith,
  )

  pub closed-Undone :
      (s : Files P W) (r : Result ℕ × Files P W) (fd : ℕ)
      → length s.table ≤ max_descriptors
      → ((w : W) (p : P) → (fs.fs_close w p).0 ≡ ok 0)
      → Outcome s r
      → r.0 ≡ ok fd
      → Undone s (fclose fs (pos fd) r.1)
  unfolding fclose
  closed-Undone s r fd size closes (undone e s' same even) h = absurd (cc)
  closed-Undone s r fd size closes (opened k p s' free put one) h =
      let d : Descriptor P = record { index = k + 1; private = p } in
      let at : k + 1 ≡ fd = cc in
      let found : get_descriptor s'.table (pos (k + 1)) ≡ some d =
        ap (λ t. get_descriptor t (pos (k + 1))) put
        ∙ get_descriptor-set fs s.table k d (FirstFree-below s.table k free) size in
      let w = (fs.fs_close s'.store p).1 in
      let closed = found-closes d s' (closes s'.store p) in
      subst (λ n. Undone s (fclose fs (pos n) s')) at
        (rw (fclose, found, closed) (opened-Undone s s' k p w free put one))

  -- Where the file system does not refuse a close, which file.h asks of it, the close of what an
  -- open returned succeeds, and the table of descriptors and the number of allocations are as they
  -- were before the open.
  pub fclose-fopen_status :
      (mounted : Bool) (filename mode_str : List ℕ) (s : Files P W) (fd : ℕ)
      → length s.table ≤ max_descriptors
      → ((w : W) (p : P) → (fs.fs_close w p).0 ≡ ok 0)
      → (fopen_status fs mounted filename mode_str s).0 ≡ ok fd
      → Undone s (fclose fs (pos fd) (fopen_status fs mounted filename mode_str s).1)
  fclose-fopen_status mounted filename mode_str s fd size closes =
      closed-Undone s (fopen_status fs mounted filename mode_str s) fd size closes
        (fopen_status-Outcome mounted filename mode_str s)
