-- ===== src/Processes/Handles.antt =====
-- kernel/task/process.c: the handles of a process over the descriptors of the kernel.
use rorth_ox.Prelude.{
  ℕ, zero, suc, ◌+◌, ◌-◌, ◌≤◌, ◌<◌, ◌≡◌, ◌⊎◌, inl, inr, refl, ◌∙◌, ap, sym, subst, Bool, false,
  ◌||◌, none, some, List, [], ◌∷◌, arith, ltb, ◌==◌, length, get_or, set, ℤ, pos, negsuc,
  get_or-set_self,
}
use rorth_ox.Status.{Result, ok, err, Errno}
use rorth_ox.Files.{Mode, Files, FileSystem, fclose, file_open, max_descriptors}
use rorth_ox.Files.Descriptors.{set-overwrites}
use rorth_ox.Files.Opening.{closed-Undone, Undone}
use rorth_ox.Files.Checked.{file_open-Outcome, Outcome-positive}
use rorth_ox.Processes.{
  free_handle, file_descriptor, settle, open_at, open_file, close_file, max_open,
}

-- Handle `k`, from 0 on, is 0.
abbrev ZeroAt : List ℤ → ℕ → Type 0
ZeroAt [] k = ⊥
ZeroAt (fd ∷ files) zero = fd ≡ pos 0
ZeroAt (fd ∷ files) (suc k) = ZeroAt files k

free_handle-ZeroAt :
    (i : ℕ) (files : List ℤ)
    → (free_handle i files ≡ none)
      ⊎ ((k : ℕ) × ZeroAt files k × (free_handle i files ≡ some (i + k)))
unfolding free_handle
free_handle-ZeroAt i [] = inl refl
free_handle-ZeroAt i (pos zero ∷ files) = inr (0, refl, ap some (omega arith))
free_handle-ZeroAt i (pos (suc fd) ∷ files) = elim (free_handle-ZeroAt (i + 1) files) [
  | inl e ↦ inl e
  | inr r ↦ inr (suc r.0, r.1, r.2 ∙ ap some (omega arith))
]
free_handle-ZeroAt i (negsuc n ∷ files) = elim (free_handle-ZeroAt (i + 1) files) [
  | inl e ↦ inl e
  | inr r ↦ inr (suc r.0, r.1, r.2 ∙ ap some (omega arith))
]

ZeroAt-below : (files : List ℤ) (k : ℕ) → ZeroAt files k → k < length files
ZeroAt-below [] k h = absurd h
ZeroAt-below (fd ∷ files) zero h = omega arith
ZeroAt-below (fd ∷ files) (suc k) h = omega (arith, ZeroAt-below files k h)

ZeroAt-set : (files : List ℤ) (k : ℕ) → ZeroAt files k → set files k (pos 0) ≡ files
ZeroAt-set [] k h = absurd h
ZeroAt-set (fd ∷ files) zero h = ap (λ x. x ∷ files) (sym h)
ZeroAt-set (fd ∷ files) (suc k) h = ap (λ fs. fd ∷ fs) (ZeroAt-set files k h)

-- A published handle names its descriptor.
file_descriptor-set :
    (files : List ℤ) (k fd : ℕ)
    → k < length files
    → length files ≤ max_open
    → 1 ≤ fd
    → file_descriptor (set files k (pos fd)) (pos (k + 1)) ≡ ok fd
unfolding file_descriptor
file_descriptor-set files k fd h size some_fd =
    let in_range : (k + 1 == 0 || ltb max_open (k + 1)) ≡ false = ground arith in
    let at : get_or (set files k (pos fd)) (k + 1 - 1) (pos 0) ≡ pos fd =
      ap (λ j. get_or (set files k (pos fd)) j (pos 0)) {x = k + 1 - 1} {y = k} (omega arith)
      ∙ get_or-set_self files k (pos fd) (pos 0) h in
    let nz : (fd == 0) ≡ false = ground arith in rw (file_descriptor, in_range, at, nz) refl

module _ {P W : Type 0} (fs : FileSystem P W) where
  settle_ok :
      (i h : ℕ) (files : List ℤ) (r : Result ℕ × Files P W)
      → (settle fs i files r).0 ≡ ok h
      → (fd : ℕ) × (r.0 ≡ ok fd)
        × (h ≡ i + 1)
        × (settle fs i files r ≡ (ok (i + 1), set files i (pos fd), r.1))
  unfolding settle
  settle_ok i h files (err e, s) e' = absurd (cc)
  settle_ok i h files (ok fd, s) e' = (fd, refl, cc, refl)

  settle_failed :
      (i : ℕ) (e : Errno) (files : List ℤ) (r : Result ℕ × Files P W)
      → (settle fs i files r).0 ≡ err e
      → (settle fs i files r).1 ≡ set files i (pos 0)
  unfolding settle
  settle_failed i e files (err e', s) h = refl
  settle_failed i e files (ok fd, s) h = absurd (cc)

  abbrev found : ℕ → Bool → List ℕ → Mode → ℕ → List ℤ → Files P W → Result ℕ × List ℤ × Files P W
  found k mounted path mode stat files s =
      settle fs k (set files k (negsuc 0)) (file_open fs mounted path mode stat s)

  open_file-cases :
      (mounted : Bool) (path : List ℕ) (mode : Mode) (stat : ℕ) (files : List ℤ) (s : Files P W)
      → (open_file fs mounted path mode stat files s ≡ (err Errno.emfile, files, s))
        ⊎ ((k : ℕ) × ZeroAt files k
            × (open_file fs mounted path mode stat files s
                ≡ found k mounted path mode stat files s))
  unfolding open_file open_at
  open_file-cases mounted path mode stat files s = elim (free_handle-ZeroAt 0 files) [
    | inl e ↦ inl (rw (open_file, e) refl)
    | inr r ↦
        let e : free_handle 0 files ≡ some r.0 = r.2 ∙ ap some (omega arith) in
        inr (r.0, r.1, rw (open_file, e) refl)
  ]

  -- A process_open_file that fails leaves the handles as they were.
  pub open_file_failed :
      (mounted : Bool) (path : List ℕ) (mode : Mode) (stat : ℕ) (files : List ℤ) (s : Files P W)
      (e : Errno)
      → (open_file fs mounted path mode stat files s).0 ≡ err e
      → (open_file fs mounted path mode stat files s).1 ≡ files
  open_file_failed mounted path mode stat files s e h =
      elim (open_file-cases mounted path mode stat files s) [
        | inl a ↦ ap (λ x. x.1) a
        | inr r ↦
            ap (λ x. x.1) r.2
            ∙ settle_failed r.0 e (set files r.0 (negsuc 0)) (file_open fs mounted path mode stat s)
                (sym (ap (λ x. x.0) r.2) ∙ h)
            ∙ set-overwrites files r.0 (negsuc 0) (pos 0)
            ∙ ZeroAt-set files r.0 r.1
      ]

  closed_handle :
      (files files' : List ℤ) (k fd : ℕ) (s : Files P W)
      → file_descriptor files' (pos (k + 1)) ≡ ok fd
      → close_file fs (pos (k + 1)) files' s
        ≡ ((fclose fs (pos fd) s).0, set files' (k + 1 - 1) (pos 0), (fclose fs (pos fd) s).1)
  unfolding close_file
  closed_handle files files' k fd s e = rw (close_file, e) refl

  -- What a close after an open leaves, beside the answer 0.
  abbrev pub Restored : List ℤ → Files P W → Result ℕ × List ℤ × Files P W → Type 0
  Restored files s r =
      (r.0 ≡ ok 0) × (r.1 ≡ files) × (r.2.table ≡ s.table) × (r.2.heap.live ≡ s.heap.live)

  settled-Restored :
      (files : List ℤ) (k fd : ℕ) (s : Files P W) (r : Result ℕ × Files P W)
      → ZeroAt files k
      → length files ≤ max_open
      → 1 ≤ fd
      → Undone fs s (fclose fs (pos fd) r.1)
      → Restored files s (close_file fs (pos (k + 1)) (set (set files k (negsuc 0)) k (pos fd)) r.1)
  settled-Restored files k fd s r zero_at size some_fd undone_all =
      let published = set-overwrites files k (negsuc 0) (pos fd) in
      let named : file_descriptor (set (set files k (negsuc 0)) k (pos fd)) (pos (k + 1)) ≡ ok fd =
        ap (λ fs. file_descriptor fs (pos (k + 1))) published
        ∙ file_descriptor-set files k fd (ZeroAt-below files k zero_at) size some_fd in
      let cleared : set (set (set files k (negsuc 0)) k (pos fd)) (k + 1 - 1) (pos 0) ≡ files =
        ap (λ j. set (set (set files k (negsuc 0)) k (pos fd)) j (pos 0)) {x = k + 1 - 1} {y = k}
          (omega arith)
        ∙ ap (λ t. set t k (pos 0)) published
        ∙ set-overwrites files k (pos fd) (pos 0)
        ∙ ZeroAt-set files k zero_at in
      subst (Restored files s) (sym (closed_handle files _ k fd r.1 named))
        (undone_all.0, cleared, undone_all.1, undone_all.2)

  -- For a process of at most 16 handles, over a table of at most 512 descriptors and a file system
  -- that does not refuse a close: the close of the handle that an open returned succeeds, and the
  -- handles, the table of descriptors and the number of allocations are as they were.
  pub close_file-open_file :
      (mounted : Bool) (path : List ℕ) (mode : Mode) (stat : ℕ) (files : List ℤ) (s : Files P W)
      (h : ℕ)
      → length files ≤ max_open
      → length s.table ≤ max_descriptors
      → ((w : W) (p : P) → (fs.fs_close w p).0 ≡ ok 0)
      → (open_file fs mounted path mode stat files s).0 ≡ ok h
      → Restored files s (
          close_file fs
            (pos h)
            (open_file fs mounted path mode stat files s).1
            (open_file fs mounted path mode stat files s).2)
  close_file-open_file mounted path mode stat files s h size table closes e =
      elim (open_file-cases mounted path mode stat files s) [
        | inl a ↦ absurd (let b = sym (ap (λ x. x.0) a) ∙ e in cc)
        | inr r ↦
            let opening = file_open fs mounted path mode stat s in
            let w =
              settle_ok r.0 h (set files r.0 (negsuc 0)) opening (sym (ap (λ x. x.0) r.2) ∙ e) in
            let outcome = file_open-Outcome fs mounted path mode stat s w.0 w.1 in
            let all = r.2 ∙ w.3 in
            subst (λ x. Restored files s (close_file fs (pos h) x.1 x.2)) (sym all)
              (subst
                (λ n.
                  Restored files s (
                    close_file fs (pos n) (set (set files r.0 (negsuc 0)) r.0 (pos w.0)) opening.1))
                (sym w.2)
                (settled-Restored files r.0 w.0 s opening r.1 size
                  (Outcome-positive fs s (ok w.0, opening.1) w.0 outcome refl)
                  (closed-Undone fs s (ok w.0, opening.1) w.0 table closes outcome refl)))
      ]
