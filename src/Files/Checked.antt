-- ===== src/Files/Checked.antt =====
-- kernel/fs/file.c: `file_open`, which tests a new descriptor with fstat.
use rorth_ox.Prelude.{
  ℕ, ◌+◌, ◌≤◌, ◌≡◌, inl, inr, refl, ◌∙◌, ap, sym, subst, Bool, not, ◌||◌, Option, none, some, List,
  arith, Bool-cases, ℤ, pos,
}
use rorth_ox.Status.{Result, ok, err, Errno}
use rorth_ox.Files.{
  Mode, Files, FileSystem, Descriptor, get_descriptor, fstat, fclose, check_opened, file_open,
  fopen_status, validate_path, is_invalid, mode_string,
}
use rorth_ox.Files.Opening.{Outcome, undone, opened, fopen_status-Outcome}

module _ {P W : Type 0} (fs : FileSystem P W) where
  pub Outcome-positive :
      (s : Files P W) (r : Result ℕ × Files P W) (fd : ℕ) → Outcome s r → r.0 ≡ ok fd → 1 ≤ fd
  Outcome-positive s r fd (undone e s' same even) h = absurd (cc)
  Outcome-positive s r fd (opened k p s' free put one) h = let e : k + 1 ≡ fd = cc in omega arith

  Outcome-moved :
      (s s2 : Files P W) (r : Result ℕ × Files P W) (fd : ℕ)
      → Outcome s r
      → r.0 ≡ ok fd
      → s2.table ≡ r.1.table
      → s2.heap.live ≡ r.1.heap.live
      → Outcome s (ok fd, s2)
  Outcome-moved s s2 r fd (undone e s' same even) h table live = absurd (cc)
  Outcome-moved s s2 r fd (opened k p s' free put one) h table live =
      let e : k + 1 ≡ fd = cc in
      subst (λ n. Outcome s (ok n, s2)) e (opened k p s2 free (table ∙ put) (live ∙ one))

  fstat_keeps :
      (d : Option (Descriptor P)) (fd : ℤ) (stat : ℕ) (s : Files P W)
      → get_descriptor s.table fd ≡ d
      → ((fstat fs fd stat s).1.table ≡ s.table) × ((fstat fs fd stat s).1.heap.live ≡ s.heap.live)
  unfolding fstat
  fstat_keeps none fd stat s e = rw (fstat, e) (refl, refl)
  fstat_keeps (some d) fd stat s e = rw (fstat, e) (refl, refl)

  check_opened-ok :
      (stat : ℕ) (got : Result ℕ) (fd fd' : ℕ) (s : Files P W)
      → (fstat fs (pos fd) stat s).0 ≡ got
      → (check_opened fs stat (ok fd, s)).0 ≡ ok fd'
      → (fd ≡ fd') × ((check_opened fs stat (ok fd, s)).1 ≡ (fstat fs (pos fd) stat s).1)
  unfolding check_opened
  check_opened-ok stat (ok r) fd fd' s e h =
      let a : check_opened fs stat (ok fd, s) ≡ (ok fd, (fstat fs (pos fd) stat s).1) =
        rw (check_opened, e) refl in
      let b : ok fd ≡ ok fd' = sym (ap (λ x. x.0) a) ∙ h in (cc, ap (λ x. x.1) a)
  check_opened-ok stat (err x) fd fd' s e h =
      let a : check_opened fs stat (ok fd, s)
          ≡ (err x, (fclose fs (pos fd) (fstat fs (pos fd) stat s).1).1) =
        rw (check_opened, e) refl in
      let b : err x ≡ ok fd' = sym (ap (λ x. x.0) a) ∙ h in absurd (cc)

  check_opened-Outcome :
      (stat : ℕ) (s : Files P W) (r : Result ℕ × Files P W) (fd : ℕ)
      → Outcome s r
      → (check_opened fs stat r).0 ≡ ok fd
      → Outcome s (ok fd, (check_opened fs stat r).1)
  unfolding check_opened
  check_opened-Outcome stat s (err e, s1) fd o h = absurd (cc)
  check_opened-Outcome stat s (ok fd0, s1) fd o h =
      let c = check_opened-ok stat (fstat fs (pos fd0) stat s1).0 fd0 fd s1 refl h in
      let kept = fstat_keeps (get_descriptor s1.table (pos fd0)) (pos fd0) stat s1 refl in
      Outcome-moved s _ (ok fd0, s1) fd o (ap ok c.0) (ap (λ x. x.table) c.1 ∙ kept.0)
        (ap (λ x. x.heap.live) c.1 ∙ kept.1)

  -- A file_open that succeeds leaves what the open left.
  pub file_open-Outcome :
      (mounted : Bool) (filename : List ℕ) (mode : Mode) (stat : ℕ) (s : Files P W) (fd : ℕ)
      → (file_open fs mounted filename mode stat s).0 ≡ ok fd
      → Outcome s (ok fd, (file_open fs mounted filename mode stat s).1)
  unfolding file_open
  file_open-Outcome mounted filename mode stat s fd h =
      elim (Bool-cases (is_invalid mode || not (validate_path filename))) [
        | inl e ↦ absurd (
            let a : (file_open fs mounted filename mode stat s).0 ≡ err Errno.einvarg =
              rw (file_open, e) refl in
            cc)
        | inr e ↦
            let r = fopen_status fs mounted filename (mode_string mode) s in
            let a : file_open fs mounted filename mode stat s ≡ check_opened fs stat r =
              rw (file_open, e) refl in
            subst (λ x. Outcome s (ok fd, x.1)) (sym a)
              (check_opened-Outcome stat s r fd
                (fopen_status-Outcome fs mounted filename (mode_string mode) s)
                (sym (ap (λ x. x.0) a) ∙ h))
      ]
