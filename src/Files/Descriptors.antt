-- ===== src/Files/Descriptors.antt =====
-- kernel/fs/file.c: the table of descriptors.
use rorth_ox.Prelude.{
  ℕ, zero, suc, ◌+◌, ◌-◌, ◌≤◌, ◌<◌, ◌≡◌, ◌⊎◌, inl, inr, refl, ◌∙◌, ap, Bool, true, false, Option,
  none, some, List, [], ◌∷◌, arith, length, get_or, set, pos, ltb, ◌==◌, get_or-set_self, ◌||◌,
}
use rorth_ox.Status.{Result, ok, err, Errno}
use rorth_ox.Paths.{kzalloc}
use rorth_ox.Files.{
  Files, FileSystem, Descriptor, free_slot, fill_slot, new_descriptor, put_descriptor,
  get_descriptor, max_descriptors, with_heap,
}

-- The slot `k` is free and those before it are not.
abbrev pub FirstFree {ℓ} : {A : Type ℓ} → List (Option A) → ℕ → Type 0
FirstFree [] k = ⊥
FirstFree (none ∷ table) zero = Unit
FirstFree (none ∷ table) (suc k) = ⊥
FirstFree (some d ∷ table) zero = ⊥
FirstFree (some d ∷ table) (suc k) = FirstFree table k

abbrev pub Full {ℓ} : {A : Type ℓ} → List (Option A) → Type 0
Full [] = Unit
Full (none ∷ table) = ⊥
Full (some d ∷ table) = Full table

module _ {ℓ} {A : Type ℓ} where
  free_slot_lem :
      (i : ℕ) (table : List (Option A))
      → (Full table × (free_slot i table ≡ none))
        ⊎ ((k : ℕ) × FirstFree table k × (free_slot i table ≡ some (i + k)))
  unfolding free_slot
  free_slot_lem i [] = inl (tt, refl)
  free_slot_lem i (none ∷ table) = inr (0, tt, ap some (omega arith))
  free_slot_lem i (some d ∷ table) = elim (free_slot_lem (i + 1) table) [
    | inl r ↦ inl r
    | inr r ↦ inr (suc r.0, r.1, r.2 ∙ ap some (omega arith))
  ]

  pub FirstFree-below : (table : List (Option A)) (k : ℕ) → FirstFree table k → k < length table
  FirstFree-below [] k h = absurd h
  FirstFree-below (none ∷ table) zero h = omega arith
  FirstFree-below (none ∷ table) (suc k) h = absurd h
  FirstFree-below (some d ∷ table) zero h = absurd h
  FirstFree-below (some d ∷ table) (suc k) h = omega (arith, FirstFree-below table k h)

  -- Freeing what was put into a free slot gives the table from before.
  pub set-set :
      (table : List (Option A)) (k : ℕ) (d : Option A)
      → FirstFree table k
      → set (set table k d) k none ≡ table
  set-set [] k d h = absurd h
  set-set (none ∷ table) zero d h = refl
  set-set (none ∷ table) (suc k) d h = absurd h
  set-set (some c ∷ table) zero d h = absurd h
  set-set (some c ∷ table) (suc k) d h = ap (λ t. some c ∷ t) (set-set table k d h)

  pub set-overwrites : (table : List A) (k : ℕ) (c d : A) → set (set table k c) k d ≡ set table k d
  set-overwrites [] k c d = refl
  set-overwrites (x ∷ table) zero c d = refl
  set-overwrites (x ∷ table) (suc k) c d = ap (λ t. x ∷ t) (set-overwrites table k c d)

module _ {P W : Type 0} (fs : FileSystem P W) where
  -- How `file_new_descriptor` ends, by the first free slot and the allocation.
  pub data Made (s : Files P W) : Result ℕ × Files P W → Type 0 where
    made :
        (k : ℕ)
        → FirstFree s.table k
        → (kzalloc s.heap).0 ≡ true
        → Made s (ok (k + 1), put_descriptor (k + 1) fs.null (with_heap (kzalloc s.heap).1 s))
    no_memory :
        (kzalloc s.heap).0 ≡ false → Made s (err Errno.enomem, with_heap (kzalloc s.heap).1 s)
    no_slot : Full s.table → Made s (err Errno.enomem, s)

  filled-Made :
      (s : Files P W) (k : ℕ) (given : Bool)
      → FirstFree s.table k
      → (kzalloc s.heap).0 ≡ given
      → Made s (fill_slot fs (some k) (given, (kzalloc s.heap).1) s)
  unfolding fill_slot
  filled-Made s k true free e = made k free e
  filled-Made s k false free e = no_memory e

  pub new_descriptor-Made : (s : Files P W) → Made s (new_descriptor fs s)
  unfolding new_descriptor
  new_descriptor-Made s = elim (free_slot_lem 0 s.table) [
    | inl r ↦ rw (new_descriptor, r.1) (no_slot r.0)
    | inr r ↦
        let e : free_slot 0 s.table ≡ some r.0 = r.2 ∙ ap some (omega arith) in
        rw (new_descriptor, e) (filled-Made s r.0 (kzalloc s.heap).0 r.1 refl)
  ]

  get_or_at :
      (table : List (Option (Descriptor P))) (k : ℕ) (d : Descriptor P)
      → k < length table
      → get_or (set table k (some d)) (k + 1 - 1) none ≡ some d
  get_or_at table k d h =
      ap (λ j. get_or (set table k (some d)) j none) {x = k + 1 - 1} {y = k} (omega arith)
      ∙ get_or-set_self table k (some d) none h

  pub get_descriptor-set :
      (table : List (Option (Descriptor P))) (k : ℕ) (d : Descriptor P)
      → k < length table
      → length table ≤ max_descriptors
      → get_descriptor (set table k (some d)) (pos (k + 1)) ≡ some d
  unfolding get_descriptor
  get_descriptor-set table k d h size =
      let got = get_or_at table k d h in
      let in_range : (k + 1 == 0 || ltb max_descriptors (k + 1)) ≡ false = ground arith in
      rw (get_descriptor, in_range) got
