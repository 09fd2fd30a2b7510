-- ===== src/Paging/Entries.antt =====
-- paging_set and paging_map of kernel/memory/paging/paging.c against a flat table of pages.
use rorth_ox.Prelude.{
  ℕ, ◌+◌, ◌%◌, ◌^◌, ◌<◌, ◌≡◌, ◌≢◌, inl, inr, refl, ◌∙◌, ap, sym, subst, Bool, true, false, not,
  ◌&&◌, ◌||◌, ◌==◌, if◌then◌else◌, arith, bit_and, bit_or, eq_or_ne, Bool-cases,
}
use rorth_ox.Status.{ok}
use rorth_ox.Paging.{
  page_size, entries_per_table, is_aligned, is_present, access_from_all, page_size_flag, frame,
  Words, put, entry_at, directory_index, table_index, with_user, set_entry, get_entry,
}
use rorth_ox.Paging.Frames.{frame-page, frame-or, bit_and-user}

-- A directory whose entries are present, writeable and not large, over tables that stand apart
-- from one another and from the directory.
pub record Directory (m : Words) (directory : ℕ) : Type 0 where
  pub aligned : directory % page_size ≡ 0
  pub usable : (i : ℕ) → i < entries_per_table → bit_and (m (entry_at directory i)) 3 ≡ 3
  pub small : (i : ℕ) → i < entries_per_table → bit_and (m (entry_at directory i)) 128 ≡ 0
  pub apart : (i : ℕ) → i < entries_per_table → frame (m (entry_at directory i)) ≢ directory
  pub separate :
      (i j : ℕ)
      → i < entries_per_table
      → j < entries_per_table
      → i ≢ j
      → frame (m (entry_at directory i)) ≢ frame (m (entry_at directory j))

-- Entries of different pages are at different places.
entry_at-other_page :
    (p q i j : ℕ)
    → p % page_size ≡ 0
    → q % page_size ≡ 0
    → i < entries_per_table
    → j < entries_per_table
    → p ≢ q
    → entry_at p i ≢ entry_at q j
entry_at-other_page p q i j hp hq hi hj ne = omega arith

put-other : (m : Words) (a v x : ℕ) → x ≢ a → put m a v x ≡ m x
put-other m a v x ne = ground arith

if_same : (b : Bool) (f : ℕ → ℕ) (x y : ℕ) → f x ≡ f y → f (if b then x else y) ≡ f y
if_same true f x y e = e
if_same false f x y e = refl

module _ (m : Words) (directory : ℕ) (d : Directory m directory) where
  -- A directory with the same frames, and the flags that matter.
  Directory-frames :
      (m' : Words)
      → ((k : ℕ)
          → k < entries_per_table
          → frame (m' (entry_at directory k)) ≡ frame (m (entry_at directory k)))
      → ((k : ℕ) → k < entries_per_table → bit_and (m' (entry_at directory k)) 3 ≡ 3)
      → ((k : ℕ) → k < entries_per_table → bit_and (m' (entry_at directory k)) 128 ≡ 0)
      → Directory m' directory
  Directory-frames m' frames usable small = record {
    aligned = d.aligned;
    usable = usable;
    small = small;
    apart = λ i h e. d.apart i h (sym (frames i h) ∙ e);
    separate = λ i j h h' ne e. d.separate i j h h' ne (sym (frames i h) ∙ e ∙ frames j h');
  }

  -- What a write to an entry of a table leaves of the directory.
  put_table-entry :
      (i j v k : ℕ)
      → i < entries_per_table
      → j < entries_per_table
      → k < entries_per_table
      → put m (entry_at (frame (m (entry_at directory i))) j) v (entry_at directory k)
        ≡ m (entry_at directory k)
  put_table-entry i j v k hi hj hk =
      let table = frame (m (entry_at directory i)) in
      put-other m (entry_at table j) v (entry_at directory k) (
        entry_at-other_page directory table k j d.aligned (frame-page (m (entry_at directory i))) hk
          hj (λ e. d.apart i hi (sym e)))

  put_table-Directory :
      (i j v : ℕ)
      → i < entries_per_table
      → j < entries_per_table
      → Directory (put m (entry_at (frame (m (entry_at directory i))) j) v) directory
  put_table-Directory i j v hi hj =
      Directory-frames (put m (entry_at (frame (m (entry_at directory i))) j) v)
        (λ k h. ap frame (put_table-entry i j v k hi hj h))
        (λ k h. ap (λ e. bit_and e 3) (put_table-entry i j v k hi hj h) ∙ d.usable k h)
        (λ k h. ap (λ e. bit_and e 128) (put_table-entry i j v k hi hj h) ∙ d.small k h)

  -- Setting the user bit of entry `i`, or not.
  user_entry :
      (i k val : ℕ)
      → with_user (entry_at directory i) val m (entry_at directory k) ≡ (
          if (bit_and val (is_present + access_from_all) == is_present + access_from_all) && k == i
          then bit_or (m (entry_at directory k)) access_from_all
          else m (entry_at directory k))
  user_entry i k val = elim (eq_or_ne k i) [
    | inl same ↦
        let at = ap (λ x. m (entry_at directory x)) same in
        let place = ap (entry_at directory) same in ground arith
    | inr other ↦ ground arith
  ]

  user-frame :
      (i k val : ℕ)
      → frame (with_user (entry_at directory i) val m (entry_at directory k))
        ≡ frame (m (entry_at directory k))
  user-frame i k val =
      let moved = frame-or (m (entry_at directory k)) in
      ap frame (user_entry i k val)
      ∙ if_same
          (bit_and val (is_present + access_from_all) == is_present + access_from_all && k == i)
          frame (bit_or (m (entry_at directory k)) access_from_all) (m (entry_at directory k)) moved

  user-Directory : (i val : ℕ) → Directory (with_user (entry_at directory i) val m) directory
  user-Directory i val =
      Directory-frames (with_user (entry_at directory i) val m) (λ k h. user-frame i k val)
        (λ k h.
          ap (λ e. bit_and e 3) (user_entry i k val)
          ∙ if_same
              (bit_and val (is_present + access_from_all) == is_present + access_from_all && k == i)
              (λ e. bit_and e 3) (bit_or (m (entry_at directory k)) access_from_all)
              (m (entry_at directory k))
              ((bit_and-user (m (entry_at directory k)) (d.usable k h) (d.small k h)).0
                ∙ sym (d.usable k h))
          ∙ d.usable k h)
        (λ k h.
          ap (λ e. bit_and e 128) (user_entry i k val)
          ∙ if_same
              (bit_and val (is_present + access_from_all) == is_present + access_from_all && k == i)
              (λ e. bit_and e 128) (bit_or (m (entry_at directory k)) access_from_all)
              (m (entry_at directory k))
              ((bit_and-user (m (entry_at directory k)) (d.usable k h) (d.small k h)).1
                ∙ sym (d.small k h))
          ∙ d.small k h)

  -- Nor does it reach into a table.
  user-table :
      (i val k j : ℕ)
      → i < entries_per_table
      → k < entries_per_table
      → j < entries_per_table
      → with_user (entry_at directory i) val m (entry_at (frame (m (entry_at directory k))) j)
        ≡ m (entry_at (frame (m (entry_at directory k))) j)
  user-table i val k j hi hk hj =
      let apart =
        entry_at-other_page (frame (m (entry_at directory k))) directory j i
          (frame-page (m (entry_at directory k))) d.aligned hj hi (d.apart k hk) in
      ground arith

-- The memory after a successful paging_set.
abbrev pub updated : Words → ℕ → ℕ → ℕ → Words
updated m directory virt val =
    let place = entry_at directory (directory_index virt) in
    put (with_user place val m) (entry_at (frame (m place)) (table_index virt)) val

and-false : (b c : Bool) → c ≡ false → (b && c) ≡ false
and-false true c e = e
and-false false c e = refl

same_page :
    (v w : ℕ)
    → v % page_size ≡ 0
    → w % page_size ≡ 0
    → directory_index v ≡ directory_index w
    → table_index v ≡ table_index w
    → v ≡ w
same_page v w hv hw i j = omega arith

ne-== : (a b : ℕ) → a ≢ b → (a == b) ≡ false
ne-== a b ne = ground arith

module _ (m : Words) (directory virt val : ℕ) (d : Directory m directory)
    (within : virt < 2 ^ 32) where
  abbrev table_here : ℕ → ℕ
  table_here v = frame (m (entry_at directory (directory_index v)))

  user_here : Words
  user_here = with_user (entry_at directory (directory_index virt)) val m

  updated-at :
      (x : ℕ)
      → updated m directory virt val x
        ≡ (if x == entry_at (table_here virt) (table_index virt) then val else user_here x)
  unfolding user_here
  updated-at x = refl

  updated-entry :
      (k : ℕ)
      → k < entries_per_table
      → updated m directory virt val (entry_at directory k) ≡ user_here (entry_at directory k)
  unfolding user_here
  updated-entry k hk =
      put-other user_here (entry_at (table_here virt) (table_index virt)) val (entry_at directory k)
        (entry_at-other_page directory (table_here virt) k (table_index virt) d.aligned
          (frame-page (m (entry_at directory (directory_index virt)))) hk (omega arith)
          (λ e. d.apart (directory_index virt) (omega arith) (sym e)))

  pub updated-Directory : Directory (updated m directory virt val) directory
  unfolding user_here
  updated-Directory =
      let u = user-Directory m directory d (directory_index virt) val in
      Directory-frames user_here directory u (updated m directory virt val)
        (λ k h. ap frame (updated-entry k h))
        (λ k h. ap (λ e. bit_and e 3) (updated-entry k h) ∙ u.usable k h)
        (λ k h. ap (λ e. bit_and e 128) (updated-entry k h) ∙ u.small k h)

  -- The entry of the page is the new one, and every other page keeps its own.
  pub get_entry-updated :
      (other : ℕ)
      → virt % page_size ≡ 0
      → other % page_size ≡ 0
      → other < 2 ^ 32
      → get_entry (updated m directory virt val) directory other
        ≡ (if other == virt then val else get_entry m directory other)
  unfolding user_here get_entry
  get_entry-updated other hv ho below =
      let i = directory_index virt in
      let k = directory_index other in
      let entry : frame (updated m directory virt val (entry_at directory k)) ≡ table_here other =
        ap frame (updated-entry k (omega arith)) ∙ user-frame m directory d i k val in
      ap (λ t. updated m directory virt val (entry_at t (table_index other))) entry
      ∙ updated-at (entry_at (table_here other) (table_index other))
      ∙ elim (eq_or_ne other virt) [
        | inl same ↦ let at = ap (λ v. entry_at (table_here v) (table_index v)) same in ground arith
        | inr different ↦
            let kept =
              user-table m directory d i val k (table_index other) (omega arith) (omega arith)
                (omega arith) in
            let apart : entry_at (table_here other) (table_index other)
                ≢ entry_at (table_here virt) (table_index virt) =
              elim (eq_or_ne k i) [
                | inl one ↦ λ e.
                    (let t = ap (λ x. frame (m (entry_at directory x))) one in
                      different (same_page other virt ho hv one (omega arith)))
                | inr two ↦
                    entry_at-other_page (table_here other) (table_here virt) (table_index other)
                      (table_index virt) (frame-page (m (entry_at directory k)))
                      (frame-page (m (entry_at directory i))) (omega arith) (omega arith)
                      (d.separate k i (omega arith) (omega arith) two)
              ] in
            let no_hit : (entry_at (table_here other) (table_index other)
                  == entry_at (table_here virt) (table_index virt))
                ≡ false =
              ne-== (entry_at (table_here other) (table_index other))
                (entry_at (table_here virt) (table_index virt)) apart in
            let no_page : (other == virt) ≡ false = ne-== other virt different in
            rw (no_hit, no_page) kept
      ]

-- Directory entry `k` allows user code to read and to write.
abbrev pub Open : Words → ℕ → ℕ → Type 0
Open m directory k =
    (bit_and (m (entry_at directory k)) 7 ≡ 7) × (bit_and (m (entry_at directory k)) 5 ≡ 5)

Open-of :
    (m : Words) (directory k e : ℕ)
    → m (entry_at directory k) ≡ e
    → (bit_and e 7 ≡ 7) × (bit_and e 5 ≡ 5)
    → Open m directory k
Open-of m directory k e same o =
    (ap (λ x. bit_and x 7) same ∙ o.0, ap (λ x. bit_and x 5) same ∙ o.1)

module _ (m : Words) (directory virt val : ℕ) (d : Directory m directory)
    (within : virt < 2 ^ 32) where
  updated-opened :
      bit_and val (is_present + access_from_all) ≡ is_present + access_from_all
      → Open (updated m directory virt val) directory (directory_index virt)
  unfolding user_here
  updated-opened user =
      let i = directory_index virt in
      let e = m (entry_at directory i) in
      let flags = bit_and-user e (d.usable i (omega arith)) (d.small i (omega arith)) in
      let set : (bit_and val (is_present + access_from_all) == is_present + access_from_all
            && i == i)
          ≡ true =
        ground arith in
      Open-of (updated m directory virt val) directory i (bit_or e 4)
        (updated-entry m directory virt val d within i (omega arith)
          ∙ user_entry m directory d i i val
          ∙ rw set refl)
        (flags.2, flags.3)

  updated-Open :
      (k : ℕ)
      → k < entries_per_table
      → Open m directory k
      → Open (updated m directory virt val) directory k
  unfolding user_here
  updated-Open k hk o =
      let i = directory_index virt in
      let e = m (entry_at directory k) in
      let flags = bit_and-user e (d.usable k hk) (d.small k hk) in
      let now =
        updated-entry m directory virt val d within k hk ∙ user_entry m directory d i k val in
      elim (Bool-cases
        (bit_and val (is_present + access_from_all) == is_present + access_from_all && k == i)) [
          | inl set ↦
              Open-of (updated m directory virt val) directory k (bit_or e 4) (now ∙ rw set refl)
                (flags.2, flags.3)
          | inr not_set ↦
              Open-of (updated m directory virt val) directory k e (now ∙ rw not_set refl) o
        ]

set_entry-updated :
    (current : ℕ) (m : Words) (directory virt val : ℕ)
    → Directory m directory
    → directory ≢ current
    → virt < 2 ^ 32
    → virt % page_size ≡ 0
    → set_entry current m directory virt val ≡ (ok 0, updated m directory virt val)
unfolding set_entry is_aligned
set_entry-updated current m directory virt val d idle within aligned =
    let e = m (entry_at directory (directory_index virt)) in
    let flags =
      bit_and-user e (d.usable (directory_index virt) (omega arith))
        (d.small (directory_index virt) (omega arith)) in
    let present = flags.4 in
    let small = d.small (directory_index virt) (omega arith) in
    let allowed : (directory == current || not (virt % page_size == 0)) ≡ false = ground arith in
    let fine : (bit_and e is_present == 0 || not (bit_and e page_size_flag == 0)) ≡ false =
      ground arith in
    let passed : ((bit_and val (is_present + access_from_all) == is_present + access_from_all)
          && (bit_and e is_present == 0 || not (bit_and e page_size_flag == 0)))
        ≡ false =
      and-false (bit_and val (is_present + access_from_all) == is_present + access_from_all)
        (bit_and e is_present == 0 || not (bit_and e page_size_flag == 0)) fine in
    rw (set_entry, allowed, passed) refl

-- Over a directory that is not in use, paging_set of an aligned address succeeds, the entry of its
-- page is the new one, every other page keeps its own, the directory stays as it has to be, and
-- its entry for the page allows user access if the new entry does.
pub set_entry_lem :
    (current : ℕ) (m : Words) (directory virt val : ℕ)
    → Directory m directory
    → directory ≢ current
    → virt < 2 ^ 32
    → virt % page_size ≡ 0
    → ((set_entry current m directory virt val).0 ≡ ok 0)
      × Directory (set_entry current m directory virt val).1 directory
      × ((other : ℕ)
          → other % page_size ≡ 0
          → other < 2 ^ 32
          → get_entry (set_entry current m directory virt val).1 directory other
            ≡ (if other == virt then val else get_entry m directory other))
      × (bit_and val (is_present + access_from_all) ≡ is_present + access_from_all
          → Open (set_entry current m directory virt val).1 directory (directory_index virt))
      × ((k : ℕ)
          → k < entries_per_table
          → Open m directory k
          → Open (set_entry current m directory virt val).1 directory k)
set_entry_lem current m directory virt val d idle within aligned =
    let done = set_entry-updated current m directory virt val d idle within aligned in
    (
      ap (λ r. r.0) done,
      subst (λ r. Directory r.1 directory) (sym done)
          (updated-Directory m directory virt val d within),
      λ other ho below.
          ap (λ r. get_entry r.1 directory other) done
          ∙ get_entry-updated m directory virt val d within other aligned ho below,
      λ user.
          subst (λ r. Open r.1 directory (directory_index virt)) (sym done)
            (updated-opened m directory virt val d within user),
      λ k hk open_before.
          subst (λ r. Open r.1 directory k) (sym done)
            (updated-Open m directory virt val d within k hk open_before),
    )
