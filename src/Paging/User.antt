-- ===== src/Paging/User.antt =====
-- paging_map, paging_map_range and paging_user_translate of kernel/memory/paging/paging.c together.
use rorth_ox.Prelude.{
  ℕ, zero, suc, ◌+◌, ◌-◌, ◌*◌, ◌/◌, ◌%◌, ◌^◌, ◌≤◌, ◌<◌, ◌≡◌, ◌≢◌, inl, inr, refl, ◌∙◌, ap, sym,
  subst, Bool, true, false, not, ◌&&◌, ◌||◌, ltb, leb, ◌==◌, ==_iff, if◌then◌else◌, arith, bit_and,
  bit_or, u32, eq_or_ne, shl, low, bit_and-ones, low-shl,
}
use rorth_ox.Status.{Result, ok}
use rorth_ox.Paging.{
  page_size, entries_per_table, is_present, access_from_all, page_size_flag, frame, Words, entry_at,
  directory_index, table_index, set_entry, get_entry, map, map_range, required, user_translate,
}
use rorth_ox.Paging.Frames.{mapped_sum, frame-page, frame-mapped, bit_and-mapped}
use rorth_ox.Paging.Entries.{Directory, Open, set_entry_lem}

-- What `count` pages from `virt` on look like once they are mapped.
abbrev pub mapped : ℕ → ℕ → ℕ → ℕ → ℕ → ℕ → ℕ
mapped flags virt phys count old other =
    if leb virt other && ltb other (virt + count * page_size)
    then phys + (other - virt) + flags
    else old

mapped-inside :
    (flags virt phys count old other : ℕ)
    → virt ≤ other
    → other < virt + count * page_size
    → mapped flags virt phys count old other ≡ phys + (other - virt) + flags
mapped-inside flags virt phys count old other lo hi = ground arith

mapped-one :
    (flags virt phys old other : ℕ)
    → virt % page_size ≡ 0
    → other % page_size ≡ 0
    → (if other == virt then phys + flags else old) ≡ mapped flags virt phys 1 old other
mapped-one flags virt phys old other hv ho = ground arith

mapped-next :
    (flags virt phys count old other : ℕ)
    → virt % page_size ≡ 0
    → other % page_size ≡ 0
    → mapped flags
        (virt + page_size)
        (phys + page_size)
        count
        (if other == virt then phys + flags else old)
        other
      ≡ mapped flags virt phys (suc count) old other
mapped-next flags virt phys count old other hv ho = ground arith

module _ (current directory flags : ℕ) (idle : directory ≢ current)
    (small : flags < page_size) where
  map_set :
      (m : Words) (virt phys : ℕ)
      → virt % page_size ≡ 0
      → phys % page_size ≡ 0
      → map current m directory virt phys flags ≡ set_entry current m directory virt (phys + flags)
  unfolding map
  map_set m virt phys hv hp =
      let fine : (not (virt % page_size == 0) || not (phys % page_size == 0)) ≡ false =
        ground arith in
      let sum : bit_or phys flags ≡ phys + flags = mapped_sum phys flags hp small ∙ omega arith in
      rw (map, fine) (ap (set_entry current m directory virt) sum)

  pub record Mapped (m : Words) (virt phys count : ℕ) (r : Result ℕ × Words) : Type 0 where
    pub result : r.0 ≡ ok 0
    pub kept : Directory r.1 directory
    pub entries :
        (other : ℕ)
        → other % page_size ≡ 0
        → other < 2 ^ 32
        → get_entry r.1 directory other
          ≡ mapped flags virt phys count (get_entry m directory other) other
    pub opens : (k : ℕ) → k < entries_per_table → Open m directory k → Open r.1 directory k
    pub opened :
        bit_and flags (is_present + access_from_all) ≡ is_present + access_from_all
        → (other : ℕ) → other % page_size ≡ 0
        → virt ≤ other
        → other < virt + count * page_size
        → Open r.1 directory (directory_index other)

  flags_set :
      (phys : ℕ)
      → phys % page_size ≡ 0
      → bit_and flags (is_present + access_from_all) ≡ is_present + access_from_all
      → bit_and (phys + flags) (is_present + access_from_all) ≡ is_present + access_from_all
  flags_set phys hp user =
      let sum : bit_or phys flags ≡ phys + flags = mapped_sum phys flags hp small ∙ omega arith in
      ap (λ v. bit_and v 5) (sym sum) ∙ bit_and-mapped phys flags hp small 5 (omega arith) ∙ user

  map_range-next :
      (m : Words) (virt phys count : ℕ)
      → (map current m directory virt phys flags).0 ≡ ok 0
      → map_range current m directory virt phys (suc count) flags
        ≡ map_range current
            (map current m directory virt phys flags).1
            directory
            (u32 (virt + page_size))
            (u32 (phys + page_size))
            count
            flags
  unfolding map_range
  map_range-next m virt phys count fine = rw (map_range, fine) refl

  map_range-Mapped :
      (count : ℕ) (m : Words) (virt phys : ℕ)
      → Directory m directory
      → virt % page_size ≡ 0
      → phys % page_size ≡ 0
      → virt + count * page_size ≤ 2 ^ 32
      → phys + count * page_size ≤ 2 ^ 32
      → Mapped m virt phys count (map_range current m directory virt phys count flags)
  unfolding map_range
  map_range-Mapped zero m virt phys d hv hp bv bp = record {
    result = refl;
    kept = d;
    entries = λ other ho below. ground arith;
    opens = λ k hk o. o;
    opened = λ user other ho lo hi. absurd (omega arith);
  }
  map_range-Mapped (suc zero) m virt phys d hv hp bv bp =
      let step = set_entry_lem current m directory virt (phys + flags) d idle (omega arith) hv in
      let same = map_set m virt phys hv hp in
      let fine = ap (λ r. r.0) same ∙ step.0 in
      subst (Mapped m virt phys 1) (sym (map_range-next m virt phys 0 fine)) (record {
        result = refl;
        kept = subst (λ r. Directory r.1 directory) (sym same) step.1;
        entries = λ other ho below.
            ap (λ r. get_entry r.1 directory other) same
            ∙ step.2 other ho below
            ∙ mapped-one flags virt phys (get_entry m directory other) other hv ho;
        opens = λ k hk o. subst (λ r. Open r.1 directory k) (sym same) (step.4 k hk o);
        opened = λ user other ho lo hi.
            (let one : virt ≡ other = omega arith in
              subst
                (λ v.
                  Open (map current m directory virt phys flags).1 directory (directory_index v))
                one
                (subst (λ r. Open r.1 directory (directory_index virt)) (sym same)
                  (step.3 (flags_set phys hp user))));
      })
  map_range-Mapped (suc (suc count)) m virt phys d hv hp bv bp =
      let step = set_entry_lem current m directory virt (phys + flags) d idle (omega arith) hv in
      let same = map_set m virt phys hv hp in
      let fine = ap (λ r. r.0) same ∙ step.0 in
      let m' = (map current m directory virt phys flags).1 in
      let d' : Directory m' directory = subst (λ r. Directory r.1 directory) (sym same) step.1 in
      let v' : virt + page_size ≡ u32 (virt + page_size) = omega arith in
      let p' : phys + page_size ≡ u32 (phys + page_size) = omega arith in
      let rest =
        map_range-Mapped (suc count) m' (virt + page_size) (phys + page_size) d' (omega arith)
          (omega arith) (omega arith) (omega arith) in
      let wrapped =
        map_range-next m virt phys (suc count) fine
        ∙ ap (λ v. map_range current m' directory v (u32 (phys + page_size)) (suc count) flags)
            (sym v')
        ∙ ap (λ p. map_range current m' directory (virt + page_size) p (suc count) flags)
            (sym p') in
      subst (Mapped m virt phys (suc (suc count))) (sym wrapped) (record {
        result = rest.result;
        kept = rest.kept;
        entries = λ other ho below.
            (let old = ap (λ r. get_entry r.1 directory other) same ∙ step.2 other ho below in
              rest.entries other ho below
              ∙ ap (λ o. mapped flags (virt + page_size) (phys + page_size) (suc count) o other) old
              ∙ mapped-next flags virt phys (suc count) (get_entry m directory other) other hv ho);
        opens = λ k hk o.
            rest.opens k hk (subst (λ r. Open r.1 directory k) (sym same) (step.4 k hk o));
        opened = λ user other ho lo hi. elim (eq_or_ne virt other) [
          | inl one ↦
              subst
                (λ v.
                  Open
                    (map_range current m' directory (virt + page_size) (phys + page_size)
                      (suc count) flags).1
                    directory (directory_index v))
                one
                (rest.opens (directory_index virt) (omega arith) (
                  subst (λ r. Open r.1 directory (directory_index virt)) (sym same)
                    (step.3 (flags_set phys hp user))))
          | inr more ↦ rest.opened user other ho (omega arith) (omega arith)
        ];
      })

-- The bits of an address inside a page.
page_bits :
    (address : ℕ)
    → (bit_and (address / 2 ^ 12) 0x3FF ≡ table_index address)
      × (address / 2 ^ 22 ≡ directory_index address)
      × (bit_and address (page_size - 1) ≡ address % page_size)
page_bits address =
    let n = address / 2 ^ 12 in
    (
      bit_and-ones 10 n
          ∙ ap (low 10) {x = n} {y = shl 10 (n / 1024) + n % 1024} (omega arith)
          ∙ low-shl 10 (n / 1024) (n % 1024) (omega arith)
          ∙ omega arith,
      omega arith,
      bit_and-ones 12 address
          ∙ ap (low 12) {x = address} {y = shl 12 (address / page_size) + address % page_size}
              (omega arith)
          ∙ low-shl 12 (address / page_size) (address % page_size) (omega arith),
    )

frame_offset :
    (p offset : ℕ) → p % page_size ≡ 0 → offset < page_size → bit_or p offset ≡ p + offset
frame_offset p offset hp h = mapped_sum p offset hp h ∙ omega arith

Open-required :
    (m : Words) (directory k : ℕ) (write : Bool)
    → Open m directory k
    → bit_and (m (entry_at directory k)) (required write) ≡ required write
Open-required m directory k true o = o.0
Open-required m directory k false o = o.1

user_translate-Open :
    (m : Words) (directory address page : ℕ) (write : Bool)
    → Directory m directory
    → address < 2 ^ 32
    → Open m directory (directory_index address)
    → get_entry m directory (address - address % page_size) ≡ page
    → bit_and page (required write) ≡ required write
    → user_translate m directory address write ≡ ok (frame page + address % page_size)
unfolding user_translate get_entry
user_translate-Open m directory address page write d below open_entry at allowed =
    let bits = page_bits address in
    let k = directory_index address in
    let e = m (entry_at directory k) in
    let base = address - address % page_size in
    let at' : m (entry_at (frame e) (table_index address)) ≡ page =
      ap (λ j. m (entry_at (frame e) j)) {x = table_index address} {y = table_index base}
        (omega arith)
      ∙ ap (λ j. m (entry_at (frame (m (entry_at directory j))) (table_index base))) {x = k}
          {y = directory_index base} (omega arith)
      ∙ at in
    let first = Open-required m directory k write open_entry in
    let c1 : (bit_and e (required write) == required write) ≡ true =
      (==_iff (bit_and e (required write)) (required write)).1 first in
    let c2 : (bit_and e page_size_flag == 0) ≡ true =
      (==_iff (bit_and e page_size_flag) 0).1 (d.small k (omega arith)) in
    let c3 : (bit_and page (required write) == required write) ≡ true =
      (==_iff (bit_and page (required write)) (required write)).1 allowed in
    rw (user_translate, bits.1, bits.0, at', c1, c2, c3)
      (ap (λ o. ok (bit_or (frame page) o)) bits.2
        ∙ ap ok (frame_offset (frame page) (address % page_size) (frame-page page) (omega arith)))

-- After pages were mapped for user code, over a directory that is not in use, the user translation
-- of every address in them is its place in the physical range, for writing too where the pages
-- are writeable.
pub user_translate-map_range :
    (current : ℕ) (m : Words) (directory virt phys count flags offset : ℕ) (write : Bool)
    → Directory m directory
    → directory ≢ current
    → virt % page_size ≡ 0
    → phys % page_size ≡ 0
    → virt + count * page_size ≤ 2 ^ 32
    → phys + count * page_size ≤ 2 ^ 32
    → flags < page_size
    → bit_and flags 5 ≡ 5
    → bit_and flags (required write) ≡ required write
    → offset < count * page_size
    → user_translate
        (map_range current m directory virt phys count flags).1
        directory
        (virt + offset)
        write
      ≡ ok (phys + offset)
user_translate-map_range current m directory virt phys count flags offset write d idle hv hp bv bp
      small user allowed inside =
    let r = map_range-Mapped current directory flags idle small count m virt phys d hv hp bv bp in
    let m' = (map_range current m directory virt phys count flags).1 in
    let address = virt + offset in
    let base = address - address % page_size in
    let place = phys + (base - virt) in
    let page = place + flags in
    let aligned : place % page_size ≡ 0 = omega arith in
    let found : get_entry m' directory base ≡ page =
      r.entries base (omega arith) (omega arith)
      ∙ mapped-inside flags virt phys count (get_entry m directory base) base (omega arith)
          (omega arith) in
    let sum : bit_or place flags ≡ page = mapped_sum place flags aligned small ∙ omega arith in
    let flag : bit_and page (required write) ≡ required write =
      ap (λ v. bit_and v (required write)) (sym sum)
      ∙ bit_and-mapped place flags aligned small (required write) (ground arith)
      ∙ allowed in
    let where_it_is : frame page ≡ place =
      ap frame (sym sum) ∙ frame-mapped place flags aligned small (omega arith) in
    let opened =
      subst (Open m' directory) {x = directory_index base} {y = directory_index address}
        (omega arith) (r.opened user base (omega arith) (omega arith) (omega arith)) in
    user_translate-Open m' directory address page write r.kept (omega arith) opened found flag
    ∙ ap ok (ap (λ f. f + address % page_size) where_it_is ∙ omega arith)
