-- ===== src/Heap/Create.antt =====
-- heap_create: what an accepted region and table become.
use rorth_ox.Prelude.{
  ℕ, zero, suc, ◌+◌, ◌-◌, ◌*◌, ◌/◌, ◌%◌, ◌^◌, ◌≤◌, ◌<◌, ◌≡◌, refl, ◌∙◌, ap, ◌&&◌, List, [], ◌∷◌,
  arith, ltb, if◌then◌else◌, u32, length, get_or, get_or_beyond, inl, ◌↔◌,
}
use rorth_ox.Status.{ok}
use rorth_ox.Heap.{
  Heap, HeapTable, block_size, entry_free, fill, validate_alignment, validate_table, create,
}
use rorth_ox.Heap.Search.{FreeAt}
use rorth_ox.Heap.Layout.{Layout}
use rorth_ox.Heap.Alloc.{WellFormed}

length-fill : (v n : ℕ) (es : List ℕ) → length (fill v n es) ≡ length es
unfolding fill
length-fill v zero es = refl
length-fill v (suc n) [] = refl
length-fill v (suc n) (e ∷ es) = ap suc (length-fill v n es)

get_or-fill :
    (v n : ℕ) (es : List ℕ) (j : ℕ)
    → get_or (fill v n es) j 0 ≡ (if ltb j n && ltb j (length es) then v else get_or es j 0)
unfolding fill
get_or-fill v zero es j = ground arith
get_or-fill v (suc n) [] j = ground arith
get_or-fill v (suc n) (e ∷ es) zero = ground arith
get_or-fill v (suc n) (e ∷ es) (suc j) = get_or-fill v n es j ∙ ground arith

blank : (es : List ℕ) (n j : ℕ) → length es ≤ n → get_or (fill entry_free n es) j 0 ≡ 0
blank es n j h = get_or-fill entry_free n es j ∙ ground (arith, get_or_beyond es j 0)

blank-Layout : (t : List ℕ) → ((j : ℕ) → get_or t j 0 ≡ 0) → Layout t
blank-Layout t zeros = record {
  bytes = λ j. inl (zeros j);
  links = λ j. rw (zeros j, zeros (j + 1)) refl;
  start = rw (zeros 0) refl;
}

abbrev Fresh : Heap → Type 0
Fresh h = WellFormed h × ((j : ℕ) → j < h.total → FreeAt h.entries j)

Fresh-fill :
    (ptr end : ℕ) (table : HeapTable)
    → 0 < ptr
    → ptr ≤ end
    → end < 2 ^ 32
    → ptr % block_size ≡ 0
    → table.total ≡ length table.entries
    → table.total ≡ u32 (end + 2 ^ 32 - ptr) / block_size
    → Fresh (record {
      table = record { entries = fill entry_free table.total table.entries; total = table.total };
      saddr = ptr;
    })
Fresh-fill ptr end table pos order top aligned sized spans =
    let zeros = λ (j : ℕ). blank table.entries table.total j (omega (arith, sized)) in
    let same = length-fill entry_free table.total table.entries in
    (
      record {
        layout = blank-Layout (fill entry_free table.total table.entries) zeros;
        sized = omega (arith, sized, same);
        aligned = aligned;
        placed = pos;
        fits = omega (arith, spans, order, top);
      },
      λ j h. record { inside = omega (arith, sized, same); unused = rw (zeros j) refl },
    )

abbrev Accepted : ℕ → ℕ → HeapTable → Type 0
Accepted ptr end table =
    (ptr % block_size ≡ 0)
    × (end % block_size ≡ 0)
    × (table.total ≡ u32 (end + 2 ^ 32 - ptr) / block_size)

create-Accepted :
    (heap : Heap) (ptr end : ℕ) (table : HeapTable)
    → (create heap ptr end table).0 ≡ ok 0
    → Accepted ptr end table
unfolding create validate_alignment validate_table
create-Accepted heap ptr end table e = ground arith

create_of_Accepted :
    (heap : Heap) (ptr end : ℕ) (table : HeapTable)
    → Accepted ptr end table
    → create heap ptr end table ≡ (
      ok 0,
      record {
        table = record { entries = fill entry_free table.total table.entries; total = table.total };
        saddr = ptr;
      },
    )
unfolding create validate_alignment validate_table
create_of_Accepted heap ptr end table a = ground (arith, a.0, a.1, a.2)

-- heap_create accepts a region exactly when both ends are block aligned and the table has one entry
-- for each block of it; the heap is then well formed and every block is free.
pub create-Fresh :
    (heap : Heap) (ptr end : ℕ) (table : HeapTable)
    → 0 < ptr
    → ptr ≤ end
    → end < 2 ^ 32
    → table.total ≡ length table.entries
    → (((create heap ptr end table).0 ≡ ok 0) ↔ (
        (ptr % block_size ≡ 0) × (end % block_size ≡ 0) × (table.total * block_size ≡ end - ptr)))
      × ((create heap ptr end table).0 ≡ ok 0
          → WellFormed (create heap ptr end table).1
            × ((j : ℕ) → j < table.total → FreeAt (create heap ptr end table).1.entries j))
create-Fresh heap ptr end table pos order top sized = (
  (
    λ e. omega (arith, create-Accepted heap ptr end table e),
    λ (a, b, c). ap (λ r. r.0) (create_of_Accepted heap ptr end table (a, b, omega arith)),
  ),
  λ e.
      let a = create-Accepted heap ptr end table e in
      rw (create_of_Accepted heap ptr end table a)
        (Fresh-fill ptr end table pos order top a.0 sized a.2),
)
