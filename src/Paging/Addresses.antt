-- ===== src/Paging/Addresses.antt =====
-- kernel/memory/paging/paging.c: which table entry an address has, and the page boundaries by it.
use rorth_ox.Prelude.{
  ℕ, ◌+◌, ◌-◌, ◌*◌, ◌/◌, ◌%◌, ◌^◌, ◌≤◌, ◌<◌, ◌≡◌, inl, inr, ◌==◌, if◌then◌else◌, arith, eq_or_ne,
}
use rorth_ox.Status.{ok, err, Errno}
use rorth_ox.Paging.{
  page_size, entries_per_table, is_aligned, get_indexes, align_address, align_to_lower_page,
}

-- For a directory index and a table index below 1024, the page that they select is found again by
-- paging_get_indexes, and an address inside that page but not at its start is refused.
pub get_indexes_lem :
    (directory table offset : ℕ)
    → directory < entries_per_table
    → table < entries_per_table
    → offset < page_size
    → get_indexes ((directory * entries_per_table + table) * page_size + offset)
      ≡ (if offset == 0 then ok (directory, table) else err Errno.einvarg)
unfolding get_indexes is_aligned
get_indexes_lem directory table offset d t o =
    let address = (directory * entries_per_table + table) * page_size + offset in
    elim (eq_or_ne offset 0) [
      | inl start ↦
          let first : address / (entries_per_table * page_size) ≡ directory = omega arith in
          let second : address % (entries_per_table * page_size) / page_size ≡ table =
            omega arith in
          let yes_it_is : address % page_size ≡ 0 = omega arith in ground arith
      | inr inside ↦ let no_it_is : address % page_size ≡ offset = omega arith in ground arith
    ]

-- Up to the last page boundary that 32 bits hold, paging_align_address gives the multiple of the
-- page size that is not below the address and less than a page above it, and
-- paging_align_to_lower_page the one that is not above it and less than a page below it.
pub align-bounds :
    (address : ℕ)
    → address ≤ 2 ^ 32 - page_size
    → ((align_address address % page_size ≡ 0)
        × (address ≤ align_address address)
        × (align_address address < address + page_size))
      × ((align_to_lower_page address % page_size ≡ 0)
          × (align_to_lower_page address ≤ address)
          × (address < align_to_lower_page address + page_size))
unfolding align_address align_to_lower_page
align-bounds address h = (ground arith, ground arith)
