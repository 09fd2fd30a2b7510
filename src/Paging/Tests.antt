-- ===== src/Paging/Tests.antt =====
-- Instances for the address arithmetic of kernel/memory/paging/paging.c.
use rorth_ox.Prelude.{
  ℕ, ◌/◌, ◌^◌, refl, ◌∙◌, ap, bit_and, bit_or, ltb, true, ◌+◌, ◌*◌, ◌%◌, ◌<◌, ◌≡◌, ◌==◌,
  if◌then◌else◌, arith,
}
use rorth_ox.Status.{ok}
use rorth_ox.Paging.{
  Words, frame, entry_at, directory_index, set_entry, get_entry, map_range, user_translate,
  is_present, access_from_all, page_size, entries_per_table,
}
use rorth_ox.Paging.Frames.{mapped_sum, frame-mapped, bit_and-mapped}
use rorth_ox.Paging.Entries.{Directory, Open, set_entry_lem}
use rorth_ox.Paging.User.{user_translate-map_range}

-- The directory at 0 and its tables in the pages behind it.
abbrev new_tables : Words
new_tables x = if ltb x 4096 then (x / 4 + 1) * 4096 + 3 else 0

new_entry : (i : ℕ) → i < entries_per_table → new_tables (entry_at 0 i) ≡ bit_or ((i + 1) * 4096) 3
new_entry i h = let sum = mapped_sum ((i + 1) * 4096) 3 (omega arith) (omega arith) in ground arith

new_frame : (i : ℕ) → i < entries_per_table → frame (new_tables (entry_at 0 i)) ≡ (i + 1) * 4096
new_frame i h =
    ap frame (new_entry i h)
    ∙ frame-mapped ((i + 1) * 4096) 3 (omega arith) (omega arith) (omega arith)

new_flags :
    (i m : ℕ)
    → i < entries_per_table
    → m < page_size
    → bit_and (new_tables (entry_at 0 i)) m ≡ bit_and 3 m
new_flags i m h hm =
    ap (λ e. bit_and e m) (new_entry i h)
    ∙ bit_and-mapped ((i + 1) * 4096) 3 (omega arith) (omega arith) m hm

new_tables-Directory : Directory new_tables 0
new_tables-Directory = record {
  aligned = refl;
  usable = λ i h. new_flags i 3 h (omega arith);
  small = λ i h. new_flags i 128 h (omega arith);
  apart = λ i h e. (let f = new_frame i h in omega arith);
  separate = λ i j h h' ne e. (let f = new_frame i h in let g = new_frame j h' in omega arith);
}

set_entry_lem_example :
    ((set_entry 99 new_tables 0 8192 4103).0 ≡ ok 0)
    × Directory (set_entry 99 new_tables 0 8192 4103).1 0
    × ((other : ℕ)
        → other % page_size ≡ 0
        → other < 2 ^ 32
        → get_entry (set_entry 99 new_tables 0 8192 4103).1 0 other
          ≡ (if other == 8192 then 4103 else get_entry new_tables 0 other))
    × (bit_and 4103 (is_present + access_from_all) ≡ is_present + access_from_all
        → Open (set_entry 99 new_tables 0 8192 4103).1 0 (directory_index 8192))
    × ((k : ℕ)
        → k < entries_per_table
        → Open new_tables 0 k
        → Open (set_entry 99 new_tables 0 8192 4103).1 0 k)
set_entry_lem_example =
    set_entry_lem 99 new_tables 0 8192 4103 new_tables-Directory (omega arith) (omega arith) refl

user_translate-map_range_example :
    user_translate (map_range 99 new_tables 0 8192 40960 2 7).1 0 (8192 + 5000) true
    ≡ ok (40960 + 5000)
user_translate-map_range_example =
    user_translate-map_range 99 new_tables 0 8192 40960 2 7 5000 true new_tables-Directory
      (omega arith) refl refl (omega arith) (omega arith) (omega arith) refl refl (omega arith)
