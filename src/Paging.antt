-- ===== src/Paging.antt =====
-- kernel/memory/paging/paging.c: the two-level tables. Addresses and entries are 32-bit
-- patterns; the words that hold the tables are a function from their addresses.
pub mod Addresses
pub mod Frames
pub mod Entries
pub mod User
mod Tests
use rorth_ox.Prelude.{
  ℕ, zero, suc, ◌+◌, ◌-◌, ◌*◌, ◌/◌, ◌%◌, ◌^◌, ◌≡◌, Bool, true, false, not, ◌&&◌, ◌||◌, ltb, ◌==◌,
  if◌then◌else◌, bit_and, bit_or, u32,
}
use rorth_ox.Status.{Result, ok, err, Errno}

-- PAGING_PAGE_SIZE and PAGING_TOTAL_ENTRIES_PER_TABLE
abbrev pub page_size : ℕ
page_size = 4096

abbrev pub entries_per_table : ℕ
entries_per_table = 1024

pub is_aligned : ℕ → Bool
is_aligned addr = addr % page_size == 0

-- The directory index and the table index, or -EINVARG.
pub get_indexes : ℕ → Result (ℕ × ℕ)
unfolding is_aligned
get_indexes virtual_address =
    if is_aligned virtual_address
    then ok (
      virtual_address / (entries_per_table * page_size),
      virtual_address % (entries_per_table * page_size) / page_size,
    )
    else err Errno.einvarg

-- `paging_align_address`: the sum is a 32-bit one.
pub align_address : ℕ → ℕ
align_address ptr = if ptr % page_size == 0 then ptr else u32 (ptr + page_size - ptr % page_size)

pub align_to_lower_page : ℕ → ℕ
align_to_lower_page addr = addr - addr % page_size

-- PAGING_IS_PRESENT, PAGING_IS_WRITEABLE, PAGING_ACCESS_FROM_ALL and PAGING_PAGE_SIZE_FLAG
abbrev pub is_present : ℕ
is_present = 1

abbrev pub is_writeable : ℕ
is_writeable = 2

abbrev pub access_from_all : ℕ
access_from_all = 4

abbrev pub page_size_flag : ℕ
page_size_flag = 128

-- `entry & 0xFFFFF000`
abbrev pub frame : ℕ → ℕ
frame entry = bit_and entry 0xFFFFF000

-- The word at each address that is a multiple of four.
abbrev pub Words : Type 0
Words = ℕ → ℕ

abbrev pub put : Words → ℕ → ℕ → Words
put m a v x = if x == a then v else m x

-- Where entry `i` of a table stands.
abbrev pub entry_at : ℕ → ℕ → ℕ
entry_at table i = table + 4 * i

-- The two indexes of an aligned address.
abbrev pub directory_index : ℕ → ℕ
directory_index virt = virt / (entries_per_table * page_size)

abbrev pub table_index : ℕ → ℕ
table_index virt = virt % (entries_per_table * page_size) / page_size

abbrev pub with_user : ℕ → ℕ → Words → Words
with_user place val m =
    if bit_and val (is_present + access_from_all) == is_present + access_from_all
    then put m place (bit_or (m place) access_from_all)
    else m

-- `paging_set`; `current` is the directory in use.
pub set_entry : ℕ → Words → ℕ → ℕ → ℕ → Result ℕ × Words
unfolding is_aligned
set_entry current m directory virt val =
    let place = entry_at directory (directory_index virt) in
    let entry = m place in
    if directory == current || not (is_aligned virt)
    then (err Errno.einvarg, m)
    else if (bit_and val (is_present + access_from_all) == is_present + access_from_all)
        && (bit_and entry is_present == 0 || not (bit_and entry page_size_flag == 0))
    then (err Errno.einvarg, m)
    else (ok 0, put (with_user place val m) (entry_at (frame entry) (table_index virt)) val)

pub get_entry : Words → ℕ → ℕ → ℕ
get_entry m directory virt =
    m (entry_at (frame (m (entry_at directory (directory_index virt)))) (table_index virt))

pub map : ℕ → Words → ℕ → ℕ → ℕ → ℕ → Result ℕ × Words
unfolding set_entry
map current m directory virt phys flags =
    if not (virt % page_size == 0) || not (phys % page_size == 0)
    then (err Errno.einvarg, m)
    else set_entry current m directory virt (bit_or phys flags)

-- The loop of `paging_map_range`; the pointers wrap at 32 bits.
pub map_range : ℕ → Words → ℕ → ℕ → ℕ → ℕ → ℕ → Result ℕ × Words
unfolding map
map_range current m directory virt phys zero flags = (ok 0, m)
map_range current m directory virt phys (suc count) flags =
    let step = map current m directory virt phys flags in
    elim step.0 [
      | err e ↦ (err e, step.1)
      | ok r ↦
          map_range current step.1 directory (u32 (virt + page_size)) (u32 (phys + page_size)) count
            flags
    ]

pub map_to : ℕ → Words → ℕ → ℕ → ℕ → ℕ → ℕ → Result ℕ × Words
unfolding map_range
map_to current m directory virt phys phys_end flags =
    if not (virt % page_size == 0) || not (phys % page_size == 0) || not (phys_end % page_size == 0)
    then (err Errno.einvarg, m)
    else if ltb phys_end phys
    then (err Errno.einvarg, m)
    else map_range current m directory virt phys ((phys_end - phys) / page_size) flags

-- `paging_get_physical_address`
pub physical_address : Words → ℕ → ℕ → ℕ
unfolding get_entry align_to_lower_page
physical_address m directory virt =
    u32
      (frame (get_entry m directory (align_to_lower_page virt)) + (virt - align_to_lower_page virt))

abbrev pub required : Bool → ℕ
required write =
    if write then is_present + access_from_all + is_writeable else is_present + access_from_all

-- `paging_user_translate` for pointers that are not null.
unfoldable pub user_translate : Words → ℕ → ℕ → Bool → Result ℕ
user_translate m directory address write =
    let entry = m (entry_at directory (address / 2 ^ 22)) in
    let page = m (entry_at (frame entry) (bit_and (address / 2 ^ 12) 0x3FF)) in
    if not (bit_and entry (required write) == required write)
      || not (bit_and entry page_size_flag == 0)
    then err Errno.einvarg
    else if not (bit_and page (required write) == required write)
    then err Errno.einvarg
    else ok (bit_or (frame page) (bit_and address (page_size - 1)))
