-- ===== src/Heap.antt =====
-- kernel/memory/heap/heap.c: the block allocator behind kmalloc.
pub mod Search
pub mod Mark
pub mod Layout
pub mod Alloc
pub mod Release
pub mod Create
pub mod Kernel
pub mod History
mod Tests
use rorth_ox.Prelude.{
  ℕ, zero, suc, ◌+◌, ◌-◌, ◌*◌, ◌/◌, ◌%◌, ◌^◌, bit_and, bit_or, Bool, true, false, not, ◌&&◌, ◌||◌,
  Option, none, some, List, [], ◌∷◌, ltb, leb, ◌==◌, if◌then◌else◌, u32, get_or, set, take,
}
use rorth_ox.Status.{Errno, Result, ok, err}

-- RORTHOX_HEAP_BLOCK_SIZE
abbrev pub block_size : ℕ
block_size = 4096

-- HEAP_BLOCK_TABLE_ENTRY_FREE, _TAKEN, HEAP_BLOCK_HAS_NEXT and _IS_FIRST
abbrev pub entry_free : ℕ
entry_free = 0x00

abbrev pub entry_taken : ℕ
entry_taken = 0x01

abbrev pub has_next : ℕ
has_next = 0x80

abbrev pub is_first : ℕ
is_first = 0x40

-- One byte for each block.
pub record HeapTable : Type 0 where
  pub entries : List ℕ
  pub total : ℕ

pub record Heap : Type 0 where
  pub table : HeapTable
  pub open table use *
  pub saddr : ℕ

abbrev pub with_entries : Heap → List ℕ → Heap
with_entries h es = record { table = record { entries = es; total = h.total }; saddr = h.saddr }

-- `(size_t)(end - ptr)` wraps as a 32-bit difference.
pub validate_table : ℕ → ℕ → HeapTable → Bool
validate_table ptr end table = table.total == u32 (end + 2 ^ 32 - ptr) / block_size

pub validate_alignment : ℕ → Bool
validate_alignment ptr = ptr % block_size == 0

-- `memset(entries, FREE, n)` over the first `n` bytes.
pub fill : ℕ → ℕ → List ℕ → List ℕ
fill v zero es = es
fill v (suc n) [] = []
fill v (suc n) (e ∷ es) = v ∷ fill v n es

-- The heap is set even where the table does not fit.
pub create : Heap → ℕ → ℕ → HeapTable → Result ℕ × Heap
unfolding validate_alignment validate_table
create heap ptr end table =
    if not (validate_alignment ptr) || not (validate_alignment end)
    then (err Errno.einvarg, heap)
    else if not (validate_table ptr end table)
    then (err Errno.einvarg, record { table = table; saddr = ptr })
    else (
      ok 0,
      record {
        table = record { entries = fill entry_free table.total table.entries; total = table.total };
        saddr = ptr;
      },
    )

-- Called on sizes up to 2 ^ 32 - 4096, so the sum does not wrap.
pub align_value_to_upper : ℕ → ℕ
align_value_to_upper val =
    if val % block_size == 0 then val else u32 (val - val % block_size + block_size)

abbrev pub entry_type : ℕ → ℕ
entry_type entry = bit_and entry 0x0f

-- `bs == -1 ? i : bs`
abbrev pub start_or : ℕ → Option ℕ → ℕ
start_or i none = i
start_or i (some b) = b

-- The loop of `heap_get_start_block` at entry `i`: `bs` is `none` for -1. It ends with `bs`, `bc`.
pub scan : ℕ → List ℕ → ℕ → Option ℕ → ℕ → Option ℕ × ℕ
scan n [] i bs bc = (bs, bc)
scan n (e ∷ es) i bs bc = elim (entry_type e == entry_free) [
  | false ↦ scan n es (i + 1) none 0
  | true ↦ elim (bc + 1 == n) [
    | true ↦ (some (start_or i bs), bc + 1)
    | false ↦ scan n es (i + 1) (some (start_or i bs)) (bc + 1)
  ]
]

-- `bs == -1 || bc != total_blocks` is -ENOMEM, here `none`.
abbrev pub scan_result : ℕ → Option ℕ × ℕ → Option ℕ
scan_result n (none, bc) = none
scan_result n (some b, bc) = if bc == n then some b else none

pub get_start_block : Heap → ℕ → Option ℕ
unfolding scan
get_start_block h n = scan_result n (scan n (take h.total h.entries) 0 none 0)

-- Pointer arithmetic on a 32-bit machine.
pub block_to_address : Heap → ℕ → ℕ
block_to_address h block = u32 (h.saddr + block * block_size)

-- The entry for block `i + 1`, computed at block `i`: `i != end_block - 1` keeps the flag.
abbrev pub next_entry : ℕ → ℕ → ℕ
next_entry i end_block = if i + 1 == end_block then entry_taken else bit_or entry_taken has_next

-- The loop of `heap_mark_blocks_taken` with `left` rounds to go.
pub mark_taken_from : ℕ → ℕ → ℕ → ℕ → List ℕ → List ℕ
mark_taken_from zero i end_block entry es = es
mark_taken_from (suc left) i end_block entry es =
    mark_taken_from left (i + 1) end_block (next_entry i end_block) (set es i entry)

abbrev pub first_entry : ℕ → ℕ
first_entry total_blocks =
    if ltb 1 total_blocks
    then bit_or (bit_or entry_taken is_first) has_next
    else bit_or entry_taken is_first

pub mark_blocks_taken : Heap → ℕ → ℕ → Heap
unfolding mark_taken_from
mark_blocks_taken h start_block total_blocks = with_entries h (
    mark_taken_from total_blocks start_block (start_block + total_blocks - 1)
      (first_entry total_blocks) h.entries)

-- A null pointer is 0.
pub malloc_blocks : Heap → ℕ → ℕ × Heap
malloc_blocks h total_blocks = elim (get_start_block h total_blocks) [
  | none ↦ (0, h)
  | some start_block ↦
      (block_to_address h start_block, mark_blocks_taken h start_block total_blocks)
]

-- The loop of `heap_mark_blocks_free` with `left` entries up to the end of the table.
pub mark_free_from : ℕ → ℕ → List ℕ → List ℕ
mark_free_from zero i es = es
mark_free_from (suc left) i es =
    let rest = mark_free_from left (i + 1) (set es i entry_free) in
    if bit_and (get_or es i 0) has_next == 0 then set es i entry_free else rest

pub mark_blocks_free : Heap → ℕ → Heap
unfolding mark_free_from
mark_blocks_free h starting_block =
    with_entries h (mark_free_from (h.total - starting_block) starting_block h.entries)

-- `heap_malloc`, for a 32-bit `size`.
pub malloc : Heap → ℕ → ℕ × Heap
unfolding align_value_to_upper
malloc h size =
    if ltb (2 ^ 32 - 1 - (block_size - 1)) size
    then (0, h)
    else if align_value_to_upper size / block_size == 0
    then (0, h)
    else malloc_blocks h (align_value_to_upper size / block_size)

pub free : Heap → ℕ → Heap
unfolding validate_alignment
free h ptr =
    if ptr == 0 || not (validate_alignment ptr)
    then h
    else if ltb ptr h.saddr
    then h
    else let block = (ptr - h.saddr) / block_size in
      if leb h.total block
      then h
      else let entry = get_or h.entries block 0 in
        if not (entry_type entry == entry_taken) || bit_and entry is_first == 0
        then h
        else mark_blocks_free h block
