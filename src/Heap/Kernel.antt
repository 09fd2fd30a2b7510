-- ===== src/Heap/Kernel.antt =====
-- kernel/memory/heap/kheap.c: the one heap of the kernel, and its zeroing allocator.
use rorth_ox.Prelude.{
  ℕ, ◌+◌, ◌/◌, ◌<◌, ◌≡◌, refl, ◌⊎◌, inl, inr, List, arith, true, false, ◌==◌, if◌then◌else◌, length,
  ==_iff,
}
use rorth_ox.Status.{Result, ok}
use rorth_ox.Memory.{Mem, memset}
use rorth_ox.Memory.Laws.{within, memset_lem}
use rorth_ox.Heap.{Heap, HeapTable, block_size, create, malloc, free}
use rorth_ox.Heap.Search.{FreeAt}
use rorth_ox.Heap.Alloc.{WellFormed, Allocated, malloc-Outcome, blocks_for}
use rorth_ox.Heap.Create.{create-Fresh}

-- RORTHOX_HEAP_SIZE_BYTES and RORTHOX_HEAP_ADDRESS
abbrev pub heap_size_bytes : ℕ
heap_size_bytes = 104857600

abbrev pub heap_address : ℕ
heap_address = 0x01000000

-- What `kheap_init` asks heap_create for: `kernel_heap` before it, and the bytes found at
-- RORTHOX_HEAP_TABLE_ADDRESS.
abbrev pub kernel_create : Heap → List ℕ → Result ℕ × Heap
kernel_create kernel_heap bytes =
    create kernel_heap heap_address (heap_address + heap_size_bytes)
      (record { entries = bytes; total = heap_size_bytes / block_size })

-- `kheap_init` returns nothing: a refusal is only printed.
pub kheap_init : Heap → List ℕ → Heap
kheap_init kernel_heap bytes = (kernel_create kernel_heap bytes).1

-- `kmalloc` and `kfree` are the heap's own on `kernel_heap`; `kzalloc` clears what it got.
unfoldable pub kmalloc : Heap → ℕ → ℕ × Heap
kmalloc kernel_heap size = malloc kernel_heap size

pub kzalloc : Heap → Mem → ℕ → ℕ × Heap × Mem
unfolding kmalloc
kzalloc kernel_heap m size =
    let (ptr, h') = kmalloc kernel_heap size in
    if ptr == 0 then (0, h', m) else (ptr, h', memset m ptr 0 size)

unfoldable pub kfree : Heap → ℕ → Heap
kfree kernel_heap ptr = free kernel_heap ptr

-- The configured heap is accepted at boot: 25600 blocks, all of them free, in a well-formed table,
-- whatever the memory held.
pub kheap_init-WellFormed :
    (kernel_heap : Heap) (bytes : List ℕ)
    → length bytes ≡ 25600
    → ((kernel_create kernel_heap bytes).0 ≡ ok 0)
      × WellFormed (kheap_init kernel_heap bytes)
      × ((j : ℕ) → j < 25600 → FreeAt (kheap_init kernel_heap bytes).entries j)
unfolding kheap_init
kheap_init-WellFormed kernel_heap bytes e =
    let table : HeapTable = record { entries = bytes; total = heap_size_bytes / block_size } in
    let fresh =
      create-Fresh kernel_heap heap_address (heap_address + heap_size_bytes) table (omega arith)
        (omega arith) (omega arith) (omega (arith, e)) in
    let done = fresh.0.1 (omega arith) in let (v, all) = fresh.1 done in (done, v, all)

-- What kzalloc gives back: nothing, with heap and memory as they were, or a block of the heap whose
-- `size` bytes are 0, with every byte outside them as it was.
abbrev pub KzallocOutcome : Heap → Mem → ℕ → ℕ × Heap × Mem → Type 0
KzallocOutcome h m size (p, h', m') =
    ((p ≡ 0) × (h' ≡ h) × (m' ≡ m))
    ⊎ ((s : ℕ) × Allocated h h' (blocks_for size) s p
        × ((x : ℕ) → m' x ≡ (if within p size x then 0 else m x)))

-- kzalloc either fails and changes nothing, or hands out a run of the heap with exactly the asked
-- bytes cleared.
pub kzalloc-Outcome :
    (h : Heap) (m : Mem) (size : ℕ) → WellFormed h → KzallocOutcome h m size (kzalloc h m size)
unfolding kzalloc
kzalloc-Outcome h m size v = elim (malloc-Outcome h size v) [
  | inl (null, same, why) ↦
      let fails : ((malloc h size).0 == 0) ≡ true = (==_iff _ _).1 null in
      inl (rw fails (refl, same, refl))
  | inr (s, pos, small, a) ↦
      let works : ((malloc h size).0 == 0) ≡ false = ground (arith, a.not_null) in
      inr (rw works (s, a, λ x. memset_lem m (malloc h size).0 0 size x))
]
