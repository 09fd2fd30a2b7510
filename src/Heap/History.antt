-- ===== src/Heap/History.antt =====
-- The kernel heap over a whole history of kmalloc and kfree calls from boot on.
use rorth_ox.Prelude.{ℕ, ◌≡◌, List, [], ◌∷◌, length}
use rorth_ox.Heap.{Heap}
use rorth_ox.Heap.Alloc.{WellFormed, malloc-WellFormed}
use rorth_ox.Heap.Release.{free-WellFormed}
use rorth_ox.Heap.Kernel.{kheap_init, kmalloc, kfree, kheap_init-WellFormed}

pub data Call : Type 0 where
  mallocs frees : ℕ → Call

pub run : Heap → List Call → Heap
run h [] = h
run h (mallocs size ∷ cs) = run (kmalloc h size).1 cs
run h (frees ptr ∷ cs) = run (kfree h ptr) cs

pub run-WellFormed : (cs : List Call) (h : Heap) → WellFormed h → WellFormed (run h cs)
unfolding run kmalloc kfree
run-WellFormed [] h v = v
run-WellFormed (mallocs size ∷ cs) h v =
    run-WellFormed cs (kmalloc h size).1 (malloc-WellFormed h size v)
run-WellFormed (frees ptr ∷ cs) h v = run-WellFormed cs (kfree h ptr) (free-WellFormed h ptr v)

-- Whatever is allocated and whatever pointers are freed after boot, the table of the kernel heap
-- stays well formed: its bytes are entries of the allocator, and every run ends inside the table.
pub boot-WellFormed :
    (kernel_heap : Heap) (bytes : List ℕ) (cs : List Call)
    → length bytes ≡ 25600
    → WellFormed (run (kheap_init kernel_heap bytes) cs)
boot-WellFormed kernel_heap bytes cs e =
    run-WellFormed cs (kheap_init kernel_heap bytes) (kheap_init-WellFormed kernel_heap bytes e).1
