-- ===== src/Heap/Tests.antt =====
-- Runs of the allocator on a pool of six blocks, and its theorems at these.
use rorth_ox.Prelude.{
  ℕ, ◌<◌, ◌≡◌, ◌≢◌, refl, arith, List, [], ◌∷◌, length, replicate, length-replicate, ap, subst,
}
use rorth_ox.Status.{ok}
use rorth_ox.Heap.{
  Heap, HeapTable, create, malloc, free, fill, scan, get_start_block, mark_taken_from,
  mark_blocks_taken, malloc_blocks, align_value_to_upper, block_to_address, mark_free_from,
  mark_blocks_free, validate_alignment, validate_table,
}
use rorth_ox.Heap.Search.{FreeAt}
use rorth_ox.Heap.Alloc.{WellFormed, MallocOutcome, malloc-Outcome, malloc-WellFormed}
use rorth_ox.Heap.Release.{FreeOutcome, free-Outcome, free_twice, free-malloc}
use rorth_ox.Heap.Create.{create-Fresh}
use rorth_ox.Heap.History.{run, mallocs, frees, boot-WellFormed}
use rorth_ox.Heap.Kernel.{
  kernel_create, kheap_init, kheap_init-WellFormed, kzalloc, KzallocOutcome, kzalloc-Outcome,
}

abbrev dirty : HeapTable
dirty = record { entries = 7 ∷ 7 ∷ 7 ∷ 7 ∷ 7 ∷ 7 ∷ []; total = 6 }

abbrev none_yet : Heap
none_yet = record { table = record { entries = []; total = 0 }; saddr = 0 }

abbrev pool : Heap
pool = record {
  table = record { entries = 0 ∷ 0 ∷ 0 ∷ 0 ∷ 0 ∷ 0 ∷ []; total = 6 };
  saddr = 0x10000;
}

-- Blocks 0 and 1 are one run, 2 is free, 3 is a run of its own.
abbrev busy : Heap
busy = record {
  table = record { entries = 0xc1 ∷ 0x01 ∷ 0 ∷ 0x41 ∷ 0 ∷ 0 ∷ []; total = 6 };
  saddr = 0x10000;
}

create_run : create none_yet 0x10000 0x16000 dirty ≡ (ok 0, pool)
unfolding create validate_alignment validate_table fill
create_run = refl

malloc_run : malloc pool 5000 ≡ (
  0x10000,
  record pool { table = record { entries = 0xc1 ∷ 0x01 ∷ 0 ∷ 0 ∷ 0 ∷ 0 ∷ []; total = 6 } },
)
unfolding malloc malloc_blocks get_start_block scan mark_blocks_taken mark_taken_from
    align_value_to_upper block_to_address
malloc_run = refl

malloc_first_fit : (malloc busy 8192).0 ≡ 0x14000
unfolding malloc malloc_blocks get_start_block scan mark_blocks_taken mark_taken_from
    align_value_to_upper block_to_address
malloc_first_fit = refl

free_run : (free busy 0x10000).entries ≡ 0 ∷ 0 ∷ 0 ∷ 0x41 ∷ 0 ∷ 0 ∷ []
unfolding free mark_blocks_free mark_free_from validate_alignment
free_run = refl

pool-WellFormed : WellFormed pool
pool-WellFormed =
    subst WellFormed (ap (λ r. r.1) create_run)
      ((create-Fresh none_yet 0x10000 0x16000 dirty (omega arith) (omega arith) (omega arith)
          refl).1
        (ap (λ r. r.0) create_run)).0

malloc-Outcome_example : MallocOutcome pool 5000 (malloc pool 5000)
malloc-Outcome_example = malloc-Outcome pool 5000 pool-WellFormed

free-Outcome_example : FreeOutcome (malloc pool 5000).1 0x10000 (free (malloc pool 5000).1 0x10000)
free-Outcome_example =
    free-Outcome (malloc pool 5000).1 0x10000 (malloc-WellFormed pool 5000 pool-WellFormed)

free_twice_example :
    free (free (malloc pool 5000).1 0x10000) 0x10000 ≡ free (malloc pool 5000).1 0x10000
free_twice_example =
    free_twice (malloc pool 5000).1 0x10000 (malloc-WellFormed pool 5000 pool-WellFormed)

malloc-address : (malloc pool 5000).0 ≢ 0
malloc-address e = absurd (omega (arith, ap (λ r. r.0) malloc_run, e))

free-malloc_example : free (malloc pool 5000).1 (malloc pool 5000).0 ≡ pool
free-malloc_example = free-malloc pool 5000 pool-WellFormed malloc-address

boot_bytes : List ℕ
boot_bytes = replicate 25600 0xff

boot_bytes-length : length boot_bytes ≡ 25600
unfolding boot_bytes
boot_bytes-length = length-replicate {A = ℕ} 25600 0xff

kheap_init-WellFormed_example :
    ((kernel_create none_yet boot_bytes).0 ≡ ok 0)
    × WellFormed (kheap_init none_yet boot_bytes)
    × ((j : ℕ) → j < 25600 → FreeAt (kheap_init none_yet boot_bytes).entries j)
kheap_init-WellFormed_example = kheap_init-WellFormed none_yet boot_bytes boot_bytes-length

boot-WellFormed_example : WellFormed (
    run
      (kheap_init none_yet boot_bytes)
      (mallocs 5000 ∷ mallocs 1 ∷ frees 0x1000000 ∷ frees 0x1000001 ∷ []))
boot-WellFormed_example =
    boot-WellFormed none_yet boot_bytes
      (mallocs 5000 ∷ mallocs 1 ∷ frees 0x1000000 ∷ frees 0x1000001 ∷ []) boot_bytes-length

kzalloc-Outcome_example : KzallocOutcome pool (λ x. 0xaa) 5000 (kzalloc pool (λ x. 0xaa) 5000)
kzalloc-Outcome_example = kzalloc-Outcome pool (λ x. 0xaa) 5000 pool-WellFormed
