-- ===== src/Examples/Heap.antt =====
-- The heap at concrete inputs.
use ajulius.Prelude.{◌-◌, ◌≡◌, ◌^◌, refl, inl, inr, List, [], ◌∷◌, arith}
use ajulius.Types.{align}
use ajulius.Machine.{word, null, World, ok}
use ajulius.Outcome.Returns.{Ends, Returns}
use ajulius.Heap.{julius_mem_init, julius_malloc, julius_calloc}
use ajulius.Heap.Region.{Initialised, NoHeap, julius_mem_init-Initialised}
use ajulius.Heap.Blocks.{Block, block, IsHeap}
use ajulius.Heap.Calloc.{Zeroes, julius_calloc-Zeroes}
use ajulius.Heap.Rewind.{julius_malloc_repeats}
use ajulius.Heap.Malloc.{Allocates, julius_malloc-Allocates}
use ajulius.Heap.Session.{HeapCall, malloc, calloc, free, call_all}
use ajulius.Heap.Capacity.{layout, total_demand, call_all_fits}
use ajulius.Examples.Demo.{demo, demo_laws, start, start-HasBuffers, page-MappedRange}

align_runs : (align 1 16 ≡ 16) × (align 64 16 ≡ 64) × (align (2 ^ 64 - 1) 16 ≡ 0)
unfolding align
align_runs = (refl, refl, refl)

julius_mem_init-Initialised_example :
    Ends (λ _. Initialised demo start) (NoHeap demo start) (julius_mem_init demo start)
julius_mem_init-Initialised_example =
    julius_mem_init-Initialised demo demo_laws start start-HasBuffers

-- The arrays of the printers as blocks that the heap must leave alone.
abbrev arrays : List Block
arrays = block 4160 18 ∷ block 4178 22 ∷ []

start-IsHeap : IsHeap start arrays
start-IsHeap = record {
  real = inl refl;
  ordered = omega arith;
  in_space = omega arith;
  aligned = refl;
  free = λ x lo hi. absurd (omega arith);
  blocks = (
    record {
      mapped = page-MappedRange 4160 18 (omega arith) (omega arith);
      spared = λ x lo hi. inr (omega arith);
    },
    (
      record {
        mapped = page-MappedRange 4178 22 (omega arith) (omega arith);
        spared = λ x lo hi. inr (omega arith);
      },
      tt,
    ),
  );
  apart = (((λ x lo hi. inl (omega arith)), tt), (tt, tt));
}

julius_malloc-Allocates_example :
    Ends
      (Allocates demo start arrays 64)
      (λ w'. (start.heap_base ≡ 0) × NoHeap demo start w')
      (julius_malloc demo 64 start)
julius_malloc-Allocates_example =
    julius_malloc-Allocates demo demo_laws start arrays 64 start-HasBuffers start-IsHeap
      (omega arith)

julius_calloc-Zeroes_example :
    Ends
      (Zeroes demo start arrays 32)
      (λ w'. (start.heap_base ≡ 0) × NoHeap demo start w')
      (julius_calloc demo 8 4 start)
julius_calloc-Zeroes_example =
    julius_calloc-Zeroes demo demo_laws start arrays 8 4 start-HasBuffers start-IsHeap (omega arith)

-- A product that wraps to zero: `calloc` then hands out a block of no bytes.
abbrev few_calls : List HeapCall
few_calls = malloc 100 ∷ calloc 8 4 ∷ free (word 4096) ∷ calloc (2 ^ 32) (2 ^ 32) ∷ malloc 0 ∷ []

-- A heap of one page that is used up to its middle.
abbrev half_used : World
half_used = record start { heap_base = 4096; heap_ptr = 6144; heap_end = 8192 }

half_used-IsHeap : IsHeap half_used []
half_used-IsHeap = record {
  real = inr (omega arith);
  ordered = omega arith;
  in_space = omega arith;
  aligned = refl;
  free = λ x lo hi.
      page-MappedRange 4096 4096 (omega arith) (omega arith) x (omega arith) (omega arith);
  blocks = tt;
  apart = tt;
}

julius_malloc_repeats_example :
    call_all demo (malloc 100 ∷ malloc (2 ^ 64 - 112) ∷ malloc 100 ∷ []) half_used
    ≡ ok (word 6144 ∷ word 6256 ∷ word 6144 ∷ []) (record half_used { heap_ptr = 6256 })
julius_malloc_repeats_example =
    julius_malloc_repeats demo half_used [] 100 half_used-IsHeap (omega arith) (omega arith)
      (omega arith)

-- Half a page is enough for these.
abbrev small_calls : List HeapCall
small_calls = malloc 100 ∷ malloc 1 ∷ free (word 6144) ∷ malloc 0 ∷ malloc 1900 ∷ []

call_all_fits_example :
    call_all demo small_calls half_used
    ≡ ok
        (word 6144 ∷ word 6256 ∷ null ∷ word 6272 ∷ word 6272 ∷ [])
        (record half_used { heap_ptr = 8176 })
unfolding total_demand layout
call_all_fits_example =
    call_all_fits demo small_calls half_used (omega arith) (omega arith) (omega arith) (omega arith)
