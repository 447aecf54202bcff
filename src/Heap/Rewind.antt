-- ===== src/Heap/Rewind.antt =====
-- Sizes so large that the heap pointer passes the end of the address space.
use ajulius.Prelude.{
  ℕ, ◌+◌, ◌-◌, ◌%◌, ◌≤◌, ◌<◌, ◌^◌, ◌≡◌, refl, false, ltb, ne→==, List, [], ◌∷◌, arith, ap,
}
use ajulius.Types.{u64, align}
use ajulius.Machine.{word, Machine, World, ok}
use ajulius.Heap.{heap_align, julius_malloc, malloc_aligned, take_block}
use ajulius.Heap.Align.{align-eq-mul}
use ajulius.Heap.Blocks.{Block, IsHeap}
use ajulius.Heap.Session.{malloc, call_heap, call_all}
use ajulius.Heap.Capacity.{demand, malloc_fits}

-- A request of 2 ^ 64 - n bytes moves the heap pointer back by n.
julius_malloc_rewinds :
    (e : Machine) (w : World) (n : ℕ)
    → 0 < w.heap_base
    → w.heap_ptr ≤ w.heap_end
    → w.heap_end ≤ 2 ^ 47
    → 0 < n
    → n ≤ w.heap_ptr
    → n % 16 ≡ 0
    → julius_malloc e (2 ^ 64 - n) w ≡ ok (word w.heap_ptr) (record w { heap_ptr = w.heap_ptr - n })
unfolding julius_malloc malloc_aligned take_block
julius_malloc_rewinds e w n there ordered space pos le whole =
    let rounded : align (2 ^ 64 - n) heap_align ≡ 2 ^ 64 - n =
      omega (arith, align-eq-mul (2 ^ 64 - n)) in
    let sum : u64 (w.heap_ptr + (2 ^ 64 - n)) ≡ w.heap_ptr - n = omega arith in
    let room : ltb w.heap_end (w.heap_ptr - n) ≡ false = ground arith in
    rw (ne→== w.heap_base 0 (λ z. absurd (omega arith)), rounded, sum, room)
      (ap (λ (p : ℕ). ok (word w.heap_ptr) (record w { heap_ptr = p })) sum)

-- With a heap there and in order, take a request above 0 that fits in what is left of the region,
-- and `n`, its size rounded up to a multiple of 16. The request, one of 2 ^ 64 - n bytes, and the
-- same request again, all succeed without a system call: the first and the third are given one and
-- the same block, and the second the address behind it.
pub julius_malloc_repeats :
    (e : Machine) (w : World) (bs : List Block) (size : ℕ)
    → IsHeap w bs
    → 0 < w.heap_base
    → 0 < size
    → w.heap_ptr + demand (malloc size) ≤ w.heap_end
    → call_all e (malloc size ∷ malloc (2 ^ 64 - demand (malloc size)) ∷ malloc size ∷ []) w
      ≡ ok
          (word w.heap_ptr ∷ word (w.heap_ptr + demand (malloc size)) ∷ word w.heap_ptr ∷ [])
          (record w { heap_ptr = w.heap_ptr + demand (malloc size) })
unfolding call_all call_heap
julius_malloc_repeats e w bs size h there pos fits =
    let n = demand (malloc size) in
    let space = h.in_space in
    let back : w.heap_ptr + n - n ≡ w.heap_ptr = omega arith in
    rw
      (
        malloc_fits e w size there space fits,
        julius_malloc_rewinds e (record w { heap_ptr = w.heap_ptr + n }) n there fits space
            (omega arith) (omega arith) (omega arith),
        back,
        malloc_fits e w size there space fits,
      )
      refl
