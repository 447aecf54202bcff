-- ===== src/Heap/Overflow.antt =====
-- Sizes that ALIGN wraps to zero.
use ajulius.Prelude.{ℕ, ◌+◌, ◌-◌, ◌<◌, ◌^◌, ◌≡◌, List, ne→==, ltb, false, ap, arith}
use ajulius.Types.{u64}
use ajulius.Machine.{word, Machine, World, ok}
use ajulius.Heap.{julius_malloc, malloc_aligned, take_block}
use ajulius.Heap.Align.{align_wraps}
use ajulius.Heap.Blocks.{Block, IsHeap}

module _ (e : Machine) (w : World) (bs : List Block) where
  -- With a heap there and in order, for a size above 2 ^ 64 - 16 `julius_malloc` asks the kernel
  -- for nothing, changes nothing, and returns the heap pointer as if it were a block of that size.
  pub julius_malloc_wraps :
      (size : ℕ)
      → IsHeap w bs
      → 0 < w.heap_base
      → 2 ^ 64 - 16 < size
      → size < 2 ^ 64
      → julius_malloc e size w ≡ ok (word w.heap_ptr) w
  unfolding julius_malloc malloc_aligned take_block
  julius_malloc_wraps size h pos high small =
      let ord = h.ordered in
      let space = h.in_space in
      let sum : u64 (w.heap_ptr + 0) ≡ w.heap_ptr = omega arith in
      let ne = ne→== w.heap_base 0 (λ z. absurd (omega arith)) in
      let room : ltb w.heap_end w.heap_ptr ≡ false = ground arith in
      rw (ne, align_wraps size high small, sum, room)
        (ap (λ (p : ℕ). ok (word w.heap_ptr) (record w { heap_ptr = p })) sum)
