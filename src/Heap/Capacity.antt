-- ===== src/Heap/Capacity.antt =====
-- What one region of the heap is good for: calls that fit in it, without the kernel.
use ajulius.Prelude.{
  ℕ, ◌+◌, ◌*◌, ◌/◌, ◌≤◌, ◌<◌, ◌^◌, ◌≡◌, refl, false, ltb, ne→==, List, [], ◌∷◌, All, arith, ap,
}
use ajulius.Types.{u64, align}
use ajulius.Machine.{Value, word, null, Machine, World, ok}
use ajulius.Heap.{heap_align, julius_malloc, malloc_aligned, take_block, julius_free}
use ajulius.Heap.Align.{align-eq-mul}
use ajulius.Heap.Session.{HeapCall, malloc, calloc, free, call_heap, call_all}

-- No call of `julius_calloc`.
abbrev pub IsPlain : HeapCall → Type 0
IsPlain (calloc nmemb size) = ⊥
IsPlain c = Unit

-- The bytes that a call uses up: the size in whole units of 16 bytes, and nothing for a free.
abbrev pub demand : HeapCall → ℕ
demand (malloc size) = (size + 15) / 16 * 16
demand c = 0

unfoldable pub total_demand : List HeapCall → ℕ
total_demand [] = 0
total_demand (c ∷ cs) = demand c + total_demand cs

-- The results: each block right behind the one before, from the address `p` on.
unfoldable pub layout : ℕ → List HeapCall → List Value
layout p [] = []
layout p (malloc size ∷ cs) = word p ∷ layout (p + demand (malloc size)) cs
layout p (c ∷ cs) = null ∷ layout p cs

-- One `julius_malloc` that fits.
pub malloc_fits :
    (e : Machine) (w : World) (size : ℕ)
    → 0 < w.heap_base
    → w.heap_end ≤ 2 ^ 47
    → w.heap_ptr + demand (malloc size) ≤ w.heap_end
    → julius_malloc e size w
      ≡ ok (word w.heap_ptr) (record w { heap_ptr = w.heap_ptr + demand (malloc size) })
unfolding julius_malloc malloc_aligned take_block
malloc_fits e w size there space fits =
    let n = demand (malloc size) in
    let rounded : align size heap_align ≡ n = omega (arith, align-eq-mul size) in
    let sum : u64 (w.heap_ptr + n) ≡ w.heap_ptr + n = omega arith in
    let room : ltb w.heap_end (w.heap_ptr + n) ≡ false = ground arith in
    rw (ne→== w.heap_base 0 (λ z. absurd (omega arith)), rounded, sum, room)
      (ap (λ (p : ℕ). ok (word w.heap_ptr) (record w { heap_ptr = p })) sum)

-- With a heap there, calls of `julius_malloc` and `julius_free` whose sizes, each rounded up to a
-- multiple of 16, come to no more than is left of the region succeed without a system call: the
-- blocks stand one behind the other from the heap pointer on, and the only change is that the
-- pointer has moved past them, frees or not.
pub call_all_fits :
    (e : Machine) (cs : List HeapCall) (w : World)
    → All IsPlain cs
    → 0 < w.heap_base
    → w.heap_end ≤ 2 ^ 47
    → w.heap_ptr + total_demand cs ≤ w.heap_end
    → call_all e cs w
      ≡ ok (layout w.heap_ptr cs) (record w { heap_ptr = w.heap_ptr + total_demand cs })
unfolding call_all call_heap julius_free layout total_demand
call_all_fits e [] w plain there space fits =
    ap (λ (p : ℕ). ok [] (record w { heap_ptr = p })) (omega arith)
call_all_fits e (malloc size ∷ cs) w (_, plain) there space fits =
    let n = demand (malloc size) in
    let v = record w { heap_ptr = w.heap_ptr + n } in
    let sum : w.heap_ptr + n + total_demand cs ≡ w.heap_ptr + (n + total_demand cs) = omega arith in
    rw
      (
        malloc_fits e w size there space (omega arith),
        call_all_fits e cs v plain there space (omega arith),
        sum,
      )
      refl
call_all_fits e (calloc nmemb size ∷ cs) w (plain, _) there space fits = absurd plain
call_all_fits e (free ptr ∷ cs) w (_, plain) there space fits =
    rw (call_all_fits e cs w plain there space (omega arith))
      (ap (λ (p : ℕ). ok (null ∷ layout w.heap_ptr cs) (record w { heap_ptr = p })) (omega arith))
