-- ===== src/Heap/Align.antt =====
-- ALIGN(size, HEAP_ALIGN): rounding up to a multiple of 16, and where it wraps.
use ajulius.Prelude.{ℕ, ◌+◌, ◌-◌, ◌*◌, ◌/◌, ◌%◌, ◌≤◌, ◌<◌, ◌^◌, ◌≡◌, arith}
use ajulius.Prelude.Bits.{bit_and_low, bit_and_high}
use ajulius.Types.{u64, align}
use ajulius.Heap.{heap_align}

-- The mask is a division and a multiplication.
pub align-eq-mul : (n : ℕ) → align n heap_align ≡ u64 (n + 15) / 16 * 16
unfolding align
align-eq-mul n =
    let sum : u64 (u64 (n + 16) + 2 ^ 64 - 1) ≡ u64 (n + 15) = omega arith in
    rw (sum, bit_and_high 4 (u64 (n + 15)) (2 ^ 60 - 1), bit_and_low 60 (u64 (n + 15) / 16))
      (omega arith)

-- Up to 2 ^ 64 - 16 a size is rounded up to the next multiple of 16.
pub align_bounds :
    (n : ℕ)
    → n ≤ 2 ^ 64 - 16
    → (n ≤ align n heap_align) × (align n heap_align < n + 16) × (align n heap_align % 16 ≡ 0)
align_bounds n h = omega (arith, align-eq-mul n)

-- Above that the sum wraps, and the rounded size is zero.
pub align_wraps : (n : ℕ) → 2 ^ 64 - 16 < n → n < 2 ^ 64 → align n heap_align ≡ 0
align_wraps n h small = omega (arith, align-eq-mul n)
