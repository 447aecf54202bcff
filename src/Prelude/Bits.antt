-- ===== src/Prelude/Bits.antt =====
-- Masks and fields of binary words, as arithmetic: what `|` and `&` of the C code come to.
use Prim.Native.Nat.{
  ℕ, zero, suc, ◌+◌, ◌-◌, ◌*◌, ◌/◌, ◌%◌, ◌^◌, ◌≤◌, ◌<◌, min, max, digits, bit_and, bit_or,
  bit_and-bitwise, bit_or-bitwise,
}
use mathlib.Core.Path.{◌≡◌, refl, ap}
use native.Mathlib.Nat.{pow-suc, one-le-pow, mul_comm, div-div-eq-div-mul, div-add-mod}
use native.Mathlib.Omega.{arith}

-- The count of digits to go does not matter, once it is large enough.
digits_count :
    (z : ℕ → ℕ) (f : ℕ → ℕ → ℕ) (a b n m : ℕ) → a ≤ n → a ≤ m → digits z f n a b ≡ digits z f m a b
digits_count z f a b zero zero p q = refl
digits_count z f zero b zero (suc m) p q = refl
digits_count z f (suc a) b zero (suc m) p q = elim p [ ]
digits_count z f zero b (suc n) zero p q = refl
digits_count z f (suc a) b (suc n) zero p q = elim q [ ]
digits_count z f zero b (suc n) (suc m) p q = refl
digits_count z f (suc a) b (suc n) (suc m) p q =
    ap (λ (t : ℕ). t * 2 + f (suc a % 2) (b % 2))
      (digits_count z f (suc a / 2) (b / 2) n m (omega arith) (omega arith))

-- The lowest digit, and the rest.
bit_or_digit : (a b : ℕ) → bit_or a b ≡ bit_or (a / 2) (b / 2) * 2 + max (a % 2) (b % 2)
bit_or_digit zero b = rw (bit_or-bitwise, bit_or-bitwise) (omega arith)
bit_or_digit (suc a) b = simp bit_or-bitwise (
    ap (λ (t : ℕ). t * 2 + max (suc a % 2) (b % 2))
      (digits_count (λ y. y) max (suc a / 2) (b / 2) a (suc a / 2) (omega arith) (omega arith)))

bit_and_digit : (a b : ℕ) → bit_and a b ≡ bit_and (a / 2) (b / 2) * 2 + min (a % 2) (b % 2)
bit_and_digit zero b = rw (bit_and-bitwise, bit_and-bitwise) (omega arith)
bit_and_digit (suc a) b = simp bit_and-bitwise (
    ap (λ (t : ℕ). t * 2 + min (suc a % 2) (b % 2))
      (digits_count (λ y. 0) min (suc a / 2) (b / 2) a (suc a / 2) (omega arith) (omega arith)))

bit_or_zero_upto : (n a : ℕ) → a ≤ n → bit_or a 0 ≡ a
bit_or_zero_upto n zero h = refl
bit_or_zero_upto zero (suc a) h = elim h [ ]
bit_or_zero_upto (suc n) (suc a) h =
    omega (arith, bit_or_digit (suc a) 0, bit_or_zero_upto n (suc a / 2) (omega arith))

bit_and_zero_upto : (n a : ℕ) → a ≤ n → bit_and a 0 ≡ 0
bit_and_zero_upto n zero h = refl
bit_and_zero_upto zero (suc a) h = elim h [ ]
bit_and_zero_upto (suc n) (suc a) h =
    omega (arith, bit_and_digit (suc a) 0, bit_and_zero_upto n (suc a / 2) (omega arith))

-- Setting a field of `k` bits below a number that has zeros there.
pub bit_or_field : (k q r : ℕ) → r < 2 ^ k → bit_or (q * 2 ^ k) r ≡ q * 2 ^ k + r
bit_or_field zero q r h = ground (arith, bit_or_zero_upto q q)
bit_or_field (suc k) q r h = ground (
  arith,
  bit_or_digit (q * 2 ^ suc k) r,
  ap (λ (t : ℕ). q * t) (pow-suc 2 k),
  pow-suc 2 k,
  bit_or_field k q (r / 2),
)

mod_double : (a p : ℕ) → 0 < p → a % (p * 2) ≡ a / 2 % p * 2 + a % 2
mod_double a p h = grind (
  arith,
  div-add-mod a (p * 2),
  div-add-mod (a / 2) p,
  ap (λ (t : ℕ). a / t) (mul_comm p 2),
  div-div-eq-div-mul a 2 p,
)

-- A mask of `k` low bits keeps the remainder.
pub bit_and_low : (k a : ℕ) → bit_and a (2 ^ k - 1) ≡ a % 2 ^ k
bit_and_low zero a = ground (arith, bit_and_zero_upto a a)
bit_and_low (suc k) a = grind (
  arith,
  bit_and_digit a (2 ^ suc k - 1),
  pow-suc 2 k,
  one-le-pow k 2,
  bit_and_low k (a / 2),
  mod_double a (2 ^ k),
)

-- A mask that ends in `k` zeros looks at the bits above them only.
pub bit_and_high : (k a m : ℕ) → bit_and a (m * 2 ^ k) ≡ bit_and (a / 2 ^ k) m * 2 ^ k
bit_and_high zero a m = ground arith
bit_and_high (suc k) a m = ground (
  arith,
  bit_and_digit a (m * 2 ^ suc k),
  pow-suc 2 k,
  ap (λ (t : ℕ). m * t) (pow-suc 2 k),
  ap (λ (t : ℕ). bit_and (a / t) m * t) (pow-suc 2 k),
  ap (λ (t : ℕ). bit_and (a / t) m) (mul_comm (2 ^ k) 2),
  ap (λ (t : ℕ). bit_and t m) (div-div-eq-div-mul a 2 (2 ^ k)),
  bit_and_high k (a / 2) m,
)

bit_or-zero_left : (b : ℕ) → bit_or 0 b ≡ b
bit_or-zero_left b = rw bit_or-bitwise

-- The same with the low field first.
pub bit_or_field_right : (k q r : ℕ) → r < 2 ^ k → bit_or r (q * 2 ^ k) ≡ q * 2 ^ k + r
bit_or_field_right zero q r h =
    let z : r ≡ 0 = omega arith in rw (z, bit_or-zero_left) (omega arith)
bit_or_field_right (suc k) q r h = ground (
  arith,
  bit_or_digit r (q * 2 ^ suc k),
  ap (λ (t : ℕ). q * t) (pow-suc 2 k),
  pow-suc 2 k,
  bit_or_field_right k q (r / 2),
)
