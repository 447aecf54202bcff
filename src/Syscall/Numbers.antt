-- ===== src/Syscall/Numbers.antt =====
-- The two classes of system call numbers.
use ajulius.Prelude.{◌≢◌, ℕ, ◌↔◌, ◌+◌, ◌-◌, ◌≤◌, ◌<◌, ◌^◌, ◌≡◌, arith, ◌∙◌}
use ajulius.Prelude.Bits.{bit_or_field}
use ajulius.Syscall.{bsd_syscall, mach_trap}

pub bsd_syscall-eq-add : (n : ℕ) → n < 2 ^ 25 → bsd_syscall n ≡ 2 ^ 25 + n
unfolding bsd_syscall
bsd_syscall-eq-add n h = bit_or_field 25 1 n h ∙ omega arith

pub mach_trap-eq-sub : (n : ℕ) → 0 < n → n ≤ 2 ^ 63 → mach_trap n ≡ 2 ^ 64 - n
unfolding mach_trap
mach_trap-eq-sub n pos h = omega arith

-- A BSD number is positive and a trap number negative as a `long`, so the classes do not meet;
-- within a class two numbers are equal exactly if the slots are.
pub bsd_syscall-mach_trap :
    (n m : ℕ)
    → n < 2 ^ 25
    → m < 2 ^ 25
    → 0 < n
    → 0 < m
    → (bsd_syscall n < 2 ^ 63)
      × (2 ^ 63 ≤ mach_trap m)
      × ((bsd_syscall n ≡ bsd_syscall m) ↔ (n ≡ m))
      × ((mach_trap n ≡ mach_trap m) ↔ (n ≡ m))
bsd_syscall-mach_trap n m hn hm pn pm =
    let bn = bsd_syscall-eq-add n hn in
    let bm = bsd_syscall-eq-add m hm in
    let tn = mach_trap-eq-sub n pn (omega arith) in
    let tm = mach_trap-eq-sub m pm (omega arith) in
    (
      omega arith,
      omega arith,
      (λ h. omega arith, λ h. omega arith),
      (λ h. omega arith, λ h. omega arith),
    )

pub mach_trap-ne :
    (n m : ℕ) → 0 < n → n ≤ 1000 → 0 < m → m ≤ 1000 → n ≢ m → mach_trap n ≢ mach_trap m
mach_trap-ne n m pn hn pm hm ne e =
    absurd
      (ne (omega (arith, mach_trap-eq-sub n pn (omega arith), mach_trap-eq-sub m pm (omega arith))))

pub bsd_syscall-ne-mach_trap : (n m : ℕ) → n ≤ 1000 → 0 < m → m ≤ 1000 → bsd_syscall n ≢ mach_trap m
bsd_syscall-ne-mach_trap n m hn pm hm e =
    absurd (omega (arith, bsd_syscall-eq-add n (omega arith), mach_trap-eq-sub m pm (omega arith)))
