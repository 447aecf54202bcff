-- ===== src/Examples/Kernel.antt =====
-- A kernel, and what it answers to each call.
use ajulius.Prelude.{
  ◌<◌, ℕ, ◌≤◌, ◌≡◌, refl, ◌≢◌, ◌∙◌, sym, ◌==◌, if◌then◌else◌, eq→==, ne→==, some, List, arith,
}
use ajulius.Machine.{Value, word, Memory, Regs, Call, Kernel}
use ajulius.Syscall.{
  mach_trap, bsd_syscall, regs3, trap_mach_port_allocate, trap_mach_msg_trap, trap_task_self_trap,
}
use ajulius.Heap.{trap_mach_vm_allocate, trap_mach_vm_deallocate}
use ajulius.Examples.Regions.{take_region, give_region}
use ajulius.Examples.Ports.{give_port, deliver}
use ajulius.Syscall.Numbers.{mach_trap-ne, bsd_syscall-ne-mach_trap}

-- `mach_task_self` answers 0x103; any call without an effect on memory succeeds.
pub demo_kernel : Kernel
demo_kernel h r m =
    if r.rax == trap_mach_vm_allocate
    then give_region r.rsi r.rdx m
    else if r.rax == trap_mach_port_allocate
    then give_port r.rdx m
    else if r.rax == trap_mach_msg_trap
    then deliver r.rdi r.rsi m
    else if r.rax == trap_mach_vm_deallocate
    then take_region r.rsi r.rdx m
    else record { rax = if r.rax == trap_task_self_trap then 0x103 else 0; memory = m }

pub other_call :
    (h : List Call) (r : Regs) (m : Memory)
    → r.rax ≢ trap_mach_vm_allocate
    → r.rax ≢ trap_mach_port_allocate
    → r.rax ≢ trap_mach_msg_trap
    → r.rax ≢ trap_mach_vm_deallocate
    → (demo_kernel h r m).memory ≡ m
unfolding demo_kernel
other_call h r m ne np nm nd = rw (
  ne→== r.rax trap_mach_vm_allocate ne,
  ne→== r.rax trap_mach_port_allocate np,
  ne→== r.rax trap_mach_msg_trap nm,
  ne→== r.rax trap_mach_vm_deallocate nd,
)

-- A trap that is none of the four, and a BSD call.
pub other_trap :
    (n : ℕ) (h : List Call) (r : Regs) (m : Memory)
    → 0 < n
    → n ≤ 1000
    → n ≢ 10
    → n ≢ 16
    → n ≢ 31
    → n ≢ 12
    → r.rax ≡ mach_trap n
    → (demo_kernel h r m).memory ≡ m
other_trap n h r m pos le n1 n2 n3 n4 e =
    other_call h r m (λ k. mach_trap-ne n 10 pos le (omega arith) (omega arith) n1 (sym e ∙ k))
      (λ k. mach_trap-ne n 16 pos le (omega arith) (omega arith) n2 (sym e ∙ k))
      (λ k. mach_trap-ne n 31 pos le (omega arith) (omega arith) n3 (sym e ∙ k))
      (λ k. mach_trap-ne n 12 pos le (omega arith) (omega arith) n4 (sym e ∙ k))

pub bsd_call :
    (n : ℕ) (h : List Call) (r : Regs) (m : Memory)
    → n ≤ 1000
    → r.rax ≡ bsd_syscall n
    → (demo_kernel h r m).memory ≡ m
bsd_call n h r m le e =
    other_call h r m (λ k. bsd_syscall-ne-mach_trap n 10 le (omega arith) (omega arith) (sym e ∙ k))
      (λ k. bsd_syscall-ne-mach_trap n 16 le (omega arith) (omega arith) (sym e ∙ k))
      (λ k. bsd_syscall-ne-mach_trap n 31 le (omega arith) (omega arith) (sym e ∙ k))
      (λ k. bsd_syscall-ne-mach_trap n 12 le (omega arith) (omega arith) (sym e ∙ k))

pub demo_allocate :
    (h : List Call) (r : Regs) (m : Memory)
    → r.rax ≡ trap_mach_vm_allocate
    → demo_kernel h r m ≡ give_region r.rsi r.rdx m
unfolding demo_kernel
demo_allocate h r m e = rw (eq→== r.rax trap_mach_vm_allocate e)

pub demo_port :
    (h : List Call) (r : Regs) (m : Memory)
    → r.rax ≡ trap_mach_port_allocate
    → demo_kernel h r m ≡ give_port r.rdx m
unfolding demo_kernel
demo_port h r m e =
    let ne = ne→== r.rax trap_mach_vm_allocate (λ k.
      mach_trap-ne 16 10 (omega arith) (omega arith) (omega arith) (omega arith) (omega arith)
        (sym e ∙ k)) in
    rw (ne, eq→== r.rax trap_mach_port_allocate e)

pub demo_msg :
    (h : List Call) (r : Regs) (m : Memory)
    → r.rax ≡ trap_mach_msg_trap
    → demo_kernel h r m ≡ deliver r.rdi r.rsi m
unfolding demo_kernel
demo_msg h r m e =
    let ne = ne→== r.rax trap_mach_vm_allocate (λ k.
      mach_trap-ne 31 10 (omega arith) (omega arith) (omega arith) (omega arith) (omega arith)
        (sym e ∙ k)) in
    let np = ne→== r.rax trap_mach_port_allocate (λ k.
      mach_trap-ne 31 16 (omega arith) (omega arith) (omega arith) (omega arith) (omega arith)
        (sym e ∙ k)) in
    rw (ne, np, eq→== r.rax trap_mach_msg_trap e)

pub demo_deallocate :
    (h : List Call) (task : Value) (a size : ℕ) (m : Memory)
    → demo_kernel h (regs3 trap_mach_vm_deallocate task (word a) (word size)) m
      ≡ take_region (some (word a)) (some (word size)) m
unfolding demo_kernel
demo_deallocate h task a size m = rw (
  ne→== trap_mach_vm_deallocate trap_mach_vm_allocate
      (mach_trap-ne 12 10 (omega arith) (omega arith) (omega arith) (omega arith) (omega arith)),
  ne→== trap_mach_vm_deallocate trap_mach_port_allocate
      (mach_trap-ne 12 16 (omega arith) (omega arith) (omega arith) (omega arith) (omega arith)),
  ne→== trap_mach_vm_deallocate trap_mach_msg_trap
      (mach_trap-ne 12 31 (omega arith) (omega arith) (omega arith) (omega arith) (omega arith)),
  eq→== trap_mach_vm_deallocate trap_mach_vm_deallocate refl,
)
