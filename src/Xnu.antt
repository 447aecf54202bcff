-- ===== src/Xnu.antt =====
-- The interface to the kernel: what the code relies on of XNU's system calls. XNU is not part of
-- this repository, so each law is a hypothesis, and states the documented effect of one call on
-- the memory of the task that makes it.
use ajulius.Prelude.{ℕ, ◌+◌, ◌≤◌, ◌<◌, ◌%◌, ◌^◌, ◌≡◌, ◌≢◌, ◌⊎◌, none, List}
use ajulius.Types.{u32, u64}
use ajulius.Machine.{Value, word, Memory, Regs, Call, Reply, Kernel}
use ajulius.Machine.Memory.{Holds, MappedRange, Grows, Mapped}
use ajulius.Machine.Words.{word_bytes}
use ajulius.Syscall.{
  regs3, trap_mach_msg_trap, trap_mach_port_allocate, regs4, sys_write, trap_task_self_trap,
}
use ajulius.Heap.{trap_mach_vm_allocate, trap_mach_vm_deallocate}
use ajulius.Mach.{
  Header, mach_rcv_msg, header_size, sys_mach_port_insert_right, trap_task_set_bootstrap,
}
use ajulius.Mach.Message.{header_bytes}
use ajulius.Mach.Send.{msg_regs}

-- The result register as a kern_return_t.
abbrev pub kern_return : Reply → ℕ
kern_return r = u32 (u64 r.rax)

-- A region that `mach_vm_allocate` has mapped, with its address stored at `slot`: page-aligned,
-- in the user's half of the address space, not mapped before.
pub record Region (m : Memory) (slot size : ℕ) (m' : Memory) : Type 0 where
  pub base : ℕ
  pub stored : Holds m' (word slot) (word_bytes 8 base)
  pub aligned : base % 4096 ≡ 0
  pub real : 0 < base
  pub in_space : base + size ≤ 2 ^ 47
  pub fresh : (x : ℕ) → base ≤ x → x < base + size → m x ≡ none
  pub mapped : MappedRange m' base size

pub record XnuLaws (k : Kernel) : Type 0 where
  -- `write` and `mach_task_self` change nothing in the caller's memory.
  pub write_keeps :
      (h : List Call) (r : Regs) (m : Memory) → r.rax ≡ sys_write → (k h r m).memory ≡ m
  pub task_self_keeps :
      (h : List Call) (r : Regs) (m : Memory) → r.rax ≡ trap_task_self_trap → (k h r m).memory ≡ m
  -- `mach_vm_allocate` unmaps nothing and writes nowhere but to the caller's `addr`.
  pub vm_allocate_grows :
      (h : List Call) (r : Regs) (m : Memory)
      → r.rax ≡ trap_mach_vm_allocate
      → Grows m (k h r m).memory
  pub vm_allocate_keeps :
      (h : List Call) (task : Value) (slot size : ℕ) (flags : Value) (m : Memory) (x : ℕ)
      → Mapped m x
      → (x < slot) ⊎ (slot + 8 ≤ x)
      → (k h (regs4 trap_mach_vm_allocate task (word slot) (word size) flags) m).memory x ≡ m x
  -- With VM_FLAGS_ANYWHERE a call that returns KERN_SUCCESS gives a new region.
  pub vm_allocate_region :
      (h : List Call) (task : Value) (slot size : ℕ) (m : Memory)
      → 0 < size
      → MappedRange m slot 8
      → kern_return (k h (regs4 trap_mach_vm_allocate task (word slot) (word size) (word 1)) m) ≡ 0
      → Region m slot size
          (k h (regs4 trap_mach_vm_allocate task (word slot) (word size) (word 1)) m).memory

-- The documented effect of `mach_vm_deallocate` on whole pages: those it is given are unmapped, and
-- nothing else changes; a call that fails changes nothing.
pub record VmLaws (k : Kernel) : Type 0 where
  pub vm_deallocate_unmaps :
      (h : List Call) (task : Value) (a size : ℕ) (m : Memory)
      → a % 4096 ≡ 0
      → size % 4096 ≡ 0
      → let r = regs3 trap_mach_vm_deallocate task (word a) (word size) in
        kern_return (k h r m) ≡ 0 → (x : ℕ) → a ≤ x → x < a + size → (k h r m).memory x ≡ none
  pub vm_deallocate_keeps :
      (h : List Call) (task : Value) (a size : ℕ) (m : Memory)
      → a % 4096 ≡ 0
      → size % 4096 ≡ 0
      → let r = regs3 trap_mach_vm_deallocate task (word a) (word size) in
        (x : ℕ) → (x < a) ⊎ (a + size ≤ x) → (k h r m).memory x ≡ m x
  pub vm_deallocate_fails :
      (h : List Call) (task : Value) (a size : ℕ) (m : Memory)
      → let r = regs3 trap_mach_vm_deallocate task (word a) (word size) in
        kern_return (k h r m) ≢ 0 → (k h r m).memory ≡ m

-- A message header that the kernel has put in memory.
pub record Received (m : Memory) (out : ℕ) : Type 0 where
  pub header : Header
  pub id_small : header.msgh_id < 2 ^ 32
  pub remote_small : header.msgh_remote_port < 2 ^ 32
  pub shown : Holds m (word out) (header_bytes header)

-- The documented effect of the port and message calls on the caller's memory.
pub record PortLaws (k : Kernel) : Type 0 where
  pub insert_right_keeps :
      (h : List Call) (r : Regs) (m : Memory)
      → r.rax ≡ sys_mach_port_insert_right
      → (k h r m).memory ≡ m
  pub set_bootstrap_keeps :
      (h : List Call) (r : Regs) (m : Memory)
      → r.rax ≡ trap_task_set_bootstrap
      → (k h r m).memory ≡ m
  -- Neither the allocation of a port nor a message unmaps memory.
  pub port_allocate_grows :
      (h : List Call) (r : Regs) (m : Memory)
      → r.rax ≡ trap_mach_port_allocate
      → Grows m (k h r m).memory
  pub msg_grows :
      (h : List Call) (r : Regs) (m : Memory)
      → r.rax ≡ trap_mach_msg_trap
      → Grows m (k h r m).memory
  -- A port allocated has a 32-bit name, stored where the caller says.
  pub port_allocate_name :
      (h : List Call) (task right : Value) (slot : ℕ) (m : Memory)
      → MappedRange m slot 4
      → let r = regs3 trap_mach_port_allocate task right (word slot) in
        kern_return (k h r m) ≡ 0
        → (name : ℕ) × (name < 2 ^ 32) × Holds (k h r m).memory (word slot) (word_bytes 4 name)
  -- A receive that succeeds within 24 bytes has put a header there.
  pub receives :
      (h : List Call) (port out : ℕ) (m : Memory)
      → MappedRange m out 24
      → let r = msg_regs (word out) mach_rcv_msg 0 header_size port in
        kern_return (k h r m) ≡ 0 → Received (k h r m).memory out
