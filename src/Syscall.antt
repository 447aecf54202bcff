-- ===== src/Syscall.antt =====
-- libc/include/julius/syscall.h: the numbers of system calls and the wrappers that load the
-- registers and execute `syscall`. A number is the 64-bit pattern that ends up in rax.
pub mod Numbers
use ajulius.Prelude.{ℕ, bit_or, some, none}
use ajulius.Types.{u32, neg64}
use ajulius.Machine.{Value, Machine, Regs, Cmd, pure, ◌>>=◌, syscall}

unfoldable pub bsd_syscall : ℕ → ℕ
bsd_syscall n = bit_or 0x2000000 n

unfoldable pub mach_trap : ℕ → ℕ
mach_trap n = neg64 n

-- The calls that the header names.
abbrev pub sys_exit : ℕ
sys_exit = bsd_syscall 1

abbrev pub sys_fork : ℕ
sys_fork = bsd_syscall 2

abbrev pub sys_read : ℕ
sys_read = bsd_syscall 3

abbrev pub sys_write : ℕ
sys_write = bsd_syscall 4

abbrev pub sys_open : ℕ
sys_open = bsd_syscall 5

abbrev pub sys_close : ℕ
sys_close = bsd_syscall 6

abbrev pub sys_wait4 : ℕ
sys_wait4 = bsd_syscall 7

abbrev pub sys_getpid : ℕ
sys_getpid = bsd_syscall 20

abbrev pub sys_getuid : ℕ
sys_getuid = bsd_syscall 24

abbrev pub sys_kill : ℕ
sys_kill = bsd_syscall 37

abbrev pub sys_execve : ℕ
sys_execve = bsd_syscall 59

abbrev pub sys_munmap : ℕ
sys_munmap = bsd_syscall 73

abbrev pub sys_mmap : ℕ
sys_mmap = bsd_syscall 197

abbrev pub trap_mach_reply_port : ℕ
trap_mach_reply_port = mach_trap 26

abbrev pub trap_thread_self_trap : ℕ
trap_thread_self_trap = mach_trap 27

abbrev pub trap_task_self_trap : ℕ
trap_task_self_trap = mach_trap 28

abbrev pub trap_host_self_trap : ℕ
trap_host_self_trap = mach_trap 20

abbrev pub trap_mach_msg_trap : ℕ
trap_mach_msg_trap = mach_trap 31

abbrev pub trap_mach_msg2_trap : ℕ
trap_mach_msg2_trap = mach_trap 32

abbrev pub trap_semaphore_signal_trap : ℕ
trap_semaphore_signal_trap = mach_trap 33

abbrev pub trap_semaphore_wait_trap : ℕ
trap_semaphore_wait_trap = mach_trap 34

abbrev pub trap_mach_wait_until : ℕ
trap_mach_wait_until = mach_trap 59

abbrev pub trap_mk_timer_create : ℕ
trap_mk_timer_create = mach_trap 60

abbrev pub trap_mach_port_allocate : ℕ
trap_mach_port_allocate = mach_trap 16

-- The registers of a call by the number of its arguments. Those left alone hold anything.
abbrev pub regs0 : ℕ → Regs
regs0 nr = record { rax = nr; rdi = none; rsi = none; rdx = none; r10 = none; r8 = none; r9 = none }

abbrev pub regs1 : ℕ → Value → Regs
regs1 nr a1 = record (regs0 nr) { rdi = some a1 }

abbrev pub regs2 : ℕ → Value → Value → Regs
regs2 nr a1 a2 = record (regs1 nr a1) { rsi = some a2 }

abbrev pub regs3 : ℕ → Value → Value → Value → Regs
regs3 nr a1 a2 a3 = record (regs2 nr a1 a2) { rdx = some a3 }

abbrev pub regs4 : ℕ → Value → Value → Value → Value → Regs
regs4 nr a1 a2 a3 a4 = record (regs3 nr a1 a2 a3) { r10 = some a4 }

abbrev pub regs6 : ℕ → Value → Value → Value → Value → Value → Value → Regs
regs6 nr a1 a2 a3 a4 a5 a6 = record (regs4 nr a1 a2 a3 a4) { r8 = some a5; r9 = some a6 }

module _ (e : Machine) where
  unfoldable pub julius_syscall0 : ℕ → Cmd ℕ
  unfolding syscall
  julius_syscall0 nr = syscall e (regs0 nr)

  unfoldable pub julius_syscall1 : ℕ → Value → Cmd ℕ
  unfolding syscall
  julius_syscall1 nr a1 = syscall e (regs1 nr a1)

  unfoldable pub julius_syscall2 : ℕ → Value → Value → Cmd ℕ
  unfolding syscall
  julius_syscall2 nr a1 a2 = syscall e (regs2 nr a1 a2)

  unfoldable pub julius_syscall3 : ℕ → Value → Value → Value → Cmd ℕ
  unfolding syscall
  julius_syscall3 nr a1 a2 a3 = syscall e (regs3 nr a1 a2 a3)

  unfoldable pub julius_syscall4 : ℕ → Value → Value → Value → Value → Cmd ℕ
  unfolding syscall
  julius_syscall4 nr a1 a2 a3 a4 = syscall e (regs4 nr a1 a2 a3 a4)

  unfoldable pub julius_syscall6 : ℕ → Value → Value → Value → Value → Value → Value → Cmd ℕ
  unfolding syscall
  julius_syscall6 nr a1 a2 a3 a4 a5 a6 = syscall e (regs6 nr a1 a2 a3 a4 a5 a6)

  unfoldable pub julius_mach_task_self : Cmd ℕ
  unfolding julius_syscall0
  julius_mach_task_self = do r ← julius_syscall0 trap_task_self_trap; pure (u32 r)

  unfoldable pub julius_mach_host_self : Cmd ℕ
  unfolding julius_syscall0
  julius_mach_host_self = do r ← julius_syscall0 trap_host_self_trap; pure (u32 r)

  unfoldable pub julius_mach_reply_port : Cmd ℕ
  unfolding julius_syscall0
  julius_mach_reply_port = do r ← julius_syscall0 trap_mach_reply_port; pure (u32 r)
