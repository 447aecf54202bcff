-- ===== src/Heap.antt =====
-- The memory manager of libc/src/mem.c: the `mach_vm_allocate` traps and the bump-pointer heap.
-- The heap's static variables are fields of the world; a local `addr` stands in the frame.
pub mod Align
pub mod Keeps
pub mod Region
pub mod Release
pub mod Blocks
pub mod Contents
pub mod Malloc
pub mod Overflow
pub mod Calloc
pub mod Session
pub mod Capacity
pub mod Rewind
use ajulius.Prelude.{ℕ, ◌+◌, ◌*◌, ◌==◌, if◌then◌else◌, ltb}
pub use ajulius.Outcome.{get, modify}
use ajulius.Types.{u32, u64, long_of_int, vm_flags_anywhere, align}
use ajulius.Machine.{Value, word, text, null, is_null, Machine, World, Cmd, ok, pure, ◌>>=◌, ◌>>◌}
use ajulius.Machine.Words.{load_word, store_word}
use ajulius.Syscall.{mach_trap, julius_syscall3, julius_syscall4, julius_mach_task_self}
use ajulius.Strings.{julius_memset}
use ajulius.Io.{julius_puts, julius_put_hex, julius_panic}

abbrev pub trap_mach_vm_allocate : ℕ
trap_mach_vm_allocate = mach_trap 10

abbrev pub trap_mach_vm_deallocate : ℕ
trap_mach_vm_deallocate = mach_trap 12

abbrev pub heap_initial_size : ℕ
heap_initial_size = 1 * 1024 * 1024

abbrev pub heap_align : ℕ
heap_align = 16

-- void *p = heap_ptr; heap_ptr += size; return p;
unfoldable pub take_block : ℕ → Cmd Value
take_block size = do
  p ← get (λ w. w.heap_ptr)
  modify λ w. record w { heap_ptr = u64 (w.heap_ptr + size) }
  pure (word p)

-- The size of the region that is asked for when the current one is used up.
unfoldable pub extend_size : ℕ → ℕ
extend_size size = if ltb size heap_initial_size then heap_initial_size else u64 (size * 2)

module _ (e : Machine) where
  unfoldable pub julius_vm_allocate : ℕ → Value → ℕ → ℕ → Cmd ℕ
  julius_vm_allocate task addr size flags = do
    r ←
        julius_syscall4 e trap_mach_vm_allocate (word task) addr (word size)
          (word (long_of_int flags))
    pure (u32 r)

  unfoldable pub julius_vm_deallocate : ℕ → ℕ → ℕ → Cmd ℕ
  julius_vm_deallocate task addr size = do
    r ← julius_syscall3 e trap_mach_vm_deallocate (word task) (word addr) (word size)
    pure (u32 r)

  -- addr = 0; kr = julius_vm_allocate(julius_mach_task_self(), &addr, size, VM_FLAGS_ANYWHERE);
  unfoldable pub allocate_anywhere : ℕ → Cmd ℕ
  allocate_anywhere size = do
    store_word 8 (word e.frame.vm_addr) 0
    task ← julius_mach_task_self e
    julius_vm_allocate task (word e.frame.vm_addr) size vm_flags_anywhere

  unfoldable pub julius_mem_init : Cmd (Unit {0})
  julius_mem_init = do
    kr ← allocate_anywhere heap_initial_size
    if kr == 0 then pure tt else julius_panic e (text "mem_init: mach_vm_allocate failed" 0)
    addr ← load_word 8 (word e.frame.vm_addr)
    modify λ w. record w {
      heap_base = addr;
      heap_ptr = addr;
      heap_end = u64 (addr + heap_initial_size);
    }
    julius_puts e (text "mem: heap initialised at " 0)
    base ← get (λ w. w.heap_base)
    julius_put_hex e base
    julius_puts e (text ", size 1 MiB\n" 0)
    pure tt

  -- The heap goes on in a new region; the rest of the old one is given up.
  unfoldable pub extend_heap : ℕ → Cmd Value
  extend_heap size = do
    kr ← allocate_anywhere (extend_size size)
    if kr == 0
        then (do
          addr ← load_word 8 (word e.frame.vm_addr)
          modify λ w. record w { heap_ptr = addr; heap_end = u64 (addr + extend_size size) }
          take_block size)
        else pure null

  -- `malloc` once the heap is there and the size is rounded up.
  unfoldable pub malloc_aligned : ℕ → Cmd Value
  malloc_aligned size = do
    ptr ← get (λ w. w.heap_ptr)
    end ← get (λ w. w.heap_end)
    if ltb end (u64 (ptr + size)) then extend_heap size else take_block size

  unfoldable pub julius_malloc : ℕ → Cmd Value
  julius_malloc size = do
    base ← get (λ w. w.heap_base)
    if base == 0 then julius_mem_init else pure tt
    malloc_aligned (align size heap_align)

  unfoldable pub julius_free : Value → Cmd (Unit {0})
  julius_free ptr = pure tt

  unfoldable pub julius_calloc : ℕ → ℕ → Cmd Value
  julius_calloc nmemb size =
      let total = u64 (nmemb * size) in
      do p ← julius_malloc total; if is_null p then pure p else (do julius_memset p 0 total; pure p)
