-- ===== src/Examples/Demo.antt =====
-- A kernel that meets the laws of the interface, and a machine and a world to run on.
use ajulius.Prelude.{ℕ, ◌+◌, ◌≤◌, refl, ◌&&◌, not, ltb, if◌then◌else◌, none, some, [], arith}
use ajulius.Machine.{word, Memory, Frame, Machine, World}
use ajulius.Machine.Memory.{MappedRange}
use ajulius.Syscall.{regs3, trap_mach_port_allocate, regs4}
use ajulius.Heap.{trap_mach_vm_allocate}
use ajulius.Io.Puts.{HasBuffers}
use ajulius.Examples.Regions.{
  take_region, without, give_region-Grows, give_region-same, give_region-Region,
}
use ajulius.Examples.Ports.{ping, give_port-Grows, deliver-Grows, give_port-Holds, deliver-Holds}
use ajulius.Mach.{mach_rcv_msg, header_size}
use ajulius.Init.Says.{IsReady}
use ajulius.Mach.Send.{msg_regs}
use ajulius.Examples.Kernel.{
  demo_kernel, other_trap, bsd_call, demo_allocate, demo_port, demo_msg, demo_deallocate,
}
use ajulius.Xnu.{PortLaws, XnuLaws, VmLaws}

-- The laws of the interface can be met.
pub demo_laws : XnuLaws demo_kernel
demo_laws = record {
  write_keeps = λ h r m e. bsd_call 4 h r m (omega arith) e;
  task_self_keeps = λ h r m e.
      other_trap 28 h r m (omega arith) (omega arith) (omega arith) (omega arith) (omega arith)
        (omega arith) e;
  vm_allocate_grows = λ h r m e. rw (demo_allocate h r m e) (give_region-Grows r.rsi r.rdx m);
  vm_allocate_keeps = λ h task slot size flags m x k out.
      rw (demo_allocate h (regs4 trap_mach_vm_allocate task (word slot) (word size) flags) m refl)
        (give_region-same slot size m x k out);
  vm_allocate_region = λ h task slot size m pos mapped z.
      let e =
        demo_allocate h (regs4 trap_mach_vm_allocate task (word slot) (word size) (word 1)) m
          refl in
      rw e (give_region-Region slot size m (rw e at z));
}

pub demo-VmLaws : VmLaws demo_kernel
unfolding take_region without
demo-VmLaws = record {
  vm_deallocate_unmaps =
      λ h task a size m al whole z x lo hi. rw (demo_deallocate h task a size m) (ground arith);
  vm_deallocate_keeps =
      λ h task a size m al whole x out. rw (demo_deallocate h task a size m) (ground arith);
  vm_deallocate_fails = λ h task a size m f. absurd (f (rw (demo_deallocate h task a size m)));
}

pub demo-PortLaws : PortLaws demo_kernel
demo-PortLaws = record {
  insert_right_keeps = λ h r m e. bsd_call 0x218 h r m (omega arith) e;
  set_bootstrap_keeps = λ h r m e.
      other_trap 88 h r m (omega arith) (omega arith) (omega arith) (omega arith) (omega arith)
        (omega arith) e;
  port_allocate_grows = λ h r m e. rw (demo_port h r m e) (give_port-Grows r.rdx m);
  msg_grows = λ h r m e. rw (demo_msg h r m e) (deliver-Grows r.rdi r.rsi m);
  port_allocate_name = λ h task right slot m mapped z.
      rw (demo_port h (regs3 trap_mach_port_allocate task right (word slot)) m refl)
        (0x707, omega arith, give_port-Holds slot m);
  receives = λ h port out m mapped z.
      rw (demo_msg h (msg_regs (word out) mach_rcv_msg 0 header_size port) m refl) (record {
        header = ping;
        id_small = omega arith;
        remote_small = omega arith;
        shown = deliver-Holds out m;
      });
}

abbrev pub demo_frame : Frame
demo_frame = record {
  vm_addr = 4096;
  port_name = 4104;
  msg = 4112;
  reply_msg = 4136;
  hex_buf = 4160;
  dec_buf = 4178;
}

abbrev pub demo : Machine
demo = record { kernel = demo_kernel; frame = demo_frame }

-- One page of memory, all zeros.
abbrev pub page : Memory
page x = if not (ltb x 4096) && ltb x 8192 then some 0 else none

abbrev pub start : World
start = record {
  memory = page;
  calls = [];
  heap_base = 0;
  heap_end = 0;
  heap_ptr = 0;
  g_bootstrap_port = 0;
}

pub page-MappedRange : (a n : ℕ) → 4096 ≤ a → a + n ≤ 8192 → MappedRange page a n
page-MappedRange a n lo hi x l h = (0, ground arith)

pub start-HasBuffers : HasBuffers demo_frame page
start-HasBuffers = record {
  hex_real = omega arith;
  hex_mapped = page-MappedRange 4160 18 (omega arith) (omega arith);
  dec_real = omega arith;
  dec_mapped = page-MappedRange 4178 22 (omega arith) (omega arith);
  addr_mapped = page-MappedRange 4096 8 (omega arith) (omega arith);
}

pub start-IsReady : IsReady demo_frame page
start-IsReady = record {
  buffers = start-HasBuffers;
  name_mapped = page-MappedRange 4104 4 (omega arith) (omega arith);
  msg_mapped = page-MappedRange 4112 24 (omega arith) (omega arith);
  reply_mapped = page-MappedRange 4136 24 (omega arith) (omega arith);
}
