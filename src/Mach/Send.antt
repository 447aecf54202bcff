-- ===== src/Mach/Send.antt =====
-- `julius_send_simple` and `julius_recv_simple`: the one system call that each makes.
use ajulius.Prelude.{ℕ, ◌+◌, ◌≤◌, ◌<◌, ◌≡◌, refl, ◌⊎◌, ◌∷◌}
use ajulius.Types.{u32, u64}
use ajulius.Machine.{Value, word, Memory, Regs, Machine, World, ok, syscall}
use ajulius.Machine.Memory.{Holds, MappedRange, Grows}
use ajulius.Outcome.Returns.{Returns, returns}
use ajulius.Syscall.{regs6, trap_mach_msg_trap, julius_syscall6}
use ajulius.Mach.{
  Header, mach_msgh_bits, mach_send_msg, mach_rcv_msg, header_size, simple_header, julius_mach_msg,
  julius_send_simple, julius_recv_simple,
}
use ajulius.Mach.Message.{header_bytes, length-header_bytes, store_header-Writes}

-- mach_msg with six arguments, the last two of them zero or a port.
abbrev pub msg_regs : Value → ℕ → ℕ → ℕ → ℕ → Regs
msg_regs msg option send_size rcv_size port =
    regs6 trap_mach_msg_trap msg (word option) (word send_size) (word rcv_size) (word port) (word 0)

-- The world after one call of the kernel from a memory `m`.
abbrev pub after_call : Machine → World → Regs → Memory → World
after_call e w r m = record w {
  memory = (e.kernel w.calls r m).memory;
  calls = record { regs = r; seen = m } ∷ w.calls;
}

abbrev pub call_result : Machine → World → Regs → Memory → ℕ
call_result e w r m = u32 (u64 (e.kernel w.calls r m).rax)

-- The header that a simple message must have: the disposition 19, copy-send, for the destination and
-- none for a reply, the 24 bytes of the header itself, the destination, no reply port, no voucher.
abbrev pub sent_header : ℕ → ℕ → Header
sent_header remote id = record {
  msgh_bits = 19;
  msgh_size = 24;
  msgh_remote_port = remote;
  msgh_local_port = 0;
  msgh_voucher_port = 0;
  msgh_id = id;
}

-- `w'` is `w` after one system call, mach_msg with MACH_SEND_MSG and the header of a simple
-- message to `remote` in the local `msg`, the only thing written before the call.
pub record Sends (e : Machine) (w : World) (remote id kr : ℕ) (w' : World) : Type 0 where
  pub seen : Memory
  pub shown : Holds seen (word e.frame.reply_msg) (header_bytes (sent_header remote id))
  pub grows : Grows w.memory seen
  pub outside :
      (x : ℕ) → (x < e.frame.reply_msg) ⊎ (e.frame.reply_msg + 24 ≤ x) → seen x ≡ w.memory x
  pub after :
      w' ≡ after_call e w (msg_regs (word e.frame.reply_msg) mach_send_msg header_size 0 0) seen
  pub result :
      kr ≡ call_result e w (msg_regs (word e.frame.reply_msg) mach_send_msg header_size 0 0) seen

module _ (e : Machine) (w : World) where
  -- With its local message mapped, `julius_send_simple` ends after one system call: a mach_msg that
  -- sends a header of 24 bytes with the copy-send disposition, the port as its destination, no
  -- reply port and no voucher, and the identifier. The result is the kernel's.
  pub julius_send_simple-Sends :
      (remote id : ℕ)
      → MappedRange w.memory e.frame.reply_msg 24
      → Returns (Sends e w remote id) (julius_send_simple e remote id w)
  unfolding julius_send_simple julius_mach_msg julius_syscall6 syscall mach_msgh_bits
  julius_send_simple-Sends remote id mapped =
      let (m, runs, wrote) =
        store_header-Writes (simple_header remote id) w e.frame.reply_msg mapped in
      rw runs (
        returns (record {
          seen = m;
          shown = wrote.holds;
          grows = wrote.grows;
          outside = λ x out. wrote.outside x (rw length-header_bytes out);
          after = refl;
          result = refl;
        }))

  -- `julius_recv_simple` is one mach_msg that waits for at most 24 bytes on the port.
  pub julius_recv_simple_lem :
      (port out : ℕ)
      → julius_recv_simple e port (word out) w
        ≡ ok
            (call_result e w (msg_regs (word out) mach_rcv_msg 0 header_size port) w.memory)
            (after_call e w (msg_regs (word out) mach_rcv_msg 0 header_size port) w.memory)
  unfolding julius_recv_simple julius_mach_msg julius_syscall6 syscall
  julius_recv_simple_lem port out = refl
