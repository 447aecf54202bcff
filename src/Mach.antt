-- ===== src/Mach.antt =====
-- libc/src/mach.c and libc/include/julius/mach.h: the port traps, the message header, and the
-- sending and receiving of messages that are a header alone. A message stands in memory.
pub mod Message
pub mod Send
pub mod Fields
use ajulius.Prelude.{ℕ, zero, suc, ◌+◌, ◌*◌, ◌/◌, ◌%◌, ◌^◌, bit_and, bit_or, List, [], ◌∷◌, ◌++◌}
use ajulius.Types.{u32, mach_port_null, mach_msg_type_copy_send}
use ajulius.Machine.{Value, word, ◌⊕◌, Machine, Cmd, pure, ◌>>=◌, ◌>>◌}
use ajulius.Machine.Words.{store_word, word_bytes}
use ajulius.Syscall.{
  bsd_syscall, mach_trap, trap_mach_msg_trap, trap_mach_port_allocate, julius_syscall2,
  julius_syscall3, julius_syscall4, julius_syscall6,
}

abbrev pub mach_send_msg : ℕ
mach_send_msg = 1

abbrev pub mach_rcv_msg : ℕ
mach_rcv_msg = 2

abbrev pub mach_msg_timeout_none : ℕ
mach_msg_timeout_none = 0

-- MACH_MSGH_BITS and its two inverses, on 32 bits.
unfoldable pub mach_msgh_bits : ℕ → ℕ → ℕ
mach_msgh_bits remote local = bit_or remote (u32 (local * 2 ^ 8))

unfoldable pub mach_msgh_bits_remote : ℕ → ℕ
mach_msgh_bits_remote bits = bit_and bits 0xff

unfoldable pub mach_msgh_bits_local : ℕ → ℕ
mach_msgh_bits_local bits = bit_and (bits / 2 ^ 8) 0xff

-- The fields of the header are six words of four bytes, in this order.
pub record Header : Type 0 where
  pub msgh_bits : ℕ
  pub msgh_size : ℕ
  pub msgh_remote_port : ℕ
  pub msgh_local_port : ℕ
  pub msgh_voucher_port : ℕ
  pub msgh_id : ℕ

abbrev pub header_size : ℕ
header_size = 24

-- Where a field stands in the header.
abbrev pub remote_port_offset : ℕ
remote_port_offset = 8

abbrev pub id_offset : ℕ
id_offset = 20

abbrev pub sys_mach_port_insert_right : ℕ
sys_mach_port_insert_right = bsd_syscall 0x218

abbrev pub trap_task_set_bootstrap : ℕ
trap_task_set_bootstrap = mach_trap 88

-- Consecutive words of four bytes.
unfoldable pub store_words : ℕ → List ℕ → Cmd (Unit {0})
store_words a [] = pure tt
store_words a (v ∷ vs) = do store_word 4 (word a) v; store_words (a + 4) vs

-- The assignments to the fields of `msg.header`, with `msg` at the address.
unfoldable pub store_header : ℕ → Header → Cmd (Unit {0})
store_header a h = store_words a (
    h.msgh_bits ∷ h.msgh_size ∷ h.msgh_remote_port ∷ h.msgh_local_port ∷ h.msgh_voucher_port
    ∷ h.msgh_id ∷ [])

-- The header of a simple message to a port.
abbrev pub simple_header : ℕ → ℕ → Header
simple_header remote msg_id = record {
  msgh_bits = mach_msgh_bits mach_msg_type_copy_send 0;
  msgh_size = header_size;
  msgh_remote_port = remote;
  msgh_local_port = mach_port_null;
  msgh_voucher_port = 0;
  msgh_id = msg_id;
}

module _ (e : Machine) where
  unfoldable pub julius_mach_msg : Value → ℕ → ℕ → ℕ → ℕ → ℕ → Cmd ℕ
  julius_mach_msg msg option send_size rcv_size rcv_name timeout = do
    r ←
        julius_syscall6 e trap_mach_msg_trap msg (word option) (word send_size) (word rcv_size)
          (word rcv_name) (word timeout)
    pure (u32 r)

  unfoldable pub julius_port_allocate : ℕ → ℕ → Value → Cmd ℕ
  julius_port_allocate task right name = do
    r ← julius_syscall3 e trap_mach_port_allocate (word task) (word right) name
    pure (u32 r)

  unfoldable pub julius_port_insert_right : ℕ → ℕ → ℕ → ℕ → Cmd ℕ
  julius_port_insert_right task name poly poly_type = do
    r ←
        julius_syscall4 e sys_mach_port_insert_right (word task) (word name) (word poly)
          (word poly_type)
    pure (u32 r)

  unfoldable pub julius_task_set_bootstrap_port : ℕ → ℕ → Cmd ℕ
  julius_task_set_bootstrap_port task bootstrap_port = do
    r ← julius_syscall2 e trap_task_set_bootstrap (word task) (word bootstrap_port)
    pure (u32 r)

  unfoldable pub julius_send_simple : ℕ → ℕ → Cmd ℕ
  julius_send_simple remote msg_id = do
    store_header e.frame.reply_msg (simple_header remote msg_id)
    julius_mach_msg (word e.frame.reply_msg) mach_send_msg header_size 0 mach_port_null
        mach_msg_timeout_none

  unfoldable pub julius_recv_simple : ℕ → Value → Cmd ℕ
  julius_recv_simple port out =
      julius_mach_msg out mach_rcv_msg 0 header_size port mach_msg_timeout_none
