-- ===== src/Init.antt =====
-- init/src/main.c: julius-init, the first process. The bootstrap port, one round of the service
-- loop, the loop itself and the start. The loop has no end in the source; here it is given a number
-- of rounds, after which the run stands at `out_of_fuel`.
-- The locals `port_name` and `msg` are written by the kernel alone, each by one call; the model
-- reads them once after that call.
pub mod Says
pub mod Report
pub mod Ports
pub mod Bootstrap
pub mod Protocol
pub mod Service
pub mod Up
pub mod SelfTest
pub mod Leads
pub mod Deaths
pub mod Boot
pub mod Entry
pub mod Start
use ajulius.Prelude.{ℕ, zero, suc, ◌+◌, String, ◌==◌, if◌then◌else◌}
use ajulius.Types.{u32, mach_port_null, mach_port_right_receive, mach_msg_type_make_send}
use ajulius.Machine.{
  Value, word, text, ◌⊕◌, is_null, Machine, World, Cmd, out_of_fuel, pure, ◌>>=◌, ◌>>◌, store,
}
use ajulius.Machine.Words.{load_word}
use ajulius.Syscall.{julius_mach_task_self}
use ajulius.Strings.{julius_memset}
use ajulius.Io.{julius_puts, julius_put_hex, julius_panic}
use ajulius.Mach.{
  remote_port_offset, id_offset, julius_port_allocate, julius_port_insert_right,
  julius_task_set_bootstrap_port, julius_send_simple, julius_recv_simple,
}
use ajulius.Heap.{get, modify, julius_mem_init, julius_malloc}

abbrev pub banner : String
banner =
    "\r\n  ██╗██╗   ██╗██╗     ██╗██╗   ██╗███████╗     ██████╗ ███████╗\r\n  ██║██║   ██║██║     ██║██║   ██║██╔════╝    ██╔═══██╗██╔════╝\r\n  ██║██║   ██║██║     ██║██║   ██║███████╗    ██║   ██║███████╗\r\n  ██║██║   ██║██║     ██║██║   ██║╚════██║    ██║   ██║╚════██║\r\n  ██║╚██████╔╝███████╗██║╚██████╔╝███████║    ╚██████╔╝███████║\r\n  ╚═╝ ╚═════╝ ╚══════╝╚═╝ ╚═════╝ ╚══════╝     ╚═════╝ ╚══════╝\r\n\r\n  JULIUS OS — Custom XNU-based Operating System\r\n  Built from scratch. No Apple user-space.\r\n\r\n"

abbrev pub julius_msg_ping : ℕ
julius_msg_ping = 0x4A4C0001

abbrev pub julius_msg_register : ℕ
julius_msg_register = 0x4A4C0002

abbrev pub julius_msg_lookup : ℕ
julius_msg_lookup = 0x4A4C0003

-- The number that a pointer is cast to; the pointers cast are none into literals.
abbrev pub address : Value → ℕ
address (word a) = a
address (text s i) = 0

module _ (e : Machine) where
  -- julius_puts(s); julius_put_hex(v); julius_puts("\r\n");
  unfoldable pub put_value : String → ℕ → Cmd (Unit {0})
  put_value s v = do
    julius_puts e (text s 0)
    julius_put_hex e v
    julius_puts e (text "\r\n" 0)
    pure tt

  unfoldable pub check_fatal : ℕ → String → String → Cmd (Unit {0})
  check_fatal kr s msg = if kr == 0 then pure tt else do put_value s kr; julius_panic e (text msg 0)

  -- Step 1 of the set-up, with the value of `port_name`.
  unfoldable pub allocate_port : ℕ → Cmd ℕ
  allocate_port self = do
    julius_puts e (text "init: allocating bootstrap receive port...\r\n" 0)
    kr ← julius_port_allocate e self mach_port_right_receive (word e.frame.port_name)
    check_fatal kr "init: FATAL: port_allocate failed, kr=" "cannot allocate bootstrap port"
    load_word 4 (word e.frame.port_name)

  unfoldable pub setup_bootstrap_port : Cmd (Unit {0})
  setup_bootstrap_port = do
    self ← julius_mach_task_self e
    port_name ← allocate_port self
    put_value "init: bootstrap receive port = " port_name
    kr ← julius_port_insert_right e self port_name port_name mach_msg_type_make_send
    check_fatal kr "init: FATAL: port_insert_right failed, kr=" "cannot insert send right"
    kr ← julius_task_set_bootstrap_port e self port_name
    if kr == 0 then pure tt else put_value "init: WARNING: task_set_bootstrap_port failed, kr=" kr
    modify λ w. record w { g_bootstrap_port = port_name }
    julius_puts e (text "init: bootstrap port established\r\n" 0)
    pure tt

  -- The switch on the message's identifier.
  unfoldable pub dispatch : ℕ → ℕ → Cmd (Unit {0})
  dispatch id remote =
      if id == julius_msg_ping
      then (do
        julius_puts e (text "init: PING received, sending PONG\r\n" 0)
        if remote == mach_port_null
            then pure tt
            else do julius_send_simple e remote (u32 (julius_msg_ping + 0x8000)); pure tt)
      else do julius_puts e (text "init: unknown message, ignoring\r\n" 0); pure tt

  unfoldable pub received : Cmd (Unit {0})
  received = do
    id ← load_word 4 (word (e.frame.msg + id_offset))
    remote ← load_word 4 (word (e.frame.msg + remote_port_offset))
    julius_puts e (text "init: received msg id=" 0)
    julius_put_hex e id
    julius_puts e (text " from port=" 0)
    julius_put_hex e remote
    julius_puts e (text "\r\n" 0)
    dispatch id remote

  -- One round of the loop, the `continue` on a receive error included.
  unfoldable pub service_round : Cmd (Unit {0})
  service_round = do
    port ← get (λ w. w.g_bootstrap_port)
    kr ← julius_recv_simple e port (word e.frame.msg)
    if kr == 0 then received else put_value "init: mach_msg recv error, kr=" kr

  unfoldable pub service_rounds : ℕ → Cmd (Unit {0})
  service_rounds zero = pure tt
  service_rounds (suc n) = do service_round; service_rounds n

  unfoldable pub service_loop : ℕ → Cmd (Unit {0})
  service_loop n = do
    julius_puts e (text "init: entering service loop (waiting for Mach messages)\r\n" 0)
    service_rounds n
    λ _. out_of_fuel

  unfoldable pub self_test : Cmd (Unit {0})
  self_test = do
    buf ← julius_malloc e 64
    if is_null buf then julius_panic e (text "self-test: malloc returned NULL" 0) else pure tt
    julius_memset buf b'J' 63
    store (buf ⊕ 63) 0
    julius_puts e (text "init: malloc self-test OK (64 bytes at " 0)
    julius_put_hex e (address buf)
    julius_puts e (text ")\r\n" 0)
    pure tt

  -- With the number of rounds that the service loop is followed for.
  unfoldable pub julius_start : ℕ → Cmd (Unit {0})
  julius_start n = do
    julius_puts e (text banner 0)
    julius_puts e (text "init: PID 1 starting\r\n" 0)
    julius_mem_init e
    self ← julius_mach_task_self e
    put_value "init: mach_task_self() = " self
    setup_bootstrap_port
    self_test
    julius_puts e (text "\r\ninit: all systems nominal. JULIUS OS is alive.\r\n\r\n" 0)
    service_loop n
