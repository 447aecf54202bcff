-- ===== src/Serial.antt =====
-- kexts/JuliusSerial: the driver of a PL011 serial port. A method is an action over the driver's
-- fields and the events so far.
pub mod Service
pub mod Divisor
pub mod Accesses
pub mod Transmit
pub mod Text
pub mod Pl011
pub mod Receive
pub mod Drain
pub mod Setup
pub mod Objects
pub mod Base
pub mod Mapped
pub mod Start
pub mod Stop
pub mod Methods
pub mod Lifecycle
pub mod Unmapped
use ajulius.Prelude.{
  ℕ, zero, suc, ◌+◌, ◌-◌, ◌*◌, ◌/◌, ◌%◌, ◌^◌, String, Bool, true, false, not, ◌&&◌, ◌||◌, ◌==◌, ltb,
  if◌then◌else◌, Option, none, some, List, [], ◌∷◌, bit_and, bit_or, codes,
}
pub use ajulius.Outcome.{get, modify}
use ajulius.Types.{u8, u32, u64, is_negative32}
use ajulius.Outcome.{Action, ok, fault, out_of_fuel, pure, ◌>>=◌, ◌>>◌}
use ajulius.IoKit.{
  Event, mmio_read, mmio_write, io_delay, io_log, super_start, super_stop, super_message,
  register_service, get_property, cast_to_data, get_length, get_bytes_no_copy, load_qword,
  with_physical_address, map_descriptor, get_virtual_address, release, Host,
}

-- The registers, as offsets, and their bits.
abbrev pub pl011_dr : ℕ
pl011_dr = 0

abbrev pub pl011_rsr : ℕ
pl011_rsr = 4

abbrev pub pl011_fr : ℕ
pl011_fr = 0x18

abbrev pub pl011_ibrd : ℕ
pl011_ibrd = 0x24

abbrev pub pl011_fbrd : ℕ
pl011_fbrd = 0x28

abbrev pub pl011_lcrh : ℕ
pl011_lcrh = 0x2c

abbrev pub pl011_cr : ℕ
pl011_cr = 0x30

abbrev pub pl011_imsc : ℕ
pl011_imsc = 0x38

abbrev pub pl011_icr : ℕ
pl011_icr = 0x44

abbrev pub pl011_fr_txff : ℕ
pl011_fr_txff = 2 ^ 5

abbrev pub pl011_fr_rxfe : ℕ
pl011_fr_rxfe = 2 ^ 4

abbrev pub pl011_fr_busy : ℕ
pl011_fr_busy = 2 ^ 3

abbrev pub pl011_lcrh_wlen_8 : ℕ
pl011_lcrh_wlen_8 = 3 * 2 ^ 5

abbrev pub pl011_lcrh_fen : ℕ
pl011_lcrh_fen = 2 ^ 4

abbrev pub pl011_cr_rxe : ℕ
pl011_cr_rxe = 2 ^ 9

abbrev pub pl011_cr_txe : ℕ
pl011_cr_txe = 2 ^ 8

abbrev pub pl011_cr_uarten : ℕ
pl011_cr_uarten = 2 ^ 0

abbrev pub julius_uart_clock_hz : ℕ
julius_uart_clock_hz = 24000000

abbrev pub julius_uart_baud : ℕ
julius_uart_baud = 115200

-- The header's divisors at that rate.
abbrev pub julius_ibrd : ℕ
julius_ibrd = julius_uart_clock_hz / (16 * julius_uart_baud)

abbrev pub julius_fbrd : ℕ
julius_fbrd =
    (julius_uart_clock_hz % (16 * julius_uart_baud) * 64 + julius_uart_baud / 2) / julius_uart_baud

abbrev pub k_default_uart_base : ℕ
k_default_uart_base = 0x09000000

abbrev pub k_uart_region_size : ℕ
k_uart_region_size = 0x1000

-- kIODirectionNone of I/O Kit.
abbrev pub k_io_direction_none : ℕ
k_io_direction_none = 0

-- The object's fields, and what it has done so far.
pub record Driver : Type 0 where
  pub mmio_map : ℕ
  pub regs : ℕ
  pub phys_base : ℕ
  pub events : List Event

abbrev pub Method : Type 0 → Type 0
Method A = Action Driver A

-- `16 * baud` of an int and a uint32_t, and the two divisors; the clock is an unsigned long.
abbrev pub sixteen_baud : ℕ → ℕ
sixteen_baud baud = u32 (16 * baud)

unfoldable pub integer_divisor : ℕ → ℕ
integer_divisor baud = u32 (julius_uart_clock_hz / sixteen_baud baud)

unfoldable pub fractional_divisor : ℕ → ℕ
fractional_divisor baud =
    u32 (u64 (u64 (julius_uart_clock_hz % sixteen_baud baud * 64) + baud / 2) / baud)

module _ (h : Host) where
  -- A call of what is outside, with its answer.
  abbrev pub call : Event → Method ℕ
  call e d = ok (h d.events e) (record d { events = e ∷ d.events })

  -- The first page is never mapped, so an access through a null `_regs` faults.
  unfoldable pub reg_read : ℕ → Method ℕ
  reg_read offset d =
      if d.regs == 0 then fault else (do v ← call (mmio_read (d.regs + offset)); pure (u32 v)) d

  unfoldable pub reg_write : ℕ → ℕ → Method (Unit {0})
  reg_write offset value d =
      if d.regs == 0 then fault else (do call (mmio_write (d.regs + offset) value); pure tt) d

  -- while ((reg_read(PL011_FR) & PL011_FR_BUSY) && timeout-- > 0) IODelay(1);
  unfoldable pub busy_wait : ℕ → Method (Unit {0})
  busy_wait zero = do reg_read pl011_fr; pure tt
  busy_wait (suc timeout) = do
    v ← reg_read pl011_fr
    if bit_and v pl011_fr_busy == 0 then pure tt else do call (io_delay 1); busy_wait timeout

  -- while (!(reg_read(PL011_FR) & PL011_FR_RXFE)) (void)reg_read(PL011_DR);
  unfoldable pub clear_receive_fifo : ℕ → Method (Unit {0})
  clear_receive_fifo zero = λ _. out_of_fuel
  clear_receive_fifo (suc fuel) = do
    v ← reg_read pl011_fr
    if bit_and v pl011_fr_rxfe == 0
        then (do reg_read pl011_dr; clear_receive_fifo fuel)
        else pure tt

  -- Steps 4 to 7. Where `16 * baud` wraps to zero the divisions are undefined, which is a fault.
  unfoldable pub configure : ℕ → Method (Unit {0})
  configure baud = if sixteen_baud baud == 0 then (λ _. fault) else do
    reg_write pl011_ibrd (integer_divisor baud)
    reg_write pl011_fbrd (fractional_divisor baud)
    reg_write pl011_lcrh (bit_or pl011_lcrh_wlen_8 pl011_lcrh_fen)
    reg_write pl011_imsc 0
    reg_write pl011_icr 0x7ff
    reg_write pl011_cr (bit_or (bit_or pl011_cr_txe pl011_cr_rxe) pl011_cr_uarten)
    call (
        io_log "JuliusSerial: PL011 configured: %u baud, IBRD=%u FBRD=%u\n"
          (baud ∷ integer_divisor baud ∷ fractional_divisor baud ∷ []))
    pure tt

  -- With the fuel of the loop that clears the FIFO.
  unfoldable pub hw_init : ℕ → ℕ → Method (Unit {0})
  hw_init fuel baud = do
    reg_write pl011_cr 0
    busy_wait 100000
    clear_receive_fifo fuel
    configure baud

  unfoldable pub tx_ready : Method Bool
  tx_ready = do v ← reg_read pl011_fr; pure (bit_and v pl011_fr_txff == 0)

  unfoldable pub rx_ready : Method Bool
  rx_ready = do v ← reg_read pl011_fr; pure (bit_and v pl011_fr_rxfe == 0)

  -- while (!tx_ready() && timeout-- > 0) IODelay(1); returns the int `timeout`.
  unfoldable pub tx_wait : ℕ → Method ℕ
  tx_wait zero = do ready ← tx_ready; pure (if ready then 0 else 2 ^ 32 - 1)
  tx_wait (suc timeout) = do
    ready ← tx_ready
    if ready then pure (suc timeout) else do call (io_delay 1); tx_wait timeout

  unfoldable pub put_char : ℕ → Method (Unit {0})
  put_char c = do
    regs ← get (λ d. d.regs)
    if regs == 0 then pure tt else do
      timeout ← tx_wait 100000
      if is_negative32 timeout || timeout == 0
          then (do call (io_log "JuliusSerial: TX timeout!\n" []); pure tt)
          else reg_write pl011_dr (u32 (u8 c))

  -- The result and what is stored at `out`.
  unfoldable pub get_char : Method (Option ℕ)
  get_char = do
    regs ← get (λ d. d.regs)
    if regs == 0 then pure none else do
      ready ← rx_ready
      if ready then (do v ← reg_read pl011_dr; pure (some (bit_and v 0xff))) else pure none

  -- The bytes of the string, without its terminating zero.
  unfoldable pub put_string : List ℕ → Method (Unit {0})
  put_string [] = pure tt
  put_string (c ∷ s) = do if c == b'\n' then put_char b'\r' else pure tt; put_char c; put_string s

  unfoldable pub set_baud : ℕ → ℕ → Method (Unit {0})
  set_baud fuel baud = do
    call (io_log "JuliusSerial: changing baud to %u\n" (baud ∷ []))
    hw_init fuel baud
