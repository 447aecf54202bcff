-- ===== src/Serial/Pl011.antt =====
-- The interface to the device: what the driver relies on of a PL011. The chip is not part of this
-- repository, so each law is a hypothesis, and states what its reference manual says of the receive
-- side.
use ajulius.Prelude.{
  ℕ, ◌+◌, ◌≤◌, ◌≡◌, ◌==◌, if◌then◌else◌, Bool, true, false, ◌&&◌, List, [], ◌∷◌, ◌++◌, length,
  bit_and,
}
use ajulius.IoKit.{Event, Host, mmio_read, mmio_write, io_delay}
use ajulius.Serial.{pl011_dr, pl011_fr, pl011_cr, pl011_fr_rxfe, pl011_cr_uarten}
use ajulius.Serial.Accesses.{reads}

-- What an event does to the bytes that wait: a read of the data register takes the first.
abbrev pub rest_of : List ℕ → List ℕ
rest_of [] = []
rest_of (b ∷ bs) = bs

unfoldable pub taken : ℕ → Event → List ℕ → List ℕ
taken regs (mmio_read a) bs = if a == regs + pl011_dr then rest_of bs else bs
taken regs _ bs = bs

-- The driver has turned the device off, and has only read and waited since.
unfoldable pub is_off : ℕ → List Event → Bool
is_off regs (mmio_read a ∷ es) = is_off regs es
is_off regs (io_delay t ∷ es) = is_off regs es
is_off regs (mmio_write a v ∷ es) = a == regs + pl011_cr && bit_and v pl011_cr_uarten == 0
is_off regs _ = false

-- A PL011 with its registers at an address: `fifo` is what waits in its receive FIFO, `received` all
-- that ever joined it, the latest last, and `in_flight` counts the character that is on its way in.
pub record Pl011 (h : Host) (regs : ℕ) : Type 0 where
  pub fifo : List Event → List ℕ
  pub received : List Event → List ℕ
  pub in_flight : List Event → ℕ
  pub depth : (es : List Event) → length (fifo es) ≤ 32
  -- RXFE tells whether the FIFO is empty, and the data register shows its first byte.
  pub empty_flag :
      (es : List Event)
      → fifo es ≡ []
      → (bit_and (reads h (regs + pl011_fr) es) pl011_fr_rxfe == 0) ≡ false
  pub data_flag :
      (es : List Event) (b : ℕ) (bs : List ℕ)
      → fifo es ≡ b ∷ bs
      → (bit_and (reads h (regs + pl011_fr) es) pl011_fr_rxfe == 0) ≡ true
  pub data_byte :
      (es : List Event) (b : ℕ) (bs : List ℕ)
      → fifo es ≡ b ∷ bs
      → bit_and (reads h (regs + pl011_dr) es) 0xff ≡ b
  -- What arrives joins the end; only a read of the data register takes bytes away. (A write of the
  -- line control register may clear the FIFO, so this is said of reads alone.)
  pub arrives :
      (es : List Event) (a : ℕ)
      → (new : List ℕ) × (received (mmio_read a ∷ es) ≡ received es ++ new)
        × (fifo (mmio_read a ∷ es) ≡ taken regs (mmio_read a) (fifo es) ++ new)
  -- A device that is turned off in the middle of a reception completes the current character, and
  -- starts no other.
  pub at_most_one : (es : List Event) → in_flight es ≤ 1
  pub completes :
      (es : List Event) (a : ℕ)
      → is_off regs es ≡ true
      → length (received (mmio_read a ∷ es)) + in_flight (mmio_read a ∷ es)
        ≤ length (received es) + in_flight es
