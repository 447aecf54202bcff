-- ===== src/Serial/Accesses.antt =====
-- Single accesses, and what the driver has written and sent so far.
use ajulius.Prelude.{
  false, true, Bool, ℕ, ◌+◌, ◌≡◌, ◌≢◌, ◌==◌, if◌then◌else◌, ne→==, List, [], ◌∷◌, ◌++◌,
}
use ajulius.Types.{u32}
use ajulius.Outcome.{ok}
use ajulius.IoKit.{
  Event, Host, mmio_read, mmio_write, io_delay, io_log, super_start, super_stop, super_message,
  register_service, get_property, cast_to_data, get_length, get_bytes_no_copy, load_qword,
  get_virtual_address,
}
use ajulius.Serial.{Driver, reg_read, reg_write}

-- The driver after one event.
abbrev pub after : Driver → Event → Driver
after d e = record d { events = e ∷ d.events }

-- The driver with other events.
abbrev pub with_events : Driver → List Event → Driver
with_events d es = record d { events = es }

-- What a register reads as, at an address and after some events.
abbrev pub reads : Host → ℕ → List Event → ℕ
reads h a es = u32 (h es (mmio_read a))

module _ (h : Host) (d : Driver) (real : d.regs ≢ 0) (offset : ℕ) where
  pub reg_read-ok :
      reg_read h offset d
      ≡ ok (reads h (d.regs + offset) d.events) (after d (mmio_read (d.regs + offset)))
  unfolding reg_read
  reg_read-ok = rw (ne→== d.regs 0 real)

  pub reg_write-ok :
      (value : ℕ)
      → reg_write h offset value d ≡ ok tt (after d (mmio_write (d.regs + offset) value))
  unfolding reg_write
  reg_write-ok value = rw (ne→== d.regs 0 real)

-- The values written to the register at an address, the earliest first.
unfoldable pub written : ℕ → List Event → List ℕ
written a [] = []
written a (mmio_write b v ∷ es) = written a es ++ (if b == a then v ∷ [] else [])
written a (_ ∷ es) = written a es

-- Events that neither make nor release an object.
unfoldable pub is_plain : Event → Bool
is_plain (mmio_read a) = true
is_plain (mmio_write a v) = true
is_plain (io_delay t) = true
is_plain (io_log s vs) = true
is_plain (get_property p s) = true
is_plain (cast_to_data p) = true
is_plain (get_length p) = true
is_plain (get_bytes_no_copy p) = true
is_plain (load_qword a) = true
is_plain (get_virtual_address m) = true
is_plain register_service = true
is_plain (super_message t p a) = true
is_plain (super_start p) = true
is_plain (super_stop p) = true
is_plain _ = false

-- Plain events are all that came since.
pub data Extends (es : List Event) : List Event → Type 0 where
  same : Extends es es
  more : {ts : List Event} (e : Event) → is_plain e ≡ true → Extends es ts → Extends es (e ∷ ts)

pub Extends-trans : {es ts us : List Event} → Extends es ts → Extends ts us → Extends es us
Extends-trans p same = p
Extends-trans p (more e plain q) = more e plain (Extends-trans p q)
