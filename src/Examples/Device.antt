-- ===== src/Examples/Device.antt =====
-- A host with a PL011 at 4096 that has received two bytes, and drivers to run on it.
use ajulius.Prelude.{
  ◌%◌, ℕ, ◌+◌, ◌≤◌, ◌<◌, ◌^◌, ◌≡◌, refl, ◌==◌, if◌then◌else◌, Bool-cases, inl, inr, List, [], ◌∷◌,
  All, arith, length,
}
use mathlib.Core.List.{append-nil}
use ajulius.Prelude.Bits.{bit_and_low}
use ajulius.IoKit.{
  Event, Host, mmio_read, super_start, with_physical_address, map_descriptor, get_virtual_address,
  release,
}
use ajulius.Outcome.{ok}
use ajulius.Serial.Lifecycle.{perform, gets}
use ajulius.Serial.{get_char, rx_ready, reg_read, Driver, pl011_dr, pl011_fr}
use ajulius.Serial.Transmit.{polls}
use ajulius.Serial.Text.{Responsive}
use ajulius.Serial.Pl011.{Pl011, taken, rest_of}
use ajulius.Serial.Receive.{list-cases}
use ajulius.Serial.Objects.{Mapping, makes, made, freed, IsValid}

waiting : List Event → List ℕ
unfolding taken
waiting [] = b'H' ∷ b'i' ∷ []
waiting (e ∷ es) = taken 4096 e (waiting es)

flags : List ℕ → ℕ
flags [] = 0x10
flags (b ∷ bs) = 0

first_or_zero : List ℕ → ℕ
first_or_zero [] = 0
first_or_zero (b ∷ bs) = b

-- Every start is granted, every object is made, and there is no `reg` property.
pub host : Host
host es (mmio_read a) =
    if a == 4096 + pl011_fr
    then flags (waiting es)
    else if a == 4096 + pl011_dr
    then first_or_zero (waiting es)
    else 0
host es (super_start p) = 1
host es (with_physical_address a n dir) = 0x100
host es (map_descriptor m) = 0x200
host es (get_virtual_address m) = 4096
host es _ = 0

-- Few bytes wait, and each is a byte.
IsShort : List ℕ → Type 0
IsShort bs = (length bs ≤ 2) × All (λ b. b < 2 ^ 8) bs

rest_of-IsShort : (bs : List ℕ) → IsShort bs → IsShort (rest_of bs)
unfolding IsShort
rest_of-IsShort [] h = h
rest_of-IsShort (b ∷ bs) h = (omega arith, h.1.1)

taken-IsShort : (e : Event) (bs : List ℕ) → IsShort bs → IsShort (taken 4096 e bs)
unfolding taken
taken-IsShort (mmio_read a) bs h = elim (Bool-cases (a == 4096 + pl011_dr)) [
  | inl e ↦ rw e (rest_of-IsShort bs h)
  | inr e ↦ rw e h
]
taken-IsShort _ bs h = h

waiting-IsShort : (es : List Event) → IsShort (waiting es)
unfolding waiting IsShort
waiting-IsShort [] = (omega arith, (omega arith, (omega arith, tt)))
waiting-IsShort (e ∷ es) = taken-IsShort e (waiting es) (waiting-IsShort es)

pub device : Pl011 host 4096
unfolding host flags first_or_zero IsShort waiting
device = record {
  fifo = waiting;
  received = λ es. [];
  in_flight = λ es. 0;
  depth = λ es. omega (arith, (waiting-IsShort es).0);
  empty_flag = λ es e. rw e refl;
  data_flag = λ es b bs e. rw e refl;
  data_byte = λ es b bs e.
      let bytes : All (λ b. b < 2 ^ 8) (b ∷ bs) = rw e at (waiting-IsShort es).1 in
      rw (e, bit_and_low 8 (b % 2 ^ 32)) (omega (arith, bytes.0));
  arrives = λ es a. ([], refl, rw append-nil);
  at_most_one = λ es. omega arith;
  completes = λ es a off. omega arith;
}

pub mapping : Mapping host 4096
unfolding host
mapping = record { real = λ e. absurd (omega arith); address = λ es m nz. refl; device = device }

pub host-Responsive : Responsive host 4096
unfolding host polls flags
host-Responsive es = (
  0,
  omega arith,
  elim (list-cases (waiting es)) [ inl e ↦ rw e refl | inr (b, bs, e) ↦ rw e refl ],
)

abbrev pub idle : Driver
idle = record { mmio_map = 0; regs = 0; phys_base = 0; events = [] }

-- A driver whose mapping has been made.
abbrev pub online : Driver
online = record {
  mmio_map = 0x200;
  regs = 4096;
  phys_base = 0x09000000;
  events = release 0x100 ∷ map_descriptor 0x100 ∷ with_physical_address 0x09000000 0x1000 0 ∷ [];
}

pub idle-IsValid : IsValid host 4096 idle
unfolding made freed
idle-IsValid = record { fields = inl (refl, refl); owed = λ p nz. ground arith }

pub online-IsValid : IsValid host 4096 online
unfolding made freed makes host
online-IsValid = record {
  fields = inr ((λ e. absurd (omega arith)), refl);
  owed = λ p nz. ground arith;
}

-- The driver after it has read the first byte.
abbrev pub has_read : Driver
has_read = record online {
  events = mmio_read (4096 + pl011_dr) ∷ mmio_read (4096 + pl011_fr) ∷ online.events;
}

pub get_run : perform host 34 gets online ≡ ok tt has_read
unfolding perform get_char rx_ready reg_read host flags first_or_zero waiting
get_run = refl
