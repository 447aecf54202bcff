-- ===== src/IoKit.antt =====
-- What the driver of kexts/JuliusSerial calls: I/O Kit, the C++ runtime behind its objects, and the
-- device registers. None of it is part of this repository, so it is a parameter: a function of the
-- events so far and the one that is answered. A pointer is its address, and NULL is zero.
use ajulius.Prelude.{ℕ, String, List}

-- A call or an access, in the order of the arguments.
pub data Event : Type 0 where
  -- Device registers: a 32-bit read, a 32-bit write.
  mmio_read : ℕ → Event
  mmio_write : ℕ → ℕ → Event
  -- IODelay, and IOLog with its format and the numbers that it prints.
  io_delay : ℕ → Event
  io_log : String → List ℕ → Event
  -- IOService.
  super_start : ℕ → Event
  super_stop : ℕ → Event
  super_message : ℕ → ℕ → ℕ → Event
  register_service : Event
  -- provider->getProperty, OSDynamicCast(OSData, …), getLength, getBytesNoCopy, and a load of the
  -- eight bytes at an address.
  get_property : ℕ → String → Event
  cast_to_data : ℕ → Event
  get_length : ℕ → Event
  get_bytes_no_copy : ℕ → Event
  load_qword : ℕ → Event
  -- IOMemoryDescriptor::withPhysicalAddress, map, getVirtualAddress, release.
  with_physical_address : ℕ → ℕ → ℕ → Event
  map_descriptor : ℕ → Event
  get_virtual_address : ℕ → Event
  release : ℕ → Event

-- The events are the latest first, without the one that is answered. A call without a result is
-- answered by a number that nothing reads.
abbrev pub Host : Type 0
Host = List Event → Event → ℕ
