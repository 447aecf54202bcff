-- ===== src/Serial/Service.antt =====
-- The methods that I/O Kit calls: start, stop and message.
use ajulius.Prelude.{ℕ, Bool, true, false, not, ◌==◌, ltb, if◌then◌else◌, [], ◌∷◌, codes}
use ajulius.Types.{u32, u64}
use ajulius.Outcome.{pure, ◌>>=◌, ◌>>◌}
use ajulius.IoKit.{
  io_log, super_start, super_stop, super_message, register_service, get_property, cast_to_data,
  get_length, get_bytes_no_copy, load_qword, with_physical_address, map_descriptor,
  get_virtual_address, release, Host,
}
use ajulius.Serial.{
  Method, get, modify, call, reg_write, hw_init, put_string, pl011_cr, julius_uart_baud,
  k_default_uart_base, k_uart_region_size, k_io_direction_none,
}

module _ (h : Host) where
  -- regData && regData->getLength() >= sizeof(uint64_t)
  unfoldable pub has_address : ℕ → Method Bool
  has_address reg_data =
      if reg_data == 0
      then pure false
      else do length ← call h (get_length reg_data); pure (not (ltb (u32 length) 8))

  unfoldable pub find_base : ℕ → Method (Unit {0})
  find_base provider = do
    modify λ d. record d { phys_base = k_default_uart_base }
    property ← call h (get_property provider "reg")
    reg_data ← call h (cast_to_data property)
    usable ← has_address reg_data
    if usable
        then (do
          bytes ← call h (get_bytes_no_copy reg_data)
          base ← call h (load_qword bytes)
          modify λ d. record d { phys_base = u64 base }
          call h (io_log "JuliusSerial: using device-tree base 0x%llx\n" (u64 base ∷ []))
          pure tt)
        else (do
          base ← get (λ d. d.phys_base)
          call h (io_log "JuliusSerial: no 'reg' property, using default 0x%llx\n" (base ∷ []))
          pure tt)

  -- The mapping of the registers, false if there is none.
  unfoldable pub map_registers : Method Bool
  map_registers = do
    base ← get (λ d. d.phys_base)
    desc ← call h (with_physical_address base k_uart_region_size k_io_direction_none)
    if desc == 0
        then (do call h (io_log "JuliusSerial: cannot create memory descriptor\n" []); pure false)
        else (do
          map ← call h (map_descriptor desc)
          modify λ d. record d { mmio_map = map }
          call h (release desc)
          if map == 0
              then (do
                call h (io_log "JuliusSerial: cannot map UART MMIO at 0x%llx\n" (base ∷ []))
                pure false)
              else (do
                regs ← call h (get_virtual_address map)
                modify λ d. record d { regs = regs }
                call h (io_log "JuliusSerial: MMIO mapped at virt 0x%llx\n" (regs ∷ []))
                pure true))

  -- With the fuel of `hw_init`.
  unfoldable pub start : ℕ → ℕ → Method Bool
  start fuel provider = do
    up ← call h (super_start provider)
    if up == 0
        then (do call h (io_log "JuliusSerial: super::start() failed\n" []); pure false)
        else (do
          call h (io_log "JuliusSerial: starting\n" [])
          find_base provider
          mapped ← map_registers
          if mapped
              then (do
                hw_init h fuel julius_uart_baud
                put_string h (
                    codes
                      "\r\n[JuliusSerial] UART driver started. JULIUS OS serial console ready.\r\n")
                call h register_service
                call h (io_log "JuliusSerial: registered as com.julius-os.driver.serial\n" [])
                pure true)
              else pure false)

  -- if (_mmioMap) { release; both fields to null }
  unfoldable pub unmap_registers : Method (Unit {0})
  unmap_registers = do
    map ← get (λ d. d.mmio_map)
    if map == 0
        then pure tt
        else do call h (release map); modify λ d. record d { mmio_map = 0; regs = 0 }

  unfoldable pub stop : ℕ → Method (Unit {0})
  stop provider = do
    call h (io_log "JuliusSerial: stopping\n" [])
    put_string h (codes "\r\n[JuliusSerial] UART driver stopping.\r\n")
    regs ← get (λ d. d.regs)
    if regs == 0 then pure tt else reg_write h pl011_cr 0
    unmap_registers
    call h (super_stop provider)
    pure tt

  -- The IOReturn is the superclass's.
  unfoldable pub message : ℕ → ℕ → ℕ → Method ℕ
  message type provider argument = do
    call h (io_log "JuliusSerial: message type=0x%x\n" (type ∷ []))
    call h (super_message type provider argument)
