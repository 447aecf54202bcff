-- ===== src/Serial/Mapped.antt =====
-- The mapping of the registers in `start`.
use ajulius.Prelude.{
  [], Bool, List, ℕ, ◌≡◌, refl, sym, ◌≢◌, ◌⊎◌, inl, inr, true, false, ◌==◌, Bool-cases, ne→==,
  ==→eq, ==→ne, ◌∷◌, arith,
}
use ajulius.Outcome.Returns.{Returns, returns}
use ajulius.IoKit.{
  io_log, Event, get_virtual_address, Host, with_physical_address, map_descriptor, release,
}
use ajulius.Serial.{Driver}
use ajulius.Serial.Accesses.{with_events, after}
use ajulius.Serial.Objects.{Mapping, makes, made, freed, IsValid}
use ajulius.Serial.Service.{map_registers}

module _ (h : Host) (d : Driver) where
  -- The request for the page of registers at the base address, and for its mapping, and the answers.
  abbrev requested : List Event
  requested = with_physical_address d.phys_base 0x1000 0 ∷ d.events

  abbrev descriptor : ℕ
  descriptor = h d.events (with_physical_address d.phys_base 0x1000 0)

  abbrev mapping_at : ℕ
  mapping_at = h requested (map_descriptor descriptor)

  abbrev given_back : List Event
  given_back = release descriptor ∷ map_descriptor descriptor ∷ requested

  abbrev registers : ℕ
  registers = h given_back (get_virtual_address mapping_at)

  -- No descriptor; a descriptor, given back, and no mapping; or both, and the registers' address.
  pub data MapTried : Bool → Driver → Type 0 where
    no_descriptor :
        {d' : Driver}
        → descriptor ≡ 0
        → d'
          ≡ with_events d (io_log "JuliusSerial: cannot create memory descriptor\n" [] ∷ requested)
        → MapTried false d'
    no_mapping :
        {d' : Driver}
        → descriptor ≢ 0
        → mapping_at ≡ 0
        → d' ≡ record d {
          mmio_map = mapping_at;
          events =
              io_log "JuliusSerial: cannot map UART MMIO at 0x%llx\n" (d.phys_base ∷ [])
              ∷ given_back;
        }
        → MapTried false d'
    both :
        {d' : Driver}
        → descriptor ≢ 0
        → mapping_at ≢ 0
        → d' ≡ record d {
          mmio_map = mapping_at;
          regs = registers;
          events =
              io_log "JuliusSerial: MMIO mapped at virt 0x%llx\n" (registers ∷ [])
              ∷ get_virtual_address mapping_at
              ∷ given_back;
        }
        → MapTried true d'

module _ (h : Host) (base : ℕ) (mapping : Mapping h base) where
  -- Nothing is mapped, and no release is owed.
  idle_owes :
      (d : Driver) (p : ℕ)
      → IsValid h base d
      → d.mmio_map ≡ 0
      → p ≢ 0
      → made h p d.events ≡ freed p d.events
  idle_owes d p valid unmapped nz =
      omega (arith, rw (unmapped, ne→== 0 p (λ e. nz (sym e))) at (valid.owed p nz))

  idle_regs : (d : Driver) → IsValid h base d → d.mmio_map ≡ 0 → d.regs ≡ 0
  idle_regs d valid unmapped = elim valid.fields [
    | inl (_, z) ↦ z
    | inr (nz, _) ↦ absurd (nz unmapped)
  ]

  -- The registers are mapped, or nothing is kept; the descriptor is released either way.
  pub map_registers-IsValid :
      (d : Driver)
      → d.mmio_map ≡ 0
      → IsValid h base d
      → Returns
          (λ b d'.
            IsValid h base d'
            × MapTried h d b d'
            × (((b ≡ true) × (d'.regs ≡ base)) ⊎ ((b ≡ false) × (d'.mmio_map ≡ 0))))
          (map_registers h d)
  unfolding map_registers made freed makes
  map_registers-IsValid d unmapped valid =
      let e1 = with_physical_address d.phys_base 0x1000 0 in
      let desc = h d.events e1 in
      let d1 = after d e1 in
      let e2 = map_descriptor desc in
      let map = h d1.events e2 in
      let null = idle_regs d valid unmapped in
      elim (Bool-cases (desc == 0)) [
        | inl none ↦ rw none (
            returns (
              record {
                fields = inl (unmapped, null);
                owed = λ p nz. ground (arith, idle_owes d p valid unmapped nz);
              },
              no_descriptor (==→eq desc 0 none) refl,
              inr (refl, unmapped),
            ))
        | inr some_desc ↦ rw some_desc (elim (Bool-cases (map == 0)) [
          | inl none ↦ rw none (
              returns (
                record {
                  fields = inl (==→eq map 0 none, null);
                  owed = λ p nz. ground (arith, idle_owes d p valid unmapped nz);
                },
                no_mapping (==→ne desc 0 some_desc) (==→eq map 0 none) refl,
                inr (refl, ==→eq map 0 none),
              ))
          | inr some_map ↦
              let real = ==→ne map 0 some_map in
              let here = mapping.address (release desc ∷ e2 ∷ d1.events) map real in
              rw some_map (
                returns (
                  record {
                    fields = inr (real, here);
                    owed = λ p nz. ground (arith, idle_owes d p valid unmapped nz);
                  },
                  both (==→ne desc 0 some_desc) real refl,
                  inl (refl, here),
                ))
        ])
      ]
