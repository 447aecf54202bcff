-- ===== src/Serial/Stop.antt =====
-- `stop`: the device turned off, and the mapping given back.
use ajulius.Prelude.{
  ℕ, ◌+◌, ◌≡◌, refl, sym, ◌≢◌, ap, ◌∙◌, ◌⊎◌, inl, inr, ne→==, eq→==, List, [], ◌∷◌, arith, codes,
}
use ajulius.Outcome.Returns
use ajulius.Outcome.Returns.{Returns, returns}
use ajulius.IoKit.{Host, mmio_write, io_log, super_stop, release}
use ajulius.Serial.{Driver, pl011_cr}
use ajulius.Serial.Accesses.{after, with_events, is_plain, same, more, reg_write-ok}
use ajulius.Serial.Text.{Prints, put_string-Prints, put_string_unmapped}
use ajulius.Serial.Drain.{writes}
use ajulius.Serial.Objects.{Mapping, makes, made, freed, IsValid, Extends-IsValid}
use ajulius.Serial.Service.{unmap_registers, stop}

-- Nothing is mapped any more; if registers were, the last write turned the device off.
pub record Stopped (h : Host) (base : ℕ) (d d' : Driver) : Type 0 where
  pub map_null : d'.mmio_map ≡ 0
  pub regs_null : d'.regs ≡ 0
  pub valid : IsValid h base d'
  pub off :
      ((d.regs ≡ 0) × (writes d'.events ≡ writes d.events))
      ⊎ ((d.regs ≡ base)
          × (earlier : List (ℕ × ℕ)) × (writes d'.events ≡ (base + pl011_cr, 0) ∷ earlier))

module _ (h : Host) (base : ℕ) (mapping : Mapping h base) where
  -- Giving the mapping back settles what is owed.
  release-IsValid :
      (d : Driver)
      → d.mmio_map ≢ 0
      → IsValid h base d
      → IsValid h base (record d { mmio_map = 0; regs = 0; events = release d.mmio_map ∷ d.events })
  unfolding made freed makes
  release-IsValid d mapped valid = record {
    fields = inl (refl, refl);
    owed = λ p nz. ground (arith, valid.owed p nz);
  }

  stop_idle :
      (provider : ℕ) (d : Driver)
      → d.mmio_map ≡ 0
      → d.regs ≡ 0
      → IsValid h base d
      → Returns (λ _. Stopped h base d) (stop h provider d)
  unfolding stop unmap_registers is_plain writes
  stop_idle provider d none null valid =
      let d1 = after d (io_log "JuliusSerial: stopping\n" []) in
      rw
        (
          put_string_unmapped h (codes "\r\n[JuliusSerial] UART driver stopping.\r\n") d1 null,
          eq→== d.regs 0 null,
          eq→== d.mmio_map 0 none,
        )
        (returns (record {
          map_null = none;
          regs_null = null;
          valid =
              Extends-IsValid h base d (with_events d _) (more _ refl (more _ refl same)) refl refl
                valid;
          off = inl (null, refl);
        }))

  stop_mapped :
      (provider : ℕ) (d : Driver)
      → d.mmio_map ≢ 0
      → d.regs ≡ base
      → IsValid h base d
      → Returns (λ _. Stopped h base d) (stop h provider d)
  unfolding stop unmap_registers is_plain Prints writes
  stop_mapped provider d mapped here valid =
      let d1 = after d (io_log "JuliusSerial: stopping\n" []) in
      let valid1 = Extends-IsValid h base d d1 (more _ refl same) refl refl valid in
      let real = λ (z : d.regs ≡ 0). mapping.real (sym here ∙ z) in
      Returns.bind
        (put_string-Prints h (codes "\r\n[JuliusSerial] UART driver stopping.\r\n") d1 real
          (omega arith))
        λ _ v p.
          let k = p.3 in
          let valid2 = Extends-IsValid h base d1 v k.plain k.map_same k.regs_same valid1 in
          let at = k.regs_same ∙ here in
          let live = λ (z : v.regs ≡ 0). mapping.real (sym at ∙ z) in
          let held = λ (z : v.mmio_map ≡ 0). mapped (sym k.map_same ∙ z) in
          let u = after v (mmio_write (v.regs + pl011_cr) 0) in
          let valid3 = Extends-IsValid h base v u (more _ refl same) refl refl valid2 in
          let valid4 = release-IsValid u held valid3 in
          let z = record u { mmio_map = 0; regs = 0; events = release u.mmio_map ∷ u.events } in
          rw (ne→== v.regs 0 live, reg_write-ok h v live pl011_cr 0, ne→== v.mmio_map 0 held)
            (returns (record {
              map_null = refl;
              regs_null = refl;
              valid =
                  Extends-IsValid h base z (after z (super_stop provider))
                    (more (super_stop provider) refl same) refl refl valid4;
              off =
                  inr
                    (here, writes v.events, ap (λ (r : ℕ). (r + pl011_cr, 0) ∷ writes v.events) at);
            }))

  -- With a host that maps a PL011's registers, `stop` of a valid driver ends, mapped or not. Then
  -- nothing is mapped and no release is owed, so its mapping was released exactly once; and if
  -- registers were mapped, its last write to the device turned it off.
  pub stop-Stopped :
      (provider : ℕ) (d : Driver)
      → IsValid h base d
      → Returns (λ _. Stopped h base d) (stop h provider d)
  stop-Stopped provider d valid = elim valid.fields [
    | inl (none, null) ↦ stop_idle provider d none null valid
    | inr (mapped, here) ↦ stop_mapped provider d mapped here valid
  ]
