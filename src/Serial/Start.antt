-- ===== src/Serial/Start.antt =====
-- `start`: every way that it ends.
use ajulius.Prelude.{
  ==→ne, ◌≢◌, ==→eq, ℕ, ◌<◌, ◌≡◌, refl, sym, ◌∙◌, ◌⊎◌, inl, inr, Bool, true, false, ◌==◌,
  Bool-cases, [], ◌∷◌, arith, codes,
}
use ajulius.Outcome.{pure, ◌>>◌}
use ajulius.Outcome.Returns
use ajulius.Outcome.Returns.{Ends, Returns, returns}
use ajulius.IoKit.{Host, io_log, super_start, register_service}
use mathlib.Core.Path.{subst}
use ajulius.Serial.{call, Driver, put_string, hw_init, julius_uart_baud}
use ajulius.Serial.Accesses.{with_events, is_plain, same, more}
use ajulius.Serial.Pl011.{Pl011}
use ajulius.Serial.Text.{cooked, Prints, put_string-Prints}
use ajulius.Serial.Setup.{Configured, hw_init-Configured}
use ajulius.Serial.Objects.{Mapping, IsValid, Extends-IsValid}
use ajulius.Serial.Service.{start}
use ajulius.Serial.Base.{BaseFound, find_base-BaseFound}
use ajulius.Serial.Mapped.{MapTried, map_registers-IsValid}

module _ (h : Host) where
  -- The device is set up at 115200 baud, and then the greeting goes out and the service is
  -- registered.
  pub record Online (mapped d' : Driver) : Type 0 where
    pub ready : Driver
    pub greeted : Driver
    pub configured : Configured julius_uart_baud mapped ready
    pub printed :
        Prints h ready
          (cooked
            (codes "\r\n[JuliusSerial] UART driver started. JULIUS OS serial console ready.\r\n"))
          greeted
    pub registered :
        d'
        ≡ with_events greeted (
            io_log "JuliusSerial: registered as com.julius-os.driver.serial\n" []
            ∷ register_service
            ∷ greeted.events)

module _ (h : Host) (base : ℕ) (mapping : Mapping h base) where
  bring_up-Online :
      (fuel : ℕ) (d : Driver)
      → 33 < fuel
      → d.regs ≡ base
      → IsValid h base d
      → Returns
          (λ b d'. (b ≡ true) × IsValid h base d' × (d'.regs ≡ base) × Online h d d')
          ((do
            hw_init h fuel julius_uart_baud
            put_string h (
                codes "\r\n[JuliusSerial] UART driver started. JULIUS OS serial console ready.\r\n")
            call h register_service
            call h (io_log "JuliusSerial: registered as com.julius-os.driver.serial\n" [])
            pure true)
            d)
  unfolding is_plain Prints
  bring_up-Online fuel d room here valid =
      let device : Pl011 h d.regs = subst (Pl011 h) (sym here) mapping.device in
      let real = λ (z : d.regs ≡ 0). mapping.real (sym here ∙ z) in
      Returns.bind
        (hw_init-Configured h fuel julius_uart_baud d device real (λ z. absurd (omega arith)) room)
        λ _ v c.
          let v1 = Extends-IsValid h base d v c.plain c.map_same c.regs_same valid in
          Returns.bind
            (put_string-Prints h
              (codes "\r\n[JuliusSerial] UART driver started. JULIUS OS serial console ready.\r\n")
              v (λ z. real (sym c.regs_same ∙ z)) (omega arith))
            λ _ u p.
              let k = p.3 in
              let d' = with_events u (
                io_log "JuliusSerial: registered as com.julius-os.driver.serial\n" []
                ∷ register_service
                ∷ u.events) in
              returns (
                refl,
                Extends-IsValid h base v d' (more _ refl (more _ refl k.plain)) k.map_same
                    k.regs_same v1,
                k.regs_same ∙ c.regs_same ∙ here,
                record { ready = v; greeted = u; configured = c; printed = p; registered = refl },
              )

  -- The driver that looks for its base address.
  abbrev begun : ℕ → Driver → Driver
  begun provider d =
      with_events d (io_log "JuliusSerial: starting\n" [] ∷ super_start provider ∷ d.events)

  -- What the base address found comes to, mapped or not.
  abbrev Tried : ℕ → Driver → Bool → Driver → Type 0
  Tried provider d b d' =
      (found : Driver) × BaseFound h provider (begun provider d) found × MapTried h found b d'

  -- What `start` comes to: the driver is online, or nothing is mapped.
  abbrev pub Starts : ℕ → Driver → Bool → Driver → Type 0
  Starts provider d b d' =
      IsValid h base d'
      × (((b ≡ true)
            × (d'.regs ≡ base)
            × (h d.events (super_start provider) ≢ 0)
            × (mapped : Driver) × Tried provider d true mapped
            × Online h mapped d')
          ⊎ ((b ≡ false)
              × (d'.mmio_map ≡ 0)
              × ((h d.events (super_start provider) ≡ 0)
                  ⊎ ((h d.events (super_start provider) ≢ 0) × Tried provider d false d'))))

  -- With a host that maps a PL011's registers, an idle driver, and at least 34 rounds to clear
  -- the FIFO, `start` ends, and the driver owes only the release of its mapping. It returns false
  -- with nothing mapped if its superclass refuses. Otherwise it takes as base address the first
  -- eight bytes of the `reg` property if it is data of at least that length, and else 0x09000000,
  -- and asks for the mapping of the page at that address. If there is no descriptor or no mapping
  -- it returns false with nothing mapped; otherwise true, with the registers mapped, the device set
  -- up at 115200 baud, the greeting printed as `putString` prints and the service registered after
  -- it.
  pub start-Starts :
      (fuel provider : ℕ) (d : Driver)
      → 33 < fuel
      → d.mmio_map ≡ 0
      → IsValid h base d
      → Returns (Starts provider d) (start h fuel provider d)
  unfolding start is_plain
  start-Starts fuel provider d room idle valid =
      elim (Bool-cases (h d.events (super_start provider) == 0)) [
        | inl down ↦ rw down (
            returns (
              Extends-IsValid h base d (with_events d _) (more _ refl (more _ refl same)) refl refl
                  valid,
              inr (refl, idle, inl (==→eq (h d.events (super_start provider)) 0 down)),
            ))
        | inr up ↦
            let d1 = begun provider d in
            let ne = ==→ne (h d.events (super_start provider)) 0 up in
            let valid1 =
              Extends-IsValid h base d d1 (more _ refl (more _ refl same)) refl refl valid in
            rw up (
              Returns.bind (find_base-BaseFound h provider d1) λ _ d2 (q, found).
                let valid2 = Extends-IsValid h base d1 d2 q.extends q.map_same q.regs_same valid1 in
                Returns.bind (map_registers-IsValid h base mapping d2 (q.map_same ∙ idle) valid2)
                  λ b d3 (valid3, tried, o). elim o [
                    | inl (yes_map, here) ↦ rw yes_map (
                        Returns.mono (bring_up-Online fuel d3 room here valid3)
                          λ b d' (t, v, at, on).
                            let mapped = subst (λ b. MapTried h d2 b d3) yes_map tried in
                            (v, inl (t, at, ne, d3, (d2, found, mapped), on)))
                    | inr (no_map, none) ↦ rw no_map (
                        let failed = subst (λ b. MapTried h d2 b d3) no_map tried in
                        returns (valid3, inr (refl, none, inr (ne, (d2, found, failed)))))
                  ])
      ]
