-- ===== src/Serial/Setup.antt =====
-- `hw_init`: the device is turned off, drained, set up, and turned on again.
use ajulius.Prelude.{
  ℕ, ◌+◌, ◌<◌, ◌≡◌, refl, sym, ◌≢◌, ◌∙◌, ◌⊎◌, inl, inr, true, ne→==, eq→==, List, [], ◌∷◌, arith,
}
use mathlib.Core.Path.{subst}
use mathlib.Core.List.{◌++◌}
use ajulius.Outcome.{Outcome, Action, fault, followed_by}
use ajulius.Outcome.Returns.{Returns, returns, panics}
use ajulius.IoKit.{Host, mmio_write, io_log}
use ajulius.Serial.{
  Driver, pl011_ibrd, pl011_fbrd, pl011_lcrh, pl011_cr, pl011_imsc, pl011_icr, sixteen_baud,
  integer_divisor, fractional_divisor, reg_write, clear_receive_fifo, configure, hw_init, set_baud,
}
use ajulius.Serial.Accesses.{is_plain, Extends, same, more, Extends-trans, after, reg_write-ok}
use ajulius.Serial.Drain.{
  writes, Looks, Looks-trans, is_off-write, busy_wait-Looks, clear_receive_fifo-Looks,
}
use ajulius.Serial.Pl011.{Pl011, is_off}

-- The writes of the set-up, the latest first: the device is off while its line is configured.
abbrev pub set_up : ℕ → ℕ → List (ℕ × ℕ)
set_up regs baud =
    (regs + pl011_cr, 0x301)
    ∷ (regs + pl011_icr, 0x7ff)
    ∷ (regs + pl011_imsc, 0)
    ∷ (regs + pl011_lcrh, 0x70)
    ∷ (regs + pl011_fbrd, fractional_divisor baud)
    ∷ (regs + pl011_ibrd, integer_divisor baud)
    ∷ (regs + pl011_cr, 0)
    ∷ []

-- The fields are as before, and the writes since are those of the set-up.
pub record Configured (baud : ℕ) (d d' : Driver) : Type 0 where
  pub map_same : d'.mmio_map ≡ d.mmio_map
  pub regs_same : d'.regs ≡ d.regs
  pub base_same : d'.phys_base ≡ d.phys_base
  pub plain : Extends d.events d'.events
  pub wrote : writes d'.events ≡ set_up d.regs baud ++ writes d.events

-- What follows a run that returns decides.
then_holds :
    {A B : Type 0} {P : A → Driver → Type 0} (R : Outcome Driver B → Type 0) {r : Outcome Driver A}
    {k : A → Action Driver B}
    → Returns P r
    → ((a : A) (d : Driver) → P a d → R (k a d))
    → R (followed_by r k)
then_holds R (returns p) next = next _ _ p
then_holds R (panics q) next = absurd q

module _ (h : Host) where
  -- After the first three steps, which turn the device off and clear its FIFO, the fourth decides.
  hw_init_rule :
      (R : Outcome Driver (Unit {0}) → Type 0) (fuel baud : ℕ) (d : Driver) (p : Pl011 h d.regs)
      → d.regs ≢ 0
      → 33 < fuel
      → ((v : Driver)
          → Looks (after d (mmio_write (d.regs + pl011_cr) 0)) v
          → R (configure h baud v))
      → R (hw_init h fuel baud d)
  unfolding hw_init
  hw_init_rule R fuel baud d p real room next =
      let v = after d (mmio_write (d.regs + pl011_cr) 0) in
      rw (reg_write-ok h d real pl011_cr 0) (
        then_holds R (busy_wait-Looks h 100000 v real) λ _ u q.
          then_holds R
            (subst
              (λ (r : ℕ).
                (q : Pl011 h r)
                → r ≢ 0
                → is_off r u.events ≡ true
                → Returns (λ _. Looks u) (clear_receive_fifo h fuel u))
              q.regs_same
              (λ p nz off.
                clear_receive_fifo-Looks h fuel u p nz off
                  (omega (arith, p.depth u.events, p.at_most_one u.events)))
              p real (q.still_off (is_off-write d.regs d.events)))
            λ _ d' k. next d' (Looks-trans v u d' q k))

  configure-Configured :
      (baud : ℕ) (d v : Driver)
      → d.regs ≢ 0
      → sixteen_baud baud ≢ 0
      → Looks (after d (mmio_write (d.regs + pl011_cr) 0)) v
      → Returns (λ _. Configured baud d) (configure h baud v)
  unfolding configure writes is_plain
  configure-Configured baud d v real nz q =
      let mapped = λ (z : v.regs ≡ 0). real (sym q.regs_same ∙ z) in
      let v1 = after v (mmio_write (v.regs + pl011_ibrd) (integer_divisor baud)) in
      let v2 = after v1 (mmio_write (v.regs + pl011_fbrd) (fractional_divisor baud)) in
      let v3 = after v2 (mmio_write (v.regs + pl011_lcrh) 0x70) in
      let v4 = after v3 (mmio_write (v.regs + pl011_imsc) 0) in
      let v5 = after v4 (mmio_write (v.regs + pl011_icr) 0x7ff) in
      rw
        (
          ne→== (sixteen_baud baud) 0 nz,
          reg_write-ok h v mapped pl011_ibrd (integer_divisor baud),
          reg_write-ok h v1 mapped pl011_fbrd (fractional_divisor baud),
          reg_write-ok h v2 mapped pl011_lcrh 0x70,
          reg_write-ok h v3 mapped pl011_imsc 0,
          reg_write-ok h v4 mapped pl011_icr 0x7ff,
          reg_write-ok h v5 mapped pl011_cr 0x301,
        )
        (returns (record {
          map_same = q.map_same;
          regs_same = q.regs_same;
          base_same = q.base_same;
          plain = Extends-trans (more _ refl same) (
              Extends-trans q.plain (
                more _ refl (
                  more _ refl
                    (more _ refl (more _ refl (more _ refl (more _ refl (more _ refl same))))))));
          wrote = rw (q.regs_same, q.writes_same) refl;
        }))

  -- With a PL011's registers mapped, a baud rate whose sixteenfold does not wrap to zero, and at
  -- least 34 rounds to clear the FIFO, `hw_init` ends and leaves the fields alone. It
  -- turns the device off, writes the two divisors, then eight bits with FIFOs, no interrupt
  -- enabled and all of them cleared, and last turns the device on with both directions; these are
  -- its only writes.
  pub hw_init-Configured :
      (fuel baud : ℕ) (d : Driver) (p : Pl011 h d.regs)
      → d.regs ≢ 0
      → sixteen_baud baud ≢ 0
      → 33 < fuel
      → Returns (λ _. Configured baud d) (hw_init h fuel baud d)
  hw_init-Configured fuel baud d p real nz room =
      hw_init_rule (Returns (λ _. Configured baud d)) fuel baud d p real room
        λ v q. configure-Configured baud d v real nz q

  -- `setBaud` faults if the registers are not mapped; and, with a PL011's registers mapped and at
  -- least 34 rounds to clear the FIFO, if the sixteenfold of the baud rate wraps to
  -- zero, as for 0 and 2 ^ 28, since the division by it is undefined.
  pub set_baud-fault :
      (fuel baud : ℕ) (d : Driver)
      → (d.regs ≡ 0) ⊎ (Pl011 h d.regs × (d.regs ≢ 0) × (sixteen_baud baud ≡ 0) × (33 < fuel))
      → set_baud h fuel baud d ≡ fault
  unfolding set_baud
  set_baud-fault fuel baud d (inl z) = (unfold hw_init reg_write in rw (eq→== d.regs 0 z))
  set_baud-fault fuel baud d (inr (p, real, z, room)) =
      let d' = after d (io_log "JuliusSerial: changing baud to %u\n" (baud ∷ [])) in
      hw_init_rule (λ o. o ≡ fault) fuel baud d' p real room
        λ v q. (unfold configure in rw (eq→== (sixteen_baud baud) 0 z))
