-- ===== src/Serial/Drain.antt =====
-- The waits of `hw_init`, for an idle line and for an empty FIFO: they only read.
use ajulius.Prelude.{
  length-append, ◌≤◌, ◌++◌, ℕ, zero, suc, ◌+◌, ◌<◌, ◌≡◌, refl, ◌≢◌, ap, ◌∙◌, inl, inr, true, ◌==◌,
  Bool-cases, eq→==, List, [], ◌∷◌, arith, length, bit_and,
}
use ajulius.Outcome.Returns
use ajulius.Outcome.Returns.{Ends, Returns, returns, panics}
use ajulius.IoKit.{Event, Host, mmio_read, mmio_write, io_delay}
use ajulius.Serial.{
  Driver, pl011_dr, pl011_fr, pl011_cr, pl011_fr_busy, busy_wait, clear_receive_fifo,
}
use ajulius.Serial.Accesses.{
  is_plain, Extends, same, more, Extends-trans, after, reads, reg_read-ok,
}
use ajulius.Serial.Pl011.{taken, Pl011, is_off}
use ajulius.Serial.Receive.{list-cases, flag_read, data_read}

-- All register writes, the latest first.
unfoldable pub writes : List Event → List (ℕ × ℕ)
writes [] = []
writes (mmio_write a v ∷ es) = (a, v) ∷ writes es
writes (_ ∷ es) = writes es

-- The driver has only read and waited: fields and writes are as before, and a device that was off
-- still is.
pub record Looks (d d' : Driver) : Type 0 where
  pub map_same : d'.mmio_map ≡ d.mmio_map
  pub regs_same : d'.regs ≡ d.regs
  pub base_same : d'.phys_base ≡ d.phys_base
  pub plain : Extends d.events d'.events
  pub writes_same : writes d'.events ≡ writes d.events
  pub still_off : is_off d.regs d.events ≡ true → is_off d.regs d'.events ≡ true

pub Looks-refl : (d : Driver) → Looks d d
Looks-refl d = record {
  map_same = refl;
  regs_same = refl;
  base_same = refl;
  plain = same;
  writes_same = refl;
  still_off = λ z. z;
}

pub Looks-trans : (d v u : Driver) → Looks d v → Looks v u → Looks d u
Looks-trans d v u p q = record {
  map_same = q.map_same ∙ p.map_same;
  regs_same = q.regs_same ∙ p.regs_same;
  base_same = q.base_same ∙ p.base_same;
  plain = Extends-trans p.plain q.plain;
  writes_same = q.writes_same ∙ p.writes_same;
  still_off = λ z. (rw p.regs_same at q.still_off) (p.still_off z);
}

pub read-Looks : (d : Driver) (a : ℕ) → Looks d (after d (mmio_read a))
unfolding writes is_off is_plain
read-Looks d a = record {
  map_same = refl;
  regs_same = refl;
  base_same = refl;
  plain = more _ refl same;
  writes_same = refl;
  still_off = λ z. z;
}

pub delay-Looks : (d : Driver) (t : ℕ) → Looks d (after d (io_delay t))
unfolding writes is_off is_plain
delay-Looks d t = record {
  map_same = refl;
  regs_same = refl;
  base_same = refl;
  plain = more _ refl same;
  writes_same = refl;
  still_off = λ z. z;
}

pub is_off-write : (r : ℕ) (es : List Event) → is_off r (mmio_write (r + pl011_cr) 0 ∷ es) ≡ true
unfolding is_off
is_off-write r es = rw (eq→== (r + pl011_cr) (r + pl011_cr) refl)

module _ (h : Host) where
  pub busy_wait-Looks : (t : ℕ) (d : Driver) → d.regs ≢ 0 → Returns (λ _. Looks d) (busy_wait h t d)
  unfolding busy_wait
  busy_wait-Looks zero d real =
      rw (reg_read-ok h d real pl011_fr) (returns (read-Looks d (d.regs + pl011_fr)))
  busy_wait-Looks (suc t) d real =
      let a = d.regs + pl011_fr in
      let v = after d (mmio_read a) in
      let u = after v (io_delay 1) in
      rw (reg_read-ok h d real pl011_fr)
        (elim (Bool-cases (bit_and (reads h a d.events) pl011_fr_busy == 0)) [
          | inl idle ↦ rw idle (returns (read-Looks d a))
          | inr busy ↦ rw busy (
              Returns.mono (busy_wait-Looks t u real) λ _ d' q.
                Looks-trans d u d' (Looks-trans d v u (read-Looks d a) (delay-Looks v 1)) q)
        ])

  -- While the device is off, a read adds to the FIFO no more than it takes from what is on its way.
  fill-le :
      (regs : ℕ) (p : Pl011 h regs) (es : List Event) (a : ℕ)
      → is_off regs es ≡ true
      → length (p.fifo (mmio_read a ∷ es)) + p.in_flight (mmio_read a ∷ es)
        ≤ length (taken regs (mmio_read a) (p.fifo es)) + p.in_flight es
  fill-le regs p es a off =
      let (new, got, moved) = p.arrives es a in
      let few = rw (got, length-append (p.received es) new) at (p.completes es a off) in
      rw (moved, length-append (taken regs (mmio_read a) (p.fifo es)) new) (omega (arith, few))

  -- While the device is off, as many rounds as bytes wait or are on their way, and one more, clear
  -- the FIFO.
  pub clear_receive_fifo-Looks :
      (fuel : ℕ) (d : Driver) (p : Pl011 h d.regs)
      → d.regs ≢ 0
      → is_off d.regs d.events ≡ true
      → length (p.fifo d.events) + p.in_flight d.events < fuel
      → Returns (λ _. Looks d) (clear_receive_fifo h fuel d)
  unfolding clear_receive_fifo
  clear_receive_fifo-Looks zero d p real off room = absurd (omega arith)
  clear_receive_fifo-Looks (suc fuel) d p real off room =
      let fr = mmio_read (d.regs + pl011_fr) in
      let dr = mmio_read (d.regs + pl011_dr) in
      let v = after d fr in
      let u = after v dr in
      let seen = read-Looks d (d.regs + pl011_fr) in
      let both = Looks-trans d v u seen (read-Looks v (d.regs + pl011_dr)) in
      rw (reg_read-ok h d real pl011_fr) (elim (list-cases (p.fifo d.events)) [
        | inl empty ↦ rw (p.empty_flag d.events empty) (returns seen)
        | inr (b, bs, full) ↦
            let (new, got, moved) = p.arrives d.events (d.regs + pl011_fr) in
            let now : p.fifo v.events ≡ b ∷ bs ++ new =
              moved ∙ ap (λ (l : List ℕ). l ++ new) (flag_read h d.regs p d.events ∙ full) in
            let one = fill-le d.regs p d.events (d.regs + pl011_fr) off in
            let two = fill-le d.regs p v.events (d.regs + pl011_dr) (seen.still_off off) in
            let fewer : length (p.fifo u.events) + p.in_flight u.events < fuel = omega (
              arith,
              rw (flag_read h d.regs p d.events, now) at one,
              rw (data_read h d.regs p v.events, now) at two,
              room,
            ) in
            rw (p.data_flag d.events b bs full, reg_read-ok h v real pl011_dr)
              (Returns.mono (clear_receive_fifo-Looks fuel u p real (both.still_off off) fewer)
                λ _ d' q. Looks-trans d u d' both q)
      ])
