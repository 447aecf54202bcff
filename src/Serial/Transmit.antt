-- ===== src/Serial/Transmit.antt =====
-- `putChar`: the wait for room in the transmit FIFO, and its two ends.
use ajulius.Prelude.{
  ==→ne, le→ltb, ==→eq, ℕ, zero, suc, ◌+◌, ◌-◌, ◌^◌, ◌<◌, ◌≡◌, refl, ◌≢◌, ◌⊎◌, inl, inr, Bool, true,
  false, ◌==◌, Bool-cases, ne→==, eq→==, List, [], ◌∷◌, bit_and, arith,
}
use ajulius.Types.{u8, u32}
use ajulius.Outcome.{ok, Outcome}
use ajulius.Outcome.Returns.{Returns, returns}
use ajulius.IoKit.{Event, Host, mmio_read, mmio_write, io_delay, io_log}
use ajulius.Serial.{Driver, pl011_dr, pl011_fr, pl011_fr_txff, tx_ready, tx_wait, put_char}
use ajulius.Serial.Accesses.{after, with_events, reads, reg_read-ok, reg_write-ok}

-- The events after `n` polls of the flag register at `a` that found no room.
unfoldable pub polls : ℕ → ℕ → List Event → List Event
polls a zero es = es
polls a (suc n) es = polls a n (io_delay 1 ∷ mmio_read a ∷ es)

-- What a poll of the flag register at `a` says.
abbrev pub has_room : Host → ℕ → List Event → Bool
has_room h a es = bit_and (reads h a es) pl011_fr_txff == 0

module _ (h : Host) where
  tx_ready-ok :
      (d : Driver)
      → d.regs ≢ 0
      → tx_ready h d
        ≡ ok (has_room h (d.regs + pl011_fr) d.events) (after d (mmio_read (d.regs + pl011_fr)))
  unfolding tx_ready
  tx_ready-ok d real = rw (reg_read-ok h d real pl011_fr)

  -- No room at the first `n` polls.
  abbrev pub NoRoom : ℕ → List Event → ℕ → Type 0
  NoRoom a es n = (j : ℕ) → j < n → has_room h a (polls a j es) ≡ false

  NoRoom-suc :
      (a : ℕ) (es : List Event) (n : ℕ)
      → has_room h a es ≡ false
      → NoRoom a (io_delay 1 ∷ mmio_read a ∷ es) n
      → NoRoom a es (suc n)
  unfolding polls
  NoRoom-suc a es n first rest zero lt = first
  NoRoom-suc a es n first rest (suc j) lt = rest j (omega arith)

  -- The wait ends at the first poll that finds room, or after one poll more than its count.
  abbrev Waits : ℕ → Driver → Outcome Driver ℕ → Type 0
  Waits t d run =
      let a = d.regs + pl011_fr in
      ((i : ℕ) × (v : ℕ) × (v + i ≡ t)
        × NoRoom a d.events i
        × (has_room h a (polls a i d.events) ≡ true)
        × (run ≡ ok v (with_events d (mmio_read a ∷ polls a i d.events))))
      ⊎ (NoRoom a d.events (suc t)
          × (run ≡ ok (2 ^ 32 - 1) (with_events d (mmio_read a ∷ polls a t d.events))))

  tx_wait-Waits : (t : ℕ) (d : Driver) → d.regs ≢ 0 → Waits t d (tx_wait h t d)
  unfolding tx_wait polls
  tx_wait-Waits zero d real =
      rw (tx_ready-ok d real) (elim (Bool-cases (has_room h (d.regs + pl011_fr) d.events)) [
        | inl room ↦ rw room (inl (0, 0, omega arith, (λ j lt. absurd (omega arith)), room, refl))
        | inr full ↦ rw full (
            inr
              (NoRoom-suc (d.regs + pl011_fr) d.events 0 full (λ j lt. absurd (omega arith)), refl))
      ])
  tx_wait-Waits (suc t) d real =
      let a = d.regs + pl011_fr in
      let d' = after (after d (mmio_read a)) (io_delay 1) in
      rw (tx_ready-ok d real) (elim (Bool-cases (has_room h a d.events)) [
        | inl room ↦
            rw room (inl (0, suc t, omega arith, (λ j lt. absurd (omega arith)), room, refl))
        | inr full ↦ rw full (elim (tx_wait-Waits t d' real) [
          | inl (i, v, sum, none, room, runs) ↦
              inl (suc i, v, omega arith, NoRoom-suc a d.events i full none, room, runs)
          | inr (none, runs) ↦ inr (NoRoom-suc a d.events (suc t) full none, runs)
        ])
      ])

-- The character was written to the data register, after the first poll that found room.
pub record Sent (h : Host) (d : Driver) (c : ℕ) (d' : Driver) : Type 0 where
  pub polled : ℕ
  pub early : polled < 100000
  pub waited : NoRoom h (d.regs + pl011_fr) d.events polled
  pub found : has_room h (d.regs + pl011_fr) (polls (d.regs + pl011_fr) polled d.events) ≡ true
  pub wrote :
      d'
      ≡ with_events d (
          mmio_write (d.regs + pl011_dr) (u8 c)
          ∷ mmio_read (d.regs + pl011_fr)
          ∷ polls (d.regs + pl011_fr) polled d.events)

-- None of the first 100000 polls found room; after one more, the character is dropped.
pub record Dropped (h : Host) (d d' : Driver) : Type 0 where
  pub waited : NoRoom h (d.regs + pl011_fr) d.events 100000
  pub logged :
      d'
      ≡ with_events d (
          io_log "JuliusSerial: TX timeout!\n" []
          ∷ mmio_read (d.regs + pl011_fr)
          ∷ polls (d.regs + pl011_fr) 100000 d.events)

module _ (h : Host) (d : Driver) (c : ℕ) where
  -- With the registers mapped, whatever the device answers, `putChar` ends. Either one of its first
  -- 100000 polls, a microsecond apart, found room, and right after the first such poll the
  -- character is written to the data register; or none did, and the character is dropped and
  -- logged after one more poll, whatever that one said.
  pub put_char-Sent : d.regs ≢ 0 → Returns (λ _ d'. Sent h d c d' ⊎ Dropped h d d') (put_char h c d)
  unfolding put_char
  put_char-Sent real =
      let small : u32 (u8 c) ≡ u8 c = omega arith in
      rw (ne→== d.regs 0 real) (elim (tx_wait-Waits h 100000 d real) [
        | inl (i, v, sum, none, room, runs) ↦ rw runs (elim (Bool-cases (v == 0)) [
          | inl z ↦
              let last : i ≡ 100000 = omega (arith, ==→eq v 0 z) in
              rw (==→eq v 0 z)
                (returns (inr (record { waited = rw last at none; logged = rw last refl })))
          | inr nz ↦
              rw
                (
                  le→ltb (2 ^ 31 - 1) v (omega arith),
                  nz,
                  reg_write-ok h
                      (with_events d
                        (mmio_read (d.regs + pl011_fr) ∷ polls (d.regs + pl011_fr) i d.events))
                      real pl011_dr (u32 (u8 c)),
                )
                (returns (
                  inl (record {
                    polled = i;
                    early = omega (arith, ==→ne v 0 nz);
                    waited = none;
                    found = room;
                    wrote = rw small;
                  })))
        ])
        | inr (none, runs) ↦
            rw runs
              (returns (inr (record { waited = λ j lt. none j (omega arith); logged = refl })))
      ])

  -- With the registers not mapped it does nothing.
  pub put_char_unmapped : d.regs ≡ 0 → put_char h c d ≡ ok tt d
  unfolding put_char
  put_char_unmapped z = rw (eq→== d.regs 0 z)
