-- ===== src/Serial/Methods.antt =====
-- The methods of the driver, one by one, on a valid driver.
use ajulius.Prelude.{eq→==, [], ◌∷◌, ℕ, ◌^◌, ◌<◌, ◌≡◌, refl, sym, ◌≢◌, ◌∙◌, inl, inr, List, All}
use mathlib.Core.Path.{subst}
use ajulius.Outcome.Returns
use ajulius.Outcome.Returns.{Ends, Returns, returns, panics, holds}
use ajulius.IoKit.{Host, io_log}
use ajulius.Serial.Setup.{hw_init-Configured}
use ajulius.Serial.{Driver, put_char, get_char, put_string, set_baud, sixteen_baud}
use ajulius.Serial.Objects.{Mapping, IsValid, Extends-IsValid}
use ajulius.Serial.Accesses.{after, Extends-trans, Extends, same, more, is_plain, with_events}
use ajulius.Serial.Pl011.{Pl011}
use ajulius.Serial.Transmit.{put_char_unmapped}
use ajulius.Serial.Text.{put_char-Sends, Prints, put_string-Prints, put_string_unmapped}
use ajulius.Serial.Receive.{get_char-Takes}
use ajulius.Serial.Service.{message}

module _ (h : Host) (base : ℕ) (mapping : Mapping h base) where
  -- A method that leaves the fields alone and does nothing to objects.
  plainly :
      (d d' : Driver)
      → Extends d.events d'.events
      → d'.mmio_map ≡ d.mmio_map
      → d'.regs ≡ d.regs
      → IsValid h base d
      → IsValid h base d'
  plainly d d' = Extends-IsValid h base d d'

  mapped : (d : Driver) → d.regs ≡ base → d.regs ≢ 0
  mapped d here z = mapping.real (sym here ∙ z)

  device : (d : Driver) → d.regs ≡ base → Pl011 h d.regs
  device d here = subst (Pl011 h) (sym here) mapping.device

  pub put_char-IsValid :
      (c : ℕ) (d : Driver)
      → c < 2 ^ 8
      → IsValid h base d
      → Returns (λ _. IsValid h base) (put_char h c d)
  put_char-IsValid c d byte valid = elim valid.fields [
    | inl (_, null) ↦ rw (put_char_unmapped h d c null) (returns valid)
    | inr (_, here) ↦ Returns.mono (put_char-Sends h d c (mapped d here) byte) λ _ d' o. elim o [
      | inl (k, _) ↦ plainly d d' k.plain k.map_same k.regs_same valid
      | inr (k, _) ↦ plainly d d' k.plain k.map_same k.regs_same valid
    ]
  ]

  pub put_string-IsValid :
      (s : List ℕ) (d : Driver)
      → All (λ c. c < 2 ^ 8) s
      → IsValid h base d
      → Returns (λ _. IsValid h base) (put_string h s d)
  unfolding Prints
  put_string-IsValid s d bytes valid = elim valid.fields [
    | inl (_, null) ↦ rw (put_string_unmapped h s d null) (returns valid)
    | inr (_, here) ↦
        Returns.mono (put_string-Prints h s d (mapped d here) bytes)
          λ _ d' p. let k = p.3 in plainly d d' k.plain k.map_same k.regs_same valid
  ]

  pub get_char-IsValid :
      (d : Driver) → IsValid h base d → Returns (λ _. IsValid h base) (get_char h d)
  unfolding get_char
  get_char-IsValid d valid = elim valid.fields [
    | inl (_, null) ↦ rw (eq→== d.regs 0 null) (returns valid)
    | inr (_, here) ↦
        Returns.mono (get_char-Takes h d (device d here) (mapped d here))
          λ _ d' k. plainly d d' k.plain k.map_same k.regs_same valid
  ]

  pub message-IsValid :
      (type provider argument : ℕ) (d : Driver)
      → IsValid h base d
      → Returns (λ _. IsValid h base) (message h type provider argument d)
  unfolding message is_plain
  message-IsValid type provider argument d valid =
      returns (plainly d (with_events d _) (more _ refl (more _ refl same)) refl refl valid)

  pub set_baud-IsValid :
      (fuel baud : ℕ) (d : Driver)
      → 33 < fuel
      → d.regs ≢ 0
      → sixteen_baud baud ≢ 0
      → IsValid h base d
      → Returns (λ _. IsValid h base) (set_baud h fuel baud d)
  unfolding set_baud is_plain
  set_baud-IsValid fuel baud d room real nz valid = elim valid.fields [
    | inl (_, null) ↦ absurd (real null)
    | inr (_, here) ↦
        let d1 = after d (io_log "JuliusSerial: changing baud to %u\n" (baud ∷ [])) in
        Returns.mono (hw_init-Configured h fuel baud d1 (device d1 here) real nz room) λ _ d' c.
          plainly d d' (Extends-trans (more _ refl same) c.plain) c.map_same c.regs_same valid
  ]
