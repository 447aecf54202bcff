-- ===== src/Serial/Unmapped.antt =====
-- The methods for characters on a driver whose registers are not mapped.
use ajulius.Prelude.{ℕ, ◌≡◌, refl, none, inl, inr, ◌==◌, Bool-cases, List, [], ◌∷◌, All, eq→==}
use ajulius.Outcome.{Outcome, ok, pure, ◌>>◌}
use ajulius.Outcome.Returns.{Returns, returns, panics}
use ajulius.IoKit.{Host}
use ajulius.Serial.{Method, Driver, put_char, get_char, put_string}
use ajulius.Serial.Objects.{Mapping, IsValid}
use ajulius.Serial.Service.{stop}
use ajulius.Serial.Stop.{Stopped, stop-Stopped}
use ajulius.Serial.Lifecycle.{Op, puts, gets, prints, perform}

-- The calls of `putChar`, `getChar` and `putString`.
abbrev pub IsCharacterOp : Op → Type 0
IsCharacterOp (puts c) = Unit
IsCharacterOp gets = Unit
IsCharacterOp (prints s) = Unit
IsCharacterOp _ = ⊥

module _ (h : Host) where
  put_char-unmapped : (c : ℕ) (d : Driver) → d.regs ≡ 0 → put_char h c d ≡ ok tt d
  unfolding put_char
  put_char-unmapped c d off = rw (eq→== d.regs 0 off)

  get_char-unmapped : (d : Driver) → d.regs ≡ 0 → get_char h d ≡ ok none d
  unfolding get_char
  get_char-unmapped d off = rw (eq→== d.regs 0 off)

  put_string-unmapped : (s : List ℕ) (d : Driver) → d.regs ≡ 0 → put_string h s d ≡ ok tt d
  unfolding put_string
  put_string-unmapped [] d off = refl
  put_string-unmapped (c ∷ s) d off = elim (Bool-cases (c == b'\n')) [
    | inl line ↦ rw (
      line,
      put_char-unmapped b'\r' d off,
      put_char-unmapped c d off,
      put_string-unmapped s d off,
    )
    | inr other ↦ rw (other, put_char-unmapped c d off, put_string-unmapped s d off)
  ]

  -- Some calls, one after the other.
  unfoldable pub perform_all : ℕ → List Op → Method (Unit {0})
  perform_all fuel [] = pure tt
  perform_all fuel (op ∷ ops) = do perform h fuel op; perform_all fuel ops

  perform_all-unmapped :
      (fuel : ℕ) (ops : List Op) (d : Driver)
      → All IsCharacterOp ops
      → d.regs ≡ 0
      → perform_all fuel ops d ≡ ok tt d
  unfolding perform_all perform
  perform_all-unmapped fuel [] d all off = refl
  perform_all-unmapped fuel (puts c ∷ ops) d (_, all) off =
      rw (put_char-unmapped c d off) (perform_all-unmapped fuel ops d all off)
  perform_all-unmapped fuel (gets ∷ ops) d (_, all) off =
      rw (get_char-unmapped d off) (perform_all-unmapped fuel ops d all off)
  perform_all-unmapped fuel (prints s ∷ ops) d (_, all) off =
      rw (put_string-unmapped s d off) (perform_all-unmapped fuel ops d all off)
  perform_all-unmapped fuel (Op.starts p ∷ ops) d (no_op, all) off = absurd no_op
  perform_all-unmapped fuel (Op.stops p ∷ ops) d (no_op, all) off = absurd no_op
  perform_all-unmapped fuel (Op.notifies t p a ∷ ops) d (no_op, all) off = absurd no_op
  perform_all-unmapped fuel (Op.tunes b ∷ ops) d (no_op, all) off = absurd no_op

  -- With a host that maps a PL011's registers, calls of `putChar`, `getChar` and `putString` that
  -- come after `stop` of a valid driver, in any number and order, do nothing: the run returns, with
  -- the fields and the accesses and I/O Kit calls of `stop` alone.
  pub perform_all-stop :
      (base : ℕ)
      → Mapping h base
      → (fuel provider : ℕ) (ops : List Op) (d : Driver) → IsValid h base d
      → All IsCharacterOp ops
      → (d' : Driver) × (stop h provider d ≡ ok tt d')
        × ((do stop h provider; perform_all fuel ops) d ≡ ok tt d')
  perform_all-stop base mapping fuel provider ops d valid all =
      let (d', runs, off) = finished (stop-Stopped h base mapping provider d valid) in
      (d', runs, rw runs (perform_all-unmapped fuel ops d' all off))
    where
      finished :
          {r : Outcome Driver (Unit {0})}
          → Returns (λ _. Stopped h base d) r
          → (d' : Driver) × (r ≡ ok tt d') × (d'.regs ≡ 0)
      finished (returns {w = d'} s) = (d', refl, s.regs_null)
      finished (panics f) = absurd f
