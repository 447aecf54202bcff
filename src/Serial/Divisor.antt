-- ===== src/Serial/Divisor.antt =====
-- The baud rate divisors, against the PL011's definition: the clock over 16 times the baud rate, its
-- whole part in IBRD and its fraction in 64ths in the six bits of FBRD.
use ajulius.Prelude.{ℕ, ◌+◌, ◌*◌, ◌/◌, ◌%◌, ◌^◌, ◌<◌, ◌≤◌, ◌≡◌, sym, ◌∙◌, ◌↔◌, ap, arith}
use ajulius.Types.{u64}
use ajulius.Serial.{julius_uart_clock_hz, sixteen_baud, integer_divisor, fractional_divisor}
use native.Mathlib.Nat.{
  div-add-mod, mod-lt, div-le_self, div-mul-le_self, div-eq_of_lt, div-lt_iff_lt-mul,
}
use native.Mathlib.Decide.{dec_lt}

-- What the whole part leaves over.
abbrev pub rest : ℕ → ℕ
rest baud = julius_uart_clock_hz % (16 * baud)

-- The fraction in 64ths, rounded to the nearest: rest / (16 * baud) * 64.
abbrev pub nearest_64th : ℕ → ℕ
nearest_64th baud = (rest baud * 4 + baud / 2) / baud

-- Numbers with the same quotient are less than the divisor apart.
same_quotient : (a b n : ℕ) → 0 < n → a / n ≡ b / n → a < b + n
same_quotient a b n pos e =
    omega
      (arith, div-add-mod a n, div-add-mod b n, ap (λ (t : ℕ). n * t) e, mod-lt a pos, mod-lt b pos)

module _ (baud : ℕ) (pos : 0 < baud) (small : baud < 2 ^ 28) where
  whole : sixteen_baud baud ≡ 16 * baud
  whole = omega arith

  integer_divisor-eq : integer_divisor baud ≡ julius_uart_clock_hz / (16 * baud)
  unfolding integer_divisor
  integer_divisor-eq = rw whole (omega (arith, div-le_self julius_uart_clock_hz (16 * baud)))

  fractional_divisor-eq : fractional_divisor baud ≡ (rest baud * 64 + baud / 2) / baud
  unfolding fractional_divisor
  fractional_divisor-eq =
      let r = mod-lt julius_uart_clock_hz {m = 16 * baud} (omega arith) in
      let one : u64 (rest baud * 64) ≡ rest baud * 64 = omega (arith, r) in
      let two : u64 (rest baud * 64 + baud / 2) ≡ rest baud * 64 + baud / 2 = omega (arith, r) in
      rw (whole, one, two) (omega (arith, r, div-le_self (rest baud * 64 + baud / 2) baud))

  -- For baud rates above 0 and below 2 ^ 28: IBRD is the whole part of the clock over 16 times the
  -- rate; FBRD is the fraction in 64ths, rounded to the nearest, exactly if 64 times what the
  -- whole part leaves over, plus half the rate, is below the rate, that is, if both are 0.
  pub divisors_lem :
      (integer_divisor baud * (16 * baud) ≤ julius_uart_clock_hz)
      × (julius_uart_clock_hz < (integer_divisor baud + 1) * (16 * baud))
      × ((fractional_divisor baud ≡ nearest_64th baud) ↔ (rest baud * 64 + baud / 2 < baud))
  divisors_lem = (
    rw integer_divisor-eq (div-mul-le_self julius_uart_clock_hz (16 * baud)),
    rw integer_divisor-eq upper,
    (right, left),
  )
    where
      upper : julius_uart_clock_hz < (julius_uart_clock_hz / (16 * baud) + 1) * (16 * baud)
      upper =
          (div-lt_iff_lt-mul {x = julius_uart_clock_hz} {y = julius_uart_clock_hz / (16 * baud) + 1}
              (omega arith)).0
            (omega arith)

      right : fractional_divisor baud ≡ nearest_64th baud → rest baud * 64 + baud / 2 < baud
      right e = elim (dec_lt (rest baud * 64 + baud / 2) baud) [
        | yes lt ↦ lt
        | no ge ↦
            let near =
              same_quotient (rest baud * 64 + baud / 2) (rest baud * 4 + baud / 2) baud pos
                (sym fractional_divisor-eq ∙ e) in
            let none : (rest baud * 64 + baud / 2) / baud ≡ 0 =
              sym fractional_divisor-eq
              ∙ e
              ∙ div-eq_of_lt {n = rest baud * 4 + baud / 2} (omega arith) in
            absurd (
              omega (
                arith,
                (div-lt_iff_lt-mul {x = rest baud * 64 + baud / 2} {y = 1} pos).0 (omega arith),
              ))
      ]

      left : rest baud * 64 + baud / 2 < baud → fractional_divisor baud ≡ nearest_64th baud
      left lt =
          rw (fractional_divisor-eq, div-eq_of_lt lt)
            (sym (div-eq_of_lt {n = rest baud * 4 + baud / 2} (omega arith)))
