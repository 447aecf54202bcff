-- ===== src/Examples/Serial.antt =====
-- The serial driver at concrete inputs.
use ajulius.Prelude.{
  [], ◌∷◌, ◌/◌, ℕ, ◌+◌, ◌*◌, ◌<◌, ◌≤◌, ◌≡◌, refl, ◌⊎◌, inr, ◌↔◌, List, ◌++◌, arith, codes,
}
use ajulius.Outcome.{ok, fault, ◌>>◌}
use ajulius.Outcome.Returns.{Returns}
use ajulius.Serial.{
  Driver, integer_divisor, fractional_divisor, julius_uart_clock_hz, julius_ibrd, julius_fbrd,
  put_char, put_string, hw_init, set_baud,
}
use ajulius.Serial.Divisor.{rest, nearest_64th, divisors_lem}
use ajulius.Serial.Transmit.{Sent, Dropped, put_char-Sent}
use ajulius.Serial.Text.{cooked, Prints, Sends, put_string-Prints, put_string-Sends}
use ajulius.Serial.Receive.{get_chars, get_chars-Fifo}
use ajulius.Serial.Setup.{Configured, hw_init-Configured, set_baud-fault}
use ajulius.Serial.Objects.{IsValid}
use ajulius.Serial.Service.{start, stop}
use ajulius.Serial.Start.{Starts, start-Starts}
use ajulius.Serial.Stop.{Stopped, stop-Stopped}
use ajulius.Serial.Unmapped.{perform_all, perform_all-stop}
use ajulius.Serial.Lifecycle.{
  Op, prints, puts, gets, step, next, perform, perform-IsValid, Reach-IsValid, here,
}
use ajulius.Examples.Device.{
  host, device, mapping, host-Responsive, idle, online, idle-IsValid, online-IsValid, has_read,
  get_run,
}

-- At 115200 baud FBRD is 21; the fraction in 64ths is 1.
divisors_run :
    (integer_divisor 115200 ≡ 13)
    × (fractional_divisor 115200 ≡ 21)
    × (nearest_64th 115200 ≡ 1)
    × (integer_divisor 115200 ≡ julius_ibrd)
    × (fractional_divisor 115200 ≡ julius_fbrd)
unfolding integer_divisor fractional_divisor
divisors_run = (refl, refl, refl, refl, refl)

cooked_run : cooked (codes "a\nb") ≡ codes "a\r\nb"
unfolding cooked
cooked_run = refl

divisors_lem_example :
    (integer_divisor 115200 * (16 * 115200) ≤ julius_uart_clock_hz)
    × (julius_uart_clock_hz < (integer_divisor 115200 + 1) * (16 * 115200))
    × ((fractional_divisor 115200 ≡ nearest_64th 115200) ↔ (rest 115200 * 64 + 115200 / 2 < 115200))
divisors_lem_example = divisors_lem 115200 (omega arith) (omega arith)

put_char-Sent_example :
    Returns (λ _ d'. Sent host online b'a' d' ⊎ Dropped host online d') (put_char host b'a' online)
put_char-Sent_example = put_char-Sent host online b'a' (λ e. absurd (omega arith))

put_string-Prints_example :
    Returns
      (λ _. Prints host online (cooked (codes "a\nb")))
      (put_string host (codes "a\nb") online)
put_string-Prints_example =
    put_string-Prints host (codes "a\nb") online (λ e. absurd (omega arith)) (omega arith)

put_string-Sends_example :
    Returns (λ _. Sends online (cooked (codes "a\nb"))) (put_string host (codes "a\nb") online)
put_string-Sends_example =
    put_string-Sends host (codes "a\nb") online (λ e. absurd (omega arith)) host-Responsive
      (omega arith)

get_chars-Fifo_example :
    Returns
      (λ out d'.
        (new : List ℕ) × (device.received d'.events ≡ device.received online.events ++ new)
        × (out ++ device.fifo d'.events ≡ device.fifo online.events ++ new))
      (get_chars host 3 online)
get_chars-Fifo_example = get_chars-Fifo host 3 online 4096 device refl (λ e. absurd (omega arith))

hw_init-Configured_example : Returns (λ _. Configured 115200 online) (hw_init host 34 115200 online)
hw_init-Configured_example =
    hw_init-Configured host 34 115200 online device (λ e. absurd (omega arith))
      (λ e. absurd (omega arith)) (omega arith)

set_baud-fault_example : set_baud host 34 0 online ≡ fault
set_baud-fault_example =
    set_baud-fault host 34 0 online (inr (device, (λ e. absurd (omega arith)), refl, omega arith))

start-Starts_example : Returns (Starts host 4096 mapping 1 idle) (start host 34 1 idle)
start-Starts_example = start-Starts host 4096 mapping 34 1 idle (omega arith) refl idle-IsValid

stop-Stopped_example : Returns (λ _. Stopped host 4096 online) (stop host 1 online)
stop-Stopped_example = stop-Stopped host 4096 mapping 1 online online-IsValid

abbrev late_calls : List Op
late_calls = puts b'a' ∷ gets ∷ prints (codes "ok\n") ∷ []

perform_all-stop_example :
    (d' : Driver) × (stop host 1 online ≡ ok tt d')
    × ((do stop host 1; perform_all host 34 late_calls) online ≡ ok tt d')
perform_all-stop_example =
    perform_all-stop host 4096 mapping 34 1 late_calls online online-IsValid (omega arith)

perform-IsValid_example : Returns (λ _. IsValid host 4096) (perform host 34 (puts b'a') online)
perform-IsValid_example =
    perform-IsValid host 4096 34 mapping (omega arith) (puts b'a') online (omega arith)
      online-IsValid

Reach-IsValid_example : IsValid host 4096 has_read
Reach-IsValid_example =
    Reach-IsValid host 4096 34 mapping (omega arith) online-IsValid
      (next here (step gets tt get_run))
