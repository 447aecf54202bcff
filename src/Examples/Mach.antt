-- ===== src/Examples/Mach.antt =====
-- Messages at concrete inputs.
use ajulius.Prelude.{◌≡◌, refl, arith}
use ajulius.Outcome.Returns.{Returns}
use ajulius.Mach.{mach_msgh_bits, julius_send_simple}
use ajulius.Mach.Send.{Sends, julius_send_simple-Sends}
use ajulius.Examples.Demo.{demo, start, page-MappedRange}

mach_msgh_bits_runs : mach_msgh_bits 19 20 ≡ 0x1413
unfolding mach_msgh_bits
mach_msgh_bits_runs = refl

julius_send_simple-Sends_example :
    Returns (Sends demo start 0x1203 0x4A4C8001) (julius_send_simple demo 0x1203 0x4A4C8001 start)
julius_send_simple-Sends_example =
    julius_send_simple-Sends demo start 0x1203 0x4A4C8001
      (page-MappedRange 4136 24 (omega arith) (omega arith))
