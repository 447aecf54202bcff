-- ===== src/Examples/Io.antt =====
-- Output at concrete inputs.
use ajulius.Prelude.{
  zero, none, suc, some, ℕ, ◌+◌, ◌-◌, ◌≡◌, ◌^◌, refl, List, [], ◌∷◌, arith, codes,
}
use ajulius.Machine.{
  out_of_fuel, byte_at, ◌⊕◌, panicked, word, text, Machine, World, Run, ok, fault, Call, syscall,
  load, store,
}
use ajulius.Outcome.Returns.{Ends, Returns}
use ajulius.Syscall.{bsd_syscall, mach_trap, julius_syscall3}
use ajulius.Strings.{rounds}
use ajulius.Io.{
  negate, str_len_loop, str_len, hex_loop, dec_loop, julius_write, julius_puts_fd, julius_puts,
  julius_put_hex, julius_put_dec, julius_panic,
}
use ajulius.Io.Hex.{PrintsHex, julius_put_hex-PrintsHex}
use ajulius.Io.HexUnderflow.{Underflows, julius_put_hex-Underflows}
use ajulius.Machine.Memory.{Mapped}
use ajulius.Io.Least.{PrintsInt64, julius_put_dec-PrintsInt64}
use ajulius.Io.Panic.{PrintsPanic, julius_panic-PrintsPanic}
use ajulius.Examples.Demo.{demo, start, page, demo_frame, start-HasBuffers}

-- The bytes that the latest call hands to the kernel, read through its registers.
abbrev byte_of : Call → ℕ → ℕ
byte_of c i = elim c.regs.rsi [
  | none ↦ 0
  | some v ↦ elim (byte_at c.seen (v ⊕ i)) [ none ↦ 0 | some b ↦ b ]
]

abbrev bytes_of : Call → ℕ → ℕ → List ℕ
bytes_of c i zero = []
bytes_of c i (suc n) = byte_of c i ∷ bytes_of c (i + 1) n

abbrev length_of : Call → ℕ
length_of c = elim c.regs.rdx [ some (word n) ↦ n | _ ↦ 0 ]

abbrev shown : Run (Unit {0}) → List ℕ
shown (ok a w) = elim w.calls [ [] ↦ [] | c ∷ rest ↦ bytes_of c 0 (length_of c) ]
shown (panicked w) = []
shown fault = []
shown out_of_fuel = []

-- A kernel that answers 0 to every call and changes nothing.
abbrev silent : Machine
silent = record { kernel = λ h r m. record { rax = 0; memory = m }; frame = demo_frame }

-- What the printers show, by evaluation.
printer : Machine → World → List ℕ × List ℕ × List ℕ
unfolding julius_put_hex julius_put_dec julius_puts julius_puts_fd julius_write julius_syscall3
    str_len str_len_loop rounds negate hex_loop dec_loop load store syscall bsd_syscall mach_trap
printer e w = (
  shown (julius_put_hex e 0xcafe w),
  shown (julius_put_dec e (2 ^ 64 - 42) w),
  shown (julius_put_dec e 0 w),
)

printer_shows : printer silent start ≡ (codes "0xcafe", codes "-42", codes "0")
unfolding printer
printer_shows = refl

syscall_numbers :
    (bsd_syscall 4 ≡ 0x2000004)
    × (bsd_syscall 59 ≡ 0x200003b)
    × (bsd_syscall 0x218 ≡ 0x2000218)
    × (mach_trap 28 + 28 ≡ 2 ^ 64)
unfolding bsd_syscall mach_trap
syscall_numbers = (refl, refl, refl, refl)

julius_put_hex-PrintsHex_example :
    Returns (λ _. PrintsHex demo start 0xcafe) (julius_put_hex demo 0xcafe start)
julius_put_hex-PrintsHex_example =
    julius_put_hex-PrintsHex demo start 0xcafe start-HasBuffers (omega arith)

julius_put_dec-PrintsInt64_example :
    PrintsInt64 demo start (2 ^ 64 - 42) (julius_put_dec demo (2 ^ 64 - 42) start)
julius_put_dec-PrintsInt64_example =
    julius_put_dec-PrintsInt64 demo start (2 ^ 64 - 42) start-HasBuffers (omega arith)

julius_put_hex-Underflows_example :
    (page (4160 - 1) ≡ none → julius_put_hex demo (2 ^ 64 - 1) start ≡ fault)
    × (Mapped page (4160 - 1)
        → Returns
            (λ _. Underflows demo start (2 ^ 64 - 1))
            (julius_put_hex demo (2 ^ 64 - 1) start))
julius_put_hex-Underflows_example =
    julius_put_hex-Underflows demo start (2 ^ 64 - 1) start-HasBuffers (omega arith) (omega arith)
      (omega arith)

julius_panic-PrintsPanic_example :
    Ends
      (λ _ _. ⊥)
      (PrintsPanic demo start "cannot insert send right")
      (julius_panic demo (text "cannot insert send right" 0) start)
julius_panic-PrintsPanic_example =
    julius_panic-PrintsPanic demo start "cannot insert send right" refl (omega arith)
