-- ===== src/Io/Panic.antt =====
-- `julius_panic`: three lines of output, and no return.
use ajulius.Prelude.{◌<◌, ◌^◌, ◌≡◌, refl, String, true, arith, length, codes}
use ajulius.Machine.{text, Machine, World}
use ajulius.Machine.Memory.{no_nul}
use ajulius.Outcome.Returns
use ajulius.Outcome.Returns.{Ends, panics}
use ajulius.Io.{julius_panic}
use ajulius.Io.Puts.{Prints, julius_puts_text}

-- The output of `julius_panic`: a header, the message and the end of the line.
pub record PrintsPanic (e : Machine) (w : World) (s : String) (w' : World) : Type 0 where
  pub w1 : World
  pub w2 : World
  pub header : Prints e w (codes "\n!!! JULIUS PANIC: ") w1
  pub message : Prints e w1 (codes s) w2
  pub newline : Prints e w2 (codes "\n") w'

module _ (e : Machine) (w : World) (s : String) where
  -- Whatever the kernel does, `julius_panic` of a literal with no zero inside prints its header,
  -- the literal and a newline by three system calls, stops at the undefined instruction and never
  -- returns.
  pub julius_panic-PrintsPanic :
      no_nul (codes s) ≡ true
      → length (codes s) < 2 ^ 64
      → Ends (λ _ _. ⊥) (PrintsPanic e w s) (julius_panic e (text s 0) w)
  unfolding julius_panic
  julius_panic-PrintsPanic clean small =
      Returns.and_then (julius_puts_text e w "\n!!! JULIUS PANIC: " refl (omega arith)) λ _ w1 p1.
        Returns.and_then (julius_puts_text e w1 s clean small) λ _ w2 p2.
          Returns.and_then (julius_puts_text e w2 "\n" refl (omega arith))
            λ _ w3 p3. panics (record { w1 = w1; w2 = w2; header = p1; message = p2; newline = p3 })
