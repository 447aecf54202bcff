-- ===== src/Io/HexUnderflow.antt =====
-- `julius_put_hex` of a number with sixteen digits: its array has no room for the prefix.
use ajulius.Prelude.{
  suc, List, [], ◌∷◌, ◌++◌, ℕ, ◌+◌, ◌-◌, ◌≤◌, ◌<◌, ◌^◌, ◌≡◌, refl, ◌∙◌, inl, ne→==, none, arith,
  length,
}
use ajulius.Machine.{word, Memory, update, Machine, World, fault, pure, store, ◌>>◌, ◌>>=◌}
use mathlib.Core.Path.{subst}
use ajulius.Outcome.Returns
use ajulius.Outcome.Returns.{Returns, returns}
use ajulius.Machine.Memory.{
  Mapped, Wrote, Wrote-one, Wrote-append, Wrote-cons_below, Mapped-update, update_ne, store-ok,
}
use ajulius.Io.{hex_loop, julius_puts, julius_put_hex}
use ajulius.Io.Puts.{Prints, julius_puts-Prints, HasBuffers, HasBuffers-Grows}
use ajulius.Io.Numeral.{IsNumeral, digits-no_nul, Printed, positional-lt}
use ajulius.Io.Hex.{hex_loop-Printed}
use native.Mathlib.Decide.{dec_le}
use native.Mathlib.Nat.{pow-le-pow_right}

store-fault : (w : World) (a b : ℕ) → w.memory a ≡ none → store (word a) b w ≡ fault
unfolding store
store-fault w a b h = rw (h, store)

-- Sixteen digits reach down to index 1.
sixteen :
    (b v : ℕ) (w : World) (d : Printed 16 b 1 17 v w (hex_loop b 17 v w)) → 2 ^ 60 ≤ v → d.j ≡ 1
sixteen b v w d big = elim (dec_le (length d.ds) 15) [
  | yes few ↦ absurd (
      omega (
        arith,
        positional-lt 16 d.ds d.numeral.digits,
        pow-le-pow_right {n = 16} (omega arith) few,
        d.numeral.value,
      ))
  | no many ↦ omega (arith, d.reaches, d.stops)
]

module _ (e : Machine) (w : World) (v : ℕ) where
  -- After the loop: 'x' goes to index 0, and '0' below the array.
  rest-fault :
      (m : Memory)
      → HasBuffers e.frame m
      → m (e.frame.hex_buf - 1) ≡ none
      → (do
        store (word (e.frame.hex_buf + 1 - 1)) b'x'
        store (word (e.frame.hex_buf + 1 - 2)) b'0'
        julius_puts e (word (e.frame.hex_buf + 1 - 2))
        pure tt)
          (record w { memory = m })
        ≡ fault
  rest-fault m has below =
      let b = e.frame.hex_buf in
      let real = has.hex_real in
      let e1 : b + 1 - 1 ≡ b = omega arith in
      let e2 : b + 1 - 2 ≡ b - 1 = omega arith in
      rw (
        e1,
        e2,
        store-ok (record w { memory = m }) b b'x' (has.hex_mapped b (omega arith) (omega arith)),
        store-fault (record w { memory = update m b b'x' }) (b - 1) b'0'
            (update_ne m b b'x' (b - 1) (omega arith) ∙ below),
      )

  loop-fault :
      (m : Memory)
      → HasBuffers e.frame m
      → 2 ^ 60 ≤ v
      → m (e.frame.hex_buf - 1) ≡ none
      → Printed 16 e.frame.hex_buf 1 17 v
          (record w { memory = m })
          (hex_loop e.frame.hex_buf 17 v (record w { memory = m }))
      → (do
        i ← hex_loop e.frame.hex_buf 17 v
        store (word (e.frame.hex_buf + i - 1)) b'x'
        store (word (e.frame.hex_buf + i - 2)) b'0'
        julius_puts e (word (e.frame.hex_buf + i - 2))
        pure tt)
          (record w { memory = m })
        ≡ fault
  loop-fault m has big below d =
      let b = e.frame.hex_buf in
      let real = has.hex_real in
      rw (d.runs, sixteen b v (record w { memory = m }) d big)
        (rest-fault d.memory (HasBuffers-Grows e.frame m d.memory d.wrote.grows has)
          (d.wrote.outside (b - 1) (inl (omega arith)) ∙ below))

  -- For a number from 2 ^ 60 up, `julius_put_hex` writes to the byte below its array: where that
  -- byte is not mapped, the run ends in a fault.
  pub julius_put_hex-fault :
      HasBuffers e.frame w.memory
      → 2 ^ 60 ≤ v
      → v < 2 ^ 64
      → w.memory (e.frame.hex_buf - 1) ≡ none
      → julius_put_hex e v w ≡ fault
  unfolding julius_put_hex
  julius_put_hex-fault has big small below =
      let b = e.frame.hex_buf in
      let real = has.hex_real in
      let m = update w.memory (b + 17) 0 in
      let has' = HasBuffers-Grows e.frame w.memory m (Mapped-update w.memory (b + 17) 0) has in
      rw
        (
          store-ok w (b + 17) 0 (has.hex_mapped (b + 17) (omega arith) (omega arith)),
          ne→== v 0 (omega arith),
        )
        (loop-fault m has' big (update_ne w.memory (b + 17) 0 (b - 1) (omega arith) ∙ below) (
          hex_loop-Printed 16 17 b 1 v (record w { memory = m }) refl (omega arith) small
            (λ x lo hi. has'.hex_mapped x lo (omega arith))))

-- The whole text was printed from the byte below the array on, which it has overwritten; nothing
-- else was.
pub record Underflows (e : Machine) (w : World) (v : ℕ) (w' : World) : Type 0 where
  pub ds : List ℕ
  pub number : IsNumeral 16 v ds
  pub memory : Memory
  pub wrote : Wrote w.memory (e.frame.hex_buf - 1) (b'0' ∷ b'x' ∷ ds ++ 0 ∷ []) memory
  pub prints : Prints e (record w { memory = memory }) (b'0' ∷ b'x' ∷ ds) w'

module _ (e : Machine) (w : World) (v : ℕ) where
  rest-Underflows :
      (ds : List ℕ) (m : Memory)
      → HasBuffers e.frame m
      → 1 < e.frame.hex_buf
      → Mapped m (e.frame.hex_buf - 1)
      → 1 + length ds ≡ 17
      → IsNumeral 16 v ds
      → Wrote w.memory (e.frame.hex_buf + 1) (ds ++ 0 ∷ []) m
      → Returns
          (λ _. Underflows e w v)
          ((do
            store (word (e.frame.hex_buf + 1 - 1)) b'x'
            store (word (e.frame.hex_buf + 1 - 2)) b'0'
            julius_puts e (word (e.frame.hex_buf + 1 - 2))
            pure tt)
            (record w { memory = m }))
  rest-Underflows ds m has above below long num wrote =
      let b = e.frame.hex_buf in
      let a = b - 1 in
      let e1 : b + 1 - 1 ≡ suc a = omega arith in
      let e2 : b + 1 - 2 ≡ a = omega arith in
      let e3 : b + 1 ≡ suc (suc a) = omega arith in
      let m1 = update m (suc a) b'x' in
      let m2 = update m1 a b'0' in
      let whole =
        Wrote-cons_below w.memory a b'0' (b'x' ∷ ds ++ 0 ∷ []) m1
          (Wrote-cons_below w.memory (suc a) b'x' (ds ++ 0 ∷ []) m (rw e3 at wrote)) in
      rw
        (
          e1,
          e2,
          store-ok (record w { memory = m }) (suc a) b'x'
              (has.hex_mapped (suc a) (omega arith) (omega arith)),
          store-ok (record w { memory = m1 }) a b'0' (Mapped-update m (suc a) b'x' a below),
        )
        (Returns.bind
          (julius_puts-Prints e (record w { memory = m2 }) m2 (word a) (b'0' ∷ b'x' ∷ ds)
            (ne→== a 0 (omega arith))
            (record { holds = whole.holds; ends_first = digits-no_nul 16 ds num.digits })
            (omega arith) (λ x h. h) (λ x out. refl))
          λ _ w' p.
            returns (record { ds = ds; number = num; memory = m2; wrote = whole; prints = p }))

  loop-Underflows :
      (m : Memory)
      → HasBuffers e.frame m
      → 2 ^ 60 ≤ v
      → 1 < e.frame.hex_buf
      → Mapped m (e.frame.hex_buf - 1)
      → Wrote w.memory (e.frame.hex_buf + 17) (0 ∷ []) m
      → Printed 16 e.frame.hex_buf 1 17 v
          (record w { memory = m })
          (hex_loop e.frame.hex_buf 17 v (record w { memory = m }))
      → Returns
          (λ _. Underflows e w v)
          ((do
            i ← hex_loop e.frame.hex_buf 17 v
            store (word (e.frame.hex_buf + i - 1)) b'x'
            store (word (e.frame.hex_buf + i - 2)) b'0'
            julius_puts e (word (e.frame.hex_buf + i - 2))
            pure tt)
            (record w { memory = m }))
  loop-Underflows m has big above below nul d =
      let b = e.frame.hex_buf in
      let one = sixteen b v (record w { memory = m }) d big in
      rw (d.runs, one)
        (rest-Underflows d.ds d.memory (HasBuffers-Grows e.frame m d.memory d.wrote.grows has) above
          (d.wrote.grows (b - 1) below) (omega (arith, d.reaches, one)) d.numeral
          (subst (λ j. Wrote w.memory (b + j) (d.ds ++ 0 ∷ []) d.memory) one
            (Wrote-append w.memory (b + d.j) (b + 17) d.ds (0 ∷ []) m d.memory
              (omega (arith, d.reaches)) nul d.wrote)))

  -- With the printers' arrays and `addr` mapped and the hexadecimal array above address 1, for a
  -- number from 2 ^ 60 up and below 2 ^ 64, `julius_put_hex` uses the byte below its array: where
  -- that is not mapped it faults; where it is, it ends, having written the whole text from that byte
  -- on, over whatever the byte held, and nothing else, and having printed it by one system call.
  pub julius_put_hex-Underflows :
      HasBuffers e.frame w.memory
      → 1 < e.frame.hex_buf
      → 2 ^ 60 ≤ v
      → v < 2 ^ 64
      → (w.memory (e.frame.hex_buf - 1) ≡ none → julius_put_hex e v w ≡ fault)
        × (Mapped w.memory (e.frame.hex_buf - 1)
            → Returns (λ _. Underflows e w v) (julius_put_hex e v w))
  unfolding julius_put_hex
  julius_put_hex-Underflows has above big small =
      let b = e.frame.hex_buf in
      let m = update w.memory (b + 17) 0 in
      let nul = Wrote-one w.memory (b + 17) 0 in
      let has' = HasBuffers-Grows e.frame w.memory m nul.grows has in
      (
        (λ below. julius_put_hex-fault e w v has big small below),
        λ below.
            rw
              (
                store-ok w (b + 17) 0 (has.hex_mapped (b + 17) (omega arith) (omega arith)),
                ne→== v 0 (omega arith),
              )
              (loop-Underflows m has' big above (nul.grows (b - 1) below) nul (
                hex_loop-Printed 16 17 b 1 v (record w { memory = m }) refl (omega arith) small
                  (λ x lo hi. has'.hex_mapped x lo (omega arith)))),
      )
