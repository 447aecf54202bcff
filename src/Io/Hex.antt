-- ===== src/Io/Hex.antt =====
-- `julius_put_hex`: what it prints, and where it leaves its array.
use ajulius.Prelude.{
  ne→==, ℕ, zero, suc, ◌+◌, ◌-◌, ◌/◌, ◌%◌, ◌≤◌, ◌<◌, ◌^◌, bit_and, ◌≡◌, refl, inl, inr, Bool, true,
  false, ◌&&◌, ltb, ◌==◌, Bool-cases, lt→ltb, ==→eq, ==→ne, Option, none, some, List, [], ◌∷◌, ◌++◌,
  arith, length, length-append, get_elem?, codes,
}
use native.Mathlib.Nat.{pow-suc, pow-zero}
use ajulius.Prelude.Bits.{bit_and_low}
use ajulius.Machine.{◌>>◌, ◌>>=◌, word, text, Memory, update, byte_at, Machine, World}
use ajulius.Machine.Memory.{
  Mapped-update, Wrote-cons_below, Wrote-append, text-IsCString, Wrote-one, no_nul, MappedRange,
  Wrote, MappedRange-update, load-ok, store-ok,
}
use ajulius.Outcome.Returns
use ajulius.Outcome.Returns.{Returns, returns}
use ajulius.Io.Puts.{HasBuffers-Grows, HasBuffers, Prints, julius_puts-Prints}
use ajulius.Machine.{pure, store}
use ajulius.Io.{julius_puts, hex_table, hex_loop, julius_put_hex}
use ajulius.Io.Numeral.{
  digits-no_nul, IsNumberText, digit_value, is_digit, IsNumeral, Printed, Printed-none, Printed-suc,
}

-- The entry `k` of the digit table is a digit that means `k`: checked for each of the sixteen.
table_entry : ℕ → Option ℕ
table_entry k = get_elem? (codes "0123456789abcdef" ++ 0 ∷ []) k

entry_fits : ℕ → Option ℕ → Bool
entry_fits k none = false
entry_fits k (some c) = is_digit 16 c && digit_value c == k

all_fit : ℕ → Bool
all_fit zero = true
all_fit (suc n) = entry_fits n (table_entry n) && all_fit n

all_fit_sound : (n k : ℕ) → all_fit n ≡ true → k < n → entry_fits k (table_entry k) ≡ true
unfolding all_fit
all_fit_sound zero k h lt = elim lt [ ]
all_fit_sound (suc n) k h lt = ground (arith, all_fit_sound n k)

all_sixteen : all_fit 16 ≡ true
unfolding all_fit entry_fits table_entry is_digit digit_value
all_sixteen = refl

record Entry (m : Memory) (k : ℕ) : Type 0 where
  c : ℕ
  loaded : byte_at m (hex_table k) ≡ some c
  digit : is_digit 16 c ≡ true
  means : digit_value c ≡ k

entry_of :
    (k : ℕ) (o : Option ℕ)
    → entry_fits k o ≡ true
    → (c : ℕ) × (o ≡ some c) × (is_digit 16 c ≡ true) × (digit_value c ≡ k)
unfolding entry_fits
entry_of k none h = cc
entry_of k (some c) h = (c, refl, ground arith, ground arith)

table_load : (m : Memory) (k : ℕ) → k < 16 → Entry m k
unfolding table_entry
table_load m k lt =
    let (c, e, d, v) = entry_of k (table_entry k) (all_fit_sound 16 k all_sixteen lt) in
    record { c = c; loaded = e; digit = d; means = v }

pub hex_loop-Printed :
    (k i b lo v : ℕ) (w : World)
    → lo + k ≡ i
    → 0 < lo
    → v < 16 ^ k
    → MappedRange w.memory b i
    → Printed 16 b lo i v w (hex_loop b i v w)
unfolding hex_loop
hex_loop-Printed k zero b lo v w e pos small mapped = absurd (omega arith)
hex_loop-Printed zero (suc i) b lo v w e pos small mapped =
    let z : v ≡ 0 = omega (arith, pow-zero 16) in
    rw z (Printed-none 16 b lo (suc i) w (omega arith))
hex_loop-Printed (suc k) (suc i) b lo v w e pos small mapped = elim (Bool-cases (v == 0)) [
  | inl none_left ↦ rw (==→eq v 0 none_left) (Printed-none 16 b lo (suc i) w (omega arith))
  | inr more ↦
      let d = table_load w.memory (v % 16) (omega arith) in
      let low : bit_and v 0xf ≡ v % 16 = bit_and_low 4 v in
      let c = d.c in
      let w' = record w { memory = update w.memory (b + i) c } in
      let room : ltb 1 (suc i) ≡ true = lt→ltb 1 (suc i) (omega arith) in
      let rest =
        hex_loop-Printed k i b lo (v / 2 ^ 4) w' (omega arith) pos (omega (arith, pow-suc 16 k))
          (MappedRange-update w.memory (b + i) c b i (λ x lo hi. mapped x lo (omega arith))) in
      rw
        (
          more,
          room,
          low,
          load-ok w (hex_table (v % 16)) d.loaded,
          store-ok w (b + i) c (mapped (b + i) (omega arith) (omega arith)),
        )
        (Printed-suc 16 b lo i v (v / 2 ^ 4) c w d.digit (omega (arith, d.means))
          (omega (arith, ==→ne v 0 more)) rest)
]

-- What `julius_put_hex` prints of `v`.
pub record PrintsHex (e : Machine) (w : World) (v : ℕ) (w' : World) : Type 0 where
  pub ds : List ℕ
  pub number : IsNumberText 16 v ds
  pub prints : Prints e w (b'0' ∷ b'x' ∷ ds) w'

module _ (e : Machine) (w : World) where
  -- The prefix "0x" is written below the digits, and the whole is printed.
  prefix-Prints :
      (a : ℕ) (ds : List ℕ) (m : Memory)
      → 0 < a
      → e.frame.hex_buf ≤ a
      → a + length ds ≡ e.frame.hex_buf + 15
      → MappedRange m e.frame.hex_buf 18
      → no_nul ds ≡ true
      → Wrote w.memory (suc (suc a)) (ds ++ 0 ∷ []) m
      → Returns
          (λ _. Prints e w (b'0' ∷ b'x' ∷ ds))
          ((do store (word (suc a)) b'x'; store (word a) b'0'; julius_puts e (word a); pure tt)
            (record w { memory = m }))
  prefix-Prints a ds m pos above room mapped clean wrote =
      let m1 = update m (suc a) b'x' in
      let m2 = update m1 a b'0' in
      let whole =
        Wrote-cons_below w.memory a b'0' (b'x' ∷ ds ++ 0 ∷ []) m1
          (Wrote-cons_below w.memory (suc a) b'x' (ds ++ 0 ∷ []) m wrote) in
      let n = length-append ds (0 ∷ []) in
      rw
        (
          store-ok (record w { memory = m }) (suc a) b'x'
              (mapped (suc a) (omega arith) (omega arith)),
          store-ok (record w { memory = m1 }) a b'0'
              (Mapped-update m (suc a) b'x' a (mapped a (omega arith) (omega arith))),
        )
        (Returns.bind
          (julius_puts-Prints e w m2 (word a) (b'0' ∷ b'x' ∷ ds) (ne→== a 0 (omega arith))
            (record { holds = whole.holds; ends_first = clean }) (omega arith) whole.grows
            (λ x out. whole.outside x (ground (arith, out.hex, length-append ds (0 ∷ [])))))
          λ _ w' p. returns p)

  -- What follows the loop, which has left the digits `ds` at index `j`.
  rest-PrintsHex :
      (j v : ℕ) (ds : List ℕ) (m : Memory)
      → 2 ≤ j
      → j + length ds ≡ 17
      → HasBuffers e.frame m
      → IsNumeral 16 v ds
      → Wrote w.memory (e.frame.hex_buf + j) (ds ++ 0 ∷ []) m
      → Returns
          (λ _. PrintsHex e w v)
          ((do
            store (word (e.frame.hex_buf + j - 1)) b'x'
            store (word (e.frame.hex_buf + j - 2)) b'0'
            julius_puts e (word (e.frame.hex_buf + j - 2))
            pure tt)
            (record w { memory = m }))
  rest-PrintsHex j v ds m low reaches has num wrote =
      let b = e.frame.hex_buf in
      let a = b + j - 2 in
      let real = has.hex_real in
      let e1 : b + j - 1 ≡ suc a = omega arith in
      let e2 : b + j ≡ suc (suc a) = omega arith in
      rw e1 (
        Returns.mono
          (prefix-Prints a ds m (omega arith) (omega arith) (omega arith) has.hex_mapped
            (digits-no_nul 16 ds num.digits) (rw e2 at wrote))
          λ _ w' p. record { ds = ds; number = inr num; prints = p })

  loop-PrintsHex :
      (v : ℕ) (m : Memory)
      → HasBuffers e.frame m
      → Wrote w.memory (e.frame.hex_buf + 17) (0 ∷ []) m
      → v < 2 ^ 60
      → Returns
          (λ _. PrintsHex e w v)
          ((do
            i ← hex_loop e.frame.hex_buf 17 v
            store (word (e.frame.hex_buf + i - 1)) b'x'
            store (word (e.frame.hex_buf + i - 2)) b'0'
            julius_puts e (word (e.frame.hex_buf + i - 2))
            pure tt)
            (record w { memory = m }))
  loop-PrintsHex v m has nul small = go (
      hex_loop-Printed 15 17 e.frame.hex_buf 2 v (record w { memory = m }) refl (omega arith)
        (omega arith) (λ x lo hi. has.hex_mapped x lo (omega arith)))
    where
      go :
          Printed 16 e.frame.hex_buf 2 17 v
            (record w { memory = m })
            (hex_loop e.frame.hex_buf 17 v (record w { memory = m }))
          → Returns
              (λ _. PrintsHex e w v)
              ((do
                i ← hex_loop e.frame.hex_buf 17 v
                store (word (e.frame.hex_buf + i - 1)) b'x'
                store (word (e.frame.hex_buf + i - 2)) b'0'
                julius_puts e (word (e.frame.hex_buf + i - 2))
                pure tt)
                (record w { memory = m }))
      go d = rw (d.runs) (
          rest-PrintsHex d.j v d.ds d.memory d.stops d.reaches
            (HasBuffers-Grows e.frame m d.memory d.wrote.grows has) d.numeral
            (Wrote-append w.memory (e.frame.hex_buf + d.j) (e.frame.hex_buf + 17) d.ds (0 ∷ []) m
              d.memory (omega (arith, d.reaches)) nul d.wrote))

  -- With the printers' arrays and `addr` mapped and a number below 2 ^ 60, `julius_put_hex` ends
  -- after one system call: a write to descriptor 2 of "0x" and the hexadecimal digits, the highest
  -- first, without a leading zero.
  pub julius_put_hex-PrintsHex :
      (v : ℕ)
      → HasBuffers e.frame w.memory
      → v < 2 ^ 60
      → Returns (λ _. PrintsHex e w v) (julius_put_hex e v w)
  unfolding julius_put_hex
  julius_put_hex-PrintsHex v has small =
      let b = e.frame.hex_buf in
      let m = update w.memory (b + 17) 0 in
      let nul = Wrote-one w.memory (b + 17) 0 in
      let has' = HasBuffers-Grows e.frame w.memory m nul.grows has in
      rw (store-ok w (b + 17) 0 (has.hex_mapped (b + 17) (omega arith) (omega arith)))
        (elim (Bool-cases (v == 0)) [
          | inl z ↦ rw z (
              Returns.bind
                (julius_puts-Prints e w m (text "0x0" 0) (codes "0x0") refl
                  (text-IsCString m "0x0" refl) (omega arith) nul.grows
                  (λ x out. nul.outside x (ground (arith, out.hex))))
                λ _ w' p.
                  returns (record { ds = b'0' ∷ []; number = inl (==→eq v 0 z, refl); prints = p }))
          | inr nz ↦ rw nz (loop-PrintsHex v m has' nul small)
        ])
