-- ===== src/Io/Dec.antt =====
-- `julius_put_dec`: what it prints.
use ajulius.Prelude.{
  ℕ, zero, suc, ◌+◌, ◌-◌, ◌/◌, ◌%◌, ◌≤◌, ◌<◌, ◌^◌, ◌≡◌, refl, ◌≢◌, inl, inr, true, false, ◌==◌,
  if◌then◌else◌, Bool-cases, ltb→lt, ltb→le, le→ltb, ==→eq, ==→ne, ne→==, List, [], ◌∷◌, ◌++◌,
  arith, length, length-append, codes,
}
use mathlib.Core.Path.{subst}
use native.Mathlib.Nat.{pow-suc, pow-zero}
use ajulius.Types.{u8, neg64, is_negative64}
use ajulius.Machine.{word, text, Memory, update, Machine, World, pure, store, ◌>>=◌, ◌>>◌}
use ajulius.Machine.Memory.{
  MappedRange, Wrote, MappedRange-update, store-ok, no_nul, text-IsCString, Wrote-one, Wrote-append,
  Wrote-cons_below,
}
use ajulius.Outcome.Returns
use ajulius.Outcome.Returns.{Returns, returns}
use ajulius.Io.{negate, dec_loop, julius_puts, julius_put_dec}
use ajulius.Io.Puts.{HasBuffers, HasBuffers-Grows, Prints, julius_puts-Prints}
use ajulius.Io.Numeral.{
  digits-no_nul, IsNumberText, digit_value, is_digit, IsNumeral, Printed, Printed-none, Printed-suc,
  Filled, Printed-Filled,
}

decimal_digit : (k : ℕ) → k < 10 → (is_digit 10 (48 + k) ≡ true) × (digit_value (48 + k) ≡ k)
unfolding is_digit digit_value
decimal_digit k h = (ground arith, ground arith)

dec_loop-Printed :
    (k i b lo v : ℕ) (w : World)
    → lo + k ≡ i
    → v < 10 ^ k
    → v < 2 ^ 63
    → MappedRange w.memory b i
    → Printed 10 b lo i v w (dec_loop b i v w)
unfolding dec_loop
dec_loop-Printed zero zero b lo v w e small pos mapped =
    let z : v ≡ 0 = omega (arith, pow-zero 10) in rw z (Printed-none 10 b lo 0 w (omega arith))
dec_loop-Printed (suc k) zero b lo v w e small pos mapped = absurd (omega arith)
dec_loop-Printed zero (suc i) b lo v w e small pos mapped =
    let z : v ≡ 0 = omega (arith, pow-zero 10) in
    rw z (Printed-none 10 b lo (suc i) w (omega arith))
dec_loop-Printed (suc k) (suc i) b lo v w e small pos mapped = elim (Bool-cases (v == 0)) [
  | inl none_left ↦ rw (==→eq v 0 none_left) (Printed-none 10 b lo (suc i) w (omega arith))
  | inr more ↦
      let c = 48 + v % 10 in
      let d = decimal_digit (v % 10) (omega arith) in
      let plus : is_negative64 v ≡ false = le→ltb (2 ^ 63 - 1) v (omega arith) in
      let byte : u8 c ≡ c = omega arith in
      let w' = record w { memory = update w.memory (b + i) c } in
      let rest =
        dec_loop-Printed k i b lo (v / 10) w' (omega arith) (omega (arith, pow-suc 10 k))
          (omega arith)
          (MappedRange-update w.memory (b + i) c b i (λ x lo hi. mapped x lo (omega arith))) in
      rw (more, plus, byte, store-ok w (b + i) c (mapped (b + i) (omega arith) (omega arith)))
        (Printed-suc 10 b lo i v (v / 10) c w d.0 (omega (arith, d.1))
          (omega (arith, ==→ne v 0 more)) rest)
]

-- The absolute value of an `int64_t`, and its sign.
abbrev pub magnitude : ℕ → ℕ
magnitude v = if is_negative64 v then 2 ^ 64 - v else v

abbrev pub sign : ℕ → List ℕ
sign v = if is_negative64 v then b'-' ∷ [] else []

-- What `julius_put_dec` prints of `v`.
pub record PrintsDec (e : Machine) (w : World) (v : ℕ) (w' : World) : Type 0 where
  pub ds : List ℕ
  pub number : IsNumberText 10 (magnitude v) ds
  pub prints : Prints e w (sign v ++ ds) w'

module _ (e : Machine) (w : World) where
  -- From index `j` on the array holds the text.
  puts-Prints :
      (a : ℕ) (bs : List ℕ) (m : Memory)
      → 0 < a
      → e.frame.dec_buf ≤ a
      → a + length bs ≡ e.frame.dec_buf + 21
      → no_nul bs ≡ true
      → Wrote w.memory a (bs ++ 0 ∷ []) m
      → Returns
          (λ _. Prints e w bs)
          ((do julius_puts e (word a); pure tt) (record w { memory = m }))
  puts-Prints a bs m pos above room clean wrote =
      Returns.bind
        (julius_puts-Prints e w m (word a) bs (ne→== a 0 (omega arith))
          (record { holds = wrote.holds; ends_first = clean }) (omega arith) wrote.grows
          (λ x out. wrote.outside x (ground (arith, out.dec, length-append bs (0 ∷ [])))))
        λ _ w' p. returns p

  -- After the loop of a number that is not negative.
  plus-Prints :
      (n : ℕ) (m : Memory)
      → HasBuffers e.frame m
      → Wrote w.memory (e.frame.dec_buf + 21) (0 ∷ []) m
      → Printed 10 e.frame.dec_buf 2 21 n
          (record w { memory = m })
          (dec_loop e.frame.dec_buf 21 n (record w { memory = m }))
      → Returns
          (λ _ w'. (ds : List ℕ) × IsNumeral 10 n ds × Prints e w ds w')
          ((do
            i ← dec_loop e.frame.dec_buf 21 n
            julius_puts e (word (e.frame.dec_buf + i))
            pure tt)
            (record w { memory = m }))
  plus-Prints n m has nul d =
      let b = e.frame.dec_buf in
      let real = has.dec_real in
      rw (d.runs) (
        Returns.mono
          (puts-Prints (b + d.j) d.ds d.memory (omega arith) (omega arith)
            (omega (arith, d.reaches)) (digits-no_nul 10 d.ds d.numeral.digits)
            (Wrote-append w.memory (b + d.j) (b + 21) d.ds (0 ∷ []) m d.memory
              (omega (arith, d.reaches)) nul d.wrote))
          λ _ w' p. (d.ds, d.numeral, p))

  -- After the loop of a negative number: the sign goes below the digits.
  pub minus-Prints :
      (n : ℕ) (ds : List ℕ) (m : Memory)
      → HasBuffers e.frame m
      → Wrote w.memory (e.frame.dec_buf + 21) (0 ∷ []) m
      → no_nul ds ≡ true
      → Filled e.frame.dec_buf 2 21 ds
          (record w { memory = m })
          (dec_loop e.frame.dec_buf 21 n (record w { memory = m }))
      → Returns
          (λ _. Prints e w (b'-' ∷ ds))
          ((do
            i ← dec_loop e.frame.dec_buf 21 n
            store (word (e.frame.dec_buf + i - 1)) b'-'
            julius_puts e (word (e.frame.dec_buf + i - 1))
            pure tt)
            (record w { memory = m }))
  minus-Prints n ds m has nul clean d =
      let b = e.frame.dec_buf in
      let real = has.dec_real in
      let a = b + d.j - 1 in
      let low : b + d.j ≡ suc a = omega (arith, d.stops) in
      let all =
        Wrote-append w.memory (b + d.j) (b + 21) ds (0 ∷ []) m d.memory (omega (arith, d.reaches))
          nul d.wrote in
      let there =
        d.wrote.grows a (has.dec_mapped a (omega (arith, d.stops)) (omega (arith, d.reaches))) in
      rw (d.runs, store-ok (record w { memory = d.memory }) a b'-' there)
        (puts-Prints a (b'-' ∷ ds) (update d.memory a b'-') (omega (arith, d.stops))
          (omega (arith, d.stops)) (omega (arith, d.reaches, d.stops)) clean
          (Wrote-cons_below w.memory a b'-' (ds ++ 0 ∷ []) d.memory (rw low at all)))

  -- With its array mapped, `julius_put_dec` of any `int64_t` but the least one ends, having made
  -- one system call: a `write` to descriptor 2 of a minus sign for a negative number, and the
  -- decimal digits of the absolute value, the highest first, without a leading zero.
  pub julius_put_dec-PrintsDec :
      (v : ℕ)
      → HasBuffers e.frame w.memory
      → v < 2 ^ 64
      → v ≢ 2 ^ 63
      → Returns (λ _. PrintsDec e w v) (julius_put_dec e v w)
  unfolding julius_put_dec negate
  julius_put_dec-PrintsDec v has small ne =
      let b = e.frame.dec_buf in
      let m = update w.memory (b + 21) 0 in
      let nul = Wrote-one w.memory (b + 21) 0 in
      let has' = HasBuffers-Grows e.frame w.memory m nul.grows has in
      let step = store-ok w (b + 21) 0 (has.dec_mapped (b + 21) (omega arith) (omega arith)) in
      let mapped : MappedRange m b 21 = λ x lo hi. has'.dec_mapped x lo (omega arith) in
      elim (Bool-cases (is_negative64 v)) [
        | inl neg ↦
            let big = ltb→lt (2 ^ 63 - 1) v neg in
            let n = neg64 v in
            let e1 : n ≡ 2 ^ 64 - v = omega arith in
            let d =
              dec_loop-Printed 19 21 b 2 n (record w { memory = m }) refl (omega arith)
                (omega arith) mapped in
            rw (step, neg, ne→== v (2 ^ 63) ne, ne→== (neg64 v) 0 (omega arith))
              (Returns.mono
                (minus-Prints n d.ds m has' nul (digits-no_nul 10 d.ds d.numeral.digits)
                  (Printed-Filled 10 b 2 21 n (record w { memory = m }) _ d))
                λ _ w' p. record {
                  ds = d.ds;
                  number = inr (rw neg (subst (λ t. IsNumeral 10 t d.ds) e1 d.numeral));
                  prints = rw neg p;
                })
        | inr plus ↦
            let low = ltb→le (2 ^ 63 - 1) v plus in
            rw (step, plus)
              (elim (Bool-cases (v == 0)) [
                | inl z ↦ rw z (
                    Returns.bind
                      (julius_puts-Prints e w m (text "0" 0) (codes "0") refl
                        (text-IsCString m "0" refl) (omega arith) nul.grows
                        (λ x out. nul.outside x (ground (arith, out.dec))))
                      λ _ w' p. returns (record {
                        ds = b'0' ∷ [];
                        number = inl (rw plus (==→eq v 0 z), refl);
                        prints = rw plus p;
                      }))
                | inr nz ↦
                    let d =
                      dec_loop-Printed 19 21 b 2 v (record w { memory = m }) refl (omega arith)
                        (omega arith) mapped in
                    rw nz (
                      Returns.mono (plus-Prints v m has' nul d) λ _ w' (ds, num, p). record {
                        ds = ds;
                        number = inr (rw plus num);
                        prints = rw plus p;
                      })
              ])
      ]
