-- ===== src/Io/Numeral.antt =====
-- What the digits of a printed number mean, apart from the loops that make them.
use ajulius.Prelude.{
  ltb→lt, ◌≤◌, ℕ, suc, ◌⊎◌, ◌+◌, ◌-◌, ◌*◌, ◌<◌, ◌^◌, ◌≡◌, refl, ap, ◌∙◌, Bool, true, false, ◌&&◌,
  ◌||◌, not, ltb, ◌==◌, if◌then◌else◌, List, [], ◌∷◌, ◌++◌, arith, length, length-append, All,
  All-append,
}
use native.Mathlib.Nat.{pow-suc, pow-zero}
use ajulius.Machine.{Memory, update, World, Run, ok}
use ajulius.Machine.Memory.{no_nul, Wrote, Wrote-nil, Wrote-snoc}

-- A character as a digit: '0' to '9', then 'a' to 'f'.
unfoldable pub digit_value : ℕ → ℕ
digit_value c = if ltb c 58 then c - 48 else c - 87

unfoldable pub is_digit : ℕ → ℕ → Bool
unfolding digit_value
is_digit base c =
    (not (ltb c 48) && ltb c 58 || not (ltb c 97) && ltb c 103) && ltb (digit_value c) base

-- The number that a row of digits stands for, the highest first.
unfoldable pub positional : ℕ → List ℕ → ℕ
positional base [] = 0
positional base (c ∷ cs) = digit_value c * base ^ length cs + positional base cs

abbrev pub starts_with_zero : List ℕ → Bool
starts_with_zero [] = false
starts_with_zero (c ∷ cs) = c == 48

-- `ds` is `v` in the base, without a leading zero.
pub record IsNumeral (base v : ℕ) (ds : List ℕ) : Type 0 where
  pub digits : All (λ c. is_digit base c ≡ true) ds
  pub value : positional base ds ≡ v
  pub leading : starts_with_zero ds ≡ false

pub positional-snoc :
    (base : ℕ) (cs : List ℕ) (c : ℕ)
    → positional base (cs ++ c ∷ []) ≡ positional base cs * base + digit_value c
unfolding positional
positional-snoc base [] c = grind (arith, pow-zero base)
positional-snoc base (d ∷ cs) c = grind (
  arith,
  positional-snoc base cs c,
  ap (λ (n : ℕ). digit_value d * base ^ n) (length-append cs (c ∷ [])),
  pow-suc base (length cs),
)

pub IsNumeral-nil : (base : ℕ) → IsNumeral base 0 []
unfolding positional
IsNumeral-nil base = record { digits = tt; value = refl; leading = refl }

leading_snoc :
    (base v c : ℕ) (ds : List ℕ)
    → IsNumeral base v ds
    → 0 < v * base + digit_value c
    → starts_with_zero (ds ++ c ∷ []) ≡ false
unfolding positional digit_value
leading_snoc base v c [] h pos =
    let e : 0 * base ≡ v * base = ap (λ (t : ℕ). t * base) h.value in ground arith
leading_snoc base v c (d ∷ ds) h pos = h.leading

-- One more digit at the low end; the first digit written must not be a zero.
pub IsNumeral-snoc :
    (base v c : ℕ) (ds : List ℕ)
    → IsNumeral base v ds
    → is_digit base c ≡ true
    → 0 < v * base + digit_value c
    → IsNumeral base (v * base + digit_value c) (ds ++ c ∷ [])
IsNumeral-snoc base v c ds h d pos = record {
  digits = All-append (λ x. is_digit base x ≡ true) ds (c ∷ []) h.digits (d, tt);
  value = positional-snoc base ds c ∙ ap (λ (t : ℕ). t * base + digit_value c) h.value;
  leading = leading_snoc base v c ds h pos;
}

-- A printer's loop, entered with `i` bytes of the array at `b` free, has returned `j`: at
-- least `lo`: the digits of `v` stand at `b + j`, up to `b + i`, and nothing else has changed.
pub record Printed (base b lo i v : ℕ) (w : World) (run : Run ℕ) : Type 0 where
  pub j : ℕ
  pub ds : List ℕ
  pub memory : Memory
  pub runs : run ≡ ok j (record w { memory = memory })
  pub wrote : Wrote w.memory (b + j) ds memory
  pub stops : lo ≤ j
  pub reaches : j + length ds ≡ i
  pub numeral : IsNumeral base v ds

-- The same without a word on what the bytes mean.
pub record Filled (b lo i : ℕ) (ds : List ℕ) (w : World) (run : Run ℕ) : Type 0 where
  pub j : ℕ
  pub memory : Memory
  pub runs : run ≡ ok j (record w { memory = memory })
  pub wrote : Wrote w.memory (b + j) ds memory
  pub stops : lo ≤ j
  pub reaches : j + length ds ≡ i

pub Printed-Filled :
    (base b lo i v : ℕ) (w : World) (run : Run ℕ) (p : Printed base b lo i v w run)
    → Filled b lo i p.ds w run
Printed-Filled base b lo i v w run p = record {
  j = p.j;
  memory = p.memory;
  runs = p.runs;
  wrote = p.wrote;
  stops = p.stops;
  reaches = p.reaches;
}

pub Printed-none : (base b lo i : ℕ) (w : World) → lo ≤ i → Printed base b lo i 0 w (ok i w)
Printed-none base b lo i w le = record {
  j = i;
  ds = [];
  memory = w.memory;
  runs = refl;
  wrote = Wrote-nil w.memory (b + i);
  stops = le;
  reaches = omega arith;
  numeral = IsNumeral-nil base;
}

-- One round: the digit `c` is stored at `b + i`, and the loop goes on with the quotient.
pub Printed-suc :
    (base b lo i v q c : ℕ) (w : World) {run : Run ℕ}
    → is_digit base c ≡ true
    → q * base + digit_value c ≡ v
    → 0 < v
    → Printed base b lo i q (record w { memory = update w.memory (b + i) c }) run
    → Printed base b lo (suc i) v w run
Printed-suc base b lo i v q c w d e pos h = record {
  j = h.j;
  ds = h.ds ++ c ∷ [];
  memory = h.memory;
  runs = h.runs;
  wrote = Wrote-snoc w.memory (b + h.j) (b + i) c h.ds h.memory (omega (arith, h.reaches)) h.wrote;
  stops = h.stops;
  reaches = omega (arith, h.reaches, length-append h.ds (c ∷ []));
  numeral = rw e at (IsNumeral-snoc base q c h.ds h.numeral d (rw e pos));
}

-- The text of a number: its numeral, and a single zero for zero.
abbrev pub IsNumberText : ℕ → ℕ → List ℕ → Type 0
IsNumberText base v ds = ((v ≡ 0) × (ds ≡ b'0' ∷ [])) ⊎ IsNumeral base v ds

-- No digit is a zero byte.
pub digits-no_nul :
    (base : ℕ) (ds : List ℕ) → All (λ c. is_digit base c ≡ true) ds → no_nul ds ≡ true
unfolding is_digit
digits-no_nul base [] h = refl
digits-no_nul base (c ∷ ds) h = ground (arith, digits-no_nul base ds h.1)

digit-lt : (base c : ℕ) → is_digit base c ≡ true → digit_value c < base
unfolding is_digit
digit-lt base c h = ground (arith, ltb→lt (digit_value c) base)

-- So many digits stand for a number below the power.
pub positional-lt :
    (base : ℕ) (ds : List ℕ)
    → All (λ c. is_digit base c ≡ true) ds
    → positional base ds < base ^ length ds
unfolding positional
positional-lt base [] h = omega (arith, pow-zero base)
positional-lt base (c ∷ ds) h =
    grind (arith, digit-lt base c h.0, positional-lt base ds h.1, pow-suc base (length ds))
