-- ===== src/Strings/Compare.antt =====
-- `julius_memcmp` and `julius_strcmp` against the order of byte strings.
use ajulius.Prelude.{
  ℕ, zero, suc, ◌<◌, ◌^◌, ◌≡◌, refl, ap, ◌↔◌, inl, inr, Bool, true, false, List, [], ◌∷◌, ◌++◌, All,
  arith, ltb, ◌==◌, if◌then◌else◌, Bool-cases, ==→eq, ==→ne, length,
}
use ajulius.Types.{is_negative32}
use ajulius.Machine.{Value, ◌⊕◌, World, Run, ok}
use ajulius.Machine.Memory.{Holds, no_nul, IsCString, load-ok}
use ajulius.Strings.{rounds, int_sub, julius_memcmp, strcmp_loop, julius_strcmp}
use ajulius.Strings.Length.{rounds_lem, no_nul-cons}

abbrev pub IsBytes : List ℕ → Type 0
IsBytes bs = All (λ b. b < 256) bs

-- The lexicographic order of byte strings, a proper prefix first.
unfoldable pub lex_lt : List ℕ → List ℕ → Bool
lex_lt [] [] = false
lex_lt [] (y ∷ ys) = true
lex_lt (x ∷ xs) [] = false
lex_lt (x ∷ xs) (y ∷ ys) = if x == y then lex_lt xs ys else ltb x y

-- An `int` that is zero for equal strings, negative when the first comes before the second.
pub record Compares (xs ys : List ℕ) (r : ℕ) : Type 0 where
  pub zero_iff : (r ≡ 0) ↔ (xs ≡ ys)
  pub sign : is_negative32 r ≡ lex_lt xs ys

-- The run returns such an `int` and changes nothing.
abbrev pub Answers : World → List ℕ → List ℕ → Run ℕ → Type 0
Answers w xs ys run = (r : ℕ) × (run ≡ ok r w) × Compares xs ys r

Compares-cons : (x : ℕ) (xs ys : List ℕ) (r : ℕ) → Compares xs ys r → Compares (x ∷ xs) (x ∷ ys) r
unfolding lex_lt
Compares-cons x xs ys r h = record {
  zero_iff = (λ e. ap (◌∷◌ x) (h.zero_iff.0 e), λ e. h.zero_iff.1 (cc));
  sign = ground (arith, h.sign);
}

Compares-ne :
    (x y : ℕ) (xs ys : List ℕ)
    → x < 256
    → y < 256
    → (x == y) ≡ false
    → Compares (x ∷ xs) (y ∷ ys) (int_sub x y)
unfolding lex_lt
Compares-ne x y xs ys hx hy e = record {
  zero_iff = (λ z. absurd (==→ne x y e (omega arith)), λ z. absurd (==→ne x y e (cc)));
  sign = ground arith;
}

-- On two readable ranges of bytes of one length, `julius_memcmp` ends and changes nothing; its
-- result is zero exactly if they are equal, and negative exactly if the first comes first in the
-- lexicographic order of unsigned bytes.
pub julius_memcmp-Answers :
    (w : World) (p q : Value) (xs ys : List ℕ)
    → Holds w.memory p xs
    → Holds w.memory q ys
    → length xs ≡ length ys
    → IsBytes xs
    → IsBytes ys
    → Answers w xs ys (julius_memcmp p q (length xs) w)
unfolding julius_memcmp lex_lt
julius_memcmp-Answers w p q [] [] hp hq len bx by =
    (0, refl, record { zero_iff = (λ e. refl, λ e. refl); sign = refl })
julius_memcmp-Answers w p q [] (y ∷ ys) hp hq len bx by = absurd (omega arith)
julius_memcmp-Answers w p q (x ∷ xs) [] hp hq len bx by = absurd (omega arith)
julius_memcmp-Answers w p q (x ∷ xs) (y ∷ ys) hp hq len bx by =
    rw (load-ok w p hp.0, load-ok w q hq.0)
      (elim (Bool-cases (x == y)) [
        | inl same ↦
            let (r, runs, c) =
              julius_memcmp-Answers w (p ⊕ 1) (q ⊕ 1) xs ys hp.1 hq.1 (omega arith) bx.1 by.1 in
            (r, rw (same) runs, rw (← ==→eq x y same) (Compares-cons x xs ys r c))
        | inr differ ↦ (int_sub x y, rw differ, Compares-ne x y xs ys bx.0 by.0 differ)
      ])

strcmp_loop-Answers :
    (f : ℕ) (w : World) (p q : Value) (xs ys : List ℕ)
    → Holds w.memory p (xs ++ 0 ∷ [])
    → Holds w.memory q (ys ++ 0 ∷ [])
    → no_nul xs ≡ true
    → no_nul ys ≡ true
    → length xs < f
    → IsBytes xs
    → IsBytes ys
    → Answers w xs ys (strcmp_loop f p q w)
unfolding strcmp_loop lex_lt
strcmp_loop-Answers zero w p q xs ys hp hq zx zy fuel bx by = absurd (omega arith)
strcmp_loop-Answers (suc f) w p q [] [] hp hq zx zy fuel bx by = (
  0,
  rw (load-ok w p hp.0, load-ok w q hq.0),
  record { zero_iff = (λ e. refl, λ e. refl); sign = refl },
)
strcmp_loop-Answers (suc f) w p q [] (y ∷ ys) hp hq zx zy fuel bx by = (
  int_sub 0 y,
  rw (load-ok w p hp.0, load-ok w q hq.0),
  record {
    zero_iff = (λ e. absurd (==→ne y 0 (no_nul-cons y ys zy).0 (omega arith)), λ e. cc);
    sign = ground (arith, (no_nul-cons y ys zy).0);
  },
)
strcmp_loop-Answers (suc f) w p q (x ∷ xs) [] hp hq zx zy fuel bx by = (
  int_sub x 0,
  rw (load-ok w p hp.0, (no_nul-cons x xs zx).0, load-ok w q hq.0, (no_nul-cons x xs zx).0),
  record {
    zero_iff = (λ e. absurd (==→ne x 0 (no_nul-cons x xs zx).0 (omega arith)), λ e. cc);
    sign = ground (arith, (no_nul-cons x xs zx).0);
  },
)
strcmp_loop-Answers (suc f) w p q (x ∷ xs) (y ∷ ys) hp hq zx zy fuel bx by =
    rw (load-ok w p hp.0, (no_nul-cons x xs zx).0, load-ok w q hq.0)
      (elim (Bool-cases (x == y)) [
        | inl same ↦
            let (r, runs, c) =
              strcmp_loop-Answers f w (p ⊕ 1) (q ⊕ 1) xs ys hp.1 hq.1 (no_nul-cons x xs zx).1
                (no_nul-cons y ys zy).1 (omega arith) bx.1 by.1 in
            (r, rw (same) runs, rw (← ==→eq x y same) (Compares-cons x xs ys r c))
        | inr differ ↦ (int_sub x y, rw differ, Compares-ne x y xs ys bx.0 by.0 differ)
      ])

-- On two terminated strings of bytes shorter than 2 ^ 64, `julius_strcmp` ends and changes
-- nothing; its result is zero exactly if they are equal, and negative exactly if the first comes
-- first in the lexicographic order of unsigned bytes.
pub julius_strcmp-Answers :
    (w : World) (p q : Value) (xs ys : List ℕ)
    → IsCString w.memory p xs
    → IsCString w.memory q ys
    → length xs < 2 ^ 64
    → IsBytes xs
    → IsBytes ys
    → Answers w xs ys (julius_strcmp p q w)
unfolding julius_strcmp
julius_strcmp-Answers w p q xs ys hp hq small =
    strcmp_loop-Answers rounds w p q xs ys hp.holds hq.holds hp.ends_first hq.ends_first
      (rw rounds_lem small)
