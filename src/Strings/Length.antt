-- ===== src/Strings/Length.antt =====
-- `julius_strlen` of a terminated string, and the two loads that every string loop makes.
use ajulius.Prelude.{
  ℕ, zero, suc, ◌+◌, ◌<◌, ◌^◌, ◌≡◌, refl, ap, ◌∙◌, true, false, List, [], ◌∷◌, ◌++◌, arith, ◌==◌,
  length,
}
use ajulius.Types.{u64}
use ajulius.Machine.{Value, ◌⊕◌, World, ok}
use ajulius.Machine.Memory.{Holds, no_nul, IsCString, load-ok, ⊕_assoc, ⊕-zero}
use ajulius.Strings.{rounds, strlen_loop, julius_strlen}

pub rounds_lem : rounds ≡ 2 ^ 64
unfolding rounds
rounds_lem = refl

pub no_nul-cons :
    (b : ℕ) (bs : List ℕ) → no_nul (b ∷ bs) ≡ true → ((b == 0) ≡ false) × (no_nul bs ≡ true)
no_nul-cons b bs h = ground arith

strlen_loop_lem :
    (f : ℕ) (w : World) (s : Value) (n : ℕ) (bs : List ℕ)
    → Holds w.memory (s ⊕ n) (bs ++ 0 ∷ [])
    → no_nul bs ≡ true
    → length bs < f
    → n + length bs < 2 ^ 64
    → strlen_loop f s n w ≡ ok (n + length bs) w
unfolding strlen_loop
strlen_loop_lem zero w s n bs h z fuel small = absurd (omega arith)
strlen_loop_lem (suc f) w s n [] h z fuel small =
    rw (load-ok w (s ⊕ n) h.0) (ap (λ (t : ℕ). ok t w) (omega arith))
strlen_loop_lem (suc f) w s n (b ∷ bs) h z fuel small =
    let next : u64 (n + 1) ≡ n + 1 = omega arith in
    rw (load-ok w (s ⊕ n) h.0, (no_nul-cons b bs z).0, next)
      (strlen_loop_lem f w s (n + 1) bs (rw (⊕_assoc s n 1 (n + 1) refl) at (h.1))
          (no_nul-cons b bs z).1 (omega arith) (omega arith)
        ∙ ap (λ (t : ℕ). ok t w) (omega arith))

-- `julius_strlen` of a terminated string shorter than 2 ^ 64 ends, returns the number of bytes
-- before the zero, and changes nothing.
pub julius_strlen_lem :
    (w : World) (s : Value) (bs : List ℕ)
    → IsCString w.memory s bs
    → length bs < 2 ^ 64
    → julius_strlen s w ≡ ok (length bs) w
unfolding julius_strlen
julius_strlen_lem w s bs h small =
    strlen_loop_lem rounds w s 0 bs (rw (⊕-zero s) h.holds) h.ends_first (rw rounds_lem small)
      (omega arith)
    ∙ ap (λ (t : ℕ). ok t w) (omega arith)
