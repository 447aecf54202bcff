-- ===== src/Io/Least.antt =====
-- `julius_put_dec` of any `int64_t`, the least one included, whose negation C leaves undefined.
use ajulius.Prelude.{
  ℕ, ◌+◌, ◌^◌, ◌<◌, ◌≡◌, refl, ◌≢◌, ◌⊎◌, inl, inr, ◌==◌, Bool-cases, ==→eq, ==→ne, arith,
}
use ajulius.Machine.{Machine, World, fault, Run}
use ajulius.Machine.Memory.{store-ok}
use ajulius.Outcome.Returns.{Returns}
use ajulius.Io.{negate, julius_put_dec}
use ajulius.Io.Puts.{HasBuffers}
use ajulius.Io.Dec.{PrintsDec, julius_put_dec-PrintsDec}

module _ (e : Machine) (w : World) where
  put_least : HasBuffers e.frame w.memory → julius_put_dec e (2 ^ 63) w ≡ fault
  unfolding julius_put_dec negate
  put_least has =
      let b = e.frame.dec_buf in
      rw (store-ok w (b + 21) 0 (has.dec_mapped (b + 21) (omega arith) (omega arith))) refl

  -- How a run of `julius_put_dec` ends: any number but the least is printed.
  abbrev pub PrintsInt64 : ℕ → Run (Unit {0}) → Type 0
  PrintsInt64 v run =
      ((v ≢ 2 ^ 63) × Returns (λ _. PrintsDec e w v) run) ⊎ ((v ≡ 2 ^ 63) × (run ≡ fault))

  -- With the printers' arrays and `addr` mapped, `julius_put_dec` of any int64_t but the least ends
  -- after one system call, a write to descriptor 2 of a minus sign for a negative number and the
  -- decimal digits of the absolute value, without a leading zero. Of the least it faults, since
  -- its negation is undefined.
  pub julius_put_dec-PrintsInt64 :
      (v : ℕ) → HasBuffers e.frame w.memory → v < 2 ^ 64 → PrintsInt64 v (julius_put_dec e v w)
  julius_put_dec-PrintsInt64 v has small = elim (Bool-cases (v == 2 ^ 63)) [
    | inl least ↦ rw (==→eq v (2 ^ 63) least) (inr (refl, put_least has))
    | inr other ↦
        let ne = ==→ne v (2 ^ 63) other in inl (ne, julius_put_dec-PrintsDec e w v has small ne)
  ]
