-- ===== src/Machine/Words.antt =====
-- Words of several bytes in memory, the lowest byte first.
use ajulius.Prelude.{
  ℕ, zero, suc, ◌+◌, ◌*◌, ◌/◌, ◌%◌, ◌<◌, ◌^◌, ◌≡◌, refl, ap, List, [], ◌∷◌, arith, length,
}
use native.Mathlib.Nat.{pow-suc, pow-zero}
use ajulius.Machine.{Value, word, ◌⊕◌, Cmd, World, ok, pure, ◌>>=◌, ◌>>◌, load, store, update}
use ajulius.Machine.Memory.{
  Holds, MappedRange, MappedRange-update, Writes, Wrote-nil, Wrote-cons, load-ok, store-ok,
}

-- `*(T *)p` for an unsigned type of `n` bytes.
unfoldable pub load_word : ℕ → Value → Cmd ℕ
load_word zero p = pure 0
load_word (suc n) p = do b ← load p; rest ← load_word n (p ⊕ 1); pure (b + 256 * rest)

-- `*(T *)p = v`
unfoldable pub store_word : ℕ → Value → ℕ → Cmd (Unit {0})
store_word zero p v = pure tt
store_word (suc n) p v = do store p (v % 256); store_word n (p ⊕ 1) (v / 256)

unfoldable pub word_bytes : ℕ → ℕ → List ℕ
word_bytes zero v = []
word_bytes (suc n) v = (v % 256) ∷ word_bytes n (v / 256)

pub length-word_bytes : (n v : ℕ) → length (word_bytes n v) ≡ n
unfolding word_bytes
length-word_bytes zero v = refl
length-word_bytes (suc n) v = omega (arith, length-word_bytes n (v / 256))

pub load_word-ok :
    (n v : ℕ) (w : World) (p : Value)
    → Holds w.memory p (word_bytes n v)
    → v < 256 ^ n
    → load_word n p w ≡ ok v w
unfolding load_word word_bytes
load_word-ok zero v w p h small = ap (λ (t : ℕ). ok t w) (omega (arith, pow-zero 256))
load_word-ok (suc n) v w p h small =
    rw (load-ok w p h.0, load_word-ok n (v / 256) w (p ⊕ 1) h.1 (omega (arith, pow-suc 256 n)))
      (ap (λ (t : ℕ). ok t w) (omega arith))

pub store_word-Writes :
    (n v : ℕ) (w : World) (a : ℕ)
    → MappedRange w.memory a n
    → Writes w a (word_bytes n v) tt (store_word n (word a) v w)
unfolding store_word word_bytes
store_word-Writes zero v w a h = (w.memory, refl, Wrote-nil w.memory a)
store_word-Writes (suc n) v w a h =
    let m = update w.memory a (v % 256) in
    let (m', runs, wrote) =
      store_word-Writes n (v / 256) (record w { memory = m }) (a + 1)
        (MappedRange-update w.memory a (v % 256) (a + 1) n
          (λ y lo hi. h y (omega arith) (omega arith))) in
    (
      m',
      rw (store-ok w a (v % 256) (h a (omega arith) (omega arith))) runs,
      Wrote-cons w.memory a (v % 256) (word_bytes n (v / 256)) m' wrote,
    )
