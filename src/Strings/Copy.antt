-- ===== src/Strings/Copy.antt =====
-- `julius_memset`, `julius_memcpy` and `julius_strcpy`: what they leave in memory.
use ajulius.Prelude.{
  ℕ, zero, suc, ◌+◌, ◌≤◌, ◌<◌, ◌^◌, ◌≡◌, refl, ◌⊎◌, true, List, [], ◌∷◌, ◌++◌, arith, length,
  length-append, replicate,
}
use ajulius.Types.{u8}
use ajulius.Machine.{Value, word, text, ◌⊕◌, Memory, update, World}
use ajulius.Machine.Memory.{
  Holds, Mapped, MappedRange, Writes, no_nul, IsCString, load-ok, store-ok, update_ne,
  MappedRange-update, Holds_same, Wrote-nil, Wrote-cons,
}
use ajulius.Strings.{
  rounds, memcpy_loop, julius_memcpy, memset_loop, julius_memset, strcpy_loop, julius_strcpy,
}
use ajulius.Strings.Length.{rounds_lem, no_nul-cons}

-- Copying `n` bytes upwards from `s` to `a` reads no byte that it has already overwritten: the
-- target begins at or below the source, or behind its end.
abbrev pub IsClear : Value → ℕ → ℕ → Type 0
IsClear (word b) n a = (a ≤ b) ⊎ (b + n ≤ a)
IsClear (text s i) n a = Unit

IsClear-next : (s : Value) (n a : ℕ) → IsClear s (suc n) a → IsClear (s ⊕ 1) n (a + 1)
IsClear-next (word b) n a c = ground arith
IsClear-next (text s i) n a c = tt

Holds-update_clear :
    (m : Memory) (s : Value) (a x : ℕ) (bs : List ℕ)
    → IsClear s (suc (length bs)) a
    → Holds m (s ⊕ 1) bs
    → Holds (update m a x) (s ⊕ 1) bs
Holds-update_clear m (word b) a x bs c h =
    Holds_same m (update m a x) (word (b + 1)) bs (λ i lt. update_ne m a x _ (ground arith)) h
Holds-update_clear m (text s i) a x bs c h =
    Holds_same m (update m a x) (text s (i + 1)) bs (λ j lt. refl) h

MappedRange-head : (m : Memory) (a n : ℕ) → MappedRange m a (suc n) → Mapped m a
MappedRange-head m a n h = h a (omega arith) (omega arith)

MappedRange-next :
    (m : Memory) (a x n : ℕ) → MappedRange m a (suc n) → MappedRange (update m a x) (a + 1) n
MappedRange-next m a x n h =
    MappedRange-update m a x (a + 1) n (λ y lo hi. h y (omega arith) (omega arith))

memset_loop-Writes :
    (n : ℕ) (w : World) (a c : ℕ)
    → MappedRange w.memory a n
    → Writes w a (replicate n (u8 c)) tt (memset_loop n (word a) c w)
unfolding memset_loop
memset_loop-Writes zero w a c h = (w.memory, refl, Wrote-nil w.memory a)
memset_loop-Writes (suc n) w a c h =
    let m = update w.memory a (u8 c) in
    let (m', runs, wrote) =
      memset_loop-Writes n (record w { memory = m }) (a + 1) c
        (MappedRange-next w.memory a _ n h) in
    (
      m',
      rw (store-ok w a (u8 c) (MappedRange-head w.memory a n h)) runs,
      Wrote-cons w.memory a (u8 c) _ m' wrote,
    )

-- On a mapped range `julius_memset` ends, returns its first argument, makes each byte of the range
-- the low byte of its second, and changes nothing else.
pub julius_memset-Writes :
    (w : World) (a c n : ℕ)
    → MappedRange w.memory a n
    → Writes w a (replicate n (u8 c)) (word a) (julius_memset (word a) c n w)
unfolding julius_memset
julius_memset-Writes w a c n h =
    let (m, runs, wrote) = memset_loop-Writes n w a c h in (m, rw runs, wrote)

memcpy_loop-Writes :
    (w : World) (a : ℕ) (s : Value) (bs : List ℕ)
    → Holds w.memory s bs
    → MappedRange w.memory a (length bs)
    → IsClear s (length bs) a
    → Writes w a bs tt (memcpy_loop (length bs) (word a) s w)
unfolding memcpy_loop
memcpy_loop-Writes w a s [] h mapped c = (w.memory, refl, Wrote-nil w.memory a)
memcpy_loop-Writes w a s (b ∷ bs) h mapped c =
    let m = update w.memory a b in
    let (m', runs, wrote) =
      memcpy_loop-Writes (record w { memory = m }) (a + 1) (s ⊕ 1) bs
        (Holds-update_clear w.memory s a b bs c h.1)
        (MappedRange-next w.memory a b (length bs) mapped) (IsClear-next s (length bs) a c) in
    (
      m',
      rw (load-ok w s h.0, store-ok w a b (MappedRange-head w.memory a (length bs) mapped)) runs,
      Wrote-cons w.memory a b bs m' wrote,
    )

-- With the source readable, the target mapped, and the target starting at or below the source or
-- behind its end, `julius_memcpy` ends, returns the target, puts the source's bytes there and
-- changes nothing else.
pub julius_memcpy-Writes :
    (w : World) (a : ℕ) (s : Value) (bs : List ℕ)
    → Holds w.memory s bs
    → MappedRange w.memory a (length bs)
    → IsClear s (length bs) a
    → Writes w a bs (word a) (julius_memcpy (word a) s (length bs) w)
unfolding julius_memcpy
julius_memcpy-Writes w a s bs h mapped c =
    let (m, runs, wrote) = memcpy_loop-Writes w a s bs h mapped c in (m, rw runs, wrote)

strcpy_loop-Writes :
    (f : ℕ) (w : World) (a : ℕ) (s : Value) (bs : List ℕ)
    → Holds w.memory s (bs ++ 0 ∷ [])
    → no_nul bs ≡ true
    → MappedRange w.memory a (length (bs ++ 0 ∷ []))
    → IsClear s (length (bs ++ 0 ∷ [])) a
    → length bs < f
    → Writes w a (bs ++ 0 ∷ []) tt (strcpy_loop f (word a) s w)
unfolding strcpy_loop
strcpy_loop-Writes zero w a s bs h z mapped c fuel = absurd (omega arith)
strcpy_loop-Writes (suc f) w a s [] h z mapped c fuel = (
  update w.memory a 0,
  rw (load-ok w s h.0, store-ok w a 0 (MappedRange-head w.memory a 0 mapped)) refl,
  Wrote-cons w.memory a 0 [] (update w.memory a 0) (Wrote-nil (update w.memory a 0) (a + 1)),
)
strcpy_loop-Writes (suc f) w a s (b ∷ bs) h z mapped c fuel =
    let m = update w.memory a b in
    let rest = bs ++ 0 ∷ [] in
    let (m', runs, wrote) =
      strcpy_loop-Writes f (record w { memory = m }) (a + 1) (s ⊕ 1) bs
        (Holds-update_clear w.memory s a b rest c h.1) (no_nul-cons b bs z).1
        (MappedRange-next w.memory a b (length rest) mapped) (IsClear-next s (length rest) a c)
        (omega arith) in
    (
      m',
      rw
          (
            load-ok w s h.0,
            store-ok w a b (MappedRange-head w.memory a (length rest) mapped),
            (no_nul-cons b bs z).0,
          )
          runs,
      Wrote-cons w.memory a b rest m' wrote,
    )

-- With a terminated source shorter than 2 ^ 64, and a target mapped for it and its zero that
-- starts at or below the source or behind its end, `julius_strcpy` ends, returns the target, puts
-- the string and its zero there and changes nothing else.
pub julius_strcpy-Writes :
    (w : World) (a : ℕ) (s : Value) (bs : List ℕ)
    → IsCString w.memory s bs
    → MappedRange w.memory a (length bs + 1)
    → IsClear s (length bs + 1) a
    → length bs < 2 ^ 64
    → Writes w a (bs ++ 0 ∷ []) (word a) (julius_strcpy (word a) s w)
unfolding julius_strcpy
julius_strcpy-Writes w a s bs h mapped c small =
    let n : length (bs ++ 0 ∷ []) ≡ length bs + 1 = length-append bs (0 ∷ []) in
    let (m, runs, wrote) =
      strcpy_loop-Writes rounds w a s bs h.holds h.ends_first (rw n mapped) (rw n c)
        (rw rounds_lem small) in
    (m, rw runs, wrote)
