-- ===== src/Strings/Copied.antt =====
-- The string functions together: a copy against its original.
use ajulius.Prelude.{
  ℕ, ◌+◌, ◌≤◌, ◌<◌, ◌^◌, ◌≡◌, refl, ◌⊎◌, List, [], ◌∷◌, ◌++◌, length, length-append, arith,
}
use ajulius.Machine.{Value, word, text, Memory, World, Cmd, pure, ◌>>=◌}
use ajulius.Machine.Memory.{Holds, Holds_same, MappedRange, IsCString, Wrote, Writes}
use ajulius.Strings.{julius_strlen, julius_strcmp, julius_strcpy}
use ajulius.Strings.Length.{julius_strlen_lem}
use ajulius.Strings.Copy.{IsClear, julius_strcpy-Writes}
use ajulius.Strings.Compare.{IsBytes, julius_strcmp-Answers}

-- The `n` bytes at `s` and those at `a` share none.
abbrev pub IsApart : Value → ℕ → ℕ → Type 0
IsApart (word b) n a = (a + n ≤ b) ⊎ (b + n ≤ a)
IsApart (text s i) n a = Unit

IsApart-IsClear : (s : Value) (n a : ℕ) → IsApart s n a → IsClear s n a
IsApart-IsClear (word b) n a c = ground arith
IsApart-IsClear (text s i) n a c = tt

-- What stands apart from the bytes written is still there.
Wrote-Holds :
    (m m' : Memory) (s : Value) (a : ℕ) (bs cs : List ℕ)
    → Wrote m a bs m'
    → length bs ≡ length cs
    → IsApart s (length cs) a
    → Holds m s cs
    → Holds m' s cs
Wrote-Holds m m' (word b) a bs cs wrote len c h =
    Holds_same m m' (word b) cs (λ i lt. wrote.outside (b + i) (ground (arith, len))) h
Wrote-Holds m m' (text s i) a bs cs wrote len c h = Holds_same m m' (text s i) cs (λ j lt. refl) h

-- A copy is made, measured, and compared with the original.
unfoldable pub copy_and_compare : ℕ → Value → Cmd (ℕ × ℕ)
copy_and_compare a s = do
  copy ← julius_strcpy (word a) s
  n ← julius_strlen copy
  r ← julius_strcmp copy s
  pure (n, r)

-- With a terminated source of bytes shorter than 2 ^ 64, and a target mapped for it and its zero
-- that shares no byte with it, `julius_strcpy` makes a copy whose `julius_strlen` is the source's
-- length and whose `julius_strcmp` with the source is 0; only the target was written.
pub copy_and_compare-Writes :
    (w : World) (a : ℕ) (s : Value) (bs : List ℕ)
    → IsCString w.memory s bs
    → IsBytes bs
    → MappedRange w.memory a (length bs + 1)
    → IsApart s (length bs + 1) a
    → length bs < 2 ^ 64
    → Writes w a (bs ++ 0 ∷ []) (length bs, 0) (copy_and_compare a s w)
unfolding copy_and_compare
copy_and_compare-Writes w a s bs h bytes mapped c small =
    let (m, runs, wrote) =
      julius_strcpy-Writes w a s bs h mapped (IsApart-IsClear s (length bs + 1) a c) small in
    let w1 = record w { memory = m } in
    let n : length (bs ++ 0 ∷ []) ≡ length bs + 1 = length-append bs (0 ∷ []) in
    let copy : IsCString m (word a) bs = record {
      holds = wrote.holds;
      ends_first = h.ends_first;
    } in
    let source : IsCString m s bs = record {
      holds = Wrote-Holds w.memory m s a (bs ++ 0 ∷ []) (bs ++ 0 ∷ []) wrote refl (rw n c) h.holds;
      ends_first = h.ends_first;
    } in
    let (r, compares, same) =
      julius_strcmp-Answers w1 (word a) s bs bs copy source small bytes bytes in
    (
      m,
      rw (runs, julius_strlen_lem w1 (word a) bs copy small, compares, same.zero_iff.1 refl) refl,
      wrote,
    )
