-- ===== src/Init/SelfTest.antt =====
-- The self-test of the heap.
use ajulius.Prelude.{
  zero, suc, ◌≤◌, replicate, some, ◌==◌, Bool-cases, ==→eq, ==→ne, List, ◌∙◌, ◌∷◌, ◌≡◌, ℕ, ◌+◌, ◌<◌,
  refl, ◌^◌, inl, inr, ne→==, [], arith,
}
use ajulius.Machine.{Memory, pure, ◌>>◌, update, store, word, text, Machine, World}
use ajulius.Machine.Memory.{Holds, update_self, update_ne, MappedRange, Mapped-update, store-ok}
use ajulius.Outcome.Returns
use ajulius.Outcome.Returns.{Ends, Returns, returns, panics}
use ajulius.Strings.{julius_memset}
use ajulius.Strings.Copy.{julius_memset-Writes}
use ajulius.Io.{julius_puts, julius_put_hex}
use ajulius.Io.Panic.{PrintsPanic, julius_panic-PrintsPanic}
use ajulius.Heap.Blocks.{Grows-IsHeap, IsHeap}
use ajulius.Heap.Keeps.{Quiet, Quiet-trans, julius_puts-Quiet, julius_put_hex-Quiet, Refused}
use ajulius.Heap.Malloc.{Spares, julius_malloc-Allocates}
use ajulius.Init.{self_test}
use mathlib.Core.Path.{subst}
use ajulius.Trace.{Act, Shows, nothing, Shows-append}
use ajulius.Init.Up.{IsUp}
use ajulius.Init.Report.{self_test_report}
use ajulius.Heap.Blocks.{block}
use ajulius.Io.Puts.{IsOutside}
use ajulius.Init.Says.{Quiet-Steady, Steady, Steady-trans, IsReady, IsReady-Grows}
use ajulius.Xnu.{XnuLaws, PortLaws}

-- The self-test got no memory from the kernel.
pub record NoMemory (e : Machine) (w w' : World) : Type 0 where
  pub at : World
  pub refused : Refused e at
  pub quiet : Shows [] w.calls at.calls
  pub prints : PrintsPanic e at "self-test: malloc returned NULL" w'

-- The 63 characters of the self-test and the zero behind them, but for the bytes of the printers'
-- arrays and `addr`.
pub record IsFilled (e : Machine) (a : ℕ) (m : Memory) : Type 0 where
  pub marked : (x : ℕ) → a ≤ x → x < a + 63 → IsOutside e.frame x → m x ≡ some b'J'
  pub terminated : IsOutside e.frame (a + 63) → m (a + 63) ≡ some 0

-- The self-test went through: its block is the first of the heap and is filled, its address was
-- printed, and the bootstrap port is as before.
pub record Tested (e : Machine) (w w' : World) : Type 0 where
  pub ready : IsReady e.frame w'.memory
  pub port : w'.g_bootstrap_port ≡ w.g_bootstrap_port
  pub start : ℕ
  pub heap : IsHeap w' (block start 64 ∷ [])
  pub filled : IsFilled e start w'.memory
  pub shows : Shows (self_test_report start) w.calls w'.calls

Holds-replicate :
    (m : Memory) (n v a x : ℕ) → Holds m (word a) (replicate n v) → a ≤ x → x < a + n → m x ≡ some v
Holds-replicate m zero v a x h lo hi = absurd (omega arith)
Holds-replicate m (suc n) v a x h lo hi = elim (Bool-cases (x == a)) [
  | inl same ↦ rw (==→eq x a same) h.0
  | inr other ↦ Holds-replicate m n v (a + 1) x h.1 (omega (arith, ==→ne x a other)) (omega arith)
]

module _ (e : Machine) (laws : XnuLaws e.kernel) (ports : PortLaws e.kernel) where
  stored-IsFilled :
      (a : ℕ) (m : Memory)
      → Holds m (word a) (replicate 63 b'J')
      → IsFilled e a (update m (a + 63) 0)
  stored-IsFilled a m h = record {
    marked = λ x lo hi o.
        update_ne m (a + 63) 0 x (λ z. absurd (omega arith))
        ∙ Holds-replicate m 63 b'J' a x h lo hi;
    terminated = λ o. update_self m (a + 63) 0;
  }

  -- What was filled stays so while the process prints.
  Quiet-IsFilled :
      {acts : List Act} (w v : World) (a : ℕ)
      → Quiet e acts w v
      → IsFilled e a w.memory
      → IsFilled e a v.memory
  Quiet-IsFilled w v a q f = record {
    marked = λ x lo hi o. q.kept x (b'J', f.marked x lo hi o) o ∙ f.marked x lo hi o;
    terminated = λ o. q.kept (a + 63) (0, f.terminated o) o ∙ f.terminated o;
  }

  -- The block is filled, and its address printed.
  fill-Steady :
      (w : World) (a : ℕ)
      → IsReady e.frame w.memory
      → MappedRange w.memory a 64
      → 0 < a
      → a < 2 ^ 60
      → Returns
          (λ _ v. Steady (self_test_report a) w v × IsFilled e a v.memory)
          ((do
            julius_memset (word a) b'J' 63
            store (word (a + 63)) 0
            julius_puts e (text "init: malloc self-test OK (64 bytes at " 0)
            julius_put_hex e a
            julius_puts e (text ")\r\n" 0)
            pure tt)
            w)
  fill-Steady w a ready mapped pos small =
      let (m, runs, wrote) =
        julius_memset-Writes w a b'J' 63 (λ x lo hi. mapped x lo (omega arith)) in
      let w1 = record w { memory = m } in
      let last = wrote.grows (a + 63) (mapped (a + 63) (omega arith) (omega arith)) in
      let w2 = record w { memory = update m (a + 63) 0 } in
      let q2 : Steady [] w w2 = record {
        grows = λ x h. Mapped-update m (a + 63) 0 x (wrote.grows x h);
        base = refl;
        end = refl;
        ptr = refl;
        port = refl;
        shows = nothing;
      } in
      let full = stored-IsFilled a m wrote.holds in
      let ready2 = IsReady-Grows e.frame w.memory w2.memory q2.grows ready in
      rw (runs, store-ok w1 (a + 63) 0 last)
        (Returns.bind
          (julius_puts-Quiet e laws w2 "init: malloc self-test OK (64 bytes at " refl (omega arith))
          λ _ w3 q3.
            let ready3 = IsReady-Grows e.frame w2.memory w3.memory q3.grows ready2 in
            Returns.bind (julius_put_hex-Quiet e laws w3 a ready3.buffers small) λ _ w4 q4.
              Returns.bind (julius_puts-Quiet e laws w4 ")\r\n" refl (omega arith)) λ _ w5 q5.
                let q = Quiet-trans e w2 w3 w5 q3 (Quiet-trans e w3 w4 w5 q4 q5) in
                returns
                  (Steady-trans w w2 w5 q2 (Quiet-Steady e w2 w5 q), Quiet-IsFilled w2 w5 a q full))

  -- Once the heap is there, `julius_malloc` shows nothing.
  told_nothing : (w w1 : World) → Spares e w w1 → 0 < w.heap_base → Shows [] w.calls w1.calls
  told_nothing w w1 s real = elim s.reason [
    | inl (_, none_told) ↦ subst (λ acts. Shows acts w.calls w1.calls) none_told s.shows
    | inr (none_yet, _, _) ↦ absurd (omega arith)
  ]

  pub self_test-Tested :
      (w : World) → IsUp e w → Ends (λ _. Tested e w) (NoMemory e w) (self_test e w)
  unfolding self_test
  self_test-Tested w u =
      Returns.bind
        (Returns.widen (julius_malloc-Allocates e laws w [] 64 u.ready.buffers u.heap (omega arith))
          λ w' f. absurd (omega (arith, f.0, u.real)))
        λ p w1 a.
          let ready = IsReady-Grows e.frame w.memory w1.memory a.spares.grows u.ready in
          let silent = told_nothing w w1 a.spares u.real in
          elim a.outcome [
            | inl (null_p, _, refused) ↦ rw null_p (
                Returns.never_returns _ (
                  Returns.widen
                    (julius_panic-PrintsPanic e w1 "self-test: malloc returned NULL" refl
                      (omega arith))
                    λ w' prints. record {
                      at = w1;
                      refused = refused;
                      quiet = silent;
                      prints = prints;
                    }))
            | inr (b, p_eq, pos, _, high, h) ↦
                rw (p_eq, ne→== b 0 (λ z. absurd (omega arith)))
                  (Returns.widen
                    (Returns.mono (fill-Steady w1 b ready h.blocks.0.mapped pos (omega arith))
                      λ _ w2 (q, full). record {
                        filled = full;
                        ready = IsReady-Grows e.frame w1.memory w2.memory q.grows ready;
                        port = q.port ∙ a.spares.port;
                        shows = Shows-append silent q.shows;
                        start = b;
                        heap = Grows-IsHeap w1 w2 (block b 64 ∷ []) q.grows q.base q.end q.ptr h;
                      })
                    λ w' f. absurd f)
          ]
