-- ===== src/Heap/Calloc.antt =====
-- `julius_calloc`: a new block, all zeros.
use ajulius.Prelude.{
  ℕ, ◌-◌, ◌*◌, ◌%◌, ◌≤◌, ◌^◌, ◌≡◌, refl, ◌⊎◌, inl, inr, ne→==, List, ◌∷◌, arith, replicate,
  length-replicate, ◌<◌,
}
use ajulius.Types.{u64}
use ajulius.Machine.{Value, word, null, Machine, World}
use ajulius.Machine.Memory.{Holds}
use ajulius.Outcome.Returns
use ajulius.Outcome.Returns.{Ends, Returns, returns}
use ajulius.Strings.Copy.{julius_memset-Writes}
use ajulius.Io.Puts.{HasBuffers}
use ajulius.Heap.{julius_calloc}
use ajulius.Heap.Blocks.{Block, block, IsHeap, Grows-IsHeap}
use ajulius.Heap.Contents.{Preserves, Preserves-trans, kept-Preserves, Wrote-Preserves}
use ajulius.Heap.Keeps.{Refused}
use ajulius.Heap.Region.{NoHeap}
use ajulius.Heap.Malloc.{julius_malloc-Allocates}
use ajulius.Xnu.{XnuLaws}

-- NULL, if the kernel has refused more memory, or a new block that holds zeros.
pub record Zeroes (e : Machine) (w : World) (bs : List Block) (size : ℕ) (p : Value) (w' : World)
    : Type 0 where
  pub preserves : Preserves e bs w w'
  pub outcome :
      ((p ≡ null) × IsHeap w' bs × Refused e w')
      ⊎ ((a : ℕ) × (p ≡ word a)
          × (0 < a)
          × (a % 16 ≡ 0)
          × Holds w'.memory (word a) (replicate size 0)
          × IsHeap w' (block a size ∷ bs))

module _ (e : Machine) (laws : XnuLaws e.kernel) where
  -- With the kernel laws, the printers' arrays and `addr` mapped, a heap in order, and a product
  -- that modulo 2 ^ 64 is at most 2 ^ 46 - 16, `julius_calloc` ends: with the 16-byte aligned,
  -- non-null address of a new block of that remainder's size, all zero, that shares no byte with
  -- the earlier blocks or the free part; or with NULL, after the kernel refused memory; or in a
  -- panic, if there was no heap and the kernel refused one. When it returns, nothing was unmapped,
  -- and the earlier blocks kept their contents, but for the bytes of those locals.
  pub julius_calloc-Zeroes :
      (w : World) (bs : List Block) (nmemb size : ℕ)
      → HasBuffers e.frame w.memory
      → IsHeap w bs
      → u64 (nmemb * size) ≤ 2 ^ 46 - 16
      → Ends
          (Zeroes e w bs (u64 (nmemb * size)))
          (λ w'. (w.heap_base ≡ 0) × NoHeap e w w')
          (julius_calloc e nmemb size w)
  unfolding julius_calloc
  julius_calloc-Zeroes w bs nmemb size has h small =
      let total = u64 (nmemb * size) in
      Returns.bind (julius_malloc-Allocates e laws w bs total has h small) λ p w1 a.
        let kept = kept-Preserves e bs w w1 a.spares.grows a.spares.kept h in
        elim a.outcome [
          | inl (null_p, heap, refused) ↦
              rw null_p (returns (record { preserves = kept; outcome = inl (refl, heap, refused) }))
          | inr (b, p_eq, pos, al, _, heap) ↦
              let (m, runs, wrote) = julius_memset-Writes w1 b 0 total heap.blocks.0.mapped in
              let w2 = record w1 { memory = m } in
              rw (p_eq, ne→== b 0 (λ z. absurd (omega arith)), runs)
                (returns (record {
                  preserves = Preserves-trans e bs w w1 w2 kept (
                      Wrote-Preserves e bs w1 w2 b (replicate total 0) wrote
                        (rw (length-replicate {A = ℕ} total 0) heap.apart.0));
                  outcome = inr (
                    b,
                    refl,
                    pos,
                    al,
                    wrote.holds,
                    Grows-IsHeap w1 w2 (block b total ∷ bs) wrote.grows refl refl refl heap,
                  );
                }))
        ]
