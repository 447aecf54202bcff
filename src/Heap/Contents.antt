-- ===== src/Heap/Contents.antt =====
-- What the heap's clients rely on: the contents of their blocks, through the allocator's own writes.
use ajulius.Prelude.{
  ◌⊎◌, length, ℕ, ◌+◌, ◌≤◌, ◌<◌, ◌≡◌, refl, ◌∙◌, List, ◌∷◌, All, All-weaken, All-zip, arith,
}
use ajulius.Machine.{Machine, World}
use ajulius.Machine.Memory.{Mapped, Grows, Wrote}
use ajulius.Io.Puts.{IsOutside}
use ajulius.Heap.Blocks.{Block, block, Disjoint, IsAllocated, IsHeap}

-- Each byte of the block that is not one of the three local variables is as before.
pub record IsUntouched (e : Machine) (w w' : World) (b : Block) : Type 0 where
  pub same :
      (x : ℕ) → b.start ≤ x → x < b.start + b.size → IsOutside e.frame x → w'.memory x ≡ w.memory x

-- From `w` to `w'` nothing was unmapped, and the blocks kept their contents.
pub record Preserves (e : Machine) (bs : List Block) (w w' : World) : Type 0 where
  pub grows : Grows w.memory w'.memory
  pub untouched : All (IsUntouched e w w') bs

pub Preserves-refl : (e : Machine) (bs : List Block) (w : World) → IsHeap w bs → Preserves e bs w w
Preserves-refl e bs w h = record {
  grows = λ x m. m;
  untouched =
      All-weaken (IsAllocated w) (IsUntouched e w w) bs (λ b a. record { same = λ x lo hi o. refl })
        h.blocks;
}

pub Preserves-trans :
    (e : Machine) (bs : List Block) (w v u : World)
    → Preserves e bs w v
    → Preserves e bs v u
    → Preserves e bs w u
Preserves-trans e bs w v u p q = record {
  grows = λ x m. q.grows x (p.grows x m);
  untouched =
      All-zip (IsUntouched e w v) (IsUntouched e v u) (IsUntouched e w u) bs
        (λ b s t. record { same = λ x lo hi o. t.same x lo hi o ∙ s.same x lo hi o }) p.untouched
        q.untouched;
}

-- Blocks of which the mapped bytes are kept are untouched.
pub kept-Preserves :
    (e : Machine) (bs : List Block) (w w' : World)
    → Grows w.memory w'.memory
    → ((x : ℕ) → Mapped w.memory x → IsOutside e.frame x → w'.memory x ≡ w.memory x)
    → IsHeap w bs
    → Preserves e bs w w'
kept-Preserves e bs w w' grows kept h = record {
  grows = grows;
  untouched =
      All-weaken (IsAllocated w) (IsUntouched e w w') bs
        (λ b a. record { same = λ x lo hi o. kept x (a.mapped x lo hi) o }) h.blocks;
}

-- Bytes written in one block leave those apart from it untouched.
pub Wrote-Preserves :
    (e : Machine) (bs : List Block) (w w' : World) (a : ℕ) (cs : List ℕ)
    → Wrote w.memory a cs w'.memory
    → All (Disjoint (block a (length cs))) bs
    → Preserves e bs w w'
Wrote-Preserves e bs w w' a cs wrote apart = record {
  grows = wrote.grows;
  untouched =
      All-weaken (Disjoint (block a (length cs))) (IsUntouched e w w') bs
        (λ b d. record { same = λ x lo hi o. wrote.outside x (beside b d x lo hi) }) apart;
}
  where
    beside :
        (b : Block)
        → Disjoint (block a (length cs)) b
        → (x : ℕ) → b.start ≤ x
        → x < b.start + b.size
        → (x < a) ⊎ (a + length cs ≤ x)
    beside b d x lo hi = ground (arith, d x)

pub Preserves-tail :
    (e : Machine) (b : Block) (bs : List Block) (w w' : World)
    → Preserves e (b ∷ bs) w w'
    → Preserves e bs w w'
Preserves-tail e b bs w w' p = record { grows = p.grows; untouched = p.untouched.1 }
