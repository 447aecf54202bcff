-- ===== src/Heap/Blocks.antt =====
-- The invariant of the heap: the blocks handed out share no byte with one another or with the
-- free part of the current region. The arrays and locals of the program can be among the blocks.
use ajulius.Prelude.{
  ℕ, ◌+◌, ◌-◌, ◌%◌, ◌≤◌, ◌<◌, ◌^◌, ◌≡◌, ◌⊎◌, inl, inr, none, some, List, [], ◌∷◌, All, All-weaken,
  arith,
}
use ajulius.Machine.{Machine, World}
use ajulius.Machine.Memory.{Mapped, MappedRange, Grows}
use native.Mathlib.Decide.{dec_lt}
use ajulius.Heap.Keeps.{Quiet}
use ajulius.Trace.{Act}

pub record Block : Type 0 where
  pub start : ℕ
  pub size : ℕ

abbrev pub block : ℕ → ℕ → Block
block a n = record { start = a; size = n }

-- No byte of the first is one of the second.
abbrev pub Disjoint : Block → Block → Type 0
Disjoint b c = (x : ℕ) → b.start ≤ x → x < b.start + b.size → (x < c.start) ⊎ (c.start + c.size ≤ x)

abbrev pub AllDisjoint : List Block → Type 0
AllDisjoint [] = Unit
AllDisjoint (b ∷ bs) = All (Disjoint b) bs × AllDisjoint bs

-- The bytes of the block are mapped, and none of them is free.
pub record IsAllocated (w : World) (b : Block) : Type 0 where
  pub mapped : MappedRange w.memory b.start b.size
  pub spared : (x : ℕ) → b.start ≤ x → x < b.start + b.size → (x < w.heap_ptr) ⊎ (w.heap_end ≤ x)

pub record IsHeap (w : World) (bs : List Block) : Type 0 where
  pub real : (w.heap_base ≡ 0) ⊎ (0 < w.heap_ptr)
  pub ordered : w.heap_ptr ≤ w.heap_end
  pub in_space : w.heap_end ≤ 2 ^ 47
  pub aligned : w.heap_ptr % 16 ≡ 0
  pub free : (x : ℕ) → w.heap_ptr ≤ x → x < w.heap_end → Mapped w.memory x
  pub blocks : All (IsAllocated w) bs
  pub apart : AllDisjoint bs

pub Grows-IsHeap :
    (w w' : World) (bs : List Block)
    → Grows w.memory w'.memory
    → w'.heap_base ≡ w.heap_base
    → w'.heap_end ≡ w.heap_end
    → w'.heap_ptr ≡ w.heap_ptr
    → IsHeap w bs
    → IsHeap w' bs
Grows-IsHeap w w' bs grows base end ptr h = record {
  real = rw (base, ptr) h.real;
  ordered = rw (ptr, end) h.ordered;
  in_space = rw end h.in_space;
  aligned = rw ptr h.aligned;
  free = λ x lo hi. grows x (h.free x (rw ptr at lo) (rw end at hi));
  blocks =
      All-weaken (IsAllocated w) (IsAllocated w') bs
        (λ b a. record {
          mapped = λ x lo hi. grows x (a.mapped x lo hi);
          spared = λ x lo hi. rw (ptr, end) (a.spared x lo hi);
        })
        h.blocks;
  apart = h.apart;
}

pub Quiet-IsHeap :
    {acts : List Act} (e : Machine) (w w' : World) (bs : List Block)
    → Quiet e acts w w'
    → IsHeap w bs
    → IsHeap w' bs
Quiet-IsHeap e w w' bs q h = Grows-IsHeap w w' bs q.grows q.base q.end q.ptr h

-- A block cut off the front of the free part.
pub take-IsHeap :
    (w : World) (bs : List Block) (n size : ℕ)
    → IsHeap w bs
    → n % 16 ≡ 0
    → size ≤ n
    → w.heap_ptr + n ≤ w.heap_end
    → IsHeap (record w { heap_ptr = w.heap_ptr + n }) (block w.heap_ptr size ∷ bs)
take-IsHeap w bs n size h al le room = record {
  real = ground (arith, h.real);
  ordered = room;
  in_space = h.in_space;
  aligned = omega (arith, h.aligned);
  free = λ x lo hi. h.free x (omega arith) hi;
  blocks = (
    record { mapped = λ x lo hi. h.free x lo (omega arith); spared = λ x lo hi. inl (omega arith) },
    All-weaken (IsAllocated w) (IsAllocated (record w { heap_ptr = w.heap_ptr + n })) bs
        (λ b a. record { mapped = a.mapped; spared = λ x lo hi. ground (arith, a.spared x lo hi) })
        h.blocks,
  );
  apart = (
    All-weaken (IsAllocated w) (Disjoint (block w.heap_ptr size)) bs
        (λ b a x lo hi. ground (arith, a.spared x)) h.blocks,
    h.apart,
  );
}

-- The heap goes on in a region that was not mapped before.
pub fresh-IsHeap :
    (w w' : World) (bs : List Block)
    → IsHeap w bs
    → Grows w.memory w'.memory
    → 0 < w'.heap_ptr
    → w'.heap_ptr ≤ w'.heap_end
    → w'.heap_end ≤ 2 ^ 47
    → w'.heap_ptr % 16 ≡ 0
    → ((x : ℕ) → w'.heap_ptr ≤ x → x < w'.heap_end → w.memory x ≡ none)
    → MappedRange w'.memory w'.heap_ptr (w'.heap_end - w'.heap_ptr)
    → IsHeap w' bs
fresh-IsHeap w w' bs h grows pos ord space al fresh mapped = record {
  real = inr pos;
  ordered = ord;
  in_space = space;
  aligned = al;
  free = λ x lo hi. mapped x lo (omega arith);
  blocks =
      All-weaken (IsAllocated w) (IsAllocated w') bs
        (λ b a. record {
          mapped = λ x lo hi. grows x (a.mapped x lo hi);
          spared = λ x lo hi. outside x (a.mapped x lo hi);
        })
        h.blocks;
  apart = h.apart;
}
  where
    some_none : (x b : ℕ) → w.memory x ≡ some b → w.memory x ≡ none → ⊥
    some_none x b p q = cc

    outside : (x : ℕ) → Mapped w.memory x → (x < w'.heap_ptr) ⊎ (w'.heap_end ≤ x)
    outside x m = elim (dec_lt x w'.heap_ptr) [
      | yes lo ↦ inl lo
      | no lo ↦ elim (dec_lt x w'.heap_end) [
        | yes hi ↦ absurd (some_none x m.0 m.1 (fresh x (omega arith) hi))
        | no hi ↦ inr (omega arith)
      ]
    ]
