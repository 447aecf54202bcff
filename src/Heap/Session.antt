-- ===== src/Heap/Session.antt =====
-- The heap in use: any sequence of its calls, and what becomes of the blocks.
use ajulius.Prelude.{ℕ, ◌*◌, ◌≡◌, ◌≤◌, ◌<◌, ◌%◌, ◌-◌, ◌^◌, List, [], ◌∷◌}
use ajulius.Types.{u64}
use ajulius.Machine.{Value, word, null, Machine, World, Cmd, pure, ◌>>=◌, ◌>>◌}
use ajulius.Outcome.Returns
use ajulius.Outcome.Returns.{Returns}
use ajulius.Prelude.{replicate}
use ajulius.Machine.Memory.{Holds}
use ajulius.Heap.Blocks.{Block, block, IsHeap}
use ajulius.Heap.Keeps.{Refused}
use ajulius.Heap.Contents.{Preserves}
use ajulius.Heap.{julius_malloc, julius_calloc, julius_free}

-- A call of the heap.
pub data HeapCall : Type 0 where
  malloc : ℕ → HeapCall
  calloc : ℕ → ℕ → HeapCall
  free : Value → HeapCall

-- The sizes that the allocator's guarantees cover.
abbrev pub IsModerate : HeapCall → Type 0
IsModerate (malloc size) = size ≤ 2 ^ 46 - 16
IsModerate (calloc nmemb size) = u64 (nmemb * size) ≤ 2 ^ 46 - 16
IsModerate (free ptr) = Unit

-- What one call returns, and the blocks there are after it.
pub data Answer (e : Machine)
    : HeapCall → Value → World → List Block → World → List Block → Type 0 where
  granted :
      {w v : World} {bs : List Block} {a size : ℕ}
      → 0 < a
      → a % 16 ≡ 0
      → Answer e (malloc size) (word a) w bs v (block a size ∷ bs)
  zeroed :
      {w v : World} {bs : List Block} {a nmemb size : ℕ}
      → 0 < a
      → a % 16 ≡ 0
      → Holds v.memory (word a) (replicate (u64 (nmemb * size)) 0)
      → Answer e (calloc nmemb size) (word a) w bs v (block a (u64 (nmemb * size)) ∷ bs)
  refused : {c : HeapCall} {w v : World} {bs : List Block} → Refused e v → Answer e c null w bs v bs
  kept : {w : World} {bs : List Block} {ptr : Value} → Answer e (free ptr) null w bs w bs

-- A sequence of calls with their results, from a world with some blocks to one with more. The
-- blocks there are after a call keep their contents to the end.
pub data Session (e : Machine)
    : List HeapCall → List Value → World → List Block → World → List Block → Type 0 where
  finished : {w : World} {bs : List Block} → Session e [] [] w bs w bs
  answered :
      {c : HeapCall} {cs : List HeapCall} {p : Value} {ps : List Value} {w v u : World}
      {bs ds fs : List Block}
      → Answer e c p w bs v ds
      → Preserves e ds v u
      → Session e cs ps v ds u fs
      → Session e (c ∷ cs) (p ∷ ps) w bs u fs

module _ (e : Machine) where
  -- A call; `julius_free` returns nothing, which NULL stands for here.
  unfoldable pub call_heap : HeapCall → Cmd Value
  call_heap (malloc size) = julius_malloc e size
  call_heap (calloc nmemb size) = julius_calloc e nmemb size
  call_heap (free ptr) = do julius_free e ptr; pure null

  unfoldable pub call_all : List HeapCall → Cmd (List Value)
  call_all [] = pure []
  call_all (c ∷ cs) = do p ← call_heap c; ps ← call_all cs; pure (p ∷ ps)

-- What a call comes to: its answer, with the heap in order and the blocks' contents kept.
record Called (e : Machine) (c : HeapCall) (w : World) (bs : List Block) (p : Value) (v : World)
    : Type 0 where
  blocks : List Block
  answer : Answer e c p w bs v blocks
  heap : IsHeap v blocks
  preserves : Preserves e bs w v
  earlier : (u : World) → Preserves e blocks v u → Preserves e bs v u

-- What a sequence of calls comes to.
pub record CalledAll (e : Machine) (cs : List HeapCall) (w : World) (bs : List Block)
    (ps : List Value) (u : World) : Type 0 where
  pub blocks : List Block
  pub session : Session e cs ps w bs u blocks
  pub heap : IsHeap u blocks
  pub preserves : Preserves e bs w u
