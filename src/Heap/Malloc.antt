-- ===== src/Heap/Malloc.antt =====
-- `julius_malloc`: room in the current region, a new region, or the first one.
use ajulius.Prelude.{
  [], ◌≢◌, ==→ne, ℕ, ◌+◌, ◌-◌, ◌%◌, ◌≤◌, ◌<◌, ◌^◌, ◌≡◌, refl, ◌∙◌, ◌⊎◌, inl, inr, ◌==◌, ltb,
  Bool-cases, ne→==, ==→eq, ltb→le, List, ◌∷◌, arith,
}
use ajulius.Types.{u64, align}
use ajulius.Machine.{Value, word, null, Machine, World}
use ajulius.Machine.Memory.{Mapped, Grows}
use ajulius.Outcome.Returns
use ajulius.Outcome.Returns.{Ends, Returns, returns}
use ajulius.Io.Puts.{IsOutside, HasBuffers, HasBuffers-Grows}
use ajulius.Heap.{heap_align, take_block, extend_size, extend_heap, malloc_aligned, julius_malloc}
use ajulius.Heap.Align.{align_bounds}
use ajulius.Heap.Keeps.{Refused}
use ajulius.Heap.Region.{
  heap_report, Initialised, load_base, allocate_anywhere-Asked, NoHeap, julius_mem_init-Initialised,
}
use ajulius.Heap.Blocks.{block, Block, IsHeap, Quiet-IsHeap, take-IsHeap, fresh-IsHeap}
use ajulius.Trace.{Act, Shows, nothing, Shows-append}
use mathlib.Core.Path.{subst}
use mathlib.Core.List.{append-nil}
use ajulius.Xnu.{XnuLaws}

-- From `w` to `w'` nothing was unmapped, no mapped byte but those of local variables written, and
-- the bootstrap port kept; and nothing was shown, if the heap was there, or else the first region
-- was reported.
pub record Spares (e : Machine) (w w' : World) : Type 0 where
  pub grows : Grows w.memory w'.memory
  pub kept : (x : ℕ) → Mapped w.memory x → IsOutside e.frame x → w'.memory x ≡ w.memory x
  pub port : w'.g_bootstrap_port ≡ w.g_bootstrap_port
  pub told : List Act
  pub shows : Shows told w.calls w'.calls
  pub reason :
      ((w.heap_base ≢ 0) × (told ≡ [])) ⊎ ((w.heap_base ≡ 0) × (b : ℕ) × (told ≡ heap_report b))

-- What an allocation of `size` bytes comes to: NULL, if the kernel has refused more memory, or the
-- address of a new block, aligned to 16 bytes.
pub record Allocates (e : Machine) (w : World) (bs : List Block) (size : ℕ) (p : Value) (w' : World)
    : Type 0 where
  pub spares : Spares e w w'
  pub outcome :
      ((p ≡ null) × IsHeap w' bs × Refused e w')
      ⊎ ((a : ℕ) × (p ≡ word a)
          × (0 < a)
          × (a % 16 ≡ 0)
          × (a + size ≤ 2 ^ 47)
          × IsHeap w' (block a size ∷ bs))

-- What comes after it, if nothing is shown.
Spares-Quiet :
    (e : Machine) (w v u : World)
    → Spares e w v
    → Grows v.memory u.memory
    → ((x : ℕ) → Mapped v.memory x → IsOutside e.frame x → u.memory x ≡ v.memory x)
    → u.g_bootstrap_port ≡ v.g_bootstrap_port
    → Shows [] v.calls u.calls
    → Spares e w u
Spares-Quiet e w v u p grows kept port shows = record {
  grows = λ x h. grows x (p.grows x h);
  kept = λ x h o. kept x (p.grows x h) o ∙ p.kept x h o;
  port = port ∙ p.port;
  told = p.told;
  shows =
      subst (λ acts. Shows acts w.calls u.calls) (append-nil p.told) (Shows-append p.shows shows);
  reason = p.reason;
}

-- There is room in the current region.
take_block-Allocates :
    (e : Machine) (w v : World) (bs : List Block) (n size : ℕ)
    → Spares e w v
    → IsHeap v bs
    → 0 < v.heap_ptr
    → n % 16 ≡ 0
    → size ≤ n
    → v.heap_ptr + n ≤ v.heap_end
    → Returns (Allocates e w bs size) (take_block n v)
unfolding take_block
take_block-Allocates e w v bs n size sp h pos al le room =
    let space = h.in_space in
    let sum : u64 (v.heap_ptr + n) ≡ v.heap_ptr + n = omega arith in
    rw sum (
      returns (record {
        spares = record {
          grows = sp.grows;
          kept = sp.kept;
          port = sp.port;
          told = sp.told;
          shows = sp.shows;
          reason = sp.reason;
        };
        outcome =
            inr
              (v.heap_ptr, refl, pos, h.aligned, omega arith, take-IsHeap v bs n size h al le room);
      }))

extend_size-le :
    (n : ℕ) → n ≤ 2 ^ 46 → (n ≤ extend_size n) × (0 < extend_size n) × (extend_size n ≤ 2 ^ 47)
unfolding extend_size
extend_size-le n h = ground arith

module _ (e : Machine) (laws : XnuLaws e.kernel) where
  -- A new region, and a block from its start.
  extend_heap-Allocates :
      (w v : World) (bs : List Block) (n size : ℕ)
      → Spares e w v
      → HasBuffers e.frame v.memory
      → IsHeap v bs
      → n % 16 ≡ 0
      → size ≤ n
      → n ≤ 2 ^ 46
      → Returns (Allocates e w bs size) (extend_heap e n v)
  unfolding extend_heap
  extend_heap-Allocates w v bs n size sp has h al le small =
      let (at_least, pos, at_most) = extend_size-le n small in
      Returns.bind (allocate_anywhere-Asked e laws v (extend_size n) has pos) λ kr u a.
        elim a.outcome [
          | inl (z, r) ↦
              let low = r.in_space in
              let top : u64 (r.base + extend_size n) ≡ r.base + extend_size n = omega arith in
              let u' : World = record u {
                heap_ptr = r.base;
                heap_end = u64 (r.base + extend_size n);
              } in
              rw (z, load_base e laws u v.memory (extend_size n) r)
                (take_block-Allocates e w u' bs n size
                  (Spares-Quiet e w v u' sp a.quiet.grows a.quiet.kept a.quiet.port a.quiet.shows)
                  (fresh-IsHeap v u' bs h a.quiet.grows r.real (omega arith) (omega arith)
                    (omega (arith, r.aligned)) (λ x lo hi. r.fresh x lo (omega arith))
                    (λ x lo hi. r.mapped x lo (omega arith)))
                  r.real al le (omega arith))
          | inr (nz, f) ↦ rw (ne→== kr 0 nz) (
              returns (record {
                spares =
                    Spares-Quiet e w v u sp a.quiet.grows a.quiet.kept a.quiet.port a.quiet.shows;
                outcome = inl (refl, Quiet-IsHeap e v u bs a.quiet h, f);
              }))
        ]

  malloc_aligned-Allocates :
      (w v : World) (bs : List Block) (n size : ℕ)
      → Spares e w v
      → HasBuffers e.frame v.memory
      → IsHeap v bs
      → 0 < v.heap_ptr
      → n % 16 ≡ 0
      → size ≤ n
      → n ≤ 2 ^ 46
      → Returns (Allocates e w bs size) (malloc_aligned e n v)
  unfolding malloc_aligned
  malloc_aligned-Allocates w v bs n size sp has h pos al le small =
      let space = h.in_space in
      let ord = h.ordered in
      let sum : u64 (v.heap_ptr + n) ≡ v.heap_ptr + n = omega arith in
      elim (Bool-cases (ltb v.heap_end (v.heap_ptr + n))) [
        | inl full ↦ rw (sum, full) (extend_heap-Allocates w v bs n size sp has h al le small)
        | inr room ↦
            rw (sum, room)
              (take_block-Allocates e w v bs n size sp h pos al le
                (ltb→le v.heap_end (v.heap_ptr + n) room))
      ]

  -- The first region becomes the heap; what was allocated before stays so.
  Initialised-IsHeap :
      (w v : World) (bs : List Block) → Initialised e w v → IsHeap w bs → IsHeap v bs
  Initialised-IsHeap w v bs i h =
      let e1 = i.starts in
      let e2 = i.ends in
      let pos = i.real in
      fresh-IsHeap w v bs h i.grows (omega arith) (omega arith) i.in_space
        (omega (arith, i.aligned)) (λ x lo hi. i.fresh x (omega arith) hi)
        (λ x lo hi. i.mapped x (omega arith) (omega arith))

  -- With the kernel laws, the printers' arrays and `addr` mapped, a heap in order and a size of at
  -- most 2 ^ 46 - 16, `julius_malloc` ends: with the 16-byte aligned, non-null address of a new
  -- block that shares no byte with the earlier blocks or the free part; or with NULL and the
  -- blocks as before, after the kernel refused memory; or in a panic, if there was no heap and the
  -- kernel refused one. When it returns, nothing was unmapped and no mapped byte outside those
  -- locals was written, `g_bootstrap_port` kept its value, and nothing was printed or sent, but
  -- the report of the first region if there was no heap.
  pub julius_malloc-Allocates :
      (w : World) (bs : List Block) (size : ℕ)
      → HasBuffers e.frame w.memory
      → IsHeap w bs
      → size ≤ 2 ^ 46 - 16
      → Ends
          (Allocates e w bs size)
          (λ w'. (w.heap_base ≡ 0) × NoHeap e w w')
          (julius_malloc e size w)
  unfolding julius_malloc
  julius_malloc-Allocates w bs size has h small =
      let (le, lt, al) = align_bounds size (omega arith) in
      elim (Bool-cases (w.heap_base == 0)) [
        | inl none_yet ↦ rw none_yet (
            Returns.bind
              (Returns.widen (julius_mem_init-Initialised e laws w has)
                (λ w' p. (==→eq w.heap_base 0 none_yet, p)))
              λ _ v i.
                Returns.widen
                  (malloc_aligned-Allocates w v bs (align size heap_align) size
                    (record {
                      grows = i.grows;
                      kept = i.kept;
                      port = i.port;
                      told = heap_report v.heap_base;
                      shows = i.shows;
                      reason = inr (==→eq w.heap_base 0 none_yet, v.heap_base, refl);
                    })
                    (HasBuffers-Grows e.frame w.memory v.memory i.grows has)
                    (Initialised-IsHeap w v bs i h) (rw i.starts i.real) al le (omega arith))
                  (λ w' f. absurd f))
        | inr there ↦ rw there (
            Returns.widen
              (malloc_aligned-Allocates w w bs (align size heap_align) size
                (record {
                  grows = λ x k. k;
                  kept = λ x k o. refl;
                  port = refl;
                  told = [];
                  shows = nothing;
                  reason = inl (==→ne w.heap_base 0 there, refl);
                })
                has h (ground (arith, h.real)) al le (omega arith))
              (λ w' f. absurd f))
      ]
