-- ===== src/Heap/Region.antt =====
-- A region asked for anywhere, and `julius_mem_init`.
use ajulius.Prelude.{
  List, [], ◌∷◌, ℕ, ◌+◌, ◌%◌, ◌≤◌, ◌<◌, ◌≡◌, refl, sym, ◌∙◌, inl, inr, none, ne→==, arith, ◌^◌,
}
use mathlib.Core.Path.{subst}
use ajulius.Types.{u64}
use ajulius.Machine.{pure, ◌>>=◌, ◌>>◌, word, text, Memory, Machine, World, ok}
use ajulius.Machine.Memory.{Mapped, MappedRange, Grows, unmapped_before}
use ajulius.Machine.Words.{
  store_word, load_word, store_word-Writes, load_word-ok, length-word_bytes,
}
use ajulius.Outcome.Returns
use ajulius.Outcome.Returns.{Ends, Returns, returns, panics}
use ajulius.Io.Puts.{IsOutside, HasBuffers, HasBuffers-Grows}
use ajulius.Heap.{get, modify, heap_initial_size, allocate_anywhere, julius_mem_init}
use ajulius.Heap.Keeps.{
  Quiet, Quiet-trans, Asked, Refused, julius_puts-Quiet, julius_put_hex-Quiet,
  julius_mach_task_self-Quiet, vm_allocate-Asked,
}
use ajulius.Io.Panic.{PrintsPanic, julius_panic-PrintsPanic}
use ajulius.Io.{julius_puts, julius_put_hex}
use ajulius.Trace.{Act, says, says_hex, Shows, nothing, Shows-append}
use ajulius.Xnu.{XnuLaws, Region}

store_addr-Quiet :
    (e : Machine) (w : World)
    → HasBuffers e.frame w.memory
    → Returns (λ _. Quiet e [] w) (store_word 8 (word e.frame.vm_addr) 0 w)
store_addr-Quiet e w has =
    let (m, runs, wrote) = store_word-Writes 8 0 w e.frame.vm_addr has.addr_mapped in
    rw runs (
      returns (record {
        grows = wrote.grows;
        kept = λ x h o. wrote.outside x (ground (arith, o.addr, length-word_bytes 8 0));
        base = refl;
        end = refl;
        ptr = refl;
        port = refl;
        shows = nothing;
      }))

-- What was asked for after a quiet start counts from the start.
Asked-Quiet :
    (e : Machine) (w v u : World) (size kr : ℕ)
    → Quiet e [] w v
    → Asked e v size kr u
    → Asked e w size kr u
Asked-Quiet e w v u size kr q a = record {
  quiet = Quiet-trans e w v u q a.quiet;
  outcome = elim a.outcome [
    | inl (z, r) ↦ inl (
      z,
      record {
        base = r.base;
        stored = r.stored;
        aligned = r.aligned;
        real = r.real;
        in_space = r.in_space;
        fresh = λ x lo hi. unmapped_before w.memory v.memory x q.grows (r.fresh x lo hi);
        mapped = r.mapped;
      },
    )
    | inr f ↦ inr f
  ];
}

-- What `julius_mem_init` prints of the heap.
abbrev pub heap_report : ℕ → List Act
heap_report base = says "mem: heap initialised at " ∷ says_hex base ∷ says ", size 1 MiB\n" ∷ []

-- The heap after `julius_mem_init`: one new region, all of it free.
pub record Initialised (e : Machine) (w w' : World) : Type 0 where
  pub grows : Grows w.memory w'.memory
  pub kept : (x : ℕ) → Mapped w.memory x → IsOutside e.frame x → w'.memory x ≡ w.memory x
  pub port : w'.g_bootstrap_port ≡ w.g_bootstrap_port
  pub shows : Shows (heap_report w'.heap_base) w.calls w'.calls
  pub real : 0 < w'.heap_base
  pub aligned : w'.heap_base % 4096 ≡ 0
  pub starts : w'.heap_ptr ≡ w'.heap_base
  pub ends : w'.heap_end ≡ w'.heap_base + heap_initial_size
  pub in_space : w'.heap_end ≤ 2 ^ 47
  pub fresh : (x : ℕ) → w'.heap_base ≤ x → x < w'.heap_end → w.memory x ≡ none
  pub mapped : MappedRange w'.memory w'.heap_base heap_initial_size

-- The kernel refused the first region, and `julius_mem_init` has panicked.
pub record NoHeap (e : Machine) (w w' : World) : Type 0 where
  pub at : World
  pub refused : Refused e at
  pub quiet : Shows [] w.calls at.calls
  pub prints : PrintsPanic e at "mem_init: mach_vm_allocate failed" w'

module _ (e : Machine) (laws : XnuLaws e.kernel) where
  -- `addr` is zeroed, the task port asked for, and the region allocated.
  pub allocate_anywhere-Asked :
      (w : World) (size : ℕ)
      → HasBuffers e.frame w.memory
      → 0 < size
      → Returns (Asked e w size) (allocate_anywhere e size w)
  unfolding allocate_anywhere
  allocate_anywhere-Asked w size has pos = Returns.bind (store_addr-Quiet e w has) λ _ w1 q1.
      Returns.bind (julius_mach_task_self-Quiet e laws w1) λ task w2 q2.
        let q = Quiet-trans e w w1 w2 q1 q2 in
        Returns.mono
          (vm_allocate-Asked e laws w2 task size
            (HasBuffers-Grows e.frame w.memory w2.memory q.grows has) pos)
          λ kr w3 a. Asked-Quiet e w w2 w3 size kr q a

  pub load_base :
      (w : World) (m : Memory) (size : ℕ) (r : Region m e.frame.vm_addr size w.memory)
      → load_word 8 (word e.frame.vm_addr) w ≡ ok r.base w
  load_base w m size r =
      let low = r.in_space in load_word-ok 8 r.base w (word e.frame.vm_addr) r.stored (omega arith)

  -- What `julius_mem_init` prints at the end, with the heap's variables set.
  report-Quiet :
      (w : World)
      → HasBuffers e.frame w.memory
      → w.heap_base < 2 ^ 60
      → Returns
          (λ _. Quiet e (heap_report w.heap_base) w)
          ((do
            julius_puts e (text "mem: heap initialised at " 0)
            base ← get (λ w. w.heap_base)
            julius_put_hex e base
            julius_puts e (text ", size 1 MiB\n" 0)
            pure tt)
            w)
  report-Quiet w has small =
      Returns.bind (julius_puts-Quiet e laws w "mem: heap initialised at " refl (omega arith))
        λ _ w1 q1.
          Returns.bind
            (julius_put_hex-Quiet e laws w1 w1.heap_base
              (HasBuffers-Grows e.frame w.memory w1.memory q1.grows has) (rw q1.base small))
            λ _ w2 q2.
              Returns.bind (julius_puts-Quiet e laws w2 ", size 1 MiB\n" refl (omega arith))
                λ _ w3 q3. returns (
                  subst (λ b. Quiet e (heap_report b) w w3) q1.base
                    (Quiet-trans e w w1 w3 q1 (Quiet-trans e w1 w2 w3 q2 q3)))

  -- The heap's variables are set to a new region, and reported.
  set_heap-Initialised :
      (w w1 : World)
      → HasBuffers e.frame w.memory
      → Quiet e [] w w1
      → (r : Region w.memory e.frame.vm_addr heap_initial_size w1.memory)
      → Returns
          (λ _. Initialised e w)
          ((do
            addr ← load_word 8 (word e.frame.vm_addr)
            modify λ v. record v {
              heap_base = addr;
              heap_ptr = addr;
              heap_end = u64 (addr + heap_initial_size);
            }
            julius_puts e (text "mem: heap initialised at " 0)
            base ← get (λ v. v.heap_base)
            julius_put_hex e base
            julius_puts e (text ", size 1 MiB\n" 0)
            pure tt)
            w1)
  set_heap-Initialised w w1 has q r =
      let low = r.in_space in
      let top : u64 (r.base + heap_initial_size) ≡ r.base + heap_initial_size = omega arith in
      let w2 : World = record w1 {
        heap_base = r.base;
        heap_ptr = r.base;
        heap_end = u64 (r.base + heap_initial_size);
      } in
      rw (load_base w1 w.memory heap_initial_size r) (
        Returns.mono
          (report-Quiet w2 (HasBuffers-Grows e.frame w.memory w1.memory q.grows has) (omega arith))
          λ _ w3 p. record {
            grows = λ x h. p.grows x (q.grows x h);
            kept = λ x h o. p.kept x (q.grows x h) o ∙ q.kept x h o;
            port = p.port ∙ q.port;
            shows = rw p.base (Shows-append q.shows p.shows);
            real = rw p.base r.real;
            aligned = rw p.base r.aligned;
            starts = p.ptr ∙ sym p.base;
            ends = rw (p.end, p.base) top;
            in_space = rw (p.end, top) low;
            fresh = λ x lo hi. r.fresh x (rw p.base at lo) (rw top at (rw p.end at hi));
            mapped = λ x lo hi. p.grows x (r.mapped x (rw p.base at lo) (rw p.base at hi));
          })

  -- With the kernel laws and the printers' arrays and `addr` mapped, `julius_mem_init` ends. Either
  -- the kernel gave a page-aligned region of 1 MiB, which is now the heap, all of it free; nothing was
  -- unmapped, no mapped byte but those of local variables was written, and the report of the
  -- region's address is all that was printed. Or the kernel refused and the process has panicked,
  -- with nothing printed before the panic.
  pub julius_mem_init-Initialised :
      (w : World)
      → HasBuffers e.frame w.memory
      → Ends (λ _. Initialised e w) (NoHeap e w) (julius_mem_init e w)
  unfolding julius_mem_init
  julius_mem_init-Initialised w has =
      Returns.and_then (allocate_anywhere-Asked w heap_initial_size has (omega arith)) λ kr w1 a.
        elim a.outcome [
          | inl (z, r) ↦
              rw z (Returns.widen (set_heap-Initialised w w1 has a.quiet r) (λ v f. absurd f))
          | inr (nz, f) ↦ rw (ne→== kr 0 nz) (
              Returns.never_returns _ (
                Returns.widen
                  (julius_panic-PrintsPanic e w1 "mem_init: mach_vm_allocate failed" refl
                    (omega arith))
                  (λ v p. record { at = w1; refused = f; quiet = a.quiet.shows; prints = p })))
        ]
