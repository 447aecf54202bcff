-- ===== src/Heap/Keeps.antt =====
-- What the calls below the allocator leave alone: output, the task port, and the new regions.
use ajulius.Prelude.{
  arith, ℕ, ◌<◌, ◌≡◌, refl, ◌∙◌, ◌≢◌, ◌⊎◌, inl, inr, String, true, ◌==◌, Bool-cases, ==→eq, ==→ne,
  List, [], ◌∷◌, ◌++◌, length, codes, ◌^◌,
}
use ajulius.Types.{vm_flags_anywhere}
use ajulius.Machine.{word, text, Call, Machine, World, syscall}
use ajulius.Machine.Memory.{Mapped, Grows, no_nul}
use ajulius.Outcome.Returns
use ajulius.Outcome.Returns.{Returns, returns}
use ajulius.Syscall.{
  regs4, regs0, trap_task_self_trap, julius_syscall0, julius_syscall4, julius_mach_task_self,
}
use ajulius.Io.{julius_puts, julius_put_hex}
use ajulius.Io.Puts.{write_regs, IsOutside, HasBuffers, Prints, julius_puts_text}
use ajulius.Io.Hex.{julius_put_hex-PrintsHex}
use ajulius.Heap.{julius_vm_allocate, trap_mach_vm_allocate}
use ajulius.Trace.{
  Act, says, says_hex, Happens, IsWrite, Shows, Shows-append, nothing, silent, Prints-Shows,
  mach_trap-IsSilent,
}
use ajulius.Xnu.{XnuLaws, Region, kern_return}

-- From `w` to `w'` nothing was unmapped, no mapped byte outside the three local variables was
-- written, the static variables kept their values, and the acts were shown.
pub record Quiet (e : Machine) (acts : List Act) (w w' : World) : Type 0 where
  pub grows : Grows w.memory w'.memory
  pub kept : (x : ℕ) → Mapped w.memory x → IsOutside e.frame x → w'.memory x ≡ w.memory x
  pub base : w'.heap_base ≡ w.heap_base
  pub end : w'.heap_end ≡ w.heap_end
  pub ptr : w'.heap_ptr ≡ w.heap_ptr
  pub port : w'.g_bootstrap_port ≡ w.g_bootstrap_port
  pub shows : Shows acts w.calls w'.calls

pub Quiet-refl : (e : Machine) (w : World) → Quiet e [] w w
Quiet-refl e w = record {
  grows = λ x h. h;
  kept = λ x h o. refl;
  base = refl;
  end = refl;
  ptr = refl;
  port = refl;
  shows = nothing;
}

pub Quiet-trans :
    {xs ys : List Act} (e : Machine) (w v u : World)
    → Quiet e xs w v
    → Quiet e ys v u
    → Quiet e (xs ++ ys) w u
Quiet-trans e w v u p q = record {
  grows = λ x h. q.grows x (p.grows x h);
  kept = λ x h o. q.kept x (p.grows x h) o ∙ p.kept x h o;
  base = q.base ∙ p.base;
  end = q.end ∙ p.end;
  ptr = q.ptr ∙ p.ptr;
  port = q.port ∙ p.port;
  shows = Shows-append p.shows q.shows;
}

-- The last call was `mach_vm_allocate`, and the kernel did not return KERN_SUCCESS.
pub record Refused (e : Machine) (w : World) : Type 0 where
  pub call : Call
  pub before : List Call
  pub last : w.calls ≡ call ∷ before
  pub asked : call.regs.rax ≡ trap_mach_vm_allocate
  pub failed : kern_return (e.kernel before call.regs call.seen) ≢ 0

-- The outcome `kr` of asking for `size` bytes.
pub record Asked (e : Machine) (w : World) (size kr : ℕ) (w' : World) : Type 0 where
  pub quiet : Quiet e [] w w'
  pub outcome :
      ((kr ≡ 0) × Region w.memory e.frame.vm_addr size w'.memory) ⊎ ((kr ≢ 0) × Refused e w')

module _ (e : Machine) (laws : XnuLaws e.kernel) (w : World) where
  Prints-Quiet :
      (a : Act) (bs : List ℕ) (w' : World)
      → ((c : Call) → IsWrite bs c → Happens a c)
      → Prints e w bs w'
      → Quiet e (a ∷ []) w w'
  Prints-Quiet a bs w' happens p =
      let same = laws.write_keeps w.calls (write_regs 2 p.buf (length bs)) p.seen refl in
      rw p.after (record {
        grows = λ x h. rw same (p.grows x h);
        kept = λ x h o. rw same (p.outside x o);
        base = refl;
        end = refl;
        ptr = refl;
        port = refl;
        shows = rw p.after at (Prints-Shows e a bs w w' happens p);
      })

  pub julius_puts-Quiet :
      (s : String)
      → no_nul (codes s) ≡ true
      → length (codes s) < 2 ^ 64
      → Returns (λ _. Quiet e (says s ∷ []) w) (julius_puts e (text s 0) w)
  julius_puts-Quiet s clean small =
      Returns.mono (julius_puts_text e w s clean small)
        λ _ w' p. Prints-Quiet (says s) (codes s) w' (λ c i. i) p

  pub julius_put_hex-Quiet :
      (v : ℕ)
      → HasBuffers e.frame w.memory
      → v < 2 ^ 60
      → Returns (λ _. Quiet e (says_hex v ∷ []) w) (julius_put_hex e v w)
  julius_put_hex-Quiet v has small =
      Returns.mono (julius_put_hex-PrintsHex e w v has small) λ _ w' p.
        Prints-Quiet (says_hex v) (b'0' ∷ b'x' ∷ p.ds) w' (λ c i. (p.ds, p.number, i)) p.prints

  pub julius_mach_task_self-Quiet : Returns (λ _. Quiet e [] w) (julius_mach_task_self e w)
  unfolding julius_mach_task_self julius_syscall0 syscall
  julius_mach_task_self-Quiet =
      let same = laws.task_self_keeps w.calls (regs0 trap_task_self_trap) w.memory refl in
      returns (record {
        grows = λ x h. rw same h;
        kept = λ x h o. rw same refl;
        base = refl;
        end = refl;
        ptr = refl;
        port = refl;
        shows =
            silent (mach_trap-IsSilent 28 _ (omega arith) (omega arith) (omega arith) refl) nothing;
      })

  -- The system call of `julius_vm_allocate`, with `addr` at its place in the frame.
  pub vm_allocate-Asked :
      (task size : ℕ)
      → HasBuffers e.frame w.memory
      → 0 < size
      → Returns
          (Asked e w size)
          (julius_vm_allocate e task (word e.frame.vm_addr) size vm_flags_anywhere w)
  unfolding julius_vm_allocate julius_syscall4 syscall
  vm_allocate-Asked task size has pos =
      let slot = e.frame.vm_addr in
      let r = regs4 trap_mach_vm_allocate (word task) (word slot) (word size) (word 1) in
      let reply = e.kernel w.calls r w.memory in
      returns (record {
        quiet = record {
          grows = laws.vm_allocate_grows w.calls r w.memory refl;
          kept = λ x h o.
              laws.vm_allocate_keeps w.calls (word task) slot size (word 1) w.memory x h o.addr;
          base = refl;
          end = refl;
          ptr = refl;
          port = refl;
          shows =
              silent (mach_trap-IsSilent 10 _ (omega arith) (omega arith) (omega arith) refl)
                nothing;
        };
        outcome = elim (Bool-cases (kern_return reply == 0)) [
          | inl done ↦
              let z = ==→eq (kern_return reply) 0 done in
              inl (
                z,
                laws.vm_allocate_region w.calls (word task) slot size w.memory pos has.addr_mapped
                    z,
              )
          | inr failed ↦
              let nz = ==→ne (kern_return reply) 0 failed in
              inr (
                nz,
                record {
                  call = record { regs = r; seen = w.memory };
                  before = w.calls;
                  last = refl;
                  asked = refl;
                  failed = nz;
                },
              )
        ];
      })
