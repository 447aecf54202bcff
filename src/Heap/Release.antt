-- ===== src/Heap/Release.antt =====
-- A region taken from the kernel and given back.
use ajulius.Prelude.{ℕ, ◌+◌, ◌%◌, ◌≤◌, ◌<◌, ◌≡◌, ◌≢◌, ◌⊎◌, ◌==◌, if◌then◌else◌, none}
use ajulius.Machine.{word, Machine, World, Cmd, pure, ◌>>=◌}
use ajulius.Machine.Memory.{Mapped, MappedRange}
use ajulius.Machine.Words.{load_word}
use ajulius.Outcome.Returns
use ajulius.Outcome.Returns.{Ends, Returns}
use ajulius.Syscall.{julius_mach_task_self}
use ajulius.Io.Puts.{IsOutside}
use ajulius.Heap.{allocate_anywhere, julius_vm_deallocate}
use ajulius.Heap.Keeps.{Refused}

-- A region is asked for, and if the kernel gives one, offered back.
unfoldable pub take_and_release : Machine → ℕ → Cmd ℕ
take_and_release e size = do
  kr ← allocate_anywhere e size
  if kr == 0
      then (do
        addr ← load_word 8 (word e.frame.vm_addr)
        task ← julius_mach_task_self e
        julius_vm_deallocate e task addr size)
      else pure kr

-- The addresses of a region.
abbrev pub IsVacant : World → ℕ → ℕ → Type 0
IsVacant w base size = (x : ℕ) → base ≤ x → x < base + size → w.memory x ≡ none

-- What that comes to, with the result `kr`.
pub record Released (e : Machine) (w : World) (size kr : ℕ) (w' : World) : Type 0 where
  pub kept : (x : ℕ) → Mapped w.memory x → IsOutside e.frame x → w'.memory x ≡ w.memory x
  pub outcome :
      ((kr ≢ 0) × Refused e w')
      ⊎ ((base : ℕ) × (base % 4096 ≡ 0)
          × IsVacant w base size
          × (((kr ≢ 0) × MappedRange w'.memory base size) ⊎ ((kr ≡ 0) × IsVacant w' base size)))
