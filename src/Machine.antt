-- ===== src/Machine.antt =====
-- The machine that the C code runs on: byte memory, string literals, the kernel behind the
-- `syscall` instruction, and the commands that the functions of the other modules are.
--
-- The kernel (XNU) is not part of this repository. It is a parameter: a function of the calls
-- made so far, the registers and the memory, so that any behaviour of it, of other tasks and of
-- time is one such function.
pub mod Memory
pub mod Words
use ajulius.Prelude.{
  ℕ, zero, suc, ◌+◌, ◌%◌, ◌^◌, String, Bool, Option, none, some, List, [], ◌∷◌, ◌++◌, ◌==◌,
  if◌then◌else◌, get_elem?, codes, not, false, true,
}
use ajulius.Types.{u64}
use ajulius.Outcome.{Outcome, Action}
pub use ajulius.Outcome.{ok, panicked, fault, out_of_fuel, pure, followed_by, ◌>>=◌, ◌>>◌}

-- A 64-bit value: a number, among them the addresses, or a pointer into a string literal, which
-- the linker puts somewhere in read-only memory.
pub data Value : Type 0 where
  word : ℕ → Value
  text : String → ℕ → Value

abbrev pub null : Value
null = word 0

-- `p + n`. Arithmetic on a pointer stays in its object or one behind it, so nothing wraps.
infixl 65 ◌⊕◌
abbrev pub ◌⊕◌ : Value → ℕ → Value
word a ⊕ n = word (a + n)
text s i ⊕ n = text s (i + n)

-- `!p`
abbrev pub is_null : Value → Bool
is_null (word a) = a == 0
is_null (text s i) = false

-- `none` at an address that is not mapped.
abbrev pub Memory : Type 0
Memory = ℕ → Option ℕ

abbrev pub update : Memory → ℕ → ℕ → Memory
update m a b x = if x == a then some b else m x

-- The byte that a pointer points to.
abbrev pub byte_at : Memory → Value → Option ℕ
byte_at m (word a) = m a
byte_at m (text s i) = get_elem? (codes s ++ 0 ∷ []) i

-- What the assembly puts in registers; `none` where it leaves what happened to be there.
pub record Regs : Type 0 where
  pub rax : ℕ
  pub rdi : Option Value
  pub rsi : Option Value
  pub rdx : Option Value
  pub r10 : Option Value
  pub r8 : Option Value
  pub r9 : Option Value

-- A system call made: the registers and the memory at the `syscall` instruction.
pub record Call : Type 0 where
  pub regs : Regs
  pub seen : Memory

pub record Reply : Type 0 where
  pub rax : ℕ
  pub memory : Memory

-- The calls are the latest first, without the one that is answered.
abbrev pub Kernel : Type 0
Kernel = List Call → Regs → Memory → Reply

-- Where the compiler keeps the local variables whose address is taken, and the arrays.
pub record Frame : Type 0 where
  pub vm_addr : ℕ
  pub port_name : ℕ
  pub msg : ℕ
  pub reply_msg : ℕ
  pub hex_buf : ℕ
  pub dec_buf : ℕ

pub record Machine : Type 0 where
  pub kernel : Kernel
  pub frame : Frame

-- Memory, the calls made (the latest first), and the static variables of mem.c and main.c.
pub record World : Type 0 where
  pub memory : Memory
  pub calls : List Call
  pub heap_base : ℕ
  pub heap_end : ℕ
  pub heap_ptr : ℕ
  pub g_bootstrap_port : ℕ

-- `fault`: an access that is not mapped, a write to a literal, or an undefined operation.
-- `panicked`: the `ud2` of `julius_panic`.
abbrev pub Run : Type 0 → Type 0
Run A = Outcome World A

abbrev pub Cmd : Type 0 → Type 0
Cmd A = Action World A

-- `*p`
unfoldable pub load : Value → Cmd ℕ
load p w = elim (byte_at w.memory p) [ none ↦ fault | some b ↦ ok b w ]

-- `*p = b`
unfoldable pub store : Value → ℕ → Cmd (Unit {0})
store (text s i) b w = fault
store (word a) b w = elim (w.memory a) [
  | none ↦ fault
  | some old ↦ ok tt (record w { memory = update w.memory a b })
]

-- The `syscall` instruction; the result is what the kernel leaves in rax.
unfoldable pub syscall : Machine → Regs → Cmd ℕ
syscall e r w =
    let reply = e.kernel w.calls r w.memory in
    ok (u64 reply.rax)
      (record w { memory = reply.memory; calls = record { regs = r; seen = w.memory } ∷ w.calls })
