-- ===== src/Init/Entry.antt =====
-- init/src/start.s: the entry point of PID 1, from the registers and the stack that the kernel's
-- exec leaves to the call of `julius_start`, and what follows if that should return.
use ajulius.Prelude.{ℕ, ◌+◌, ◌-◌, ◌*◌, ◌/◌, ◌%◌, ◌≤◌, ◌<◌, ◌^◌, ◌≡◌, refl, arith}
use ajulius.Types.{u64}
use ajulius.Outcome.Returns.{panics, returns, Returns}
use ajulius.Machine.{
  word, Machine, World, Cmd, Run, ok, panicked, fault, out_of_fuel, followed_by, pure, ◌>>=◌, ◌>>◌,
  syscall,
}
use ajulius.Machine.Memory.{Holds, MappedRange, Wrote}
use ajulius.Machine.Words.{load_word, store_word, word_bytes, load_word-ok, store_word-Writes}
use ajulius.Syscall.{regs1, sys_exit}
use ajulius.Init.{service_rounds, julius_start}
use ajulius.Init.Says.{IsReady, IsReady-Grows}
use ajulius.Init.Leads.{behind-Leads, Leads}
use ajulius.Init.Deaths.{Died}
use ajulius.Init.Boot.{IsServing, rounds_from_there, julius_start-Leads}
use ajulius.Xnu.{XnuLaws, PortLaws}

-- The registers that the entry point sets or reads.
pub record Cpu : Type 0 where
  pub rbp : ℕ
  pub rsp : ℕ
  pub rdi : ℕ
  pub rsi : ℕ

-- The instructions up to the call, which pushes the address it returns to.
unfoldable pub enter : ℕ → Cpu → Cmd Cpu
enter return_address c = do
  let rsp = c.rsp / 16 * 16
  let pushed = u64 (rsp + 2 ^ 64 - 8)
  argc ← load_word 8 (word rsp)
  store_word 8 (word pushed) return_address
  pure (record { rbp = 0; rsp = pushed; rdi = argc; rsi = u64 (rsp + 8) })

-- The function that is called: argc and argv, in rdi and rsi, are ignored.
unfoldable pub call_julius_start : Machine → ℕ → ℕ → ℕ → Cmd (Unit {0})
call_julius_start e n argc argv = julius_start e n

-- Behind the call stand the call of exit, with code 0, and the undefined instruction.
unfoldable pub start : Machine → ℕ → ℕ → Cpu → Cmd (Unit {0})
start e return_address n c = do
  d ← enter return_address c
  call_julius_start e n d.rdi d.rsi
  syscall e (regs1 sys_exit (word 0))
  λ w. panicked w

-- What the kernel's exec leaves: an aligned stack with argc on top, and room below.
pub record Execed (w : World) (c : Cpu) (argc : ℕ) : Type 0 where
  pub aligned : c.rsp % 16 ≡ 0
  pub above : 16 ≤ c.rsp
  pub in_space : c.rsp + 8 < 2 ^ 64
  pub counted : Holds w.memory (word c.rsp) (word_bytes 8 argc)
  pub small : argc < 2 ^ 64
  pub room : MappedRange w.memory (c.rsp - 8) 8

-- The state at the first instruction of `julius_start`: no frame above, the stack as a callee wants
-- it, the two arguments, and the return address pushed, which is all that was written.
pub record Enters (w : World) (c : Cpu) (argc return_address : ℕ) (d : Cpu) (w' : World)
    : Type 0 where
  pub outermost : d.rbp ≡ 0
  pub aligned : (d.rsp + 8) % 16 ≡ 0
  pub pushed : d.rsp + 8 ≡ c.rsp
  pub argc_there : d.rdi ≡ argc
  pub argv_there : d.rsi ≡ c.rsp + 8
  pub wrote : Wrote w.memory d.rsp (word_bytes 8 return_address) w'.memory
  pub rest : w' ≡ record w { memory = w'.memory }

cut :
    (r : Run (Unit {0})) (k : Cmd (Unit {0}))
    → followed_by (followed_by {A = Unit {0}} {B = Unit {0}} r (λ _ _. out_of_fuel)) (λ _. k)
      ≡ followed_by r (λ _ _. out_of_fuel)
cut (ok a w) k = refl
cut (panicked w) k = refl
cut fault k = refl
cut out_of_fuel k = refl

enter-Enters :
    (w : World) (c : Cpu) (argc return_address : ℕ)
    → Execed w c argc
    → Returns (Enters w c argc return_address) (enter return_address c w)
unfolding enter
enter-Enters w c argc return_address x =
    let al = x.aligned in
    let lo = x.above in
    let hi = x.in_space in
    let top : c.rsp / 16 * 16 ≡ c.rsp = omega arith in
    let below : u64 (c.rsp + 2 ^ 64 - 8) ≡ c.rsp - 8 = omega arith in
    let (m, runs, wrote) = store_word-Writes 8 return_address w (c.rsp - 8) x.room in
    rw (top, below, load_word-ok 8 argc w (word c.rsp) x.counted x.small, runs)
      (returns (record {
        outermost = refl;
        aligned = omega arith;
        pushed = omega arith;
        argc_there = refl;
        argv_there = omega arith;
        wrote = wrote;
        rest = refl;
      }))

rounds_stay :
    (e : Machine) (k : Cmd (Unit {0})) (n : ℕ) (v : World)
    → followed_by (rounds_from_there e n v) (λ _. k) ≡ rounds_from_there e n v
rounds_stay e k n v = cut (service_rounds e n v) k

-- With the kernel laws, the stack as exec leaves it and the locals mapped, the instructions up to
-- the call zero rbp, load argc and the address of argv as the arguments, align the stack for a
-- callee, and write the return address and nothing else. From the state that they leave, the entry
-- point leads to the service loop or to a death as `julius_start` does; the exit call behind it is
-- never made.
pub start-Leads :
    (e : Machine) (laws : XnuLaws e.kernel) (ports : PortLaws e.kernel) (w : World) (c : Cpu)
    (argc return_address : ℕ)
    → Execed w c argc
    → IsReady e.frame w.memory
    → (d : Cpu) × (w' : World) × (enter return_address c w ≡ ok d w')
      × Enters w c argc return_address d w'
      × Leads (IsServing e w') (Died e w') (rounds_from_there e) (λ n. start e return_address n c w)
unfolding start call_julius_start
start-Leads e laws ports w c argc return_address x ready =
    go (enter return_address c w) refl (enter-Enters w c argc return_address x)
  where
    go :
        (r : Run Cpu)
        → enter return_address c w ≡ r
        → Returns (Enters w c argc return_address) r
        → (d : Cpu) × (w' : World) × (enter return_address c w ≡ ok d w')
          × Enters w c argc return_address d w'
          × Leads (IsServing e w') (Died e w') (rounds_from_there e) (λ n.
            followed_by
              (enter return_address c w)
              λ _. julius_start e n >> (syscall e (regs1 sys_exit (word 0)) >> λ w. panicked w))
    go (ok d w') runs (returns p) = (
      d,
      w',
      runs,
      p,
      rw runs (
          behind-Leads (syscall e (regs1 sys_exit (word 0)) >> λ w. panicked w) (rounds_stay e _) (
            julius_start-Leads e laws ports w'
              (IsReady-Grows e.frame w.memory w'.memory p.wrote.grows ready))),
    )
    go (panicked v) runs (panics f) = absurd f
    go fault runs p = elim p [ ]
    go out_of_fuel runs p = elim p [ ]
