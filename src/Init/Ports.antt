-- ===== src/Init/Ports.antt =====
-- The port calls of the set-up: their registers, and what they leave alone.
use ajulius.Prelude.{List, [], ◌∷◌, ◌++◌, ℕ, ◌<◌, ◌≡◌, refl, ◌^◌, ◌⊎◌, arith}
use ajulius.Types.{mach_port_right_receive, mach_msg_type_make_send}
use ajulius.Machine.{word, Regs, Machine, World, syscall}
use ajulius.Machine.Memory.{Holds}
use ajulius.Outcome.Returns.{Returns, returns}
use ajulius.Machine.Words.{word_bytes}
use ajulius.Syscall.{
  regs0, regs2, regs3, regs4, trap_task_self_trap, trap_mach_port_allocate, julius_syscall0,
  julius_mach_task_self,
}
use ajulius.Mach.{sys_mach_port_insert_right, trap_task_set_bootstrap}
use ajulius.Mach.Send.{after_call, call_result}
use ajulius.Trace.{Act, says, Shows, Shows-append, mach_trap-IsSilent, bsd_syscall-IsSilent}
use ajulius.Init.Report.{port_lines, set_report}
use ajulius.Init.Says.{value_line, Steady, Steady-trans, call-Steady, Denied, Fatal}
use ajulius.Xnu.{XnuLaws, PortLaws}

abbrev pub allocate_regs : Machine → ℕ → Regs
allocate_regs e task =
    regs3 trap_mach_port_allocate (word task) (word mach_port_right_receive)
      (word e.frame.port_name)

abbrev pub insert_regs : ℕ → ℕ → Regs
insert_regs task name =
    regs4 sys_mach_port_insert_right (word task) (word name) (word name)
      (word mach_msg_type_make_send)

abbrev pub set_regs : ℕ → ℕ → Regs
set_regs task name = regs2 trap_task_set_bootstrap (word task) (word name)

-- The world after one call of the kernel.
abbrev pub called : Machine → World → Regs → World
called e w r = after_call e w r w.memory

-- What the kernel answers to a call.
abbrev pub answer : Machine → World → Regs → ℕ
answer e w r = call_result e w r w.memory

abbrev pub with_port : World → ℕ → World
with_port w name = record w { g_bootstrap_port = name }

-- A port allocated: from a steady start the kernel was asked once, agreed, and stored the name.
pub record Allocated (e : Machine) (w : World) (task name : ℕ) (w' : World) : Type 0 where
  pub before : World
  pub quiet : Steady (says "init: allocating bootstrap receive port...\r\n" ∷ []) w before
  pub agreed : answer e before (allocate_regs e task) ≡ 0
  pub small : name < 2 ^ 32
  pub stored :
      Holds
        (called e before (allocate_regs e task)).memory
        (word e.frame.port_name)
        (word_bytes 4 name)
  pub after : w' ≡ called e before (allocate_regs e task)

-- The set-up went through: the port allocated, then a send right inserted under the same name, then
-- the port registered, whatever the kernel answered to that; then the name was kept.
pub record Established (e : Machine) (w w' : World) : Type 0 where
  pub task : ℕ
  pub name : ℕ
  pub owned : World
  pub allocated : Allocated e w task name owned
  pub between : World
  pub said : Steady (value_line "init: bootstrap receive port = " name) owned between
  pub inserted : answer e between (insert_regs task name) ≡ 0
  pub kept :
      Steady
        (set_report (answer e (called e between (insert_regs task name)) (set_regs task name)))
        (with_port (called e (called e between (insert_regs task name)) (set_regs task name)) name)
        w'

-- The kernel's answer to the registration.
abbrev pub registration : (e : Machine) (w w' : World) → Established e w w' → ℕ
registration e w w' s =
    answer e (called e s.between (insert_regs s.task s.name)) (set_regs s.task s.name)

-- Why it did not.
abbrev pub NotEstablished : Machine → World → World → Type 0
NotEstablished e w w' =
    Fatal e (says "init: allocating bootstrap receive port...\r\n" ∷ []) trap_mach_port_allocate
      "init: FATAL: port_allocate failed, kr=" "cannot allocate bootstrap port" w w'
    ⊎ ((name : ℕ) × Fatal e (port_lines name) sys_mach_port_insert_right
          "init: FATAL: port_insert_right failed, kr=" "cannot insert send right" w w')

pub with_port-Steady :
    {acts : List Act} (w v : World) (name : ℕ)
    → Steady acts w v
    → Steady acts (with_port w name) (with_port v name)
with_port-Steady w v name q = record {
  grows = q.grows;
  base = q.base;
  end = q.end;
  ptr = q.ptr;
  port = refl;
  shows = q.shows;
}

pub called-Denied :
    (e : Machine) (w : World) (r : Regs) (nr : ℕ)
    → r.rax ≡ nr
    → Denied e nr (answer e w r) (called e w r)
called-Denied e w r nr asked = record {
  call = record { regs = r; seen = w.memory };
  before = w.calls;
  last = refl;
  asked = asked;
  answered = refl;
}

module _ (e : Machine) (laws : XnuLaws e.kernel) (w : World) where
  pub task_self-Steady : Returns (λ v w'. (v < 2 ^ 32) × Steady [] w w') (julius_mach_task_self e w)
  unfolding julius_mach_task_self julius_syscall0 syscall
  task_self-Steady =
      let same = laws.task_self_keeps w.calls (regs0 trap_task_self_trap) w.memory refl in
      returns (
        omega arith,
        call-Steady e w (regs0 trap_task_self_trap)
            (mach_trap-IsSilent 28 _ (omega arith) (omega arith) (omega arith) refl)
            (λ x h. rw same h),
      )

module _ (e : Machine) (laws : XnuLaws e.kernel) (ports : PortLaws e.kernel) where
  pub allocate-Steady : (w : World) (task : ℕ) → Steady [] w (called e w (allocate_regs e task))
  allocate-Steady w task =
      call-Steady e w (allocate_regs e task)
        (mach_trap-IsSilent 16 _ (omega arith) (omega arith) (omega arith) refl)
        (ports.port_allocate_grows w.calls (allocate_regs e task) w.memory refl)

  pub insert-Steady : (w : World) (task name : ℕ) → Steady [] w (called e w (insert_regs task name))
  insert-Steady w task name =
      let same = ports.insert_right_keeps w.calls (insert_regs task name) w.memory refl in
      call-Steady e w (insert_regs task name)
        (bsd_syscall-IsSilent 0x218 _ (omega arith) (omega arith) refl) (λ x h. rw same h)

  pub set-Steady : (w : World) (task name : ℕ) → Steady [] w (called e w (set_regs task name))
  set-Steady w task name =
      let same = ports.set_bootstrap_keeps w.calls (set_regs task name) w.memory refl in
      call-Steady e w (set_regs task name)
        (mach_trap-IsSilent 88 _ (omega arith) (omega arith) (omega arith) refl) (λ x h. rw same h)

  pub Allocated-Steady :
      (w : World) (task name : ℕ) (w' : World)
      → Allocated e w task name w'
      → Steady (says "init: allocating bootstrap receive port...\r\n" ∷ []) w w'
  Allocated-Steady w task name w' a = rw a.after (
      Steady-trans w a.before (called e a.before (allocate_regs e task)) a.quiet
        (allocate-Steady a.before task))

  -- What the set-up leaves and shows.
  pub Established-port :
      (w w' : World) (s : Established e w w')
      → (w'.g_bootstrap_port ≡ s.name)
        × Shows (port_lines s.name ++ set_report (registration e w w' s)) w.calls w'.calls
  Established-port w w' s =
      let x = called e s.between (insert_regs s.task s.name) in
      let q1 = Allocated-Steady w s.task s.name s.owned s.allocated in
      let q3 = insert-Steady s.between s.task s.name in
      let q4 = set-Steady x s.task s.name in
      (
        s.kept.port,
        Shows-append q1.shows (
            Shows-append s.said.shows (Shows-append q3.shows (Shows-append q4.shows s.kept.shows))),
      )
