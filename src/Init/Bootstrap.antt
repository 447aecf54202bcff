-- ===== src/Init/Bootstrap.antt =====
-- The bootstrap port: allocated, given a send right, registered, and kept.
use ajulius.Prelude.{
  ◌∷◌, [], ℕ, ◌<◌, ◌≡◌, refl, ◌^◌, inl, inr, ◌==◌, if◌then◌else◌, Bool-cases, ==→eq, ==→ne, arith,
}
use ajulius.Types.{mach_port_right_receive, mach_msg_type_make_send}
use ajulius.Machine.{word, text, Machine, World, syscall, pure, ◌>>=◌, ◌>>◌}
use ajulius.Outcome.Returns
use ajulius.Outcome.Returns.{Ends, Returns, returns}
use ajulius.Machine.Words.{load_word-ok}
use ajulius.Syscall.{trap_mach_port_allocate, julius_syscall2, julius_syscall3, julius_syscall4}
use ajulius.Mach.{
  sys_mach_port_insert_right, julius_port_allocate, julius_port_insert_right,
  julius_task_set_bootstrap_port,
}
use ajulius.Init.{put_value, check_fatal, allocate_port, setup_bootstrap_port}
use ajulius.Heap.{modify}
use ajulius.Io.{julius_puts}
use ajulius.Trace.{says, Shows-append}
use ajulius.Init.Says.{
  Fatal-before, value_line, Steady, Steady-refl, Steady-trans, IsReady, IsReady-Grows, Fatal,
  puts-Steady, put_value-Steady, check_fatal-Fatal,
}
use ajulius.Xnu.{XnuLaws, PortLaws}
use ajulius.Init.Report.{warning}
use ajulius.Init.Ports.{
  Allocated, Allocated-Steady, Established, NotEstablished, allocate-Steady, allocate_regs, answer,
  called, called-Denied, insert-Steady, insert_regs, set-Steady, set_regs, task_self-Steady,
  with_port, with_port-Steady,
}

module _ (e : Machine) (laws : XnuLaws e.kernel) (ports : PortLaws e.kernel) where
  allocate_port-Allocated :
      (w : World) (task : ℕ)
      → IsReady e.frame w.memory
      → Ends
          (λ name. Allocated e w task name)
          (Fatal e
            (says "init: allocating bootstrap receive port...\r\n" ∷ [])
            trap_mach_port_allocate
            "init: FATAL: port_allocate failed, kr="
            "cannot allocate bootstrap port"
            w)
          (allocate_port e task w)
  unfolding allocate_port julius_port_allocate julius_syscall3 syscall check_fatal
  allocate_port-Allocated w task ready =
      Returns.and_then
        (puts-Steady e laws w "init: allocating bootstrap receive port...\r\n" refl (omega arith))
        λ _ v q.
          let u = called e v (allocate_regs e task) in
          let kr = answer e v (allocate_regs e task) in
          let ready1 = IsReady-Grows e.frame w.memory v.memory q.grows ready in
          let q2 = allocate-Steady e laws ports v task in
          let ready2 = IsReady-Grows e.frame v.memory u.memory q2.grows ready1 in
          elim (Bool-cases (kr == 0)) [
            | inl z ↦
                let (name, small, stored) =
                  ports.port_allocate_name v.calls (word task) (word mach_port_right_receive)
                    e.frame.port_name v.memory ready1.name_mapped (==→eq kr 0 z) in
                rw (z, load_word-ok 4 name u (word e.frame.port_name) stored (omega arith))
                  (returns (record {
                    before = v;
                    quiet = q;
                    agreed = ==→eq kr 0 z;
                    small = small;
                    stored = stored;
                    after = refl;
                  }))
            | inr nz ↦ Returns.never_returns _ (
                Returns.widen
                  (check_fatal-Fatal e laws u trap_mach_port_allocate kr
                    "init: FATAL: port_allocate failed, kr=" "cannot allocate bootstrap port"
                    (==→ne kr 0 nz) (omega arith)
                    (called-Denied e v (allocate_regs e task) trap_mach_port_allocate refl)
                    (record { clean = refl; short = omega arith })
                    (record { clean = refl; short = omega arith }) ready2.buffers)
                  λ w' f. Fatal-before e _ _ _ w u w' (Shows-append q.shows q2.shows) f)
          ]

  -- The registration, which the kernel may refuse, and the assignment to `g_bootstrap_port`.
  register-Established :
      (w owned between : World) (task name : ℕ)
      → Allocated e w task name owned
      → Steady (value_line "init: bootstrap receive port = " name) owned between
      → answer e between (insert_regs task name) ≡ 0
      → IsReady e.frame between.memory
      → Returns
          (λ _. Established e w)
          ((do
            kr ← julius_task_set_bootstrap_port e task name
            if kr == 0
                then pure tt
                else put_value e "init: WARNING: task_set_bootstrap_port failed, kr=" kr
            modify λ (u : World). record u { g_bootstrap_port = name }
            julius_puts e (text "init: bootstrap port established\r\n" 0)
            pure tt)
            (called e between (insert_regs task name)))
  unfolding julius_task_set_bootstrap_port julius_syscall2 syscall
  register-Established w owned between task name a said inserted ready =
      let x = called e between (insert_regs task name) in
      let u = called e x (set_regs task name) in
      let kr = answer e x (set_regs task name) in
      let q =
        Steady-trans between x u (insert-Steady e laws ports between task name)
          (set-Steady e laws ports x task name) in
      let ready1 = IsReady-Grows e.frame between.memory u.memory q.grows ready in
      Returns.bind (warned u kr ready1 (omega arith)) λ _ v q1.
        Returns.bind
          (puts-Steady e laws (with_port v name) "init: bootstrap port established\r\n" refl
            (omega arith))
          λ _ w' q2. returns (record {
            task = task;
            name = name;
            owned = owned;
            allocated = a;
            between = between;
            said = said;
            inserted = inserted;
            kept =
                Steady-trans (with_port u name) (with_port v name) w' (with_port-Steady u v name q1)
                  q2;
          })
    where
      warned :
          (u : World) (kr : ℕ)
          → IsReady e.frame u.memory
          → kr < 2 ^ 32
          → Returns
              (λ _. Steady (warning kr) u)
              ((if kr == 0
                  then pure tt
                  else put_value e "init: WARNING: task_set_bootstrap_port failed, kr=" kr)
                u)
      warned u kr ready small = elim (Bool-cases (kr == 0)) [
        | inl z ↦ rw z (returns (Steady-refl u))
        | inr nz ↦ rw nz (
            put_value-Steady e laws u "init: WARNING: task_set_bootstrap_port failed, kr=" kr
              (record { clean = refl; short = omega arith }) ready.buffers (omega arith))
      ]

  insert-Established :
      (w owned between : World) (task name : ℕ)
      → Allocated e w task name owned
      → Steady (value_line "init: bootstrap receive port = " name) owned between
      → IsReady e.frame between.memory
      → Ends
          (λ _. Established e w)
          (NotEstablished e w)
          ((do
            kr ← julius_port_insert_right e task name name mach_msg_type_make_send
            check_fatal e kr "init: FATAL: port_insert_right failed, kr=" "cannot insert send right"
            kr' ← julius_task_set_bootstrap_port e task name
            if kr' == 0
                then pure tt
                else put_value e "init: WARNING: task_set_bootstrap_port failed, kr=" kr'
            modify λ (u : World). record u { g_bootstrap_port = name }
            julius_puts e (text "init: bootstrap port established\r\n" 0)
            pure tt)
            between)
  unfolding julius_port_insert_right julius_syscall4 syscall check_fatal
  insert-Established w owned between task name a said ready =
      let kr = answer e between (insert_regs task name) in
      let u = called e between (insert_regs task name) in
      let q = insert-Steady e laws ports between task name in
      let ready1 = IsReady-Grows e.frame between.memory u.memory q.grows ready in
      elim (Bool-cases (kr == 0)) [
        | inl z ↦ rw z (
            Returns.widen
              (register-Established w owned between task name a said (==→eq kr 0 z) ready)
              λ w' f. absurd f)
        | inr nz ↦ Returns.never_returns _ (
            Returns.widen
              (check_fatal-Fatal e laws u sys_mach_port_insert_right kr
                "init: FATAL: port_insert_right failed, kr=" "cannot insert send right"
                (==→ne kr 0 nz) (omega arith)
                (called-Denied e between (insert_regs task name) sys_mach_port_insert_right refl)
                (record { clean = refl; short = omega arith })
                (record { clean = refl; short = omega arith }) ready1.buffers)
              λ w' f.
                let qa = Allocated-Steady e laws ports w task name owned a in
                inr (
                  name,
                  Fatal-before e _ _ _ w u w'
                      (Shows-append qa.shows (Shows-append said.shows q.shows)) f,
                ))
      ]

  -- With the kernel laws and the locals mapped, `setup_bootstrap_port` ends. Either a port was
  -- allocated, a make-send right inserted under its name, the port registered, whatever the kernel
  -- answered to that, `g_bootstrap_port` is the name the kernel stored, and each step was printed,
  -- with a warning if the registration was denied; or the kernel denied the port or the right, and
  -- the process has panicked, after it printed the steps until then and the kernel's answer.
  pub setup_bootstrap_port-Established :
      (w : World)
      → IsReady e.frame w.memory
      → Ends (λ _. Established e w) (NotEstablished e w) (setup_bootstrap_port e w)
  unfolding setup_bootstrap_port
  setup_bootstrap_port-Established w ready =
      Returns.and_then (task_self-Steady e laws w) λ task w1 (small, q1).
        let ready1 = IsReady-Grows e.frame w.memory w1.memory q1.grows ready in
        Returns.bind
          (Returns.widen (allocate_port-Allocated w1 task ready1)
            (λ w' f. inl (Fatal-before e _ _ _ w w1 w' q1.shows f)))
          λ name owned a.
            let qa = Allocated-Steady e laws ports w1 task name owned a in
            let ready2 = IsReady-Grows e.frame w1.memory owned.memory qa.grows ready1 in
            Returns.and_then
              (put_value-Steady e laws owned "init: bootstrap receive port = " name
                (record { clean = refl; short = omega arith }) ready2.buffers
                (omega (arith, a.small)))
              λ _ v q2.
                let ready3 = IsReady-Grows e.frame owned.memory v.memory q2.grows ready2 in
                insert-Established w owned v task name (since w w1 task name owned q1 a) q2 ready3
    where
      since :
          (w w1 : World) (task name : ℕ) (owned : World)
          → Steady [] w w1
          → Allocated e w1 task name owned
          → Allocated e w task name owned
      since w w1 task name owned q a = record {
        before = a.before;
        quiet = Steady-trans w w1 a.before q a.quiet;
        agreed = a.agreed;
        small = a.small;
        stored = a.stored;
        after = a.after;
      }
