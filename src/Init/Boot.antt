-- ===== src/Init/Boot.antt =====
-- The start of PID 1 up to its service loop, phase by phase.
use ajulius.Prelude.{◌++◌, List, ℕ, ◌≡◌, ◌∙◌, refl, arith}
use ajulius.Machine.{◌>>=◌, ◌>>◌, text, Machine, World, Cmd, out_of_fuel, followed_by}
use ajulius.Outcome.Returns
use ajulius.Outcome.Returns.{Ends, Returns, returns, panics}
use ajulius.Io.{julius_puts}
use ajulius.Syscall.{julius_mach_task_self}
use ajulius.Trace.{Act, Shows, Shows-append}
use ajulius.Init.Report.{opening, self_line, announcement, boot_report}
use ajulius.Heap.Region.{Initialised, julius_mem_init-Initialised}
use ajulius.Init.Leads.{Leads, reaches, then-Leads, on-Leads}
use ajulius.Init.Deaths.{Died, introduced-Shows, NoHeap-Died, NotEstablished-Died, NoMemory-Died}
use ajulius.Init.{
  banner, put_value, setup_bootstrap_port, service_rounds, service_loop, self_test, julius_start,
}
use ajulius.Init.Says.{Steady, Steady-trans, IsReady, IsReady-Grows, puts-Steady, put_value-Steady}
use ajulius.Init.Bootstrap.{setup_bootstrap_port-Established}
use ajulius.Init.Ports.{registration, Established, Established-port, task_self-Steady}
use ajulius.Init.Service.{ServesAll, service_rounds-Serves}
use ajulius.Init.Protocol.{server}
use ajulius.Init.Up.{IsUp, IsUp-Steady, Initialised-IsUp, Established-IsUp}
use ajulius.Init.SelfTest.{Tested, self_test-Tested}
use ajulius.Xnu.{XnuLaws, PortLaws}

-- The phases of the start, with nothing but output between them: the heap, the bootstrap port, the
-- self-test.
pub record Boots (e : Machine) (w v : World) : Type 0 where
  pub greeted : World
  pub greets : Steady opening w greeted
  pub heap_there : World
  pub initialised : Initialised e greeted heap_there
  pub self : ℕ
  pub introduced : World
  pub introduces : Steady (self_line self) heap_there introduced
  pub set_up : World
  pub established : Established e introduced set_up
  pub tested : World
  pub test : Tested e set_up tested
  pub announces : Steady announcement tested v

-- What such a start has shown.
abbrev pub boot_shown : (e : Machine) (w v : World) → Boots e w v → List Act
boot_shown e w v b =
    boot_report b.heap_there.heap_base b.self b.established.name
      (registration e b.introduced b.set_up b.established) b.test.start

-- The service loop for a number of rounds, without what it prints first.
abbrev pub rounds_from_there : Machine → ℕ → Cmd (Unit {0})
rounds_from_there e n w = followed_by (service_rounds e n w) λ _ _. out_of_fuel

-- In `v`, PID 1 serves the port that the kernel named: whatever the number of rounds, they end, and
-- all that was shown since `w` is the start's report, followed by the server's trace of the
-- deliveries.
pub record IsServing (e : Machine) (w v : World) : Type 0 where
  pub boots : Boots e w v
  pub port : v.g_bootstrap_port ≡ boots.established.name
  pub serves :
      (n : ℕ)
      → Returns
          (λ _ u.
            (s : ServesAll e n v u) × Shows
              (boot_shown e w v boots ++ server s.deliveries)
              w.calls
              u.calls)
          (service_rounds e n v)

module _ (e : Machine) (laws : XnuLaws e.kernel) (ports : PortLaws e.kernel) where
  Boots-IsServing : (w v : World) → Boots e w v → IsServing e w v
  Boots-IsServing w v b =
      let (port, told) = Established-port e laws ports b.introduced b.set_up b.established in
      let so_far : Shows (boot_shown e w v b) w.calls v.calls =
        introduced-Shows e laws ports w b.greeted b.heap_there b.introduced b.self v.calls b.greets
          b.initialised b.introduces
          (Shows-append told (Shows-append b.test.shows b.announces.shows)) in
      let ready = IsReady-Grows e.frame b.tested.memory v.memory b.announces.grows b.test.ready in
      record {
        boots = b;
        port = b.announces.port ∙ b.test.port ∙ port;
        serves = λ n.
            Returns.mono (service_rounds-Serves e laws ports n v ready)
              λ _ u s. (s, Shows-append so_far s.steady.shows);
      }

  ending :
      (w greeted heap_there introduced set_up : World) (self : ℕ)
      → Steady opening w greeted
      → Initialised e greeted heap_there
      → Steady (self_line self) heap_there introduced
      → Established e introduced set_up
      → IsUp e set_up
      → Leads (IsServing e w) (Died e w) (rounds_from_there e) λ n.
        ((do
          self_test e
          julius_puts e (text "\r\ninit: all systems nominal. JULIUS OS is alive.\r\n\r\n" 0)
          service_loop e n)
          set_up)
  unfolding service_loop
  ending w w1 w2 w3 w4 self q i p s u =
      then-Leads
        (Returns.widen (self_test-Tested e laws ports w4 u)
          λ w' f. NoMemory-Died e laws ports w w1 w2 w3 w4 w' self q i p s f)
        λ _ w5 t.
          on-Leads
            (puts-Steady e laws w5 "\r\ninit: all systems nominal. JULIUS OS is alive.\r\n\r\n" refl
              (omega arith))
            λ _ w6 q6.
              on-Leads
                (puts-Steady e laws w6 "init: entering service loop (waiting for Mach messages)\r\n"
                  refl (omega arith))
                λ _ w7 q7. reaches (
                  Boots-IsServing w w7 (record {
                    greeted = w1;
                    greets = q;
                    heap_there = w2;
                    initialised = i;
                    self = self;
                    introduced = w3;
                    introduces = p;
                    set_up = w4;
                    established = s;
                    tested = w5;
                    test = t;
                    announces = Steady-trans w5 w6 w7 q6 q7;
                  }))

  booted :
      (w greeted heap_there : World)
      → Steady opening w greeted
      → Initialised e greeted heap_there
      → IsUp e heap_there
      → Leads (IsServing e w) (Died e w) (rounds_from_there e) λ n.
        ((do
          self ← julius_mach_task_self e
          put_value e "init: mach_task_self() = " self
          setup_bootstrap_port e
          self_test e
          julius_puts e (text "\r\ninit: all systems nominal. JULIUS OS is alive.\r\n\r\n" 0)
          service_loop e n)
          heap_there)
  booted w w1 w2 q i u = on-Leads (task_self-Steady e laws w2) λ self w3 (small, q3).
      let u3 = IsUp-Steady e w2 w3 q3 u in
      on-Leads
        (put_value-Steady e laws w3 "init: mach_task_self() = " self
          (record { clean = refl; short = omega arith }) u3.ready.buffers (omega arith))
        λ _ w4 q4.
          let u4 = IsUp-Steady e w3 w4 q4 u3 in
          then-Leads
            (Returns.widen (setup_bootstrap_port-Established e laws ports w4 u4.ready) λ w' f.
              NotEstablished-Died e laws ports w w1 w2 w4 w' self q i (Steady-trans w2 w3 w4 q3 q4)
                f)
            λ _ w5 s.
              ending w w1 w2 w4 w5 self q i (Steady-trans w2 w3 w4 q3 q4) s
                (Established-IsUp e laws ports w4 w5 s u4)

  -- With the kernel laws and the locals mapped, `julius_start` sets up the heap and the
  -- bootstrap port, fills the self-test's block, and comes to the service loop; or it dies on the
  -- way, of what the kernel refused. All that it prints until then is one of the listed reports. In the loop it
  -- serves the port that the kernel named, and, for any number of rounds, all that it has printed
  -- and sent since the process started is, in order, the start's report and then what the protocol's
  -- server has for the deliveries of the kernel.
  pub julius_start-Leads :
      (w : World)
      → IsReady e.frame w.memory
      → Leads (IsServing e w) (Died e w) (rounds_from_there e) (λ n. julius_start e n w)
  unfolding julius_start
  julius_start-Leads w ready = on-Leads (puts-Steady e laws w banner refl (omega arith)) λ _ w1 q1.
      on-Leads (puts-Steady e laws w1 "init: PID 1 starting\r\n" refl (omega arith)) λ _ w2 q2.
        let q = Steady-trans w w1 w2 q1 q2 in
        let ready2 = IsReady-Grows e.frame w.memory w2.memory q.grows ready in
        then-Leads
          (Returns.widen (julius_mem_init-Initialised e laws w2 ready2.buffers)
            λ w' f. NoHeap-Died e laws ports w w2 w' q f)
          λ _ w3 i. booted w w2 w3 q i (Initialised-IsUp e w2 w3 ready2 i)
