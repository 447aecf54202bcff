-- ===== src/Examples/Init.antt =====
-- PID 1 at concrete inputs.
use ajulius.Outcome.Returns.{Ends, Returns}
use ajulius.Init.{setup_bootstrap_port, service_round, service_rounds, julius_start}
use ajulius.Prelude.{refl, arith}
use ajulius.Machine.{World, ok}
use ajulius.Machine.Words.{word_bytes}
use ajulius.Examples.Demo.{page-MappedRange}
use ajulius.Init.Entry
use ajulius.Init.Entry.{enter, Cpu, Execed, Enters, start-Leads}
use ajulius.Init.Protocol.{Delivery}
use ajulius.Init.Ports.{Established, NotEstablished}
use ajulius.Init.Bootstrap.{setup_bootstrap_port-Established}
use ajulius.Init.Service.{Rounds, ServesAll, service_round-Rounds, service_rounds-Serves}
use ajulius.Init.Leads.{Leads}
use ajulius.Init.Deaths.{Died}
use ajulius.Init.Boot.{IsServing, rounds_from_there, julius_start-Leads}
use ajulius.Prelude.{◌≡◌}
use ajulius.Examples.Demo.{demo, demo_laws, demo-PortLaws, start, start-IsReady}

setup_bootstrap_port-Established_example :
    Ends (λ _. Established demo start) (NotEstablished demo start) (setup_bootstrap_port demo start)
setup_bootstrap_port-Established_example =
    setup_bootstrap_port-Established demo demo_laws demo-PortLaws start start-IsReady

service_round-Rounds_example :
    Returns (λ _ w'. (d : Delivery) × Rounds demo d start w') (service_round demo start)
service_round-Rounds_example = service_round-Rounds demo demo_laws demo-PortLaws start start-IsReady

service_rounds-Serves_example : Returns (λ _. ServesAll demo 3 start) (service_rounds demo 3 start)
service_rounds-Serves_example =
    service_rounds-Serves demo demo_laws demo-PortLaws 3 start start-IsReady

julius_start-Leads_example :
    Leads
      (IsServing demo start)
      (Died demo start)
      (rounds_from_there demo)
      (λ n. julius_start demo n start)
julius_start-Leads_example = julius_start-Leads demo demo_laws demo-PortLaws start start-IsReady

-- The registers and the stack of a process that was just started.
abbrev fresh : Cpu
fresh = record { rbp = 0x1234; rsp = 8000; rdi = 1; rsi = 2 }

fresh-Execed : Execed start fresh 0
unfolding word_bytes
fresh-Execed = record {
  aligned = refl;
  above = omega arith;
  in_space = omega arith;
  counted = (refl, (refl, (refl, (refl, (refl, (refl, (refl, (refl, tt))))))));
  small = omega arith;
  room = page-MappedRange 7992 8 (omega arith) (omega arith);
}

start-Leads_example :
    (d : Cpu) × (w : World) × (enter 0x1000 fresh start ≡ ok d w)
    × Enters start fresh 0 0x1000 d w
    × Leads
        (IsServing demo w)
        (Died demo w)
        (rounds_from_there demo)
        (λ n. Entry.start demo 0x1000 n fresh start)
start-Leads_example =
    start-Leads demo demo_laws demo-PortLaws start fresh 0 0x1000 fresh-Execed start-IsReady
