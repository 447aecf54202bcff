-- ===== src/Init/Deaths.antt =====
-- The deaths of PID 1 during its start, and what it has shown by then.
use ajulius.Prelude.{◌++◌, ◌⊎◌, List, ℕ, inl, inr}
use ajulius.Machine.{Call, Machine, World}
use ajulius.Trace.{Act, Shows, Shows-append, PrintsPanic-Shows, panic_report}
use ajulius.Init.Report.{opening, self_line, LastWords, no_heap, no_port, no_right, no_memory}
use ajulius.Heap.Region.{NoHeap, heap_report, Initialised}
use ajulius.Init.Says.{Steady}
use ajulius.Init.Ports.{NotEstablished, registration, Established, Established-port}
use ajulius.Init.SelfTest.{NoMemory}
use ajulius.Xnu.{XnuLaws, PortLaws}

-- The process has died of what the kernel refused, the heap, a port, the send right, or memory, and
-- this is all that it has shown.
pub record Died (e : Machine) (w w' : World) : Type 0 where
  pub before : World
  pub cause : NoHeap e before w' ⊎ NotEstablished e before w' ⊎ NoMemory e before w'
  pub words : List Act
  pub last : LastWords words
  pub shows : Shows words w.calls w'.calls

module _ (e : Machine) (laws : XnuLaws e.kernel) (ports : PortLaws e.kernel) where
  -- What was shown up to the bootstrap port, and then something more.
  pub introduced-Shows :
      {acts : List Act} (w w1 w2 w3 : World) (self : ℕ) (cs : List Call)
      → Steady opening w w1
      → Initialised e w1 w2
      → Steady (self_line self) w2 w3
      → Shows acts w3.calls cs
      → Shows (opening ++ (heap_report w2.heap_base ++ (self_line self ++ acts))) w.calls cs
  introduced-Shows w w1 w2 w3 self cs q i p more =
      Shows-append q.shows (Shows-append i.shows (Shows-append p.shows more))

  -- The deaths on the way, each with all that was shown.
  pub NoHeap-Died : (w w1 w' : World) → Steady opening w w1 → NoHeap e w1 w' → Died e w w'
  NoHeap-Died w w1 w' q f = record {
    before = w1;
    cause = inl f;
    words = opening ++ panic_report "mem_init: mach_vm_allocate failed";
    last = no_heap;
    shows = Shows-append q.shows (
        Shows-append f.quiet
          (PrintsPanic-Shows e "mem_init: mach_vm_allocate failed" f.at w' f.prints));
  }

  pub NotEstablished-Died :
      (w w1 w2 w3 w' : World) (self : ℕ)
      → Steady opening w w1
      → Initialised e w1 w2
      → Steady (self_line self) w2 w3
      → NotEstablished e w3 w'
      → Died e w w'
  NotEstablished-Died w w1 w2 w3 w' self q i p (inl f) = record {
    before = w3;
    cause = inr (inl (inl f));
    words = _;
    last = no_port w2.heap_base self f.kr f.failed;
    shows = introduced-Shows w w1 w2 w3 self w'.calls q i p f.shows;
  }
  NotEstablished-Died w w1 w2 w3 w' self q i p (inr (name, f)) = record {
    before = w3;
    cause = inr (inl (inr (name, f)));
    words = _;
    last = no_right w2.heap_base self name f.kr f.failed;
    shows = introduced-Shows w w1 w2 w3 self w'.calls q i p f.shows;
  }

  pub NoMemory-Died :
      (w w1 w2 w3 w4 w' : World) (self : ℕ)
      → Steady opening w w1
      → Initialised e w1 w2
      → Steady (self_line self) w2 w3
      → Established e w3 w4
      → NoMemory e w4 w'
      → Died e w w'
  NoMemory-Died w w1 w2 w3 w4 w' self q i p s f =
      let (port, told) = Established-port e laws ports w3 w4 s in
      record {
        before = w4;
        cause = inr (inr f);
        words = _;
        last = no_memory w2.heap_base self s.name (registration e w3 w4 s);
        shows = introduced-Shows w w1 w2 w3 self w'.calls q i p (
            Shows-append told (
              Shows-append f.quiet
                (PrintsPanic-Shows e "self-test: malloc returned NULL" f.at w' f.prints)));
      }
