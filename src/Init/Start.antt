-- ===== src/Init/Start.antt =====
-- The start of PID 1 as a run that stands.
use ajulius.Prelude.{ℕ}
use ajulius.Machine.{Machine, World, Run, panicked, out_of_fuel, followed_by}
use ajulius.Outcome.Returns.{Returns, returns, panics}
use ajulius.Init.{julius_start}
use ajulius.Init.Says.{IsReady}
use ajulius.Init.Leads.{Leads, reaches, dies}
use ajulius.Init.Deaths.{Died}
use ajulius.Init.Boot.{IsServing, rounds_from_there, julius_start-Leads}
use ajulius.Xnu.{XnuLaws, PortLaws}

-- The run stands, in the service loop or at the undefined instruction: it has neither returned nor
-- faulted.
pub data Stands {A : Type 0} (Q : World → Type 0) : Run A → Type 0 where
  serving : Stands Q out_of_fuel
  died : {w : World} → Q w → Stands Q (panicked w)

loop-Stands :
    {A B : Type 0} {P : A → World → Type 0} {Q : World → Type 0} {r : Run A}
    → Returns P r
    → Stands {A = B} Q (followed_by r λ _ _. out_of_fuel)
loop-Stands (returns p) = serving
loop-Stands (panics f) = absurd f

Leads-Stands :
    (e : Machine) (w : World) {Q : World → Type 0} {run : ℕ → Run (Unit {0})} (n : ℕ)
    → Leads (IsServing e w) Q (rounds_from_there e) run
    → Stands Q (run n)
Leads-Stands e w n (reaches s) = loop-Stands (s.serves n)
Leads-Stands e w n (dies q) = died q

-- With the kernel laws and the locals mapped, for any number of rounds of the service loop,
-- `julius_start` neither returns nor faults: after those rounds it is in the loop, or it has
-- panicked after the kernel refused the heap, a port, the send right, or memory for the
-- self-test.
pub julius_start-Stands :
    (e : Machine) (laws : XnuLaws e.kernel) (ports : PortLaws e.kernel) (n : ℕ) (w : World)
    → IsReady e.frame w.memory
    → Stands (Died e w) (julius_start e n w)
julius_start-Stands e laws ports n w ready =
    Leads-Stands e w n (julius_start-Leads e laws ports w ready)
