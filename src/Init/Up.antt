-- ===== src/Init/Up.antt =====
-- The heap in order, and the locals mapped, from `julius_mem_init` to the self-test.
use ajulius.Prelude.{List, ℕ, ◌<◌, inr, [], arith}
use ajulius.Machine.{Machine, World}
use ajulius.Heap.Blocks.{Grows-IsHeap, IsHeap}
use ajulius.Heap.Region.{Initialised}
use ajulius.Trace.{Act}
use ajulius.Init.Says.{Steady, IsReady, IsReady-Grows}
use ajulius.Init.Ports.{
  Established, Allocated-Steady, insert-Steady, set-Steady, called, insert_regs, set_regs,
  with_port,
}
use ajulius.Xnu.{XnuLaws, PortLaws}

-- The heap is there and in order, and the locals can be written.
pub record IsUp (e : Machine) (w : World) : Type 0 where
  pub real : 0 < w.heap_base
  pub heap : IsHeap w []
  pub ready : IsReady e.frame w.memory

pub IsUp-Steady :
    {acts : List Act} (e : Machine) (w v : World) → Steady acts w v → IsUp e w → IsUp e v
IsUp-Steady e w v q u = record {
  real = rw q.base u.real;
  heap = Grows-IsHeap w v [] q.grows q.base q.end q.ptr u.heap;
  ready = IsReady-Grows e.frame w.memory v.memory q.grows u.ready;
}

IsUp-with_port : (e : Machine) (w : World) (name : ℕ) → IsUp e w → IsUp e (with_port w name)
IsUp-with_port e w name u = record {
  real = u.real;
  heap = record {
    real = u.heap.real;
    ordered = u.heap.ordered;
    in_space = u.heap.in_space;
    aligned = u.heap.aligned;
    free = u.heap.free;
    blocks = tt;
    apart = tt;
  };
  ready = u.ready;
}

pub Initialised-IsUp :
    (e : Machine) (w v : World) → IsReady e.frame w.memory → Initialised e w v → IsUp e v
Initialised-IsUp e w v ready i =
    let e1 = i.starts in
    let e2 = i.ends in
    let pos = i.real in
    record {
      real = i.real;
      heap = record {
        real = inr (omega arith);
        ordered = omega arith;
        in_space = i.in_space;
        aligned = omega (arith, i.aligned);
        free = λ x lo hi. i.mapped x (omega arith) (omega arith);
        blocks = tt;
        apart = tt;
      };
      ready = IsReady-Grows e.frame w.memory v.memory i.grows ready;
    }

module _ (e : Machine) (laws : XnuLaws e.kernel) (ports : PortLaws e.kernel) where
  pub Established-IsUp : (w w' : World) → Established e w w' → IsUp e w → IsUp e w'
  Established-IsUp w w' s u =
      let x = called e s.between (insert_regs s.task s.name) in
      let y = called e x (set_regs s.task s.name) in
      let u1 =
        IsUp-Steady e w s.owned (Allocated-Steady e laws ports w s.task s.name s.owned s.allocated)
          u in
      let u2 = IsUp-Steady e s.owned s.between s.said u1 in
      let u3 = IsUp-Steady e s.between x (insert-Steady e laws ports s.between s.task s.name) u2 in
      let u4 = IsUp-Steady e x y (set-Steady e laws ports x s.task s.name) u3 in
      IsUp-Steady e (with_port y s.name) w' s.kept (IsUp-with_port e y s.name u4)
