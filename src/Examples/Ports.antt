-- ===== src/Examples/Ports.antt =====
-- What the demonstration kernel answers to the port and message calls.
use ajulius.Prelude.{
  Bool-cases, inl, inr, ℕ, ◌+◌, ◌==◌, if◌then◌else◌, Option, some, List, [], ◌∷◌, arith,
}
use ajulius.Machine.{Value, word, Memory, Reply, update}
use ajulius.Machine.Memory.{Holds, Grows, Holds_same, Mapped-update, update_self, update_ne}
use ajulius.Machine.Words.{word_bytes}
use ajulius.Mach.{Header, mach_rcv_msg}
use ajulius.Mach.Message.{header_bytes}
use ajulius.Init.{julius_msg_ping}

put : ℕ → List ℕ → Memory → Memory
put a [] m = m
put a (b ∷ bs) m = update (put (a + 1) bs m) a b

put-Grows : (a : ℕ) (bs : List ℕ) (m : Memory) → Grows m (put a bs m)
unfolding put
put-Grows a [] m x h = h
put-Grows a (b ∷ bs) m x h = Mapped-update (put (a + 1) bs m) a b x (put-Grows (a + 1) bs m x h)

put-Holds : (a : ℕ) (bs : List ℕ) (m : Memory) → Holds (put a bs m) (word a) bs
unfolding put
put-Holds a [] m = tt
put-Holds a (b ∷ bs) m = (
  update_self (put (a + 1) bs m) a b,
  Holds_same (put (a + 1) bs m) (put a (b ∷ bs) m) (word (a + 1)) bs
      (λ i lt. update_ne (put (a + 1) bs m) a b (a + 1 + i) (λ e. absurd (omega arith)))
      (put-Holds (a + 1) bs m),
)

-- Every port allocated is 0x707.
pub give_port : Option Value → Memory → Reply
give_port (some (word slot)) m = record { rax = 0; memory = put slot (word_bytes 4 0x707) m }
give_port _ m = record { rax = 4; memory = m }

pub give_port-Grows : (a : Option Value) (m : Memory) → Grows m (give_port a m).memory
unfolding give_port
give_port-Grows (some (word slot)) m x h = put-Grows slot (word_bytes 4 0x707) m x h
give_port-Grows _ m x h = h

pub give_port-Holds :
    (slot : ℕ) (m : Memory)
    → Holds (give_port (some (word slot)) m).memory (word slot) (word_bytes 4 0x707)
unfolding give_port
give_port-Holds slot m = put-Holds slot (word_bytes 4 0x707) m

-- Every message delivered is a PING that names port 0x1203.
abbrev pub ping : Header
ping = record {
  msgh_bits = 0x13;
  msgh_size = 24;
  msgh_remote_port = 0x1203;
  msgh_local_port = 0x707;
  msgh_voucher_port = 0;
  msgh_id = julius_msg_ping;
}

pub deliver : Option Value → Option Value → Memory → Reply
deliver (some (word out)) (some (word option)) m =
    if option == mach_rcv_msg
    then record { rax = 0; memory = put out (header_bytes ping) m }
    else record { rax = 0; memory = m }
deliver _ _ m = record { rax = 4; memory = m }

pub deliver-Grows : (a b : Option Value) (m : Memory) → Grows m (deliver a b m).memory
unfolding deliver
deliver-Grows (some (word out)) (some (word option)) m x h =
    elim (Bool-cases (option == mach_rcv_msg)) [
      | inl e ↦ rw e (put-Grows out (header_bytes ping) m x h)
      | inr e ↦ rw e h
    ]
deliver-Grows _ _ m x h = h

pub deliver-Holds :
    (out : ℕ) (m : Memory)
    → Holds
        (deliver (some (word out)) (some (word mach_rcv_msg)) m).memory
        (word out)
        (header_bytes ping)
unfolding deliver
deliver-Holds out m = put-Holds out (header_bytes ping) m
