-- ===== src/Init/Service.antt =====
-- One round of the service loop, whatever the kernel delivers.
use ajulius.Prelude.{
  ap, length, zero, suc, ℕ, ◌≡◌, refl, ◌≢◌, ◌==◌, Bool-cases, ==→eq, ==→ne, List, [], ◌∷◌, inl, inr,
  arith,
}
use ajulius.Types.{mach_port_null}
use ajulius.Machine.{word, Machine, World}
use ajulius.Outcome.Returns
use ajulius.Outcome.Returns.{Ends, Returns, returns}
use ajulius.Mach.{mach_send_msg, mach_rcv_msg, header_size}
use ajulius.Mach.Fields.{load_word-remote_port, load_word-id}
use ajulius.Mach.Send.{
  sent_header, msg_regs, after_call, call_result, Sends, julius_send_simple-Sends,
  julius_recv_simple_lem,
}
use ajulius.Init.{julius_msg_ping, dispatch, received, service_round, service_rounds}
use ajulius.Init.Says.{
  Steady-refl, Steady, Steady-trans, IsReady, IsReady-Grows, puts-Steady, put_hex-Steady,
  put_value-Steady,
}
use ajulius.Trace.{posts, nothing, silent, shown, receive-IsSilent}
use ajulius.Init.Protocol.{dispatched, Delivery, failed, message, server_round, server}
use ajulius.Machine.{Reply}
use ajulius.Xnu.{XnuLaws, PortLaws, Received, kern_return}

-- The reply to a message, sent from its local.
Sends-Steady :
    (e : Machine) (ports : PortLaws e.kernel) (w w' : World) (remote id kr : ℕ)
    → Sends e w remote id kr w'
    → Steady (posts (sent_header remote id) ∷ []) w w'
Sends-Steady e ports w w' remote id kr s = rw s.after (record {
  grows = λ x h.
      ports.msg_grows w.calls (msg_regs (word e.frame.reply_msg) mach_send_msg header_size 0 0)
        s.seen refl x (s.grows x h);
  base = refl;
  end = refl;
  ptr = refl;
  port = refl;
  shows = shown (record { buf = e.frame.reply_msg; regs_eq = refl; shown = s.shown }) nothing;
})

-- The receive itself is silent and leaves the static variables alone.
receive-Steady :
    (e : Machine) (ports : PortLaws e.kernel) (w : World) (out port : ℕ)
    → Steady [] w (after_call e w (msg_regs (word out) mach_rcv_msg 0 header_size port) w.memory)
receive-Steady e ports w out port = record {
  grows =
      ports.msg_grows w.calls (msg_regs (word out) mach_rcv_msg 0 header_size port) w.memory refl;
  base = refl;
  end = refl;
  ptr = refl;
  port = refl;
  shows = silent (receive-IsSilent (word out) port w.memory) nothing;
}

-- What the kernel answers to the receive of a round.
abbrev pub receive_reply : Machine → World → Reply
receive_reply e w =
    e.kernel w.calls (msg_regs (word e.frame.msg) mach_rcv_msg 0 header_size w.g_bootstrap_port)
      w.memory

-- That is the delivery: an error, or success with the message in the local `msg`.
abbrev pub Delivers : Machine → World → Delivery → Type 0
Delivers e w (failed kr) = (kr ≢ 0) × (kern_return (receive_reply e w) ≡ kr)
Delivers e w (message h) =
    (kern_return (receive_reply e w) ≡ 0)
    × (m : Received (receive_reply e w).memory e.frame.msg) × (m.header ≡ h)

-- One round on a delivery: what it shows is what the server of the protocol shows.
pub record Rounds (e : Machine) (d : Delivery) (w w' : World) : Type 0 where
  pub delivers : Delivers e w d
  pub steady : Steady (server_round d) w w'

-- A number of rounds, one after the other.
pub data Serves (e : Machine) : List Delivery → World → World → Type 0 where
  done : {w : World} → Serves e [] w w
  round :
      {d : Delivery} {ds : List Delivery} {w v u : World}
      → Rounds e d w v
      → Serves e ds v u
      → Serves e (d ∷ ds) w u

-- Some rounds from `w` to `w'`, and the server's trace of them.
pub record ServesAll (e : Machine) (n : ℕ) (w w' : World) : Type 0 where
  pub deliveries : List Delivery
  pub rounds : length deliveries ≡ n
  pub serves : Serves e deliveries w w'
  pub steady : Steady (server deliveries) w w'

module _ (e : Machine) (laws : XnuLaws e.kernel) (ports : PortLaws e.kernel) where
  dispatch-Steady :
      (w : World) (id remote : ℕ)
      → IsReady e.frame w.memory
      → Returns (λ _. Steady (dispatched id remote) w) (dispatch e id remote w)
  unfolding dispatch dispatched
  dispatch-Steady w id remote ready = elim (Bool-cases (id == julius_msg_ping)) [
    | inr other ↦ rw other (
        Returns.bind (puts-Steady e laws w "init: unknown message, ignoring\r\n" refl (omega arith))
          λ _ w1 q. returns q)
    | inl ping ↦ rw ping (
        Returns.bind
          (puts-Steady e laws w "init: PING received, sending PONG\r\n" refl (omega arith))
          λ _ w1 q. elim (Bool-cases (remote == mach_port_null)) [
            | inl null ↦ rw null (returns q)
            | inr port ↦ rw port (
                Returns.bind
                  (julius_send_simple-Sends e w1 remote 0x4A4C8001
                    (λ x lo hi. q.grows x (ready.reply_mapped x lo hi)))
                  λ kr w2 s.
                    returns
                      (Steady-trans w w1 w2 q (Sends-Steady e ports w1 w2 remote 0x4A4C8001 kr s)))
          ])
  ]

  received-Steady :
      (w : World) (m : Received w.memory e.frame.msg)
      → IsReady e.frame w.memory
      → Returns (λ _. Steady (server_round (message m.header)) w) (received e w)
  unfolding received server_round
  received-Steady w m ready =
      rw
        (
          load_word-id w e.frame.msg m.header m.shown m.id_small,
          load_word-remote_port w e.frame.msg m.header m.shown m.remote_small,
        )
        (Returns.bind (puts-Steady e laws w "init: received msg id=" refl (omega arith)) λ _ w1 q1.
          let r1 = IsReady-Grows e.frame w.memory w1.memory q1.grows ready in
          Returns.bind
            (put_hex-Steady e laws w1 m.header.msgh_id r1.buffers (omega (arith, m.id_small)))
            λ _ w2 q2.
              Returns.bind (puts-Steady e laws w2 " from port=" refl (omega arith)) λ _ w3 q3.
                let q23 = Steady-trans w1 w2 w3 q2 q3 in
                let r3 = IsReady-Grows e.frame w1.memory w3.memory q23.grows r1 in
                Returns.bind
                  (put_hex-Steady e laws w3 m.header.msgh_remote_port r3.buffers
                    (omega (arith, m.remote_small)))
                  λ _ w4 q4.
                    Returns.bind (puts-Steady e laws w4 "\r\n" refl (omega arith)) λ _ w5 q5.
                      let q35 = Steady-trans w3 w4 w5 q4 q5 in
                      let q = Steady-trans w w1 w5 q1 (Steady-trans w1 w3 w5 q23 q35) in
                      Returns.mono
                        (dispatch-Steady w5 m.header.msgh_id m.header.msgh_remote_port
                          (IsReady-Grows e.frame w.memory w5.memory q.grows ready))
                        λ _ w6 s. Steady-trans w w5 w6 q s)

  -- With the kernel laws and the locals mapped, a round of the service loop ends, unmaps nothing
  -- and leaves the static variables alone. What it prints and sends, in order, is what the protocol
  -- has for the delivery: the error's number for a receive that failed; for a message its
  -- identifier and port, and then a notice of the PING, followed by one PONG to its reply port if it
  -- names one, or a notice that the message is ignored.
  pub service_round-Rounds :
      (w : World)
      → IsReady e.frame w.memory
      → Returns (λ _ w'. (d : Delivery) × Rounds e d w w') (service_round e w)
  unfolding service_round server_round
  service_round-Rounds w ready =
      let r = msg_regs (word e.frame.msg) mach_rcv_msg 0 header_size w.g_bootstrap_port in
      let w1 = after_call e w r w.memory in
      let q = receive-Steady e ports w e.frame.msg w.g_bootstrap_port in
      let ready1 = IsReady-Grows e.frame w.memory w1.memory q.grows ready in
      let kr = call_result e w r w.memory in
      rw (julius_recv_simple_lem e w w.g_bootstrap_port e.frame.msg) (elim (Bool-cases (kr == 0)) [
        | inl z ↦
            let m =
              ports.receives w.calls w.g_bootstrap_port e.frame.msg w.memory ready.msg_mapped
                (==→eq kr 0 z) in
            rw z (
              Returns.mono (received-Steady w1 m ready1) λ _ w2 s. (
                message m.header,
                record { delivers = (==→eq kr 0 z, m, refl); steady = Steady-trans w w1 w2 q s },
              ))
        | inr nz ↦ rw nz (
            Returns.mono
              (put_value-Steady e laws w1 "init: mach_msg recv error, kr=" kr
                (record { clean = refl; short = omega arith }) ready1.buffers (omega arith))
              λ _ w2 p. (
                failed kr,
                record { delivers = (==→ne kr 0 nz, refl); steady = Steady-trans w w1 w2 q p },
              ))
      ])

  -- With the kernel laws and the locals mapped, any number of rounds of the service loop ends, still
  -- serving the same port, and all that they print and send is, in order, what the protocol's server
  -- has for the deliveries of the kernel, one in each round.
  pub service_rounds-Serves :
      (n : ℕ) (w : World)
      → IsReady e.frame w.memory
      → Returns (λ _. ServesAll e n w) (service_rounds e n w)
  unfolding service_rounds server
  service_rounds-Serves zero w ready =
      returns (record { deliveries = []; rounds = refl; serves = done; steady = Steady-refl w })
  service_rounds-Serves (suc n) w ready = Returns.bind (service_round-Rounds w ready) λ _ v (d, r).
      let ready1 = IsReady-Grows e.frame w.memory v.memory r.steady.grows ready in
      Returns.mono (service_rounds-Serves n v ready1) λ _ w' s. record {
        deliveries = d ∷ s.deliveries;
        rounds = ap suc s.rounds;
        serves = round r s.serves;
        steady = Steady-trans w v w' r.steady s.steady;
      }
