-- ===== src/Init/Protocol.antt =====
-- What PID 1 shows of each delivery in its service loop: a server of Mach messages, apart from the
-- code that makes it.
use ajulius.Prelude.{ℕ, ◌==◌, if◌then◌else◌, List, [], ◌∷◌, ◌++◌}
use ajulius.Types.{mach_port_null}
use ajulius.Mach.{Header}
use ajulius.Mach.Send.{sent_header}
use ajulius.Init.{julius_msg_ping}
use ajulius.Init.Says.{value_line}
use ajulius.Trace.{Act, says, says_hex, posts}

-- A PING that names a reply port gets one PONG there; no other message gets an answer.
unfoldable pub dispatched : ℕ → ℕ → List Act
dispatched id remote =
    if id == julius_msg_ping
    then says "init: PING received, sending PONG\r\n"
      ∷ (if remote == mach_port_null then [] else posts (sent_header remote 0x4A4C8001) ∷ [])
    else says "init: unknown message, ignoring\r\n" ∷ []

-- What a receive comes to: an error, or a message with a header.
pub data Delivery : Type 0 where
  failed : ℕ → Delivery
  message : Header → Delivery

unfoldable pub server_round : Delivery → List Act
server_round (failed kr) = value_line "init: mach_msg recv error, kr=" kr
server_round (message h) =
    says "init: received msg id="
    ∷ says_hex h.msgh_id
    ∷ says " from port="
    ∷ says_hex h.msgh_remote_port
    ∷ says "\r\n"
    ∷ dispatched h.msgh_id h.msgh_remote_port

unfoldable pub server : List Delivery → List Act
server [] = []
server (d ∷ ds) = server_round d ++ server ds
