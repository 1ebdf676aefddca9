-- ===== src/Session/Sending.antt =====
-- What sending a packet changes in a session.
use giblet.Common.{◌≡◌, refl, Outcome, returns, throws, undefined, diverges, map_outcome}
use giblet.Common.Exec.{settle}
use giblet.Connection.{ClientConnection}
use giblet.Builder.Packet.{transmit}
use giblet.Packets.{Packet}
use giblet.Session.{Session, send_packet}

settle-connection :
    (s : Session) (r : Outcome ClientConnection)
    → (settle (map_outcome (λ c. record s { connection = c }) r) s).1 ≡ record s {
      connection = (settle (map_outcome (λ c. record s { connection = c }) r) s).1.connection;
    }
settle-connection s (returns c) = refl
settle-connection s (throws e) = refl
settle-connection s undefined = refl
settle-connection s diverges = refl

-- Nothing but the connection, whether the packet is sent or refused.
pub send_packet-connection :
    (p : Packet) (s : Session)
    → (send_packet p s).1 ≡ record s { connection = (send_packet p s).1.connection }
unfolding send_packet
send_packet-connection p s =
    settle-connection s (transmit p.service_id p.attribute p.fields s.connection)
