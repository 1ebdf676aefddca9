-- ===== src/Processors/Invariant.antt =====
-- What the processors ask of the session keeps its invariant, if the messaging service does.
use giblet.Common.{Bool, ℤ, codes, equals, eq_ℤ, returns}
use giblet.Common.Exec.Keeps.{Keeps, Keeps-bind, Keeps-then, Keeps-modify, Keeps-lift, Keeps-if}
use giblet.Types.{invisible, idle, custom, to_enum}
use giblet.Header.{Header}
use giblet.Runtime.{chars}
use giblet.Connection.{set_protocol_version}
use giblet.Links.{Links}
use giblet.Links.Laws.{IsSafe}
use giblet.Packets.Login.{protocol_ack}
use giblet.Packets.Messages.{typing_notification}
use giblet.Payloads.ChangeBlockedUser.{ChangeBlockedUser}
use giblet.Payloads.ProtocolSync.{ProtocolSync}
use giblet.Payloads.ServiceOperation.{ServiceOperation}
use giblet.Payloads.SetAway.{SetAway}
use giblet.Session.Invariant.{IsSession, send_packet-Keeps}
use giblet.Processors.{
  service_operation, protocol_sync, change_blocked_user, show_away, set_away, read_busy,
}

pub service_operation-Keeps :
    (h : Header) (p : ServiceOperation) → Keeps IsSession (service_operation h p)
unfolding service_operation
service_operation-Keeps h p =
    Keeps-if (equals (chars p.operation) (codes "TYPING"))
      (Keeps-bind (Keeps-lift (to_enum p.action)) λ action.
        send_packet-Keeps (typing_notification (chars p.contact_id) (chars p.client_id) action))
      (Keeps-lift (returns tt))

pub protocol_sync-Keeps : (h : Header) (p : ProtocolSync) → Keeps IsSession (protocol_sync h p)
unfolding protocol_sync set_protocol_version
protocol_sync-Keeps h p =
    Keeps-then
      (Keeps-modify λ s v. record { contacts = v.contacts; blocked = v.blocked; sent = v.sent })
      (send_packet-Keeps protocol_ack)

module _ (links : Links) (safe : IsSafe links) where
  pub change_blocked_user-Keeps :
      (h : Header) (p : ChangeBlockedUser) → Keeps IsSession (change_blocked_user links h p)
  unfolding change_blocked_user
  change_blocked_user-Keeps h p =
      Keeps-if (equals (chars p.mode) (codes "1"))
        (safe.block (chars p.client_id) (chars p.contact_id))
        (Keeps-if (equals (chars p.mode) (codes "2"))
          (safe.unblock (chars p.client_id) (chars p.contact_id)) (Keeps-lift (returns tt)))

  show_away-Keeps :
      (status : ℤ) (p : SetAway) (is_busy : Bool)
      → Keeps IsSession (show_away links status p is_busy)
  unfolding show_away
  show_away-Keeps status p is_busy =
      Keeps-if (eq_ℤ status idle)
        (safe.set_idle (chars p.custom_message) is_busy (chars p.idle_unknown))
        (Keeps-if (eq_ℤ status custom) (safe.set_custom_status (chars p.custom_message) is_busy)
          (safe.set_away status is_busy))

  pub set_away-Keeps : (h : Header) (p : SetAway) → Keeps IsSession (set_away links h p)
  unfolding set_away
  set_away-Keeps h p = Keeps-bind (Keeps-lift (to_enum p.status_id)) λ status.
      Keeps-if (eq_ℤ status invisible) safe.set_invisible
        (Keeps-bind (Keeps-lift (read_busy p.busy_state)) (show_away-Keeps status p))
