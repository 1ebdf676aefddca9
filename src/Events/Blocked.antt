-- ===== src/Events/Blocked.antt =====
-- Protocols/YMsg/src/BlockedContactManagementEvents.cpp.
use giblet.Common.{Bytes, invalid_argument}
use giblet.Common.Exec.{throw, modify, ◌>>◌}
use giblet.Blocked
use giblet.Packets.Contacts.{contact_blocked, contact_unblocked}
use giblet.Session.{Action, send_packet}

unfoldable pub on_already_blocked : Bytes → Bytes → Action
on_already_blocked client_id contact_id = throw invalid_argument

unfoldable pub on_not_in_blocked_list : Bytes → Bytes → Action
on_not_in_blocked_list client_id contact_id = throw invalid_argument

unfoldable pub on_blocked : Bytes → Bytes → Action
unfolding Blocked.add send_packet
on_blocked client_id contact_id = do
  modify λ s. record s { blocked = Blocked.add contact_id s.blocked }
  send_packet (contact_blocked client_id contact_id)

unfoldable pub on_unblocked : Bytes → Bytes → Action
unfolding Blocked.remove send_packet
on_unblocked client_id contact_id = do
  modify λ s. record s { blocked = Blocked.remove contact_id s.blocked }
  send_packet (contact_unblocked client_id contact_id)
