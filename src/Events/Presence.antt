-- ===== src/Events/Presence.antt =====
-- Protocols/YMsg/src/PresenceEvents.cpp. The packets for the client itself carry no client id.
use giblet.Common.{
  Bool, [], Bytes, Option, none, some, returns, throws, runtime_error, if◌then◌else◌,
}
use giblet.Common.Exec.{Exec, ◌>>=◌}
use giblet.Types.{Availability}
use giblet.Contacts
use giblet.Contacts.{ContactInfo, ContactManager}
use giblet.Packets.Status.{update_contact_status, set_contact_status, contact_offline}
use giblet.Session.{Session, Action, send_packet}

-- The contact that a `SetContact…` function changed: for a null pointer an exception is thrown.
unfoldable pub changed : Option (ContactInfo × ContactManager) → Exec Session ContactInfo
changed none s = (throws runtime_error, s)
changed (some (c, m)) s = (returns c, record s { contacts = m })

unfoldable pub notify : Bool → ContactInfo → Action
unfolding send_packet
notify show_notification c =
    if show_notification
    then send_packet (update_contact_status c)
    else send_packet (set_contact_status [] c)

unfoldable pub on_contact_available : Bytes → Bool → Action
unfolding changed notify Contacts.set_contact_available send_packet
on_contact_available id show_notification = do
  c ← λ s. changed (Contacts.set_contact_available id s.contacts) s
  notify show_notification c

unfoldable pub on_contact_idle : Bytes → Bytes → Bytes → Bool → Action
unfolding changed Contacts.set_contact_idle send_packet
on_contact_idle id idle_unknown message is_busy = do
  c ← λ s. changed (Contacts.set_contact_idle id idle_unknown message is_busy s.contacts) s
  send_packet (update_contact_status c)

unfoldable pub on_contact_away : Bytes → Availability → Bool → Action
unfolding changed Contacts.set_contact_away send_packet
on_contact_away id availability is_busy = do
  c ← λ s. changed (Contacts.set_contact_away id availability is_busy s.contacts) s
  send_packet (update_contact_status c)

unfoldable pub on_contact_status_message : Bytes → Bytes → Bool → Bool → Action
unfolding changed notify Contacts.set_contact_status_message send_packet
on_contact_status_message id message is_busy show_notification = do
  c ← λ s. changed (Contacts.set_contact_status_message id message is_busy s.contacts) s
  notify show_notification c

unfoldable pub on_contact_offline : Bytes → Action
unfolding changed Contacts.set_contact_offline send_packet
on_contact_offline id = do
  c ← λ s. changed (Contacts.set_contact_offline id s.contacts) s
  send_packet (contact_offline id)
