-- ===== src/Events/Invariant.antt =====
-- Every event keeps the invariant of a session.
use giblet.Common.{Bool, [], Option, none, some, Bytes, ◌≡◌, refl}
use giblet.Common.Exec.Keeps.{Keeps, Keeps-bind, Keeps-then, Keeps-modify, Keeps-if}
use giblet.Types.{Availability}
use giblet.Blocked
use giblet.Blocked.{BlockedContactManager}
use giblet.Blocked.Laws.{IsNodup, add-IsNodup, remove-IsNodup}
use giblet.Contacts
use giblet.Contacts.{ContactInfo, ContactManager}
use giblet.Contacts.Laws.{
  UpdatesTo, add_pending_contact-IsContacts, remove_contact-IsContacts, rename_group-IsContacts,
  update_contact-IsContacts,
}
use giblet.Packets.Contacts.{
  add_contact_request_result, contact_removed, contact_blocked, contact_unblocked,
  contact_group_renamed,
}
use giblet.Packets.Status.{update_contact_status, set_contact_status, contact_offline}
use giblet.Types.{remove_success}
use giblet.Types.AddStatus
use giblet.Session.{Session, Environment}
use giblet.Session.Invariant.{
  IsSession, send_packet-Keeps, send_packet-Keeps_at, request_client_profile-Keeps,
  contacts-IsSession, contacts_change-Keeps,
}
use giblet.Events.Contacts as ContactEvents
use giblet.Events.Blocked.{on_blocked, on_unblocked}
use giblet.Events.Presence.{
  changed, notify, on_contact_available, on_contact_idle, on_contact_away,
  on_contact_status_message, on_contact_offline,
}

blocked-IsSession :
    (s : Session) (f : BlockedContactManager → BlockedContactManager)
    → ((users : BlockedContactManager) → IsNodup users → IsNodup (f users))
    → IsSession s
    → IsSession (record s { blocked = f s.blocked })
blocked-IsSession s f h v = record {
  contacts = v.contacts;
  blocked = h s.blocked v.blocked;
  sent = v.sent;
}

pub on_blocked-Keeps :
    (client_id contact_id : Bytes) → Keeps IsSession (on_blocked client_id contact_id)
unfolding on_blocked
on_blocked-Keeps client_id contact_id =
    Keeps-bind
      (Keeps-modify λ s v. blocked-IsSession s (Blocked.add contact_id) (add-IsNodup contact_id) v)
      (λ _. send_packet-Keeps (contact_blocked client_id contact_id))

pub on_unblocked-Keeps :
    (client_id contact_id : Bytes) → Keeps IsSession (on_unblocked client_id contact_id)
unfolding on_unblocked
on_unblocked-Keeps client_id contact_id =
    Keeps-bind
      (Keeps-modify
        λ s v. blocked-IsSession s (Blocked.remove contact_id) (remove-IsNodup contact_id) v)
      (λ _. send_packet-Keeps (contact_unblocked client_id contact_id))

pub on_add_request_pending-Keeps :
    (env : Environment) (client_id contact_id group : Bytes)
    → Keeps IsSession (ContactEvents.on_add_request_pending env client_id contact_id group)
unfolding ContactEvents.on_add_request_pending
on_add_request_pending-Keeps env client_id contact_id group =
    Keeps-then
      (contacts_change-Keeps _ (add_pending_contact-IsContacts env.held_flag contact_id group))
      (Keeps-then
        (send_packet-Keeps
          (add_contact_request_result contact_id client_id group AddStatus.add_pending))
        request_client_profile-Keeps)

pub on_contact_removed-Keeps :
    (client_id contact_id group : Bytes)
    → Keeps IsSession (ContactEvents.on_contact_removed client_id contact_id group)
unfolding ContactEvents.on_contact_removed
on_contact_removed-Keeps client_id contact_id group =
    Keeps-then (contacts_change-Keeps _ (remove_contact-IsContacts contact_id group)) (
      Keeps-then (send_packet-Keeps (contact_removed client_id contact_id group remove_success))
        request_client_profile-Keeps)

pub on_group_renamed-Keeps :
    (current_name new_name : Bytes)
    → Keeps IsSession (ContactEvents.on_group_renamed current_name new_name)
unfolding ContactEvents.on_group_renamed
on_group_renamed-Keeps current_name new_name =
    Keeps-then
      (Keeps-modify λ s v.
        contacts-IsSession s (Contacts.rename_group current_name new_name s.contacts) v
          (rename_group-IsContacts current_name new_name s.contacts v.contacts))
      (Keeps-then
        (send_packet-Keeps_at λ s. contact_group_renamed s.profiles.client_id new_name current_name)
        request_client_profile-Keeps)

-- The contact that changed is on a list that is as good.
changed-IsSession :
    (o : Option (ContactInfo × ContactManager)) (s : Session)
    → IsSession s
    → UpdatesTo o
    → IsSession (changed o s).1
unfolding changed
changed-IsSession none s v u = v
changed-IsSession (some (c, m)) s v u = contacts-IsSession s m v u

update-Keeps :
    (id : Bytes) (f : ContactInfo → ContactInfo)
    → ((c : ContactInfo) → (f c).id ≡ c.id)
    → Keeps IsSession (λ s. changed (Contacts.update_contact id f s.contacts) s)
update-Keeps id f h = record {
  holds = λ s v.
      changed-IsSession (Contacts.update_contact id f s.contacts) s v
        (update_contact-IsContacts id f s.contacts h v.contacts);
}

notify-Keeps : (show : Bool) (c : ContactInfo) → Keeps IsSession (notify show c)
unfolding notify
notify-Keeps show c =
    Keeps-if show (send_packet-Keeps (update_contact_status c))
      (send_packet-Keeps (set_contact_status [] c))

pub on_contact_available-Keeps :
    (id : Bytes) (show : Bool) → Keeps IsSession (on_contact_available id show)
unfolding on_contact_available Contacts.set_contact_available
on_contact_available-Keeps id show = Keeps-bind (update-Keeps id _ λ c. refl) (notify-Keeps show)

pub on_contact_idle-Keeps :
    (id idle_unknown message : Bytes) (is_busy : Bool)
    → Keeps IsSession (on_contact_idle id idle_unknown message is_busy)
unfolding on_contact_idle Contacts.set_contact_idle
on_contact_idle-Keeps id idle_unknown message is_busy =
    Keeps-bind (update-Keeps id _ λ c. refl) (λ c. send_packet-Keeps (update_contact_status c))

pub on_contact_away-Keeps :
    (id : Bytes) (availability : Availability) (is_busy : Bool)
    → Keeps IsSession (on_contact_away id availability is_busy)
unfolding on_contact_away Contacts.set_contact_away
on_contact_away-Keeps id availability is_busy =
    Keeps-bind (update-Keeps id _ λ c. refl) (λ c. send_packet-Keeps (update_contact_status c))

pub on_contact_status_message-Keeps :
    (id message : Bytes) (is_busy show : Bool)
    → Keeps IsSession (on_contact_status_message id message is_busy show)
unfolding on_contact_status_message Contacts.set_contact_status_message
on_contact_status_message-Keeps id message is_busy show =
    Keeps-bind (update-Keeps id _ λ c. refl) (notify-Keeps show)

pub on_contact_offline-Keeps : (id : Bytes) → Keeps IsSession (on_contact_offline id)
unfolding on_contact_offline Contacts.set_contact_offline
on_contact_offline-Keeps id =
    Keeps-bind (update-Keeps id _ λ c. refl) (λ c. send_packet-Keeps (contact_offline id))
