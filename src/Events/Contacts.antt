-- ===== src/Events/Contacts.antt =====
-- Protocols/YMsg/src/ContactManagementEvents.cpp.
use giblet.Common.{[], Bytes, ℤ, map_outcome, runtime_error}
use giblet.Common.Exec.{change, pure, throw, modify, ◌>>◌}
use giblet.Types.{remove_success, remove_general_failure}
use giblet.Types.AddStatus
use giblet.Contacts
use giblet.Packets.Contacts.{
  add_contact_request, add_contact_request_result, contact_removed, deny_contact_add_request,
  contact_group_renamed,
}
use giblet.Session.{Environment, Action, send_packet, request_client_profile}

unfoldable pub on_add_request_denied : Bytes → Bytes → Bytes → Action
unfolding send_packet
on_add_request_denied client_id contact_id message =
    send_packet (deny_contact_add_request client_id contact_id message)

unfoldable pub on_add_contact_request : Bytes → Bytes → Bytes → ℤ → Action
unfolding send_packet
on_add_contact_request client_id contact_id message timestamp =
    send_packet (add_contact_request client_id contact_id message timestamp)

unfoldable pub on_remove_contact_failed : Bytes → Bytes → Bytes → Action
unfolding send_packet
on_remove_contact_failed client_id contact_id group =
    send_packet (contact_removed client_id contact_id group remove_general_failure)

-- The result names the contact where `Build` expects the client, and the other way round; so do the
-- four events below.
unfoldable pub on_add_request_pending : Environment → Bytes → Bytes → Bytes → Action
unfolding Contacts.add_pending_contact send_packet request_client_profile
on_add_request_pending env client_id contact_id group = do
  change λ s.
      map_outcome (λ m. record s { contacts = m })
        (Contacts.add_pending_contact env.held_flag contact_id group s.contacts)
  send_packet (add_contact_request_result contact_id client_id group AddStatus.add_pending)
  request_client_profile

unfoldable pub on_empty_group : Bytes → Bytes → Action
unfolding send_packet
on_empty_group client_id contact_id =
    send_packet (add_contact_request_result contact_id client_id [] AddStatus.group_already_exists)

unfoldable pub on_contact_is_ineligible : Bytes → Bytes → Bytes → Action
unfolding send_packet
on_contact_is_ineligible client_id contact_id group =
    send_packet (add_contact_request_result contact_id client_id group AddStatus.general_failure)

unfoldable pub on_contact_no_exist : Bytes → Bytes → Bytes → Action
unfolding send_packet
on_contact_no_exist client_id contact_id group =
    send_packet
      (add_contact_request_result contact_id client_id group AddStatus.contact_does_not_exist)

unfoldable pub on_duplicate_contact : Bytes → Bytes → Bytes → Action
unfolding send_packet
on_duplicate_contact client_id contact_id group =
    send_packet (add_contact_request_result contact_id client_id group AddStatus.duplicate_contact)

-- Not implemented in the source.
unfoldable on_contact_added : Bytes → Bytes → Bytes → Action
on_contact_added client_id contact_id group = throw runtime_error

unfoldable pub on_contact_removed : Bytes → Bytes → Bytes → Action
unfolding Contacts.remove_contact send_packet request_client_profile
on_contact_removed client_id contact_id group = do
  change λ s.
      map_outcome (λ m. record s { contacts = m })
        (Contacts.remove_contact contact_id group s.contacts)
  send_packet (contact_removed client_id contact_id group remove_success)
  request_client_profile

-- An exception is constructed, and not thrown.
unfoldable pub on_group_rename_failed : Bytes → Bytes → Action
on_group_rename_failed current_name new_name = pure tt

-- `Build` takes the old name and then the new one; it is given the new name and then the old one.
unfoldable pub on_group_renamed : Bytes → Bytes → Action
unfolding Contacts.rename_group send_packet request_client_profile contact_group_renamed
on_group_renamed current_name new_name = do
  modify λ s. record s { contacts = Contacts.rename_group current_name new_name s.contacts }
  λ s. send_packet (contact_group_renamed s.profiles.client_id new_name current_name) s
  request_client_profile
