-- ===== src/DispatchMaps.antt =====
-- Protocols/YMsg/src/DispatchMaps.cpp: the packets that an authenticated session handles.
pub mod Invariant
pub mod Requests
pub mod Unknown
use giblet.Common.{ℕ, List, [], ◌∷◌}
use giblet.Session.{Session, Environment}
use giblet.Links.{Links}
use giblet.Dispatcher.{DispatchMap, add_processor, packet_processor}
use giblet.Stream.{DispatcherFunction}
use giblet.Processors
use giblet.Payloads.ActivateProfile
use giblet.Payloads.AddContact
use giblet.Payloads.ChangeBlockedUser
use giblet.Payloads.ChatJoin
use giblet.Payloads.ChatLogin
use giblet.Payloads.DeactivateProfile
use giblet.Payloads.DenyContactAddRequest
use giblet.Payloads.MassPrivateMessage
use giblet.Payloads.PrivateMessage
use giblet.Payloads.RemoveContact
use giblet.Payloads.RenameContactGroup
use giblet.Payloads.RequestProfile
use giblet.Payloads.ServiceOperation
use giblet.Payloads.SetAvailable
use giblet.Payloads.SetAway

-- The service ids and their processors, in the order in which `Create` adds them.
unfoldable pub v11_processors : Environment → Links → List (ℕ × DispatcherFunction Session)
unfolding packet_processor
v11_processors env links =
    (
      RequestProfile.service_id,
      packet_processor RequestProfile.on_key_pair RequestProfile.initial Processors.request_profile,
    )
    ∷ (
      SetAway.service_id,
      packet_processor SetAway.on_key_pair SetAway.initial (Processors.set_away links),
    )
    ∷ (
      SetAvailable.service_id,
      packet_processor SetAvailable.on_key_pair SetAvailable.initial
          (Processors.set_available links),
    )
    ∷ (
      ActivateProfile.service_id,
      packet_processor ActivateProfile.on_key_pair ActivateProfile.initial
          (Processors.activate_profile links),
    )
    ∷ (
      DeactivateProfile.service_id,
      packet_processor DeactivateProfile.on_key_pair DeactivateProfile.initial
          (Processors.deactivate_profile links),
    )
    ∷ (
      AddContact.service_id,
      packet_processor AddContact.on_key_pair AddContact.initial (Processors.add_contact links),
    )
    ∷ (
      RenameContactGroup.service_id,
      packet_processor RenameContactGroup.on_key_pair RenameContactGroup.initial
          (Processors.rename_contact_group links),
    )
    ∷ (
      RemoveContact.service_id,
      packet_processor RemoveContact.on_key_pair RemoveContact.initial
          (Processors.remove_contact links),
    )
    ∷ (
      DenyContactAddRequest.service_id,
      packet_processor DenyContactAddRequest.on_key_pair DenyContactAddRequest.initial
          (Processors.deny_contact_add_request links),
    )
    ∷ (
      ChangeBlockedUser.service_id,
      packet_processor ChangeBlockedUser.on_key_pair ChangeBlockedUser.initial
          (Processors.change_blocked_user links),
    )
    ∷ (
      PrivateMessage.service_id,
      packet_processor PrivateMessage.on_key_pair (PrivateMessage.initial env.held_encoding)
          Processors.private_message_received,
    )
    ∷ (
      MassPrivateMessage.service_id,
      packet_processor MassPrivateMessage.on_key_pair (MassPrivateMessage.initial env.held_encoding)
          (Processors.mass_private_message env),
    )
    ∷ (
      ServiceOperation.service_id,
      packet_processor ServiceOperation.on_key_pair ServiceOperation.initial
          Processors.service_operation,
    )
    ∷ (
      ChatLogin.service_id,
      packet_processor ChatLogin.on_key_pair ChatLogin.initial Processors.chat_login,
    )
    ∷ (
      ChatJoin.service_id,
      packet_processor ChatJoin.on_key_pair ChatJoin.initial Processors.chat_join,
    )
    ∷ []

unfoldable pub add_all :
    List (ℕ × DispatcherFunction Session) → DispatchMap Session → DispatchMap Session
unfolding add_processor
add_all [] processors = processors
add_all ((id, f) ∷ more) processors = add_all more (add_processor id f processors)

-- `V11::Create`.
unfoldable pub create : Environment → Links → DispatchMap Session
unfolding v11_processors add_all
create env links = add_all (v11_processors env links) []
