-- ===== src/DispatchMaps/Invariant.antt =====
-- Whatever a client sends in a session, the session keeps its invariant.
use giblet.Common.{[], ◌∷◌, Bytes, codes}
use giblet.Header.{Header}
use giblet.Runtime.{chars}
use giblet.Dispatcher.{DispatchMap, add_processor, dispatch}
use giblet.Dispatcher.Invariant.{
  IsSafeMap, packet_processor-Keeps, dispatch-Keeps, add_processor-IsSafeMap,
}
use giblet.Links.{Links}
use giblet.Links.Laws.{IsSafe}
use giblet.Packets.Messages.{private_message, system_message, chatroom_joined}
use giblet.Packets.Login.{chat_login_response}
use giblet.Payloads.RequestProfile
use giblet.Payloads.SetAway
use giblet.Payloads.SetAvailable
use giblet.Payloads.ActivateProfile
use giblet.Payloads.DeactivateProfile
use giblet.Payloads.AddContact
use giblet.Payloads.RenameContactGroup
use giblet.Payloads.RemoveContact
use giblet.Payloads.DenyContactAddRequest
use giblet.Payloads.ChangeBlockedUser
use giblet.Payloads.PrivateMessage
use giblet.Payloads.MassPrivateMessage
use giblet.Payloads.ServiceOperation
use giblet.Payloads.ChatLogin
use giblet.Payloads.ChatJoin
use giblet.Session.{Session, Environment}
use giblet.Session.Invariant.{IsSession, send_packet-Keeps, request_client_profile-Keeps}
use giblet.Processors
use giblet.Processors.{participants}
use giblet.Processors.Invariant.{service_operation-Keeps, change_blocked_user-Keeps, set_away-Keeps}
use giblet.Mock
use giblet.Mock.Invariant.{links-IsSafe}
use giblet.DispatchMaps.{v11_processors, add_all, create}

add_all-IsSafeMap :
    (more processors : DispatchMap Session)
    → IsSafeMap IsSession more
    → IsSafeMap IsSession processors
    → IsSafeMap IsSession (add_all more processors)
unfolding add_all
add_all-IsSafeMap [] processors k h = h
add_all-IsSafeMap ((id, f) ∷ more) processors (kf, k) h =
    add_all-IsSafeMap more (add_processor id f processors) k
      (add_processor-IsSafeMap id f processors kf h)

module _ (env : Environment) (links : Links) (safe : IsSafe links) where
  v11_processors-IsSafeMap : IsSafeMap IsSession (v11_processors env links)
  unfolding v11_processors Processors.request_profile Processors.private_message_received
      Processors.mass_private_message Processors.chat_login Processors.chat_join
      Processors.set_available Processors.activate_profile Processors.deactivate_profile
      Processors.add_contact Processors.rename_contact_group Processors.remove_contact
      Processors.deny_contact_add_request
  v11_processors-IsSafeMap = (
    packet_processor-Keeps RequestProfile.on_key_pair RequestProfile.initial
        Processors.request_profile (λ h p. request_client_profile-Keeps),
    (
      packet_processor-Keeps SetAway.on_key_pair SetAway.initial (Processors.set_away links)
          (set_away-Keeps links safe),
      (
        packet_processor-Keeps SetAvailable.on_key_pair SetAvailable.initial
            (Processors.set_available links) (λ h p. safe.set_available),
        (
          packet_processor-Keeps ActivateProfile.on_key_pair ActivateProfile.initial
              (Processors.activate_profile links) (λ h p. safe.activate (chars p.client_id)),
          (
            packet_processor-Keeps DeactivateProfile.on_key_pair DeactivateProfile.initial
                (Processors.deactivate_profile links) (λ h p. safe.deactivate (chars p.client_id)),
            (
              packet_processor-Keeps AddContact.on_key_pair AddContact.initial
                  (Processors.add_contact links)
                  λ h p.
                    safe.add_contact (chars p.client_id) (chars p.contact_id) (chars p.group)
                      (chars p.message),
              (
                packet_processor-Keeps RenameContactGroup.on_key_pair RenameContactGroup.initial
                    (Processors.rename_contact_group links)
                    λ h p. safe.rename_group (chars p.current_group_name) (chars p.new_group_name),
                (
                  packet_processor-Keeps RemoveContact.on_key_pair RemoveContact.initial
                      (Processors.remove_contact links)
                      λ h p.
                        safe.remove_contact (chars p.client_id) (chars p.contact_id)
                          (chars p.group),
                  (
                    packet_processor-Keeps DenyContactAddRequest.on_key_pair
                        DenyContactAddRequest.initial (Processors.deny_contact_add_request links)
                        λ h p.
                          safe.deny_request (chars p.client_id) (chars p.contact_id)
                            (chars p.message),
                    (
                      packet_processor-Keeps ChangeBlockedUser.on_key_pair ChangeBlockedUser.initial
                          (Processors.change_blocked_user links)
                          (change_blocked_user-Keeps links safe),
                      (
                        packet_processor-Keeps PrivateMessage.on_key_pair
                            (PrivateMessage.initial env.held_encoding)
                            Processors.private_message_received
                            λ h p. send_packet-Keeps (
                              private_message (chars p.client_id) (chars p.contact_id)
                                (chars p.message) p.encoding),
                        (
                          packet_processor-Keeps MassPrivateMessage.on_key_pair
                              (MassPrivateMessage.initial env.held_encoding)
                              (Processors.mass_private_message env)
                              λ h p. send_packet-Keeps (
                                system_message
                                  (codes "Sending mass private messages is not supported.")
                                  env.now),
                          (
                            packet_processor-Keeps ServiceOperation.on_key_pair
                                ServiceOperation.initial Processors.service_operation
                                service_operation-Keeps,
                            (
                              packet_processor-Keeps ChatLogin.on_key_pair ChatLogin.initial
                                  Processors.chat_login
                                  (λ h p.
                                    send_packet-Keeps (chat_login_response (chars p.client_id2))),
                              (
                                packet_processor-Keeps ChatJoin.on_key_pair ChatJoin.initial
                                    Processors.chat_join
                                    λ h p. send_packet-Keeps (
                                      chatroom_joined (chars p.category) (chars p.room)
                                        (codes "topic") (codes "voicecookie--")
                                        (codes "othercookie--") participants),
                                tt,
                              ),
                            ),
                          ),
                        ),
                      ),
                    ),
                  ),
                ),
              ),
            ),
          ),
        ),
      ),
    ),
  )

  pub create-IsSafeMap : IsSafeMap IsSession (create env links)
  unfolding create
  create-IsSafeMap = add_all-IsSafeMap (v11_processors env links) [] v11_processors-IsSafeMap tt

-- Whatever packet a client sends, any header and any bytes, and whether the session answers it, throws an
-- exception or runs into undefined behaviour (then: up to the call that does so): if before it the contact
-- list is a map with each contact under its own id, no user is blocked twice, and every block that was sent
-- is one whole packet, then so it is behind it. The answers are those of the mock service.
pub dispatch-IsSession :
    (env : Environment) (header : Header) (payload behind : Bytes) (s : Session)
    → IsSession s
    → IsSession (dispatch (create env (Mock.links env)) header payload behind s).1
dispatch-IsSession env header payload behind s v =
    (dispatch-Keeps (create env (Mock.links env))
        (create-IsSafeMap env (Mock.links env) (links-IsSafe env)) header payload behind).holds
      s v
