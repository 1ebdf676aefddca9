-- ===== src/Processors.antt =====
-- Protocols/YMsg/src/Server/Processors: what each client packet asks the session to do. The links and
-- the environment are parameters.
pub mod Invariant
use giblet.Common.{
  map_outcome, Bool, false, not, List, [], ◌∷◌, Bytes, codes, equals, is_empty, if◌then◌else◌, ℤ,
  pos, eq_ℤ, Outcome, returns,
}
use giblet.Common.Exec.{pure, lift, modify, ◌>>◌, ◌>>=◌}
use giblet.Runtime.{StringView, chars, stol}
use giblet.Types.{invisible, idle, custom, to_enum}
use giblet.Header.{Header}
use giblet.Connection.{set_protocol_version}
use giblet.Links.{Links}
use giblet.Session.{Environment, Action, send_packet, request_client_profile}
use giblet.Packets.Messages.{system_message, private_message, typing_notification, chatroom_joined}
use giblet.Packets.Login.{challenge_response_none, chat_login_response, protocol_ack}
use giblet.Payloads.ActivateProfile.{ActivateProfile}
use giblet.Payloads.AddContact.{AddContact}
use giblet.Payloads.Authentication.{Authentication}
use giblet.Payloads.ChallengeRequest.{ChallengeRequest}
use giblet.Payloads.ChangeBlockedUser.{ChangeBlockedUser}
use giblet.Payloads.ChatJoin.{ChatJoin}
use giblet.Payloads.ChatLogin.{ChatLogin}
use giblet.Payloads.DeactivateProfile.{DeactivateProfile}
use giblet.Payloads.DenyContactAddRequest.{DenyContactAddRequest}
use giblet.Payloads.MassPrivateMessage.{MassPrivateMessage}
use giblet.Payloads.PrivateMessage.{PrivateMessage}
use giblet.Payloads.ProtocolSync.{ProtocolSync}
use giblet.Payloads.RemoveContact.{RemoveContact}
use giblet.Payloads.RenameContactGroup.{RenameContactGroup}
use giblet.Payloads.RequestProfile.{RequestProfile}
use giblet.Payloads.ServiceOperation.{ServiceOperation}
use giblet.Payloads.SetAvailable.{SetAvailable}
use giblet.Payloads.SetAway.{SetAway}

-- A payload handler: `Process(session, header, payload)`.
abbrev pub Process : Type 0 → Type 0
Process P = Header → P → Action

-- The packets that are answered with no link.
unfoldable pub request_profile : Process RequestProfile
unfolding request_client_profile
request_profile header payload = request_client_profile

unfoldable pub private_message_received : Process PrivateMessage
unfolding send_packet private_message
private_message_received header p =
    send_packet
      (private_message (chars p.client_id) (chars p.contact_id) (chars p.message) p.encoding)

unfoldable pub mass_private_message : Environment → Process MassPrivateMessage
unfolding send_packet
mass_private_message env header p =
    send_packet (system_message (codes "Sending mass private messages is not supported.") env.now)

unfoldable pub service_operation : Process ServiceOperation
unfolding send_packet typing_notification to_enum equals
service_operation header p =
    if equals (chars p.operation) (codes "TYPING")
    then (lift (to_enum p.action) >>= λ action.
        send_packet (typing_notification (chars p.contact_id) (chars p.client_id) action))
    else pure tt

unfoldable pub chat_login : Process ChatLogin
unfolding send_packet
chat_login header p = send_packet (chat_login_response (chars p.client_id2))

abbrev pub participants : List Bytes
participants =
    codes "donna"
    ∷ codes "dave"
    ∷ codes "jay"
    ∷ codes "martin"
    ∷ codes "joe"
    ∷ codes "barry"
    ∷ codes "greg"
    ∷ []

unfoldable pub chat_join : Process ChatJoin
unfolding send_packet
chat_join header p = send_packet (
    chatroom_joined (chars p.category) (chars p.room) (codes "topic") (codes "voicecookie--")
      (codes "othercookie--") participants)

unfoldable pub challenge_request : Process ChallengeRequest
unfolding send_packet
challenge_request header p = send_packet (challenge_response_none (chars p.client_id))

unfoldable pub protocol_sync : Process ProtocolSync
unfolding send_packet set_protocol_version
protocol_sync header p = do
  modify λ s. record s { connection = set_protocol_version header.proto_version s.connection }
  send_packet protocol_ack

-- The availability that the source computes here is not used.
unfoldable pub authentication : Process Authentication
authentication header p = pure tt

-- `isBusy`: false for an empty view, or else whether `stol` gives a number other than zero.
unfoldable pub read_busy : StringView → Outcome Bool
unfolding stol
read_busy v =
    if is_empty (chars v) then returns false else map_outcome (λ n. not (eq_ℤ n (pos 0))) (stol v)

module _ (links : Links) where
  unfoldable pub activate_profile : Process ActivateProfile
  activate_profile header p = links.activate (chars p.client_id)

  unfoldable pub deactivate_profile : Process DeactivateProfile
  deactivate_profile header p = links.deactivate (chars p.client_id)

  unfoldable pub add_contact : Process AddContact
  add_contact header p =
      links.add_contact (chars p.client_id) (chars p.contact_id) (chars p.group) (chars p.message)

  unfoldable pub remove_contact : Process RemoveContact
  remove_contact header p =
      links.remove_contact (chars p.client_id) (chars p.contact_id) (chars p.group)

  unfoldable pub rename_contact_group : Process RenameContactGroup
  rename_contact_group header p =
      links.rename_group (chars p.current_group_name) (chars p.new_group_name)

  unfoldable pub deny_contact_add_request : Process DenyContactAddRequest
  deny_contact_add_request header p =
      links.deny_request (chars p.client_id) (chars p.contact_id) (chars p.message)

  unfoldable pub change_blocked_user : Process ChangeBlockedUser
  unfolding equals
  change_blocked_user header p =
      if equals (chars p.mode) (codes "1")
      then links.block (chars p.client_id) (chars p.contact_id)
      else if equals (chars p.mode) (codes "2")
      then links.unblock (chars p.client_id) (chars p.contact_id)
      else pure tt

  unfoldable pub set_available : Process SetAvailable
  set_available header p = links.set_available

  unfoldable pub show_away : ℤ → SetAway → Bool → Action
  show_away status p is_busy =
      if eq_ℤ status idle
      then links.set_idle (chars p.custom_message) is_busy (chars p.idle_unknown)
      else if eq_ℤ status custom
      then links.set_custom_status (chars p.custom_message) is_busy
      else links.set_away status is_busy

  unfoldable pub set_away : Process SetAway
  unfolding to_enum read_busy show_away
  set_away header p = do
    status ← lift (to_enum p.status_id)
    if eq_ℤ status invisible
        then links.set_invisible
        else (lift (read_busy p.busy_state) >>= show_away status p)
