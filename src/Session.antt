-- ===== src/Session.antt =====
-- Protocols/YMsg/include/Protocols/YMsg/SessionContext.h and src/SessionContext.cpp: the objects that
-- a session's parts share, and the packets that begin a session. The constructors' tests for null
-- pointers are left out: the parts of a session are there.
pub mod Invariant
pub mod Sending
use giblet.Common.{ℕ, Bool, List, [], ◌∷◌, ℤ, map_outcome, if◌then◌else◌}
use giblet.Common.Exec.{Exec, change, ◌>>◌}
use giblet.Connection.{ClientConnection}
use giblet.Builder.Packet.{transmit}
use giblet.Packets.{Packet}
use giblet.Packets.Profile.{client_profile}
use giblet.Packets.Status.{set_contacts_status}
use giblet.Packets.Login.{ping_configuration}
use giblet.Contacts.{ContactInfo, ContactManager, is_online}
use giblet.Profiles.{ProfileManager}
use giblet.Blocked.{BlockedContactManager}
use giblet.Presence.{PresenceProperties}

pub record Session : Type 0 where
  pub connection : ClientConnection
  pub contacts : ContactManager
  pub profiles : ProfileManager
  pub blocked : BlockedContactManager
  pub properties : PresenceProperties

-- What the program reads and does not set: the clock, `rand()`, and memory that was not initialised, here the
-- `isInChat` of a contact and the `encoding` of a message.
pub record Environment : Type 0 where
  pub now : ℤ
  pub random : ℕ
  pub held_flag : Bool
  pub held_encoding : ℤ

abbrev pub Action : Type 0
Action = Exec Session (Unit {0})

-- `builder.Build(*connection_, …); builder.Send(*connection_);`
unfoldable pub send_packet : Packet → Action
unfolding transmit
send_packet p = change λ s.
    map_outcome (λ c. record s { connection = c })
      (transmit p.service_id p.attribute p.fields s.connection)

-- `RequestClientProfile`, and `RefreshProfile` of the contact events.
unfoldable pub request_client_profile : Action
unfolding send_packet client_profile
request_client_profile s =
    send_packet (client_profile s.profiles.client_id s.profiles s.contacts s.blocked) s

-- The loop that collects the contacts that are online.
unfoldable pub online_contacts : ContactManager → List ContactInfo
unfolding is_online
online_contacts [] = []
online_contacts ((id, c) ∷ contacts) =
    if is_online c then c ∷ online_contacts contacts else online_contacts contacts

unfoldable pub send_online_contacts : Action
send_online_contacts s =
    send_packet (set_contacts_status s.profiles.client_id (online_contacts s.contacts)) s

unfoldable pub begin_session : Action
unfolding request_client_profile send_online_contacts online_contacts send_packet
begin_session = do request_client_profile; send_online_contacts; send_packet ping_configuration
