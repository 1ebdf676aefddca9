-- ===== src/Session/Invariant.antt =====
-- The invariant of a session, which every part of the server keeps whatever it is sent.
use giblet.Common.{
  ℕ, ◌+◌, ◌^◌, ◌<◌, ◌≡◌, sym, ap, ◌∙◌, List, [], ◌∷◌, ◌++◌, arith, Bytes, leb, length,
  length-append, All, Bool-cases, inl, inr, Outcome, map_outcome,
}
use giblet.Common.Exec.{change}
use giblet.Common.Exec.Keeps.{Keeps, OnReturn, OnReturn-map, Keeps-change, Keeps-then}
use giblet.Header.{signature, host_long, host_short, raw_header_size, to_raw}
use giblet.Header.RoundTrip.{short_round, length-to_raw, signature-to_raw}
use giblet.Connection.{ClientConnection, send_to_client}
use giblet.Builder.{max_payload_size}
use giblet.Builder.Packet.{transmit, transmit_lem, packet, header_for}
use giblet.Parser.RoundTrip.{encode_onto}
use giblet.Contacts.{ContactManager}
use giblet.Contacts.Laws.{IsContacts}
use giblet.Blocked.Laws.{IsNodup}
use giblet.Packets.{Packet}
use giblet.Packets.Profile.{client_profile}
use giblet.Packets.Status.{set_contacts_status}
use giblet.Packets.Login.{ping_configuration}
use giblet.Session.{
  Session, send_packet, request_client_profile, send_online_contacts, online_contacts,
  begin_session,
}

-- A block is one whole packet: the signature, and a size field that counts the bytes behind the header.
pub record IsWhole (block : Bytes) : Type 0 where
  pub signed : host_long 0 block ≡ signature
  pub sized : length block ≡ raw_header_size + host_short 8 block
  pub small : length block < max_payload_size

pub record IsSession (s : Session) : Type 0 where
  pub contacts : IsContacts s.contacts
  pub blocked : IsNodup s.blocked
  pub sent : All IsWhole s.connection.sent

size-packet :
    (c : ClientConnection) (service_id attribute : ℕ) (fields : List (ℕ × Bytes))
    → length (encode_onto fields []) < 2 ^ 16
    → host_short 8 (packet c service_id attribute fields) ≡ length (encode_onto fields [])
unfolding to_raw
size-packet c service_id attribute fields h = short_round (length (encode_onto fields [])) h

packet-IsWhole :
    (c : ClientConnection) (service_id attribute : ℕ) (fields : List (ℕ × Bytes))
    → raw_header_size + length (encode_onto fields []) < max_payload_size
    → IsWhole (packet c service_id attribute fields)
packet-IsWhole c service_id attribute fields h =
    let header = header_for c service_id attribute fields in
    let payload = encode_onto fields [] in
    let sized =
      length-append (to_raw header) payload ∙ ap (λ n. n + length payload) (length-to_raw header) in
    let size = size-packet c service_id attribute fields (omega arith) in
    record {
      signed = signature-to_raw header payload;
      sized = sized ∙ ap (λ n. raw_header_size + n) (sym size);
      small = omega arith;
    }

All-snoc :
    (blocks : List Bytes) (block : Bytes)
    → All IsWhole blocks
    → IsWhole block
    → All IsWhole (blocks ++ block ∷ [])
All-snoc [] block h w = (w, tt)
All-snoc (b ∷ blocks) block (hb, h) w = (hb, All-snoc blocks block h w)

-- The session with another connection, if the call that gives it returns.
abbrev connected : Session → Outcome ClientConnection → Outcome Session
connected s = map_outcome λ c. record s { connection = c }

connected-IsSession :
    (p : Packet) (s : Session)
    → IsSession s
    → OnReturn IsSession (connected s (transmit p.service_id p.attribute p.fields s.connection))
unfolding send_to_client
connected-IsSession p s v =
    let size = raw_header_size + length (encode_onto p.fields []) in
    rw (transmit_lem s.connection p.service_id p.attribute p.fields)
      (elim (Bool-cases (leb max_payload_size size)) [
        | inl full ↦ rw full tt
        | inr fits ↦ rw fits (record {
          contacts = v.contacts;
          blocked = v.blocked;
          sent =
              All-snoc s.connection.sent _ v.sent
                (packet-IsWhole s.connection p.service_id p.attribute p.fields (ground arith));
        })
      ])

-- Sending any packet keeps the invariant.
pub send_packet-Keeps : (p : Packet) → Keeps IsSession (send_packet p)
unfolding send_packet
send_packet-Keeps p = Keeps-change _ (connected-IsSession p)

-- A packet that is made from the session.
pub send_packet-Keeps_at : (p : Session → Packet) → Keeps IsSession (λ s. send_packet (p s) s)
send_packet-Keeps_at p = record { holds = λ s. (send_packet-Keeps (p s)).holds s }

pub request_client_profile-Keeps : Keeps IsSession request_client_profile
unfolding request_client_profile
request_client_profile-Keeps =
    send_packet-Keeps_at λ s. client_profile s.profiles.client_id s.profiles s.contacts s.blocked

send_online_contacts-Keeps : Keeps IsSession send_online_contacts
unfolding send_online_contacts
send_online_contacts-Keeps =
    send_packet-Keeps_at λ s. set_contacts_status s.profiles.client_id (online_contacts s.contacts)

pub begin_session-Keeps : Keeps IsSession begin_session
unfolding begin_session
begin_session-Keeps =
    Keeps-then request_client_profile-Keeps
      (Keeps-then send_online_contacts-Keeps (send_packet-Keeps ping_configuration))

-- A new contact list that is as good as the old one.
pub contacts-IsSession :
    (s : Session) (m : ContactManager)
    → IsSession s
    → IsContacts m
    → IsSession (record s { contacts = m })
contacts-IsSession s m v w = record { contacts = w; blocked = v.blocked; sent = v.sent }

pub contacts_change-Keeps :
    (f : ContactManager → Outcome ContactManager)
    → ((m : ContactManager) → IsContacts m → OnReturn IsContacts (f m))
    → Keeps IsSession (change λ s. map_outcome (λ m. record s { contacts = m }) (f s.contacts))
contacts_change-Keeps f h = Keeps-change {S = Session} {P = IsSession} _ λ s v.
    OnReturn-map IsContacts IsSession (f s.contacts) (λ m. record s { contacts = m })
      (h s.contacts v.contacts) (λ m w. contacts-IsSession s m v w)
