-- ===== src/Mock/Login/Invariant.antt =====
-- The session that a login begins has the invariant.
use giblet.Common.{ℕ, refl, List, [], ◌∷◌, Bytes, codes, equals, returns}
use giblet.Common.Exec.{change}
use giblet.Common.Exec.Keeps.{
  Keeps, OnReturn, OnReturn-bind, OnReturn-map, Keeps-then, Keeps-modify, Keeps-change, Keeps-lift,
  Keeps-if_at,
}
use giblet.Types.{encoding_none}
use giblet.Connection.{set_session_id}
use giblet.Blocked.{contains}
use giblet.Blocked.Laws.{IsNodup}
use giblet.Contacts.{ContactInfo, ContactManager, load_contact}
use giblet.Contacts.Laws.{IsContacts, load_contact-IsContacts}
use giblet.Packets.Messages.{yahoo_alert, new_mail_count, new_mail, offline_message}
use giblet.Session.{Environment, Action}
use giblet.Session.Invariant.{IsSession, send_packet-Keeps, begin_session-Keeps}
use giblet.Login.{Server}
use giblet.Login.Invariant.{IsServer, in_session-Keeps, connection-Keeps}
use giblet.Mock.Alert
use giblet.Mock.Login.{
  has_byte, send_if, begin_mock_session, initial_contacts, load_contacts, with_managers,
  new_session, on_client_authenticated,
}

send_if-Keeps :
    (c : ℕ) (send : Bytes → Action)
    → ((id : Bytes) → Keeps IsSession (send id))
    → Keeps IsSession (send_if c send)
unfolding send_if
send_if-Keeps c send k =
    Keeps-if_at (λ s. has_byte c s.profiles.client_id)
      (record { holds = λ s. (k s.profiles.client_id).holds s }) (Keeps-lift (returns tt))

begin_mock_session-Keeps : Keeps IsSession begin_mock_session
unfolding begin_mock_session
begin_mock_session-Keeps = Keeps-then begin_session-Keeps (
    Keeps-then
      (send_if-Keeps b'*' _ λ id. send_packet-Keeps (
        yahoo_alert id (codes "Yahoo! Alerts")
          (codes "http://beta.alerts.yahoo.com/main.php?view=my_alerts") Alert.article_meta
          (codes "Breaking News (AP, Reuters)") Alert.content))
      (Keeps-then (send_if-Keeps b'-' _ λ id. send_packet-Keeps (new_mail_count 5)) (
        Keeps-then
          (send_if-Keeps b'_' _ λ id.
            send_packet-Keeps
              (new_mail (codes "me@yahoo.com") (codes "Some Guy") (codes "Some subject")))
          (send_if-Keeps b'.' _ λ id.
            send_packet-Keeps (offline_message id (codes "Ed_") (codes "Hello!") encoding_none)))))

load_contacts-IsContacts :
    (cs : List ContactInfo) (m : ContactManager)
    → IsContacts m
    → OnReturn IsContacts (load_contacts cs m)
unfolding load_contacts
load_contacts-IsContacts [] m v = v
load_contacts-IsContacts (c ∷ cs) m v =
    OnReturn-bind IsContacts IsContacts (load_contact c m) (load_contacts cs)
      (load_contact-IsContacts c m v) (load_contacts-IsContacts cs)

blocked-IsNodup : IsNodup (codes "wierdo" ∷ codes "jerk" ∷ codes "germinator" ∷ [])
unfolding contains equals
blocked-IsNodup = (refl, (refl, (refl, tt)))

with_managers-IsServer :
    (s : Server) (m : ContactManager) → IsServer s → IsContacts m → IsServer (with_managers s m)
unfolding with_managers
with_managers-IsServer s m v w = record { contacts = w; blocked = blocked-IsNodup; sent = v.sent }

new_session-Keeps : (env : Environment) → Keeps IsServer (change (new_session env))
unfolding new_session
new_session-Keeps env = Keeps-change (new_session env) λ s v.
    let contacts = initial_contacts env.held_flag s.initial_availability in
    OnReturn-map IsContacts IsServer (load_contacts contacts []) (with_managers s)
      (load_contacts-IsContacts contacts [] (record { sorted = tt; keyed = tt }))
      (λ m. with_managers-IsServer s m v)

pub on_client_authenticated-Keeps :
    (env : Environment) → Keeps IsServer (on_client_authenticated env)
unfolding on_client_authenticated set_session_id
on_client_authenticated-Keeps env = Keeps-then (new_session-Keeps env) (
    Keeps-then (in_session-Keeps (connection-Keeps (set_session_id env.random) λ c. refl))
      (Keeps-then (in_session-Keeps begin_mock_session-Keeps) (Keeps-modify λ s v. v)))
