-- ===== src/Mock/Login.antt =====
-- Protocols/YMsgMock/src/SessionContext.cpp and AuthenticationHandler.cpp: the end of a login, which
-- loads the lists and begins the session.
pub mod Invariant
use giblet.Common.{
  ℕ, Bool, true, false, List, [], ◌∷◌, Bytes, codes, ◌==◌, if◌then◌else◌, Outcome, returns,
  map_outcome, ◌>>=◌,
}
use giblet.Common.Exec.{Exec, modify, change, ◌>>◌}
use giblet.Types.{Availability, offline, busy, custom, encoding_none}
use giblet.Connection.{set_session_id}
use giblet.Contacts.{ContactInfo, ContactManager, linked, contact_info, load_contact}
use giblet.Profiles.{load}
use giblet.Presence
use giblet.Packets.Messages.{yahoo_alert, new_mail_count, new_mail, offline_message}
use giblet.Mock.Alert
use giblet.Session.{Environment, Action, send_packet, begin_session}
use giblet.Login.{Server, established, in_session}

-- `clientId.find(c) != npos`.
unfoldable pub has_byte : ℕ → Bytes → Bool
has_byte c [] = false
has_byte c (d ∷ s) = if d == c then true else has_byte c s

-- A packet that is sent if the client's id holds a character.
unfoldable pub send_if : ℕ → (Bytes → Action) → Action
unfolding has_byte
send_if c send s =
    if has_byte c s.profiles.client_id then send s.profiles.client_id s else (returns tt, s)

-- `MockSessionContext::BeginSession`.
unfoldable pub begin_mock_session : Action
unfolding begin_session send_if send_packet
begin_mock_session = do
  begin_session
  send_if b'*' λ id. send_packet (
      yahoo_alert id (codes "Yahoo! Alerts")
        (codes "http://beta.alerts.yahoo.com/main.php?view=my_alerts") Alert.article_meta
        (codes "Breaking News (AP, Reuters)") Alert.content)
  send_if b'-' λ id. send_packet (new_mail_count 5)
  send_if b'_'
      λ id. send_packet (new_mail (codes "me@yahoo.com") (codes "Some Guy") (codes "Some subject"))
  send_if b'.' λ id. send_packet (offline_message id (codes "Ed_") (codes "Hello!") encoding_none)

-- The contacts that the login loads, in order.
unfoldable pub initial_contacts : Bool → Availability → List ContactInfo
unfolding contact_info
initial_contacts held availability =
    contact_info held (codes "jay") (codes "Friends") linked offline false []
    ∷ contact_info held (codes "donna") (codes "Friends") linked custom false
        (codes "Listening to Bewiz - Booters Paradise")
    ∷ contact_info held (codes "david") (codes "Friends") linked busy true []
    ∷ contact_info held (codes "winky") (codes "Myself") linked availability false []
    ∷ contact_info held (codes "dinky") (codes "Myself") linked availability false []
    ∷ contact_info held (codes "blinky") (codes "Myself") linked availability false []
    ∷ contact_info held (codes "brad") (codes "Myself") linked availability false []
    ∷ []

unfoldable pub load_contacts : List ContactInfo → ContactManager → Outcome ContactManager
unfolding load_contact
load_contacts [] m = returns m
load_contacts (c ∷ cs) m = load_contact c m >>= load_contacts cs

-- The managers of a new session, from its contact list.
unfoldable pub with_managers : Server → ContactManager → Server
unfolding Presence.initial load
with_managers s contacts = record s {
  session = record s.session {
    contacts = contacts;
    profiles =
        load s.client_id
          (codes "winky" ∷ codes "dinky" ∷ codes "blinky" ∷ codes "brad" ∷ codes "greg" ∷ []);
    blocked = codes "wierdo" ∷ codes "jerk" ∷ codes "germinator" ∷ [];
    properties = Presence.initial s.initial_availability;
  };
}

unfoldable pub new_session : Environment → Server → Outcome Server
unfolding load_contacts initial_contacts with_managers
new_session env s =
    map_outcome (with_managers s)
      (load_contacts (initial_contacts env.held_flag s.initial_availability) [])

-- `MockAuthenticationHandler::OnClientAuthenticated`. `rand()` gives the session id.
unfoldable pub on_client_authenticated : Environment → Exec Server (Unit {0})
unfolding new_session in_session set_session_id begin_mock_session
on_client_authenticated env = do
  change (new_session env)
  in_session (modify λ s. record s { connection = set_session_id env.random s.connection })
  in_session begin_mock_session
  modify λ s. record s { phase = established }
