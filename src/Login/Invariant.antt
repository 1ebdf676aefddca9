-- ===== src/Login/Invariant.antt =====
-- A server keeps the invariant of its session through the login and behind it.
use giblet.Common.{◌≡◌, refl}
use giblet.Common.Exec.{Exec, modify}
use giblet.Common.Exec.Keeps.{Keeps, Keeps-bind, Keeps-then, Keeps-modify, Keeps-lift}
use giblet.Runtime.{chars}
use giblet.Connection.{ClientConnection, set_protocol_version}
use giblet.Parser.{parse}
use giblet.Dispatcher.{DispatchMap}
use giblet.Packets.Login.{protocol_ack, challenge_response_none}
use giblet.Payloads.Authentication
use giblet.Payloads.ChallengeRequest
use giblet.Payloads.ProtocolSync
use giblet.Session.{Session, Action}
use giblet.Session.Invariant.{IsSession, send_packet-Keeps}
use giblet.Dispatcher.Invariant.{KeepsAll, IsSafeMap, dispatch-Keeps}
use giblet.Login.{
  Server, Phase, logging_in, established, in_session, on_protocol_sync, on_challenge_request,
  on_authenticate, login_map, serve_phase, serve,
}

abbrev pub IsServer : Server → Type 0
IsServer s = IsSession s.session

pub in_session-Keeps : {m : Action} → Keeps IsSession m → Keeps IsServer (in_session m)
unfolding in_session
in_session-Keeps k = record { holds = λ s. k.holds s.session }

pub connection-Keeps :
    (f : ClientConnection → ClientConnection)
    → ((c : ClientConnection) → (f c).sent ≡ c.sent)
    → Keeps IsSession (modify λ s. record s { connection = f s.connection })
connection-Keeps f h =
    Keeps-modify λ s v. record {
      contacts = v.contacts;
      blocked = v.blocked;
      sent = rw (h s.connection) v.sent;
    }

on_protocol_sync-Keeps : KeepsAll IsServer on_protocol_sync
unfolding on_protocol_sync set_protocol_version
on_protocol_sync-Keeps header payload behind =
    Keeps-then (Keeps-lift (parse ProtocolSync.on_key_pair ProtocolSync.initial payload behind)) (
      Keeps-then
        (in_session-Keeps (connection-Keeps (set_protocol_version header.proto_version) λ c. refl))
        (in_session-Keeps (send_packet-Keeps protocol_ack)))

on_challenge_request-Keeps : KeepsAll IsServer on_challenge_request
unfolding on_challenge_request
on_challenge_request-Keeps header payload behind =
    Keeps-bind
      (Keeps-lift (parse ChallengeRequest.on_key_pair ChallengeRequest.initial payload behind))
      λ p.
        Keeps-then (Keeps-modify λ s v. v)
          (in_session-Keeps (send_packet-Keeps (challenge_response_none (chars p.client_id))))

module _ (on_client_authenticated : Exec Server (Unit {0}))
    (finished : Keeps IsServer on_client_authenticated) where
  on_authenticate-Keeps : KeepsAll IsServer (on_authenticate on_client_authenticated)
  unfolding on_authenticate
  on_authenticate-Keeps header payload behind =
      Keeps-then
        (Keeps-lift (parse Authentication.on_key_pair Authentication.initial payload behind))
        (Keeps-then (Keeps-modify λ s v. v) finished)

  login_map-IsSafeMap : IsSafeMap IsServer (login_map on_client_authenticated)
  unfolding login_map
  login_map-IsSafeMap =
      (on_protocol_sync-Keeps, (on_challenge_request-Keeps, (on_authenticate-Keeps, tt)))

  module _ (session_map : DispatchMap Session) (safe : IsSafeMap IsSession session_map) where
    serve_phase-Keeps :
        (phase : Phase) → KeepsAll IsServer (serve_phase on_client_authenticated phase session_map)
    unfolding serve_phase
    serve_phase-Keeps logging_in header payload behind =
        dispatch-Keeps (login_map on_client_authenticated) login_map-IsSafeMap header payload behind
    serve_phase-Keeps established header payload behind =
        in_session-Keeps (dispatch-Keeps session_map safe header payload behind)

    -- Before and behind the end of the login.
    pub serve-Keeps : KeepsAll IsServer (serve on_client_authenticated session_map)
    unfolding serve
    serve-Keeps header payload behind = record {
      holds = λ s. (serve_phase-Keeps s.phase header payload behind).holds s;
    }
