-- ===== src/Login/Waiting.antt =====
-- Before the login is over.
use giblet.Common.{ℕ, ◌≡◌, ◌≢◌, refl, ap, ◌∙◌, Bytes, ◌==◌, Bool-cases, inl, inr, arith}
use giblet.Common.Exec.{Exec, modify}
use giblet.Common.Exec.Keeps.{Keeps, Keeps-bind, Keeps-then, Keeps-modify, Keeps-lift}
use giblet.Header.{Header}
use giblet.Runtime.{chars}
use giblet.Connection.{ClientConnection, set_protocol_version}
use giblet.Parser.{parse, payload_on_key_pair}
use giblet.Dispatcher.{DispatchMap, find_processor, call, dispatch, unknown_service}
use giblet.Packets.{Packet}
use giblet.Packets.Login.{protocol_ack, challenge_response_none}
use giblet.Payloads.Authentication
use giblet.Payloads.ChallengeRequest
use giblet.Payloads.ProtocolSync
use giblet.Session.{Session, send_packet}
use giblet.Session.Sending.{send_packet-connection}
use giblet.Dispatcher.Invariant.{KeepsAll}
use giblet.Login.{
  Server, logging_in, in_session, on_protocol_sync, on_challenge_request, login_map, serve_phase,
  serve,
}

-- The login is not over, and the session is this one but for its connection.
pub record IsWaiting (session : Session) (s : Server) : Type 0 where
  pub waiting : s.phase ≡ logging_in
  pub same : s.session ≡ record session { connection = s.session.connection }

module _ (session : Session) where
  modify-IsWaiting :
      (f : ClientConnection → ClientConnection)
      → Keeps
          (IsWaiting session)
          (in_session (modify λ s. record s { connection = f s.connection }))
  unfolding in_session
  modify-IsWaiting f = record {
    holds = λ s v. record {
      waiting = v.waiting;
      same = ap (λ (t : Session). record t { connection = f s.session.connection }) v.same;
    };
  }

  send-IsWaiting : (p : Packet) → Keeps (IsWaiting session) (in_session (send_packet p))
  unfolding in_session
  send-IsWaiting p = record {
    holds = λ s v. record {
      waiting = v.waiting;
      same =
          send_packet-connection p s.session
          ∙ ap (λ (t : Session). record t { connection = (send_packet p s.session).1.connection })
              v.same;
    };
  }

  on_protocol_sync-IsWaiting : KeepsAll (IsWaiting session) on_protocol_sync
  unfolding on_protocol_sync
  on_protocol_sync-IsWaiting header payload behind =
      Keeps-then (Keeps-lift (parse ProtocolSync.on_key_pair ProtocolSync.initial payload behind)) (
        Keeps-then (modify-IsWaiting (set_protocol_version header.proto_version))
          (send-IsWaiting protocol_ack))

  on_challenge_request-IsWaiting : KeepsAll (IsWaiting session) on_challenge_request
  unfolding on_challenge_request
  on_challenge_request-IsWaiting header payload behind =
      Keeps-bind
        (Keeps-lift (parse ChallengeRequest.on_key_pair ChallengeRequest.initial payload behind))
        λ p.
          Keeps-then (Keeps-modify λ s v. record { waiting = v.waiting; same = v.same })
            (send-IsWaiting (challenge_response_none (chars p.client_id)))

  unknown_service-IsWaiting : KeepsAll (IsWaiting session) unknown_service
  unfolding unknown_service
  unknown_service-IsWaiting header payload behind =
      Keeps-lift (parse payload_on_key_pair tt payload behind)

module _ (on_client_authenticated : Exec Server (Unit {0})) where
  call-IsWaiting :
      (session : Session) (id : ℕ)
      → id ≢ Authentication.service_id
      → KeepsAll (IsWaiting session) (call (find_processor id (login_map on_client_authenticated)))
  unfolding find_processor login_map call
  call-IsWaiting session id other = elim (Bool-cases (ProtocolSync.service_id == id)) [
    | inl sync ↦ rw sync (on_protocol_sync-IsWaiting session)
    | inr no_sync ↦ rw no_sync (elim (Bool-cases (ChallengeRequest.service_id == id)) [
      | inl challenge ↦ rw challenge (on_challenge_request-IsWaiting session)
      | inr no_challenge ↦ rw no_challenge (elim (Bool-cases (Authentication.service_id == id)) [
        | inl same ↦ absurd (ground arith)
        | inr unknown ↦ rw unknown (unknown_service-IsWaiting session)
      ])
    ])
  ]

  -- Nothing but an authentication packet ends the login: on any other packet, known or unknown, well formed or
  -- not, a server that waits for the login goes on waiting, and its session changes in nothing but the
  -- connection.
  pub serve-IsWaiting :
      (session_map : DispatchMap Session) (header : Header) (payload behind : Bytes) (s : Server)
      → s.phase ≡ logging_in
      → header.service_id ≢ Authentication.service_id
      → IsWaiting s.session (serve on_client_authenticated session_map header payload behind s).1
  unfolding serve serve_phase dispatch
  serve-IsWaiting session_map header payload behind s waiting other = rw waiting (
      (call-IsWaiting s.session header.service_id other header payload behind).holds
        (record s { phase = logging_in }) (record { waiting = refl; same = refl }))
