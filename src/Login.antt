-- ===== src/Login.antt =====
-- Protocols/YMsg/include/Protocols/YMsg/AuthenticationHandler.h and src/AuthenticationHandler.cpp: the
-- packets before a session. The dispatcher starts with the handler's map; the end of the login, which
-- is a parameter, may replace it.
pub mod Invariant
pub mod Waiting
use giblet.Common.{[], ◌∷◌, Bytes, codes, ◌==◌, if◌then◌else◌}
use giblet.Common.Exec.{Exec, lift, modify, ◌>>◌, ◌>>=◌}
use giblet.Runtime.{chars}
use giblet.Types.{Availability, offline, available}
use giblet.Connection.{set_protocol_version}
use giblet.Stream.{DispatcherFunction}
use giblet.Parser.{parse}
use giblet.Dispatcher.{DispatchMap, dispatch}
use giblet.Packets.Login.{protocol_ack, challenge_response_none}
use giblet.Payloads.Authentication
use giblet.Payloads.ChallengeRequest
use giblet.Payloads.ProtocolSync
use giblet.Session.{Session, Action, send_packet}

-- The map that the dispatcher holds.
pub data Phase : Type 0 where
  logging_in established : Phase

-- The handler's fields, the dispatcher's map, and the session's objects; before the login is over
-- only the connection of these is there.
pub record Server : Type 0 where
  pub session : Session
  pub client_id : Bytes
  pub password : Bytes
  pub initial_availability : Availability
  pub phase : Phase

-- What an action on the session does to the server.
unfoldable pub in_session : Action → Exec Server (Unit {0})
in_session action s = let (r, session) = action s.session in (r, record s { session = session })

unfoldable pub on_protocol_sync : DispatcherFunction Server
unfolding parse ProtocolSync.on_key_pair in_session set_protocol_version send_packet
on_protocol_sync header payload behind = do
  lift (parse ProtocolSync.on_key_pair ProtocolSync.initial payload behind)
  in_session
      (modify λ s. record s { connection = set_protocol_version header.proto_version s.connection })
  in_session (send_packet protocol_ack)

unfoldable pub on_challenge_request : DispatcherFunction Server
unfolding parse ChallengeRequest.on_key_pair ChallengeRequest.initial in_session send_packet
on_challenge_request header payload behind = do
  p ← lift (parse ChallengeRequest.on_key_pair ChallengeRequest.initial payload behind)
  modify λ s. record s { client_id = chars p.client_id }
  in_session (send_packet (challenge_response_none (chars p.client_id)))

module _ (on_client_authenticated : Exec Server (Unit {0})) where
  -- The source compares the packet's client id with the one of the challenge, and does nothing if
  -- they differ.
  unfoldable pub on_authenticate : DispatcherFunction Server
  unfolding parse Authentication.on_key_pair Authentication.initial
  on_authenticate header payload behind = do
    lift (parse Authentication.on_key_pair Authentication.initial payload behind)
    modify λ s. record s {
      initial_availability = if header.attribute == 12 then offline else available;
      password = codes "password";
    }
    on_client_authenticated

  -- `CreateDispatchMap`.
  unfoldable pub login_map : DispatchMap Server
  unfolding on_protocol_sync on_challenge_request on_authenticate
  login_map =
      (ProtocolSync.service_id, on_protocol_sync)
      ∷ (ChallengeRequest.service_id, on_challenge_request)
      ∷ (Authentication.service_id, on_authenticate)
      ∷ []

  -- The dispatcher with the map of a phase; `session_map` is the session's.
  unfoldable pub serve_phase : Phase → DispatchMap Session → DispatcherFunction Server
  unfolding login_map dispatch in_session
  serve_phase logging_in session_map header payload behind =
      dispatch login_map header payload behind
  serve_phase established session_map header payload behind =
      in_session (dispatch session_map header payload behind)

  -- The dispatcher with the map that it holds now.
  unfoldable pub serve : DispatchMap Session → DispatcherFunction Server
  unfolding serve_phase
  serve session_map header payload behind s =
      serve_phase s.phase session_map header payload behind s
