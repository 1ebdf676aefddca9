-- ===== src/Server/Invariant.antt =====
-- Whatever arrives, a server keeps its invariant.
use giblet.Common.{ℕ, List, [], ◌∷◌, returns}
use giblet.Common.Exec.Keeps.{Keeps, Keeps-bind, Keeps-lift, Keeps-if}
use giblet.Stream.{ProtocolStream}
use giblet.Stream.Invariant.{process_pending_data-Keeps}
use giblet.Session.{Environment}
use giblet.Session.Invariant.{IsSession}
use giblet.Dispatcher.Invariant.{KeepsAll}
use giblet.DispatchMaps.Invariant.{create-IsSafeMap}
use giblet.Login.{Server}
use giblet.Login.Invariant.{IsServer, serve-Keeps}
use giblet.Mock
use giblet.Mock.Invariant.{links-IsSafe}
use giblet.Mock.Login.Invariant.{on_client_authenticated-Keeps}
use giblet.DispatchMaps.{create}
use giblet.Mock.Login.{on_client_authenticated}
use giblet.Server.{dispatcher, Event, pump, accepted}

dispatcher-Keeps : (env : Environment) → KeepsAll IsServer (dispatcher env)
unfolding dispatcher
dispatcher-Keeps env =
    serve-Keeps (on_client_authenticated env) (on_client_authenticated-Keeps env)
      (create env (Mock.links env)) (create-IsSafeMap env (Mock.links env) (links-IsSafe env))

pump-Keeps :
    (events : List Event)
    → Keeps (λ (stream : ProtocolStream Server). IsServer stream.world) (pump events)
unfolding pump
pump-Keeps [] = Keeps-lift (returns tt)
pump-Keeps ((env, n, result) ∷ events) =
    let rest = pump-Keeps events in
    Keeps-bind
      (process_pending_data-Keeps IsServer (dispatcher env) (dispatcher-Keeps env) n result)
      λ more. Keeps-if more rest (Keeps-lift (returns tt))

-- Let any bytes arrive on a connection that was just accepted, in any reads, before, in and behind the
-- login, and let the loop end however it does: at the end of the events, by an exception, or with a call that
-- is undefined behaviour. Then up to there the session's contact list is a map with each contact under its own
-- id, no user is blocked twice, and every block that was sent to the client is one whole packet: it
-- begins with the signature, its size field counts the bytes behind the header, and it is below 64 KB.
pub pump-IsSession :
    (session_id protocol_version : ℕ) (events : List Event)
    → IsSession (pump events (accepted session_id protocol_version)).1.world.session
unfolding accepted
pump-IsSession session_id protocol_version events =
    (pump-Keeps events).holds (accepted session_id protocol_version)
      (record { contacts = record { sorted = tt; keyed = tt }; blocked = tt; sent = tt })
