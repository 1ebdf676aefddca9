-- ===== src/Server.antt =====
-- The server behind one socket, from its acceptance on: the loop of
-- Protocols/YMsg/src/ConnectionPump.cpp calls the stream event by event, the stream calls the dispatcher.
pub mod Invariant
use giblet.Common.{ℕ, Bool, List, [], ◌∷◌, Bytes, if◌then◌else◌}
use giblet.Common.Exec.{Exec, pure, ◌>>=◌}
use giblet.Types.{offline, available}
use giblet.Stream.{ProtocolStream, Received, DispatcherFunction, process_pending_data}
use giblet.Presence
use giblet.Session.{Environment}
use giblet.DispatchMaps.{create}
use giblet.Login.{Server, logging_in, serve}
use giblet.Mock
use giblet.Mock.Login.{on_client_authenticated}

-- The dispatcher of a server with the mock service.
unfoldable pub dispatcher : Environment → DispatcherFunction Server
unfolding serve on_client_authenticated create
dispatcher env = serve (on_client_authenticated env) (create env (Mock.links env))

-- What the program reads in one round of the loop: the environment, the number of bytes that are
-- there, and what `recv` did.
abbrev pub Event : Type 0
Event = Environment × ℕ × Received

-- `Pump` for one socket. A callback that gives false is erased, and an exception leaves the loop.
unfoldable pub pump : List Event → Exec (ProtocolStream Server) (Unit {0})
unfolding process_pending_data dispatcher
pump [] = pure tt
pump ((env, n, result) ∷ events) =
    let rest = pump events in
    process_pending_data (dispatcher env) n result >>= λ more. if more then rest else pure tt

-- A connection that was just accepted. The constructor of `ClientConnection` sets neither the session id
-- nor the protocol version, which are the arguments; the lists are there only behind the login.
unfoldable pub accepted : ℕ → ℕ → ProtocolStream Server
unfolding Presence.initial
accepted session_id protocol_version = record {
  data_ = [];
  world = record {
    session = record {
      connection = record {
        session_id = session_id;
        protocol_version = protocol_version;
        sent = [];
      };
      contacts = [];
      profiles = record { client_id = []; profiles = [] };
      blocked = [];
      properties = Presence.initial offline;
    };
    client_id = [];
    password = [];
    initial_availability = offline;
    phase = logging_in;
  };
}
