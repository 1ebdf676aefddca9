-- ===== src/Tests/Requests.antt =====
-- Requests of a client at work.
use giblet.Common.{returns, ◌≡◌, refl, [], ◌∷◌, ◌++◌, Bytes, codes, arith}
use giblet.Header.{Header}
use giblet.Parser.RoundTrip.{encode_onto}
use giblet.Stream.{received}
use giblet.Session.Invariant.{IsSession}
use giblet.Dispatcher.{dispatch}
use giblet.DispatchMaps.{create}
use giblet.DispatchMaps.Invariant.{dispatch-IsSession}
use giblet.Mock
use giblet.Common.{◌≢◌, arith}
use giblet.Types.{offline}
use giblet.Login.{Server, logging_in, serve}
use giblet.Login.Waiting.{IsWaiting, serve-IsWaiting}
use giblet.Payloads.Authentication
use giblet.Mock.Login.{on_client_authenticated}
use giblet.Server.{pump, accepted}
use giblet.Server.Invariant.{pump-IsSession}
use giblet.DispatchMaps.Unknown.{dispatch-unknown_service}
use giblet.DispatchMaps.Requests.{add_contact_fields, dispatch-add_contact}
use giblet.Tests.{header, session, session-IsSession, environment, fields}

dispatch-IsSession_example :
    IsSession
      (dispatch
        (create environment (Mock.links environment))
        header
        (encode_onto fields [])
        []
        session).1
dispatch-IsSession_example =
    dispatch-IsSession environment header (encode_onto fields []) [] session session-IsSession

-- A packet that asks for the protocol version, before the login.
abbrev sync : Bytes
sync = codes "YMSG" ++ 0 ∷ 11 ∷ 0 ∷ 0 ∷ 0 ∷ 0 ∷ 0 ∷ 76 ∷ 0 ∷ 0 ∷ 0 ∷ 0 ∷ 0 ∷ 0 ∷ 0 ∷ 0 ∷ []

pump-IsSession_example :
    IsSession (pump ((environment, 20, received sync) ∷ []) (accepted 3 10)).1.world.session
pump-IsSession_example = pump-IsSession 3 10 ((environment, 20, received sync) ∷ [])

-- A header with a service id that the session does not know.
abbrev strange : Header
strange = record header { service_id = 4000 }

dispatch-unknown_service_example :
    dispatch
      (create environment (Mock.links environment))
      strange
      (encode_onto fields [])
      []
      session
    ≡ (returns tt, session)
dispatch-unknown_service_example =
    dispatch-unknown_service environment (Mock.links environment) strange fields [] [] session
      (ground arith) (ground arith) tt

dispatch-add_contact_example :
    dispatch
      (create environment (Mock.links environment))
      header
      (encode_onto (add_contact_fields (codes "ed") (codes "dave") (codes "Work") (codes "hi")) [])
      []
      session
    ≡ (Mock.links environment).add_contact
        (codes "ed")
        (codes "dave")
        (codes "Work")
        (codes "hi")
        session
dispatch-add_contact_example =
    dispatch-add_contact environment (Mock.links environment) header (codes "ed") (codes "dave")
      (codes "Work") (codes "hi") [] [] session
      ((omega arith, refl), ((omega arith, refl), ((omega arith, refl), ((omega arith, refl), tt))))
      tt refl

-- A server whose client tries to add a contact before the login.
abbrev early : Server
early = record {
  session = session;
  client_id = [];
  password = [];
  initial_availability = offline;
  phase = logging_in;
}

add_contact-other : header.service_id ≢ Authentication.service_id
add_contact-other e = absurd (ground arith)

serve-IsWaiting_example :
    IsWaiting session
      (serve
        (on_client_authenticated environment)
        (create environment (Mock.links environment))
        header
        (encode_onto fields [])
        []
        early).1
serve-IsWaiting_example =
    serve-IsWaiting (on_client_authenticated environment)
      (create environment (Mock.links environment)) header (encode_onto fields []) [] early refl
      add_contact-other
