-- ===== src/DispatchMaps/Unknown.antt =====
-- Packets that a session has no processor for.
use giblet.Common.{
  ℕ, ◌≡◌, ◌≢◌, refl, ◌∙◌, ap, none, List, [], ◌∷◌, ◌++◌, Bytes, All, ℤ, returns, arith,
}
use giblet.Runtime.{StringView}
use giblet.Header.{Header}
use giblet.Parser.{payload_on_key_pair}
use giblet.Parser.RoundTrip.{IsPair, EndsPayload, encode_onto, views, feed, parse-encode_onto}
use giblet.Dispatcher.{find_processor, add_processor, unknown_service, call, dispatch}
use giblet.Links.{Links}
use giblet.Session.{Session, Environment}
use giblet.DispatchMaps.{v11_processors, add_all, create}

-- The service ids that a session handles: the status, the profiles, the contacts, the messages, the
-- operation of a service, and the chat.
abbrev pub session_services : List ℕ
session_services = 85 ∷ 3 ∷ 4 ∷ 7 ∷ 8 ∷ 131 ∷ 137 ∷ 132 ∷ 134 ∷ 133 ∷ 6 ∷ 23 ∷ 75 ∷ 150 ∷ 152 ∷ []

find_processor-create :
    (env : Environment) (links : Links) (id : ℕ)
    → All (λ k. k ≢ id) session_services
    → find_processor id (create env links) ≡ none
unfolding find_processor create add_all add_processor v11_processors
find_processor-create env links id h = ground arith

-- The base class takes every pair without a change.
feed-payload_on_key_pair :
    (pairs : List (ℤ × StringView)) → feed payload_on_key_pair tt pairs ≡ returns tt
unfolding feed payload_on_key_pair
feed-payload_on_key_pair [] = refl
feed-payload_on_key_pair ((k, v) ∷ pairs) = feed-payload_on_key_pair pairs

-- A packet with a service id other than the fifteen that a session handles, whose payload is keys and
-- values with nothing or a zero byte and garbage behind them, is passed over: the dispatcher returns,
-- and the session is as it was. The keys fit a `long`, and no value holds a terminator.
pub dispatch-unknown_service :
    (env : Environment) (links : Links) (header : Header) (pairs : List (ℕ × Bytes))
    (tail behind : Bytes) (s : Session)
    → All (λ k. k ≢ header.service_id) session_services
    → All IsPair pairs
    → EndsPayload tail
    → dispatch (create env links) header (encode_onto pairs tail) behind s ≡ (returns tt, s)
unfolding dispatch call unknown_service
dispatch-unknown_service env links header pairs tail behind s other clean ends =
    rw (find_processor-create env links header.service_id other) (
      ap (λ r. (r, s))
        (parse-encode_onto payload_on_key_pair tt pairs tail behind clean ends
          ∙ feed-payload_on_key_pair (views pairs (tail ++ behind))))
