-- ===== src/DispatchMaps/Requests.antt =====
-- A request on the wire against what it asks the messaging service to do.
use giblet.Common.{ℕ, ◌≡◌, refl, List, [], ◌∷◌, ◌++◌, Bytes, All}
use giblet.Header.{Header}
use giblet.Runtime.{chars}
use giblet.Parser.{value_view, terminator_byte1, terminator_byte2}
use giblet.Parser.RoundTrip.{IsPair, EndsPayload, encode_onto, feed, parse-encode_onto}
use giblet.Dispatcher.{find_processor, add_processor, call, dispatch, packet_processor}
use giblet.Links.{Links}
use giblet.Payloads.AddContact
use giblet.Payloads.AddContact.{AddContact}
use giblet.Processors
use giblet.Session.{Session, Environment}
use giblet.DispatchMaps.{v11_processors, add_all, create}

chars-value_view : (v rest : Bytes) → chars (value_view v rest) ≡ v
chars-value_view [] rest = refl
chars-value_view (c ∷ v) rest = refl

-- The keys of a request to add a contact.
abbrev pub add_contact_fields : Bytes → Bytes → Bytes → Bytes → List (ℕ × Bytes)
add_contact_fields client_id contact_id group message =
    (1, client_id) ∷ (7, contact_id) ∷ (65, group) ∷ (14, message) ∷ []

-- What stands behind a value.
abbrev behind_value : List (ℕ × Bytes) → Bytes → Bytes
behind_value pairs rest = terminator_byte1 ∷ terminator_byte2 ∷ encode_onto pairs rest

-- A request to add a contact, whatever bytes its four values hold without a terminator among them, whatever
-- stands in its header beside the service id, and with nothing or a zero byte and garbage behind the values,
-- calls the messaging service once, with exactly these values.
pub dispatch-add_contact :
    (env : Environment) (links : Links) (header : Header)
    (client_id contact_id group message tail behind : Bytes) (s : Session)
    → All IsPair (add_contact_fields client_id contact_id group message)
    → EndsPayload tail
    → header.service_id ≡ AddContact.service_id
    → dispatch
        (create env links)
        header
        (encode_onto (add_contact_fields client_id contact_id group message) tail)
        behind
        s
      ≡ links.add_contact client_id contact_id group message s
unfolding dispatch call find_processor create add_all add_processor v11_processors packet_processor
    Processors.add_contact AddContact.on_key_pair AddContact.initial feed
dispatch-add_contact env links header client_id contact_id group message tail behind s clean ends
      e =
    rw e (
      rw
        (parse-encode_onto AddContact.on_key_pair AddContact.initial
          (add_contact_fields client_id contact_id group message) tail behind clean ends)
        (λ i.
          links.add_contact
            (chars-value_view client_id
              (behind_value ((7, contact_id) ∷ (65, group) ∷ (14, message) ∷ []) (tail ++ behind))
              i)
            (chars-value_view contact_id
              (behind_value ((65, group) ∷ (14, message) ∷ []) (tail ++ behind)) i)
            (chars-value_view group (behind_value ((14, message) ∷ []) (tail ++ behind)) i)
            (chars-value_view message (behind_value [] (tail ++ behind)) i) s))
