-- ===== src/Tests.antt =====
-- The theorems at work on small inputs: a client with one contact, one packet in two reads, and a few
-- fields.
pub mod Lists
pub mod Requests
pub mod CodeHook
pub mod Web
pub mod Patch
use giblet.Common.{
  true, All, flatten, map, ◌≡◌, refl, ◌≢◌, none, ◌⊎◌, false, ◌+◌, ◌<◌, List, [], ◌∷◌, ◌++◌, Bytes,
  codes, pos, returns, throws, undefined, diverges, length, arith, ℕ, equals, if◌then◌else◌, ◌||◌,
  ◌&&◌, not, some, runtime_error, leb,
}
use giblet.Runtime.{to_string, strtol}
use giblet.Runtime.Numbers.{strtol-to_string}
use giblet.Header.{Header, to_raw, of_raw, raw_header_size}
use giblet.Header.RoundTrip.{IsHeader, of_raw-to_raw}
use giblet.Connection.{ClientConnection, send_to_client}
use giblet.Parser.{parse, find_terminator}
use giblet.Parser.Terminator.{find_terminator-IsFirst, IsFirst}
use giblet.Parser.RoundTrip.{IsPair, parse-encode_onto, encode_onto, feed, views}
use giblet.Parser.Total.{Ends, parse-ne-diverges}
use giblet.Builder.{max_payload_size}
use giblet.Builder.Packet.{transmit, transmit_lem, transmit_bounds, header_for, packet}
use giblet.Stream.{has_packet, Received, received, DispatcherFunction, process_pending_data}
use giblet.Stream.Framing.{wire, IsPacket}
use giblet.Stream.Queue.{arrived, stream_of, deliver}
use giblet.Stream.Delivery.{run-deliver, run}
use giblet.Stream.Cuts.{Frame}
use giblet.Stream.Backlog.{process-backlog}
use giblet.Payloads.AddContact
use giblet.Contacts.{
  ContactInfo, ContactManager, contact_info, find_contact, add_pending_contact, remove_contact,
  rename_group, update_contact, linked, add_pending,
}
use giblet.Contacts.Changes.{
  find_contact-add_pending, find_contact-remove, find_contact-rename_group, regrouped,
}
use giblet.Contacts.Laws.{IsContacts}
use giblet.Types.{available, offline}
use giblet.Blocked.{contains, is_blocked, add, remove}
use giblet.Blocked.Laws.{is_blocked_lem}
use giblet.Session.{Session, Environment}
use giblet.Session.Invariant.{IsSession}
use giblet.Dispatcher.{dispatch}
use giblet.DispatchMaps.{create}
use giblet.DispatchMaps.Invariant.{dispatch-IsSession}
use giblet.Mock

abbrev pub connection : ClientConnection
connection = record { session_id = 7; protocol_version = 11; sent = [] }

abbrev pub header : Header
header = record {
  proto_version = 11;
  vendor_id = 0;
  payload_size = 6;
  service_id = 131;
  attribute = 0;
  session_id = 7;
}

abbrev pub jay : ContactInfo
jay = record {
  id = codes "jay";
  group = codes "Friends";
  availability = offline;
  is_busy = false;
  custom_message = [];
  idle_unknown = [];
  state = linked;
  is_in_chat = false;
}

abbrev pub contacts : ContactManager
contacts = (codes "jay", jay) ∷ []

pub contacts-IsContacts : IsContacts contacts
contacts-IsContacts = record { sorted = (tt, tt); keyed = (refl, tt) }

abbrev pub session : Session
session = record {
  connection = connection;
  contacts = contacts;
  profiles = record { client_id = codes "ed"; profiles = codes "ed" ∷ [] };
  blocked = codes "jerk" ∷ [];
  properties = record { availability = available; busy = false; message = [] };
}

pub session-IsSession : IsSession session
unfolding contains
session-IsSession = record { contacts = contacts-IsContacts; blocked = (refl, tt); sent = tt }

abbrev pub environment : Environment
environment = record { now = pos 5; random = 9; held_flag = false; held_encoding = pos 0 }

abbrev pub fields : List (ℕ × Bytes)
fields = (1, codes "ed") ∷ (7, codes "dave") ∷ (65, codes "Work") ∷ []

header-IsHeader : IsHeader header
header-IsHeader = record {
  proto_version_fits = omega arith;
  vendor_id_fits = omega arith;
  payload_size_fits = omega arith;
  service_id_fits = omega arith;
  attribute_fits = omega arith;
  session_id_fits = omega arith;
}

abbrev frame : Frame
frame = (header, b'1' ∷ 0xc0 ∷ 0x80 ∷ b'a' ∷ 0xc0 ∷ 0x80 ∷ [])

of_raw-to_raw_example : of_raw (to_raw header ++ codes "rest") ≡ header
of_raw-to_raw_example = of_raw-to_raw header (codes "rest") header-IsHeader

find_terminator-IsFirst_example :
    IsFirst (encode_onto fields []) (find_terminator (encode_onto fields []))
find_terminator-IsFirst_example = find_terminator-IsFirst (encode_onto fields [])

fields-IsPair : All IsPair fields
fields-IsPair = ((omega arith, refl), ((omega arith, refl), ((omega arith, refl), tt)))

parse-encode_onto_example :
    parse AddContact.on_key_pair AddContact.initial (encode_onto fields (0 ∷ codes "junk")) []
    ≡ feed AddContact.on_key_pair AddContact.initial (views fields ((0 ∷ codes "junk") ++ []))
parse-encode_onto_example =
    parse-encode_onto AddContact.on_key_pair AddContact.initial fields (0 ∷ codes "junk") []
      fields-IsPair refl

on_key_pair-Ends : Ends AddContact.on_key_pair
unfolding AddContact.on_key_pair
on_key_pair-Ends p k v = ground arith

parse-ne-diverges_example :
    parse AddContact.on_key_pair AddContact.initial (codes "no terminator at all") [] ≢ diverges
parse-ne-diverges_example =
    parse-ne-diverges AddContact.on_key_pair on_key_pair-Ends AddContact.initial
      (codes "no terminator at all") []

transmit_lem_example : transmit 131 0 fields connection ≡ (
    if leb max_payload_size (raw_header_size + length (encode_onto fields []))
    then throws runtime_error
    else returns (send_to_client (packet connection 131 0 fields) connection))
transmit_lem_example = transmit_lem connection 131 0 fields

abbrev after_sending : ClientConnection
after_sending = send_to_client (packet connection 131 0 []) connection

transmit_bounds_example :
    (block : Bytes) × (after_sending.sent ≡ [] ++ block ∷ [])
    × (length block < max_payload_size)
    × (of_raw block ≡ header_for connection 131 0 [])
    × (length block ≡ raw_header_size + (of_raw block).payload_size)
transmit_bounds_example =
    transmit_bounds connection after_sending 131 0 [] (omega arith) (omega arith) (omega arith)
      (omega arith) (transmit_lem connection 131 0 [])

-- A dispatcher that counts packets.
abbrev count : DispatcherFunction ℕ
count h payload behind n = (returns tt, n + 1)

frame-IsPacket : IsPacket frame
frame-IsPacket = record { fits = header-IsHeader; sized = refl }

abbrev reads : List (ℕ × Received)
reads =
    (20, received (to_raw header))
    ∷ (4, received (b'1' ∷ 0xc0 ∷ 0x80 ∷ b'a' ∷ []))
    ∷ (2, received (0xc0 ∷ 0x80 ∷ []))
    ∷ []

reads_split : flatten (map arrived reads) ++ [] ≡ flatten (map wire (frame ∷ []))
unfolding to_raw
reads_split = refl

run-deliver_example :
    run count reads (record { data_ = []; world = 0 })
    ≡ stream_of (deliver count (20 ∷ 4 ∷ 2 ∷ []) 0 (frame ∷ []) 0)
unfolding to_raw
run-deliver_example = run-deliver count (frame ∷ []) reads [] 0 (frame-IsPacket, tt) reads_split

process-backlog_example :
    (process_pending_data count
        (length (wire frame ++ wire frame))
        (received (wire frame ++ wire frame))
        (record { data_ = []; world = 0 })
      ≡ (returns true, record { data_ = wire frame; world = 1 }))
    × (has_packet (wire frame) ≡ true)
process-backlog_example = process-backlog count frame frame 0 1 frame-IsPacket frame-IsPacket refl
