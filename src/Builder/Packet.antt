-- ===== src/Builder/Packet.antt =====
-- What a `Build` function and `Send` do together: one packet is sent, or an exception is thrown.
use giblet.Common.{
  ℕ, ◌+◌, ◌-◌, ◌^◌, ◌≤◌, ◌<◌, ◌≡◌, refl, sym, ap, ◌∙◌, false, List, [], ◌∷◌, ◌++◌, append_assoc,
  append-nil, arith, Bytes, leb, ltb, if◌then◌else◌, length, length-append, Outcome, returns,
  throws, ◌>>=◌, runtime_error, ◌⊎◌, inl, inr, pos, Bool-cases, leb→le, le→leb,
}
use giblet.Runtime.{to_string}
use giblet.Header.{Header, new_header, to_raw, of_raw, raw_header_size}
use giblet.Header.RoundTrip.{length-to_raw, of_raw-to_raw}
use giblet.Connection.{ClientConnection, send_to_client}
use giblet.Parser.RoundTrip.{encode_onto}
use giblet.Builder.{
  max_payload_size, initialize, append, append_all, set_payload_size, send, terminator,
}

-- `builder.Build(connection, …); builder.Send(connection);` for the fields that `Build` appends.
unfoldable pub transmit : ℕ → ℕ → List (ℕ × Bytes) → ClientConnection → Outcome ClientConnection
transmit service_id attribute fields c =
    append_all fields (initialize c service_id attribute) >>= λ buffer. send buffer c

-- The header of a packet with the fields.
abbrev pub header_for : ClientConnection → ℕ → ℕ → List (ℕ × Bytes) → Header
header_for c service_id attribute fields = record {
  proto_version = c.protocol_version;
  vendor_id = 0;
  payload_size = length (encode_onto fields []);
  service_id = service_id;
  attribute = attribute;
  session_id = c.session_id;
}

-- The packet that is meant: a header with the size of the payload, and the payload.
abbrev pub packet : ClientConnection → ℕ → ℕ → List (ℕ × Bytes) → Bytes
packet c service_id attribute fields =
    to_raw (header_for c service_id attribute fields) ++ encode_onto fields []

-- The fields are in the buffer, or an exception was thrown since they do not fit.
abbrev Appended : Bytes → Bytes → Outcome Bytes → Type 0
Appended buffer payload r =
    (r ≡ returns (buffer ++ payload))
    ⊎ ((r ≡ throws runtime_error) × (max_payload_size ≤ length buffer + length payload))

grown : Bytes → Bytes → Bytes → Bytes
grown buffer key value = buffer ++ key ++ terminator ++ value ++ terminator

length_field :
    (key value rest : Bytes)
    → length (key ++ (0xc0 ∷ 0x80 ∷ (value ++ (0xc0 ∷ 0x80 ∷ rest))))
      ≡ length key + length value + length rest + 4
length_field key value rest = omega (
  arith,
  length-append {0} key (0xc0 ∷ 0x80 ∷ (value ++ (0xc0 ∷ 0x80 ∷ rest))),
  length-append {0} value (0xc0 ∷ 0x80 ∷ rest),
)

length-grown :
    (buffer key value : Bytes)
    → length (grown buffer key value) ≡ length buffer + length key + length value + 4
unfolding grown
length-grown buffer key value = omega (
  arith,
  length-append {0} (buffer ++ key ++ terminator ++ value) terminator,
  length-append {0} (buffer ++ key ++ terminator) value,
  length-append {0} (buffer ++ key) terminator,
  length-append {0} buffer key,
)

Appended-grown :
    (buffer key value rest : Bytes) (r : Outcome Bytes)
    → Appended (grown buffer key value) rest r
    → Appended buffer (key ++ (0xc0 ∷ 0x80 ∷ (value ++ (0xc0 ∷ 0x80 ∷ rest)))) r
Appended-grown buffer key value rest r (inl e) =
    inl (e ∙ ap returns (unfold grown in simp append_assoc))
Appended-grown buffer key value rest r (inr (e, h)) =
    inr (e, omega (arith, length-grown buffer key value, length_field key value rest))

append_all-Appended :
    (fields : List (ℕ × Bytes)) (buffer : Bytes)
    → Appended buffer (encode_onto fields []) (append_all fields buffer)
unfolding append_all append grown
append_all-Appended [] buffer = inl (rw append-nil)
append_all-Appended ((k, value) ∷ fields) buffer =
    let key = to_string (pos k) in
    let rest = encode_onto fields [] in
    let ih = append_all-Appended fields (grown buffer key value) in
    elim (Bool-cases
      (leb max_payload_size (length buffer + length key + length terminator + length terminator))) [
        | inl full ↦ inr (rw full refl, omega (arith, length_field key value rest, leb→le _ _ full))
        | inr fits ↦
            rw fits
              (Appended-grown buffer key value rest (append_all fields (grown buffer key value)) ih)
      ]

-- The header that `initialize` writes says that the payload is empty, and `Send` mends it.
set_payload_size-initialize :
    (c : ClientConnection) (service_id attribute : ℕ) (fields : List (ℕ × Bytes))
    → set_payload_size
        (length (encode_onto fields []))
        (initialize c service_id attribute ++ encode_onto fields [])
      ≡ packet c service_id attribute fields
unfolding set_payload_size initialize to_raw new_header
set_payload_size-initialize c service_id attribute fields = refl

length-initialize :
    (c : ClientConnection) (service_id attribute : ℕ) (payload : Bytes)
    → length (initialize c service_id attribute ++ payload) ≡ raw_header_size + length payload
length-initialize c service_id attribute payload =
    length-append (initialize c service_id attribute) payload
    ∙ ap (λ n. n + length payload)
        (unfold initialize in
          length-to_raw (new_header c.session_id c.protocol_version service_id attribute))

sent_or_refused : Bytes → ℕ → ClientConnection → Outcome ClientConnection
sent_or_refused block size c =
    if leb max_payload_size (raw_header_size + size)
    then throws runtime_error
    else returns (send_to_client block c)

send_sized :
    (buffer block : Bytes) (size : ℕ) (c : ClientConnection)
    → length buffer ≡ raw_header_size + size
    → set_payload_size size buffer ≡ block
    → send buffer c ≡ sent_or_refused block size c
unfolding send sent_or_refused
send_sized buffer block size c h e =
    let no_header : ltb (raw_header_size + size) raw_header_size ≡ false = ground arith in
    let rest : raw_header_size + size - raw_header_size ≡ size = omega arith in
    rw h (rw (no_header, rest, e))

-- Building a packet and sending it has one of two results. If the header and the fields together stay
-- below 64 KB, exactly one block is sent: the header, whose size field is the length of the payload,
-- and the fields in order. Otherwise a `runtime_error` is thrown, by `Append` or by `Send`,
-- although the test in `Append` leaves out the length of the value.
pub transmit_lem :
    (c : ClientConnection) (service_id attribute : ℕ) (fields : List (ℕ × Bytes))
    → transmit service_id attribute fields c ≡ (
        if leb max_payload_size (raw_header_size + length (encode_onto fields []))
        then throws runtime_error
        else returns (send_to_client (packet c service_id attribute fields) c))
unfolding transmit sent_or_refused
transmit_lem c service_id attribute fields =
    let payload = encode_onto fields [] in
    let buffer = initialize c service_id attribute in
    let sized = length-initialize c service_id attribute payload in
    elim (append_all-Appended fields buffer) [
      | inl e ↦ rw e (
          send_sized (buffer ++ payload) (packet c service_id attribute fields) (length payload) c
            sized (set_payload_size-initialize c service_id attribute fields))
      | inr (e, h) ↦ rw e (
          rw (
            le→leb max_payload_size (raw_header_size + length payload)
              (omega (arith, length-append {0} buffer payload))))
    ]

sent_of :
    (c : ClientConnection) (block : Bytes) (c' : ClientConnection)
    → returns (send_to_client block c) ≡ returns c'
    → c'.sent ≡ c.sent ++ block ∷ []
unfolding send_to_client
sent_of c block c' e = ground arith

-- Every block that is sent is below 64 KB, the sizes in its header fit their 16 and 32 bits, and the
-- header is read back as it was meant, its size field being the number of bytes behind it. The
-- connection's and the packet's own numbers fit their widths.
pub transmit_bounds :
    (c c' : ClientConnection) (service_id attribute : ℕ) (fields : List (ℕ × Bytes))
    → c.protocol_version < 2 ^ 16
    → c.session_id < 2 ^ 32
    → service_id < 2 ^ 16
    → attribute < 2 ^ 32
    → transmit service_id attribute fields c ≡ returns c'
    → (block : Bytes) × (c'.sent ≡ c.sent ++ block ∷ [])
      × (length block < max_payload_size)
      × (of_raw block ≡ header_for c service_id attribute fields)
      × (length block ≡ raw_header_size + (of_raw block).payload_size)
unfolding send_to_client
transmit_bounds c c' service_id attribute fields hv hs hi ha e =
    let payload = encode_onto fields [] in
    let result = sym (transmit_lem c service_id attribute fields) ∙ e in
    elim (Bool-cases (leb max_payload_size (raw_header_size + length payload))) [
      | inl full ↦ cc (rw full at result)
      | inr fits ↦
          let small : raw_header_size + length payload < max_payload_size = ground arith in
          let header =
            of_raw-to_raw (header_for c service_id attribute fields) payload (omega arith) in
          let sized =
            length-append (to_raw (header_for c service_id attribute fields)) payload
            ∙ ap (λ n. n + length payload)
                (length-to_raw (header_for c service_id attribute fields)) in
          let answer : returns (send_to_client (packet c service_id attribute fields) c)
              ≡ returns c' =
            rw fits at result in
          (
            packet c service_id attribute fields,
            sent_of c (packet c service_id attribute fields) c' answer,
            omega arith,
            header,
            sized ∙ ap (λ (h : Header). raw_header_size + h.payload_size) (sym header),
          )
    ]
