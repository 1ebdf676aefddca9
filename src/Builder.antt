-- ===== src/Builder.antt =====
-- Protocols/YMsg/include/Protocols/YMsg/Builder.h and src/Builder.cpp: packets that the server
-- writes. A builder is its buffer.
pub mod Packet
use giblet.Common.{
  ℕ, ◌+◌, ◌-◌, List, [], ◌∷◌, ◌++◌, Bytes, leb, ltb, if◌then◌else◌, length, take, drop, ℤ, pos,
  Outcome, returns, throws, undefined, ◌>>=◌, runtime_error,
}
use giblet.Runtime.{to_string}
use giblet.Header.{new_header, to_raw, network_short, raw_header_size}
use giblet.Connection.{ClientConnection, send_to_client}

-- `PaxPayloadSize`.
abbrev pub max_payload_size : ℕ
max_payload_size = 0x10000

abbrev pub terminator : Bytes
terminator = 0xc0 ∷ 0x80 ∷ []

-- `Builder::Initialize(connection, serviceId, attributeId)`, which replaces what the buffer held.
unfoldable pub initialize : ClientConnection → ℕ → ℕ → Bytes
unfolding to_raw new_header
initialize c service_id attribute =
    to_raw (new_header c.session_id c.protocol_version service_id attribute)

-- `Builder::Append`. The size that is tested leaves out the value's.
unfoldable pub append : ℤ → Bytes → Bytes → Outcome Bytes
append key value buffer =
    let key_string = to_string key in
    if leb max_payload_size
      (length buffer + length key_string + length terminator + length terminator)
    then throws runtime_error
    else returns (buffer ++ key_string ++ terminator ++ value ++ terminator)

-- The calls of `Append` that a `Build` function makes, one behind the other.
unfoldable pub append_all : List (ℕ × Bytes) → Bytes → Outcome Bytes
append_all [] buffer = returns buffer
append_all ((key, value) ∷ fields) buffer = append (pos key) value buffer >>= append_all fields

-- The size field of the raw header in a buffer.
unfoldable pub set_payload_size : ℕ → Bytes → Bytes
set_payload_size n buffer = take 8 buffer ++ network_short n ++ drop 10 buffer

-- `Builder::Send`: the connection after the call. A buffer that was never initialised holds no
-- header to write the size into.
unfoldable pub send : Bytes → ClientConnection → Outcome ClientConnection
unfolding send_to_client set_payload_size
send buffer c =
    if leb max_payload_size (length buffer)
    then throws runtime_error
    else if ltb (length buffer) raw_header_size
    then undefined
    else returns (send_to_client (set_payload_size (length buffer - raw_header_size) buffer) c)
