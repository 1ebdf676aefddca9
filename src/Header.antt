-- ===== src/Header.antt =====
-- Protocols/YMsg/include/Protocols/YMsg/Header.h and src/Server/Header.cpp: the packet header, in
-- memory and on the wire. `htons` and `htonl` put the most significant byte first in memory on every
-- host, so a `RawHeader` is the list of its 20 bytes.
pub mod RoundTrip
use giblet.Common.{ℕ, zero, suc, ◌+◌, ◌*◌, ◌/◌, ◌%◌, ◌^◌, ◌<◌, [], ◌∷◌, ◌++◌, Bytes}

-- The signature 'YMSG'.
abbrev pub signature : ℕ
signature = 0x594d5347

-- `sizeof(RawHeader)`.
abbrev pub raw_header_size : ℕ
raw_header_size = 20

pub record Header : Type 0 where
  pub proto_version : ℕ
  pub vendor_id : ℕ
  pub payload_size : ℕ
  pub service_id : ℕ
  pub attribute : ℕ
  pub session_id : ℕ

-- `Header(sessionId, protoVersion, serviceId, attribute)`.
unfoldable pub new_header : ℕ → ℕ → ℕ → ℕ → Header
new_header session_id proto_version service_id attribute = record {
  proto_version = proto_version;
  vendor_id = 0;
  payload_size = 0;
  service_id = service_id;
  attribute = attribute;
  session_id = session_id;
}

-- `htons` of a `uint16_t`, and `htonl` of a `uint32_t`, as bytes in memory.
abbrev pub network_short : ℕ → Bytes
network_short n = n / 256 % 256 ∷ n % 256 ∷ []

abbrev pub network_long : ℕ → Bytes
network_long n = n / 2 ^ 24 % 256 ∷ n / 2 ^ 16 % 256 ∷ n / 256 % 256 ∷ n % 256 ∷ []

-- A byte of a buffer that holds it.
abbrev pub byte_at : ℕ → Bytes → ℕ
byte_at n [] = 0
byte_at zero (c ∷ s) = c
byte_at (suc n) (c ∷ s) = byte_at n s

-- `ntohs` and `ntohl` of the field at an offset.
abbrev pub host_short : ℕ → Bytes → ℕ
host_short n s = byte_at n s * 256 + byte_at (suc n) s

abbrev pub host_long : ℕ → Bytes → ℕ
host_long n s =
    byte_at n s * 2 ^ 24
    + byte_at (suc n) s * 2 ^ 16
    + byte_at (suc (suc n)) s * 256
    + byte_at (suc (suc (suc n))) s

-- `Header::operator rawheader_type`.
unfoldable pub to_raw : Header → Bytes
to_raw h =
    network_long signature
    ++ network_short h.proto_version
    ++ network_short h.vendor_id
    ++ network_short h.payload_size
    ++ network_short h.service_id
    ++ network_long h.attribute
    ++ network_long h.session_id

-- `Header(const rawheader_type&)`, on the buffer that the raw header stands at the front of.
unfoldable pub of_raw : Bytes → Header
of_raw s = record {
  proto_version = host_short 4 s;
  vendor_id = host_short 6 s;
  payload_size = host_short 8 s;
  service_id = host_short 10 s;
  attribute = host_long 12 s;
  session_id = host_long 16 s;
}
