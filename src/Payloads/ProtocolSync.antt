-- ===== src/Payloads/ProtocolSync.antt =====
-- Protocols/YMsg/include/Protocols/YMsg/Server/Payloads/ProtocolSync.h and src/Server/Payloads/ProtocolSync.cpp.
use giblet.Common.{ℕ}
use giblet.Parser.{OnKeyPair, payload_on_key_pair}

abbrev pub service_id : ℕ
service_id = 76

-- The class adds nothing to `Payload`.
abbrev pub ProtocolSync : Type 0
ProtocolSync = Unit {0}

abbrev pub initial : ProtocolSync
initial = tt

unfoldable pub on_key_pair : OnKeyPair ProtocolSync
unfolding payload_on_key_pair
on_key_pair = payload_on_key_pair
