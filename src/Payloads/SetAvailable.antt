-- ===== src/Payloads/SetAvailable.antt =====
-- Protocols/YMsg/include/Protocols/YMsg/Server/Payloads/SetAvailable.h and src/Server/Payloads/SetAvailable.cpp.
use giblet.Common.{ℕ}
use giblet.Parser.{OnKeyPair, payload_on_key_pair}

abbrev pub service_id : ℕ
service_id = 4

-- The class adds nothing to `Payload`.
abbrev pub SetAvailable : Type 0
SetAvailable = Unit {0}

abbrev pub initial : SetAvailable
initial = tt

unfoldable pub on_key_pair : OnKeyPair SetAvailable
unfolding payload_on_key_pair
on_key_pair = payload_on_key_pair
