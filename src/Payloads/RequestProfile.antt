-- ===== src/Payloads/RequestProfile.antt =====
-- Protocols/YMsg/include/Protocols/YMsg/Server/Payloads/RequestProfile.h and src/Server/Payloads/RequestProfile.cpp.
use giblet.Common.{true, false, returns, if◌then◌else◌, eq_ℤ, ℤ, pos, ℕ}
use giblet.Runtime.{StringView, null}
use giblet.Parser.{OnKeyPair}

abbrev pub service_id : ℕ
service_id = 85

abbrev pub key_client_id : ℤ
key_client_id = pos 1

pub record RequestProfile : Type 0 where
  pub client_id : StringView

unfoldable pub initial : RequestProfile
initial = record { client_id = null }

unfoldable pub on_key_pair : OnKeyPair RequestProfile
on_key_pair p key value =
    if eq_ℤ key key_client_id
    then returns (record p { client_id = value }, true)
    else returns (p, false)
