-- ===== src/Payloads/ChatLogin.antt =====
-- Protocols/YMsg/include/Protocols/YMsg/Server/Payloads/ChatLogin.h and src/Server/Payloads/ChatLogin.cpp.
use giblet.Common.{true, false, returns, if◌then◌else◌, eq_ℤ, ℤ, pos, ℕ}
use giblet.Runtime.{StringView, null}
use giblet.Parser.{OnKeyPair}

abbrev pub service_id : ℕ
service_id = 150

abbrev pub key_client_id1 : ℤ
key_client_id1 = pos 109

abbrev pub key_client_id2 : ℤ
key_client_id2 = pos 1

abbrev pub key_region : ℤ
key_region = pos 98

abbrev pub key_messenger_version : ℤ
key_messenger_version = pos 135

abbrev pub key_unknown : ℤ
key_unknown = pos 6

pub record ChatLogin : Type 0 where
  pub client_id1 : StringView
  pub client_id2 : StringView

unfoldable pub initial : ChatLogin
initial = record { client_id1 = null; client_id2 = null }

unfoldable pub on_key_pair : OnKeyPair ChatLogin
on_key_pair p key value =
    if eq_ℤ key key_client_id1
    then returns (record p { client_id1 = value }, true)
    else if eq_ℤ key key_client_id2
    then returns (record p { client_id2 = value }, true)
    else if eq_ℤ key key_region
    then returns (p, true)
    else if eq_ℤ key key_messenger_version
    then returns (p, true)
    else if eq_ℤ key key_unknown
    then returns (p, true)
    else returns (p, false)
