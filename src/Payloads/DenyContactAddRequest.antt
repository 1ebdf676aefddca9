-- ===== src/Payloads/DenyContactAddRequest.antt =====
-- Protocols/YMsg/include/Protocols/YMsg/Server/Payloads/DenyContactAddRequest.h and src/Server/Payloads/DenyContactAddRequest.cpp.
use giblet.Common.{true, false, returns, if◌then◌else◌, eq_ℤ, ℤ, pos, ℕ}
use giblet.Runtime.{StringView, null}
use giblet.Parser.{OnKeyPair}

abbrev pub service_id : ℕ
service_id = 134

abbrev pub key_client_id : ℤ
key_client_id = pos 1

abbrev pub key_contact_id : ℤ
key_contact_id = pos 7

abbrev pub key_message : ℤ
key_message = pos 14

pub record DenyContactAddRequest : Type 0 where
  pub client_id : StringView
  pub contact_id : StringView
  pub message : StringView

unfoldable pub initial : DenyContactAddRequest
initial = record { client_id = null; contact_id = null; message = null }

unfoldable pub on_key_pair : OnKeyPair DenyContactAddRequest
on_key_pair p key value =
    if eq_ℤ key key_client_id
    then returns (record p { client_id = value }, true)
    else if eq_ℤ key key_contact_id
    then returns (record p { contact_id = value }, true)
    else if eq_ℤ key key_message
    then returns (record p { message = value }, true)
    else returns (p, false)
