-- ===== src/Payloads/AddContact.antt =====
-- Protocols/YMsg/include/Protocols/YMsg/Server/Payloads/AddContact.h and src/Server/Payloads/AddContact.cpp.
use giblet.Common.{true, false, returns, if◌then◌else◌, eq_ℤ, ℤ, pos, ℕ}
use giblet.Runtime.{StringView, null}
use giblet.Parser.{OnKeyPair}

abbrev pub service_id : ℕ
service_id = 131

abbrev pub key_client_id : ℤ
key_client_id = pos 1

abbrev pub key_contact_id : ℤ
key_contact_id = pos 7

abbrev pub key_group : ℤ
key_group = pos 65

abbrev pub key_message : ℤ
key_message = pos 14

pub record AddContact : Type 0 where
  pub client_id : StringView
  pub contact_id : StringView
  pub group : StringView
  pub message : StringView

unfoldable pub initial : AddContact
initial = record { client_id = null; contact_id = null; group = null; message = null }

unfoldable pub on_key_pair : OnKeyPair AddContact
on_key_pair p key value =
    if eq_ℤ key key_client_id
    then returns (record p { client_id = value }, true)
    else if eq_ℤ key key_contact_id
    then returns (record p { contact_id = value }, true)
    else if eq_ℤ key key_group
    then returns (record p { group = value }, true)
    else if eq_ℤ key key_message
    then returns (record p { message = value }, true)
    else returns (p, false)
