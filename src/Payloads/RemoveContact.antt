-- ===== src/Payloads/RemoveContact.antt =====
-- Protocols/YMsg/include/Protocols/YMsg/Server/Payloads/RemoveContact.h and src/Server/Payloads/RemoveContact.cpp.
use giblet.Common.{true, false, returns, if◌then◌else◌, eq_ℤ, ℤ, pos, ℕ}
use giblet.Runtime.{StringView, null}
use giblet.Parser.{OnKeyPair}

abbrev pub service_id : ℕ
service_id = 132

abbrev pub key_client_id : ℤ
key_client_id = pos 1

abbrev pub key_contact_id : ℤ
key_contact_id = pos 7

abbrev pub key_group : ℤ
key_group = pos 65

pub record RemoveContact : Type 0 where
  pub client_id : StringView
  pub contact_id : StringView
  pub group : StringView

unfoldable pub initial : RemoveContact
initial = record { client_id = null; contact_id = null; group = null }

unfoldable pub on_key_pair : OnKeyPair RemoveContact
on_key_pair p key value =
    if eq_ℤ key key_client_id
    then returns (record p { client_id = value }, true)
    else if eq_ℤ key key_contact_id
    then returns (record p { contact_id = value }, true)
    else if eq_ℤ key key_group
    then returns (record p { group = value }, true)
    else returns (p, false)
