-- ===== src/Payloads/ChangeBlockedUser.antt =====
-- Protocols/YMsg/include/Protocols/YMsg/Server/Payloads/ChangeBlockedUser.h and src/Server/Payloads/ChangeBlockedUser.cpp.
use giblet.Common.{true, false, returns, if◌then◌else◌, eq_ℤ, ℤ, pos, ℕ}
use giblet.Runtime.{StringView, null}
use giblet.Parser.{OnKeyPair}

abbrev pub service_id : ℕ
service_id = 133

abbrev pub key_client_id : ℤ
key_client_id = pos 1

abbrev pub key_contact_id : ℤ
key_contact_id = pos 7

abbrev pub key_mode : ℤ
key_mode = pos 13

pub record ChangeBlockedUser : Type 0 where
  pub client_id : StringView
  pub contact_id : StringView
  pub mode : StringView

unfoldable pub initial : ChangeBlockedUser
initial = record { client_id = null; contact_id = null; mode = null }

unfoldable pub on_key_pair : OnKeyPair ChangeBlockedUser
on_key_pair p key value =
    if eq_ℤ key key_client_id
    then returns (record p { client_id = value }, true)
    else if eq_ℤ key key_contact_id
    then returns (record p { contact_id = value }, true)
    else if eq_ℤ key key_mode
    then returns (record p { mode = value }, true)
    else returns (p, false)
