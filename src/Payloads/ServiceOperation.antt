-- ===== src/Payloads/ServiceOperation.antt =====
-- Protocols/YMsg/include/Protocols/YMsg/Server/Payloads/ServiceOperation.h and src/Server/Payloads/ServiceOperation.cpp.
use giblet.Common.{true, false, returns, if◌then◌else◌, eq_ℤ, ℤ, pos, ℕ}
use giblet.Runtime.{StringView, null}
use giblet.Parser.{OnKeyPair}

abbrev pub service_id : ℕ
service_id = 75

abbrev pub key_operation : ℤ
key_operation = pos 49

abbrev pub key_client_id : ℤ
key_client_id = pos 1

abbrev pub key_status : ℤ
key_status = pos 14

abbrev pub key_action : ℤ
key_action = pos 13

abbrev pub key_contact_id : ℤ
key_contact_id = pos 5

abbrev pub key_unknown : ℤ
key_unknown = pos 1002

pub record ServiceOperation : Type 0 where
  pub operation : StringView
  pub client_id : StringView
  pub status : StringView
  pub action : StringView
  pub contact_id : StringView

unfoldable pub initial : ServiceOperation
initial = record {
  operation = null;
  client_id = null;
  status = null;
  action = null;
  contact_id = null;
}

unfoldable pub on_key_pair : OnKeyPair ServiceOperation
on_key_pair p key value =
    if eq_ℤ key key_operation
    then returns (record p { operation = value }, true)
    else if eq_ℤ key key_client_id
    then returns (record p { client_id = value }, true)
    else if eq_ℤ key key_status
    then returns (record p { status = value }, true)
    else if eq_ℤ key key_action
    then returns (record p { action = value }, true)
    else if eq_ℤ key key_contact_id
    then returns (record p { contact_id = value }, true)
    else if eq_ℤ key key_unknown
    then returns (p, true)
    else returns (p, false)
