-- ===== src/Payloads/RenameContactGroup.antt =====
-- Protocols/YMsg/include/Protocols/YMsg/Server/Payloads/RenameContactGroup.h and src/Server/Payloads/RenameContactGroup.cpp.
use giblet.Common.{true, false, returns, if◌then◌else◌, eq_ℤ, ℤ, pos, ℕ}
use giblet.Runtime.{StringView, null}
use giblet.Parser.{OnKeyPair}

abbrev pub service_id : ℕ
service_id = 137

abbrev pub key_client_id : ℤ
key_client_id = pos 1

abbrev pub key_current_group_name : ℤ
key_current_group_name = pos 65

abbrev pub key_new_group_name : ℤ
key_new_group_name = pos 67

pub record RenameContactGroup : Type 0 where
  pub client_id : StringView
  pub current_group_name : StringView
  pub new_group_name : StringView

unfoldable pub initial : RenameContactGroup
initial = record { client_id = null; current_group_name = null; new_group_name = null }

unfoldable pub on_key_pair : OnKeyPair RenameContactGroup
on_key_pair p key value =
    if eq_ℤ key key_client_id
    then returns (record p { client_id = value }, true)
    else if eq_ℤ key key_current_group_name
    then returns (record p { current_group_name = value }, true)
    else if eq_ℤ key key_new_group_name
    then returns (record p { new_group_name = value }, true)
    else returns (p, false)
