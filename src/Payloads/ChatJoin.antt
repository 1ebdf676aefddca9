-- ===== src/Payloads/ChatJoin.antt =====
-- Protocols/YMsg/include/Protocols/YMsg/Server/Payloads/ChatJoin.h and src/Server/Payloads/ChatJoin.cpp.
use giblet.Common.{true, false, returns, if◌then◌else◌, eq_ℤ, ℤ, pos, ℕ}
use giblet.Runtime.{StringView, null}
use giblet.Parser.{OnKeyPair}

abbrev pub service_id : ℕ
service_id = 152

abbrev pub key_client_id : ℤ
key_client_id = pos 1

abbrev pub key_category : ℤ
key_category = pos 129

abbrev pub key_room : ℤ
key_room = pos 104

abbrev pub key_unknown : ℤ
key_unknown = pos 62

pub record ChatJoin : Type 0 where
  pub client_id : StringView
  pub category : StringView
  pub room : StringView

unfoldable pub initial : ChatJoin
initial = record { client_id = null; category = null; room = null }

unfoldable pub on_key_pair : OnKeyPair ChatJoin
on_key_pair p key value =
    if eq_ℤ key key_client_id
    then returns (record p { client_id = value }, true)
    else if eq_ℤ key key_category
    then returns (record p { category = value }, true)
    else if eq_ℤ key key_room
    then returns (record p { room = value }, true)
    else if eq_ℤ key key_unknown
    then returns (p, true)
    else returns (p, false)
