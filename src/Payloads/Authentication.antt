-- ===== src/Payloads/Authentication.antt =====
-- Protocols/YMsg/include/Protocols/YMsg/Server/Payloads/Authentication.h and src/Server/Payloads/Authentication.cpp.
use giblet.Common.{true, false, returns, if◌then◌else◌, eq_ℤ, ℤ, pos, ℕ, List, [], ◌∷◌, ◌++◌}
use giblet.Runtime.{StringView, null}
use giblet.Parser.{OnKeyPair}

abbrev pub service_id : ℕ
service_id = 84

abbrev pub key_auth_response1 : ℤ
key_auth_response1 = pos 6

abbrev pub key_auth_response2 : ℤ
key_auth_response2 = pos 96

abbrev pub key_client_version : ℤ
key_client_version = pos 135

abbrev pub key_unknown148 : ℤ
key_unknown148 = pos 148

abbrev pub key_client_id1 : ℤ
key_client_id1 = pos 0

abbrev pub key_client_id2 : ℤ
key_client_id2 = pos 1

abbrev pub key_profile_id : ℤ
key_profile_id = pos 2

pub record Authentication : Type 0 where
  pub auth_response1 : StringView
  pub auth_response2 : StringView
  pub client_version : StringView
  pub unknown148 : StringView
  pub client_id1 : StringView
  pub client_id2 : StringView
  pub profile_ids : List StringView

unfoldable pub initial : Authentication
initial = record {
  auth_response1 = null;
  auth_response2 = null;
  client_version = null;
  unknown148 = null;
  client_id1 = null;
  client_id2 = null;
  profile_ids = [];
}

unfoldable pub on_key_pair : OnKeyPair Authentication
on_key_pair p key value =
    if eq_ℤ key key_auth_response1
    then returns (record p { auth_response1 = value }, true)
    else if eq_ℤ key key_auth_response2
    then returns (record p { auth_response2 = value }, true)
    else if eq_ℤ key key_client_version
    then returns (record p { client_version = value }, true)
    else if eq_ℤ key key_unknown148
    then returns (record p { unknown148 = value }, true)
    else if eq_ℤ key key_client_id1
    then returns (record p { client_id1 = value }, true)
    else if eq_ℤ key key_client_id2
    then returns (record p { client_id2 = value }, true)
    else if eq_ℤ key key_profile_id
    then returns (record p { profile_ids = p.profile_ids ++ value ∷ [] }, true)
    else returns (p, false)
