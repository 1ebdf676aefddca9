-- ===== src/Payloads/PrivateMessage.antt =====
-- Protocols/YMsg/include/Protocols/YMsg/Server/Payloads/PrivateMessage.h and src/Server/Payloads/PrivateMessage.cpp.
use giblet.Common.{true, false, returns, ◌>>=◌, if◌then◌else◌, eq_ℤ, ℤ, pos, ℕ}
use giblet.Runtime.{StringView, null}
use giblet.Parser.{OnKeyPair}
use giblet.Types.{to_enum}

abbrev pub service_id : ℕ
service_id = 6

abbrev pub key_client_id : ℤ
key_client_id = pos 1

abbrev pub key_contact_id : ℤ
key_contact_id = pos 5

abbrev pub key_message : ℤ
key_message = pos 14

abbrev pub key_encoding : ℤ
key_encoding = pos 97

abbrev pub key_imvironment : ℤ
key_imvironment = pos 63

abbrev pub key_unknown64 : ℤ
key_unknown64 = pos 64

abbrev pub key_unknown1002 : ℤ
key_unknown1002 = pos 1002

pub record PrivateMessage : Type 0 where
  pub client_id : StringView
  pub contact_id : StringView
  pub message : StringView
  pub encoding : ℤ

-- The encoding is not initialised: it is what the memory held.
unfoldable pub initial : ℤ → PrivateMessage
initial held = record { client_id = null; contact_id = null; message = null; encoding = held }

unfoldable pub on_key_pair : OnKeyPair PrivateMessage
unfolding to_enum
on_key_pair p key value =
    if eq_ℤ key key_client_id
    then returns (record p { client_id = value }, true)
    else if eq_ℤ key key_contact_id
    then returns (record p { contact_id = value }, true)
    else if eq_ℤ key key_message
    then returns (record p { message = value }, true)
    else if eq_ℤ key key_encoding
    then (to_enum value >>= λ n. returns (record p { encoding = n }, true))
    else if eq_ℤ key key_imvironment
    then returns (p, true)
    else if eq_ℤ key key_unknown64
    then returns (p, true)
    else if eq_ℤ key key_unknown1002
    then returns (p, true)
    else returns (p, false)
