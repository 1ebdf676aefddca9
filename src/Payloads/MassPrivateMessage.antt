-- ===== src/Payloads/MassPrivateMessage.antt =====
-- Protocols/YMsg/include/Protocols/YMsg/Server/Payloads/MassPrivateMessage.h and src/Server/Payloads/MassPrivateMessage.cpp.
use giblet.Common.{true, false, returns, ◌>>=◌, if◌then◌else◌, eq_ℤ, ℤ, pos, ℕ, List, [], ◌∷◌, ◌++◌}
use giblet.Runtime.{StringView, null}
use giblet.Parser.{OnKeyPair}
use giblet.Types.{to_enum}

abbrev pub service_id : ℕ
service_id = 23

abbrev pub key_client_id : ℤ
key_client_id = pos 1

abbrev pub key_contact_id : ℤ
key_contact_id = pos 5

abbrev pub key_message : ℤ
key_message = pos 14

abbrev pub key_encoding : ℤ
key_encoding = pos 97

pub record MassPrivateMessage : Type 0 where
  pub client_id : StringView
  pub contact_ids : List StringView
  pub message : StringView
  pub encoding : ℤ

-- The encoding is not initialised: it is what the memory held.
unfoldable pub initial : ℤ → MassPrivateMessage
initial held = record { client_id = null; contact_ids = []; message = null; encoding = held }

unfoldable pub on_key_pair : OnKeyPair MassPrivateMessage
unfolding to_enum
on_key_pair p key value =
    if eq_ℤ key key_client_id
    then returns (record p { client_id = value }, true)
    else if eq_ℤ key key_contact_id
    then returns (record p { contact_ids = p.contact_ids ++ value ∷ [] }, true)
    else if eq_ℤ key key_message
    then returns (record p { message = value }, true)
    else if eq_ℤ key key_encoding
    then (to_enum value >>= λ n. returns (record p { encoding = n }, true))
    else returns (p, false)
