-- ===== src/Payloads/SetAway.antt =====
-- Protocols/YMsg/include/Protocols/YMsg/Server/Payloads/SetAway.h and src/Server/Payloads/SetAway.cpp.
use giblet.Common.{true, false, returns, if◌then◌else◌, eq_ℤ, ℤ, pos, ℕ}
use giblet.Runtime.{StringView, null}
use giblet.Parser.{OnKeyPair}

abbrev pub service_id : ℕ
service_id = 3

abbrev pub key_status_id : ℤ
key_status_id = pos 10

abbrev pub key_custom_message : ℤ
key_custom_message = pos 19

abbrev pub key_busy_state : ℤ
key_busy_state = pos 47

abbrev pub key_idle_unknown : ℤ
key_idle_unknown = pos 138

pub record SetAway : Type 0 where
  pub status_id : StringView
  pub custom_message : StringView
  pub busy_state : StringView
  pub idle_unknown : StringView

unfoldable pub initial : SetAway
initial = record { status_id = null; custom_message = null; busy_state = null; idle_unknown = null }

unfoldable pub on_key_pair : OnKeyPair SetAway
on_key_pair p key value =
    if eq_ℤ key key_status_id
    then returns (record p { status_id = value }, true)
    else if eq_ℤ key key_custom_message
    then returns (record p { custom_message = value }, true)
    else if eq_ℤ key key_busy_state
    then returns (record p { busy_state = value }, true)
    else if eq_ℤ key key_idle_unknown
    then returns (record p { idle_unknown = value }, true)
    else returns (p, false)
