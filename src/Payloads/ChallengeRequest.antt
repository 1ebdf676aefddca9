-- ===== src/Payloads/ChallengeRequest.antt =====
-- Protocols/YMsg/include/Protocols/YMsg/Server/Payloads/ChallengeRequest.h and src/Server/Payloads/ChallengeRequest.cpp.
use giblet.Common.{true, false, returns, if◌then◌else◌, eq_ℤ, ℤ, pos, ℕ}
use giblet.Runtime.{StringView, null}
use giblet.Parser.{OnKeyPair}

abbrev pub service_id : ℕ
service_id = 87

abbrev pub key_client_id : ℤ
key_client_id = pos 1

pub record ChallengeRequest : Type 0 where
  pub client_id : StringView

unfoldable pub initial : ChallengeRequest
initial = record { client_id = null }

unfoldable pub on_key_pair : OnKeyPair ChallengeRequest
on_key_pair p key value =
    if eq_ℤ key key_client_id
    then returns (record p { client_id = value }, true)
    else returns (p, false)
