-- ===== src/Packets/Login.antt =====
-- Server/Builders: login, the ping configuration and the activation of profiles.
use giblet.Common.{[], ◌∷◌, Bytes, codes}
use giblet.Runtime.{to_string}
use giblet.Packets.{Packet}
use giblet.Types.{method_none, method_in_app}

-- `ChallengeResponse::Build(connection, clientId, challenge)`.
unfoldable pub challenge_response : Bytes → Bytes → Packet
unfolding to_string
challenge_response client_id challenge = record {
  service_id = 87;
  attribute = 1;
  fields = (1, client_id) ∷ (94, challenge) ∷ (13, to_string method_in_app) ∷ [];
}

-- `ChallengeResponse::Build(connection, clientId)`, which asks for no credentials.
unfoldable pub challenge_response_none : Bytes → Packet
unfolding to_string
challenge_response_none client_id = record {
  service_id = 87;
  attribute = 1;
  fields = (1, client_id) ∷ (13, to_string method_none) ∷ [];
}

-- `ChatLoginResponse::Build`.
unfoldable pub chat_login_response : Bytes → Packet
chat_login_response client_id = record {
  service_id = 150;
  attribute = 1;
  fields = (1, client_id) ∷ [];
}

-- `PingConfiguration::Build`.
unfoldable pub ping_configuration : Packet
ping_configuration = record {
  service_id = 18;
  attribute = 0;
  fields = (143, codes "60") ∷ (144, codes "13") ∷ [];
}

-- `ProtocolAck::Build`.
unfoldable pub protocol_ack : Packet
protocol_ack = record { service_id = 76; attribute = 0; fields = [] }

-- `ProfileActivated::Build`.
unfoldable pub profile_activated : Bytes → Packet
profile_activated profile_id = record {
  service_id = 7;
  attribute = 1;
  fields = (3, profile_id) ∷ [];
}

-- `ProfileDeactivated::Build`.
unfoldable pub profile_deactivated : Bytes → Packet
profile_deactivated profile_id = record {
  service_id = 8;
  attribute = 1;
  fields = (3, profile_id) ∷ [];
}
