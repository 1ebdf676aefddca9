-- ===== src/Packets/Messages.antt =====
-- Server/Builders: messages, notifications and chat rooms.
use giblet.Common.{ℕ, List, [], ◌∷◌, Bytes, codes, ℤ, pos, map, length}
use giblet.Runtime.{to_string}
use giblet.Packets.{Packet}

-- `PrivateMessage::Build`.
unfoldable pub private_message : Bytes → Bytes → Bytes → ℤ → Packet
unfolding to_string
private_message client_id contact_id message encoding = record {
  service_id = 6;
  attribute = 1;
  fields =
      (1, client_id)
      ∷ (5, contact_id)
      ∷ (4, client_id)
      ∷ (14, message)
      ∷ (97, to_string encoding)
      ∷ [];
}

-- `PrivateMessageError::Build`.
unfoldable pub private_message_error : Bytes → Bytes → Bytes → ℤ → Packet
unfolding to_string
private_message_error client_id contact_id message encoding = record {
  service_id = 6;
  attribute = 0xffffffff;
  fields =
      (1, contact_id)
      ∷ (5, client_id)
      ∷ (4, contact_id)
      ∷ (16, message)
      ∷ (97, to_string encoding)
      ∷ [];
}

-- `OfflineMessage::Build`.
unfoldable pub offline_message : Bytes → Bytes → Bytes → ℤ → Packet
unfolding to_string
offline_message client_id contact_id message encoding = record {
  service_id = 6;
  attribute = 5;
  fields =
      (31, codes "6")
      ∷ (32, codes "6")
      ∷ (1, contact_id)
      ∷ (5, client_id)
      ∷ (4, contact_id)
      ∷ (14, message)
      ∷ (97, to_string encoding)
      ∷ [];
}

-- `SystemMessage::Build`.
unfoldable pub system_message : Bytes → ℤ → Packet
unfolding to_string
system_message message timestamp = record {
  service_id = 20;
  attribute = 1;
  fields = (14, message) ∷ (15, to_string timestamp) ∷ [];
}

-- `TypingNotification::Build`.
unfoldable pub typing_notification : Bytes → Bytes → ℤ → Packet
unfolding to_string
typing_notification client_id contact_id status = record {
  service_id = 75;
  attribute = 1;
  fields =
      (49, codes "TYPING")
      ∷ (5, client_id)
      ∷ (4, contact_id)
      ∷ (14, codes " ")
      ∷ (13, to_string status)
      ∷ [];
}

-- `NewMailNotification::Build(connection, count)`.
unfoldable pub new_mail_count : ℕ → Packet
unfolding to_string
new_mail_count count = record {
  service_id = 11;
  attribute = 1;
  fields = (9, to_string (pos count)) ∷ [];
}

-- `NewMailNotification::Build(connection, address, name, subject)`.
unfoldable pub new_mail : Bytes → Bytes → Bytes → Packet
unfolding to_string
new_mail address name subject = record {
  service_id = 11;
  attribute = 1;
  fields = (9, to_string (pos 1)) ∷ (43, name) ∷ (42, address) ∷ (18, subject) ∷ [];
}

-- `YahooAlert::Build`.
unfoldable pub yahoo_alert : Bytes → Bytes → Bytes → Bytes → Bytes → Bytes → Packet
yahoo_alert client_id publisher url article_meta title content = record {
  service_id = 300;
  attribute = 1;
  fields =
      (5, client_id)
      ∷ (132, url)
      ∷ (4, publisher)
      ∷ (14, article_meta)
      ∷ (83, title)
      ∷ (20, content)
      ∷ [];
}

-- `ChatroomJoined::Build`: one more field for each participant.
unfoldable pub chatroom_joined : Bytes → Bytes → Bytes → Bytes → Bytes → List Bytes → Packet
unfolding to_string
chatroom_joined category room_name topic voice_cookie other_cookie participants = record {
  service_id = 152;
  attribute = 1;
  fields =
      (104, room_name)
      ∷ (105, topic)
      ∷ (128, category)
      ∷ (108, to_string (pos (length participants)))
      ∷ (129, codes "0")
      ∷ (130, voice_cookie)
      ∷ (126, codes "0")
      ∷ (13, codes "1")
      ∷ (61, other_cookie)
      ∷ map (λ participant. (109, participant)) participants;
}
