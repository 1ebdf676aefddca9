-- ===== src/Packets/Contacts.antt =====
-- Server/Builders: the packets about the contact list and the list of blocked users.
use giblet.Common.{[], ◌∷◌, Bytes, codes, ℤ, eq_ℤ, if◌then◌else◌}
use giblet.Runtime.{to_string}
use giblet.Packets.{Packet}
use giblet.Common.{Outcome, returns, throws, invalid_argument}
use giblet.Types.{status_blocked, status_unblocked, reason_none}

-- `AddContactRequest::Build`; the timestamp is a `time_t`.
unfoldable pub add_contact_request : Bytes → Bytes → Bytes → ℤ → Packet
unfolding to_string
add_contact_request client_id contact_id message timestamp = record {
  service_id = 15;
  attribute = 3;
  fields = (1, contact_id) ∷ (3, client_id) ∷ (14, message) ∷ (15, to_string timestamp) ∷ [];
}

-- `AddContactRequestResult::Build`.
unfoldable pub add_contact_request_result : Bytes → Bytes → Bytes → ℤ → Packet
unfolding to_string
add_contact_request_result client_id contact_id contact_group status = record {
  service_id = 131;
  attribute = 1;
  fields = (1, contact_id) ∷ (7, client_id) ∷ (65, contact_group) ∷ (66, to_string status) ∷ [];
}

-- `ContactRemoved::Build`.
unfoldable pub contact_removed : Bytes → Bytes → Bytes → ℤ → Packet
unfolding to_string
contact_removed client_id contact_id group status = record {
  service_id = 132;
  attribute = 1;
  fields = (1, client_id) ∷ (66, to_string status) ∷ (7, contact_id) ∷ (65, group) ∷ [];
}

-- `DenyContactAddRequest::Build`.
unfoldable pub deny_contact_add_request : Bytes → Bytes → Bytes → Packet
deny_contact_add_request client_id contact_id message = record {
  service_id = 15;
  attribute = 7;
  fields = (1, contact_id) ∷ (3, client_id) ∷ (14, message) ∷ [];
}

-- `ContactGroupRenamed::Build`.
unfoldable pub contact_group_renamed : Bytes → Bytes → Bytes → Packet
contact_group_renamed client_id old_group_name new_group_name = record {
  service_id = 137;
  attribute = 1;
  fields = (1, client_id) ∷ (66, codes "0") ∷ (67, new_group_name) ∷ (65, old_group_name) ∷ [];
}

-- `ContactBlockedOrUnblocked::Build`.
unfoldable pub contact_blocked_or_unblocked : Bytes → Bytes → ℤ → ℤ → Packet
unfolding to_string
contact_blocked_or_unblocked client_id contact_id status reason = record {
  service_id = 133;
  attribute = 1;
  fields =
      (1, client_id)
      ∷ (5, contact_id)
      ∷ (4, to_string status)
      ∷ (66, if eq_ℤ reason reason_none then codes " " else to_string reason)
      ∷ [];
}

-- `ContactBlocked::Build` and `ContactUnblocked::Build`.
unfoldable pub contact_blocked : Bytes → Bytes → Packet
unfolding contact_blocked_or_unblocked
contact_blocked client_id contact_id =
    contact_blocked_or_unblocked client_id contact_id status_blocked reason_none

unfoldable pub contact_unblocked : Bytes → Bytes → Packet
unfolding contact_blocked_or_unblocked
contact_unblocked client_id contact_id =
    contact_blocked_or_unblocked client_id contact_id status_unblocked reason_none

-- `ContactNotBlocked::Build`.
unfoldable pub contact_not_blocked : Bytes → Bytes → ℤ → Outcome Packet
unfolding contact_blocked_or_unblocked
contact_not_blocked client_id contact_id reason =
    if eq_ℤ reason reason_none
    then throws invalid_argument
    else returns (contact_blocked_or_unblocked client_id contact_id status_blocked reason)
