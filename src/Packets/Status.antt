-- ===== src/Packets/Status.antt =====
-- Server/Builders/ContactOnline.h and ContactOffline.h: the presence of contacts.
use giblet.Common.{
  ℕ, Bool, true, false, List, [], ◌∷◌, ◌++◌, Bytes, codes, is_empty, pos, eq_ℤ, if◌then◌else◌, map,
  length,
}
use giblet.Runtime.{to_string}
use giblet.Packets.{Packet}
use giblet.Common.{flatten}
use giblet.Types.{custom, idle}
use giblet.Contacts.{ContactInfo}

-- `ContactOffline::Build`.
unfoldable pub contact_offline : Bytes → Packet
contact_offline contact_id = record {
  service_id = 2;
  attribute = 1;
  fields = (10, codes "0") ∷ (13, codes "0") ∷ (47, codes "2") ∷ (7, contact_id) ∷ [];
}

abbrev flag : Bool → Bytes
flag true = codes "1"
flag false = codes "0"

-- `AppendContact`.
unfoldable pub contact_fields : ContactInfo → List (ℕ × Bytes)
unfolding to_string
contact_fields c =
    (7, c.id)
    ∷ (10, to_string c.availability)
    ∷ ((if is_empty c.idle_unknown then [] else (138, c.idle_unknown) ∷ [])
        ++ ((if eq_ℤ c.availability idle then (137, codes "0") ∷ [] else [])
            ++ ((17, flag c.is_in_chat)
                ∷ ((if eq_ℤ c.availability custom then (19, c.custom_message) ∷ [] else [])
                    ++ ((47, flag c.is_busy) ∷ (13, codes "1") ∷ [])))))

-- `AppendContacts`.
unfoldable pub contacts_fields : List ContactInfo → List (ℕ × Bytes)
unfolding to_string contact_fields
contacts_fields contacts =
    (8, to_string (pos (length contacts))) ∷ flatten (map contact_fields contacts)

-- `UpdateContactStatus::Build`.
unfoldable pub update_contact_status : ContactInfo → Packet
unfolding to_string contact_fields
update_contact_status c = record {
  service_id = 1;
  attribute = 1;
  fields = (8, to_string (pos 1)) ∷ contact_fields c;
}

-- `SetContactStatus::Build` for a list of contacts, and for one.
unfoldable pub set_contacts_status : Bytes → List ContactInfo → Packet
unfolding contacts_fields
set_contacts_status client_id contacts = record {
  service_id = 1;
  attribute = 0;
  fields = (0, client_id) ∷ (1, client_id) ∷ contacts_fields contacts;
}

unfoldable pub set_contact_status : Bytes → ContactInfo → Packet
unfolding contact_fields
set_contact_status client_id c = record {
  service_id = 1;
  attribute = 0;
  fields = (0, client_id) ∷ (1, client_id) ∷ contact_fields c;
}
