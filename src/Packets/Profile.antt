-- ===== src/Packets/Profile.antt =====
-- Server/Builders/ClientProfile.h and src/Server/Builders/ClientProfile.cpp: the client's profile.
pub mod Text
pub mod Groups
use giblet.Common.{List, [], ◌∷◌, ◌++◌, Bytes, codes}
use giblet.Common.{none, some}
use giblet.Packets.{Packet}
use giblet.Contacts.{ContactManager}
use giblet.Profiles.{ProfileManager}
use giblet.Map
use giblet.Map.{Map}

unfoldable pub pop_back : Bytes → Bytes
pop_back [] = []
pop_back (c ∷ []) = []
pop_back (c ∷ d ∷ s) = c ∷ pop_back (d ∷ s)

-- The loop that writes a name and a comma for each entry.
unfoldable pub comma_loop : Bytes → List Bytes → Bytes
comma_loop out [] = out
comma_loop out (name ∷ names) = comma_loop (out ++ name ++ b',' ∷ []) names

-- The names behind `out` with commas between them: the last comma is taken off again.
unfoldable pub comma_separated : Bytes → List Bytes → Bytes
unfolding comma_loop pop_back
comma_separated out [] = out
comma_separated out (name ∷ names) = pop_back (comma_loop out (name ∷ names))

-- The loop over the profile names, each behind a comma.
unfoldable pub profile_names : Bytes → List Bytes → Bytes
profile_names out [] = out
profile_names out (name ∷ names) = profile_names (out ++ b',' ∷ [] ++ name) names

-- The loop over the groups.
unfoldable pub contact_list : Bytes → Map (List Bytes) → Bytes
unfolding comma_separated
contact_list out [] = out
contact_list out ((group, ids) ∷ groups) =
    contact_list (comma_separated (out ++ group ++ b':' ∷ []) ids ++ b'\n' ∷ []) groups

-- `contactList[group].push_back(id)`.
unfoldable pub push_contact : Bytes → Bytes → Map (List Bytes) → Map (List Bytes)
unfolding Map.find Map.assign Map.emplace
push_contact group id groups = elim (Map.find group groups) [
  | none ↦ Map.emplace group (id ∷ []) groups
  | some ids ↦ Map.assign group (ids ++ id ∷ []) groups
]

-- The contacts by group, from the groups found so far.
unfoldable pub group_contacts : Map (List Bytes) → ContactManager → Map (List Bytes)
unfolding push_contact
group_contacts groups [] = groups
group_contacts groups ((key, c) ∷ contacts) =
    group_contacts (push_contact c.group c.id groups) contacts

unfoldable pub client_profile_of : Bytes → Map (List Bytes) → List Bytes → List Bytes → Packet
unfolding contact_list comma_separated profile_names
client_profile_of client_id groups names ignored = record {
  service_id = 85;
  attribute = 0;
  fields =
      (87, contact_list [] groups)
      ∷ (88, comma_separated [] ignored)
      ∷ (89, profile_names client_id names)
      ∷ (59, [])
      ∷ (59, [])
      ∷ (59, [])
      ∷ (90, codes "0")
      ∷ (3, client_id)
      ∷ (100, codes "0")
      ∷ (101, [])
      ∷ (102, [])
      ∷ (93, codes "1440")
      ∷ (149, codes "zyeAQ1BXFCy3bxoFj6jgTg--")
      ∷ (150, codes "78zL3ked8mbTjdBp8tCDCw--")
      ∷ (151, codes "u301TRymraydeTDywSe_7Q--")
      ∷ [];
}

-- `ClientProfile::Build` from the three managers.
unfoldable pub client_profile : Bytes → ProfileManager → ContactManager → List Bytes → Packet
unfolding client_profile_of group_contacts
client_profile client_id profiles contacts blocked =
    client_profile_of client_id (group_contacts [] contacts) profiles.profiles blocked
