-- ===== src/Packets/Profile/Groups.antt =====
-- The contacts of a profile by group.
use giblet.Common.{
  ◌≡◌, refl, sym, ◌∙◌, ap, List, [], ◌∷◌, ◌++◌, append_assoc, append-nil, Bytes, Option, none, some,
  equals, equals_iff, if◌then◌else◌, Bool-cases, Option-cases, inl, inr,
}
use giblet.Map
use giblet.Map.{Map}
use giblet.Map.Laws.{find-emplace, find-assign}
use giblet.Contacts.{ContactManager}
use giblet.Packets.Profile.{push_contact, group_contacts}

-- The ids of the contacts in a group, in the order of the contact list.
abbrev pub ids_in : Bytes → ContactManager → List Bytes
ids_in group [] = []
ids_in group ((key, c) ∷ contacts) =
    if equals c.group group then c.id ∷ ids_in group contacts else ids_in group contacts

-- Ids behind those that a group has already; a group with no id is not there.
abbrev pub extended : Option (List Bytes) → List Bytes → Option (List Bytes)
extended none [] = none
extended none (id ∷ ids) = some (id ∷ ids)
extended (some before) ids = some (before ++ ids)

find-push_contact :
    (group id j : Bytes) (groups : Map (List Bytes))
    → Map.find j (push_contact group id groups)
      ≡ (if equals group j then extended (Map.find j groups) (id ∷ []) else Map.find j groups)
unfolding push_contact
find-push_contact group id j groups = elim (Option-cases (Map.find group groups)) [
  | inl missing ↦
      rw (missing, push_contact)
        (find-emplace group j (id ∷ []) groups missing ∙ elim (Bool-cases (equals group j)) [
          | inl same ↦ rw same (rw (← (equals_iff group j).0 same) (rw missing))
          | inr other ↦ rw other
        ])
  | inr (ids, there) ↦
      rw (there, push_contact)
        (find-assign group j (ids ++ id ∷ []) groups (λ missing. cc)
          ∙ elim (Bool-cases (equals group j)) [
            | inl same ↦ rw same (rw (← (equals_iff group j).0 same) (rw there))
            | inr other ↦ rw other
          ])
]

extended-extended :
    (o : Option (List Bytes)) (id : Bytes) (ids : List Bytes)
    → extended (extended o (id ∷ [])) ids ≡ extended o (id ∷ ids)
extended-extended none id ids = refl
extended-extended (some before) id ids = ap some (simp append_assoc)

extended-nil : (o : Option (List Bytes)) → extended o [] ≡ o
extended-nil none = refl
extended-nil (some before) = ap some (append-nil before)

find-group_contacts_onto :
    (group : Bytes) (groups : Map (List Bytes)) (contacts : ContactManager)
    → Map.find group (group_contacts groups contacts)
      ≡ extended (Map.find group groups) (ids_in group contacts)
unfolding group_contacts
find-group_contacts_onto group groups [] = sym (extended-nil (Map.find group groups))
find-group_contacts_onto group groups ((key, c) ∷ contacts) =
    find-group_contacts_onto group (push_contact c.group c.id groups) contacts
    ∙ ap (λ o. extended o (ids_in group contacts)) (find-push_contact c.group c.id group groups)
    ∙ elim (Bool-cases (equals c.group group)) [
      | inl same ↦ rw same (extended-extended (Map.find group groups) c.id (ids_in group contacts))
      | inr other ↦ rw other
    ]

-- The contacts that a profile lists under a group are exactly the contacts of the contact list with that
-- group, in the order of the contact list; a group that no contact has is not listed.
pub find-group_contacts :
    (group : Bytes) (contacts : ContactManager)
    → Map.find group (group_contacts [] contacts) ≡ extended none (ids_in group contacts)
find-group_contacts group contacts =
    find-group_contacts_onto group [] contacts ∙ (unfold Map.find in refl)
